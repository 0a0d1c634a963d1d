-- ===== src/BloomFilter/Bits.antt =====
-- One bit of the buffer: writing it makes it set and leaves the others.
use Prim.Native.Nat.{bit_and, bit_or}
use native.Mathlib.Decide.{ℕ_discrete}
use monero_sci_parser.Base.{
  ℕ, zero, suc, ◌/◌, ◌%◌, ◌^◌, ◌<◌, ◌≡◌, refl, ap, ◌∙◌, Bool, true, false, not, ◌&&◌, ◌||◌, List,
  arith, ◌==◌, if◌then◌else◌, ltb, ltb→lt, All, All-set, All-get_or, get_or, length, length-set,
  get_or-set_self, get_or-set_ne,
}
use monero_sci_parser.BloomFilter.{set_bit, is_bit_set}

abbrev pub IsByte : ℕ → Type 0
IsByte b = b < 256

-- A test holds of the first `count` numbers.
holds_of_first : (ℕ → Bool) → ℕ → Bool
holds_of_first test zero = true
holds_of_first test (suc last) =
    let others = holds_of_first test last in if test last then others else false

holds_of_first-at :
    (test : ℕ → Bool) (count i : ℕ) → i < count → holds_of_first test count ≡ true → test i ≡ true
unfolding holds_of_first
holds_of_first-at test zero i below checked = absurd (omega arith)
holds_of_first-at test (suc last) i below checked = ground (arith, holds_of_first-at test last i)

abbrev has_bit : ℕ → ℕ → Bool
has_bit b j = not (bit_and b (2 ^ j) == 0)

abbrev same_bool : Bool → Bool → Bool
same_bool true x = x
same_bool false x = not x

same_bool-eq : (x y : Bool) → same_bool x y ≡ true → x ≡ y
same_bool-eq x y h = ground arith

and_left : (x y : Bool) → (x && y) ≡ true → x ≡ true
and_left x y h = ground arith

and_right : (x y : Bool) → (x && y) ≡ true → y ≡ true
and_right x y h = ground arith

-- What writing bit `j` of the byte `b` does to its bit `k`.
abbrev byte_law : ℕ → ℕ → ℕ → Bool
byte_law b j k =
    ltb (bit_or b (2 ^ j)) 256 && same_bool (has_bit (bit_or b (2 ^ j)) k) (j == k || has_bit b k)

byte_rows : ℕ → ℕ → Bool
byte_rows b j = holds_of_first (byte_law b j) 8

byte_pages : ℕ → Bool
unfolding byte_rows
byte_pages b = holds_of_first (byte_rows b) 8

byte_table : holds_of_first byte_pages 256 ≡ true
unfolding holds_of_first byte_pages byte_rows
byte_table = refl

byte_lem : (b j k : ℕ) → b < 256 → j < 8 → k < 8 → byte_law b j k ≡ true
byte_lem b j k hb hj hk =
    let page : byte_pages b ≡ true = holds_of_first-at byte_pages 256 b hb byte_table in
    let row : byte_rows b j ≡ true =
      holds_of_first-at (byte_rows b) 8 j hj (unfold byte_pages in page) in
    holds_of_first-at (byte_law b j) 8 k hk (unfold byte_rows in row)

module _ (buffer : List ℕ) (l : ℕ) (bytes : All IsByte buffer)
    (inside : l / 8 < length buffer) where
  abbrev old : ℕ
  old = get_or buffer (l / 8) 0

  old_lem : (k : ℕ) → byte_law old (l % 8) (k % 8) ≡ true
  old_lem k =
      byte_lem old (l % 8) (k % 8) (All-get_or IsByte buffer (l / 8) 0 (omega arith) bytes)
        (omega arith) (omega arith)

  old_bit :
      (k : ℕ) → has_bit (bit_or old (2 ^ (l % 8))) (k % 8) ≡ (l % 8 == k % 8 || has_bit old (k % 8))
  old_bit k = same_bool-eq _ _ (and_right (ltb (bit_or old (2 ^ (l % 8))) 256) _ (old_lem k))

  -- Writing bit `l` sets that bit and leaves every other.
  pub is_bit_set-set_bit :
      (k : ℕ) → is_bit_set (set_bit buffer l) k ≡ (l == k || is_bit_set buffer k)
  unfolding is_bit_set set_bit
  is_bit_set-set_bit k = elim (ℕ_discrete (l / 8) (k / 8)) [
    | yes same ↦
        let same_place : (l % 8 == k % 8) ≡ (l == k) = ground arith in
        rw (← same, get_or-set_self buffer (l / 8) (bit_or old (2 ^ (l % 8))) 0 inside)
          (old_bit k ∙ ap (λ t. t || has_bit (get_or buffer (l / 8) 0) (k % 8)) same_place)
    | no other ↦
        rw (get_or-set_ne buffer (l / 8) (k / 8) (bit_or old (2 ^ (l % 8))) 0 other) (ground arith)
  ]

  pub set_bit-bytes : All IsByte (set_bit buffer l)
  unfolding set_bit
  set_bit-bytes =
      All-set IsByte buffer (l / 8) (bit_or old (2 ^ (l % 8)))
        (ltb→lt _ _ (and_left _ _ (old_lem 0))) bytes

pub length-set_bit : (buffer : List ℕ) (l : ℕ) → length (set_bit buffer l) ≡ length buffer
unfolding set_bit
length-set_bit buffer l = length-set buffer (l / 8) _
