-- ===== src/BloomFilter/Substring.antt =====
-- `substringExists` on ASCII data: the rolling hashes find exactly the windows that `exists` finds.
use native.Mathlib.Nat.{mod-lt}
use monero_sci_parser.Base.{
  ℕ, zero, suc, ◌+◌, ◌-◌, ◌<◌, ◌≤◌, ◌≡◌, refl, ap, subst, sym, inl, inr, Bool, true, false, ◌||◌,
  Option, some, List, [], ◌∷◌, ◌++◌, map, arith, Bool-cases, All, length, take, drop, tail, head_or,
  if◌then◌else◌, ◌*◌, ◌/◌, ◌%◌, ◌>>=◌, ◌∙◌, get_elem?, get_or,
}
use monero_sci_parser.HashFn.{HashFn, make_hash_fn, hash_of}
use monero_sci_parser.HashFn.Roll.{roll_hash-hash_of}
use monero_sci_parser.BloomFilter.{
  BloomFilter, exists_loop, exists, read_bit, is_bit_set, get_hashes_for_char_codes, all_bits_set,
  substring_loop, substring_exists,
}
use monero_sci_parser.BloomFilter.Membership.{IsValid}

abbrev pub IsAscii : ℕ → Type 0
IsAscii c = c < 128

-- The functors that the constructor of `HashFn` makes.
abbrev pub made : List (ℕ × Bool) → List HashFn
made [] = []
made ((p, precompute) ∷ ps) = make_hash_fn p precompute ∷ made ps

abbrev hashes : List HashFn → List ℕ → List ℕ
hashes hs input = map (λ h. hash_of h input) hs

get_hashes-first :
    (hs : List HashFn) (input last : List ℕ) (code : ℕ)
    → length last ≡ length hs
    → get_hashes_for_char_codes hs false input last code ≡ some (hashes hs input)
unfolding get_hashes_for_char_codes
get_hashes-first [] input last code sized = refl
get_hashes-first (h ∷ hs) input [] code sized = absurd (omega (arith, sized))
get_hashes-first (h ∷ hs) input (l ∷ ls) code sized =
    rw (get_hashes-first hs input ls code (omega (arith, sized)))

get_hashes-next :
    (ps : List (ℕ × Bool)) (c : ℕ) (cs : List ℕ) (d : ℕ)
    → IsAscii c
    → get_hashes_for_char_codes (made ps) true (cs ++ d ∷ []) (hashes (made ps) (c ∷ cs)) c
      ≡ some (hashes (made ps) (cs ++ d ∷ []))
unfolding get_hashes_for_char_codes
get_hashes-next [] c cs d ascii = refl
get_hashes-next ((p, precompute) ∷ ps) c cs d ascii =
    rw (roll_hash-hash_of p precompute c cs d ascii, get_hashes-next ps c cs d ascii)

get_elem?-get_or : (xs : List ℕ) (i d : ℕ) → i < length xs → get_elem? xs i ≡ some (get_or xs i d)
get_elem?-get_or [] i d inside = absurd (omega arith)
get_elem?-get_or (x ∷ xs) zero d inside = refl
get_elem?-get_or (x ∷ xs) (suc i) d inside = get_elem?-get_or xs i d (omega arith)

-- Within the buffer the bit is read.
read_bit-is_bit_set :
    (buffer : List ℕ) (i : ℕ)
    → i < length buffer * 8
    → read_bit buffer i ≡ some (is_bit_set buffer i)
unfolding read_bit is_bit_set
read_bit-is_bit_set buffer i inside = rw (get_elem?-get_or buffer (i / 8) 0 (omega arith)) refl

all_bits_set-exists_loop :
    (hs : List HashFn) (bits : ℕ) (input buffer : List ℕ) (all_set : Bool)
    → 0 < bits
    → length buffer * 8 ≡ bits
    → all_bits_set (hashes hs input) bits buffer all_set
      ≡ some (exists_loop hs bits input buffer all_set)
unfolding all_bits_set exists_loop
all_bits_set-exists_loop [] bits input buffer all_set some_bits sized = refl
all_bits_set-exists_loop (h ∷ hs) bits input buffer false some_bits sized =
    all_bits_set-exists_loop hs bits input buffer false some_bits sized
all_bits_set-exists_loop (h ∷ hs) zero input buffer true some_bits sized = absurd (omega arith)
all_bits_set-exists_loop (h ∷ hs) (suc n) input buffer true some_bits sized =
    let i = hash_of h input % suc n in
    let inside : i < length buffer * 8 = omega (arith, sized, mod-lt (hash_of h input) some_bits) in
    rw (read_bit-is_bit_set buffer i inside)
      (all_bits_set-exists_loop hs (suc n) input buffer (is_bit_set buffer i) some_bits sized)

take-append :
    (m : ℕ) (bytes : List ℕ)
    → m < length bytes
    → take (suc m) bytes ≡ take m bytes ++ head_or (drop m bytes) 0 ∷ []
take-append m [] h = absurd (omega arith)
take-append zero (b ∷ bs) h = refl
take-append (suc m) (b ∷ bs) h = ap (λ t. b ∷ t) (take-append m bs (omega arith))

-- One of the first `rounds` windows of the given width passes a test.
pub window_exists : ℕ → ℕ → (List ℕ → Bool) → List ℕ → Bool
window_exists zero width found bytes = false
window_exists (suc rounds) width found bytes =
    found (take width bytes) || window_exists rounds width found (tail bytes)

module _ (ps : List (ℕ × Bool)) (m : ℕ) where
  abbrev with_hashes : BloomFilter → List ℕ → BloomFilter
  with_hashes b l = record b { hash_fns = made ps; last_hashes = l }

  -- `record b { hash_fns = made ps }` differs from it in the last hashes only.
  abbrev Finds : BloomFilter → Option (BloomFilter × Bool) → Bool → Type 0
  Finds b result found = (l : List ℕ) × (result ≡ some (with_hashes b l, found))

  next_round :
      (b : BloomFilter) (new : List ℕ) (rest : Option (BloomFilter × Bool)) (found : Bool)
      → IsValid b
      → Finds b rest found
      → Finds b
          (all_bits_set (hashes (made ps) new) b.bit_buffer_size b.buffer true >>= (λ all_set.
            if all_set then some (with_hashes b (hashes (made ps) new), true) else rest))
          (exists (with_hashes b []) new || found)
  unfolding exists
  next_round b new rest found valid (l, e) =
      let fits : length b.buffer * 8 ≡ b.bit_buffer_size = omega (arith, valid.sized, valid.bits) in
      rw
        (all_bits_set-exists_loop (made ps) b.bit_buffer_size new b.buffer true valid.some_bits
          fits)
        (elim (Bool-cases (exists_loop (made ps) b.bit_buffer_size new b.buffer true)) [
          | inl yes_there ↦ rw yes_there (hashes (made ps) new, refl)
          | inr not_there ↦ rw not_there (l, e)
        ])

  rolling_loop :
      (rounds : ℕ) (b : BloomFilter) (c : ℕ) (bytes : List ℕ)
      → IsValid b
      → IsAscii c
      → All IsAscii bytes
      → rounds + m ≤ length bytes
      → Finds b
          (substring_loop rounds true
            (suc m)
            (with_hashes b (hashes (made ps) (c ∷ take m bytes)))
            bytes
            c)
          (window_exists rounds (suc m) (exists (with_hashes b [])) bytes)
  unfolding substring_loop window_exists
  rolling_loop zero b c bytes valid ascii all_ascii fits = (_, refl)
  rolling_loop (suc rounds) b c [] valid ascii all_ascii fits = absurd (omega arith)
  rolling_loop (suc rounds) b c (x ∷ xs) valid ascii all_ascii fits =
      let d = head_or (drop m (x ∷ xs)) 0 in
      let got =
        subst
          (λ w.
            get_hashes_for_char_codes (made ps) true w (hashes (made ps) (c ∷ take m (x ∷ xs))) c
            ≡ some (hashes (made ps) w))
          (sym (take-append m (x ∷ xs) (omega arith)))
          (get_hashes-next ps c (take m (x ∷ xs)) d ascii) in
      rw got (
        next_round b (x ∷ take m xs) _ _ valid
          (rolling_loop rounds b x xs valid all_ascii.0 all_ascii.1 (omega arith)))

  first_loop :
      (rounds : ℕ) (b : BloomFilter) (bytes : List ℕ)
      → IsValid b
      → length b.last_hashes ≡ length (made ps)
      → All IsAscii bytes
      → (0 < rounds → rounds + m ≤ length bytes)
      → Finds b
          (substring_loop rounds false (suc m) (with_hashes b b.last_hashes) bytes 0)
          (window_exists rounds (suc m) (exists (with_hashes b [])) bytes)
  unfolding substring_loop window_exists
  first_loop zero b bytes valid sized all_ascii fits = (_, refl)
  first_loop (suc rounds) b [] valid sized all_ascii fits =
      absurd (omega (arith, fits (omega arith)))
  first_loop (suc rounds) b (x ∷ xs) valid sized all_ascii fits =
      rw (get_hashes-first (made ps) (x ∷ take m xs) b.last_hashes 0 sized) (
        next_round b (x ∷ take m xs) _ _ valid (
          rolling_loop rounds b x xs valid all_ascii.0 all_ascii.1
            (omega (arith, fits (omega arith)))))

-- On ASCII bytes, for a positive length and a well-formed filter with functors that the constructor
-- made (any bases, with or without the table) and a last hash for each, `substringExists` reads
-- and writes nothing out of range, answers true exactly if `exists` holds of some window of that
-- length, and changes no member but the last hashes.
pub substring_exists-window_exists :
    (ps : List (ℕ × Bool)) (m : ℕ) (b : BloomFilter) (bytes : List ℕ)
    → IsValid b
    → b.hash_fns ≡ made ps
    → length b.last_hashes ≡ length b.hash_fns
    → All IsAscii bytes
    → (l : List ℕ) × (substring_exists b bytes (suc m)
        ≡ some (
          record b { last_hashes = l },
          window_exists (length bytes + 1 - suc m) (suc m) (exists b) bytes,
        ))
substring_exists-window_exists ps m b bytes valid e sized all_ascii =
    let rounds = length bytes + 1 - suc m in
    let same : record b { hash_fns = made ps } ≡ b = λ i. record b { hash_fns = sym e i } in
    let sized' : length b.last_hashes ≡ length (made ps) = sized ∙ ap length e in
    unfold substring_exists in
    subst
      (λ f.
        (l : List ℕ) × (substring_loop rounds false (suc m) f bytes 0
          ≡ some (record f { last_hashes = l }, window_exists rounds (suc m) (exists f) bytes)))
      same
      (unfold exists in
        first_loop ps m rounds b bytes valid sized' all_ascii (λ some_left. omega arith))
