-- ===== src/BloomFilter/Membership/Sizes.antt =====
-- `make` and `clear`, and what one `add` does to the strings that `exists` finds.
use Prim.Native.Nat.{bit_and, bit_and-bitwise}
use monero_sci_parser.Base.{
  ℕ, zero, ◌+◌, ◌*◌, ◌/◌, ◌%◌, ◌^◌, ◌<◌, ◌≡◌, ◌≢◌, refl, ◌∙◌, Bool, true, false, List, [], ◌∷◌,
  arith, All-replicate, get_or, replicate, length-replicate, get_or-replicate, u32_mod,
}
use monero_sci_parser.HashFn.{HashFn, hash_of}
use monero_sci_parser.BloomFilter.{
  BloomFilter, make, is_bit_set, add, exists, clear, c_string, add_c_string, exists_c_string,
}
use monero_sci_parser.BloomFilter.Bits.{IsByte}
use monero_sci_parser.BloomFilter.Membership.{
  IsValid, covered, exists-covered, add_all, exists-add_all, add-IsValid, add-is_bit_set, add-sizes,
}

no_bits : (n : ℕ) → bit_and 0 n ≡ 0
no_bits n = simp bit_and-bitwise

is_bit_set-zeros : (n k : ℕ) → is_bit_set (replicate n 0) k ≡ false
unfolding is_bit_set
is_bit_set-zeros n k =
    let none_there : get_or (replicate n 0) (k / 8) 0 ≡ 0 = get_or-replicate n (k / 8) (zero) in
    rw (none_there, no_bits (2 ^ (k % 8)))

-- The sizes of the constructor make a well-formed filter, as long as they stay below the wrap.
pub make-IsValid :
    (per count : ℕ) (hs : List HashFn) → per * count + 8 < u32_mod → IsValid (make per count hs)
unfolding make
make-IsValid per count hs small = record {
  bytes = All-replicate IsByte _ 0 (omega arith);
  sized = length-replicate _ 0;
  bits = omega arith;
  some_bits = omega arith;
}

covered-of_none :
    (hs : List HashFn) (bits : ℕ) (input : List ℕ) (on : ℕ → Bool)
    → ((k : ℕ) → on k ≡ false)
    → hs ≢ []
    → covered hs bits input on ≡ false
covered-of_none [] bits input on off some_fns = absurd (some_fns refl)
covered-of_none (h ∷ hs) bits input on off some_fns = rw (off (hash_of h input % bits))

-- A filter with at least one functor finds nothing once it is cleared.
pub exists-clear : (b : BloomFilter) (x : List ℕ) → b.hash_fns ≢ [] → exists (clear b) x ≡ false
exists-clear b x some_fns =
    exists-covered (clear b) x
    ∙ unfold clear in
      covered-of_none b.hash_fns b.bit_buffer_size x _ (is_bit_set-zeros b.byte_buffer_size)
        some_fns

covered_mono :
    (hs : List HashFn) (bits : ℕ) (input : List ℕ) (on more : ℕ → Bool)
    → ((k : ℕ) → on k ≡ true → more k ≡ true)
    → covered hs bits input on ≡ true
    → covered hs bits input more ≡ true
covered_mono [] bits input on more h c = refl
covered_mono (f ∷ fs) bits input on more h c =
    ground (arith, h (hash_of f input % bits), covered_mono fs bits input on more h)

-- `add` makes its string exist.
pub exists-add_self : {b : BloomFilter} (x : List ℕ) → IsValid b → exists (add b x) x ≡ true
exists-add_self {b} x v = unfold add_all in exists-add_all b [] x [] v

-- `add` loses no string.
pub exists-add_mono :
    {b : BloomFilter} (x y : List ℕ) → IsValid b → exists b y ≡ true → exists (add b x) y ≡ true
exists-add_mono {b} x y v h =
    let s = add-sizes b x in
    rw (exists-covered (add b x) y, s.0, s.1)
      (covered_mono b.hash_fns b.bit_buffer_size y (is_bit_set b.buffer) _
        (λ k e. rw (add-is_bit_set x k v, e) (ground arith)) (rw exists-covered at h))

-- The same for the strings that end at their first zero byte.
pub exists_c_string-add_self :
    {b : BloomFilter} (sz : List ℕ) → IsValid b → exists_c_string (add_c_string b sz) sz ≡ true
exists_c_string-add_self sz v =
    unfold exists_c_string add_c_string in exists-add_self (c_string sz) v

pub exists_c_string-add_mono :
    {b : BloomFilter} (sz other : List ℕ)
    → IsValid b
    → exists_c_string b other ≡ true
    → exists_c_string (add_c_string b sz) other ≡ true
exists_c_string-add_mono sz other v h =
    unfold exists_c_string add_c_string in exists-add_mono (c_string sz) (c_string other) v h

pub add_c_string-IsValid : {b : BloomFilter} (sz : List ℕ) → IsValid b → IsValid (add_c_string b sz)
add_c_string-IsValid sz v = unfold add_c_string in add-IsValid (c_string sz) v
