-- ===== src/BloomFilter/Membership.antt =====
-- What `add`, `exists` and `clear` promise: every added string is found again, and a bit is set
-- only by a hash of an added string.
pub mod Sizes
use Prim.Native.Nat.{bit_and, bit_and-bitwise}
use monero_sci_parser.Base.{
  ℕ, zero, suc, ◌+◌, ◌*◌, ◌/◌, ◌%◌, ◌^◌, ◌<◌, ◌≤◌, ◌≡◌, ◌≢◌, refl, ap, ◌∙◌, inl, inr, Bool, true,
  false, not, ◌&&◌, ◌||◌, List, [], ◌∷◌, ◌++◌, arith, ◌==◌, Bool-cases, All, All-replicate, get_or,
  length, replicate, length-replicate, get_or-replicate, u32, u32_mod,
}
use monero_sci_parser.HashFn.{HashFn, hash_of}
use monero_sci_parser.BloomFilter.{
  BloomFilter, make, set_bit, is_bit_set, add_loop, add, exists_loop, exists, clear, c_string,
  add_c_string, exists_c_string,
}
use monero_sci_parser.BloomFilter.Bits.{IsByte, is_bit_set-set_bit, set_bit-bytes, length-set_bit}

-- The buffer has the announced size, its bits are counted without wrap, and there is one at least.
pub record IsValid (b : BloomFilter) : Type 0 where
  pub bytes : All IsByte b.buffer
  pub sized : length b.buffer ≡ b.byte_buffer_size
  pub bits : b.bit_buffer_size ≡ b.byte_buffer_size * 8
  pub some_bits : 0 < b.bit_buffer_size

-- A hash of the input falls on bit `k`.
abbrev pub hits : List HashFn → ℕ → List ℕ → ℕ → Bool
hits [] bits input k = false
hits (h ∷ hs) bits input k = hash_of h input % bits == k || hits hs bits input k

-- Every hash of the input falls on a set bit.
abbrev pub covered : List HashFn → ℕ → List ℕ → (ℕ → Bool) → Bool
covered [] bits input on = true
covered (h ∷ hs) bits input on = on (hash_of h input % bits) && covered hs bits input on

exists_loop-covered :
    (hs : List HashFn) (bits : ℕ) (input buffer : List ℕ) (all_set : Bool)
    → exists_loop hs bits input buffer all_set
      ≡ (all_set && covered hs bits input (is_bit_set buffer))
unfolding exists_loop
exists_loop-covered [] bits input buffer all_set = ground arith
exists_loop-covered (h ∷ hs) bits input buffer all_set = ground (
  arith,
  exists_loop-covered hs bits input buffer (all_set && is_bit_set buffer (hash_of h input % bits)),
)

-- `exists` is the plain conjunction over the functors.
pub exists-covered :
    (b : BloomFilter) (input : List ℕ)
    → exists b input ≡ covered b.hash_fns b.bit_buffer_size input (is_bit_set b.buffer)
exists-covered b input =
    unfold exists in exists_loop-covered b.hash_fns b.bit_buffer_size input b.buffer true

-- A buffer of bytes with the given number of bits.
record Fits (bits : ℕ) (buffer : List ℕ) : Type 0 where
  bytes : All IsByte buffer
  sized : length buffer * 8 ≡ bits

module _ (bits : ℕ) (some_bits : 0 < bits) (input : List ℕ) where
  set_bit-Fits :
      (buffer : List ℕ) (x : ℕ) → Fits bits buffer → Fits bits (set_bit buffer (x % bits))
  set_bit-Fits buffer x f = record {
    bytes = set_bit-bytes buffer (x % bits) f.bytes (omega (arith, f.sized));
    sized = omega (arith, length-set_bit buffer (x % bits), f.sized);
  }

  add_loop-Fits :
      (hs : List HashFn) (buffer : List ℕ)
      → Fits bits buffer
      → Fits bits (add_loop hs bits input buffer)
  unfolding add_loop
  add_loop-Fits [] buffer f = f
  add_loop-Fits (h ∷ hs) buffer f =
      add_loop-Fits hs (set_bit buffer (hash_of h input % bits))
        (set_bit-Fits buffer (hash_of h input) f)

  add_loop-hits :
      (hs : List HashFn) (buffer : List ℕ) (k : ℕ)
      → Fits bits buffer
      → is_bit_set (add_loop hs bits input buffer) k ≡ (hits hs bits input k || is_bit_set buffer k)
  unfolding add_loop
  add_loop-hits [] buffer k f = refl
  add_loop-hits (h ∷ hs) buffer k f =
      let x = hash_of h input % bits in
      ground (
        arith,
        add_loop-hits hs (set_bit buffer x) k (set_bit-Fits buffer (hash_of h input) f),
        is_bit_set-set_bit buffer x f.bytes (omega (arith, f.sized)) k,
      )

-- A filter that `add` has filled with the given strings, one after the other.
pub add_all : BloomFilter → List (List ℕ) → BloomFilter
add_all b [] = b
add_all b (x ∷ xs) = add_all (add b x) xs

-- Some string of the list has a hash on bit `k`.
abbrev pub hit_by : BloomFilter → List (List ℕ) → ℕ → Bool
hit_by b [] k = false
hit_by b (x ∷ xs) k = hits b.hash_fns b.bit_buffer_size x k || hit_by b xs k

IsValid-Fits : {b : BloomFilter} → IsValid b → Fits b.bit_buffer_size b.buffer
IsValid-Fits v = record { bytes = v.bytes; sized = omega (arith, v.sized, v.bits) }

-- `add` keeps a well-formed filter well formed.
pub add-IsValid : {b : BloomFilter} (x : List ℕ) → IsValid b → IsValid (add b x)
unfolding add
add-IsValid {b} x v =
    let f = add_loop-Fits b.bit_buffer_size v.some_bits x b.hash_fns b.buffer (IsValid-Fits v) in
    record {
      bytes = f.bytes;
      sized = omega (arith, f.sized, v.bits);
      bits = v.bits;
      some_bits = v.some_bits;
    }

pub add-is_bit_set :
    {b : BloomFilter} (x : List ℕ) (k : ℕ)
    → IsValid b
    → is_bit_set (add b x).buffer k
      ≡ (hits b.hash_fns b.bit_buffer_size x k || is_bit_set b.buffer k)
add-is_bit_set {b} x k v =
    unfold add in
    add_loop-hits b.bit_buffer_size v.some_bits x b.hash_fns b.buffer k (IsValid-Fits v)

pub add-sizes :
    (b : BloomFilter) (x : List ℕ)
    → ((add b x).hash_fns ≡ b.hash_fns) × ((add b x).bit_buffer_size ≡ b.bit_buffer_size)
unfolding add
add-sizes b x = (refl, refl)

add-hit_by :
    (b : BloomFilter) (x : List ℕ) (xs : List (List ℕ)) (k : ℕ)
    → hit_by (add b x) xs k ≡ hit_by b xs k
unfolding add
add-hit_by b x [] k = refl
add-hit_by b x (y ∷ ys) k =
    ap (λ t. hits b.hash_fns b.bit_buffer_size y k || t) (add-hit_by b x ys k)

add_all-IsValid : {b : BloomFilter} (xs : List (List ℕ)) → IsValid b → IsValid (add_all b xs)
unfolding add_all
add_all-IsValid {b} [] v = v
add_all-IsValid {b} (x ∷ xs) v = add_all-IsValid {b = add b x} xs (add-IsValid x v)

add_all-sizes :
    (b : BloomFilter) (xs : List (List ℕ))
    → ((add_all b xs).hash_fns ≡ b.hash_fns) × ((add_all b xs).bit_buffer_size ≡ b.bit_buffer_size)
unfolding add_all
add_all-sizes b [] = (refl, refl)
add_all-sizes b (x ∷ xs) = (
  (add_all-sizes (add b x) xs).0 ∙ (add-sizes b x).0,
  (add_all-sizes (add b x) xs).1 ∙ (add-sizes b x).1,
)

-- After any adds to a well-formed filter, a bit is set exactly if it was set before or some added
-- string has a hash on it.
pub add_all-is_bit_set :
    (b : BloomFilter) (xs : List (List ℕ)) (k : ℕ)
    → IsValid b
    → is_bit_set (add_all b xs).buffer k ≡ (hit_by b xs k || is_bit_set b.buffer k)
unfolding add_all
add_all-is_bit_set b [] k v = refl
add_all-is_bit_set b (x ∷ xs) k v = ground (
  arith,
  add_all-is_bit_set (add b x) xs k (add-IsValid x v),
  add-hit_by b x xs k,
  add-is_bit_set x k v,
)

covered-of_hits :
    (hs : List HashFn) (bits : ℕ) (input : List ℕ) (on : ℕ → Bool)
    → ((k : ℕ) → hits hs bits input k ≡ true → on k ≡ true)
    → covered hs bits input on ≡ true
covered-of_hits [] bits input on h = refl
covered-of_hits (f ∷ fs) bits input on h =
    let first : on (hash_of f input % bits) ≡ true = h (hash_of f input % bits) (ground arith) in
    rw first (covered-of_hits fs bits input on (λ k e. h k (ground arith)))

hit_by-append :
    (b : BloomFilter) (xs : List (List ℕ)) (x : List ℕ) (ys : List (List ℕ)) (k : ℕ)
    → hits b.hash_fns b.bit_buffer_size x k ≡ true
    → hit_by b (xs ++ x ∷ ys) k ≡ true
hit_by-append b [] x ys k h = rw h
hit_by-append b (z ∷ zs) x ys k h = ground (arith, hit_by-append b zs x ys k h)

-- No false negatives: a string that was added at any point to a well-formed filter is found.
pub exists-add_all :
    (b : BloomFilter) (xs : List (List ℕ)) (x : List ℕ) (ys : List (List ℕ))
    → IsValid b
    → exists (add_all b (xs ++ x ∷ ys)) x ≡ true
exists-add_all b xs x ys v =
    let s = add_all-sizes b (xs ++ x ∷ ys) in
    rw (exists-covered (add_all b (xs ++ x ∷ ys)) x, s.0, s.1)
      (covered-of_hits b.hash_fns b.bit_buffer_size x _
        λ k e. rw (add_all-is_bit_set b (xs ++ x ∷ ys) k v, hit_by-append b xs x ys k e))
