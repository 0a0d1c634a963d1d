-- ===== src/HashFn.antt =====
-- src/hashFn.h and src/hashFn.cpp: the Rabin fingerprint functor. A `uint64_t` is a number below
-- 2 ^ 64; a `const char *` with its length is the list of the bytes (0 to 255) that are read.
pub mod Power
pub mod Roll
use monero_sci_parser.Base.{
  ℕ, zero, suc, ◌+◌, ◌-◌, ◌*◌, ◌/◌, ◌%◌, ◌^◌, Bool, true, false, Option, none, some, List, [], ◌∷◌,
  u64, sub64, ltb, ◌==◌, ◌&&◌, if◌then◌else◌, get_or, length, last_of,
}

-- `precomputedArraySize`: the size of `uint64Array`.
abbrev pub precomputed_array_size : ℕ
precomputed_array_size = 30

-- `p` holds `(uint64_t) p`. Without `precompute` the source leaves the array unset and never reads
-- it; here it is empty.
pub record HashFn : Type 0 where
  pub p : ℕ
  pub precompute : Bool
  pub precomputed_powers : List ℕ

-- The loop of the constructor: `left` powers from `result` on.
pub powers_from : ℕ → ℕ → ℕ → List ℕ
powers_from p zero result = []
powers_from p (suc left) result = result ∷ powers_from p left (u64 (result * p))

-- `HashFn::HashFn`
unfoldable pub make_hash_fn : ℕ → Bool → HashFn
unfolding powers_from
make_hash_fn p precompute = record {
  p = p;
  precompute = precompute;
  precomputed_powers = if precompute then powers_from p precomputed_array_size 1 else [];
}

-- `while (exp) { if (exp & 1) result *= base; exp >>= 1; base *= base; }`. The fuel is `exp` itself.
pub pow_loop : ℕ → ℕ → ℕ → ℕ → ℕ
pow_loop zero exp base result = result
pow_loop (suc fuel) exp base result = elim (exp == 0) [
  | true ↦ result
  | false ↦
      pow_loop fuel (exp / 2) (u64 (base * base))
        (if exp % 2 == 1 then u64 (result * base) else result)
]

-- `customPow`
pub custom_pow : List ℕ → Bool → ℕ → ℕ → ℕ
unfolding pow_loop
custom_pow precomputed_powers use_precomputed base exp =
    if use_precomputed && ltb exp precomputed_array_size
    then get_or precomputed_powers exp 0
    else pow_loop exp exp base 1

-- A `char` is signed: as a `uint64_t` a byte from 128 on stands for itself less 256.
abbrev pub char_value : ℕ → ℕ
char_value c = if ltb c 128 then c else sub64 c 256

-- The loop of `operator()(input, len)`; `len - i - 1` is the number of bytes behind the current one.
pub hash_loop : HashFn → ℕ → List ℕ → ℕ
unfolding custom_pow
hash_loop h total [] = total
hash_loop h total (c ∷ cs) =
    hash_loop h
      (u64
        (total + u64 (char_value c * custom_pow h.precomputed_powers h.precompute h.p (length cs))))
      cs

-- `HashFn::operator()(input, len)`
unfoldable pub hash_of : HashFn → List ℕ → ℕ
unfolding hash_loop
hash_of h input = hash_loop h 0 input

-- `HashFn::operator()(input, len, lastCharCode, lastHash)`. With no input the source reads the
-- array at -1 and the input at -1, which is undefined.
unfoldable pub roll_hash : HashFn → List ℕ → ℕ → ℕ → Option ℕ
unfolding custom_pow
roll_hash h [] last_char_code last_hash = none
roll_hash h (c ∷ cs) last_char_code last_hash =
    let pow = custom_pow h.precomputed_powers h.precompute h.p (length cs) in
    some
      (u64 (u64 (sub64 last_hash (u64 (last_char_code * pow)) * h.p) + char_value (last_of c cs)))
