-- ===== src/HashFn/Roll.antt =====
-- The fingerprint is the value of the input as a polynomial in the base, and the rolling update
-- computes the fingerprint of the next window.
use native.Mathlib.Nat.{pow-zero, pow-suc, mul-one, div-add-mod'}
use mathlib.Core.Option.{some-injective}
use monero_sci_parser.Base.{
  ℕ, zero, suc, ◌+◌, ◌*◌, ◌/◌, ◌%◌, ◌^◌, ◌<◌, ◌≤◌, ◌≡◌, ◌≢◌, refl, ap, ◌∙◌, Bool, List, [], ◌∷◌,
  ◌++◌, some, arith, u64, u64_mod, sub64, u64-mul, u64-mul_left, u64-mul_right, length,
  length-append, last_of,
}
use monero_sci_parser.HashFn.{
  HashFn, make_hash_fn, char_value, custom_pow, hash_loop, hash_of, roll_hash,
}
use monero_sci_parser.HashFn.Power.{custom_pow-eq-pow}

-- The polynomial that the fingerprint is the residue of: the first byte has the highest power.
pub fingerprint : ℕ → List ℕ → ℕ
fingerprint p [] = 0
fingerprint p (c ∷ cs) = char_value c * p ^ length cs + fingerprint p cs

module _ (p : ℕ) (precompute : Bool) where
  abbrev h : HashFn
  h = make_hash_fn p precompute

  pow_of : (n : ℕ) → custom_pow h.precomputed_powers h.precompute h.p n ≡ u64 (p ^ n)
  unfolding make_hash_fn
  pow_of n = custom_pow-eq-pow p n precompute

  base_of : h.p ≡ p
  unfolding make_hash_fn
  base_of = refl

  hash_loop-eq-fingerprint :
      (total : ℕ) (input : List ℕ)
      → total < u64_mod
      → hash_loop h total input ≡ u64 (total + fingerprint p input)
  unfolding hash_loop fingerprint
  hash_loop-eq-fingerprint total [] fits = omega arith
  hash_loop-eq-fingerprint total (c ∷ cs) fits =
      rw (pow_of (length cs), u64-mul_right (char_value c) (p ^ length cs))
        (hash_loop-eq-fingerprint (u64 (total + u64 (char_value c * p ^ length cs))) cs
            (omega arith)
          ∙ omega arith)

  -- The fingerprint of any input is the value of its polynomial modulo 2 ^ 64.
  pub hash_of-eq-fingerprint : (input : List ℕ) → hash_of h input ≡ u64 (fingerprint p input)
  unfolding hash_of
  hash_of-eq-fingerprint input =
      hash_loop-eq-fingerprint 0 input (omega arith) ∙ ap u64 (omega arith)

  last_of-append : (x d : ℕ) (xs : List ℕ) → last_of x (xs ++ d ∷ []) ≡ d
  last_of-append x d [] = refl
  last_of-append x d (y ∷ ys) = last_of-append y d ys

  -- The update on a window that ends with `d`, with the power in place of `customPow`.
  roll_hash-append :
      (cs : List ℕ) (d code old : ℕ)
      → roll_hash h (cs ++ d ∷ []) code old
        ≡ some (u64 (u64 (sub64 old (u64 (code * u64 (p ^ length cs))) * p) + char_value d))
  unfolding roll_hash
  roll_hash-append [] d code old = rw (pow_of 0, base_of)
  roll_hash-append (c ∷ cs) d code old =
      rw (pow_of (length (cs ++ d ∷ [])), length-append cs (d ∷ []), last_of-append c d cs, base_of)
        (ap (λ n. some (u64 (u64 (sub64 old (u64 (code * u64 (p ^ n))) * p) + char_value d)))
          (omega arith))

-- Appending a byte multiplies by the base and adds the byte.
pub fingerprint-append :
    (p : ℕ) (cs : List ℕ) (d : ℕ)
    → fingerprint p (cs ++ d ∷ []) ≡ fingerprint p cs * p + char_value d
unfolding fingerprint
fingerprint-append p [] d = rw (pow-zero p, mul-one) (omega arith)
fingerprint-append p (c ∷ cs) d =
    let longer : length (cs ++ d ∷ []) ≡ suc (length cs) =
      omega (arith, length-append cs (d ∷ [])) in
    rw (longer, pow-suc p (length cs), fingerprint-append p cs d) (omega arith)

-- The arithmetic of one update, where `a` is the first byte's contribution and `r` the others'.
roll_word : (a r p d : ℕ) → u64 (u64 (sub64 (u64 (a + r)) (u64 a) * p) + d) ≡ u64 (r * p + d)
roll_word a r p d =
    let rest : sub64 (u64 (a + r)) (u64 a) ≡ u64 r = omega arith in
    rw (rest, u64-mul_left r p) (omega arith)

module _ (p : ℕ) (precompute : Bool) (c : ℕ) (cs : List ℕ) (d : ℕ) where
  -- Where the byte that leaves the window is below 128, the update of the old window's fingerprint
  -- is the fingerprint of the new window.
  pub roll_hash-hash_of :
      c < 128
      → roll_hash
          (make_hash_fn p precompute)
          (cs ++ d ∷ [])
          c
          (hash_of (make_hash_fn p precompute) (c ∷ cs))
        ≡ some (hash_of (make_hash_fn p precompute) (cs ++ d ∷ []))
  unfolding fingerprint
  roll_hash-hash_of ascii =
      let plain : char_value c ≡ c = ground arith in
      rw
        (
          roll_hash-append p precompute cs d,
          hash_of-eq-fingerprint p precompute (c ∷ cs),
          hash_of-eq-fingerprint p precompute (cs ++ d ∷ []),
          u64-mul_right c (p ^ length cs),
          fingerprint-append p cs d,
          plain,
        )
        (ap some (roll_word (c * p ^ length cs) (fingerprint p cs) p (char_value d)))

odd_product : (a b : ℕ) → a % 2 ≡ 1 → b % 2 ≡ 1 → a * b % 2 ≡ 1
odd_product a b ha hb =
    let parts : a * b ≡ 2 * (a / 2 * b) + b =
      omega (arith, ap (λ (t : ℕ). t * b) (div-add-mod' a 2), ap (λ (t : ℕ). t * b) ha) in
    omega arith

odd_power : (p n : ℕ) → p % 2 ≡ 1 → p ^ n % 2 ≡ 1
odd_power p zero odd = rw (pow-zero p) (omega arith)
odd_power p (suc n) odd = rw (pow-suc p n) (odd_product (p ^ n) p (odd_power p n odd) odd)

-- The same arithmetic where the byte was added as `v` and is subtracted as `c`, 256 too many.
roll_word_high :
    (v c q r p d : ℕ)
    → v + 256 ≡ c + u64_mod
    → q % 2 ≡ 1
    → p % 2 ≡ 1
    → u64 (u64 (sub64 (u64 (v * q + r)) (u64 (c * q)) * p) + d) ≢ u64 (r * p + d)
roll_word_high v c q r p d e odd_q odd_p same =
    let s = sub64 (u64 (v * q + r)) (u64 (c * q)) in
    let shifted : u64 (s + 256 * q) ≡ u64 r = omega (arith, ap (λ (t : ℕ). t * q) e) in
    let scaled : u64 ((s + 256 * q) * p) ≡ u64 (r * p) = u64-mul _ r p p shifted refl in
    omega (arith, odd_product q p odd_q odd_p)

-- The source subtracts the byte that leaves as `unsigned char` and added it as `char`: for a byte
-- from 128 on and an odd base the update is not the fingerprint of the new window.
pub roll_hash-ne-hash_of :
    (p : ℕ) (precompute : Bool) (c : ℕ) (cs : List ℕ) (d : ℕ)
    → 128 ≤ c
    → c < 256
    → p % 2 ≡ 1
    → roll_hash
        (make_hash_fn p precompute)
        (cs ++ d ∷ [])
        c
        (hash_of (make_hash_fn p precompute) (c ∷ cs))
      ≢ some (hash_of (make_hash_fn p precompute) (cs ++ d ∷ []))
unfolding fingerprint
roll_hash-ne-hash_of p precompute c cs d high byte odd =
    rw
      (
        roll_hash-append p precompute cs d,
        hash_of-eq-fingerprint p precompute (c ∷ cs),
        hash_of-eq-fingerprint p precompute (cs ++ d ∷ []),
        u64-mul_right c (p ^ length cs),
        fingerprint-append p cs d,
      )
      (λ same.
        roll_word_high (char_value c) c (p ^ length cs) (fingerprint p cs) p (char_value d)
          (ground arith) (odd_power p (length cs) odd) odd (some-injective _ _ same))
