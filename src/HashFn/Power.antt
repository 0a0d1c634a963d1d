-- ===== src/HashFn/Power.antt =====
-- `customPow` is the power modulo 2 ^ 64, through the table of the constructor and through the loop.
use native.Mathlib.Nat.{pow-zero, pow-suc, pow-succ', one-mul, mul-one}
use monero_sci_parser.Base.{
  ℕ, zero, suc, ◌*◌, ◌/◌, ◌%◌, ◌^◌, ◌<◌, ◌≤◌, ◌≡◌, refl, sym, ap, ◌∙◌, inl, inr, Bool, true, false,
  arith, u64, u64_mod, u64-mul, u64-pow, u64-mul_left, pow_halves, get_or, Bool-cases, ltb, ltb→lt,
  List,
}
use monero_sci_parser.HashFn.{powers_from, make_hash_fn, pow_loop, custom_pow}

-- A round on an odd exponent, and one on an even exponent.
odd_round : (b n r : ℕ) → n % 2 ≡ 1 → u64 (u64 (r * b) * u64 (b * b) ^ (n / 2)) ≡ u64 (r * b ^ n)
odd_round b n r odd =
    let squares : u64 (u64 (b * b) ^ (n / 2)) ≡ u64 ((b * b) ^ (n / 2)) =
      u64-pow _ _ _ (omega arith) in
    let power : b ^ n ≡ (b * b) ^ (n / 2) * b =
      rw (pow_halves b n, odd, pow-suc b 0, pow-zero b, one-mul b) refl in
    u64-mul _ (r * b) _ ((b * b) ^ (n / 2)) (omega arith) squares
    ∙ ap u64 (omega (arith, ap (λ (t : ℕ). r * t) power))

even_round : (b n r : ℕ) → n % 2 ≡ 0 → u64 (r * u64 (b * b) ^ (n / 2)) ≡ u64 (r * b ^ n)
even_round b n r even =
    let squares : u64 (u64 (b * b) ^ (n / 2)) ≡ u64 ((b * b) ^ (n / 2)) =
      u64-pow _ _ _ (omega arith) in
    let power : b ^ n ≡ (b * b) ^ (n / 2) =
      rw (pow_halves b n, even, pow-zero b) (mul-one ((b * b) ^ (n / 2))) in
    u64-mul r r _ ((b * b) ^ (n / 2)) refl squares ∙ ap u64 (ap (λ (t : ℕ). r * t) (sym power))

last_round : (b n r : ℕ) → n ≡ 0 → r < u64_mod → r ≡ u64 (r * b ^ n)
last_round b n r e fits = rw (e, pow-zero b, mul-one r) (omega arith)

-- The loop multiplies the result by the power that is left.
pow_loop-eq-pow :
    (fuel exp base result : ℕ)
    → exp ≤ fuel
    → result < u64_mod
    → pow_loop fuel exp base result ≡ u64 (result * base ^ exp)
unfolding pow_loop
pow_loop-eq-pow zero exp base result enough fits = last_round base exp result (omega arith) fits
pow_loop-eq-pow (suc fuel) exp base result enough fits = ground (
  arith,
  last_round base exp result,
  odd_round base exp result,
  even_round base exp result,
  pow_loop-eq-pow fuel (exp / 2) (u64 (base * base)) (u64 (result * base)),
  pow_loop-eq-pow fuel (exp / 2) (u64 (base * base)) result,
)

-- Entry `i` of the table is the power that follows `i` more multiplications.
powers_from-eq-pow :
    (p left result i : ℕ)
    → i < left
    → result < u64_mod
    → get_or (powers_from p left result) i 0 ≡ u64 (result * p ^ i)
unfolding powers_from
powers_from-eq-pow p zero result i h fits = absurd (omega arith)
powers_from-eq-pow p (suc left) result zero h fits = last_round p 0 result refl fits
powers_from-eq-pow p (suc left) result (suc i) h fits =
    powers_from-eq-pow p left (u64 (result * p)) i (omega arith) (omega arith)
    ∙ u64-mul_left (result * p) (p ^ i)
    ∙ ap u64 (omega (arith, ap (λ (t : ℕ). result * t) (pow-succ' p i)))

custom_pow-table :
    (powers : List ℕ) (p exp : ℕ)
    → ((i : ℕ) → i < 30 → get_or powers i 0 ≡ u64 (p ^ i))
    → custom_pow powers true p exp ≡ u64 (p ^ exp)
unfolding custom_pow
custom_pow-table powers p exp entries = elim (Bool-cases (ltb exp 30)) [
  | inl small ↦ rw small (entries exp (ltb→lt exp 30 small))
  | inr large ↦
      rw large
        (pow_loop-eq-pow exp exp p 1 (omega arith) (omega arith) ∙ ap u64 (one-mul (p ^ exp)))
]

-- For a functor that the constructor made, with or without the table, `customPow` at its base is
-- the power of the base modulo 2 ^ 64, for every exponent.
pub custom_pow-eq-pow :
    (p exp : ℕ) (precompute : Bool)
    → custom_pow (make_hash_fn p precompute).precomputed_powers precompute p exp ≡ u64 (p ^ exp)
unfolding make_hash_fn
custom_pow-eq-pow p exp true =
    custom_pow-table _ p exp
      λ i below. powers_from-eq-pow p 30 1 i below (omega arith) ∙ ap u64 (one-mul (p ^ i))
custom_pow-eq-pow p exp false =
    unfold custom_pow in
    (pow_loop-eq-pow exp exp p 1 (omega arith) (omega arith) ∙ ap u64 (one-mul (p ^ exp)))
