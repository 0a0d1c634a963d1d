-- ===== src/Base/Word.antt =====
-- `uint64_t` arithmetic: a word is a number below 2 ^ 64, and every operation is taken modulo 2 ^ 64.
use Prim.Native.Nat.{ℕ, zero, suc, ◌+◌, ◌-◌, ◌*◌, ◌/◌, ◌%◌, ◌^◌}
use mathlib.Core.Path.{◌≡◌, ap, ◌∙◌, sym}
use native.Mathlib.Nat.{
  pow-zero, pow-suc, div-add-mod', mul_comm, add-zero, add-suc, mul-one, mul_assoc,
}
use native.Mathlib.Omega.{arith}

abbrev pub u64_mod : ℕ
u64_mod = 2 ^ 64

abbrev pub u32_mod : ℕ
u32_mod = 2 ^ 32

abbrev pub u64 : ℕ → ℕ
u64 n = n % u64_mod

abbrev pub u32 : ℕ → ℕ
u32 n = n % u32_mod

-- a - b on `uint64_t`, for b below the modulus
abbrev pub sub64 : ℕ → ℕ → ℕ
sub64 a b = u64 (a + u64_mod - b)

pub u64-mul_left : (a b : ℕ) → u64 (u64 a * b) ≡ u64 (a * b)
u64-mul_left a b = omega (arith, ap (λ (t : ℕ). t * b) (div-add-mod' a u64_mod))

pub u64-mul_right : (a b : ℕ) → u64 (a * u64 b) ≡ u64 (a * b)
u64-mul_right a b = ap u64 (mul_comm a (u64 b)) ∙ u64-mul_left b a ∙ ap u64 (mul_comm b a)

pub u64-mul : (a b c d : ℕ) → u64 a ≡ u64 b → u64 c ≡ u64 d → u64 (a * c) ≡ u64 (b * d)
u64-mul a b c d p q =
    sym (u64-mul_left a c)
    ∙ ap (λ t. u64 (t * c)) p
    ∙ u64-mul_left b c
    ∙ sym (u64-mul_right b c)
    ∙ ap (λ t. u64 (b * t)) q
    ∙ u64-mul_right b d

pub u64-pow : (a b n : ℕ) → u64 a ≡ u64 b → u64 (a ^ n) ≡ u64 (b ^ n)
u64-pow a b zero p = ap u64 (pow-zero a ∙ sym (pow-zero b))
u64-pow a b (suc n) p = rw (pow-suc a n, pow-suc b n) (u64-mul _ _ _ _ (u64-pow a b n p) p)

pub u64-add : (a b c d : ℕ) → u64 a ≡ u64 b → u64 c ≡ u64 d → u64 (a + c) ≡ u64 (b + d)
u64-add a b c d p q = omega arith

pub pow_add : (b m n : ℕ) → b ^ (m + n) ≡ b ^ m * b ^ n
pow_add b m zero = rw (add-zero, pow-zero, mul-one)
pow_add b m (suc n) =
    rw (add-suc, pow-suc, pow-suc b n, pow_add b m n) (mul_assoc (b ^ m) (b ^ n) b)

pub pow_double : (b k : ℕ) → (b * b) ^ k ≡ b ^ (k + k)
pow_double b zero = rw (pow-zero (b * b)) (sym (pow-zero b))
pow_double b (suc k) =
    let two_more : suc k + suc k ≡ suc (suc (k + k)) = omega arith in
    rw (two_more, pow-suc (b * b), pow-suc b (suc (k + k)), pow-suc b (k + k), pow_double b k)
      (sym (mul_assoc (b ^ (k + k)) b b))

-- One round of square and multiply.
pub pow_halves : (b n : ℕ) → b ^ n ≡ (b * b) ^ (n / 2) * b ^ (n % 2)
pow_halves b n =
    let halves : n ≡ n / 2 + n / 2 + n % 2 = omega arith in
    ap (λ t. b ^ t) halves
    ∙ pow_add b (n / 2 + n / 2) (n % 2)
    ∙ ap (λ t. t * b ^ (n % 2)) (sym (pow_double b (n / 2)))
