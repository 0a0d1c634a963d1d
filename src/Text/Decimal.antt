-- ===== src/Text/Decimal.antt =====
-- `atoi` reads back what `to_string` writes.
use mathlib.Core.Logic.{◌≢◌}
use monero_sci_parser.Base.{
  ℕ, zero, suc, ◌+◌, ◌-◌, ◌/◌, ◌%◌, ◌≤◌, ◌<◌, ◌*◌, ap, inl, inr, Bool-cases, ltb→lt, le→leb, ◌≡◌,
  ◌∙◌, refl, false, [], ◌∷◌, arith, ltb, head_or, All, length,
}
use monero_sci_parser.Text.{Str, null_text, str_eq, digits, to_string, atoi_loop, atoi}

atoi_loop-digit :
    (acc d : ℕ) (out : Str)
    → d < 10
    → atoi_loop acc ((b'0' + d) ∷ out) ≡ atoi_loop (acc * 10 + d) out
unfolding atoi_loop
atoi_loop-digit acc d out h =
    let back : b'0' + d - b'0' ≡ d = omega arith in
    rw (back, le→leb b'0' (b'0' + d) (omega arith), le→leb (b'0' + d) b'9' (omega arith))

atoi_loop-digits :
    (fuel n : ℕ) (out : Str) → n ≤ fuel → atoi_loop 0 (digits fuel n out) ≡ atoi_loop n out
unfolding digits
atoi_loop-digits zero n out h =
    atoi_loop-digit 0 n out (omega arith) ∙ ap (λ t. atoi_loop t out) (omega arith)
atoi_loop-digits (suc fuel) n out h = elim (Bool-cases (ltb n 10)) [
  | inl one ↦
      rw (one, digits)
        (atoi_loop-digit 0 n out (ltb→lt n 10 one) ∙ ap (λ t. atoi_loop t out) (omega arith))
  | inr more ↦
      rw (more, digits)
        (atoi_loop-digits fuel (n / 10) ((b'0' + n % 10) ∷ out) (omega arith)
          ∙ atoi_loop-digit (n / 10) (n % 10) out (omega arith)
          ∙ ap (λ t. atoi_loop t out) (omega arith))
]

-- `atoi` reads back every number that `to_string` writes.
pub atoi-to_string : (n : ℕ) → atoi (to_string n) ≡ n
unfolding atoi to_string
atoi-to_string n = atoi_loop-digits n n [] (omega arith)

head-digits : (fuel n : ℕ) (out : Str) → n ≤ fuel → head_or (digits fuel n out) 0 ≤ b'9'
unfolding digits
head-digits zero n out h = omega arith
head-digits (suc fuel) n out h = ground (arith, head-digits fuel (n / 10) ((b'0' + n % 10) ∷ out))

not-null : (s : Str) → head_or s 0 ≤ b'9' → str_eq s null_text ≡ false
unfolding str_eq
not-null [] h = refl
not-null (c ∷ cs) h = ground arith

-- No number is written as "null".
pub to_string-ne-null : (n : ℕ) → str_eq (to_string n) null_text ≡ false
unfolding to_string
to_string-ne-null n = not-null (digits n n []) (head-digits n n [] (omega arith))

pub to_string-ne-nil : (n : ℕ) → 0 < n → to_string n ≢ []
to_string-ne-nil n h e =
    let read : atoi (to_string n) ≡ atoi [] = ap atoi e in
    let zero_read : atoi [] ≡ 0 = unfold atoi in refl in omega (arith, atoi-to_string n)

-- A decimal digit.
abbrev pub IsDigit : ℕ → Type 0
IsDigit c = (b'0' ≤ c) × (c ≤ b'9')

digits-IsDigit :
    (fuel n : ℕ) (out : Str) → n ≤ fuel → All IsDigit out → All IsDigit (digits fuel n out)
unfolding digits
digits-IsDigit zero n out h ds = ((omega arith, omega arith), ds)
digits-IsDigit (suc fuel) n out h ds = elim (Bool-cases (ltb n 10)) [
  | inl one ↦ rw (one, digits) ((omega arith, ground arith), ds)
  | inr more ↦
      rw (more, digits)
        (digits-IsDigit fuel (n / 10) ((b'0' + n % 10) ∷ out) (omega arith)
          ((omega arith, omega arith), ds))
]

pub to_string-IsDigit : (n : ℕ) → All IsDigit (to_string n)
unfolding to_string
to_string-IsDigit n = digits-IsDigit n n [] (omega arith) tt

digits-length : (fuel n : ℕ) (out : Str) → length out < length (digits fuel n out)
unfolding digits
digits-length zero n out = omega arith
digits-length (suc fuel) n out = ground (arith, digits-length fuel (n / 10) ((b'0' + n % 10) ∷ out))

pub to_string-length : (n : ℕ) → 0 < length (to_string n)
unfolding to_string
to_string-length n = digits-length n n []
