-- ===== src/Text.antt =====
-- `std::string` as the list of its bytes, with the operations of the C++ library that the source
-- calls: comparison, `to_string` and `atoi`.
pub mod Decimal
use Prim.Native.Char.{code}
use Prim.Native.String.{String}
use monero_sci_parser.Base.{
  ℕ, zero, suc, ◌+◌, ◌-◌, ◌*◌, ◌/◌, ◌%◌, ◌≡◌, ◌↔◌, refl, Bool, true, false, ◌&&◌, ◌||◌, List, [],
  ◌∷◌, arith, ltb, leb, ◌==◌, if◌then◌else◌,
}

abbrev pub Str : Type 0
Str = List ℕ

-- The bytes of an ASCII literal.
abbrev pub codes : String → Str
codes String.[] = []
codes (String.◌∷◌ c s) = code c ∷ codes s

abbrev pub null_text : Str
null_text = codes "null"

unfoldable pub str_eq : Str → Str → Bool
str_eq [] [] = true
str_eq [] (y ∷ ys) = false
str_eq (x ∷ xs) [] = false
str_eq (x ∷ xs) (y ∷ ys) = x == y && str_eq xs ys

pub str_eq_iff : (a b : Str) → (str_eq a b ≡ true) ↔ (a ≡ b)
unfolding str_eq
str_eq_iff [] [] = ground arith
str_eq_iff [] (y ∷ ys) = ground arith
str_eq_iff (x ∷ xs) [] = ground arith
str_eq_iff (x ∷ xs) (y ∷ ys) = ground (arith, str_eq_iff xs ys)

pub str_eq_refl : (a : Str) → str_eq a a ≡ true
str_eq_refl a = (str_eq_iff a a).1 refl

-- `operator<`, by bytes
unfoldable pub str_lt : Str → Str → Bool
str_lt [] [] = false
str_lt [] (y ∷ ys) = true
str_lt (x ∷ xs) [] = false
str_lt (x ∷ xs) (y ∷ ys) = ltb x y || x == y && str_lt xs ys

-- The decimal digits of `n` in front of `out`; the fuel is `n`.
pub digits : ℕ → ℕ → Str → Str
digits zero n out = (b'0' + n) ∷ out
digits (suc fuel) n out = elim (ltb n 10) [
  | true ↦ (b'0' + n) ∷ out
  | false ↦ digits fuel (n / 10) ((b'0' + n % 10) ∷ out)
]

-- `std::to_string` on a number that is not negative
unfoldable pub to_string : ℕ → Str
unfolding digits
to_string n = digits n n []

pub atoi_loop : ℕ → Str → ℕ
atoi_loop acc [] = acc
atoi_loop acc (c ∷ cs) =
    let rest = atoi_loop (acc * 10 + (c - b'0')) cs in
    if leb b'0' c && leb c b'9' then rest else acc

-- `atoi` on a text with no blanks and no sign in front, such as `to_string` writes
unfoldable pub atoi : Str → ℕ
unfolding atoi_loop
atoi s = atoi_loop 0 s
