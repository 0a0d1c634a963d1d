-- ===== src/Examples/Web.antt =====
-- The results on times and on encoded texts.
use monero_sci_parser.Base.{
  ℕ, ◌+◌, ◌-◌, ◌*◌, ◌/◌, ◌%◌, ◌<◌, ◌≡◌, refl, ap, Bool, true, Option, none, some, [], ◌∷◌, arith,
  ltb, leb, ◌&&◌, if◌then◌else◌,
}
use monero_sci_parser.Text.{Str, codes}
use monero_sci_parser.Tools.Url.{
  hex_digit, url_decode, url_encode, IsHexReader, url_decode-url_encode,
}

abbrev digit_value : ℕ → ℕ
digit_value d = if ltb d b'A' then d - b'0' else d - b'A' + 10

abbrev example_read_hex : Str → Option ℕ
example_read_hex [] = none
example_read_hex (a ∷ []) = none
example_read_hex (a ∷ b ∷ []) = some (digit_value a * 16 + digit_value b)
example_read_hex (a ∷ b ∷ c ∷ cs) = none

digit_value-hex_digit : (d : ℕ) → d < 16 → digit_value (hex_digit d) ≡ d
digit_value-hex_digit d h = ground arith

example_read_hex-IsHexReader : IsHexReader example_read_hex
example_read_hex-IsHexReader v h =
    rw (digit_value-hex_digit (v / 16) (omega arith), digit_value-hex_digit (v % 16) (omega arith))
      (ap some (omega arith))

-- Small letters are kept.
abbrev small_letters : ℕ → Bool
small_letters c = leb b'a' c && leb c b'z'

url_decode-url_encode_example :
    url_decode example_read_hex (url_encode small_letters (codes "a b&c")) ≡ (codes "a b&c", true)
url_decode-url_encode_example =
    url_decode-url_encode example_read_hex example_read_hex-IsHexReader small_letters refl refl
      (codes "a b&c") (omega arith, (omega arith, (omega arith, (omega arith, (omega arith, tt)))))
