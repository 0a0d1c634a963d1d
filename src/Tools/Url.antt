-- ===== src/Tools/Url.antt =====
-- src/tools.cpp: `url_decode` and `parse_crow_post_data`, which read the body of a form. The reader of
-- hexadecimal numbers of C++ streams and `boost::split` are parameters.
use mathlib.Core.List.{append-nil, append_assoc}
use monero_sci_parser.Base.{
  ℕ, ◌+◌, ◌-◌, ◌/◌, ◌%◌, ◌<◌, ◌≡◌, refl, ap, ◌∙◌, sym, Bool, true, false, Option, none, some, List,
  [], ◌∷◌, ◌++◌, ◌==◌, arith, if◌then◌else◌, ltb, All, Bool-cases, inl, inr,
}
use monero_sci_parser.Text.{Str, str_eq}
use monero_sci_parser.Parser.Store.{push}

-- `is >> std::hex >> value` on a text of two characters, as the byte that `static_cast<char>` makes of the
-- value; `none` where nothing is read.
module _ (read_hex : Str → Option ℕ) where
  -- The loop of `url_decode` from the position `i` on, with what has been written to `out`.
  unfoldable pub decode_loop : Str → Str → Str × Bool
  decode_loop [] out = (out, true)
  decode_loop (c ∷ []) out =
      if c == b'%' then (out, false) else (push out (if c == b'+' then b' ' else c), true)
  decode_loop (c ∷ d ∷ []) out =
      let rest = decode_loop (d ∷ []) (push out (if c == b'+' then b' ' else c)) in
      if c == b'%' then (out, false) else rest
  decode_loop (c ∷ d ∷ e ∷ cs) out =
      let rest = decode_loop (d ∷ e ∷ cs) (push out (if c == b'+' then b' ' else c)) in
      let after : ℕ → Str × Bool = λ value. decode_loop cs (push out value) in
      if c == b'%'
      then elim (read_hex (d ∷ e ∷ [])) [ none ↦ (out, false) | some value ↦ after value ]
      else rest

  -- `url_decode`: what is written to `out`, and the answer.
  unfoldable pub url_decode : Str → Str × Bool
  unfolding decode_loop
  url_decode in_text = decode_loop in_text []

-- A digit of a number in hexadecimal.
abbrev pub hex_digit : ℕ → ℕ
hex_digit d = if ltb d 10 then b'0' + d else b'A' + (d - 10)

-- What a browser sends for a text: the bytes that `keeps` names as they are, a blank as '+', and any
-- other byte as '%' with two digits.
pub url_encode : (ℕ → Bool) → Str → Str
url_encode keeps [] = []
url_encode keeps (c ∷ cs) =
    let rest = url_encode keeps cs in
    if keeps c
    then c ∷ rest
    else (if c == b' ' then b'+' ∷ rest else b'%' ∷ hex_digit (c / 16) ∷ hex_digit (c % 16) ∷ rest)

-- The reader reads two digits back.
abbrev pub IsHexReader : (Str → Option ℕ) → Type 0
IsHexReader read_hex =
    (v : ℕ) → v < 256 → read_hex (hex_digit (v / 16) ∷ hex_digit (v % 16) ∷ []) ≡ some v

module _ (read_hex : Str → Option ℕ) where
  loop-plain :
      (c : ℕ) (cs out : Str)
      → (c == b'%') ≡ false
      → decode_loop read_hex (c ∷ cs) out
        ≡ decode_loop read_hex cs (push out (if c == b'+' then b' ' else c))
  unfolding decode_loop
  loop-plain c [] out other = rw other refl
  loop-plain c (d ∷ []) out other = rw other refl
  loop-plain c (d ∷ e ∷ cs) out other = rw other refl

  loop-hex :
      (d e v : ℕ) (cs out : Str)
      → read_hex (d ∷ e ∷ []) ≡ some v
      → decode_loop read_hex (b'%' ∷ d ∷ e ∷ cs) out ≡ decode_loop read_hex cs (push out v)
  unfolding decode_loop
  loop-hex d e v cs out read = rw (decode_loop, read) refl

  module _ (hex : IsHexReader read_hex) (keeps : ℕ → Bool) (no_percent : keeps b'%' ≡ false)
      (no_plus : keeps b'+' ≡ false) where
    kept-ne : (c x : ℕ) → keeps c ≡ true → keeps x ≡ false → (c == x) ≡ false
    kept-ne c x kept dropped = elim (Bool-cases (c == x)) [
      | inl same ↦
          let eq : c ≡ x = ground arith in
          absurd (let bad : true ≡ false = sym kept ∙ ap keeps eq ∙ dropped in cc)
      | inr differ ↦ differ
    ]

    decode_loop-url_encode :
        (s out : Str)
        → All (λ c. c < 256) s
        → decode_loop read_hex (url_encode keeps s) out ≡ (out ++ s, true)
    unfolding url_encode decode_loop
    decode_loop-url_encode [] out bytes = λ i. (sym (append-nil out) i, true)
    decode_loop-url_encode (c ∷ cs) out (byte, bytes) =
        let after : decode_loop read_hex (url_encode keeps cs) (push out c)
            ≡ (out ++ c ∷ cs, true) =
          decode_loop-url_encode cs (push out c) bytes
          ∙ (λ i. (append_assoc out (c ∷ []) cs i, true)) in
        elim (Bool-cases (keeps c)) [
          | inl kept ↦
              rw
                (
                  url_encode,
                  kept,
                  loop-plain c (url_encode keeps cs) out (kept-ne c b'%' kept no_percent),
                  kept-ne c b'+' kept no_plus,
                )
                after
          | inr coded ↦ elim (Bool-cases (c == b' ')) [
            | inl blank ↦
                let is_blank : b' ' ≡ c = ground arith in
                rw (url_encode, coded, blank)
                  (loop-plain b'+' (url_encode keeps cs) out refl
                    ∙ ap (λ v. decode_loop read_hex (url_encode keeps cs) (push out v)) is_blank
                    ∙ after)
            | inr other ↦
                rw (url_encode, coded, other)
                  (loop-hex (hex_digit (c / 16)) (hex_digit (c % 16)) c (url_encode keeps cs) out
                      (hex c byte)
                    ∙ after)
          ]
        ]

    -- If the reader reads two hexadecimal digits back, and an encoder leaves neither '%' nor '+' as
    -- it is, `url_decode` gives back every text of bytes that was encoded.
    pub url_decode-url_encode :
        (s : Str) → All (λ c. c < 256) s → url_decode read_hex (url_encode keeps s) ≡ (s, true)
    unfolding url_decode
    url_decode-url_encode s bytes = decode_loop-url_encode s [] bytes

-- A pair put into the map; the entry of its key is replaced.
unfoldable pub put_pair : Str → Str → List (Str × Str) → List (Str × Str)
put_pair key value [] = (key, value) ∷ []
put_pair key value (p ∷ ps) =
    let rest = put_pair key value ps in if str_eq key p.0 then (key, value) ∷ ps else p ∷ rest

-- `it.find("=")` with the two parts that it separates.
unfoldable pub split_pair : Str → Option (Str × Str)
split_pair [] = none
split_pair (c ∷ cs) =
    let rest = split_pair cs in
    if c == b'=' then some ([], cs) else elim rest [ none ↦ none | some p ↦ some (c ∷ p.0, p.1) ]

-- The loop over the pieces; it ends at the first one without '='.
unfoldable pub pairs_loop : List Str → List (Str × Str) → List (Str × Str)
unfolding split_pair put_pair
pairs_loop [] body = body
pairs_loop (piece ∷ pieces) body =
    let rest : Str × Str → List (Str × Str) = λ p. pairs_loop pieces (put_pair p.0 p.1 body) in
    elim (split_pair piece) [ none ↦ body | some p ↦ rest p ]

-- `parse_crow_post_data`, with `boost::split` at each '&'.
unfoldable pub parse_crow_post_data : (Str → Option ℕ) → (Str → List Str) → Str → List (Str × Str)
unfolding url_decode pairs_loop
parse_crow_post_data read_hex split_and req_body =
    let decoded = url_decode read_hex req_body in
    if decoded.1 then pairs_loop (split_and decoded.0) [] else []
