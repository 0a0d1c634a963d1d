-- ===== src/Emission/Monitor/File.antt =====
-- The saved file is read back as it was written, and what is read is what the checksum confirms.
use monero_sci_parser.Base.{
  ℕ, ◌<◌, ◌≡◌, ◌≢◌, inl, inr, refl, false, some, [], ◌∷◌, ◌++◌, arith, u64_mod, ◌&&◌, All, length,
  Bool-cases,
}
use monero_sci_parser.Text.{Str, to_string}
use monero_sci_parser.Text.Decimal.{IsDigit, to_string-IsDigit, to_string-length}
use monero_sci_parser.Emission.{Emission, checksum, emission_text}
use monero_sci_parser.Emission.Monitor.{
  Boost, blank, empty, trim_end, loaded, load_current_emission_amount,
}

-- What Boost documents of the two functions: a number that was written is read back, and a text is
-- split at each comma.
pub record IsBoost (boost : Boost) : Type 0 where
  pub cast-to_string : (n : ℕ) → n < u64_mod → boost.lexical_cast (to_string n) ≡ some n
  pub split-field :
      (a b : Str) → All (λ c. c ≢ b',') a → boost.split (a ++ b',' ∷ b) ≡ a ∷ boost.split b
  pub split-last : (a : Str) → All (λ c. c ≢ b',') a → boost.split a ≡ a ∷ []

IsDigit-no_comma : (s : Str) → All IsDigit s → All (λ c. c ≢ b',') s
IsDigit-no_comma [] ds = tt
IsDigit-no_comma (c ∷ cs) ds = (λ e. omega (arith, e, ds.0.0), IsDigit-no_comma cs ds.1)

IsDigit-blank : (c : ℕ) → IsDigit c → blank c ≡ false
IsDigit-blank c d = ground (arith, d.0, d.1)

nonempty : (s : Str) → 0 < length s → empty s ≡ false
nonempty [] h = absurd (omega arith)
nonempty (c ∷ cs) h = refl

-- A text that is not empty and has no blank at its end.
abbrev IsTrimmed : Str → Type 0
IsTrimmed s = (0 < length s) × (trim_end s ≡ s)

append-IsTrimmed : (xs ys : Str) → IsTrimmed ys → IsTrimmed (xs ++ ys)
unfolding trim_end
append-IsTrimmed [] ys h = h
append-IsTrimmed (x ∷ xs) ys h =
    let r : IsTrimmed (xs ++ ys) = append-IsTrimmed xs ys h in
    (omega arith, rw (r.1, nonempty (xs ++ ys) r.0) refl)

trim_end-digits : (s : Str) → All IsDigit s → trim_end s ≡ s
unfolding trim_end
trim_end-digits [] ds = refl
trim_end-digits (c ∷ cs) ds =
    let plain : empty cs && blank c ≡ false =
      rw (IsDigit-blank c ds.0)
        (elim (Bool-cases (empty cs)) [ inl e ↦ rw e refl | inr e ↦ rw e refl ]) in
    rw (trim_end-digits cs ds.1, plain) refl

emission_text-IsTrimmed : (e : Emission) → IsTrimmed (emission_text e)
unfolding emission_text
emission_text-IsTrimmed e =
    let n : ℕ → Str = to_string in
    let last : IsTrimmed (n (checksum e)) = (
      to_string-length (checksum e),
      trim_end-digits (n (checksum e)) (to_string-IsDigit (checksum e)),
    ) in
    let comma : (s : Str) → IsTrimmed s → IsTrimmed (b',' ∷ s) = append-IsTrimmed (b',' ∷ []) in
    append-IsTrimmed (n e.blk_no) _ (
      comma _
        (append-IsTrimmed (n e.coinbase) _ (comma _ (append-IsTrimmed (n e.fee) _ (comma _ last)))))

-- What `operator std::string` writes is split into the four numbers.
split-emission_text :
    (boost : Boost) (e : Emission)
    → IsBoost boost
    → boost.split (trim_end (emission_text e))
      ≡ to_string e.blk_no ∷ to_string e.coinbase ∷ to_string e.fee ∷ to_string (checksum e) ∷ []
unfolding emission_text
split-emission_text boost e law =
    let n : ℕ → Str = to_string in
    rw
      (
        (emission_text-IsTrimmed e).1,
        emission_text,
        law.split-field (n e.blk_no) _ (IsDigit-no_comma _ (to_string-IsDigit e.blk_no)),
        law.split-field (n e.coinbase) _ (IsDigit-no_comma _ (to_string-IsDigit e.coinbase)),
        law.split-field (n e.fee) _ (IsDigit-no_comma _ (to_string-IsDigit e.fee)),
        law.split-last (n (checksum e)) (IsDigit-no_comma _ (to_string-IsDigit (checksum e))),
      )
      refl

-- The three numbers are below 2 ^ 64.
pub record IsWords (e : Emission) : Type 0 where
  pub blk_no : e.blk_no < u64_mod
  pub coinbase : e.coinbase < u64_mod
  pub fee : e.fee < u64_mod

-- A file with an emission of words is loaded as that emission.
pub load-emission_text :
    (boost : Boost) (e : Emission)
    → IsBoost boost
    → IsWords e
    → load_current_emission_amount boost (emission_text e) ≡ loaded e
unfolding load_current_emission_amount
load-emission_text boost e law w =
    let sum : checksum e < u64_mod = unfold checksum in omega arith in
    rw
      (
        split-emission_text boost e law,
        nonempty (emission_text e) (emission_text-IsTrimmed e).0,
        law.cast-to_string e.blk_no w.blk_no,
        law.cast-to_string e.coinbase w.coinbase,
        law.cast-to_string e.fee w.fee,
        law.cast-to_string (checksum e) sum,
      )
      (ground arith)
