-- ===== src/Emission/Monitor/Errors.antt =====
-- Which texts in the file are loaded, which are refused, and which end in an exception that
-- `load_current_emission_amount` does not catch.
use monero_sci_parser.Base.{
  ℕ, ◌<◌, ◌≡◌, ◌≢◌, ◌↔◌, inl, inr, refl, ap, subst, ◌∙◌, sym, Bool, true, false, Option, none, some,
  List, [], ◌∷◌, arith, ◌==◌, All, get_elem?, ◌>>=◌, length, Option-cases, if◌then◌else◌,
}
use mathlib.Core.Option.{some-injective}
use monero_sci_parser.Text.{Str}
use monero_sci_parser.Emission.{Emission, checksum}
use monero_sci_parser.Emission.Monitor.{
  Boost, empty, trim_end, Load, loaded, refused, thrown, and_then, field, load_fields,
  load_current_emission_amount, no_fields,
}

-- A field that `lexical_cast` reads.
abbrev pub IsNumber : Boost → Str → Type 0
IsNumber boost s = (n : ℕ) × (boost.lexical_cast s ≡ some n)

abbrev read_then {ℓ} : {A : Type ℓ} → Option ℕ → (ℕ → Load A) → Load A
read_then o f = and_then (elim o [ none ↦ refused | some n ↦ loaded n ]) f

module _ {ℓ} {A : Type ℓ} (t : Load A) (other : t ≢ refused) where
  -- Past a field that is read, the outcome is that of the rest.
  read_then_iff :
      (o : Option ℕ) (f : ℕ → Load A) → (read_then o f ≡ t) ↔ ((n : ℕ) × (o ≡ some n) × (f n ≡ t))
  read_then_iff none f = (
    λ e. absurd (other (sym e)),
    λ (n, e, r). absurd (let bad : ◌≡◌ {A = Option ℕ} none (some n) = e in cc),
  )
  read_then_iff (some n) f =
      (λ e. (n, refl, e), λ (k, e, r). subst (λ i. f i ≡ t) (sym (some-injective _ _ e)) r)

thrown-ne-refused : ◌≢◌ {A = Load Emission} thrown refused
thrown-ne-refused e = cc

loaded-ne-refused : (e : Emission) → loaded e ≢ refused
loaded-ne-refused e same = cc

thrown-ne-loaded : (e : Emission) → ◌≢◌ {A = Load Emission} thrown (loaded e)
thrown-ne-loaded e same = cc

emission_or : Emission → Load Emission → Emission
emission_or d (loaded e) = e
emission_or d refused = d
emission_or d thrown = d

loaded-injective : (e f : Emission) → loaded e ≡ loaded f → e ≡ f
unfolding emission_or
loaded-injective e f same = ap (emission_or e) same

tested-ne-thrown : (b : Bool) (e : Emission) → (if b then loaded e else refused) ≢ thrown
tested-ne-thrown true e same = cc
tested-ne-thrown false e same = cc

tested-loaded :
    (b : Bool) (e f : Emission)
    → (if b then loaded e else refused) ≡ loaded f
    → (b ≡ true) × (loaded e ≡ loaded f)
tested-loaded true e f same = (refl, same)
tested-loaded false e f same = absurd (loaded-ne-refused f (sym same))

module _ (boost : Boost) where
  thrown_after :
      (s : Str) (f : ℕ → Load Emission)
      → (read_then (boost.lexical_cast s) f ≡ thrown)
        ↔ ((n : ℕ) × (boost.lexical_cast s ≡ some n) × (f n ≡ thrown))
  thrown_after s f = read_then_iff thrown thrown-ne-refused (boost.lexical_cast s) f

  -- With fewer than four fields the exception is thrown when those that are there are numbers.
  load_fields-thrown :
      (strs : List Str)
      → (load_fields boost strs ≡ thrown) ↔ ((length strs < 4) × All (IsNumber boost) strs)
  unfolding load_fields
  load_fields-thrown [] = (λ e. (omega arith, tt), λ r. refl)
  load_fields-thrown (a ∷ []) = (
    λ e. (let (i, at, _) = (thrown_after a _).0 e in (omega arith, ((i, at), tt))),
    λ r. (let (_, ((i, at), _)) = r in (thrown_after a _).1 (i, at, refl)),
  )
  load_fields-thrown (a ∷ b ∷ []) = (
    λ e.
        (let (i, at, e1) = (thrown_after a _).0 e in
          let (j, bt, _) = (thrown_after b _).0 e1 in (omega arith, ((i, at), ((j, bt), tt)))),
    λ r.
        (let (_, ((i, at), ((j, bt), _))) = r in
          (thrown_after a _).1 (i, at, (thrown_after b _).1 (j, bt, refl))),
  )
  load_fields-thrown (a ∷ b ∷ c ∷ []) = (
    λ e.
        (let (i, at, e1) = (thrown_after a _).0 e in
          let (j, bt, e2) = (thrown_after b _).0 e1 in
          let (k, ct, _) = (thrown_after c _).0 e2 in
          (omega arith, ((i, at), ((j, bt), ((k, ct), tt))))),
    λ r.
        (let (_, ((i, at), ((j, bt), ((k, ct), _)))) = r in
          (thrown_after a _).1
            (i, at, (thrown_after b _).1 (j, bt, (thrown_after c _).1 (k, ct, refl)))),
  )
  load_fields-thrown (a ∷ b ∷ c ∷ d ∷ ss) = (
    λ e.
        (let (i, at, e1) = (thrown_after a _).0 e in
          let (j, bt, e2) = (thrown_after b _).0 e1 in
          let (k, ct, e3) = (thrown_after c _).0 e2 in
          let (l, dt, e4) = (thrown_after d _).0 e3 in absurd (tested-ne-thrown _ _ e4)),
    λ r. absurd (omega (arith, r.0)),
  )

  -- Field `i`, where it is there and a number.
  abbrev pub number : List Str → ℕ → Option ℕ
  number strs i = get_elem? strs i >>= boost.lexical_cast

  -- The first four fields are the numbers of `e` and its checksum.
  pub record IsFields (e : Emission) (strs : List Str) : Type 0 where
    pub blk_no : number strs 0 ≡ some e.blk_no
    pub coinbase : number strs 1 ≡ some e.coinbase
    pub fee : number strs 2 ≡ some e.fee
    pub sum : number strs 3 ≡ some (checksum e)

  -- Past a field, a loaded emission is that of the rest.
  field_iff :
      (strs : List Str) (i : ℕ) (f : ℕ → Load Emission) (e : Emission)
      → (and_then (field boost strs i) f ≡ loaded e)
        ↔ ((n : ℕ) × (number strs i ≡ some n) × (f n ≡ loaded e))
  unfolding field
  field_iff strs i f e = elim (Option-cases (get_elem? strs i)) [
    | inl gone ↦
        rw (field, gone)
          (
            λ same. absurd (thrown-ne-loaded e same),
            λ (n, none_read, _).
                absurd (let bad : ◌≡◌ {A = Option ℕ} none (some n) = none_read in cc),
          )
    | inr (s, there) ↦
        rw (field, there) (read_then_iff (loaded e) (loaded-ne-refused e) (boost.lexical_cast s) f)
  ]

  load_fields-loaded :
      (strs : List Str) (e : Emission) → (load_fields boost strs ≡ loaded e) ↔ IsFields e strs
  unfolding load_fields
  load_fields-loaded strs e = (
    λ same.
        (let (i, at, e1) = (field_iff strs 0 _ e).0 same in
          let (j, bt, e2) = (field_iff strs 1 _ e).0 e1 in
          let (k, ct, e3) = (field_iff strs 2 _ e).0 e2 in
          let (l, dt, e4) = (field_iff strs 3 _ e).0 e3 in
          let r : Emission = record { coinbase = j; fee = k; blk_no = i } in
          let (sums, same_e) = tested-loaded (l == checksum r) r e e4 in
          let eq : r ≡ e = loaded-injective r e same_e in
          let is_sum : l ≡ checksum r = ground arith in
          record {
            blk_no = at ∙ ap (λ (t : Emission). some t.blk_no) eq;
            coinbase = bt ∙ ap (λ (t : Emission). some t.coinbase) eq;
            fee = ct ∙ ap (λ (t : Emission). some t.fee) eq;
            sum = dt ∙ ap some (is_sum ∙ ap checksum eq);
          }),
    λ h. (field_iff strs 0 _ e).1 (
      e.blk_no,
      h.blk_no,
      (field_iff strs 1 _ e).1 (
        e.coinbase,
        h.coinbase,
        (field_iff strs 2 _ e).1
            (e.fee, h.fee, (field_iff strs 3 _ e).1 (checksum e, h.sum, ground arith)),
      ),
    ),
  )

  IsFields-loaded_iff :
      (strs : List Str) (e : Emission)
      → ((if no_fields strs then refused else load_fields boost strs) ≡ loaded e) ↔ IsFields e strs
  IsFields-loaded_iff [] e = (
    λ same. absurd (loaded-ne-refused e (sym same)),
    λ h. absurd (let bad : ◌≡◌ {A = Option ℕ} none (some e.blk_no) = h.blk_no in cc),
  )
  IsFields-loaded_iff (s ∷ ss) e = load_fields-loaded (s ∷ ss) e

  fields-thrown_iff :
      (strs : List Str)
      → ((if no_fields strs then refused else load_fields boost strs) ≡ thrown)
        ↔ ((0 < length strs) × (length strs < 4) × All (IsNumber boost) strs)
  fields-thrown_iff [] =
      (λ same. absurd (thrown-ne-refused (sym same)), λ h. absurd (omega (arith, h.0)))
  fields-thrown_iff (s ∷ ss) = (
    λ same. (let r = (load_fields-thrown (s ∷ ss)).0 same in (omega arith, r.0, r.1)),
    λ h. (load_fields-thrown (s ∷ ss)).1 (h.1, h.2),
  )

  -- A text in the file is loaded as the emission `e` just when it is not empty and its first four
  -- fields, once trimmed and split, are the numbers of `e` and its checksum. It ends in the
  -- exception that is not caught just when it is not empty and has one, two or three fields, which
  -- are all numbers. Any other text is refused.
  pub load_current_emission_amount-outcomes :
      (text : Str) (e : Emission)
      → ((load_current_emission_amount boost text ≡ loaded e)
          ↔ ((empty text ≡ false) × IsFields e (boost.split (trim_end text))))
        × ((load_current_emission_amount boost text ≡ thrown) ↔ (
            (empty text ≡ false)
            × (0 < length (boost.split (trim_end text)))
            × (length (boost.split (trim_end text)) < 4)
            × All (IsNumber boost) (boost.split (trim_end text))))
  unfolding load_current_emission_amount
  load_current_emission_amount-outcomes [] e = (
    (
      λ same. absurd (loaded-ne-refused e (sym same)),
      λ h. absurd (let bad : true ≡ false = h.0 in cc),
    ),
    (
      λ same. absurd (thrown-ne-refused (sym same)),
      λ h. absurd (let bad : true ≡ false = h.0 in cc),
    ),
  )
  load_current_emission_amount-outcomes (c ∷ cs) e =
      let strs = boost.split (trim_end (c ∷ cs)) in
      (
        (
          λ same. (refl, (IsFields-loaded_iff strs e).0 same),
          λ h. (IsFields-loaded_iff strs e).1 h.1,
        ),
        (
          λ same. (let r = (fields-thrown_iff strs).0 same in (refl, r.0, r.1, r.2)),
          λ h. (fields-thrown_iff strs).1 (h.1, h.2, h.3),
        ),
      )
