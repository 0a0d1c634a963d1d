-- ===== src/Chain/Search.antt =====
-- `find_output_in_tx` finds the first output with the key.
use mathlib.Core.Option.{some-injective}
use monero_sci_parser.Base.{
  ℕ, zero, suc, ◌+◌, ◌≡◌, ◌≢◌, ◌↔◌, ap, subst, ◌∙◌, sym, true, false, Option, none, some, List, [],
  ◌∷◌, arith, All, get_elem?, take, Option-cases, Bool-cases, inl, inr,
}
use monero_sci_parser.Text.{Str, str_eq, str_eq_iff, str_eq_refl}
use monero_sci_parser.Tools.{Tx, TxOut}
use monero_sci_parser.Chain.{Found, found, nowhere, thrown, find_loop, find_output_in_tx}

-- An output whose key is another one.
abbrev pub IsOther : Str → TxOut → Type 0
IsOther key o = (k : Str) × (o.key ≡ some k) × (k ≢ key)

-- Output `i` has the key, and no output before it: those have other keys.
pub record IsFirst (key : Str) (os : List TxOut) (o : TxOut) (i : ℕ) : Type 0 where
  pub at : get_elem? os i ≡ some o
  pub has_key : o.key ≡ some key
  pub before : All (IsOther key) (take i os)

out_of : TxOut × ℕ → Found (TxOut × ℕ) → TxOut × ℕ
out_of d (found r) = r
out_of d nowhere = d
out_of d thrown = d

find_loop-IsFirst :
    (os : List TxOut) (key : Str) (idx : ℕ) (o : TxOut) (m : ℕ)
    → find_loop os key idx ≡ found (o, m)
    → (i : ℕ) × (m ≡ idx + i) × IsFirst key os o i
unfolding find_loop out_of
find_loop-IsFirst [] key idx o m e =
    absurd (let bad : ◌≡◌ {A = Found (TxOut × ℕ)} nowhere (found (o, m)) = e in cc)
find_loop-IsFirst (p ∷ ps) key idx o m e = elim (Option-cases (p.key)) [
  | inl no_key ↦ absurd (
      let bad : ◌≡◌ {A = Found (TxOut × ℕ)} thrown (found (o, m)) = rw (find_loop, no_key) at e in
      cc)
  | inr (k, has) ↦ elim (Bool-cases (str_eq k key)) [
    | inl same ↦
        let here : ◌≡◌ {A = Found (TxOut × ℕ)} (found (p, idx)) (found (o, m)) =
          rw (find_loop, has, same) at e in
        let pair : ◌≡◌ {A = TxOut × ℕ} (p, idx) (o, m) = ap (out_of (p, idx)) here in
        let eq : p ≡ o = ap (λ (r : TxOut × ℕ). r.0) pair in
        (
          0,
          omega (arith, ap (λ (r : TxOut × ℕ). r.1) pair),
          record {
            at = ap some eq;
            has_key =
                ap (λ (t : TxOut). t.key) (sym eq) ∙ has ∙ ap some ((str_eq_iff k key).0 same);
            before = tt;
          },
        )
    | inr other ↦
        let rest : find_loop ps key (idx + 1) ≡ found (o, m) = rw (find_loop, has, other) at e in
        let (i, at, first) = find_loop-IsFirst ps key (idx + 1) o m rest in
        let differs : k ≢ key =
          λ same. absurd (let bad : false ≡ true = sym other ∙ (str_eq_iff k key).1 same in cc) in
        (
          suc i,
          omega (arith, at),
          record {
            at = first.at;
            has_key = first.has_key;
            before = ((k, has, differs), first.before);
          },
        )
  ]
]

IsFirst-find_loop :
    (os : List TxOut) (key : Str) (idx : ℕ) (o : TxOut) (i : ℕ)
    → IsFirst key os o i
    → find_loop os key idx ≡ found (o, idx + i)
unfolding find_loop
IsFirst-find_loop [] key idx o i h =
    absurd (let bad : ◌≡◌ {A = Option TxOut} none (some o) = h.at in cc)
IsFirst-find_loop (p ∷ ps) key idx o zero h =
    let eq : p ≡ o = some-injective _ _ h.at in
    let has : p.key ≡ some key = ap (λ (t : TxOut). t.key) eq ∙ h.has_key in
    let at : idx ≡ idx + zero = omega arith in
    rw (find_loop, has, str_eq_refl key) (λ j. found (eq j, at j))
IsFirst-find_loop (p ∷ ps) key idx o (suc i) h =
    let (k, has, differs) = h.before.0 in
    let other : str_eq k key ≡ false = elim (Bool-cases (str_eq k key)) [
      | inl same ↦ absurd (differs ((str_eq_iff k key).0 same))
      | inr differ ↦ differ
    ] in
    let at : idx + 1 + i ≡ idx + suc i = omega arith in
    rw (find_loop, has, other)
      (IsFirst-find_loop ps key (idx + 1) o i
          (record { at = h.at; has_key = h.has_key; before = h.before.1 })
        ∙ ap (λ n. found (o, n)) at)

-- An output and an index are found just when the output stands at that index with the key, and all
-- outputs before it have other keys.
pub find_output_in_tx-IsFirst :
    (tx : Tx) (key : Str) (o : TxOut) (i : ℕ)
    → (find_output_in_tx tx key ≡ found (o, i)) ↔ IsFirst key tx.vout o i
unfolding find_output_in_tx
find_output_in_tx-IsFirst tx key o i = (
  λ e.
      (let (j, at, first) = find_loop-IsFirst tx.vout key 0 o i e in
        subst (λ n. IsFirst key tx.vout o n) (omega (arith, at)) first),
  λ h.
      IsFirst-find_loop tx.vout key 0 o i h
      ∙ ap {B = Found (TxOut × ℕ)} (λ n. found (o, n)) {x = 0 + i} (omega arith),
)
