-- ===== src/Pages/OutputsBlocks/Ours.antt =====
-- The outputs that a search gives belong to the address, and say where they were found.
use mathlib.Core.Option.{some-injective}
use monero_sci_parser.Base.{
  ℕ, suc, ◌+◌, ◌<◌, ◌≡◌, refl, ap, subst, Bool, true, false, not, ◌&&◌, ◌==◌, get_or, Option, none,
  some, List, [], ◌∷◌, ◌++◌, arith, length, All, All-get_or_inside, Option-cases, Bool-cases, inl,
  inr,
}
use monero_sci_parser.Text.{Str, codes, str_eq_iff}
use monero_sci_parser.Tools.{Tx}
use monero_sci_parser.Pages.{Node, TxDetails, get_tx_details}
use monero_sci_parser.Pages.Outputs.{
  Address, Keys, tx_pub_key, Derivations, derivations_for, Mine, test_output, amount_of, same_key,
  additional_derivations,
}
use monero_sci_parser.Pages.OutputsBlocks.{
  OurOutput, Searched, outputs_found, search_failed, search_raised, and_search, our_output,
  our_loop, search_details, search_tx, find_our_outputs,
}

module _ {ℓ} (P : OurOutput → Type ℓ) where
  -- A predicate of all outputs that a search gives.
  abbrev pub AllFound : Searched → Type ℓ
  AllFound (outputs_found os) = All P os
  AllFound (search_failed t) = Unit
  AllFound search_raised = Unit

  All-append : (os rest : List OurOutput) → All P os → All P rest → All P (os ++ rest)
  All-append [] rest h k = k
  All-append (o ∷ os) rest h k = (h.0, All-append os rest h.1 k)

  pub and_search-AllFound :
      (s rest : Searched) → AllFound s → AllFound rest → AllFound (and_search s rest)
  and_search-AllFound (outputs_found os) (outputs_found rest) h k = All-append os rest h k
  and_search-AllFound (outputs_found os) (search_failed t) h k = tt
  and_search-AllFound (outputs_found os) search_raised h k = tt
  and_search-AllFound (search_failed t) rest h k = tt
  and_search-AllFound search_raised rest h k = tt

  abbrev AllSome : Option (List OurOutput) → Type ℓ
  AllSome none = Unit
  AllSome (some os) = All P os

same_key-some : (k : Option Str) (pk : Str) → same_key k pk ≡ true → k ≡ some pk
unfolding same_key
same_key-some none pk same = absurd (cc)
same_key-some (some k) pk same = ap some ((str_eq_iff k pk).0 same)

module _ (node : Node) (keys : Keys) (address : Address) (key : Str) where
  -- A derivation of the view key with some public key.
  abbrev pub IsDerived : Str → Type 0
  IsDerived d = (pub_key : Str) × (keys.generate_key_derivation pub_key key ≡ some d)

  -- The key of the output is the one that such a derivation gives for the address at its index.
  abbrev pub IsOurs : Option Str → ℕ → Type 0
  IsOurs pubkey i =
      (d : Str) × IsDerived d
      × (pubkey ≡ some (keys.derive_public_key d i address.spend_public_key))

  abbrev AreDerived : Derivations → Type 0
  AreDerived ds = IsDerived ds.derivation × All IsDerived ds.additional

  test_output-IsOurs :
      (ds : Derivations) (n i : ℕ) (pubkey : Option Str)
      → AreDerived ds
      → i < n
      → (test_output keys address ds n i pubkey).mine_output ≡ true
      → IsOurs pubkey i
  unfolding test_output
  test_output-IsOurs ds n i pubkey derived inside mine =
      let first_key = keys.derive_public_key ds.derivation i address.spend_public_key in
      let other = get_or ds.additional i (codes "") in
      elim (Bool-cases (not (same_key pubkey first_key) && length ds.additional == n)) [
        | inr plain ↦ (
          ds.derivation,
          derived.0,
          same_key-some pubkey first_key (rw (test_output, plain) at mine),
        )
        | inl additional ↦ (
          other,
          All-get_or_inside IsDerived ds.additional i (codes "") (ground arith) derived.1,
          same_key-some pubkey (keys.derive_public_key other i address.spend_public_key)
              (rw (test_output, additional) at mine),
        )
      ]

  additional-AreDerived :
      (pks ds : List Str) → additional_derivations keys key pks ≡ some ds → All IsDerived ds
  unfolding additional_derivations
  additional-AreDerived [] ds made = subst (All IsDerived) (some-injective _ _ made) tt
  additional-AreDerived (pk ∷ pks) ds made =
      elim (Option-cases (keys.generate_key_derivation pk key)) [
        | inl failed ↦ absurd (let bad = rw (additional_derivations, failed) at made in cc)
        | inr (d, one) ↦ elim (Option-cases (additional_derivations keys key pks)) [
          | inl failed ↦ absurd (let bad = rw (additional_derivations, one, failed) at made in cc)
          | inr (rest, others) ↦
              subst (All IsDerived)
                (some-injective _ _ (rw (additional_derivations, one, others) at made))
                ((pk, one), additional-AreDerived pks rest others)
        ]
      ]

  derivations_for-AreDerived :
      (tx : Tx) (pub_key : Str) (ds : Derivations)
      → derivations_for keys tx pub_key key ≡ some ds
      → AreDerived ds
  unfolding derivations_for
  derivations_for-AreDerived tx pub_key ds made =
      elim (Option-cases (keys.generate_key_derivation pub_key key)) [
        | inl failed ↦ absurd (let bad = rw (derivations_for, failed) at made in cc)
        | inr (d, one) ↦
            elim (Option-cases (additional_derivations keys key (keys.additional_pks tx))) [
              | inl failed ↦ absurd (let bad = rw (derivations_for, one, failed) at made in cc)
              | inr (rest, others) ↦
                  subst AreDerived (some-injective _ _ (rw (derivations_for, one, others) at made))
                    ((pub_key, one), additional-AreDerived (keys.additional_pks tx) rest others)
            ]
      ]

  module _ (block_no : ℕ) (in_mempool : Bool) where
    -- The output is ours, and marked with the place that was searched.
    abbrev pub IsIn : OurOutput → Type 0
    IsIn o =
        IsOurs o.output_pubkey o.output_idx × (o.block_no ≡ block_no) × (o.in_mempool ≡ in_mempool)

    our_loop-IsIn :
        (tx : Tx) (hash : Str) (ds : Derivations) (n i : ℕ) (outs : List (Option Str × ℕ))
        → AreDerived ds
        → i + length outs ≡ n
        → AllSome IsIn (our_loop node keys address key block_no in_mempool tx hash ds n i outs)
    unfolding our_loop our_output
    our_loop-IsIn tx hash ds n i [] derived e = tt
    our_loop-IsIn tx hash ds n i ((pubkey, plain) ∷ outs) derived e =
        let m : Mine = test_output keys address ds n i pubkey in
        let ih = our_loop-IsIn tx hash ds n (suc i) outs derived (omega arith) in
        elim (Option-cases (amount_of node keys tx m i plain)) [
          | inl undecoded ↦ rw (our_loop, undecoded) tt
          | inr (a, amount) ↦
              elim (Option-cases
                (our_loop node keys address key block_no in_mempool tx hash ds n (suc i) outs)) [
                  | inl failed ↦ rw (our_loop, amount, failed) tt
                  | inr (os, rest) ↦
                      let all : All IsIn os = rw (rest) at ih in
                      elim (Bool-cases m.mine_output) [
                        | inl mine ↦
                            let ours =
                              test_output-IsOurs ds n i pubkey derived (omega arith) mine in
                            rw (our_loop, amount, rest, mine) ((ours, refl, refl), all)
                        | inr other ↦ rw (our_loop, amount, rest, other) all
                      ]
                ]
        ]

    search_details-IsIn :
        (tx : Tx) (txd : TxDetails)
        → AllFound IsIn (search_details node keys address key block_no in_mempool tx txd)
    unfolding search_details
    search_details-IsIn tx txd =
        let pub_key = tx_pub_key keys.null_pkey (keys.public_keys tx) in
        elim (Option-cases (derivations_for keys tx pub_key key)) [
          | inl underivable ↦ rw (search_details, underivable) tt
          | inr (ds, derived) ↦
              let n = length txd.output_pub_keys in
              let all =
                our_loop-IsIn tx txd.hash ds n 0 txd.output_pub_keys
                  (derivations_for-AreDerived tx pub_key ds derived) (omega arith) in
              elim (Option-cases (
                our_loop node keys address key block_no in_mempool tx txd.hash ds n 0
                  txd.output_pub_keys)) [
                    | inl failed ↦ rw (search_details, derived, failed) tt
                    | inr (os, found) ↦ rw (search_details, derived, found) (rw (found) at all)
                  ]
        ]

    pub find_our_outputs-IsIn :
        (txs : List Tx)
        → AllFound IsIn (find_our_outputs node keys address key block_no in_mempool txs)
    unfolding find_our_outputs search_tx
    find_our_outputs-IsIn [] = tt
    find_our_outputs-IsIn (tx ∷ txs) =
        and_search-AllFound IsIn (search_tx node keys address key block_no in_mempool tx)
          (find_our_outputs node keys address key block_no in_mempool txs)
          (elim (Option-cases (get_tx_details node tx false 0 0)) [
            | inl thrown ↦ rw (search_tx, thrown) tt
            | inr (txd, details) ↦ rw (search_tx, details) (search_details-IsIn tx txd)
          ])
          (find_our_outputs-IsIn txs)
