-- ===== src/Pages/OutputsBlocks/Agree.antt =====
-- `find_our_outputs` and `json_outputs` on the same transaction.
use mathlib.Core.List.{append-nil}
use monero_sci_parser.Base.{
  ℕ, suc, ◌≡◌, refl, ap, ◌∙◌, Bool, false, Option, none, some, List, [], ◌∷◌, map, if◌then◌else◌,
  length, Option-cases, Bool-cases, inl, inr,
}
use monero_sci_parser.Text.{Str}
use monero_sci_parser.Tools.{Tx}
use monero_sci_parser.Pages.{
  Node, Answer, fail, error, success, bare, TxDetails, get_tx_details, FoundTx, find_tx,
}
use monero_sci_parser.Pages.Outputs.{
  Address, Keys, tx_pub_key, Derivations, derivations_for, Mine, test_output, amount_of,
  OutputMatch, output_match, match_loop, amount_or_zero, OutputsJson, outputs_answer, outputs_of_tx,
}
use monero_sci_parser.Pages.OutputsBlocks.{
  OurOutput, Searched, outputs_found, search_failed, search_raised, and_search, our_output,
  our_loop, search_details, search_tx, find_our_outputs,
}

-- What both show of an output: its key, its amount and its index.
abbrev pub Fact : Type 0
Fact = Option Str × ℕ × ℕ

abbrev pub our_facts : List OurOutput → List Fact
our_facts os = map (λ (o : OurOutput). (o.output_pubkey, o.amount, o.output_idx)) os

-- The outputs of `json_outputs` with a match.
unfoldable pub match_facts : List OutputMatch → List Fact
match_facts [] = []
match_facts (m ∷ ms) =
    let rest = match_facts ms in
    if m.matches then (m.output_pubkey, m.amount, m.output_idx) ∷ rest else rest

-- None where no outputs are given.
unfoldable pub search_facts : Searched → Option (List Fact)
search_facts (outputs_found os) = some (our_facts os)
search_facts (search_failed t) = none
search_facts search_raised = none

unfoldable pub answer_facts : Option (Answer OutputsJson) → Option (List Fact)
answer_facts none = none
answer_facts (some (fail t)) = none
answer_facts (some (error t)) = none
answer_facts (some (bare j)) = none
answer_facts (some (success j)) = some (match_facts j.outputs)

module _ (node : Node) (keys : Keys) (tx : Tx) where
  -- The amount of each output that belongs to the address is in plain sight or can be decoded, from
  -- the output at `i` on.
  abbrev pub AmountsKnown : Address → Derivations → ℕ → ℕ → List (Option Str × ℕ) → Type 0
  AmountsKnown address ds n i [] = Unit
  AmountsKnown address ds n i ((pubkey, plain) ∷ outs) =
      ((a : ℕ) × (amount_of node keys tx (test_output keys address ds n i pubkey) i plain ≡ some a))
      × AmountsKnown address ds n (suc i) outs

  module _ (address : Address) (key : Str) (block_no : ℕ) (in_mempool : Bool) where
    our_loop-match_loop :
        (hash : Str) (ds : Derivations) (n i : ℕ) (outs : List (Option Str × ℕ))
        → AmountsKnown address ds n i outs
        → (os : List OurOutput) × (our_loop node keys address key block_no in_mempool tx hash ds n i
              outs
            ≡ some os)
          × (our_facts os ≡ match_facts (match_loop node keys tx address ds n i outs))
    unfolding our_loop match_loop match_facts output_match our_output amount_or_zero
    our_loop-match_loop hash ds n i [] known = ([], refl, refl)
    our_loop-match_loop hash ds n i ((pubkey, plain) ∷ outs) known =
        let m : Mine = test_output keys address ds n i pubkey in
        let (a, amount) = known.0 in
        let (os, rest, same) = our_loop-match_loop hash ds n (suc i) outs known.1 in
        let o = our_output node keys address key block_no in_mempool tx hash i pubkey a in
        elim (Bool-cases m.mine_output) [
          | inl mine ↦ (
            o ∷ os,
            rw (our_loop, amount, rest, mine) refl,
            rw (match_loop, output_match, match_facts, amount, mine)
                (ap (λ l. (pubkey, a, i) ∷ l) same),
          )
          | inr other ↦ (
            os,
            rw (our_loop, amount, rest, other) refl,
            rw (match_loop, output_match, match_facts, amount, other) same,
          )
        ]

    search_details-outputs_answer :
        (txd : TxDetails)
        → ((ds : Derivations)
            → derivations_for keys tx (tx_pub_key keys.null_pkey (keys.public_keys tx)) key
              ≡ some ds
            → AmountsKnown address ds (length txd.output_pub_keys) 0 txd.output_pub_keys)
        → search_facts (search_details node keys address key block_no in_mempool tx txd)
          ≡ answer_facts (some (outputs_answer node keys tx txd address key false))
    unfolding search_facts answer_facts search_details outputs_answer
    search_details-outputs_answer txd known =
        let pub_key = tx_pub_key keys.null_pkey (keys.public_keys tx) in
        elim (Option-cases (derivations_for keys tx pub_key key)) [
          | inl underivable ↦ rw (search_details, outputs_answer, underivable) refl
          | inr (ds, derived) ↦
              let (os, found, same) =
                our_loop-match_loop txd.hash ds (length txd.output_pub_keys) 0 txd.output_pub_keys
                  (known ds derived) in
              rw (search_details, outputs_answer, derived, found) (ap some same)
        ]

and_search-nothing :
    (s : Searched) → search_facts (and_search s (outputs_found [])) ≡ search_facts s
unfolding search_facts
and_search-nothing (outputs_found os) = ap (λ l. some (our_facts l)) (append-nil os)
and_search-nothing (search_failed t) = refl
and_search-nothing search_raised = refl

-- If, for each output of a transaction that is found which belongs to the address, the amount is in
-- plain sight or can be decoded with the derivation that found it, the search over that transaction
-- alone gives the outputs that `json_outputs` marks as matches for the same address and view key:
-- the same keys, amounts and indices in order, or none where the other gives no outputs.
pub find_our_outputs-outputs_of_tx :
    (node : Node) (keys : Keys) (address : Address) (key : Str) (block_no : ℕ) (in_mempool : Bool)
    (tx_hash_str tx_hash : Str) (f : FoundTx)
    → find_tx node tx_hash ≡ some f
    → ((txd : TxDetails) (ds : Derivations)
        → get_tx_details node f.tx false 0 0 ≡ some txd
        → derivations_for keys f.tx (tx_pub_key keys.null_pkey (keys.public_keys f.tx)) key
          ≡ some ds
        → AmountsKnown node keys f.tx address ds (length txd.output_pub_keys) 0 txd.output_pub_keys)
    → search_facts (find_our_outputs node keys address key block_no in_mempool (f.tx ∷ []))
      ≡ answer_facts (outputs_of_tx node keys tx_hash_str tx_hash address key false)
unfolding find_our_outputs search_tx outputs_of_tx search_facts answer_facts
find_our_outputs-outputs_of_tx node keys address key block_no in_mempool tx_hash_str tx_hash f found
      known =
    and_search-nothing (search_tx node keys address key block_no in_mempool f.tx)
    ∙ elim (Option-cases (get_tx_details node f.tx false 0 0)) [
      | inl thrown ↦ rw (search_tx, outputs_of_tx, found, thrown) refl
      | inr (txd, details) ↦
          rw (search_tx, outputs_of_tx, found, details)
            (search_details-outputs_answer node keys f.tx address key block_no in_mempool txd
              (λ ds derived. known txd ds details derived))
    ]
