-- ===== src/Examples/Outputs.antt =====
-- The results on the search for outputs: in the chain of six equal blocks, with keys under which the
-- first output of a transaction is ours.
use mathlib.Core.Option.{some-injective}
use monero_sci_parser.Base.{
  ℕ, ◌-◌, ◌≡◌, refl, ap, subst, Bool, true, false, Option, none, some, length, List, [], ◌∷◌, map,
  arith, All, ◌==◌, if◌then◌else◌,
}
use monero_sci_parser.Text.{Str, codes, str_eq}
use monero_sci_parser.Tools.{summary_of_in_out_rct, summary_inputs, summary_outputs}
use monero_sci_parser.Chain.{get_block_by_height, get_tx}
use monero_sci_parser.Pages.{FoundTx, TxDetails, find_tx, get_tx_details}
use monero_sci_parser.Pages.Outputs.{
  Keys, Address, rct_simple, Derivations, derivations_for, tx_pub_key, test_output, amount_of,
  outputs_of_tx,
}
use monero_sci_parser.Pages.OutputsBlocks.{
  OurOutput, Searched, outputs_found, search_failed, search_raised, find_our_outputs, search_all,
}
use monero_sci_parser.Pages.OutputsBlocks.Agree.{
  search_facts, answer_facts, AmountsKnown, find_our_outputs-outputs_of_tx,
}
use monero_sci_parser.Pages.OutputsBlocks.Recent.{IsRecent, search_all-IsRecent}
use monero_sci_parser.Examples.OneChain.{example_node, example_tx}

abbrev keys : Keys
keys = record {
  trim = λ s. s;
  parse_str_address = λ s. none;
  null_pkey = codes "";
  public_keys = λ tx. codes "pk" ∷ [];
  additional_pks = λ tx. [];
  version = λ tx. 2;
  generate_key_derivation = λ pk key. some pk;
  derive_public_key = λ d i spend. if i == 0 then codes "key" else codes "";
  derivation_to_scalar = λ d i. d;
  rct_type = λ tx. rct_simple;
  decode_rct_simple = λ tx s i. if i == 0 then some 42 else none;
  decode_rct = λ tx s i. none;
  payment_id = λ tx. none;
  payment_id8 = λ tx. none;
  decrypt_payment_id = λ id pk key. none;
}

abbrev address : Address
address = record { view_public_key = codes "view"; spend_public_key = codes "spend" }

abbrev found_tx : FoundTx
found_tx = record { tx = example_tx; found_in_mempool = false; tx_timestamp = 0 }

found_tx-found : find_tx example_node (codes "tx") ≡ some found_tx
unfolding find_tx get_tx str_eq
found_tx-found = refl

abbrev outputs_of : Option TxDetails → List (Option Str × ℕ)
outputs_of none = []
outputs_of (some txd) = txd.output_pub_keys

abbrev derived : Derivations
derived = record { derivation = codes "pk"; additional = [] }

-- The first output is found and decoded; the second is not the address's and cannot be decoded.
amounts_known :
    (txd : TxDetails) (ds : Derivations)
    → get_tx_details example_node example_tx false 0 0 ≡ some txd
    → derivations_for keys example_tx (codes "pk") (codes "secret") ≡ some ds
    → AmountsKnown example_node keys example_tx address ds
        (length txd.output_pub_keys)
        0
        txd.output_pub_keys
unfolding get_tx_details derivations_for amount_of test_output str_eq summary_of_in_out_rct
    summary_inputs summary_outputs
amounts_known txd ds details derivable =
    let same : derived ≡ ds = some-injective _ _ derivable in
    subst (λ l. AmountsKnown example_node keys example_tx address ds (length l) 0 l)
      (ap outputs_of details)
      (subst
        (λ d.
          AmountsKnown example_node keys example_tx address d 2 0
            ((some (codes "key"), 3) ∷ (none, 0) ∷ []))
        same ((42, refl), ((0, refl), tt)))

one_output :
    search_facts
      (find_our_outputs example_node keys address (codes "secret") 3 false (example_tx ∷ []))
    ≡ some ((some (codes "key"), 42, 0) ∷ [])
unfolding search_facts find_our_outputs get_tx_details str_eq summary_of_in_out_rct summary_inputs
    summary_outputs
one_output = refl

find_our_outputs-outputs_of_tx_example :
    search_facts
      (find_our_outputs example_node keys address (codes "secret") 3 false (example_tx ∷ []))
    ≡ answer_facts
        (outputs_of_tx example_node keys (codes "text") (codes "tx") address (codes "secret") false)
unfolding tx_pub_key
find_our_outputs-outputs_of_tx_example =
    find_our_outputs-outputs_of_tx example_node keys address (codes "secret") 3 false (codes "text")
      (codes "tx") found_tx found_tx-found amounts_known

outputs_in : Searched → List OurOutput
outputs_in (outputs_found os) = os
outputs_in (search_failed t) = []
outputs_in search_raised = []

two_blocks : List OurOutput
two_blocks = outputs_in (search_all example_node keys address (codes "secret") true 2)

two_blocks-found :
    search_all example_node keys address (codes "secret") true 2 ≡ outputs_found two_blocks
unfolding two_blocks outputs_in search_all get_block_by_height get_tx_details str_eq
    summary_of_in_out_rct summary_inputs summary_outputs
two_blocks-found = refl

two_blocks-places :
    map {B = Bool × ℕ} (λ (o : OurOutput). (o.in_mempool, o.block_no)) two_blocks
    ≡ (true, 0) ∷ (true, 0) ∷ (false, 5) ∷ (false, 5) ∷ (false, 4) ∷ (false, 4) ∷ []
unfolding two_blocks outputs_in search_all get_block_by_height get_tx_details str_eq
    summary_of_in_out_rct summary_inputs summary_outputs
two_blocks-places = refl

search_all-IsRecent_example :
    All (IsRecent example_node keys address (codes "secret") (6 - 2) 6) two_blocks
search_all-IsRecent_example =
    search_all-IsRecent example_node keys address (codes "secret") true 2 two_blocks (omega arith)
      (omega arith) two_blocks-found
