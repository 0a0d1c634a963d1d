-- ===== src/Pages/OutputsBlocks.antt =====
-- src/page.h: `find_our_outputs`, the search over transactions, and `json_outputsblocks` over the pool
-- and the last blocks. The data that goes with an error is left out.
pub mod Agree
pub mod Ours
pub mod Recent
use monero_sci_parser.Base.{
  ℕ, zero, suc, ◌+◌, Bool, true, false, Option, none, some, List, [], ◌∷◌, ◌++◌, map, sub64, ltb,
  if◌then◌else◌, ◌>>=◌, length,
}
use monero_sci_parser.Text.{Str, codes}
use monero_sci_parser.Tools.{Tx}
use monero_sci_parser.Chain.{get_block_by_height}
use monero_sci_parser.Mempool.{MempoolTx}
use monero_sci_parser.Pages.{
  Node, Title, address_not_provided, viewkey_not_provided, cant_parse_view_key, cant_parse_limit,
  cant_get_block, cant_get_transactions_in_block, cant_calculate_key_derivation, cant_decode_ringct,
  Answer, fail, error, success, TxDetails, get_tx_details,
}
use monero_sci_parser.Pages.Paging.{not_below_zero, page_end, page_rounds}
use monero_sci_parser.Pages.Outputs.{
  Address, Keys, tx_pub_key, Derivations, derivations_for, Mine, test_output, amount_of, is_empty,
  parsed, not_parsed, parse_keys,
}

-- An output that is ours, as an entry of "outputs".
pub record OurOutput : Type 0 where
  pub output_pubkey : Option Str
  pub amount : ℕ
  pub block_no : ℕ
  pub in_mempool : Bool
  pub output_idx : ℕ
  pub tx_hash : Str
  pub payment_id : Str

-- What a search gives that raises no exception which is not caught: outputs, or its message.
pub data Searched : Type 0 where
  outputs_found : List OurOutput → Searched
  search_failed : Title → Searched
  search_raised : Searched

-- A search after which another one follows.
abbrev pub and_search : Searched → Searched → Searched
and_search (outputs_found os) (outputs_found rest) = outputs_found (os ++ rest)
and_search (outputs_found os) (search_failed t) = search_failed t
and_search (outputs_found os) search_raised = search_raised
and_search (search_failed t) rest = search_failed t
and_search search_raised rest = search_raised

module _ (node : Node) (keys : Keys) where
  -- `get_payment_id_as_string`
  unfoldable pub payment_id_string : Tx → Str → Str
  unfolding tx_pub_key
  payment_id_string tx key = elim (keys.payment_id8 tx) [
    | none ↦ elim (keys.payment_id tx) [ none ↦ codes "" | some id ↦ id ]
    | some id8 ↦
        elim (keys.decrypt_payment_id id8 (tx_pub_key keys.null_pkey (keys.public_keys tx)) key) [
          | none ↦ codes ""
          | some id ↦ id
        ]
  ]

  module _ (address : Address) (key : Str) (block_no : ℕ) (in_mempool : Bool) where
    unfoldable pub our_output : Tx → Str → ℕ → Option Str → ℕ → OurOutput
    unfolding payment_id_string
    our_output tx hash output_idx pubkey amount = record {
      output_pubkey = pubkey;
      amount = amount;
      block_no = block_no;
      in_mempool = in_mempool;
      output_idx = output_idx;
      tx_hash = hash;
      payment_id = payment_id_string tx key;
    }

    -- The loop over the outputs of a transaction; `none` is an amount that cannot be decoded.
    unfoldable pub our_loop :
        Tx → Str → Derivations → ℕ → ℕ → List (Option Str × ℕ) → Option (List OurOutput)
    unfolding test_output amount_of our_output
    our_loop tx hash ds no_outputs output_idx [] = some []
    our_loop tx hash ds no_outputs output_idx ((pubkey, plain) ∷ os) =
        let m = test_output keys address ds no_outputs output_idx pubkey in
        let rest = our_loop tx hash ds no_outputs (suc output_idx) os in
        amount_of node keys tx m output_idx plain >>= λ amount. rest >>= λ outputs.
        some
          (if m.mine_output then our_output tx hash output_idx pubkey amount ∷ outputs else outputs)

    -- A transaction with its details.
    unfoldable pub search_details : Tx → TxDetails → Searched
    unfolding derivations_for tx_pub_key our_loop
    search_details tx txd =
        elim (derivations_for keys tx (tx_pub_key keys.null_pkey (keys.public_keys tx)) key) [
          | none ↦ search_failed cant_calculate_key_derivation
          | some ds ↦
              elim (our_loop tx txd.hash ds (length txd.output_pub_keys) 0 txd.output_pub_keys) [
                | none ↦ search_failed (cant_decode_ringct txd.hash)
                | some outputs ↦ outputs_found outputs
              ]
        ]

    -- A round of the loop over the transactions.
    unfoldable pub search_tx : Tx → Searched
    unfolding search_details
    search_tx tx = elim (get_tx_details node tx false 0 0) [
      | none ↦ search_raised
      | some txd ↦ search_details tx txd
    ]

    -- `find_our_outputs`
    unfoldable pub find_our_outputs : List Tx → Searched
    unfolding search_tx
    find_our_outputs [] = outputs_found []
    find_our_outputs (tx ∷ txs) = and_search (search_tx tx) (find_our_outputs txs)

  module _ (address : Address) (key : Str) where
    -- A round of the loop over the blocks.
    unfoldable pub block_search : ℕ → Searched
    unfolding find_our_outputs
    block_search block_no = elim (get_block_by_height node.core block_no) [
      | none ↦ search_failed (cant_get_block block_no)
      | some blk ↦
          let r = node.core.get_transactions blk.tx_hashes in
          if r.0
          then find_our_outputs address key block_no false (blk.miner_tx ∷ r.1)
          else search_failed (cant_get_transactions_in_block block_no)
    ]

    -- The loop: with `left` rounds left, the next block is the one at `start_height + left - 1`.
    unfoldable pub search_blocks : ℕ → ℕ → Searched
    unfolding block_search
    search_blocks start_height zero = outputs_found []
    search_blocks start_height (suc left) =
        and_search (block_search (start_height + left)) (search_blocks start_height left)

    -- The search in the pool, if it is asked for.
    unfoldable pub search_pool : Bool → Searched
    unfolding find_our_outputs
    search_pool false = outputs_found []
    search_pool true =
        find_our_outputs address key 0 true (map (λ (t : MempoolTx). t.tx) node.mempool_txs)

-- The data of `json_outputsblocks`.
pub record OutputsBlocksJson : Type 0 where
  pub outputs : List OurOutput
  pub address : Address
  pub viewkey : Str
  pub limit : Str
  pub height : ℕ
  pub mempool : Bool

-- At most five blocks.
abbrev pub cap_blocks : ℕ → ℕ
cap_blocks limit = if ltb limit 5 then limit else 5

module _ (node : Node) (keys : Keys) where
  -- The pool, then the last blocks from the top down.
  unfoldable pub search_all : Address → Str → Bool → ℕ → Searched
  unfolding search_pool search_blocks page_rounds page_end
  search_all address key in_mempool_aswell no_of_last_blocks =
      let start_height = not_below_zero (sub64 node.current_height no_of_last_blocks) in
      let rounds = page_rounds start_height (page_end start_height no_of_last_blocks) in
      and_search (search_pool node keys address key in_mempool_aswell)
        (search_blocks node keys address key start_height rounds)

  -- The answer that the search leads to; `none` is an exception that is not caught.
  unfoldable pub searched_answer :
      Address → Str → Str → Bool → Searched → Option (Answer OutputsBlocksJson)
  searched_answer address key limit in_mempool_aswell search_raised = none
  searched_answer address key limit in_mempool_aswell (search_failed t) = some (error t)
  searched_answer address key limit in_mempool_aswell (outputs_found outputs) = some (
      success (record {
        outputs = outputs;
        address = address;
        viewkey = key;
        limit = limit;
        height = node.current_height;
        mempool = in_mempool_aswell;
      }))

  -- `json_outputsblocks`
  unfoldable pub json_outputsblocks : Str → Str → Str → Bool → Option (Answer OutputsBlocksJson)
  unfolding parse_keys search_all searched_answer
  json_outputsblocks limit_text address_text viewkey_text in_mempool_aswell =
      let limit_str = keys.trim limit_text in
      let address_str = keys.trim address_text in
      let viewkey_str = keys.trim viewkey_text in
      elim (node.lexical_cast limit_str) [
        | none ↦ some (fail (cant_parse_limit limit_str))
        | some limit ↦
            if is_empty address_str
            then some (error address_not_provided)
            else (if is_empty viewkey_str
                then some (error viewkey_not_provided)
                else elim (parse_keys node keys cant_parse_view_key address_str viewkey_str) [
                  | not_parsed t ↦ some (error t)
                  | parsed address key ↦
                      searched_answer address key limit_str in_mempool_aswell
                        (search_all address key in_mempool_aswell (cap_blocks limit))
                ])
      ]
