-- ===== src/Pages.antt =====
-- src/page.h: the JSON answers of the explorer, and some of its HTML pages. A JSON object is a record
-- of its fields; a title or a message is a constructor with the arguments that the text is made of.
pub mod Block
pub mod Raw
pub mod Transaction
pub mod Heights
pub mod Search
pub mod Paging
pub mod PoolPage
pub mod EmissionPage
pub mod Index
pub mod Outputs
pub mod OutputsBlocks
pub mod NetworkPage
pub mod PoolView
pub mod AltBlocks
pub mod BlockPage
use monero_sci_parser.Base.{
  ℕ, ◌+◌, Bool, true, false, not, Option, none, some, List, [], ◌∷◌, u64, sub64, ltb, leb, ◌==◌,
  ◌&&◌, ◌||◌, if◌then◌else◌,
}
use monero_sci_parser.Text.{Str, codes, str_eq}
use monero_sci_parser.Tools.{Tx, TxIn, InToKey, Summary, summary_of_in_out_rct}
use monero_sci_parser.Chain.{Core, get_tx}
use monero_sci_parser.Mempool.{MempoolTx}

-- What the answers are made from: the chain with its height, the pool, and functions of Boost and of
-- Monero. `none` is an exception, or the answer false of a reader.
pub record Node : Type 0 where
  pub core : Core
  pub current_height : ℕ
  pub mempool_txs : List MempoolTx
  pub lexical_cast : Str → Option ℕ
  pub parse_str_secret_key : Str → Option Str
  pub null_hash : Str
  pub get_tx_block_height : Str → Option ℕ
  pub is_coinbase : Tx → Bool
  pub is_txin_gen : TxIn → Bool
  pub get_object_blobsize : Tx → ℕ

-- The titles of the answers `fail`, and the messages of the answers `error`.
pub data Title : Type 0 where
  cant_parse_block_number : Str → Title
  requested_block_is_higher : ℕ → ℕ → Title
  cant_get_block : ℕ → Title
  cant_get_block_hash : Str → Title
  cant_parse_blk_hash : Str → Title
  cant_find_blk : Str → Title
  cant_parse_tx_hash : Str → Title
  cant_find_tx_hash : Str → Title
  cant_get_transactions_in_block : ℕ → Title
  tx_does_not_exist : Str → Title
  cant_parse_page_or_limit : Str → Str → Title
  failed_retrieving_outputs : Title
  failed_parsing_raw_blk : Title
  failed_parsing_raw_tx : Title
  out_of_range_in_mempool : Title
  nothing_was_found : Str → Title
  emission_not_enabled : Title
  tx_hash_not_provided : Title
  address_not_provided : Title
  viewkey_not_provided : Title
  tx_private_key_not_provided : Title
  cant_parse_address : Str → Title
  cant_parse_view_key : Str → Title
  cant_parse_view_or_tx_key : Str → Title
  cant_parse_limit : Str → Title
  cant_calculate_key_derivation : Title
  cant_decode_ringct : Str → Title
  cant_get_network_info : Title
  cant_get_fee_estimate : Title

-- An answer: `fail` and `error` as `j_response`, `success` as `j_response` with its data, and
-- `bare` for a function that returns `j_data`.
pub data Answer {ℓ} (A : Type ℓ) : Type ℓ where
  fail : Title → Answer A
  error : Title → Answer A
  success : A → Answer A
  bare : A → Answer A

-- `answer["status"]`; a bare answer has no such field.
unfoldable pub status {ℓ} : {A : Type ℓ} → Answer A → Option Str
status (fail t) = some (codes "fail")
status (error t) = some (codes "error")
status (success a) = some (codes "success")
status (bare a) = none

-- `answer["status"] == "success"`
unfoldable pub is_success {ℓ} : {A : Type ℓ} → Answer A → Bool
unfolding status
is_success a = elim (status a) [ none ↦ false | some s ↦ str_eq s (codes "success") ]

-- `tx_details`: the fields that JSON answers read.
pub record TxDetails : Type 0 where
  pub hash : Str
  pub xmr_outputs : ℕ
  pub xmr_inputs : ℕ
  pub mixin_no : ℕ
  pub num_nonrct_inputs : ℕ
  pub fee : ℕ
  pub size : ℕ
  pub output_pub_keys : List (Option Str × ℕ)
  pub input_key_imgs : List InToKey
  pub blk_height : ℕ
  pub no_confirmations : ℕ

-- The fee: none for a coinbase transaction or one without inputs.
unfoldable pub fee_of : Node → List TxIn → Tx → Bool → ℕ
fee_of node [] tx coinbase = 0
fee_of node (i ∷ is) tx coinbase =
    if not coinbase && not (node.is_txin_gen i) then node.core.get_tx_fee tx else 0

-- The details where the height is known, from the arguments.
unfoldable pub known_details : Node → Tx → Bool → ℕ → ℕ → TxDetails
unfolding fee_of
known_details node tx coinbase blk_height bc_height =
    let sum_data : Summary = summary_of_in_out_rct tx [] [] in
    record {
      hash = node.core.get_transaction_hash tx;
      xmr_outputs = sum_data.xmr_outputs;
      xmr_inputs = sum_data.xmr_inputs;
      mixin_no = sum_data.mixin_no;
      num_nonrct_inputs = sum_data.num_nonrct_inputs;
      fee = fee_of node tx.vin tx coinbase;
      size = node.get_object_blobsize tx;
      output_pub_keys = sum_data.output_pub_keys;
      input_key_imgs = sum_data.input_key_imgs;
      blk_height = 0;
      no_confirmations = sub64 bc_height blk_height;
    }

-- `get_tx_details`; `none` is the exception of `get_tx_block_height`.
unfoldable pub get_tx_details : Node → Tx → Bool → ℕ → ℕ → Option TxDetails
unfolding known_details
get_tx_details node tx coinbase blk_height bc_height =
    let txd = known_details node tx coinbase blk_height bc_height in
    if blk_height == 0 && node.core.have_tx (node.core.get_transaction_hash tx)
    then elim (node.get_tx_block_height (node.core.get_transaction_hash tx)) [
      | none ↦ none
      | some height ↦
          some (record txd {
            blk_height = height;
            no_confirmations = sub64 node.current_height height;
          })
    ]
    else some txd

-- `get_tx_json`, without the fields that are copied from Monero's transaction.
pub record TxJson : Type 0 where
  pub tx_hash : Str
  pub tx_fee : ℕ
  pub mixin : ℕ
  pub tx_size : ℕ
  pub xmr_outputs : ℕ
  pub xmr_inputs : ℕ
  pub coinbase : Bool

unfoldable pub get_tx_json : Node → Tx → TxDetails → TxJson
get_tx_json node tx txd = record {
  tx_hash = txd.hash;
  tx_fee = txd.fee;
  mixin = txd.mixin_no;
  tx_size = txd.size;
  xmr_outputs = txd.xmr_outputs;
  xmr_inputs = txd.xmr_inputs;
  coinbase = node.is_coinbase tx;
}

-- `search_mempool`: all transactions for `null_hash`, else the first one with the hash.
unfoldable pub search_mempool : Node → Str → List MempoolTx → List MempoolTx
search_mempool node tx_hash [] = []
search_mempool node tx_hash (t ∷ ts) =
    let rest = search_mempool node tx_hash ts in
    if str_eq tx_hash t.tx_hash || str_eq tx_hash node.null_hash
    then t ∷ (if str_eq tx_hash node.null_hash then rest else [])
    else rest

-- What `find_tx` finds: the transaction, whether it is in the pool, and the time that it sets.
pub record FoundTx : Type 0 where
  pub tx : Tx
  pub found_in_mempool : Bool
  pub tx_timestamp : ℕ

abbrev pub first_found : List MempoolTx → Option FoundTx
first_found [] = none
first_found (t ∷ ts) =
    some (record { tx = t.tx; found_in_mempool = true; tx_timestamp = t.receive_time })

-- `find_tx`, with the time 0 that its callers start from.
unfoldable pub find_tx : Node → Str → Option FoundTx
unfolding search_mempool
find_tx node tx_hash = elim (get_tx node.core tx_hash) [
  | none ↦ first_found (search_mempool node tx_hash node.mempool_txs)
  | some tx ↦ some (record { tx = tx; found_in_mempool = false; tx_timestamp = 0 })
]
