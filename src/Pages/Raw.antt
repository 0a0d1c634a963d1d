-- ===== src/Pages/Raw.antt =====
-- src/page.h: how a transaction is found for an answer, and `json_rawtransaction`.
use monero_sci_parser.Base.{ℕ, Option, none, some, List, if◌then◌else◌}
use monero_sci_parser.Text.{Str}
use monero_sci_parser.Tools.{Tx}
use monero_sci_parser.Chain.{get_block_by_height}
use monero_sci_parser.Pages.{
  Node, cant_parse_tx_hash, cant_find_tx_hash, cant_get_block, tx_does_not_exist,
  failed_parsing_raw_tx, Answer, fail, error, bare, FoundTx, find_tx,
}

-- `output_data_t`, its fields that are read.
pub record OutputData : Type 0 where
  pub pubkey : Str
  pub height : ℕ

-- `json::parse(obj_to_json_str(tx))`: for each entry of "vin" the key offsets of its "key".
abbrev pub RawTx : Type 0
RawTx = List (Option (List ℕ))

-- The data base of outputs, and Monero's functions on transactions. `none` is an exception, of
-- `get_output_key` the exception `OUTPUT_DNE`, of `tx_exists` the answer false.
pub record OutputDb : Type 0 where
  pub tx_exists : Str → Option ℕ
  pub get_tx_amount_output_indices : ℕ → Option (List ℕ)
  pub get_num_outputs : ℕ → ℕ
  pub relative_output_offsets_to_absolute : List ℕ → List ℕ
  pub get_output_key : ℕ → List ℕ → Option (List OutputData)
  pub obj_to_json : Tx → Option RawTx

-- The part that `json_rawtransaction` and `json_transaction` share: a transaction that is found,
-- with the height of its block and the time, or the answer of the failure.
pub data Located {ℓ} (A : Type ℓ) : Type ℓ where
  located : FoundTx → ℕ → ℕ → Located A
  not_located : Answer A → Located A

-- The block of a transaction that is not in the pool.
unfoldable pub locate_block {ℓ} : {A : Type ℓ} → Node → Str → Str → FoundTx → Located A
locate_block node tx_hash_str tx_hash f =
    if f.found_in_mempool
    then located f 0 f.tx_timestamp
    else elim (node.get_tx_block_height tx_hash) [
      | none ↦ not_located (error (tx_does_not_exist tx_hash_str))
      | some block_height ↦ elim (get_block_by_height node.core block_height) [
        | none ↦ not_located (fail (cant_get_block block_height))
        | some blk ↦ located f block_height blk.timestamp
      ]
    ]

unfoldable pub locate {ℓ} : {A : Type ℓ} → Node → Str → Located A
unfolding locate_block
locate node tx_hash_str = elim (node.parse_str_secret_key tx_hash_str) [
  | none ↦ not_located (fail (cant_parse_tx_hash tx_hash_str))
  | some tx_hash ↦ elim (find_tx node tx_hash) [
    | none ↦ not_located (fail (cant_find_tx_hash tx_hash_str))
    | some f ↦ locate_block node tx_hash_str tx_hash f
  ]
]

-- `json_rawtransaction`
unfoldable pub json_rawtransaction : Node → OutputDb → Str → Answer RawTx
unfolding locate
json_rawtransaction node db tx_hash_str = elim (locate {A = RawTx} node tx_hash_str) [
  | not_located answer ↦ answer
  | located f block_height tx_timestamp ↦ elim (db.obj_to_json f.tx) [
    | none ↦ error failed_parsing_raw_tx
    | some raw ↦ bare raw
  ]
]
