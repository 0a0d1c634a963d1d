-- ===== src/Chain.antt =====
-- src/MicroCore.cpp: the explorer's view of the block chain. Monero's `Blockchain` and its data base
-- are a parameter, with the types of Tools for transactions and byte lists for hashes.
pub mod Search
use monero_sci_parser.Base.{
  ℕ, ◌+◌, Bool, true, false, Option, none, some, List, [], ◌∷◌, if◌then◌else◌,
}
use monero_sci_parser.Text.{Str, str_eq}
use monero_sci_parser.Tools.{Tx, TxOut}

-- `cryptonote::block`, its fields that are read.
pub record CoreBlock : Type 0 where
  pub miner_tx : Tx
  pub tx_hashes : List Str
  pub timestamp : ℕ
  pub nonce : ℕ
  pub prev_id : Str

-- `none` from the data base is an exception. `get_transactions` gives its result, the transactions
-- found and the hashes missed.
pub record Core : Type 0 where
  pub get_block_from_height : ℕ → Option CoreBlock
  pub get_block_by_hash : Str → Option CoreBlock
  pub get_block_height : Str → ℕ
  pub get_block_id_by_height : ℕ → Str
  pub get_block_size : ℕ → ℕ
  pub have_tx : Str → Bool
  pub get_db_tx : Str → Tx
  pub get_transactions : List Str → Bool × List Tx × List Str
  pub get_transaction_hash : Tx → Str
  pub get_outs_money_amount : Tx → ℕ
  pub get_tx_fee : Tx → ℕ
  pub default_block : CoreBlock

-- `get_block_by_height`; every exception is caught, and `none` is the answer false.
unfoldable pub get_block_by_height : Core → ℕ → Option CoreBlock
get_block_by_height core height = core.get_block_from_height height

-- `get_tx`
unfoldable pub get_tx : Core → Str → Option Tx
get_tx core tx_hash = if core.have_tx tx_hash then some (core.get_db_tx tx_hash) else none

-- `get_tx` on a text, with `parse_str_secret_key` of src/tools.cpp, which is Monero's hex reader.
unfoldable pub get_tx_by_text : Core → (Str → Option Str) → Str → Option Tx
get_tx_by_text core parse_str tx_hash_str = elim (parse_str tx_hash_str) [
  | none ↦ none
  | some tx_hash ↦ get_tx core tx_hash
]

-- What the search for an output gives: the output and its index, nothing, or the exception of
-- `boost::get` at an output without a key.
pub data Found {ℓ} (A : Type ℓ) : Type ℓ where
  found : A → Found A
  nowhere : Found A
  thrown : Found A

-- `std::find_if` in `find_output_in_tx`; `idx` outputs have been passed.
unfoldable pub find_loop : List TxOut → Str → ℕ → Found (TxOut × ℕ)
find_loop [] output_pubkey idx = nowhere
find_loop (o ∷ os) output_pubkey idx =
    let rest = find_loop os output_pubkey (idx + 1) in
    elim (o.key) [
      | none ↦ thrown
      | some key ↦ if str_eq key output_pubkey then found (o, idx) else rest
    ]

-- `find_output_in_tx`; the counter is one ahead of the index, and one is taken off.
unfoldable pub find_output_in_tx : Tx → Str → Found (TxOut × ℕ)
unfolding find_loop
find_output_in_tx tx output_pubkey = find_loop tx.vout output_pubkey 0

-- The loop over the transactions in `get_tx_hash_from_output_pubkey`.
unfoldable pub find_in_txs : Core → List Tx → Str → Found (Str × Tx)
find_in_txs core [] output_pubkey = nowhere
find_in_txs core (tx ∷ txs) output_pubkey =
    let rest = find_in_txs core txs output_pubkey in
    elim (find_output_in_tx tx output_pubkey) [
      | found _ ↦ found (core.get_transaction_hash tx, tx)
      | nowhere ↦ rest
      | thrown ↦ thrown
    ]

-- `missed_txs.empty()`
unfoldable pub none_missed : List Str → Bool
none_missed [] = true
none_missed (h ∷ hs) = false

-- `get_tx_hash_from_output_pubkey`; the coinbase transaction comes first.
unfoldable pub get_tx_hash_from_output_pubkey : Core → Str → ℕ → Found (Str × Tx)
unfolding find_in_txs none_missed
get_tx_hash_from_output_pubkey core output_pubkey block_height =
    elim (get_block_by_height core block_height) [
      | none ↦ nowhere
      | some blk ↦
          let r = core.get_transactions blk.tx_hashes in
          if r.0
          then (if none_missed r.2
              then find_in_txs core (blk.miner_tx ∷ r.1) output_pubkey
              else nowhere)
          else nowhere
    ]

-- `get_blk_timestamp`
unfoldable pub get_blk_timestamp : Core → ℕ → ℕ
get_blk_timestamp core blk_height = elim (get_block_by_height core blk_height) [
  | none ↦ 0
  | some blk ↦ blk.timestamp
]
