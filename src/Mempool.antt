-- ===== src/Mempool.antt =====
-- src/MempoolStatus.cpp: the copy of the node's pool of transactions that a thread keeps. The RPC
-- client and Monero's readers of transactions are a parameter; the texts that are made for pages are
-- left out.
pub mod Reads
pub mod Network
use monero_sci_parser.Base.{
  ℕ, ◌+◌, ◌/◌, ◌%◌, Bool, true, false, not, Option, none, some, List, [], ◌∷◌, u64, leb, ltb, ◌==◌,
  if◌then◌else◌, length, take,
}
use monero_sci_parser.Text.{Str}
use monero_sci_parser.Parser.Store.{push}
use monero_sci_parser.Tools.{Tx, Summary, summary_of_in_out_rct}

-- `tx_info` of Monero, its fields that are read.
pub record TxInfo : Type 0 where
  pub tx_blob : Str
  pub blob_size : ℕ
  pub receive_time : ℕ

-- `mempool_tx` of src/MempoolStatus.h
pub record MempoolTx : Type 0 where
  pub tx_hash : Str
  pub tx : Tx
  pub receive_time : ℕ
  pub sum_inputs : ℕ
  pub sum_outputs : ℕ
  pub no_inputs : ℕ
  pub no_outputs : ℕ
  pub num_nonrct_inputs : ℕ
  pub mixin_no : ℕ
  pub pid : ℕ

-- Monero: `parse_and_validate_tx_from_blob` with the transaction and its hash, and what
-- `get_payment_id` and the extra field tell of a transaction.
pub record TxReader : Type 0 where
  pub parse_tx : Str → Option (Tx × Str)
  pub has_payment_id : Tx → Bool
  pub has_payment_id8 : Tx → Bool
  pub has_additional_pub_keys : Tx → Bool

-- The static members that `read_mempool` writes.
pub record MempoolStatus : Type 0 where
  pub mempool_txs : List MempoolTx
  pub mempool_no : ℕ
  pub mempool_size : ℕ

-- `pID`: legacy, encrypted, sub-address or none.
unfoldable pub payment_mark : TxReader → Tx → ℕ
payment_mark reader tx =
    if reader.has_payment_id tx
    then b'l'
    else (if reader.has_payment_id8 tx
        then b'e'
        else (if reader.has_additional_pub_keys tx then b's' else b'-'))

-- The entry that a round of the loop appends and fills in.
unfoldable pub mempool_entry : TxReader → TxInfo → Tx × Str → MempoolTx
unfolding payment_mark
mempool_entry reader info (tx, tx_hash) =
    let sum_data : Summary = summary_of_in_out_rct tx [] [] in
    record {
      tx_hash = tx_hash;
      tx = tx;
      receive_time = info.receive_time;
      sum_inputs = sum_data.xmr_inputs;
      sum_outputs = sum_data.xmr_outputs;
      no_inputs = length sum_data.input_key_imgs;
      no_outputs = length sum_data.output_pub_keys;
      num_nonrct_inputs = sum_data.num_nonrct_inputs;
      mixin_no = sum_data.mixin_no;
      pid = payment_mark reader tx;
    }

-- The loop of `read_mempool` over the infos, on the local copy and the size so far; `none` is the
-- return at a blob that is not a transaction.
unfoldable pub mempool_loop :
    TxReader → List TxInfo → List MempoolTx → ℕ → Option (List MempoolTx × ℕ)
unfolding mempool_entry
mempool_loop reader [] local_copy size = some (local_copy, size)
mempool_loop reader (info ∷ infos) local_copy size = elim (reader.parse_tx info.tx_blob) [
  | none ↦ none
  | some parsed ↦
      mempool_loop reader infos (push local_copy (mempool_entry reader info parsed))
        (u64 (size + info.blob_size))
]

-- The end of `read_mempool`: the local copy becomes the pool, if the loop made one.
unfoldable pub set_mempool : MempoolStatus → Option (List MempoolTx × ℕ) → MempoolStatus × Bool
set_mempool m none = (m, false)
set_mempool m (some (local_copy, size)) =
    (record { mempool_txs = local_copy; mempool_no = length local_copy; mempool_size = size }, true)

-- `read_mempool`; `none` is a call of the node that fails.
unfoldable pub read_mempool : TxReader → Option (List TxInfo) → MempoolStatus → MempoolStatus × Bool
unfolding mempool_loop set_mempool
read_mempool reader none m = (m, false)
read_mempool reader (some infos) m = set_mempool m (mempool_loop reader infos [] 0)

-- `get_mempool_txs` with a number of transactions.
unfoldable pub get_mempool_txs : ℕ → MempoolStatus → List MempoolTx
get_mempool_txs no_of_tx m =
    take (if ltb (length m.mempool_txs) no_of_tx then length m.mempool_txs else no_of_tx)
      m.mempool_txs

-- `loop_index_divider`, where the refresh time has been raised to 1.
unfoldable pub loop_index_divider : ℕ → ℕ
loop_index_divider mempool_refresh_time =
    let rounds = 60 / mempool_refresh_time in if ltb rounds 1 then 1 else rounds

-- `loop_index` over a round of the thread, and whether the network info is asked for; `answers`
-- tells whether it is then read.
unfoldable pub next_loop_index : ℕ → Bool → ℕ → ℕ × Bool
next_loop_index divider answers loop_index =
    let due = loop_index % divider == 0 in
    (u64 ((if due then (if answers then 0 else loop_index) else loop_index) + 1), due)
