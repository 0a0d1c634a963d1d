-- ===== src/Parser/Explorer.antt =====
-- `blockDetails` of src/parser.h: what the parser reads of the explorer's answer for a block.
pub mod Kept
pub mod Range
use monero_sci_parser.Base.{ℕ, Option, none, some, map}
use monero_sci_parser.Text.{Str}
use monero_sci_parser.Parser.Records.{Block, TxRef}
use monero_sci_parser.Pages.{Node, Answer, fail, error, success, bare, TxJson}
use monero_sci_parser.Pages.Block.{BlockJson, json_block}

-- An entry of "txs".
unfoldable pub tx_ref : TxJson → TxRef
tx_ref j = record { tx_hash = j.tx_hash; coinbase = j.coinbase; mixin = j.mixin }

-- The data for a block as the parser reads them; `timestamp_utc` is the text of a time.
unfoldable pub block_of : (ℕ → Str) → BlockJson → Block
unfolding tx_ref
block_of timestamp_utc b = record {
  block_height = b.block_height;
  hash = b.hash;
  timestamp = b.timestamp;
  timestamp_utc = timestamp_utc b.timestamp;
  size = b.size;
  tx_count = b.tx_count;
  nonce = b.nonce;
  prev_hash = b.prev_hash;
  next_hash = b.next_hash;
  txs = map tx_ref b.txs;
}

-- An answer with a status has no "hash" of its own, and `at` raises an exception.
unfoldable pub read_block : (ℕ → Str) → Answer BlockJson → Option Block
unfolding block_of
read_block timestamp_utc (fail t) = none
read_block timestamp_utc (error t) = none
read_block timestamp_utc (success b) = none
read_block timestamp_utc (bare b) = some (block_of timestamp_utc b)

-- `blockDetails`
unfoldable pub block_details : Node → (ℕ → Str) → Str → Option Block
unfolding read_block
block_details node timestamp_utc blk_height = elim (json_block node blk_height) [
  | none ↦ none
  | some answer ↦ read_block timestamp_utc answer
]
