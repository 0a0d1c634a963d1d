-- ===== src/Pages/BlockPage.antt =====
-- src/page.h: `show_block`, the page of a block by its height and by its hash. Formatted texts and
-- the versions of the block are left out.
pub mod Json
use monero_sci_parser.Base.{
  ℕ, ◌+◌, Bool, true, false, not, Option, none, some, List, [], ◌∷◌, u64, sub64, ltb, leb,
  if◌then◌else◌, ◌>>=◌, length,
}
use monero_sci_parser.Text.{Str, str_eq}
use monero_sci_parser.Parser.Store.{push}
use monero_sci_parser.Tools.{Tx}
use monero_sci_parser.Chain.{CoreBlock, get_block_by_height, get_tx}
use monero_sci_parser.Pages.{Node, TxDetails, get_tx_details}
use monero_sci_parser.Pages.Index.{Age, get_age}

-- What the template shows.
pub record BlockPage : Type 0 where
  pub blk_hash : Str
  pub blk_height : ℕ
  pub blk_timestamp_epoch : ℕ
  pub prev_hash : Str
  pub next_hash : Str
  pub have_next_hash : Bool
  pub have_prev_hash : Bool
  pub have_txs : Bool
  pub no_txs : ℕ
  pub blk_age : Age
  pub delta_time : Option Age
  pub blk_nonce : ℕ
  pub blk_size : ℕ
  pub coinbase_tx : TxDetails
  pub blk_txs : List TxDetails
  pub sum_fees : ℕ
  pub blk_reward : ℕ

-- The page, or the message in its place.
pub data Shown : Type 0 where
  higher_than_chain : ℕ → Shown
  no_block : ℕ → Shown
  hash_parse_error : Shown
  no_block_with : Str → Shown
  block_page : BlockPage → Shown

-- The loop over `blk.tx_hashes`: a transaction that is not found is left out.
unfoldable pub show_txs : Node → ℕ → List Str → ℕ → List TxDetails → Option (ℕ × List TxDetails)
show_txs node blk_height [] sum_fees txs = some (sum_fees, txs)
show_txs node blk_height (tx_hash ∷ hashes) sum_fees txs = elim (get_tx node.core tx_hash) [
  | none ↦ show_txs node blk_height hashes sum_fees txs
  | some tx ↦ elim (get_tx_details node tx false blk_height node.current_height) [
    | none ↦ none
    | some txd ↦ show_txs node blk_height hashes (u64 (sum_fees + txd.fee)) (push txs txd)
  ]
]

-- Monero's data base: `get_block`, `none` its exception, and `have_block`.
module _ (node : Node) (db_block : Str → Option CoreBlock) (have_block : Str → Bool) where
  unfoldable pub next_hash_of : ℕ → Str
  next_hash_of blk_height =
      if leb (u64 (blk_height + 1)) node.current_height
      then node.core.get_block_id_by_height (u64 (blk_height + 1))
      else node.null_hash

  -- `delta_time`; the inner `none` is the text for no previous block.
  unfoldable pub delta_of : CoreBlock → Option (Option Age)
  unfolding get_age
  delta_of blk =
      if not (str_eq blk.prev_id node.null_hash)
      then db_block blk.prev_id
        >>= (λ prev_blk. some (some (get_age blk.timestamp prev_blk.timestamp false)))
      else some none

  unfoldable pub page_of :
      ℕ → ℕ → CoreBlock → Option Age → TxDetails → ℕ × List TxDetails → BlockPage
  unfolding next_hash_of get_age
  page_of server_timestamp blk_height blk delta txd_coinbase sums = record {
    blk_hash = node.core.get_block_id_by_height blk_height;
    blk_height = blk_height;
    blk_timestamp_epoch = blk.timestamp;
    prev_hash = blk.prev_id;
    next_hash = next_hash_of blk_height;
    have_next_hash = not (str_eq (next_hash_of blk_height) node.null_hash);
    have_prev_hash = not (str_eq blk.prev_id node.null_hash);
    have_txs = ltb 0 (length blk.tx_hashes);
    no_txs = length blk.tx_hashes;
    blk_age = get_age server_timestamp blk.timestamp false;
    delta_time = delta;
    blk_nonce = blk.nonce;
    blk_size = node.core.get_block_size blk_height;
    coinbase_tx = txd_coinbase;
    blk_txs = sums.1;
    sum_fees = sums.0;
    blk_reward = sub64 txd_coinbase.xmr_outputs sums.0;
  }

  -- The page of a block that is found; `none` is an exception that is not caught.
  unfoldable pub show_found : ℕ → ℕ → CoreBlock → Option Shown
  unfolding delta_of show_txs page_of
  show_found server_timestamp blk_height blk = delta_of blk >>= λ delta.
      get_tx_details node blk.miner_tx true blk_height node.current_height >>= λ txd_coinbase.
      show_txs node blk_height blk.tx_hashes 0 [] >>= λ sums.
      some (block_page (page_of server_timestamp blk_height blk delta txd_coinbase sums))

  -- `show_block` of a height
  unfoldable pub show_block_at : ℕ → ℕ → Option Shown
  unfolding show_found
  show_block_at server_timestamp blk_height =
      if ltb node.current_height blk_height
      then some (higher_than_chain blk_height)
      else elim (get_block_by_height node.core blk_height) [
        | none ↦ some (no_block blk_height)
        | some blk ↦ show_found server_timestamp blk_height blk
      ]

  -- `show_block` of a hash
  unfoldable pub show_block_with : ℕ → Str → Option Shown
  unfolding show_block_at
  show_block_with server_timestamp text = elim (node.parse_str_secret_key text) [
    | none ↦ some hash_parse_error
    | some blk_hash ↦
        if have_block blk_hash
        then show_block_at server_timestamp (node.core.get_block_height blk_hash)
        else some (no_block_with blk_hash)
  ]
