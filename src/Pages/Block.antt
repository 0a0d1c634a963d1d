-- ===== src/Pages/Block.antt =====
-- src/page.h: `json_block`, which src/parser.h asks for every block, and `json_rawblock`.
use monero_sci_parser.Base.{
  ℕ, ◌+◌, Bool, true, false, not, Option, none, some, List, [], ◌∷◌, u64, ltb, leb, ◌==◌,
  if◌then◌else◌, length,
}
use monero_sci_parser.Text.{Str, str_eq}
use monero_sci_parser.Tools.{Tx}
use monero_sci_parser.Chain.{CoreBlock, get_block_by_height, get_tx}
use monero_sci_parser.Pages.{
  Node, Title, cant_parse_block_number, requested_block_is_higher, cant_get_block,
  cant_get_block_hash, cant_parse_blk_hash, cant_find_blk, failed_parsing_raw_blk,
  cant_get_transactions_in_block, Answer, fail, error, success, bare, get_tx_details, TxJson,
  get_tx_json,
}

-- A block that the text stands for, with its hash and height, or the title of the failure.
pub data Lookup : Type 0 where
  block_found : ℕ → Str → CoreBlock → Lookup
  block_failed : Title → Lookup

-- The branch of a text that may be a number.
unfoldable pub lookup_number : Node → Str → Lookup
lookup_number node text = elim (node.lexical_cast text) [
  | none ↦ block_failed (cant_parse_block_number text)
  | some block_height ↦
      if ltb node.current_height block_height
      then block_failed (requested_block_is_higher block_height node.current_height)
      else elim (get_block_by_height node.core block_height) [
        | none ↦ block_failed (cant_get_block block_height)
        | some blk ↦ block_found block_height (node.core.get_block_id_by_height block_height) blk
      ]
]

-- The branch of a text that may be a hash.
unfoldable pub lookup_hash : Node → Str → Lookup
lookup_hash node text = elim (node.parse_str_secret_key text) [
  | none ↦ block_failed (cant_parse_blk_hash text)
  | some blk_hash ↦ elim (node.core.get_block_by_hash blk_hash) [
    | none ↦ block_failed (cant_get_block_hash blk_hash)
    | some blk ↦ block_found (node.core.get_block_height blk_hash) blk_hash blk
  ]
]

-- The tests on the length of the text.
unfoldable pub lookup_block : Node → Str → Lookup
unfolding lookup_number lookup_hash
lookup_block node text =
    if leb (length text) 8
    then lookup_number node text
    else (if length text == 64 then lookup_hash node text else block_failed (cant_find_blk text))

-- The data of `json_block`.
pub record BlockJson : Type 0 where
  pub block_height : ℕ
  pub hash : Str
  pub timestamp : ℕ
  pub size : ℕ
  pub nonce : ℕ
  pub prev_hash : Str
  pub next_hash : Str
  pub have_next_hash : Bool
  pub have_prev_hash : Bool
  pub tx_count : ℕ
  pub txs : List TxJson
  pub current_height : ℕ

-- What a loop gives: all that it makes, the return out of it, or an exception that is not caught.
pub data Made {ℓ} (A : Type ℓ) : Type ℓ where
  made_all : A → Made A
  stopped : Made A
  raised : Made A

abbrev pub and_made {ℓ} : {A : Type ℓ} → A → Made (List A) → Made (List A)
and_made a (made_all rest) = made_all (a ∷ rest)
and_made a stopped = stopped
and_made a raised = raised

-- `get_tx_details` and `get_tx_json` for a transaction of the block, before those that follow.
unfoldable pub push_tx : Node → ℕ → Bool → Tx → Made (List TxJson) → Made (List TxJson)
push_tx node block_height coinbase tx rest =
    elim (get_tx_details node tx coinbase block_height node.current_height) [
      | none ↦ raised
      | some txd ↦ and_made (get_tx_json node tx txd) rest
    ]

-- The loop over `blk.tx_hashes`.
unfoldable pub block_txs : Node → ℕ → List Str → Made (List TxJson)
unfolding push_tx
block_txs node block_height [] = made_all []
block_txs node block_height (tx_hash ∷ hashes) =
    let rest = block_txs node block_height hashes in
    elim (get_tx node.core tx_hash) [
      | none ↦ stopped
      | some tx ↦ push_tx node block_height false tx rest
    ]

-- `j_data` of a block, with `next_hash` asked for below the height of the chain.
unfoldable pub block_json : Node → ℕ → Str → CoreBlock → List TxJson → BlockJson
block_json node block_height blk_hash blk j_txs =
    let next_hash =
      if leb (u64 (block_height + 1)) node.current_height
      then node.core.get_block_id_by_height (u64 (block_height + 1))
      else node.null_hash in
    record {
      block_height = block_height;
      hash = blk_hash;
      timestamp = blk.timestamp;
      size = node.core.get_block_size block_height;
      nonce = blk.nonce;
      prev_hash = blk.prev_id;
      next_hash = next_hash;
      have_next_hash = not (str_eq next_hash node.null_hash);
      have_prev_hash = not (str_eq blk.prev_id node.null_hash);
      tx_count = length j_txs;
      txs = j_txs;
      current_height = node.current_height;
    }

-- The answer that the loop over the transactions leads to; `none` is an exception that is not
-- caught.
unfoldable pub txs_answer :
    Node → ℕ → Str → CoreBlock → Made (List TxJson) → Option (Answer BlockJson)
unfolding block_json
txs_answer node block_height blk_hash blk (made_all j_txs) =
    some (bare (block_json node block_height blk_hash blk j_txs))
txs_answer node block_height blk_hash blk stopped =
    some (error (cant_get_transactions_in_block block_height))
txs_answer node block_height blk_hash blk raised = none

unfoldable pub block_answer : Node → Lookup → Option (Answer BlockJson)
unfolding txs_answer block_txs push_tx
block_answer node (block_failed title) = some (fail title)
block_answer node (block_found block_height blk_hash blk) =
    txs_answer node block_height blk_hash blk
      (push_tx node block_height true blk.miner_tx (block_txs node block_height blk.tx_hashes))

-- `json_block`
unfoldable pub json_block : Node → Str → Option (Answer BlockJson)
unfolding lookup_block block_answer
json_block node block_no_or_hash = block_answer node (lookup_block node block_no_or_hash)

-- `json_rawblock`; `raw_json` is `json::parse(obj_to_json_str(blk))`, `none` its exception.
unfoldable pub json_rawblock {ℓ} :
    {Raw : Type ℓ} → (CoreBlock → Option Raw) → Node → Str → Answer Raw
unfolding lookup_block
json_rawblock raw_json node block_no_or_hash = elim (lookup_block node block_no_or_hash) [
  | block_failed title ↦ fail title
  | block_found block_height blk_hash blk ↦ elim (raw_json blk) [
    | none ↦ error failed_parsing_raw_blk
    | some raw ↦ success raw
  ]
]
