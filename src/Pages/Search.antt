-- ===== src/Pages/Search.antt =====
-- src/page.h: `json_search`, which asks `json_transaction` and `json_block` and reads the status of
-- their answers.
pub mod Nothing
use monero_sci_parser.Base.{
  ℕ, ◌≡◌, ◌⊎◌, inl, inr, refl, ap, ◌∙◌, Bool, true, false, Option, none, some, List, [], ◌∷◌, leb,
  ◌==◌, if◌then◌else◌, ◌>>=◌, length, Option-cases, Bool-cases,
}
use monero_sci_parser.Text.{Str, codes, str_eq}
use monero_sci_parser.Chain.{get_block_by_height}
use monero_sci_parser.Pages.{
  Node, nothing_was_found, Answer, fail, error, success, bare, is_success, FoundTx, find_tx,
  get_tx_details, TxJson,
}
use monero_sci_parser.Pages.Block.{
  Lookup, lookup_block, block_failed, block_found, push_tx, block_txs, txs_answer, block_answer,
  BlockJson, json_block, Made, made_all, stopped, raised,
}
use monero_sci_parser.Pages.Raw.{
  OutputDb, Located, located, not_located, locate_block, locate, RawTx, json_rawtransaction,
}
use monero_sci_parser.Pages.Transaction.{
  outputs_json, amount_indices, inputs_json, raw_vin, InputJson, inputs_answer, transaction_answer,
  TransactionJson, json_transaction,
}

-- `j_answer["data"]`; an answer without it gives null.
unfoldable pub data_of {ℓ} : {A : Type ℓ} → Answer A → Option A
data_of (fail t) = none
data_of (error t) = none
data_of (success a) = some a
data_of (bare a) = none

-- The data of the search with its title.
pub data SearchJson : Type 0 where
  transaction_found : Option TransactionJson → SearchJson
  block_found_for : Option BlockJson → SearchJson

-- The search for a block, before what follows it.
unfoldable pub search_block : Node → Str → Option (Answer SearchJson) → Option (Answer SearchJson)
unfolding data_of
search_block node text next = json_block node text >>= λ j_block.
    if is_success j_block then some (success (block_found_for (data_of j_block))) else next

-- The search for a transaction, before what follows it.
unfoldable pub search_transaction :
    Node → OutputDb → Str → Option (Answer SearchJson) → Option (Answer SearchJson)
unfolding data_of
search_transaction node db text next = json_transaction node db text >>= λ j_tx.
    if is_success j_tx then some (success (transaction_found (data_of j_tx))) else next

-- A text of at most eight characters may be the number of a block.
unfoldable pub search_number : Node → Str → Option (Answer SearchJson) → Option (Answer SearchJson)
unfolding search_block
search_number node text next = if leb (length text) 8 then search_block node text next else next

-- `json_search`; `none` is an exception that is not caught.
unfoldable pub json_search : Node → OutputDb → Str → Option (Answer SearchJson)
unfolding search_number search_block search_transaction
json_search node db text =
    let nothing : Option (Answer SearchJson) = some (fail (nothing_was_found text)) in
    let number = search_number node text nothing in
    if length text == 64
    then search_transaction node db text (search_block node text number)
    else number
