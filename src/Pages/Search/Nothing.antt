-- ===== src/Pages/Search/Nothing.antt =====
-- No search succeeds.
use monero_sci_parser.Base.{
  ◌≡◌, ◌⊎◌, inl, inr, refl, ◌∙◌, true, false, Option, none, some, List, leb, ◌==◌, if◌then◌else◌,
  ◌>>=◌, length, Option-cases, Bool-cases,
}
use monero_sci_parser.Text.{Str, str_eq}
use monero_sci_parser.Chain.{get_block_by_height}
use monero_sci_parser.Pages.{
  Node, nothing_was_found, Answer, fail, success, is_success, FoundTx, find_tx, get_tx_details,
  TxJson,
}
use monero_sci_parser.Pages.Block.{
  Lookup, lookup_block, block_failed, block_found, push_tx, block_txs, txs_answer, block_answer,
  json_block, Made, made_all, stopped, raised,
}
use monero_sci_parser.Pages.Raw.{
  OutputDb, Located, located, not_located, locate_block, locate, RawTx, json_rawtransaction,
}
use monero_sci_parser.Pages.Transaction.{
  outputs_json, amount_indices, inputs_json, raw_vin, InputJson, inputs_answer, transaction_answer,
  TransactionJson, json_transaction,
}
use monero_sci_parser.Pages.Search.{
  data_of, SearchJson, transaction_found, block_found_for, search_block, search_transaction,
  search_number, json_search,
}

-- An answer whose status is not "success", or no answer.
abbrev IsNoSuccess {ℓ} : {A : Type ℓ} → Option (Answer A) → Type 0
IsNoSuccess none = Unit
IsNoSuccess (some a) = is_success a ≡ false

bind-IsNoSuccess {ℓ κ} :
    {A : Type ℓ} {B : Type κ} (o : Option A) (f : A → Option (Answer B))
    → ((a : A) → IsNoSuccess (f a))
    → IsNoSuccess (o >>= f)
bind-IsNoSuccess none f h = tt
bind-IsNoSuccess (some a) f h = h a

module _ (node : Node) where
  block_answer-IsNoSuccess : (l : Lookup) → IsNoSuccess (block_answer node l)
  unfolding block_answer txs_answer is_success str_eq
  block_answer-IsNoSuccess (block_failed title) = refl
  block_answer-IsNoSuccess (block_found h hash blk) =
      of_txs (push_tx node h true blk.miner_tx (block_txs node h blk.tx_hashes))
    where
      of_txs : (m : Made (List TxJson)) → IsNoSuccess (txs_answer node h hash blk m)
      of_txs (made_all js) = refl
      of_txs stopped = refl
      of_txs raised = tt

  -- A failure to find a transaction.
  abbrev IsFailure : Located TransactionJson → Type 0
  IsFailure (not_located answer) = is_success answer ≡ false
  IsFailure (located f h t) = Unit

  locate_block-IsFailure :
      (text hash : Str) (f : FoundTx) → IsFailure (locate_block node text hash f)
  unfolding locate_block is_success str_eq
  locate_block-IsFailure text hash f = elim (Bool-cases f.found_in_mempool) [
    | inl pool ↦ rw (locate_block, pool) tt
    | inr chain ↦ elim (Option-cases (node.get_tx_block_height hash)) [
      | inl gone ↦ rw (locate_block, chain, gone) refl
      | inr (h, there) ↦ elim (Option-cases (get_block_by_height node.core h)) [
        | inl no_block ↦ rw (locate_block, chain, there, no_block) refl
        | inr (blk, has_block) ↦ rw (locate_block, chain, there, has_block) tt
      ]
    ]
  ]

  locate-IsFailure : (text : Str) → IsFailure (locate node text)
  unfolding locate is_success str_eq
  locate-IsFailure text = elim (Option-cases (node.parse_str_secret_key text)) [
    | inl bad ↦ rw (locate, bad) refl
    | inr (hash, good) ↦ elim (Option-cases (find_tx node hash)) [
      | inl gone ↦ rw (locate, good, gone) refl
      | inr (f, there) ↦ rw (locate, good, there) (locate_block-IsFailure text hash f)
    ]
  ]

  transaction_answer-IsNoSuccess :
      (db : OutputDb) (raw : Answer RawTx) (l : Located TransactionJson)
      → IsFailure l
      → IsNoSuccess (transaction_answer node db raw l)
  unfolding transaction_answer inputs_answer is_success str_eq
  transaction_answer-IsNoSuccess db raw (not_located answer) h = h
  transaction_answer-IsNoSuccess db raw (located f height t) h =
      bind-IsNoSuccess (get_tx_details node f.tx (node.is_coinbase f.tx) height node.current_height)
        _
        (λ txd.
          bind-IsNoSuccess (outputs_json (amount_indices db txd.hash) 0 txd.output_pub_keys) _
            (λ outputs. of_inputs _ (inputs_json db (raw_vin raw) txd.input_key_imgs)))
    where
      of_inputs :
          (j : List InputJson → TransactionJson) (m : Made (List InputJson))
          → IsNoSuccess (inputs_answer j m)
      of_inputs j (made_all is) = refl
      of_inputs j stopped = refl
      of_inputs j raised = tt

  -- What follows an answer that is no success.
  skipped {ℓ} :
      {A : Type ℓ} (o : Option (Answer A)) (f : Answer A → Answer SearchJson)
      (next : Option (Answer SearchJson))
      → IsNoSuccess o
      → ((o >>= λ j. if is_success j then some (f j) else next) ≡ none)
        ⊎ ((o >>= λ j. if is_success j then some (f j) else next) ≡ next)
  skipped none f next h = inl refl
  skipped (some j) f next h = inr (rw h refl)

  or_next {ℓ} :
      {A : Type ℓ} {x next nothing : Option A}
      → (x ≡ none) ⊎ (x ≡ next)
      → (next ≡ none) ⊎ (next ≡ nothing)
      → (x ≡ none) ⊎ (x ≡ nothing)
  or_next (inl gone) h = inl gone
  or_next (inr skips) (inl gone) = inl (skips ∙ gone)
  or_next (inr skips) (inr rest) = inr (skips ∙ rest)

  -- Nothing is found: an exception that is not caught, or the failure `nothing`.
  abbrev IsNothing : Option (Answer SearchJson) → Option (Answer SearchJson) → Type 0
  IsNothing nothing found = (found ≡ none) ⊎ (found ≡ nothing)

  search_block-IsNothing :
      (text : Str) (nothing next : Option (Answer SearchJson))
      → IsNothing nothing next
      → IsNothing nothing (search_block node text next)
  unfolding search_block json_block
  search_block-IsNothing text nothing next h =
      or_next
        (skipped (json_block node text) (λ j. success (block_found_for (data_of j))) next
          (block_answer-IsNoSuccess (lookup_block node text)))
        h

  search_transaction-IsNothing :
      (db : OutputDb) (text : Str) (nothing next : Option (Answer SearchJson))
      → IsNothing nothing next
      → IsNothing nothing (search_transaction node db text next)
  unfolding search_transaction json_transaction
  search_transaction-IsNothing db text nothing next h =
      or_next
        (skipped (json_transaction node db text) (λ j. success (transaction_found (data_of j))) next
          (transaction_answer-IsNoSuccess db (json_rawtransaction node db text) (locate node text)
            (locate-IsFailure text)))
        h

  search_number-IsNothing :
      (text : Str) (nothing : Option (Answer SearchJson))
      → IsNothing nothing (search_number node text nothing)
  unfolding search_number
  search_number-IsNothing text nothing = elim (Bool-cases (leb (length text) 8)) [
    | inl short ↦ rw (search_number, short) (search_block-IsNothing text nothing nothing (inr refl))
    | inr long ↦ rw (search_number, long) (inr refl)
  ]

  -- A search for any text finds nothing: it ends in an exception that is not caught, or in the
  -- failure that says so.
  pub json_search-finds_nothing :
      (db : OutputDb) (text : Str)
      → (json_search node db text ≡ none)
        ⊎ (json_search node db text ≡ some (fail (nothing_was_found text)))
  unfolding json_search
  json_search-finds_nothing db text =
      let nothing : Option (Answer SearchJson) = some (fail (nothing_was_found text)) in
      let number = search_number-IsNothing text nothing in
      elim (Bool-cases (length text == 64)) [
        | inl hash ↦
            rw (json_search, hash)
              (search_transaction-IsNothing db text nothing _
                (search_block-IsNothing text nothing _ number))
        | inr other ↦ rw (json_search, other) number
      ]
