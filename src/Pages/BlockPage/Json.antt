-- ===== src/Pages/BlockPage/Json.antt =====
-- `show_block` of a height beside `json_block` of the text of that height.
use mathlib.Core.List.{append-nil, append_assoc}
use monero_sci_parser.Base.{
  ℕ, ◌+◌, ◌≤◌, ◌<◌, ◌≡◌, refl, ap, ◌∙◌, sym, Bool, true, false, Option, none, some, List, [], ◌∷◌,
  ◌++◌, map, arith, u64, u64_mod, ltb, length, tail, ◌⊎◌, inl, inr, le→leb, Bool-cases,
  Option-cases, ◌>>=◌,
}
use monero_sci_parser.Text.{Str, str_eq}
use monero_sci_parser.Parser.Store.{push}
use monero_sci_parser.Chain.{CoreBlock, get_block_by_height, get_tx}
use monero_sci_parser.Pages.{
  Node, Title, requested_block_is_higher, cant_get_block, Answer, fail, error, success, bare,
  TxDetails, get_tx_details, TxJson, get_tx_json,
}
use monero_sci_parser.Pages.Block.{
  lookup_number, lookup_block, BlockJson, Made, made_all, stopped, raised, and_made, push_tx,
  block_txs, block_json, txs_answer, block_answer, json_block,
}
use monero_sci_parser.Pages.Index.{Age, get_age}
use monero_sci_parser.Pages.BlockPage.{
  BlockPage, Shown, higher_than_chain, no_block, block_page, show_txs, delta_of, page_of,
  show_found, show_block_at,
}

pub fees : List TxJson → ℕ
fees [] = 0
fees (t ∷ ts) = t.tx_fee + fees ts

abbrev pub shown_hashes : List TxDetails → List Str
shown_hashes = map (λ txd. txd.hash)

abbrev pub json_hashes : List TxJson → List Str
json_hashes = map (λ t. t.tx_hash)

-- The page and the JSON show one block: the same numbers and hashes, the same transactions with the
-- miner's first, and the fees of the others summed up modulo 2 ^ 64.
pub record ShowsBlock (page : BlockPage) (b : BlockJson) : Type 0 where
  pub blk_height : page.blk_height ≡ b.block_height
  pub blk_hash : page.blk_hash ≡ b.hash
  pub blk_timestamp : page.blk_timestamp_epoch ≡ b.timestamp
  pub blk_nonce : page.blk_nonce ≡ b.nonce
  pub blk_size : page.blk_size ≡ b.size
  pub prev_hash : page.prev_hash ≡ b.prev_hash
  pub next_hash : page.next_hash ≡ b.next_hash
  pub have_next_hash : page.have_next_hash ≡ b.have_next_hash
  pub have_prev_hash : page.have_prev_hash ≡ b.have_prev_hash
  pub tx_hashes : page.coinbase_tx.hash ∷ shown_hashes page.blk_txs ≡ json_hashes b.txs
  pub sum_fees : page.sum_fees ≡ u64 (fees (tail b.txs))

-- What the page is for a title of `json_block`.
abbrev pub FailAgrees : Title → Option Shown → Type 0
FailAgrees title r = elim title [
  | requested_block_is_higher block_height current_height ↦
      r ≡ some (higher_than_chain block_height)
  | cant_get_block block_height ↦ r ≡ some (no_block block_height)
  | _ ↦ Unit
]

-- What the page is for an answer of `json_block`; the page of a block whose transactions are not all
-- found is left open.
abbrev pub PageAgrees : Option (Answer BlockJson) → Option Shown → Type 0
PageAgrees none r = r ≡ none
PageAgrees (some (fail title)) r = FailAgrees title r
PageAgrees (some (error title)) r = Unit
PageAgrees (some (success b)) r = Unit
PageAgrees (some (bare b)) r = (page : BlockPage) × (r ≡ some (block_page page)) × ShowsBlock page b

-- The loop of the page beside that of `json_block`, from the fees and transactions so far.
TxsAgree : ℕ → List TxDetails → Made (List TxJson) → Option (ℕ × List TxDetails) → Type 0
TxsAgree sum acc (made_all js) r =
    (txds : List TxDetails) × (r ≡ some (u64 (sum + fees js), acc ++ txds))
    × (shown_hashes txds ≡ json_hashes js)
TxsAgree sum acc stopped r = Unit
TxsAgree sum acc raised r = r ≡ none

module _ (node : Node) where
  add_tx :
      (sum : ℕ) (acc : List TxDetails) (j : TxJson) (txd : TxDetails)
      → txd.hash ≡ j.tx_hash
      → txd.fee ≡ j.tx_fee
      → (m : Made (List TxJson)) (r : Option (ℕ × List TxDetails))
      → TxsAgree (u64 (sum + txd.fee)) (push acc txd) m r
      → TxsAgree sum acc (and_made j m) r
  unfolding TxsAgree fees
  add_tx sum acc j txd hash fee (made_all js) r (txds, is, hashes) =
      let sums : u64 (u64 (sum + txd.fee) + fees js) ≡ u64 (sum + (j.tx_fee + fees js)) =
        omega (arith, fee) in
      (
        txd ∷ txds,
        is ∙ ap some (λ i. (sums i, append_assoc acc (txd ∷ []) txds i)),
        (λ i. hash i ∷ hashes i),
      )
  add_tx sum acc j txd hash fee stopped r h = tt
  add_tx sum acc j txd hash fee raised r h = h

  show_txs-block_txs :
      (height : ℕ) (hashes : List Str) (sum : ℕ) (acc : List TxDetails)
      → sum < u64_mod
      → TxsAgree sum acc (block_txs node height hashes) (show_txs node height hashes sum acc)
  unfolding TxsAgree fees block_txs show_txs get_tx_json
  show_txs-block_txs height [] sum acc fits =
      let same : sum ≡ u64 (sum + 0) = omega arith in
      ([], ap some (λ i. (same i, sym (append-nil acc) i)), refl)
  show_txs-block_txs height (h ∷ hs) sum acc fits = elim (Option-cases (get_tx node.core h)) [
    | inl gone ↦ rw (block_txs, show_txs, gone) tt
    | inr (tx, there) ↦
        elim (Option-cases (get_tx_details node tx false height node.current_height)) [
          | inl threw ↦ rw (block_txs, show_txs, there, push_tx, threw) refl
          | inr (txd, made) ↦
              rw (block_txs, show_txs, there, push_tx, made)
                (add_tx sum acc (get_tx_json node tx txd) txd refl refl (block_txs node height hs)
                  (show_txs node height hs (u64 (sum + txd.fee)) (push acc txd))
                  (show_txs-block_txs height hs (u64 (sum + txd.fee)) (push acc txd) (omega arith)))
        ]
  ]

-- The previous block is in the data base, or there is none.
abbrev pub HasPrevious : Node → (Str → Option CoreBlock) → CoreBlock → Type 0
HasPrevious node db_block blk =
    (str_eq blk.prev_id node.null_hash ≡ true)
    ⊎ ((prev_blk : CoreBlock) × (db_block blk.prev_id ≡ some prev_blk))

module _ (node : Node) (db_block : Str → Option CoreBlock) (have_block : Str → Bool) (now : ℕ) where
  delta_of-some :
      (blk : CoreBlock)
      → HasPrevious node db_block blk
      → (delta : Option Age) × (delta_of node db_block have_block blk ≡ some delta)
  unfolding delta_of
  delta_of-some blk (inl first) = (none, rw (first) refl)
  delta_of-some blk (inr (prev_blk, stored)) =
      elim (Bool-cases (str_eq blk.prev_id node.null_hash)) [
        | inl first ↦ (none, rw (first) refl)
        | inr later ↦
            (some (get_age blk.timestamp prev_blk.timestamp false), rw (later, stored) refl)
      ]

  page_beside :
      (height : ℕ) (blk : CoreBlock) (delta : Option Age) (j : TxJson) (txd : TxDetails)
      → txd.hash ≡ j.tx_hash
      → (m : Made (List TxJson)) (r : Option (ℕ × List TxDetails)) → TxsAgree 0 [] m r
      → PageAgrees
          (txs_answer node height (node.core.get_block_id_by_height height) blk (and_made j m))
          (r >>= (λ sums.
            some (block_page (page_of node db_block have_block now height blk delta txd sums))))
  unfolding TxsAgree txs_answer block_json page_of
  page_beside height blk delta j txd hash (made_all js) r (txds, is, hashes) = rw (is) (
    page_of node db_block have_block now height blk delta txd (u64 (0 + fees js), [] ++ txds),
    refl,
    record {
      blk_height = refl;
      blk_hash = refl;
      blk_timestamp = refl;
      blk_nonce = refl;
      blk_size = refl;
      prev_hash = refl;
      next_hash = refl;
      have_next_hash = refl;
      have_prev_hash = refl;
      tx_hashes = λ i. hash i ∷ hashes i;
      sum_fees = omega arith;
    },
  )
  page_beside height blk delta j txd hash stopped r h = tt
  page_beside height blk delta j txd hash raised r h = rw (h) refl

  found_beside :
      (height : ℕ) (blk : CoreBlock)
      → HasPrevious node db_block blk
      → PageAgrees
          (txs_answer node height
            (node.core.get_block_id_by_height height)
            blk
            (push_tx node height true blk.miner_tx (block_txs node height blk.tx_hashes)))
          (show_found node db_block have_block now height blk)
  unfolding txs_answer show_found get_tx_json push_tx
  found_beside height blk previous =
      let (delta, made_delta) = delta_of-some blk previous in
      elim (Option-cases (get_tx_details node blk.miner_tx true height node.current_height)) [
        | inl threw ↦ rw (push_tx, show_found, made_delta, threw) refl
        | inr (txd, made) ↦
            rw (push_tx, show_found, made_delta, made)
              (page_beside height blk delta (get_tx_json node blk.miner_tx txd) txd refl
                (block_txs node height blk.tx_hashes) (show_txs node height blk.tx_hashes 0 [])
                (show_txs-block_txs node height blk.tx_hashes 0 [] (omega arith)))
      ]

  -- If every block of the chain has its previous block in the data base or is the first, the page of
  -- a height stands beside the answer of json_block to the text of that height in at most eight
  -- digits: where json_block has a block, the page has the same numbers and hashes, the same
  -- transactions and the sum of their fees; where json_block finds no block of that height, the page
  -- is the message for that; where json_block raises an exception, so does the page.
  pub show_block-json_block :
      (height : ℕ) (text : Str)
      → length text ≤ 8
      → node.lexical_cast text ≡ some height
      → ((blk : CoreBlock)
          → node.core.get_block_from_height height ≡ some blk
          → HasPrevious node db_block blk)
      → PageAgrees (json_block node text) (show_block_at node db_block have_block now height)
  unfolding json_block lookup_block show_block_at block_answer get_block_by_height
  show_block-json_block height text short number previous =
      rw (json_block, le→leb (length text) 8 short, lookup_number, number)
        (elim (Bool-cases (ltb node.current_height height)) [
          | inl higher ↦ rw (higher) refl
          | inr inside ↦ elim (Option-cases (node.core.get_block_from_height height)) [
            | inl gone ↦ rw (inside, gone) refl
            | inr (blk, there) ↦ rw (inside, there) (found_beside height blk (previous blk there))
          ]
        ])
