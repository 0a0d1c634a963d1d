-- ===== src/Pages/Index/Canonical.antt =====
-- What the page shows of a block does not change as the chain grows.
use monero_sci_parser.Base.{
  ℕ, sub64, ◌≡◌, refl, ap, ◌∙◌, sym, Bool, true, false, Option, some, List, [], ◌∷◌, arith, ◌==◌,
  if◌then◌else◌, Option-cases, Bool-cases, inl, inr,
}
use monero_sci_parser.Text.{Str}
use monero_sci_parser.Tools.{Tx, TxIn}
use monero_sci_parser.Chain.{CoreBlock}
use monero_sci_parser.Pages.{Node, TxDetails, fee_of, known_details, get_tx_details}
use monero_sci_parser.Pages.Index.{Age, TxRow, CachedTx, tx_row, block_rows}
use monero_sci_parser.Pages.Index.Hits.{placed_at}
use monero_sci_parser.Pages.Index.Rows.{shown, shown_new, new_rows, IsPlaced}

-- The part of the data base that changes with the chain.
pub record ChainState : Type 0 where
  pub height : ℕ
  pub blocks : ℕ → Option CoreBlock
  pub has_tx : Str → Bool
  pub txs_of : List Str → Bool × List Tx × List Str
  pub tx_height : Str → Option ℕ

abbrev pub node_at : Node → ChainState → Node
node_at node chain = record node {
  core = record node.core {
    get_block_from_height = chain.blocks;
    have_tx = chain.has_tx;
    get_transactions = chain.txs_of;
  };
  current_height = chain.height;
  get_tx_block_height = chain.tx_height;
}

abbrev pub dropped : TxDetails → TxDetails
dropped txd = record txd { no_confirmations = 0 }

-- The details of a transaction of the block at height `i`, without the confirmations.
canonical : Node → ℕ → Tx → TxDetails
canonical node i tx = record (known_details node tx false i 0) {
  blk_height = if i == 0 then i else 0;
  no_confirmations = 0;
}

-- The rows of a block, without the confirmations.
canonical_rows : Node → ℕ → Age → Bool → List Tx → List TxRow
canonical_rows node i age later [] = []
canonical_rows node i age later (tx ∷ txs) =
    tx_row node i age later (canonical node i tx) ∷ canonical_rows node i age true txs

module _ (node : Node) where
  placed-has :
      (i : ℕ) (h : Str)
      → placed_at node i h ≡ true
      → (node.core.have_tx h ≡ true) × (node.get_tx_block_height h ≡ some i)
  unfolding placed_at
  placed-has i h placed = elim (Option-cases (node.get_tx_block_height h)) [
    | inl gone ↦ absurd (let bad = rw (placed_at, gone) at placed in ground arith)
    | inr (k, there) ↦
        let found = rw (placed_at, there) at placed in
        let here : k ≡ i = ground arith in (ground arith, there ∙ ap some here)
  ]

  details-canonical :
      (i : ℕ) (tx : Tx)
      → placed_at node i (node.core.get_transaction_hash tx) ≡ true
      → (d : TxDetails) × (get_tx_details node tx false i node.current_height ≡ some d)
        × (dropped d ≡ canonical node i tx)
  unfolding get_tx_details canonical known_details
  details-canonical i tx placed =
      let (have, height) = placed-has i (node.core.get_transaction_hash tx) placed in
      let known = known_details node tx false i node.current_height in
      elim (Bool-cases (i == 0)) [
        | inl first_block ↦ (
          record known { blk_height = i; no_confirmations = sub64 node.current_height i },
          rw (get_tx_details, first_block, have, height) refl,
          rw (canonical, first_block) refl,
        )
        | inr above ↦ (known, rw (get_tx_details, above) refl, rw (canonical, above) refl)
      ]

  -- What the page shows of a block whose transactions are in place.
  rows-canonical :
      (i : ℕ) (age : Age) (later : Bool) (txs : List Tx)
      → IsPlaced node i txs
      → (ps : List CachedTx) × (block_rows node i age later txs ≡ some ps)
        × (shown_new ps ≡ canonical_rows node i age later txs)
  unfolding block_rows canonical_rows shown tx_row
  rows-canonical i age later [] placed = ([], refl, refl)
  rows-canonical i age later (tx ∷ txs) placed =
      let (d, details, same) = details-canonical i tx placed.0 in
      let (ps, rows, rest) = rows-canonical i age true txs placed.1 in
      (
        (d.hash, tx_row node i age later d) ∷ ps,
        rw (block_rows, details, rows) refl,
        λ k. tx_row node i age later (same k) ∷ rest k,
      )

  new_rows-canonical :
      (i : ℕ) (age : Age) (txs : List Tx)
      → IsPlaced node i txs
      → new_rows node i age txs ≡ some (canonical_rows node i age false txs)
  unfolding new_rows
  new_rows-canonical i age txs placed =
      let (ps, rows, same) = rows-canonical i age false txs placed in
      rw (new_rows, rows) (ap some same)

  fee_of-node_at :
      (chain : ChainState) (vin : List TxIn) (tx : Tx)
      → fee_of (node_at node chain) vin tx false ≡ fee_of node vin tx false
  unfolding fee_of
  fee_of-node_at chain [] tx = refl
  fee_of-node_at chain (i ∷ is) tx = refl

  canonical-node_at :
      (chain : ChainState) (i : ℕ) (tx : Tx)
      → canonical (node_at node chain) i tx ≡ canonical node i tx
  unfolding canonical known_details
  canonical-node_at chain i tx =
      ap (λ fee. record (canonical node i tx) { fee = fee }) (fee_of-node_at chain tx.vin tx)

  canonical_rows-node_at :
      (chain : ChainState) (i : ℕ) (age : Age) (later : Bool) (txs : List Tx)
      → canonical_rows (node_at node chain) i age later txs ≡ canonical_rows node i age later txs
  unfolding canonical_rows tx_row
  canonical_rows-node_at chain i age later [] = refl
  canonical_rows-node_at chain i age later (tx ∷ txs) =
      let same = canonical-node_at chain i tx in
      let rest = canonical_rows-node_at chain i age true txs in
      λ k. tx_row node i age later (same k) ∷ rest k

-- Two states of the chain with the transactions of a block in place show the same of it.
pub new_rows-grown :
    (node : Node) (old new : ChainState) (i : ℕ) (age : Age) (txs : List Tx)
    → IsPlaced (node_at node old) i txs
    → IsPlaced (node_at node new) i txs
    → new_rows (node_at node new) i age txs ≡ new_rows (node_at node old) i age txs
new_rows-grown node old new i age txs before after =
    new_rows-canonical (node_at node new) i age txs after
    ∙ ap some (
        canonical_rows-node_at node new i age false txs
        ∙ sym (canonical_rows-node_at node old i age false txs))
    ∙ sym (new_rows-canonical (node_at node old) i age txs before)
