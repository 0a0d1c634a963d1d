-- ===== src/Pages/Index/Rows.antt =====
-- The rows of a new block, made at one time and shown at another.
use mathlib.Core.Option.{some-injective}
use monero_sci_parser.Base.{
  ℕ, ◌≡◌, refl, ap, subst, sym, Bool, true, false, Option, none, some, List, [], ◌∷◌, map, arith,
  ◌==◌, ◌&&◌, ◌>>=◌, All, Option-cases, Bool-cases, inl, inr,
}
use monero_sci_parser.Text.{Str}
use monero_sci_parser.Tools.{Tx}
use monero_sci_parser.Pages.{Node, TxDetails, get_tx_details}
use monero_sci_parser.Pages.Index.{Age, TxRow, CachedTx, Server, with_age, tx_row, block_rows}
use monero_sci_parser.Pages.Index.Hits.{aged, placed_at, believed, first_believed}

-- A row without the number of confirmations, which the page does not show.
unfoldable pub shown : TxRow → TxRow
shown row = record row { txd = record row.txd { no_confirmations = 0 } }

-- The rows of cached transactions at an age, and those of new ones.
abbrev pub shown_at : Age → List CachedTx → List TxRow
shown_at age ps = map shown (aged age ps)

abbrev pub shown_new : List CachedTx → List TxRow
shown_new ps = map shown (map (λ p. p.1) ps)

re_aged : Age → List CachedTx → List CachedTx
re_aged age ps = map (λ (p : CachedTx). (p.0, with_age age p.1)) ps

shown_new-re_aged : (age : Age) (ps : List CachedTx) → shown_new (re_aged age ps) ≡ shown_at age ps
unfolding re_aged aged
shown_new-re_aged age [] = refl
shown_new-re_aged age (p ∷ ps) = ap (λ l. shown (with_age age p.1) ∷ l) (shown_new-re_aged age ps)

module _ (node : Node) where
  -- What the page shows of a new block.
  unfoldable pub new_rows : ℕ → Age → List Tx → Option (List TxRow)
  new_rows i age txs = block_rows node i age false txs >>= λ ps. some (shown_new ps)

  with_age-tx_row :
      (i : ℕ) (a b : Age) (later : Bool) (txd : TxDetails)
      → tx_row node i b later txd ≡ with_age b (tx_row node i a later txd)
  unfolding tx_row with_age
  with_age-tx_row i a b true txd = refl
  with_age-tx_row i a b false txd = refl

  rows-re_aged :
      (i : ℕ) (a b : Age) (later : Bool) (txd : TxDetails) (o : Option (List CachedTx))
      → (o >>= (λ ps. some (re_aged b ps)) >>= λ rows.
          some ((txd.hash, tx_row node i b later txd) ∷ rows))
        ≡ (o >>= (λ rows. some ((txd.hash, tx_row node i a later txd) ∷ rows)) >>= λ ps.
            some (re_aged b ps))
  unfolding re_aged
  rows-re_aged i a b later txd none = refl
  rows-re_aged i a b later txd (some ps) =
      ap (λ row. some ((txd.hash, row) ∷ re_aged b ps)) (with_age-tx_row i a b later txd)

  block_rows-re_aged :
      (i : ℕ) (a b : Age) (later : Bool) (txs : List Tx)
      → block_rows node i b later txs
        ≡ (block_rows node i a later txs >>= λ ps. some (re_aged b ps))
  unfolding block_rows re_aged
  block_rows-re_aged i a b later [] = refl
  block_rows-re_aged i a b later (tx ∷ txs) =
      elim (Option-cases (get_tx_details node tx false i node.current_height)) [
        | inl thrown ↦ rw (block_rows, thrown) refl
        | inr (txd, made) ↦
            rw (block_rows, made, block_rows-re_aged i a b true txs)
              (rows-re_aged i a b later txd (block_rows node i a true txs))
      ]

  -- The rows made at one age show at another what new rows show.
  pub new_rows-shown_at :
      (i : ℕ) (a b : Age) (txs : List Tx) (ps : List CachedTx)
      → block_rows node i a false txs ≡ some ps
      → new_rows i b txs ≡ some (shown_at b ps)
  unfolding new_rows
  new_rows-shown_at i a b txs ps made =
      rw (new_rows, block_rows-re_aged i a b false txs, made) (ap some (shown_new-re_aged b ps))

  -- `get_tx_details` has the hash of the transaction.
  get_tx_details-hash :
      (tx : Tx) (i : ℕ) (txd : TxDetails)
      → get_tx_details node tx false i node.current_height ≡ some txd
      → txd.hash ≡ node.core.get_transaction_hash tx
  unfolding get_tx_details
  get_tx_details-hash tx i txd made =
      let tx_hash = node.core.get_transaction_hash tx in
      elim (Bool-cases (i == 0 && node.core.have_tx tx_hash)) [
        | inr above ↦
            ap (λ (d : TxDetails). d.hash)
              (sym (some-injective _ _ (rw (get_tx_details, above) at made)))
        | inl asked ↦ elim (Option-cases (node.get_tx_block_height tx_hash)) [
          | inl thrown ↦ absurd (let bad = rw (get_tx_details, asked, thrown) at made in cc)
          | inr (h, there) ↦
              ap (λ (d : TxDetails). d.hash)
                (sym (some-injective _ _ (rw (get_tx_details, asked, there) at made)))
        ]
      ]

  -- The rows have the hashes of the transactions.
  pub block_rows-hashes :
      (i : ℕ) (age : Age) (later : Bool) (txs : List Tx) (ps : List CachedTx)
      → block_rows node i age later txs ≡ some ps
      → map (λ (p : CachedTx). p.0) ps ≡ map node.core.get_transaction_hash txs
  unfolding block_rows
  block_rows-hashes i age later [] ps made =
      subst (λ l. map (λ (p : CachedTx). p.0) l ≡ []) (some-injective _ _ made) refl
  block_rows-hashes i age later (tx ∷ txs) ps made =
      elim (Option-cases (get_tx_details node tx false i node.current_height)) [
        | inl thrown ↦ absurd (let bad = rw (block_rows, thrown) at made in cc)
        | inr (txd, details) ↦ elim (Option-cases (block_rows node i age true txs)) [
          | inl thrown ↦ absurd (let bad = rw (block_rows, details, thrown) at made in cc)
          | inr (rest, rows) ↦
              let hash = get_tx_details-hash tx i txd details in
              let tail = block_rows-hashes i age true txs rest rows in
              subst
                (λ l. map (λ (p : CachedTx). p.0) l ≡ map node.core.get_transaction_hash (tx ∷ txs))
                (some-injective _ _ (rw (block_rows, details, rows) at made)) (λ k. hash k ∷ tail k)
        ]
      ]

-- Transactions of the block at height `i`, where they are still.
abbrev pub IsPlaced : Node → ℕ → List Tx → Type 0
IsPlaced node i txs = All (λ tx. placed_at node i (node.core.get_transaction_hash tx) ≡ true) txs

module _ (s : Server) where
  placed-believed : (i : ℕ) (h : Str) → placed_at s.node i h ≡ true → believed s i h ≡ true
  unfolding believed
  placed-believed i h there = rw (believed, there) (ground arith)

  hashes-placed :
      (i : ℕ) (ps : List CachedTx)
      → All (λ h. placed_at s.node i h ≡ true) (map (λ (p : CachedTx). p.0) ps)
      → first_believed s i ps ≡ ps
  unfolding first_believed
  hashes-placed i [] h = refl
  hashes-placed i (p ∷ ps) h =
      rw (first_believed, placed-believed i p.0 h.0, hashes-placed i ps h.1) refl

  All-hashes :
      (i : ℕ) (txs : List Tx)
      → IsPlaced s.node i txs
      → All (λ h. placed_at s.node i h ≡ true) (map s.node.core.get_transaction_hash txs)
  All-hashes i [] h = tt
  All-hashes i (tx ∷ txs) h = (h.0, All-hashes i txs h.1)

  -- The cache is believed for all transactions of a block that is in place.
  pub first_believed-hashes :
      (i : ℕ) (txs : List Tx) (ps : List CachedTx)
      → IsPlaced s.node i txs
      → map (λ (p : CachedTx). p.0) ps ≡ map s.node.core.get_transaction_hash txs
      → first_believed s i ps ≡ ps
  first_believed-hashes i txs ps placed same =
      hashes-placed i ps
        (subst (All (λ h. placed_at s.node i h ≡ true)) (sym same) (All-hashes i txs placed))
