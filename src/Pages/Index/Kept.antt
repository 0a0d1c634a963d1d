-- ===== src/Pages/Index/Kept.antt =====
-- The cache of the front page stays fresh, and the page is the one without a cache.
use monero_sci_parser.Base.{
  ℕ, ◌≡◌, refl, ap, subst, ◌∙◌, sym, true, false, Option, none, some, List, [], ◌∷◌, ◌>>=◌,
  Option-cases, Bool-cases, ◌⊎◌, inl, inr,
}
use monero_sci_parser.Chain.{CoreBlock, get_block_by_height}
use monero_sci_parser.Pages.{Node}
use monero_sci_parser.Pages.Index.{
  CachedTx, BlockCache, Server, IndexState, Age, get_age, cached_block, new_block, show_block,
  see_block, index_round, next_block, count_hit, store_block, block_rows,
}
use monero_sci_parser.Pages.Index.Hits.{show_rows, cached_txs-first_believed}
use monero_sci_parser.Pages.Index.Rows.{
  IsPlaced, first_believed-hashes, block_rows-hashes, new_rows-shown_at,
}
use monero_sci_parser.Pages.Index.Rounds.{at_height, visit}
use monero_sci_parser.Pages.Index.Fresh.{
  view, see_all, visit_view, IsFreshBlock, IsUsable, index_round-view,
}

-- What the chain says of the transactions of its blocks: they are in it, at the height of the block.
abbrev pub IsRecorded : Node → Type 0
IsRecorded node =
    (i : ℕ) (blk : CoreBlock)
    → node.core.get_block_from_height i ≡ some blk
    → IsPlaced node i (blk.miner_tx ∷ (node.core.get_transactions blk.tx_hashes).1)

-- What a bounded cache has after an entry was put: that entry, and some of those that it had.
abbrev pub IsBounded {ℓ} : {C : Type ℓ} → BlockCache C → Type ℓ
IsBounded {C} block_tx_cache =
    (c : C) (k j : ℕ) (v w : List CachedTx)
    → block_tx_cache.find (block_tx_cache.put c k v) j ≡ some w
    → ((j ≡ k) × (w ≡ v)) ⊎ (block_tx_cache.find c j ≡ some w)

module _ {ℓ} {C : Type ℓ} (s : Server) (block_tx_cache : BlockCache C)
    (bounded : IsBounded block_tx_cache) (recorded : IsRecorded s.node) where
  abbrev pub IsUsableAfter : Option (IndexState C) → Type 0
  IsUsableAfter none = Unit {0}
  IsUsableAfter (some st) = IsUsable s block_tx_cache st.cache

  new_entry-IsFresh :
      (st : IndexState C) (blk : CoreBlock) (age : Age) (ps : List CachedTx)
      → s.node.core.get_block_from_height st.i ≡ some blk
      → (s.node.core.get_transactions blk.tx_hashes).0 ≡ true
      → block_rows s.node st.i age false
          (blk.miner_tx ∷ (s.node.core.get_transactions blk.tx_hashes).1)
        ≡ some ps
      → IsFreshBlock s block_tx_cache st.i ps blk
  new_entry-IsFresh st blk age ps there found made =
      let txs = blk.miner_tx ∷ (s.node.core.get_transactions blk.tx_hashes).1 in
      let hashes = block_rows-hashes s.node st.i age false txs ps made in
      record {
        found = found;
        placed = first_believed-hashes s st.i txs ps (recorded st.i blk there) hashes;
        hashes = hashes;
        same = λ b. new_rows-shown_at s.node st.i age b txs ps made;
      }

  store_block-IsUsable :
      (st : IndexState C) (blk : CoreBlock) (ps : List CachedTx)
      → s.node.core.get_block_from_height st.i ≡ some blk
      → IsFreshBlock s block_tx_cache st.i ps blk
      → IsUsable s block_tx_cache st.cache
      → IsUsable s block_tx_cache (store_block s block_tx_cache ps st).cache
  unfolding store_block
  store_block-IsUsable st blk ps there fresh usable on j w entry =
      elim (bounded st.cache st.i j ps w (rw (store_block, on) at entry)) [
        | inl (here, is_new) ↦ (
          blk,
          subst (λ k. s.node.core.get_block_from_height k ≡ some blk) (sym here) there,
          subst (λ k. IsFreshBlock s block_tx_cache k w blk) (sym here)
              (subst (λ l. IsFreshBlock s block_tx_cache st.i l blk) (sym is_new) fresh),
        )
        | inr old ↦ usable on j w old
      ]

  new_block-IsUsableAfter :
      (age : Age) (blk : CoreBlock) (st : IndexState C)
      → s.node.core.get_block_from_height st.i ≡ some blk
      → IsUsable s block_tx_cache st.cache
      → IsUsableAfter (new_block s block_tx_cache age blk st)
  unfolding new_block next_block
  new_block-IsUsableAfter age blk st there usable =
      let r = s.node.core.get_transactions blk.tx_hashes in
      elim (Bool-cases r.0) [
        | inr missed ↦ rw (new_block, missed) usable
        | inl found ↦ elim (Option-cases (block_rows s.node st.i age false (blk.miner_tx ∷ r.1))) [
          | inl thrown ↦ rw (new_block, found, thrown) tt
          | inr (ps, made) ↦
              rw (new_block, found, made)
                (store_block-IsUsable st blk ps there
                  (new_entry-IsFresh st blk age ps there found made) usable)
        ]
      ]

  show_block-IsUsableAfter :
      (end_height : ℕ) (age : Age) (blk : CoreBlock) (st : IndexState C)
      → s.node.core.get_block_from_height st.i ≡ some blk
      → IsUsable s block_tx_cache st.cache
      → IsUsableAfter (show_block s block_tx_cache end_height age blk st)
  unfolding show_block next_block count_hit show_rows
  show_block-IsUsableAfter end_height age blk st there usable =
      elim (Option-cases (cached_block s block_tx_cache st)) [
        | inl miss ↦ rw (show_block, miss) (new_block-IsUsableAfter age blk st there usable)
        | inr (ps, hit) ↦
            rw (show_block, hit, cached_txs-first_believed s block_tx_cache end_height age ps st)
              usable
      ]

  index_round-IsUsableAfter :
      (end_height : ℕ) (st : IndexState C)
      → IsUsable s block_tx_cache st.cache
      → IsUsableAfter (index_round s block_tx_cache end_height st)
  unfolding index_round next_block see_block get_block_by_height
  index_round-IsUsableAfter end_height st usable =
      elim (Option-cases (s.node.core.get_block_from_height st.i)) [
        | inl gone ↦ rw (index_round, gone) usable
        | inr (blk, there) ↦
            let age = get_age s.server_timestamp blk.timestamp false in
            rw (index_round, there)
              (show_block-IsUsableAfter end_height age blk (see_block s block_tx_cache age st) there
                usable)
      ]

  pub visit-view :
      (end_height : ℕ) (hs : List ℕ) (st : IndexState C)
      → IsUsable s block_tx_cache st.cache
      → see_all (visit s block_tx_cache end_height hs st)
        ≡ visit_view s.node s.server_timestamp hs (view st)
  unfolding visit visit_view see_all view at_height
  visit-view end_height [] st usable = refl
  visit-view end_height (h ∷ hs) st usable =
      let here = at_height s block_tx_cache h st in
      let round = index_round-view s block_tx_cache end_height here usable in
      let after = index_round-IsUsableAfter end_height here usable in
      elim (Option-cases (index_round s block_tx_cache end_height here)) [
        | inl thrown ↦
            rw (visit, thrown)
              (ap (λ v. v >>= visit_view s.node s.server_timestamp hs) (rw (thrown) at round))
        | inr (st', made) ↦
            rw (visit, made)
              (visit-view end_height hs st' (subst IsUsableAfter made after)
                ∙ ap (λ v. v >>= visit_view s.node s.server_timestamp hs) (rw (made) at round))
      ]

  pub visit-IsUsableAfter :
      (end_height : ℕ) (hs : List ℕ) (st : IndexState C)
      → IsUsable s block_tx_cache st.cache
      → IsUsableAfter (visit s block_tx_cache end_height hs st)
  unfolding visit at_height
  visit-IsUsableAfter end_height [] st usable = usable
  visit-IsUsableAfter end_height (h ∷ hs) st usable =
      let here = at_height s block_tx_cache h st in
      let after = index_round-IsUsableAfter end_height here usable in
      elim (Option-cases (index_round s block_tx_cache end_height here)) [
        | inl thrown ↦ rw (visit, thrown) tt
        | inr (st', made) ↦
            rw (visit, made)
              (visit-IsUsableAfter end_height hs st' (subst (IsUsableAfter) made after))
      ]
