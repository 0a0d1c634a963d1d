-- ===== src/Pages/Index/Fresh.antt =====
-- The front page does not depend on its cache, as long as the chain has what was cached.
use mathlib.Core.List.{map-append}
use mathlib.Core.Option.{some-injective}
use monero_sci_parser.Base.{
  ℕ, ◌≡◌, refl, ap, subst, ◌∙◌, sym, true, false, Option, none, some, List, [], ◌∷◌, ◌++◌, map,
  sub64, if◌then◌else◌, ◌>>=◌, Option-cases, Bool-cases, inl, inr,
}
use monero_sci_parser.Parser.Store.{push}
use monero_sci_parser.Chain.{CoreBlock, get_block_by_height}
use monero_sci_parser.Pages.{Node}
use monero_sci_parser.Pages.Index.{
  CachedTx, TxRow, BlockCache, Server, IndexState, Age, get_age, cached_block, cached_txs,
  new_block, show_block, see_block, index_round, next_block, count_hit, store_block, block_rows,
}
use monero_sci_parser.Pages.Index.Hits.{show_rows, aged, first_believed, cached_txs-first_believed}
use monero_sci_parser.Pages.Index.Rows.{shown, shown_at, shown_new, new_rows}

-- What a reader of the page sees, and the height that the loop is at.
pub record View : Type 0 where
  pub rows : List TxRow
  pub at : ℕ
  pub sizes : List ℕ
  pub age_shown : Option Age

unfoldable pub view {ℓ} : {C : Type ℓ} → IndexState C → View
view st = record {
  rows = map shown st.txs;
  at = st.i;
  sizes = st.blk_sizes;
  age_shown = st.last_age;
}

unfoldable pub see_all {ℓ} : {C : Type ℓ} → Option (IndexState C) → Option View
see_all none = none
see_all (some st) = some (view st)

-- The page as a function of the chain: a round, and a round for each height.
module _ (node : Node) (server_timestamp : ℕ) where
  pub below : View → View
  below v = record v { at = sub64 v.at 1 }

  pub with_rows : View → List TxRow → View
  with_rows v rows = record v { rows = v.rows ++ rows }

  pub block_view : Age → CoreBlock → View → Option View
  block_view age blk v =
      let r = node.core.get_transactions blk.tx_hashes in
      if r.0
      then (new_rows node v.at age (blk.miner_tx ∷ r.1) >>= λ rows. some (below (with_rows v rows)))
      else some (below v)

  pub seen : Age → View → View
  seen age v = record v {
    sizes = push v.sizes (node.core.get_block_size v.at);
    age_shown = some age;
  }

  pub round_view : View → Option View
  round_view v = elim (get_block_by_height node.core v.at) [
    | none ↦ some (below v)
    | some blk ↦
        let age = get_age server_timestamp blk.timestamp false in block_view age blk (seen age v)
  ]

  unfoldable pub visit_view : List ℕ → View → Option View
  visit_view [] v = some v
  visit_view (h ∷ hs) v = round_view (record v { at = h }) >>= visit_view hs

-- A server without the cache of blocks.
unfoldable pub without_cache : Server → Server
without_cache s = record s { enable_block_cache = false }

module _ {ℓ} {C : Type ℓ} (s : Server) (block_tx_cache : BlockCache C) where
  -- The entry of a block: its transactions can be read, the entry has their hashes, they are where
  -- they were, and the entry shows at any time what new rows show.
  pub record IsFreshBlock (i : ℕ) (ps : List CachedTx) (blk : CoreBlock) : Type 0 where
    pub found : (s.node.core.get_transactions blk.tx_hashes).0 ≡ true
    pub placed : first_believed s i ps ≡ ps
    pub hashes :
        map (λ (p : CachedTx). p.0) ps
        ≡ map s.node.core.get_transaction_hash
            (blk.miner_tx ∷ (s.node.core.get_transactions blk.tx_hashes).1)
    pub same :
        (age : Age)
        → new_rows s.node i age (blk.miner_tx ∷ (s.node.core.get_transactions blk.tx_hashes).1)
          ≡ some (shown_at age ps)

  -- Every entry of the cache is that of the block which the chain has at the height.
  abbrev pub IsFresh : C → Type 0
  IsFresh cache =
      (i : ℕ) (ps : List CachedTx)
      → block_tx_cache.find cache i ≡ some ps
      → (blk : CoreBlock) × (s.node.core.get_block_from_height i ≡ some blk) × IsFreshBlock i ps blk

  shown_view : IndexState C → List TxRow → View
  shown_view st rows = record {
    rows = rows;
    at = sub64 st.i 1;
    sizes = st.blk_sizes;
    age_shown = st.last_age;
  }

  new_block-view_rows :
      (st : IndexState C) (o : Option (List CachedTx))
      → see_all (o >>= λ ps. some (next_block (store_block s block_tx_cache ps st))) ≡ (
          (o >>= λ ps. some (shown_new ps)) >>= λ rows.
          some
            (below s.node s.server_timestamp (with_rows s.node s.server_timestamp (view st) rows)))
  unfolding see_all view below with_rows next_block store_block shown_view
  new_block-view_rows st none = refl
  new_block-view_rows st (some ps) =
      ap (λ l. some (shown_view st l)) (map-append shown st.txs (map (λ p. p.1) ps))

  new_block-view :
      (age : Age) (blk : CoreBlock) (st : IndexState C)
      → see_all (new_block s block_tx_cache age blk st)
        ≡ block_view s.node s.server_timestamp age blk (view st)
  unfolding new_block block_view new_rows see_all view below next_block
  new_block-view age blk st =
      let r = s.node.core.get_transactions blk.tx_hashes in
      let rows = block_rows s.node st.i age false (blk.miner_tx ∷ r.1) in
      elim (Bool-cases r.0) [
        | inl found ↦ rw (new_block, block_view, found) (new_block-view_rows st rows)
        | inr missed ↦ rw (new_block, block_view, missed) refl
      ]

  -- A cached block that is fresh.
  hit-view :
      (end_height : ℕ) (age : Age) (blk : CoreBlock) (st : IndexState C) (ps : List CachedTx)
      → IsFreshBlock st.i ps blk
      → see_all (
          some (
            next_block
              (count_hit s block_tx_cache (cached_txs s block_tx_cache end_height age ps st))))
        ≡ block_view s.node s.server_timestamp age blk (view st)
  unfolding see_all view block_view below with_rows next_block count_hit show_rows shown_view
  hit-view end_height age blk st ps fresh =
      rw
        (
          cached_txs-first_believed s block_tx_cache end_height age ps st,
          fresh.placed,
          block_view,
          fresh.found,
          fresh.same age,
        )
        (ap (λ l. some (shown_view st l)) (map-append shown st.txs (aged age ps)))

  -- Where the cache is used, it is fresh.
  abbrev pub IsUsable : C → Type 0
  IsUsable cache = s.enable_block_cache ≡ true → IsFresh cache

  pub cached_block-entry :
      (st : IndexState C) (ps : List CachedTx)
      → cached_block s block_tx_cache st ≡ some ps
      → (s.enable_block_cache ≡ true) × (block_tx_cache.find st.cache st.i ≡ some ps)
  unfolding cached_block
  cached_block-entry st ps hit = elim (Bool-cases s.enable_block_cache) [
    | inl on ↦ (on, rw (cached_block, on) at hit)
    | inr off ↦ absurd (let bad = rw (cached_block, off) at hit in cc)
  ]

  show_block-view :
      (end_height : ℕ) (age : Age) (blk : CoreBlock) (st : IndexState C)
      → s.node.core.get_block_from_height st.i ≡ some blk
      → IsUsable st.cache
      → see_all (show_block s block_tx_cache end_height age blk st)
        ≡ block_view s.node s.server_timestamp age blk (view st)
  unfolding show_block
  show_block-view end_height age blk st there usable =
      elim (Option-cases (cached_block s block_tx_cache st)) [
        | inl miss ↦ rw (show_block, miss) (new_block-view age blk st)
        | inr (ps, hit) ↦
            let (on, entry) = cached_block-entry st ps hit in
            let (cached_blk, was_there, fresh) = usable on st.i ps entry in
            let same_blk : cached_blk ≡ blk = some-injective _ _ (sym was_there ∙ there) in
            rw (show_block, hit)
              (hit-view end_height age blk st ps (subst (IsFreshBlock st.i ps) same_blk fresh))
      ]

  pub index_round-view :
      (end_height : ℕ) (st : IndexState C)
      → IsUsable st.cache
      → see_all (index_round s block_tx_cache end_height st)
        ≡ round_view s.node s.server_timestamp (view st)
  unfolding index_round round_view see_all view below seen next_block see_block get_block_by_height
  index_round-view end_height st usable =
      elim (Option-cases (s.node.core.get_block_from_height st.i)) [
        | inl gone ↦ rw (index_round, round_view, gone) refl
        | inr (blk, there) ↦
            let age = get_age s.server_timestamp blk.timestamp false in
            rw (index_round, round_view, there)
              (show_block-view end_height age blk (see_block s block_tx_cache age st) there usable)
      ]
