-- ===== src/Pages/Index/Rounds.antt =====
-- The loop of the front page ends: it has one round for each height, from the top down.
use monero_sci_parser.Base.{
  ℕ, zero, suc, ◌+◌, ◌<◌, ◌≡◌, refl, ap, subst, true, false, Option, none, some, List, [], ◌∷◌,
  arith, u64, sub64, ◌>>=◌, Option-cases, Bool-cases, inl, inr,
}
use monero_sci_parser.Chain.{CoreBlock, get_block_by_height}
use monero_sci_parser.Pages.Paging.{sign64, lt64, page_start, page_end}
use monero_sci_parser.Pages.Paging.Blocks.{range_down}
use monero_sci_parser.Pages.Index.{
  CachedTx, BlockCache, Server, IndexState, Ended, ended, raised, Age, get_age, cached_block,
  new_block, show_block, see_block, index_round, index_loop, index_start, index_page, next_block,
  count_hit, store_block, block_rows,
}
use monero_sci_parser.Pages.Index.Hits.{show_rows, cached_txs-first_believed}

module _ {ℓ} {C : Type ℓ} where
  unfoldable pub finished : Option (IndexState C) → Ended (IndexState C)
  finished none = raised
  finished (some st) = ended st

  -- The height in the state, where there is one.
  abbrev IsAt : ℕ → Option (IndexState C) → Type 0
  IsAt k none = Unit {0}
  IsAt k (some st) = st.i ≡ k

  module _ (s : Server) (block_tx_cache : BlockCache C) where
    unfoldable pub at_height : ℕ → IndexState C → IndexState C
    at_height h st = record st { i = h }

    -- A round for each of the heights.
    unfoldable pub visit : ℕ → List ℕ → IndexState C → Option (IndexState C)
    visit end_height [] st = some st
    visit end_height (h ∷ hs) st =
        index_round s block_tx_cache end_height (at_height h st) >>= visit end_height hs

    rows_IsAt :
        (o : Option (List CachedTx)) (st : IndexState C)
        → IsAt (sub64 st.i 1) (o >>= λ ps. some (next_block (store_block s block_tx_cache ps st)))
    unfolding next_block store_block
    rows_IsAt none st = tt
    rows_IsAt (some ps) st = refl

    new_block-IsAt :
        (age : Age) (blk : CoreBlock) (st : IndexState C)
        → IsAt (sub64 st.i 1) (new_block s block_tx_cache age blk st)
    unfolding new_block next_block
    new_block-IsAt age blk st =
        let r = s.node.core.get_transactions blk.tx_hashes in
        elim (Bool-cases r.0) [
          | inl found ↦
              rw (new_block, found)
                (rows_IsAt (block_rows s.node st.i age false (blk.miner_tx ∷ r.1)) st)
          | inr missed ↦ rw (new_block, missed) refl
        ]

    show_block-IsAt :
        (end_height : ℕ) (age : Age) (blk : CoreBlock) (st : IndexState C)
        → IsAt (sub64 st.i 1) (show_block s block_tx_cache end_height age blk st)
    unfolding show_block next_block count_hit show_rows
    show_block-IsAt end_height age blk st = elim (Option-cases (cached_block s block_tx_cache st)) [
      | inl miss ↦ rw (show_block, miss) (new_block-IsAt age blk st)
      | inr (ps, hit) ↦
          rw (show_block, hit, cached_txs-first_believed s block_tx_cache end_height age ps st) refl
    ]

    index_round-IsAt :
        (end_height : ℕ) (st : IndexState C)
        → IsAt (sub64 st.i 1) (index_round s block_tx_cache end_height st)
    unfolding index_round next_block see_block
    index_round-IsAt end_height st = elim (Option-cases (get_block_by_height s.node.core st.i)) [
      | inl gone ↦ rw (index_round, gone) refl
      | inr (blk, there) ↦
          let age = get_age s.server_timestamp blk.timestamp false in
          rw (index_round, there)
            (show_block-IsAt end_height age blk (see_block s block_tx_cache age st))
    ]

    visit-here :
        (end_height h : ℕ) (hs : List ℕ) (st : IndexState C)
        → h ≡ st.i
        → visit end_height (h ∷ hs) st
          ≡ (index_round s block_tx_cache end_height st >>= visit end_height hs)
    unfolding visit at_height
    visit-here end_height h hs st here =
        ap (λ k. index_round s block_tx_cache end_height (at_height k st) >>= visit end_height hs)
          here

    -- With the window of heights below 2 ^ 63, the first height at its top and more fuel than heights,
    -- the loop ends after one round for each height, from the top down, or in an exception.
    pub index_loop-visit :
        (n fuel start end_height : ℕ) (st : IndexState C)
        → st.i ≡ sub64 (start + n) 1
        → start + n < sign64
        → n < fuel
        → index_loop s block_tx_cache fuel start end_height st
          ≡ finished (visit end_height (range_down start n) st)
    unfolding index_loop visit range_down finished
    index_loop-visit n zero start end_height st top fits enough = absurd (omega arith)
    index_loop-visit zero (suc fuel) start end_height st top fits enough =
        let below : lt64 st.i start ≡ true = ground arith in rw (index_loop, below) refl
    index_loop-visit (suc n) (suc fuel) start end_height st top fits enough =
        let inside : lt64 st.i start ≡ false = ground arith in
        let heights = range_down start n in
        let first_round = visit-here end_height (start + n) heights st (omega arith) in
        elim (Option-cases (index_round s block_tx_cache end_height st)) [
          | inl thrown ↦ rw (index_loop, inside, range_down, first_round, thrown) refl
          | inr (st', round) ↦
              let below : st'.i ≡ sub64 st.i 1 =
                subst (IsAt (sub64 st.i 1)) round (index_round-IsAt end_height st) in
              rw (index_loop, inside, range_down, first_round, round)
                (index_loop-visit n fuel start end_height st' (omega arith) (omega arith)
                  (omega arith))
        ]

    -- If the window of the page ends below 2 ^ 63, the page is made with any fuel above the number of
    -- blocks to a page: after one round for each height of the window from the top down, whatever
    -- the cache holds, or in an exception.
    pub index_page-visit :
        (fuel : ℕ) (cache : C) (no_blocks_on_index page_no : ℕ)
        → let n = u64 (no_blocks_on_index + 1) in
          let start = page_start s.node.current_height page_no n in
          start + n < sign64
          → u64 (no_blocks_on_index + 1) < fuel
          → let n = u64 (no_blocks_on_index + 1) in
            let start = page_start s.node.current_height page_no n in
            index_page s block_tx_cache fuel cache no_blocks_on_index page_no
            ≡ finished (
                visit
                  (page_end start n)
                  (range_down start n)
                  (index_start s block_tx_cache cache (page_end start n)))
    unfolding index_page index_start page_end
    index_page-visit fuel cache no_blocks_on_index page_no fits enough =
        let n = u64 (no_blocks_on_index + 1) in
        let start = page_start s.node.current_height page_no n in
        index_loop-visit n fuel start (page_end start n)
          (index_start s block_tx_cache cache (page_end start n)) (omega arith) fits enough
