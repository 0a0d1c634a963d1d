-- ===== src/Pages/Index/Page.antt =====
-- The front page is the one without a cache, and leaves its cache fresh.
use monero_sci_parser.Base.{
  ℕ, ◌+◌, ◌<◌, ◌≡◌, refl, ap, subst, ◌∙◌, sym, true, Option, none, some, [], u64, Option-cases, inl,
  inr,
}
use monero_sci_parser.Pages.{Node}
use monero_sci_parser.Pages.Paging.{sign64, page_start, page_end}
use monero_sci_parser.Pages.Paging.Blocks.{range_down}
use monero_sci_parser.Pages.Index.{
  BlockCache, Server, IndexState, Ended, ended, raised, running, index_start, index_page,
}
use monero_sci_parser.Pages.Index.Rounds.{visit, finished, index_page-visit}
use monero_sci_parser.Pages.Index.Fresh.{
  View, view, see_all, visit_view, without_cache, IsFresh, IsUsable,
}
use monero_sci_parser.Pages.Index.Kept.{
  IsRecorded, IsBounded, IsUsableAfter, visit-view, visit-IsUsableAfter,
}

-- What a reader of the page sees, if the loop has ended.
pub see_end {ℓ} : {C : Type ℓ} → Ended (IndexState C) → Ended View
see_end (ended st) = ended (view st)
see_end raised = raised
see_end running = running

seen_end : Option View → Ended View
seen_end none = raised
seen_end (some v) = ended v

see_end-finished {ℓ} :
    {C : Type ℓ} (o : Option (IndexState C)) → see_end (finished o) ≡ seen_end (see_all o)
unfolding see_end finished seen_end see_all
see_end-finished none = refl
see_end-finished (some st) = refl

-- The state before the loop, as it is seen.
abbrev view_start : ℕ → View
view_start end_height = record { rows = []; at = end_height; sizes = []; age_shown = none }

-- What the page shows, as a function of the chain.
page_view : Node → ℕ → ℕ → ℕ → Ended View
page_view node server_timestamp no_blocks_on_index page_no =
    let n = u64 (no_blocks_on_index + 1) in
    let start = page_start node.current_height page_no n in
    seen_end (visit_view node server_timestamp (range_down start n) (view_start (page_end start n)))

module _ {ℓ} {C : Type ℓ} (s : Server) (block_tx_cache : BlockCache C)
    (bounded : IsBounded block_tx_cache) (recorded : IsRecorded s.node) where
  index_page-page_view :
      (fuel : ℕ) (cache : C) (no_blocks_on_index page_no : ℕ)
      → IsUsable s block_tx_cache cache
      → let n = u64 (no_blocks_on_index + 1) in
        page_start s.node.current_height page_no n + n < sign64
        → u64 (no_blocks_on_index + 1) < fuel
        → see_end (index_page s block_tx_cache fuel cache no_blocks_on_index page_no)
          ≡ page_view s.node s.server_timestamp no_blocks_on_index page_no
  unfolding page_view index_start view
  index_page-page_view fuel cache no_blocks_on_index page_no usable fits enough =
      let n = u64 (no_blocks_on_index + 1) in
      let start = page_start s.node.current_height page_no n in
      let end_height = page_end start n in
      let st = index_start s block_tx_cache cache end_height in
      ap see_end
        (index_page-visit s block_tx_cache fuel cache no_blocks_on_index page_no fits enough)
      ∙ see_end-finished (visit s block_tx_cache end_height (range_down start n) st)
      ∙ ap seen_end
          (visit-view s block_tx_cache bounded recorded end_height (range_down start n) st usable)

module _ {ℓ} {C : Type ℓ} (s : Server) (block_tx_cache : BlockCache C)
    (bounded : IsBounded block_tx_cache) (recorded : IsRecorded s.node) where
  -- If the cache keeps an entry as it was put or drops it, the chain has the transactions of its
  -- blocks at their heights, every entry of the cache is that of the block at its height, the window
  -- of the page ends below 2 ^ 63 and the fuel is above the number of blocks to a page: the front
  -- page shows, but for the numbers of confirmations, what it shows without the cache.
  pub index_page-without_cache :
      (fuel : ℕ) (cache unused : C) (no_blocks_on_index page_no : ℕ)
      → IsFresh s block_tx_cache cache
      → let n = u64 (no_blocks_on_index + 1) in
        page_start s.node.current_height page_no n + n < sign64
        → u64 (no_blocks_on_index + 1) < fuel
        → see_end (index_page s block_tx_cache fuel cache no_blocks_on_index page_no)
          ≡ see_end
              (index_page (without_cache s) block_tx_cache fuel unused no_blocks_on_index page_no)
  unfolding without_cache
  index_page-without_cache fuel cache unused no_blocks_on_index page_no fresh fits enough =
      index_page-page_view s block_tx_cache bounded recorded fuel cache no_blocks_on_index page_no
        (λ on. fresh) fits enough
      ∙ sym (
          index_page-page_view (without_cache s) block_tx_cache bounded recorded fuel unused
            no_blocks_on_index page_no (λ on. absurd (cc)) fits enough)

  -- If the cache keeps an entry as it was put or drops it, the chain has the transactions of its
  -- blocks at their heights, the window of the page ends below 2 ^ 63, the fuel is above the number of
  -- blocks to a page and the cache is enabled: where every entry of the cache is that of the block at
  -- its height, this holds again of the cache that a page leaves which ends without an exception.
  pub index_page-IsFresh :
      (fuel : ℕ) (cache : C) (no_blocks_on_index page_no : ℕ) (st : IndexState C)
      → s.enable_block_cache ≡ true
      → IsFresh s block_tx_cache cache
      → let n = u64 (no_blocks_on_index + 1) in
        page_start s.node.current_height page_no n + n < sign64
        → u64 (no_blocks_on_index + 1) < fuel
        → index_page s block_tx_cache fuel cache no_blocks_on_index page_no ≡ ended st
        → IsFresh s block_tx_cache st.cache
  unfolding finished index_start
  index_page-IsFresh fuel cache no_blocks_on_index page_no st on fresh fits enough done =
      let n = u64 (no_blocks_on_index + 1) in
      let start = page_start s.node.current_height page_no n in
      let end_height = page_end start n in
      let hs = range_down start n in
      let st0 = index_start s block_tx_cache cache end_height in
      let after =
        visit-IsUsableAfter s block_tx_cache bounded recorded end_height hs st0 (λ e. fresh) in
      let same =
        index_page-visit s block_tx_cache fuel cache no_blocks_on_index page_no fits enough in
      elim (Option-cases (visit s block_tx_cache end_height hs st0)) [
        | inl thrown ↦ absurd (let bad = sym done ∙ same ∙ ap finished thrown in cc)
        | inr (st', made) ↦
            let is_st : st' ≡ st = (let e = sym (ap finished made) ∙ sym same ∙ done in cc) in
            subst (λ t. IsFresh s block_tx_cache t.cache) is_st
              (subst (IsUsableAfter s block_tx_cache bounded recorded) made after on)
      ]
