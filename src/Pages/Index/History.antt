-- ===== src/Pages/Index/History.antt =====
-- The front page over a history: pages are asked for while the chain grows.
use monero_sci_parser.Base.{
  ℕ, ◌+◌, ◌<◌, ◌≡◌, refl, ap, subst, ◌∙◌, sym, true, none, some, ◌∷◌, map, u64,
}
use monero_sci_parser.Chain.{CoreBlock}
use monero_sci_parser.Pages.Paging.{sign64, page_start}
use monero_sci_parser.Pages.Index.{BlockCache, Server, IndexState, ended, index_page}
use monero_sci_parser.Pages.Index.Rows.{new_rows, IsPlaced, first_believed-hashes}
use monero_sci_parser.Pages.Index.Fresh.{IsFresh, without_cache}
use monero_sci_parser.Pages.Index.Kept.{IsRecorded, IsBounded}
use monero_sci_parser.Pages.Index.Page.{see_end, index_page-without_cache, index_page-IsFresh}
use monero_sci_parser.Pages.Index.Canonical.{ChainState, node_at, new_rows-grown}

-- The server with a state of the chain, at a time.
abbrev pub server_at : Server → ChainState → ℕ → Server
server_at s chain time = record s { node = node_at s.node chain; server_timestamp = time }

-- The new chain has the blocks of the old one, with their transactions.
abbrev pub IsGrown : ChainState → ChainState → Type 0
IsGrown old new =
    (i : ℕ) (blk : CoreBlock)
    → old.blocks i ≡ some blk
    → (old.txs_of blk.tx_hashes).0 ≡ true
    → (new.blocks i ≡ some blk) × (new.txs_of blk.tx_hashes ≡ old.txs_of blk.tx_hashes)

-- The window of a page ends below 2 ^ 63.
abbrev pub IsWindow : ChainState → ℕ → ℕ → Type 0
IsWindow chain no_blocks_on_index page_no =
    let n = u64 (no_blocks_on_index + 1) in page_start chain.height page_no n + n < sign64

module _ {ℓ} {C : Type ℓ} (s : Server) (block_tx_cache : BlockCache C) where
  -- The states of the chain and of the cache that are reached from an empty cache, while the chain
  -- grows and pages are made. A chain has the transactions of its blocks at their heights.
  pub data Reached : ChainState → C → Type ℓ where
    begin :
        (chain : ChainState) (cache : C)
        → IsRecorded (node_at s.node chain)
        → ((i : ℕ) → block_tx_cache.find cache i ≡ none)
        → Reached chain cache
    grow :
        (old new : ChainState) (cache : C)
        → Reached old cache
        → IsRecorded (node_at s.node new)
        → IsGrown old new
        → Reached new cache
    page :
        (chain : ChainState) (cache cache' : C) (time fuel no_blocks_on_index page_no : ℕ)
        (st : IndexState C)
        → Reached chain cache
        → IsWindow chain no_blocks_on_index page_no
        → u64 (no_blocks_on_index + 1) < fuel
        → index_page (server_at s chain time) block_tx_cache fuel cache no_blocks_on_index page_no
          ≡ ended st
        → cache' ≡ st.cache
        → Reached chain cache'

  Reached-IsRecorded :
      (chain : ChainState) (cache : C) → Reached chain cache → IsRecorded (node_at s.node chain)
  Reached-IsRecorded _ _ (begin chain cache recorded clear) = recorded
  Reached-IsRecorded _ _ (grow old new cache before recorded grown) = recorded
  Reached-IsRecorded _ _
        (page chain cache cache' time fuel n page_no st before window enough done same) =
      Reached-IsRecorded chain cache before

  IsFresh-grown :
      (old new : ChainState) (time time' : ℕ) (cache : C)
      → IsRecorded (node_at s.node old)
      → IsRecorded (node_at s.node new)
      → IsGrown old new
      → IsFresh (server_at s old time) block_tx_cache cache
      → IsFresh (server_at s new time') block_tx_cache cache
  IsFresh-grown old new time time' cache was_recorded recorded grown fresh i ps entry =
      let (blk, was_there, f) = fresh i ps entry in
      let (there, same_txs) = grown i blk was_there f.found in
      let txs = blk.miner_tx ∷ (new.txs_of blk.tx_hashes).1 in
      let same_list = ap (λ r. blk.miner_tx ∷ r.1) same_txs in
      let before =
        subst (IsPlaced (node_at s.node old) i) (sym same_list) (was_recorded i blk was_there) in
      let after = recorded i blk there in
      let hashes = f.hashes ∙ ap (map s.node.core.get_transaction_hash) (sym same_list) in
      (
        blk,
        there,
        record {
          found = ap (λ r. r.0) same_txs ∙ f.found;
          placed = first_believed-hashes (server_at s new time') i txs ps after hashes;
          hashes = hashes;
          same = λ age.
              new_rows-grown s.node old new i age txs before after
              ∙ ap (new_rows (node_at s.node old) i age) same_list
              ∙ f.same age;
        },
      )

  module _ (bounded : IsBounded block_tx_cache) (on : s.enable_block_cache ≡ true) where
    Reached-IsFresh :
        (chain : ChainState) (cache : C) (time : ℕ)
        → Reached chain cache
        → IsFresh (server_at s chain time) block_tx_cache cache
    Reached-IsFresh _ _ time (begin chain cache recorded clear) =
        λ i ps entry. absurd (let bad = sym entry ∙ clear i in cc)
    Reached-IsFresh _ _ time (grow old new cache before recorded grown) =
        IsFresh-grown old new time time cache (Reached-IsRecorded old cache before) recorded grown
          (Reached-IsFresh old cache time before)
    Reached-IsFresh _ _ time
          (page chain cache cache' time' fuel n page_no st before window enough done same) =
        let recorded = Reached-IsRecorded chain cache before in
        subst (λ c. IsFresh (server_at s chain time) block_tx_cache c) (sym same)
          (IsFresh-grown chain chain time' time st.cache recorded recorded
            (λ i blk there found. (there, refl))
            (index_page-IsFresh (server_at s chain time') block_tx_cache bounded recorded fuel cache
              n page_no st on (Reached-IsFresh chain cache time' before) window enough done))

    -- If the enabled cache keeps an entry as it was put or drops it: in every state that is reached
    -- from an empty cache while the chain grows and pages are made, with a window that ends below
    -- 2 ^ 63 and a fuel above the number of blocks to a page, the front page shows, but for the
    -- numbers of confirmations, what it shows without the cache.
    pub index_page-Reached :
        (chain : ChainState) (cache unused : C) (time fuel no_blocks_on_index page_no : ℕ)
        → Reached chain cache
        → IsWindow chain no_blocks_on_index page_no
        → u64 (no_blocks_on_index + 1) < fuel
        → see_end (
            index_page
              (server_at s chain time)
              block_tx_cache
              fuel
              cache
              no_blocks_on_index
              page_no)
          ≡ see_end (
              index_page
                (without_cache (server_at s chain time))
                block_tx_cache
                fuel
                unused
                no_blocks_on_index
                page_no)
    index_page-Reached chain cache unused time fuel n page_no reached window enough =
        index_page-without_cache (server_at s chain time) block_tx_cache bounded
          (Reached-IsRecorded chain cache reached) fuel cache unused n page_no
          (Reached-IsFresh chain cache time reached) window enough
