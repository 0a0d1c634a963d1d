-- ===== src/Pages/Index/Hits.antt =====
-- What is left of the loop over the cached transactions of a block: its test ends it, in the top
-- blocks, at the first transaction that is not where it was, so that the branch behind the test is
-- never taken.
use mathlib.Core.List.{append-nil, append_assoc}
use monero_sci_parser.Base.{
  ℕ, ◌+◌, ◌≡◌, ap, ◌∙◌, sym, Bool, true, false, none, some, List, [], ◌∷◌, ◌++◌, map, arith, u64,
  sub64, leb, ◌==◌, ◌&&◌, ◌||◌, if◌then◌else◌, Bool-cases, Option-cases, inl, inr,
}
use monero_sci_parser.Text.{Str}
use monero_sci_parser.Parser.Store.{push}
use monero_sci_parser.Chain.{CoreBlock, get_block_by_height}
use monero_sci_parser.Pages.{Node}
use monero_sci_parser.Pages.Index.{
  CachedTx, BlockCache, Server, IndexState, checked, leave, tx_check, with_age, Age, cached_txs,
  TxRow, get_age, index_round, show_block, cached_block, see_block, next_block, count_hit,
}

-- The transaction is in the chain, in the block at height `i`.
unfoldable pub placed_at : Node → ℕ → Str → Bool
placed_at node i tx_hash =
    node.core.have_tx tx_hash
    && elim (node.get_tx_block_height tx_hash) [ none ↦ false | some tx_height ↦ tx_height == i ]

-- The cache is believed for the transaction: its block is deep enough, or it is still there.
unfoldable pub believed : Server → ℕ → Str → Bool
unfolding placed_at
believed s i tx_hash =
    leb (u64 (i + s.spendable_age)) s.node.current_height || placed_at s.node i tx_hash

-- The first cached transactions, up to one that the cache is not believed for.
unfoldable pub first_believed : Server → ℕ → List CachedTx → List CachedTx
first_believed s i [] = []
first_believed s i (p ∷ ps) =
    let rest = p ∷ first_believed s i ps in if believed s i p.0 then rest else []

unfoldable pub aged : Age → List CachedTx → List TxRow
aged age ps = map (λ (p : CachedTx). with_age age p.1) ps

pub tx_check-believed :
    (s : Server) (i : ℕ) (tx_hash : Str)
    → tx_check s i tx_hash ≡ (if believed s i tx_hash then checked true else leave)
unfolding tx_check believed placed_at
tx_check-believed s i tx_hash = elim (Option-cases (s.node.get_tx_block_height tx_hash)) [
  | inl gone ↦ rw (gone, tx_check, believed, placed_at) (ground arith)
  | inr (h, there) ↦ rw (there, tx_check, believed, placed_at) (ground arith)
]

module _ {ℓ} {C : Type ℓ} (s : Server) (block_tx_cache : BlockCache C) where
  unfoldable pub show_rows : IndexState C → List TxRow → IndexState C
  show_rows st rows = record st { txs = st.txs ++ rows }

  -- The loop over the cached transactions of a block adds those before the first that the cache is
  -- not believed for to the page, with the age of the block, and changes neither the cache nor the
  -- height.
  pub cached_txs-first_believed :
      (end_height : ℕ) (age : Age) (ps : List CachedTx) (st : IndexState C)
      → cached_txs s block_tx_cache end_height age ps st
        ≡ show_rows st (aged age (first_believed s st.i ps))
  unfolding cached_txs first_believed show_rows aged
  cached_txs-first_believed end_height age [] st =
      ap (λ l. record st { txs = l }) (sym (append-nil st.txs))
  cached_txs-first_believed end_height age ((tx_hash, row) ∷ ps) st =
      elim (Bool-cases (believed s st.i tx_hash)) [
        | inl stays ↦
            rw (cached_txs, tx_check-believed s st.i tx_hash, stays)
              (cached_txs-first_believed end_height age ps _
                ∙ ap (λ l. record st { txs = l })
                    (append_assoc st.txs (with_age age row ∷ [])
                      (aged age (first_believed s st.i ps))))
        | inr gone ↦
            rw (cached_txs, tx_check-believed s st.i tx_hash, gone)
              (ap (λ l. record st { txs = l }) (sym (append-nil st.txs)))
      ]

  cached_block-found :
      (st : IndexState C) (ps : List CachedTx)
      → s.enable_block_cache ≡ true
      → block_tx_cache.find st.cache st.i ≡ some ps
      → cached_block s block_tx_cache st ≡ some ps
  unfolding cached_block
  cached_block-found st ps on hit = rw (on) hit

  -- At a height whose block the chain has and the enabled cache too, a round shows, with the age of
  -- the block now, all cached transactions where the height plus the spendable age, modulo 2 ^ 64,
  -- is not above that of the chain, and otherwise those before the first that is no longer in the
  -- block of that height. It counts a hit and goes on with the block below. The cache stays as it is, also where the first
  -- transaction is not in its place and nothing is shown.
  pub index_round-cached :
      (end_height : ℕ) (st : IndexState C) (blk : CoreBlock) (ps : List CachedTx)
      → s.node.core.get_block_from_height st.i ≡ some blk
      → s.enable_block_cache ≡ true
      → block_tx_cache.find st.cache st.i ≡ some ps
      → let age = get_age s.server_timestamp blk.timestamp false in
        index_round s block_tx_cache end_height st
        ≡ some (record {
          cache = st.cache;
          txs = st.txs ++ aged age (first_believed s st.i ps);
          i = sub64 st.i 1;
          blk_sizes = push st.blk_sizes (s.node.core.get_block_size st.i);
          last_age = some age;
          cache_hits = u64 (st.cache_hits + 1);
          cache_misses = st.cache_misses;
        })
  unfolding index_round show_block see_block next_block count_hit get_block_by_height show_rows
  index_round-cached end_height st blk ps there on hit =
      let age = get_age s.server_timestamp blk.timestamp false in
      let seen = see_block s block_tx_cache age st in
      rw (index_round, there, show_block, cached_block-found seen ps on hit)
        (ap (λ t. some (next_block (count_hit s block_tx_cache t)))
          (cached_txs-first_believed end_height age ps seen))
