-- ===== src/Pages/Index.antt =====
-- src/page.h: `index2`, the front page with its cache of blocks. The cache is a copy of another
-- project and a parameter; texts are left out, an `int64_t` is kept as the word of its bits.
pub mod Hits
pub mod Rounds
pub mod Rows
pub mod Fresh
pub mod Kept
pub mod Page
pub mod Canonical
pub mod History
use monero_sci_parser.Base.{
  ℕ, zero, suc, ◌+◌, ◌/◌, Bool, true, false, Option, none, some, List, [], ◌∷◌, ◌++◌, map, u64,
  sub64, ltb, ◌==◌, ◌||◌, if◌then◌else◌, ◌>>=◌,
}
use monero_sci_parser.Text.{Str}
use monero_sci_parser.Parser.Store.{push}
use monero_sci_parser.Tools.{Tx}
use monero_sci_parser.Tools.Age.{TimeSpan, timestamp_difference}
use monero_sci_parser.Chain.{CoreBlock, get_block_by_height}
use monero_sci_parser.Pages.{Node, TxDetails, get_tx_details}
use monero_sci_parser.Pages.Paging.{lt64, page_start, page_end, page_rounds}

-- The two texts of `get_age`: the numbers of the first, and by its constructor the format.
pub data Age : Type 0 where
  h_m_s : ℕ → ℕ → ℕ → Age
  d_h_m_s : ℕ → ℕ → ℕ → ℕ → Age
  y_d_h_m_s : ℕ → ℕ → ℕ → ℕ → ℕ → Age

unfoldable pub get_age : ℕ → ℕ → Bool → Age
unfolding timestamp_difference
get_age timestamp1 timestamp2 full_format =
    let delta_time : TimeSpan = timestamp_difference timestamp1 timestamp2 in
    if ltb 0 delta_time.years || full_format
    then y_d_h_m_s delta_time.years delta_time.days delta_time.hours delta_time.minutes
        delta_time.seconds
    else (if ltb 0 delta_time.days
        then d_h_m_s delta_time.days delta_time.hours delta_time.minutes delta_time.seconds
        else h_m_s delta_time.hours delta_time.minutes delta_time.seconds)

-- The map of a transaction that the template shows; `none` is the empty text. The size of the block
-- is in bytes, the fields on ring signatures are left out.
pub record TxRow : Type 0 where
  pub txd : TxDetails
  pub height : Option ℕ
  pub blk_hash : Str
  pub age : Option Age
  pub blk_size : Option ℕ

abbrev pub CachedTx : Type 0
CachedTx = Str × TxRow

-- `block_tx_cache`: `find` is `Contains` with `Get`.
pub record BlockCache {ℓ} (C : Type ℓ) : Type ℓ where
  pub find : C → ℕ → Option (List CachedTx)
  pub put : C → ℕ → List CachedTx → C
  pub clear : C → C

-- What the page is made from; `spendable_age` is Monero's CRYPTONOTE_DEFAULT_TX_SPENDABLE_AGE.
pub record Server : Type 0 where
  pub node : Node
  pub spendable_age : ℕ
  pub enable_block_cache : Bool
  pub server_timestamp : ℕ

-- The variables of the loop; `last_age` has the format that the context is given.
pub record IndexState {ℓ} (C : Type ℓ) : Type ℓ where
  pub cache : C
  pub txs : List TxRow
  pub i : ℕ
  pub blk_sizes : List ℕ
  pub last_age : Option Age
  pub cache_hits : ℕ
  pub cache_misses : ℕ

-- The end of the test on a cached transaction: `break`, or the flag after it.
pub data Checked : Type 0 where
  checked : Bool → Checked
  leave : Checked

-- The test, made for the first blocks from the top; `none` is the exception TX_DNE.
unfoldable pub tx_check : Server → ℕ → Str → Checked
tx_check s i tx_hash =
    if ltb s.node.current_height (u64 (i + s.spendable_age))
    then (if s.node.core.have_tx tx_hash
        then elim (s.node.get_tx_block_height tx_hash) [
          | none ↦ leave
          | some tx_height ↦ if tx_height == i then checked true else leave
        ]
        else leave)
    else checked true

-- `txd_map["age"] = age.first`, unless the age is empty.
unfoldable pub with_age : Age → TxRow → TxRow
with_age age row = elim (row.age) [ none ↦ row | some old ↦ record row { age = some age } ]

-- The rows of a new block; `later` is `tx_i > 0`.
unfoldable pub tx_row : Node → ℕ → Age → Bool → TxDetails → TxRow
tx_row node i age later txd = record {
  txd = txd;
  height = if later then none else some i;
  blk_hash = node.core.get_block_id_by_height i;
  age = if later then none else some age;
  blk_size = if later then none else some (node.core.get_block_size i);
}

unfoldable pub block_rows : Node → ℕ → Age → Bool → List Tx → Option (List CachedTx)
unfolding tx_row
block_rows node i age later [] = some []
block_rows node i age later (tx ∷ txs) =
    get_tx_details node tx false i node.current_height >>= λ txd.
    block_rows node i age true txs >>= λ rows. some ((txd.hash, tx_row node i age later txd) ∷ rows)

-- How a loop on fuel ends: with its state, in an exception that is not caught, or not yet.
pub data Ended {ℓ} (S : Type ℓ) : Type ℓ where
  ended : S → Ended S
  raised : Ended S
  running : Ended S

module _ {ℓ} {C : Type ℓ} where
  -- `--i`
  unfoldable pub next_block : IndexState C → IndexState C
  next_block st = record st { i = sub64 st.i 1 }

  unfoldable pub push_row : Age → TxRow → IndexState C → IndexState C
  unfolding with_age
  push_row age row st = record st { txs = push st.txs (with_age age row) }

  module _ (s : Server) (block_tx_cache : BlockCache C) where
    -- The branch for a cached transaction that is not where it was.
    unfoldable pub ditch_cache : ℕ → IndexState C → IndexState C
    ditch_cache end_height st = record st {
      cache = block_tx_cache.clear st.cache;
      txs = [];
      i = end_height;
    }

    -- The loop over the cached transactions of a block: its `break` and its `continue` are those of
    -- this loop.
    unfoldable pub cached_txs : ℕ → Age → List CachedTx → IndexState C → IndexState C
    unfolding tx_check push_row ditch_cache
    cached_txs end_height age [] st = st
    cached_txs end_height age ((tx_hash, row) ∷ txd_pairs) st = elim (tx_check s st.i tx_hash) [
      | leave ↦ st
      | checked still_in_block ↦
          cached_txs end_height age txd_pairs
            (if still_in_block then push_row age row st else ditch_cache end_height st)
    ]

    -- `enable_block_cache && block_tx_cache.Contains(i)`, with the entry.
    unfoldable pub cached_block : IndexState C → Option (List CachedTx)
    cached_block st = if s.enable_block_cache then block_tx_cache.find st.cache st.i else none

    unfoldable pub count_hit : IndexState C → IndexState C
    count_hit st = record st { cache_hits = u64 (st.cache_hits + 1) }

    -- The rows of a new block on the page, and in the cache.
    unfoldable pub store_block : List CachedTx → IndexState C → IndexState C
    store_block txd_pairs st = record st {
      txs = st.txs ++ map (λ p. p.1) txd_pairs;
      cache_misses = u64 (st.cache_misses + 1);
      cache = if s.enable_block_cache then block_tx_cache.put st.cache st.i txd_pairs else st.cache;
    }

    -- A block that is not cached.
    unfoldable pub new_block : Age → CoreBlock → IndexState C → Option (IndexState C)
    unfolding block_rows store_block next_block
    new_block age blk st =
        let r = s.node.core.get_transactions blk.tx_hashes in
        if r.0
        then (block_rows s.node st.i age false (blk.miner_tx ∷ r.1) >>= λ txd_pairs.
            some (next_block (store_block txd_pairs st)))
        else some (next_block st)

    -- The size and the age of a block that is read.
    unfoldable pub see_block : Age → IndexState C → IndexState C
    see_block age st = record st {
      blk_sizes = push st.blk_sizes (s.node.core.get_block_size st.i);
      last_age = some age;
    }

    unfoldable pub show_block : ℕ → Age → CoreBlock → IndexState C → Option (IndexState C)
    unfolding cached_block cached_txs count_hit next_block new_block
    show_block end_height age blk st = elim (cached_block st) [
      | none ↦ new_block age blk st
      | some txd_pairs ↦ some (next_block (count_hit (cached_txs end_height age txd_pairs st)))
    ]

    -- A round of the loop over the blocks; `none` is an exception that is not caught.
    unfoldable pub index_round : ℕ → IndexState C → Option (IndexState C)
    unfolding see_block show_block next_block
    index_round end_height st = elim (get_block_by_height s.node.core st.i) [
      | none ↦ some (next_block st)
      | some blk ↦
          let age = get_age s.server_timestamp blk.timestamp false in
          show_block end_height age blk (see_block age st)
    ]

    -- `while (i >= start_height)`, on fuel.
    unfoldable pub index_loop : ℕ → ℕ → ℕ → IndexState C → Ended (IndexState C)
    unfolding index_round
    index_loop zero start_height end_height st = running
    index_loop (suc fuel) start_height end_height st = elim (lt64 st.i start_height) [
      | true ↦ ended st
      | false ↦ elim (index_round end_height st) [
        | none ↦ raised
        | some st' ↦ index_loop fuel start_height end_height st'
      ]
    ]

    -- The state before the loop.
    unfoldable pub index_start : C → ℕ → IndexState C
    index_start cache end_height = record {
      cache = cache;
      txs = [];
      i = end_height;
      blk_sizes = [];
      last_age = none;
      cache_hits = 0;
      cache_misses = 0;
    }

    -- The loop of `index2` with its bounds, for a fuel.
    unfoldable pub index_page : ℕ → C → ℕ → ℕ → Ended (IndexState C)
    unfolding index_loop index_start page_start page_end
    index_page fuel cache no_blocks_on_index page_no =
        let no_of_last_blocks = u64 (no_blocks_on_index + 1) in
        let start_height = page_start s.node.current_height page_no no_of_last_blocks in
        let end_height = page_end start_height no_of_last_blocks in
        index_loop fuel start_height end_height (index_start cache end_height)
