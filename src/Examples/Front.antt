-- ===== src/Examples/Front.antt =====
-- A chain of six blocks with different transactions, and a cache that forgets nothing.
use mathlib.Core.Option.{some-injective}
use monero_sci_parser.Base.{
  ℕ, ◌+◌, ◌<◌, ◌≡◌, refl, ap, subst, sym, true, false, Option, none, some, List, [], ◌∷◌, map,
  arith, u64, sub64, ◌++◌, ltb, ◌==◌, if◌then◌else◌, inl, inr, Bool-cases,
}
use monero_sci_parser.Text.{Str, codes, to_string, atoi}
use monero_sci_parser.Text.Decimal.{atoi-to_string}
use monero_sci_parser.Parser.Store.{push}
use monero_sci_parser.Tools.{Tx}
use monero_sci_parser.Chain.{CoreBlock, get_block_by_height}
use monero_sci_parser.Pages.{Node, known_details, get_tx_details}
use monero_sci_parser.Pages.Paging.{sign64, page_start, page_end}
use monero_sci_parser.Pages.Paging.Blocks.{range_down}
use monero_sci_parser.Pages.Index.{
  TxRow, CachedTx, BlockCache, Server, IndexState, Ended, ended, raised, running, index_page,
  index_round, index_start, tx_row, h_m_s, get_age,
}
use monero_sci_parser.Pages.Index.Hits.{
  placed_at, believed, first_believed, aged, index_round-cached,
}
use monero_sci_parser.Pages.Index.Rounds.{visit, finished, index_page-visit}
use monero_sci_parser.Pages.Index.Fresh.{IsFresh, without_cache}
use monero_sci_parser.Pages.Index.Kept.{IsRecorded, IsBounded}
use monero_sci_parser.Pages.Index.Rows.{IsPlaced}
use monero_sci_parser.Pages.Index.Page.{see_end}
use monero_sci_parser.Pages.Index.Canonical.{ChainState, node_at}
use monero_sci_parser.Pages.Index.History.{Reached, IsGrown, server_at, index_page-Reached}
use monero_sci_parser.Examples.OneChain.{example_core, example_node}

-- The transaction of height `h`, which has the text of its height as hash.
abbrev tx_of : ℕ → Tx
tx_of h = record { vin = []; vout = record { amount = h; key = none } ∷ [] }

abbrev height_in : Tx → ℕ
height_in tx = elim (tx.vout) [ [] ↦ 0 | o ∷ os ↦ o.amount ]

abbrev block_at : ℕ → CoreBlock
block_at h = record {
  miner_tx = tx_of h;
  tx_hashes = to_string h ∷ [];
  timestamp = 7;
  nonce = 0;
  prev_id = codes "";
}

abbrev six_blocks : Node
six_blocks = record example_node {
  core = record example_core {
    get_block_from_height = λ h. if ltb h 6 then some (block_at h) else none;
    have_tx = λ h. true;
    get_transactions = λ hs. (true, map (λ h. tx_of (atoi h)) hs, []);
    get_transaction_hash = λ tx. to_string (height_in tx);
  };
  get_tx_block_height = λ h. some (atoi h);
}

abbrev server : Server
server = record {
  node = six_blocks;
  spendable_age = 10;
  enable_block_cache = true;
  server_timestamp = 100;
}

abbrev Store : Type 0
Store = ℕ → Option (List CachedTx)

abbrev store : BlockCache Store
store = record {
  find = λ c i. c i;
  put = λ c k v j. if j == k then some v else c j;
  clear = λ c i. none;
}

abbrev nothing : Store
nothing i = none

-- The chain of the first blocks, so many of them.
abbrev chain_of : ℕ → ChainState
chain_of height = record {
  height = height;
  blocks = λ h. if ltb h height then some (block_at h) else none;
  has_tx = λ h. true;
  txs_of = λ hs. (true, map (λ h. tx_of (atoi h)) hs, []);
  tx_height = λ h. some (atoi h);
}

blocks-placed :
    (height i : ℕ) (s : Str)
    → s ≡ to_string i
    → placed_at (node_at six_blocks (chain_of height)) i s ≡ true
unfolding placed_at
blocks-placed height i s same = rw (same, atoi-to_string) (ground arith)

blocks-IsRecorded : (height : ℕ) → IsRecorded (node_at six_blocks (chain_of height))
blocks-IsRecorded height i blk there = elim (Bool-cases (ltb i height)) [
  | inr above ↦ absurd (let bad = rw (above) at there in cc)
  | inl below ↦
      subst
        (λ b.
          IsPlaced (node_at six_blocks (chain_of height)) i
            (b.miner_tx ∷ ((chain_of height).txs_of b.tx_hashes).1))
        (some-injective _ _ (rw (below) at there))
        (
          blocks-placed height i (to_string i) refl,
          (
            blocks-placed height i (to_string (atoi (to_string i)))
                (ap to_string (atoi-to_string i)),
            tt,
          ),
        )
]

store-IsBounded : IsBounded store
store-IsBounded c k j v w found = elim (Bool-cases (j == k)) [
  | inl same ↦ inl (ground arith, sym (some-injective _ _ (rw (same) at found)))
  | inr other ↦ inr (rw (other) at found)
]

nothing-IsFresh : IsFresh server store nothing
nothing-IsFresh i ps found = absurd (cc)

start_of_three : page_start 6 0 3 ≡ 3
unfolding page_start
start_of_three = refl

window : page_start 6 0 3 + 3 < sign64
window = rw (start_of_three) (omega arith)

-- The page of three blocks.
three_blocks : Server → Store → Ended (IndexState Store)
three_blocks s cache = index_page s store 10 cache 2 0

shows_heights : Ended (IndexState Store) → List (Option ℕ)
shows_heights (ended st) = map (λ (r : TxRow). r.height) st.txs
shows_heights raised = []
shows_heights running = []

three_blocks_shown :
    shows_heights (three_blocks server nothing) ≡ some 5 ∷ none ∷ some 4 ∷ none ∷ some 3 ∷ none ∷ []
unfolding three_blocks shows_heights index_page get_tx_details known_details to_string
    get_block_by_height
three_blocks_shown = refl

index_page-visit_example :
    three_blocks server nothing
    ≡ finished (
        visit server store 5 (range_down (page_start 6 0 3) 3) (index_start server store nothing 5))
unfolding three_blocks page_start page_end
index_page-visit_example = index_page-visit server store 10 nothing 2 0 window (omega arith)

-- The state that the page leaves.
state_of : Ended (IndexState Store) → IndexState Store
state_of (ended st) = st
state_of raised = index_start server store nothing 0
state_of running = index_start server store nothing 0

three_blocks-ended : three_blocks server nothing ≡ ended (state_of (three_blocks server nothing))
unfolding three_blocks state_of index_page get_block_by_height get_tx_details
three_blocks-ended = refl

six_to_seven : IsGrown (chain_of 6) (chain_of 7)
six_to_seven i blk there found = elim (Bool-cases (ltb i 6)) [
  | inr above ↦ absurd (let bad = rw (above) at there in cc)
  | inl below ↦
      let inside : ltb i 7 ≡ true = ground arith in (rw (inside) (rw (below) at there), refl)
]

-- A page of six blocks is made, and the chain grows.
seven-Reached : Reached server store (chain_of 7) (state_of (three_blocks server nothing)).cache
unfolding three_blocks
seven-Reached =
    Reached.grow (chain_of 6) (chain_of 7) _
      (Reached.page (chain_of 6) nothing _ 100 10 2 0 (state_of (three_blocks server nothing))
        (Reached.begin (chain_of 6) nothing (blocks-IsRecorded 6) (λ i. refl)) window (omega arith)
        three_blocks-ended refl)
      (blocks-IsRecorded 7) six_to_seven

window_of_seven : page_start 7 0 3 + 3 < sign64
unfolding page_start
window_of_seven = omega arith

index_page-Reached_example :
    see_end (
      index_page
        (server_at server (chain_of 7) 200)
        store
        10
        (state_of (three_blocks server nothing)).cache
        2
        0)
    ≡ see_end (index_page (without_cache (server_at server (chain_of 7) 200)) store 10 nothing 2 0)
index_page-Reached_example =
    index_page-Reached server store store-IsBounded refl (chain_of 7)
      (state_of (three_blocks server nothing)).cache nothing 200 10 2 0 seven-Reached
      window_of_seven (omega arith)

-- The block at height 5 was cached with a transaction that is now in another block.
abbrev stale_txs : List CachedTx
stale_txs =
    (
      to_string 7,
      tx_row six_blocks 5 (h_m_s 0 0 9) false (known_details six_blocks (tx_of 7) false 5 6),
    )
    ∷ []

abbrev stale : IndexState Store
stale = record {
  cache = λ i. if i == 5 then some stale_txs else none;
  txs = [];
  i = 5;
  blk_sizes = [];
  last_age = none;
  cache_hits = 0;
  cache_misses = 0;
}

stale-not_believed : first_believed server 5 stale_txs ≡ []
unfolding first_believed believed placed_at to_string atoi
stale-not_believed = refl

index_round-cached_example :
    index_round server store 5 stale
    ≡ some (record {
      cache = stale.cache;
      txs = [] ++ aged (get_age 100 7 false) (first_believed server 5 stale_txs);
      i = sub64 5 1;
      blk_sizes = push [] 100;
      last_age = some (get_age 100 7 false);
      cache_hits = u64 (0 + 1);
      cache_misses = 0;
    })
index_round-cached_example =
    index_round-cached server store 5 stale (block_at 5) stale_txs refl refl refl
