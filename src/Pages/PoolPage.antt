-- ===== src/Pages/PoolPage.antt =====
-- src/page.h: `json_mempool`, a page of the pool.
pub mod Ranges
use monero_sci_parser.Base.{
  ℕ, zero, suc, ◌+◌, ◌-◌, ◌*◌, ◌/◌, ◌^◌, Bool, true, false, Option, none, some, List, [], ◌∷◌, u64,
  sub64, ltb, leb, if◌then◌else◌, ◌>>=◌, get_elem?, length,
}
use monero_sci_parser.Text.{Str}
use monero_sci_parser.Tools.{Tx}
use monero_sci_parser.Chain.{Core, CoreBlock, get_block_by_height}
use monero_sci_parser.Mempool.{MempoolTx}
use monero_sci_parser.Pages.{
  Node, cant_parse_page_or_limit, cant_get_block, cant_get_transactions_in_block,
  out_of_range_in_mempool, Title, Answer, fail, error, success, bare, TxDetails, get_tx_details,
  TxJson, get_tx_json,
}
use monero_sci_parser.Pages.Paging.{sign64, lt64, not_below_zero, with_numbers}

-- `start_height` and `end_height` of `json_mempool`; `end_height > no_mempool_txs` compares words.
unfoldable pub pool_end : ℕ → ℕ → ℕ → ℕ
pool_end no_mempool_txs page limit =
    let end_height = u64 (u64 (limit * page) + limit) in
    if ltb no_mempool_txs end_height then no_mempool_txs else end_height

unfoldable pub pool_start : ℕ → ℕ → ℕ → ℕ
unfolding pool_end
pool_start no_mempool_txs page limit =
    let end_height = pool_end no_mempool_txs page limit in
    let start_height = u64 (limit * page) in
    not_below_zero (if lt64 end_height start_height then sub64 end_height limit else start_height)

-- The rounds of `while (i < end_height)`.
unfoldable pub pool_rounds : ℕ → ℕ → ℕ
pool_rounds start_height end_height =
    if lt64 start_height end_height then end_height - start_height else 0

-- An entry of "txs"; the formatted time is left out.
pub record PoolTx : Type 0 where
  pub tx : TxJson
  pub timestamp : ℕ

-- What the loop gives that raises no exception: `out_of_range` is caught and is an error.
pub data PoolTxs : Type 0 where
  txs_made : List PoolTx → PoolTxs
  out_of_range : PoolTxs

abbrev pub and_pool_tx : PoolTx → PoolTxs → PoolTxs
and_pool_tx t (txs_made ts) = txs_made (t ∷ ts)
and_pool_tx t out_of_range = out_of_range

-- The loop from `i`; the height 1 is a dummy.
unfoldable pub pool_loop : Node → ℕ → ℕ → Option PoolTxs
pool_loop node i zero = some (txs_made [])
pool_loop node i (suc left) =
    let rest = pool_loop node (suc i) left in
    elim (get_elem? node.mempool_txs i) [
      | none ↦ some out_of_range
      | some t ↦ get_tx_details node t.tx false 1 node.current_height >>= λ txd. rest >>= λ ts.
          some
            (and_pool_tx (record { tx = get_tx_json node t.tx txd; timestamp = t.receive_time }) ts)
    ]

-- The data of `json_mempool`.
pub record PoolJson : Type 0 where
  pub txs : List PoolTx
  pub page : ℕ
  pub limit : ℕ
  pub txs_no : ℕ
  pub total_page_no : ℕ

unfoldable pub pool_answer : Node → ℕ → ℕ → PoolTxs → Answer PoolJson
pool_answer node page limit out_of_range = error out_of_range_in_mempool
pool_answer node page limit (txs_made ts) = success (record {
  txs = ts;
  page = page;
  limit = limit;
  txs_no = length node.mempool_txs;
  total_page_no = if ltb 0 limit then length node.mempool_txs / limit else 0;
})

-- `json_mempool` with both numbers read.
unfoldable pub mempool_page : Node → ℕ → ℕ → Option (Answer PoolJson)
unfolding pool_start pool_end pool_rounds pool_loop pool_answer
mempool_page node page limit =
    let no_mempool_txs = length node.mempool_txs in
    let start_height = pool_start no_mempool_txs page limit in
    pool_loop node start_height (pool_rounds start_height (pool_end no_mempool_txs page limit))
    >>= λ txs. some (pool_answer node page limit txs)

-- `json_mempool`
unfoldable pub json_mempool : Node → Str → Str → Option (Answer PoolJson)
unfolding with_numbers mempool_page
json_mempool node page limit = with_numbers node page limit (mempool_page node)
