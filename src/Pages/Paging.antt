-- ===== src/Pages/Paging.antt =====
-- src/page.h: `json_transactions`, a page of blocks. An `int64_t` is kept as the word of its bits.
pub mod Blocks
use monero_sci_parser.Base.{
  ℕ, zero, suc, ◌+◌, ◌-◌, ◌*◌, ◌/◌, ◌^◌, Bool, true, false, Option, none, some, List, [], ◌∷◌, u64,
  sub64, ltb, leb, if◌then◌else◌, ◌>>=◌, get_elem?, length,
}
use monero_sci_parser.Text.{Str}
use monero_sci_parser.Tools.{Tx}
use monero_sci_parser.Chain.{Core, CoreBlock, get_block_by_height}
use monero_sci_parser.Mempool.{MempoolTx}
use monero_sci_parser.Pages.{
  Node, cant_parse_page_or_limit, cant_get_block, cant_get_transactions_in_block,
  out_of_range_in_mempool, Title, Answer, fail, error, success, bare, TxDetails, get_tx_details,
  TxJson, get_tx_json,
}

-- 2 ^ 63, the first word that is a negative `int64_t`.
abbrev pub sign64 : ℕ
sign64 = 2 ^ 63

-- `a < b` on `int64_t`
abbrev pub lt64 : ℕ → ℕ → Bool
lt64 a b = ltb (u64 (a + sign64)) (u64 (b + sign64))

-- `start_height < 0 ? 0 : start_height`
abbrev pub not_below_zero : ℕ → ℕ
not_below_zero a = if lt64 a 0 then 0 else a

-- At most 100 blocks to a page.
abbrev pub cap_limit : ℕ → ℕ
cap_limit limit = if ltb 100 limit then 100 else limit

-- `start_height` and `end_height` of `json_transactions`.
unfoldable pub page_start : ℕ → ℕ → ℕ → ℕ
page_start height page limit = not_below_zero (sub64 height (u64 (limit * u64 (page + 1))))

unfoldable pub page_end : ℕ → ℕ → ℕ
page_end start_height limit = sub64 (u64 (start_height + limit)) 1

-- The rounds of `while (i >= start_height)` from `end_height` down.
unfoldable pub page_rounds : ℕ → ℕ → ℕ
page_rounds start_height end_height =
    if lt64 end_height start_height then 0 else end_height - start_height + 1

-- An entry of "blocks"; the age and the formatted times are left out.
pub record PageBlock : Type 0 where
  pub height : ℕ
  pub hash : Str
  pub size : ℕ
  pub timestamp : ℕ
  pub txs : List TxJson

-- The loop over the transactions of a block.
unfoldable pub page_txs : Node → ℕ → List Tx → Option (List TxJson)
page_txs node i [] = some []
page_txs node i (tx ∷ txs) = get_tx_details node tx false i node.current_height >>= λ txd.
    page_txs node i txs >>= λ js. some (get_tx_json node tx txd ∷ js)

unfoldable pub page_block : Node → ℕ → CoreBlock → List TxJson → PageBlock
page_block node i blk txs = record {
  height = i;
  hash = node.core.get_block_id_by_height i;
  size = node.core.get_block_size i;
  timestamp = blk.timestamp;
  txs = txs;
}

-- What the loop gives that raises no exception: the blocks, or the message of the return.
pub data PageBlocks : Type 0 where
  blocks_made : List PageBlock → PageBlocks
  block_failed : Title → PageBlocks

abbrev pub and_block : PageBlock → PageBlocks → PageBlocks
and_block b (blocks_made bs) = blocks_made (b ∷ bs)
and_block b (block_failed t) = block_failed t

-- The block at height `i`, or the answer of the failure, before the blocks that follow.
unfoldable pub push_block : Node → ℕ → Option PageBlocks → Option PageBlocks
unfolding page_txs page_block
push_block node i rest = elim (get_block_by_height node.core i) [
  | none ↦ some (block_failed (cant_get_block i))
  | some blk ↦
      let r = node.core.get_transactions blk.tx_hashes in
      if r.0
      then (page_txs node i (blk.miner_tx ∷ r.1) >>= λ txs.
          rest >>= λ bs. some (and_block (page_block node i blk txs) bs))
      else some (block_failed (cant_get_transactions_in_block i))
]

-- The loop: with `left` rounds left, the next block is the one at `start_height + left - 1`.
unfoldable pub page_loop : Node → ℕ → ℕ → Option PageBlocks
unfolding push_block
page_loop node start_height zero = some (blocks_made [])
page_loop node start_height (suc left) =
    let rest = page_loop node start_height left in push_block node (start_height + left) rest

-- The data of `json_transactions`.
pub record PageJson : Type 0 where
  pub blocks : List PageBlock
  pub page : ℕ
  pub limit : ℕ
  pub current_height : ℕ
  pub total_page_no : ℕ

unfoldable pub page_answer : Node → ℕ → ℕ → PageBlocks → Answer PageJson
page_answer node page limit (block_failed t) = error t
page_answer node page limit (blocks_made bs) = success (record {
  blocks = bs;
  page = page;
  limit = limit;
  current_height = node.current_height;
  total_page_no = if ltb 0 limit then node.current_height / limit else 0;
})

-- `json_transactions` with both numbers read; `none` is an exception that is not caught.
unfoldable pub transactions_page : Node → ℕ → ℕ → Option (Answer PageJson)
unfolding page_start page_end page_rounds page_loop page_answer
transactions_page node page limit =
    let start_height = page_start node.current_height page (cap_limit limit) in
    let rounds = page_rounds start_height (page_end start_height (cap_limit limit)) in
    page_loop node start_height rounds >>= λ blocks.
    some (page_answer node page (cap_limit limit) blocks)

-- The two numbers, or the title where one is not a number.
unfoldable pub with_numbers {ℓ} :
    {A : Type ℓ} → Node → Str → Str → (ℕ → ℕ → Option (Answer A)) → Option (Answer A)
with_numbers node page_text limit_text f =
    let failed = some (fail (cant_parse_page_or_limit page_text limit_text)) in
    elim (node.lexical_cast page_text) [
      | none ↦ failed
      | some page ↦ elim (node.lexical_cast limit_text) [
        | none ↦ failed
        | some limit ↦ f page limit
      ]
    ]

-- `json_transactions`
unfoldable pub json_transactions : Node → Str → Str → Option (Answer PageJson)
unfolding with_numbers transactions_page
json_transactions node page limit = with_numbers node page limit (transactions_page node)
