-- ===== src/Examples/BlockPages.antt =====
-- The pages of a block, of the pool and of the blocks beside the chain, on the chain of six blocks.
use monero_sci_parser.Base.{
  ◌≡◌, refl, true, false, Option, none, some, List, [], ◌∷◌, arith, map, inr,
}
use monero_sci_parser.Text.{Str, codes, atoi, str_eq}
use monero_sci_parser.Chain.{CoreBlock, get_block_by_height}
use monero_sci_parser.Mempool.{MempoolStatus, get_mempool_txs}
use monero_sci_parser.RpcCalls.{Response}
use monero_sci_parser.Pages.Block.{json_block}
use monero_sci_parser.Pages.BlockPage.{no_block, higher_than_chain, show_block_at}
use monero_sci_parser.Pages.BlockPage.Json.{PageAgrees, show_block-json_block}
use monero_sci_parser.Pages.PoolView.{mempool_view, pool_row, mempool_view-front}
use monero_sci_parser.Pages.AltBlocks.{AltBlock, altblocks}
use monero_sci_parser.Examples.OneChain.{example_node, example_core_block}
use monero_sci_parser.Examples.Daemon.{statuses, client}

abbrev db_block : Str → Option CoreBlock
db_block h = some example_core_block

show_block-json_block_example :
    PageAgrees
      (json_block example_node (codes "1"))
      (show_block_at example_node db_block (λ h. true) 20 1)
unfolding atoi
show_block-json_block_example =
    show_block-json_block example_node db_block (λ h. true) 20 1 (codes "1") (omega arith) refl
      (λ blk at. inr (example_core_block, refl))

above_chain : show_block_at example_node db_block (λ h. true) 20 7 ≡ some (higher_than_chain 7)
unfolding show_block_at
above_chain = refl

at_top : show_block_at example_node db_block (λ h. true) 20 6 ≡ some (no_block 6)
unfolding show_block_at get_block_by_height
at_top = refl

abbrev pool_of_two : MempoolStatus
pool_of_two = record { mempool_txs = example_node.mempool_txs; mempool_no = 2; mempool_size = 20 }

one_of_two :
    mempool_view 20 false 1 pool_of_two
    ≡ some (record {
      mempool_size = 2;
      mempool_size_bytes = 20;
      mempooltxs = map (pool_row 20) (get_mempool_txs 1 pool_of_two);
      mempool_fits_on_front_page = some false;
      no_of_mempool_tx_of_frontpage = some 1;
    })
one_of_two = mempool_view-front 20 1 pool_of_two refl

-- The node gives two hashes and neither block.
abbrev two_hashes : Response (List Str)
two_hashes = record { status = codes "OK"; result = codes "a" ∷ codes "b" ∷ [] }

unread : Str → AltBlock
unread h = record {
  height = 18446744073709551615;
  age = none;
  hash = h;
  no_of_txs = 18446744073709551615;
}

two_alt_blocks :
    altblocks statuses client (λ h. none) (λ h. none) (λ blk. 0) (λ h. none) 20 (some two_hashes)
    ≡ record { no_alt_blocks = 2; blocks = unread (codes "a") ∷ unread (codes "b") ∷ [] }
unfolding altblocks unread str_eq
two_alt_blocks = refl
