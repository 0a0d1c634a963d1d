-- ===== src/Examples/Pages.antt =====
-- The results on the explorer's answers, on a chain of six equal blocks and a pool of two
-- transactions.
use monero_sci_parser.Base.{
  ℕ, ◌-◌, ◌<◌, ◌≡◌, ◌⊎◌, refl, false, none, some, List, [], ◌∷◌, arith, lt→ltb, take, drop, ◌>>=◌,
}
use monero_sci_parser.Text.{Str, codes}
use monero_sci_parser.Mempool.{TxInfo, TxReader, MempoolStatus, read_mempool}
use monero_sci_parser.Mempool.Reads.{parse_all, after_read, read_mempool-all_or_nothing}
use monero_sci_parser.Pages.{cant_get_block, nothing_was_found, fail, error}
use monero_sci_parser.Pages.Raw.{OutputDb}
use monero_sci_parser.Pages.Search.{json_search}
use monero_sci_parser.Pages.Search.Nothing.{json_search-finds_nothing}
use monero_sci_parser.Pages.Paging.{transactions_page}
use monero_sci_parser.Pages.Paging.Blocks.{
  range_down, IsReadable, first_pages, transactions_page-pages, transactions_page-short,
}
use monero_sci_parser.Pages.PoolPage.{mempool_page}
use monero_sci_parser.Pages.PoolPage.Ranges.{pool_json, mempool_page-in_range}
use monero_sci_parser.Examples.OneChain.{example_node, example_tx, example_core_block}

abbrev hash_text : Str
hash_text = codes "0123456789abcdef0123456789abcdef0123456789abcdef0123456789abcdef"

abbrev example_outputs : OutputDb
example_outputs = record {
  tx_exists = λ h. none;
  get_tx_amount_output_indices = λ i. none;
  get_num_outputs = λ amount. 10;
  relative_output_offsets_to_absolute = λ offsets. offsets;
  get_output_key = λ amount offsets. some [];
  obj_to_json = λ tx. none;
}

json_search-finds_nothing_example :
    (json_search example_node example_outputs (codes "1") ≡ none)
    ⊎ (json_search example_node example_outputs (codes "1")
        ≡ some (fail (nothing_was_found (codes "1"))))
json_search-finds_nothing_example =
    json_search-finds_nothing example_node example_outputs (codes "1")

has_block : (i : ℕ) → i < 6 → IsReadable example_node i
has_block i below = (example_core_block, rw (lt→ltb i 6 below) refl, refl)

transactions_page-pages_example : first_pages example_node 2 2 ≡ range_down (6 - 4) 4
transactions_page-pages_example =
    transactions_page-pages example_node 2 (omega arith) (omega arith) (omega arith) has_block 2
      (omega arith)

transactions_page-short_example :
    transactions_page example_node 0 10 ≡ some (error (cant_get_block (10 - 1)))
transactions_page-short_example =
    transactions_page-short example_node 0 10 (omega arith) (omega arith) (omega arith) refl

mempool_page-in_range_example :
    mempool_page example_node 1 1
    ≡ some (pool_json example_node 1 1 (take 1 (drop 1 example_node.mempool_txs)))
mempool_page-in_range_example =
    mempool_page-in_range example_node 1 1 (omega arith) (omega arith) (omega arith)

abbrev example_reader : TxReader
example_reader = record {
  parse_tx = λ blob. some (example_tx, blob);
  has_payment_id = λ tx. false;
  has_payment_id8 = λ tx. false;
  has_additional_pub_keys = λ tx. false;
}

abbrev example_infos : List TxInfo
example_infos = record { tx_blob = codes "blob"; blob_size = 100; receive_time = 9 } ∷ []

abbrev empty_pool : MempoolStatus
empty_pool = record { mempool_txs = []; mempool_no = 0; mempool_size = 0 }

read_mempool-all_or_nothing_example :
    read_mempool example_reader (some example_infos) empty_pool
    ≡ after_read example_reader empty_pool (some example_infos >>= parse_all example_reader)
read_mempool-all_or_nothing_example =
    read_mempool-all_or_nothing example_reader (some example_infos) empty_pool
