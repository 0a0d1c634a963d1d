-- ===== src/Examples/Chain.antt =====
-- The results on the parser, on one block with one transaction whose input names a ring member
-- twice.
use monero_sci_parser.Base.{◌≡◌, ◌<◌, refl, false, Option, none, some, [], ◌∷◌, arith}
use monero_sci_parser.Text.{Str, codes, str_eq}
use monero_sci_parser.HashFn.{make_hash_fn}
use monero_sci_parser.BloomFilter.{make, exists_c_string, add_c_string}
use monero_sci_parser.BloomFilter.Membership.Sizes.{make-IsValid}
use monero_sci_parser.Parser.Ids.{get_last_id_list}
use monero_sci_parser.Parser.Store.{Store, find, assign}
use monero_sci_parser.Parser.Process.{resolve_ring_id, process_mixins, process_txs, xmr_processor}
use monero_sci_parser.Parser.Dense.{IsDense}
use monero_sci_parser.Parser.Dense.WholeBlock.{xmr_processor-IsDense}
use monero_sci_parser.Parser.Ring.{IsRing, resolve-IsRing}
use monero_sci_parser.Parser.Ring.Stable.{resolve_stable}
use monero_sci_parser.Parser.Drain.{take_first, drain_take, drain_put, resolve-drain_take}
use monero_sci_parser.Parser.MainFunction.{main_loop, main_function}
use monero_sci_parser.Parser.MainFunction.Resume.{IsFresh, fresh-IsDense, main_function-resumes}
use monero_sci_parser.Examples.{
  example_db, example_db-IsStore, empty_contents, end_read, example_ids, example_store,
  example_block, example_mixin, all_blocks, all_transactions,
}

example_store-IsFresh : IsFresh example_store
example_store-IsFresh = record {
  block_ids = refl;
  block_rows = refl;
  output_ids = refl;
  output_rows = refl;
  image_ids = refl;
  input_ids = refl;
  input_rows = refl;
  tx_ids = refl;
  tx_rows = refl;
}

abbrev store_or : Option Store → Store
store_or none = example_store
store_or (some t) = t

abbrev after_block : Store
after_block =
    store_or (
      xmr_processor example_db empty_contents end_read all_transactions example_block example_store)

after_block_lem :
    xmr_processor example_db empty_contents end_read all_transactions example_block example_store
    ≡ some after_block
unfolding xmr_processor process_txs
after_block_lem = refl

xmr_processor-IsDense_example : IsDense example_ids 0 0 after_block
xmr_processor-IsDense_example =
    xmr_processor-IsDense example_db empty_contents end_read all_transactions example_block
      example_ids example_store after_block after_block_lem
      (fresh-IsDense example_store example_store-IsFresh)

abbrev run_or : Option ((Str → Option Str) × Store) → (Str → Option Str) × Store
run_or none = (empty_contents, example_store)
run_or (some r) = r

abbrev after_run : (Str → Option Str) × Store
after_run = run_or (
    main_function example_db empty_contents end_read all_blocks all_transactions 1 2 empty_contents
      example_store)

after_run_lem :
    main_function example_db empty_contents end_read all_blocks all_transactions 1 2 empty_contents
      example_store
    ≡ some (after_run.0, after_run.1)
unfolding main_function main_loop xmr_processor process_txs
after_run_lem = refl

main_function-resumes_example :
    IsDense (get_last_id_list example_db empty_contents) 0 0 after_run.1
    × (get_last_id_list example_db after_run.0 ≡ after_run.1.ids)
main_function-resumes_example =
    main_function-resumes example_db empty_contents end_read all_blocks all_transactions
      example_db-IsStore (λ c k v. refl) 1 2 empty_contents after_run.0 example_store after_run.1
      example_store-IsFresh after_run_lem

example_store-IsRing : IsRing example_store
unfolding find
example_store-IsRing = record {
  filter = make-IsValid 8 16 (make_hash_fn 31 false ∷ []) (omega arith);
  started = omega arith;
  seen = λ k n there. cc;
  given = λ k n there. cc;
  distinct = λ j k n there other. cc;
}

resolve-IsRing_example :
    IsRing (resolve_ring_id example_db empty_contents end_read example_store (codes "ring")).0
resolve-IsRing_example =
    resolve-IsRing example_db empty_contents end_read example_store (codes "ring")
      example_store-IsRing

not_seen : exists_c_string example_store.bloom_filter (codes "ring") ≡ false
unfolding exists_c_string make make_hash_fn
not_seen = refl

resolve_stable_example :
    ((resolve_ring_id example_db empty_contents end_read example_store (codes "ring")).1 ≡ 1)
    × ((resolve_ring_id example_db empty_contents end_read
          (process_mixins example_db empty_contents end_read
            (resolve_ring_id example_db empty_contents end_read example_store (codes "ring")).0
            (example_mixin ∷ []))
          (codes "ring")).1
        ≡ 1)
resolve_stable_example =
    resolve_stable example_db empty_contents end_read example_store (codes "ring")
      (example_mixin ∷ []) example_store-IsRing not_seen

-- The state after the key "ring" got its id. The one functor puts "col" on the same bit.
abbrev ring_store : Store
ring_store = (resolve_ring_id example_db empty_contents end_read example_store (codes "ring")).0

-- The entry of "ring" is taken out of the map.
abbrev drained_store : Store
drained_store = record ring_store { rm_hash_ids = [] }

resolve-drain_take_example :
    (1 < drained_store.ids.last_ring_member_id)
    × ((resolve_ring_id example_db empty_contents end_read drained_store (codes "ring")).1
        ≡ drained_store.ids.last_ring_member_id)
    × ((resolve_ring_id example_db
          (drain_put example_db empty_contents (codes "ring", 1))
          end_read
          drained_store
          (codes "ring")).1
        ≡ 1)
unfolding resolve_ring_id exists_c_string add_c_string make make_hash_fn find assign str_eq
    drain_take take_first
resolve-drain_take_example =
    resolve-drain_take example_db example_db-IsStore empty_contents end_read ring_store
      drained_store (codes "ring") 1
      (resolve-IsRing example_db empty_contents end_read example_store (codes "ring")
        example_store-IsRing)
      refl refl refl refl
