-- ===== src/Examples/Writers.antt =====
-- The results on the writer threads, on the vectors of one small run.
use monero_sci_parser.Base.{ℕ, ◌≡◌, refl, true, some, [], ◌∷◌, arith}
use monero_sci_parser.Text.{codes}
use monero_sci_parser.Parser.Store.{Store}
use monero_sci_parser.Writer.{batch_turn}
use monero_sci_parser.Writer.Threads.{
  emptied, run_block_main_thread, run_tx_main_thread, run_key_image_main_thread,
  main_threads-stored,
}
use monero_sci_parser.Writer.Interleave.{stopped, World, Reachable}
use monero_sci_parser.Writer.Interleave.Safety.{stopped-lost}
use monero_sci_parser.Writer.{hash_turn, store_first}
use monero_sci_parser.Writer.MainThread.{
  MainWorld, at_end, main_step, main_step_at, part, push_hash, push_row, push_index, main_finish,
  by_main, by_push_hash, by_push_row, by_push_index, by_end, MainReachable, main_start, main_next,
}
use monero_sci_parser.Writer.MainThread.Safety.{at_end-stored}
use monero_sci_parser.Examples.{example_store, example_block}

abbrev parsed_store : Store
parsed_store = record example_store {
  block_hash_ids = (codes "a", codes "1") ∷ (codes "b", codes "2") ∷ [];
  output_of_block = (example_block, 1) ∷ (example_block, 2) ∷ [];
  output_index_of_block = (1 ∷ []) ∷ (2 ∷ []) ∷ [];
  sa_hash_ids = (codes "c", codes "1") ∷ [];
  rm_hash_ids = (codes "d", 1) ∷ (codes "e", 2) ∷ [];
}

main_threads-stored_example :
    (run_block_main_thread true 3 parsed_store
      ≡ some record {
        hashes = emptied parsed_store.block_hash_ids;
        rows = emptied parsed_store.output_of_block;
        index = emptied parsed_store.output_index_of_block;
      })
    × (run_tx_main_thread true 3 parsed_store
        ≡ some record { hashes = emptied []; rows = emptied []; index = emptied [] })
    × (run_key_image_main_thread true 3 parsed_store
        ≡ some record { hashes = emptied []; rows = emptied [] })
main_threads-stored_example =
    main_threads-stored parsed_store 3 (omega arith) (omega arith) (omega arith)

-- The parser pushes an entry to each vector, two of them while the thread makes its round, and ends;
-- the thread stores them and ends.
abbrev ended : MainWorld ℕ ℕ
ended = record {
  tables = record {
    hashes = record { waiting = []; stored = (codes "a", codes "1") ∷ [] };
    rows = record { waiting = []; stored = 7 ∷ [] };
    index = record { waiting = []; stored = 8 ∷ [] };
  };
  hashes_pushed = (codes "a", codes "1") ∷ [];
  rows_pushed = 7 ∷ [];
  index_pushed = 8 ∷ [];
  done = true;
  place = at_end;
}

ended-MainReachable : MainReachable ended
unfolding main_step main_step_at part push_hash push_row push_index main_finish hash_turn
    store_first batch_turn
ended-MainReachable =
    let pushed = main_next main_start (by_push_hash (codes "a", codes "1") refl) in
    let first = main_next (main_next pushed by_main) (by_push_row 7 refl) in
    let over = main_next (main_next first (by_push_index 8 refl)) by_end in
    let turned = main_next (main_next over by_main) by_main in
    main_next (main_next (main_next (main_next turned by_main) by_main) by_main) by_main

at_end-stored_example :
    (ended.tables.hashes.stored ≡ ended.hashes_pushed)
    × (ended.tables.rows.stored ≡ ended.rows_pushed)
    × (ended.tables.index.stored ≡ ended.index_pushed)
at_end-stored_example = at_end-stored ended ended-MainReachable refl

stopped-lost_example :
    (w : World ℕ) × Reachable w
    × (w.place ≡ stopped)
    × (w.produced ≡ 7 ∷ [])
    × (w.queue.stored ≡ [])
stopped-lost_example = stopped-lost 7
