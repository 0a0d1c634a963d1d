-- ===== src/Writer/Threads.antt =====
-- The nine writer threads of src/parser.h, from the vectors of the parser. `done` is
-- `isAllBlockDone`, `fuel` a bound on the rounds of the loop. Opening the stores and creating the
-- tables are not modelled; what a thread hands over is in the `stored` of its queues.
use monero_sci_parser.Base.{ℕ, ◌≡◌, ◌<◌, Bool, true, Option, some, List, [], length}
use monero_sci_parser.Text.{Str}
use monero_sci_parser.Parser.Records.{Block, Output, Mixin}
use monero_sci_parser.Parser.Store.{Store, TxRow}
use monero_sci_parser.Writer.{
  Queue, Tables, Images, block_round, tx_round, key_image_round, mapping_round, store_round,
  run_rounds,
}
use monero_sci_parser.Writer.Flush.{block_round-flushed, tx_round-flushed}
use monero_sci_parser.Writer.Flush.Single.{key_image_round-flushed}

-- A vector from which nothing has been taken yet, and one of which all has been.
abbrev pub untouched {ℓ} : {A : Type ℓ} → List A → Queue A
untouched xs = record { waiting = xs; stored = [] }

abbrev pub emptied {ℓ} : {A : Type ℓ} → List A → Queue A
emptied xs = record { waiting = []; stored = xs }

-- `runBlockMainThread`
pub run_block_main_thread : Bool → ℕ → Store → Option (Tables (Block × ℕ) (List ℕ))
run_block_main_thread done fuel s = run_rounds (block_round done) fuel (record {
  hashes = untouched s.block_hash_ids;
  rows = untouched s.output_of_block;
  index = untouched s.output_index_of_block;
})

-- `runTxMainThread`
pub run_tx_main_thread : Bool → ℕ → Store → Option (Tables TxRow (List ℕ))
run_tx_main_thread done fuel s = run_rounds (tx_round done) fuel (record {
  hashes = untouched s.tx_hash_ids;
  rows = untouched s.output_of_tx;
  index = untouched s.output_index_of_tx;
})

-- `runKeyImageMainThread`
pub run_key_image_main_thread : Bool → ℕ → Store → Option (Images (List Str))
run_key_image_main_thread done fuel s =
    run_rounds (key_image_round done) fuel
      (record { hashes = untouched s.key_image_hash_ids; rows = untouched s.output_of_key_images })

-- `runSAIdHashMappingThread`
pub run_sa_id_hash_mapping_thread : Bool → ℕ → Store → Option (Queue (Str × Str))
run_sa_id_hash_mapping_thread done fuel s =
    run_rounds (mapping_round done) fuel (untouched s.sa_hash_ids)

-- `runSaDataStoreThread`
pub run_sa_data_store_thread : Bool → ℕ → Store → Option (Queue (Output × ℕ))
run_sa_data_store_thread done fuel s =
    run_rounds (store_round done) fuel (untouched s.output_of_stealth_addresses)

-- `runSAIndexStoreThread`
pub run_sa_index_store_thread : Bool → ℕ → Store → Option (Queue (List ℕ))
run_sa_index_store_thread done fuel s =
    run_rounds (store_round done) fuel (untouched s.output_index_of_stealth_addresses)

-- `runRingMemberStoreThread`
pub run_ring_member_store_thread : Bool → ℕ → Store → Option (Queue (Mixin × ℕ))
run_ring_member_store_thread done fuel s =
    run_rounds (store_round done) fuel (untouched s.output_of_ring_members)

-- `runRMIndexStoreThread`
pub run_rm_index_store_thread : Bool → ℕ → Store → Option (Queue (List ℕ))
run_rm_index_store_thread done fuel s =
    run_rounds (store_round done) fuel (untouched s.output_index_of_ring_members)

-- `runRMIdHashMappingThread`, which takes the first entry of the map, the one with the least key.
pub run_rm_id_hash_mapping_thread : Bool → ℕ → Store → Option (Queue (Str × ℕ))
run_rm_id_hash_mapping_thread done fuel s =
    run_rounds (mapping_round done) fuel (untouched s.rm_hash_ids)

module _ (s : Store) (fuel : ℕ) where
  -- Once the parser has finished, the threads of blocks, transactions and key images end within
  -- more rounds than pairs of hash and id wait for them, and each has handed over all entries of
  -- its vectors, in order.
  pub main_threads-stored :
      length s.block_hash_ids < fuel
      → length s.tx_hash_ids < fuel
      → length s.key_image_hash_ids < fuel
      → (run_block_main_thread true fuel s
          ≡ some record {
            hashes = emptied s.block_hash_ids;
            rows = emptied s.output_of_block;
            index = emptied s.output_index_of_block;
          })
        × (run_tx_main_thread true fuel s
            ≡ some record {
              hashes = emptied s.tx_hash_ids;
              rows = emptied s.output_of_tx;
              index = emptied s.output_index_of_tx;
            })
        × (run_key_image_main_thread true fuel s
            ≡ some record {
              hashes = emptied s.key_image_hash_ids;
              rows = emptied s.output_of_key_images;
            })
  unfolding run_block_main_thread run_tx_main_thread run_key_image_main_thread
  main_threads-stored b t k =
      (block_round-flushed _ fuel b, tx_round-flushed _ fuel t, key_image_round-flushed _ fuel k)
