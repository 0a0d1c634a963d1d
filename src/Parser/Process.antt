-- ===== src/Parser/Process.antt =====
-- `xmrProcessor` of src/parser.h: what one block adds to the counters, the maps and the vectors.
-- The mutexes guard single accesses; here nothing runs in between. `Writer.Interleave` has the
-- steps of a writer thread in between.
use monero_sci_parser.Base.{
  ℕ, zero, suc, ◌+◌, Option, none, some, List, [], ◌∷◌, ◌==◌, if◌then◌else◌, ◌>>=◌, length,
}
use monero_sci_parser.Text.{Str, null_text, str_eq, to_string, atoi}
use monero_sci_parser.BloomFilter.{exists_c_string, add_c_string}
use monero_sci_parser.IdHashMapper.{RocksDb, is_key_exist}
use monero_sci_parser.Parser.Records.{Block, Transaction, Output, Input, Mixin, TxRef}
use monero_sci_parser.Parser.Store.{Store, push, find, assign}

-- The body of the loop over "outputs".
unfoldable pub process_output : Store → Output → Store
process_output s o =
    let ids = s.ids in
    record s {
      sa_hash_ids = push s.sa_hash_ids (o.out_pub_key, to_string ids.last_stealth_address_id);
      output_of_stealth_addresses = push s.output_of_stealth_addresses (o, ids.last_output_id);
      output_index_of_stealth_addresses = push s.output_index_of_stealth_addresses (
          ids.last_transaction_id ∷ ids.last_stealth_address_id ∷ ids.last_output_id
          ∷ ids.last_block_id ∷ []);
      ids = record ids {
        last_stealth_address_id = ids.last_stealth_address_id + 1;
        last_output_id = ids.last_output_id + 1;
      };
    }

unfoldable pub process_outputs : Store → List Output → Store
process_outputs s [] = s
process_outputs s (o ∷ os) = process_outputs (process_output s o) os

-- `db` and its contents are those of the store of ring members. `end_second` is what the source
-- reads through `rmHashIdVector.find(key)->second` where the key is not in the map. That read is
-- undefined in C++: it is a parameter, any function of the map and the key.
module _ (db : RocksDb) (contents : db.Contents) (end_second : List (Str × ℕ) → Str → ℕ) where
  -- The id that a key has in the map or in the data base; `last` where it has none.
  unfoldable pub known_ring_id : List (Str × ℕ) → ℕ → Str → ℕ
  known_ring_id rm last key =
      let now_id : ℕ = elim (find key rm) [ none ↦ end_second rm key | some id ↦ id ] in
      let id_is_exists = is_key_exist db contents key in
      if now_id == 0
      then if str_eq id_is_exists null_text then last else atoi id_is_exists
      else now_id

  -- The choice of `currentRingMemberId`, with what it changes.
  unfoldable pub resolve_ring_id : Store → Str → Store × ℕ
  resolve_ring_id s key =
      let last = s.ids.last_ring_member_id in
      if exists_c_string s.bloom_filter key then (s, known_ring_id s.rm_hash_ids last key) else (
        record s {
          bloom_filter = add_c_string s.bloom_filter key;
          rm_hash_ids = assign key last s.rm_hash_ids;
          ids = record (s.ids) { last_ring_member_id = last + 1 };
        },
        last,
      )

  -- The body of the loop over "mixins".
  unfoldable pub process_mixin : Store → Mixin → Store
  process_mixin s m =
      let (t, current_ring_member_id) = resolve_ring_id s m.mix_pub_key in
      let ids = t.ids in
      record t {
        output_of_ring_members = push t.output_of_ring_members (m, ids.last_input_id);
        output_index_of_ring_members = push t.output_index_of_ring_members (
            ids.last_input_id ∷ ids.last_transaction_id ∷ ids.last_key_image_id
            ∷ current_ring_member_id ∷ ids.last_block_id ∷ []);
        ids = record ids { last_input_id = ids.last_input_id + 1 };
      }

  unfoldable pub process_mixins : Store → List Mixin → Store
  process_mixins s [] = s
  process_mixins s (m ∷ ms) = process_mixins (process_mixin s m) ms

  -- What the loop over "inputs" does before its loop over "mixins".
  unfoldable pub process_key_image : Store → Input → Store
  process_key_image s i =
      let ids = s.ids in
      record s {
        key_image_hash_ids =
            push s.key_image_hash_ids (i.in_key_img, to_string ids.last_key_image_id);
        output_of_key_images = push s.output_of_key_images (
            to_string ids.last_key_image_id
            ∷ i.in_key_img
            ∷ to_string ids.last_block_id
            ∷ to_string ids.last_transaction_id
            ∷ i.amount
            ∷ i.input_idx
            ∷ to_string (length i.mixins)
            ∷ []);
      }

  -- The body of the loop over "inputs".
  unfoldable pub process_input : Store → Input → Store
  process_input s i =
      let t = process_mixins (process_key_image s i) i.mixins in
      record t { ids = record (t.ids) { last_key_image_id = t.ids.last_key_image_id + 1 } }

  unfoldable pub process_inputs : Store → List Input → Store
  process_inputs s [] = s
  process_inputs s (i ∷ is) = process_inputs (process_input s i) is

  -- The body of the loop over the block's transactions.
  unfoldable pub process_transaction : Store → TxRef → Transaction → Store
  process_transaction s ref tx =
      let s1 = record s {
        tx_hash_ids = push s.tx_hash_ids (tx.tx_hash, to_string s.ids.last_transaction_id);
      } in
      let t = process_inputs (process_outputs s1 tx.outputs) tx.inputs in
      let id = t.ids.last_transaction_id in
      record t {
        output_of_tx = push t.output_of_tx (record {
          transaction = tx;
          last_tx_id = id;
          coinbase = ref.coinbase;
          mixin = ref.mixin;
        });
        output_index_of_tx = push t.output_index_of_tx (id ∷ t.ids.last_block_id ∷ id ∷ []);
        ids = record (t.ids) { last_transaction_id = id + 1 };
      }

  -- `for (x = 0; x < txCount; x++)`. An entry that is missing, or an answer without its fields, is
  -- an exception that nothing catches.
  unfoldable pub process_txs : (Str → Option Transaction) → ℕ → List TxRef → Store → Option Store
  process_txs details zero refs s = some s
  process_txs details (suc left) [] s = none
  process_txs details (suc left) (ref ∷ refs) s = do
    tx ← details ref.tx_hash
    process_txs details left refs (process_transaction s ref tx)

  -- `xmrProcessor` on the answer for the block; `details` is `json_detailedtransaction`.
  unfoldable pub xmr_processor : (Str → Option Transaction) → Block → Store → Option Store
  xmr_processor details blk s = do
    let id = s.ids.last_block_id
    let s1 = record s {
      block_hash_ids = push s.block_hash_ids (blk.hash, to_string id);
      output_of_block = push s.output_of_block (blk, id);
      output_index_of_block = push s.output_index_of_block (id ∷ []);
    }
    t ← process_txs details blk.tx_count blk.txs s1
    some (record t { ids = record (t.ids) { last_block_id = t.ids.last_block_id + 1 } })
