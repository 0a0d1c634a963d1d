-- ===== src/Parser/Dense/WholeBlock.antt =====
-- A whole block keeps the rows and the counters in step.
use mathlib.Core.Option.{some-injective}
use monero_sci_parser.Base.{
  List, ℕ, ◌+◌, ◌≡◌, refl, subst, Option, none, some, [], ◌∷◌, arith, Option-cases, inl, inr,
}
use monero_sci_parser.Text.{Str, to_string}
use monero_sci_parser.IdHashMapper.{RocksDb}
use monero_sci_parser.Parser.Records.{Block, Transaction}
use monero_sci_parser.Parser.Ids.{Ids}
use monero_sci_parser.Parser.Store.{Store, push}
use monero_sci_parser.Parser.Process.{process_txs, xmr_processor}
use monero_sci_parser.Parser.Dense.{IsRun-push, IsDense}
use monero_sci_parser.Parser.Dense.Steps.{txs-Dense}

-- The counter of blocks moves over the row that was queued first.
advance :
    (base : Ids) (u : Store)
    → IsDense base 1 0 u
    → IsDense base 0 0
        (record u { ids = record (u.ids) { last_block_id = u.ids.last_block_id + 1 } })
advance base u f =
    let moved : u.ids.last_block_id + 1 ≡ u.ids.last_block_id + 1 + 0 = omega arith in
    record {
      block_ids = rw moved at f.block_ids;
      block_rows = rw moved at f.block_rows;
      output_ids = f.output_ids;
      output_rows = f.output_rows;
      address_rows = f.address_rows;
      image_ids = f.image_ids;
      input_ids = f.input_ids;
      input_rows = f.input_rows;
      tx_ids = f.tx_ids;
      tx_rows = f.tx_rows;
    }

module _ (db : RocksDb) (contents : db.Contents) (end_second : List (Str × ℕ) → Str → ℕ) where
  -- If the queued rows of each table have consecutive keys up to its counter, they still have them
  -- after a block: of the data and the index of blocks, transactions, outputs, key images and ring
  -- members. In particular the data rows and the index rows of a table have the same keys in the
  -- same order, and no key comes twice.
  pub xmr_processor-IsDense :
      (details : Str → Option Transaction) (blk : Block) (base : Ids) (s t : Store)
      → xmr_processor db contents end_second details blk s ≡ some t
      → IsDense base 0 0 s
      → IsDense base 0 0 t
  unfolding xmr_processor
  xmr_processor-IsDense details blk base s t e d =
      let id = s.ids.last_block_id in
      let s1 = record s {
        block_hash_ids = push s.block_hash_ids (blk.hash, to_string id);
        output_of_block = push s.output_of_block (blk, id);
        output_index_of_block = push s.output_index_of_block (id ∷ []);
      } in
      let exact : id + 0 ≡ id = omega arith in
      let d1 : IsDense base 1 0 s1 = record {
        block_ids = IsRun-push _ _ _ s.output_of_block _ (rw exact at d.block_ids) refl;
        block_rows = IsRun-push _ _ _ s.output_index_of_block _ (rw exact at d.block_rows) refl;
        output_ids = d.output_ids;
        output_rows = d.output_rows;
        address_rows = d.address_rows;
        image_ids = d.image_ids;
        input_ids = d.input_ids;
        input_rows = d.input_rows;
        tx_ids = d.tx_ids;
        tx_rows = d.tx_rows;
      } in
      elim (Option-cases (process_txs db contents end_second details blk.tx_count blk.txs s1)) [
        | inl failed ↦
            absurd (let bad : ◌≡◌ {A = Option Store} none (some t) = rw failed at e in (cc))
        | inr (u, done) ↦
            let f : IsDense base 1 0 u =
              txs-Dense base 1 db contents end_second details blk.tx_count blk.txs s1 u done d1 in
            subst (IsDense base 0 0) (some-injective _ _ (rw done at e)) (advance base u f)
      ]
