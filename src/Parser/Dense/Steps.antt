-- ===== src/Parser/Dense/Steps.antt =====
-- Each step of `xmrProcessor` inside a block keeps the rows and the counters in step.
use mathlib.Core.Option.{some-injective}
use monero_sci_parser.Base.{
  ℕ, zero, suc, ◌+◌, ◌≡◌, refl, subst, Option, none, some, List, [], ◌∷◌, arith, Bool-cases,
  Option-cases, inl, inr,
}
use monero_sci_parser.Text.{Str, to_string}
use monero_sci_parser.BloomFilter.{exists_c_string}
use monero_sci_parser.IdHashMapper.{RocksDb}
use monero_sci_parser.Text.Decimal.{atoi-to_string}
use monero_sci_parser.Parser.Records.{Transaction, Output, Input, Mixin, TxRef}
use monero_sci_parser.Parser.Ids.{Ids}
use monero_sci_parser.Parser.Store.{Store, push}
use monero_sci_parser.Parser.Process.{
  process_output, process_outputs, resolve_ring_id, process_mixin, process_mixins,
  process_key_image, process_input, process_inputs, process_transaction, process_txs,
}
use monero_sci_parser.Parser.Dense.{IsRun-push, IsDense}

module _ (base : Ids) (blocks : ℕ) where
  abbrev Dense : ℕ → Store → Type 0
  Dense images s = IsDense base blocks images s

  output-Dense : (s : Store) (o : Output) → Dense 0 s → Dense 0 (process_output s o)
  unfolding process_output
  output-Dense s o d = record {
    block_ids = d.block_ids;
    block_rows = d.block_rows;
    output_ids = IsRun-push _ _ _ s.output_of_stealth_addresses _ d.output_ids refl;
    output_rows = IsRun-push _ _ _ s.output_index_of_stealth_addresses _ d.output_rows refl;
    address_rows = IsRun-push _ _ _ s.output_index_of_stealth_addresses _ d.address_rows refl;
    image_ids = d.image_ids;
    input_ids = d.input_ids;
    input_rows = d.input_rows;
    tx_ids = d.tx_ids;
    tx_rows = d.tx_rows;
  }

  outputs-Dense : (s : Store) (os : List Output) → Dense 0 s → Dense 0 (process_outputs s os)
  unfolding process_outputs
  outputs-Dense s [] d = d
  outputs-Dense s (o ∷ os) d = outputs-Dense (process_output s o) os (output-Dense s o d)

  module _ (db : RocksDb) (contents : db.Contents) (end_second : List (Str × ℕ) → Str → ℕ) where
    resolve-Dense :
        (images : ℕ) (s : Store) (key : Str)
        → Dense images s
        → Dense images (resolve_ring_id db contents end_second s key).0
    unfolding resolve_ring_id
    resolve-Dense images s key d = elim (Bool-cases (exists_c_string s.bloom_filter key)) [
      | inl seen ↦ rw seen d
      | inr fresh ↦ rw fresh (record {
        block_ids = d.block_ids;
        block_rows = d.block_rows;
        output_ids = d.output_ids;
        output_rows = d.output_rows;
        address_rows = d.address_rows;
        image_ids = d.image_ids;
        input_ids = d.input_ids;
        input_rows = d.input_rows;
        tx_ids = d.tx_ids;
        tx_rows = d.tx_rows;
      })
    ]

    mixin-Dense :
        (images : ℕ) (s : Store) (m : Mixin)
        → Dense images s
        → Dense images (process_mixin db contents end_second s m)
    unfolding process_mixin
    mixin-Dense images s m d =
        let r = resolve_ring_id db contents end_second s m.mix_pub_key in
        let t = r.0 in
        let e : Dense images t = resolve-Dense images s m.mix_pub_key d in
        record {
          block_ids = e.block_ids;
          block_rows = e.block_rows;
          output_ids = e.output_ids;
          output_rows = e.output_rows;
          address_rows = e.address_rows;
          image_ids = e.image_ids;
          input_ids = IsRun-push _ _ _ t.output_of_ring_members _ e.input_ids refl;
          input_rows = IsRun-push _ _ _ t.output_index_of_ring_members _ e.input_rows refl;
          tx_ids = e.tx_ids;
          tx_rows = e.tx_rows;
        }

    mixins-Dense :
        (images : ℕ) (s : Store) (ms : List Mixin)
        → Dense images s
        → Dense images (process_mixins db contents end_second s ms)
    unfolding process_mixins
    mixins-Dense images s [] d = d
    mixins-Dense images s (m ∷ ms) d =
        mixins-Dense images (process_mixin db contents end_second s m) ms (mixin-Dense images s m d)

    key_image-Dense :
        (s : Store) (i : Input) → Dense 0 s → Dense 1 (process_key_image db contents end_second s i)
    unfolding process_key_image
    key_image-Dense s i d =
        let exact : s.ids.last_key_image_id + 0 ≡ s.ids.last_key_image_id = omega arith in
        record {
          block_ids = d.block_ids;
          block_rows = d.block_rows;
          output_ids = d.output_ids;
          output_rows = d.output_rows;
          address_rows = d.address_rows;
          image_ids =
              IsRun-push _ _ _ s.output_of_key_images _ (rw exact at d.image_ids)
                (atoi-to_string s.ids.last_key_image_id);
          input_ids = d.input_ids;
          input_rows = d.input_rows;
          tx_ids = d.tx_ids;
          tx_rows = d.tx_rows;
        }

    input-Dense :
        (s : Store) (i : Input) → Dense 0 s → Dense 0 (process_input db contents end_second s i)
    unfolding process_input
    input-Dense s i d =
        let t =
          process_mixins db contents end_second (process_key_image db contents end_second s i)
            i.mixins in
        let e : Dense 1 t = mixins-Dense 1 _ i.mixins (key_image-Dense s i d) in
        let moved : t.ids.last_key_image_id + 1 ≡ t.ids.last_key_image_id + 1 + 0 = omega arith in
        record {
          block_ids = e.block_ids;
          block_rows = e.block_rows;
          output_ids = e.output_ids;
          output_rows = e.output_rows;
          address_rows = e.address_rows;
          image_ids = rw moved at e.image_ids;
          input_ids = e.input_ids;
          input_rows = e.input_rows;
          tx_ids = e.tx_ids;
          tx_rows = e.tx_rows;
        }

    inputs-Dense :
        (s : Store) (is : List Input)
        → Dense 0 s
        → Dense 0 (process_inputs db contents end_second s is)
    unfolding process_inputs
    inputs-Dense s [] d = d
    inputs-Dense s (i ∷ is) d =
        inputs-Dense (process_input db contents end_second s i) is (input-Dense s i d)

    transaction-Dense :
        (s : Store) (ref : TxRef) (tx : Transaction)
        → Dense 0 s
        → Dense 0 (process_transaction db contents end_second s ref tx)
    unfolding process_transaction
    transaction-Dense s ref tx d =
        let s1 = record s {
          tx_hash_ids = push s.tx_hash_ids (tx.tx_hash, to_string s.ids.last_transaction_id);
        } in
        let d1 : Dense 0 s1 = record {
          block_ids = d.block_ids;
          block_rows = d.block_rows;
          output_ids = d.output_ids;
          output_rows = d.output_rows;
          address_rows = d.address_rows;
          image_ids = d.image_ids;
          input_ids = d.input_ids;
          input_rows = d.input_rows;
          tx_ids = d.tx_ids;
          tx_rows = d.tx_rows;
        } in
        let t = process_inputs db contents end_second (process_outputs s1 tx.outputs) tx.inputs in
        let e : Dense 0 t = inputs-Dense _ tx.inputs (outputs-Dense s1 tx.outputs d1) in
        record {
          block_ids = e.block_ids;
          block_rows = e.block_rows;
          output_ids = e.output_ids;
          output_rows = e.output_rows;
          address_rows = e.address_rows;
          image_ids = e.image_ids;
          input_ids = e.input_ids;
          input_rows = e.input_rows;
          tx_ids = IsRun-push _ _ _ t.output_of_tx _ e.tx_ids refl;
          tx_rows = IsRun-push _ _ _ t.output_index_of_tx _ e.tx_rows refl;
        }

    pub txs-Dense :
        (details : Str → Option Transaction) (left : ℕ) (refs : List TxRef) (s t : Store)
        → process_txs db contents end_second details left refs s ≡ some t
        → Dense 0 s
        → Dense 0 t
    unfolding process_txs
    txs-Dense details zero refs s t e d = subst (Dense 0) (some-injective _ _ e) d
    txs-Dense details (suc left) [] s t e d = cc
    txs-Dense details (suc left) (ref ∷ refs) s t e d = elim (Option-cases (details ref.tx_hash)) [
      | inl missing ↦
          absurd (let bad : ◌≡◌ {A = Option Store} none (some t) = rw missing at e in (cc))
      | inr (tx, found) ↦
          txs-Dense details left refs (process_transaction db contents end_second s ref tx) t
            (rw found at e) (transaction-Dense s ref tx d)
    ]
