-- ===== src/Parser/Explorer/Kept.antt =====
-- The transactions of a block leave the entries of blocks alone.
use monero_sci_parser.Base.{
  ℕ, ◌≡◌, refl, ap, ◌∙◌, Option, some, List, [], ◌∷◌, length, All, Bool-cases, inl, inr,
}
use monero_sci_parser.Text.{Str, to_string}
use monero_sci_parser.BloomFilter.{exists_c_string}
use monero_sci_parser.IdHashMapper.{RocksDb}
use monero_sci_parser.Parser.Records.{Transaction, Output, Input, Mixin, TxRef}
use monero_sci_parser.Parser.Store.{Store, push}
use monero_sci_parser.Parser.Process.{
  process_output, process_outputs, resolve_ring_id, process_mixin, process_mixins,
  process_key_image, process_input, process_inputs, process_transaction, process_txs,
}

-- `t` has the counter and the hashes of blocks that `s` has.
pub record IsKept (s t : Store) : Type 0 where
  pub last : t.ids.last_block_id ≡ s.ids.last_block_id
  pub hashes : t.block_hash_ids ≡ s.block_hash_ids

IsKept-trans : (s t u : Store) → IsKept s t → IsKept t u → IsKept s u
IsKept-trans s t u a b = record { last = b.last ∙ a.last; hashes = b.hashes ∙ a.hashes }

outputs-IsKept : (s : Store) (os : List Output) → IsKept s (process_outputs s os)
unfolding process_outputs process_output
outputs-IsKept s [] = record { last = refl; hashes = refl }
outputs-IsKept s (o ∷ os) =
    IsKept-trans s (process_output s o) (process_outputs (process_output s o) os)
      (record { last = refl; hashes = refl }) (outputs-IsKept (process_output s o) os)

module _ (db : RocksDb) (contents : db.Contents) (end_second : List (Str × ℕ) → Str → ℕ) where
  resolve-IsKept :
      (s : Store) (key : Str) → IsKept s (resolve_ring_id db contents end_second s key).0
  unfolding resolve_ring_id
  resolve-IsKept s key = elim (Bool-cases (exists_c_string s.bloom_filter key)) [
    | inl seen ↦ rw seen (record { last = refl; hashes = refl })
    | inr fresh ↦ rw fresh (record { last = refl; hashes = refl })
  ]

  mixin-IsKept : (s : Store) (m : Mixin) → IsKept s (process_mixin db contents end_second s m)
  unfolding process_mixin
  mixin-IsKept s m =
      let r = resolve-IsKept s m.mix_pub_key in record { last = r.last; hashes = r.hashes }

  mixins-IsKept :
      (s : Store) (ms : List Mixin) → IsKept s (process_mixins db contents end_second s ms)
  unfolding process_mixins
  mixins-IsKept s [] = record { last = refl; hashes = refl }
  mixins-IsKept s (m ∷ ms) =
      let t = process_mixin db contents end_second s m in
      IsKept-trans s t (process_mixins db contents end_second t ms) (mixin-IsKept s m)
        (mixins-IsKept t ms)

  input-IsKept : (s : Store) (i : Input) → IsKept s (process_input db contents end_second s i)
  unfolding process_input process_key_image
  input-IsKept s i =
      let r = mixins-IsKept (process_key_image db contents end_second s i) i.mixins in
      record { last = r.last; hashes = r.hashes }

  inputs-IsKept :
      (s : Store) (is : List Input) → IsKept s (process_inputs db contents end_second s is)
  unfolding process_inputs
  inputs-IsKept s [] = record { last = refl; hashes = refl }
  inputs-IsKept s (i ∷ is) =
      let t = process_input db contents end_second s i in
      IsKept-trans s t (process_inputs db contents end_second t is) (input-IsKept s i)
        (inputs-IsKept t is)

  transaction-IsKept :
      (s : Store) (ref : TxRef) (tx : Transaction)
      → IsKept s (process_transaction db contents end_second s ref tx)
  unfolding process_transaction
  transaction-IsKept s ref tx =
      let s1 : Store = record s {
        tx_hash_ids = push s.tx_hash_ids (tx.tx_hash, to_string s.ids.last_transaction_id);
      } in
      let outs = outputs-IsKept s1 tx.outputs in
      let ins = inputs-IsKept (process_outputs s1 tx.outputs) tx.inputs in
      record { last = ins.last ∙ outs.last; hashes = ins.hashes ∙ outs.hashes }

  each_tx-IsKept :
      (details : Str → Option Transaction) (refs : List TxRef) (s : Store)
      → All (λ (r : TxRef). (tx : Transaction) × (details r.tx_hash ≡ some tx)) refs
      → (t : Store) × (process_txs db contents end_second details (length refs) refs s ≡ some t)
        × IsKept s t
  unfolding process_txs
  each_tx-IsKept details [] s h = (s, refl, record { last = refl; hashes = refl })
  each_tx-IsKept details (ref ∷ refs) s ((tx, known), h) =
      let s1 = process_transaction db contents end_second s ref tx in
      let (t, rest, kept) = each_tx-IsKept details refs s1 h in
      (t, rw known rest, IsKept-trans s s1 t (transaction-IsKept s ref tx) kept)

  -- With an answer for every transaction, and as many as are counted, the loop over them ends.
  pub process_txs-IsKept :
      (details : Str → Option Transaction) (count : ℕ) (refs : List TxRef) (s : Store)
      → count ≡ length refs
      → All (λ (r : TxRef). (tx : Transaction) × (details r.tx_hash ≡ some tx)) refs
      → (t : Store) × (process_txs db contents end_second details count refs s ≡ some t)
        × IsKept s t
  process_txs-IsKept details count refs s counted h =
      let (t, done, kept) = each_tx-IsKept details refs s h in
      (t, ap (λ n. process_txs db contents end_second details n refs s) counted ∙ done, kept)
