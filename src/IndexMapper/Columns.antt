-- ===== src/IndexMapper/Columns.antt =====
-- The rows of the index tables as the parser means them: the parser queues a vector of ids in one
-- order and the insert binds them in another.
use mathlib.Core.List.{append-nil, append_assoc}
use monero_sci_parser.Base.{
  ℕ, ◌+◌, ◌≡◌, refl, ap, ◌∙◌, sym, Option, none, some, List, [], ◌∷◌, ◌++◌, map, ◌>>=◌, Bool-cases,
  Option-cases, inl, inr,
}
use monero_sci_parser.Text.{Str}
use monero_sci_parser.BloomFilter.{exists_c_string}
use monero_sci_parser.IdHashMapper.{RocksDb}
use monero_sci_parser.Parser.Records.{Output, Mixin}
use monero_sci_parser.Parser.Ids.{Ids}
use monero_sci_parser.Parser.Store.{Store, push}
use monero_sci_parser.Parser.Process.{
  process_output, process_outputs, process_mixin, process_mixins, resolve_ring_id,
}
use monero_sci_parser.IndexMapper.{bind_all}
use monero_sci_parser.IndexMapper.Rows.{Row, bind_int, sa_index_row, rm_index_row}

-- A row of SA_INDEX by its columns.
pub record SaIndex : Type 0 where
  pub data_id : ℕ
  pub block_id : ℕ
  pub tx_id : ℕ
  pub hash_id : ℕ

abbrev pub sa_index_columns : SaIndex → Row
sa_index_columns c =
    bind_int c.data_id ∷ bind_int c.block_id ∷ bind_int c.tx_id ∷ bind_int c.hash_id ∷ []

-- What the outputs of a transaction should give: consecutive data ids and address ids, under the
-- block and the transaction.
pub sa_index_of : (ids : Ids) → List Output → List SaIndex
sa_index_of ids [] = []
sa_index_of ids (o ∷ os) =
    record {
      data_id = ids.last_output_id;
      block_id = ids.last_block_id;
      tx_id = ids.last_transaction_id;
      hash_id = ids.last_stealth_address_id;
    }
    ∷ sa_index_of
        (record ids {
          last_output_id = ids.last_output_id + 1;
          last_stealth_address_id = ids.last_stealth_address_id + 1;
        })
        os

regroup :
    (a : Option Row) (b : Option (List Row)) (c : Option Row)
    → (a >>= λ r. (b >>= λ rs. c >>= λ l. some (rs ++ l ∷ [])) >>= λ rs. some (r ∷ rs))
      ≡ ((a >>= λ r. b >>= λ rs. some (r ∷ rs)) >>= λ rs. c >>= λ l. some (rs ++ l ∷ []))
regroup none b c = refl
regroup (some r) none c = refl
regroup (some r) (some rs) none = refl
regroup (some r) (some rs) (some l) = refl

bind_all-push {ℓ} :
    {A : Type ℓ} (row : A → Option Row) (xs : List A) (y : A)
    → bind_all row (push xs y) ≡ (bind_all row xs >>= λ rs. row y >>= λ l. some (rs ++ l ∷ []))
unfolding bind_all
bind_all-push row [] y = elim (Option-cases (row y)) [
  | inl missing ↦ rw missing
  | inr (l, e) ↦ rw e
]
bind_all-push row (x ∷ xs) y =
    ap (λ t. row x >>= λ r. t >>= λ rs. some (r ∷ rs)) (bind_all-push row xs y)
    ∙ regroup (row x) (bind_all row xs) (row y)

-- One more entry gives one more row.
bind_all-more {ℓ} :
    {A : Type ℓ} (row : A → Option Row) (xs : List A) (y : A) (rs : List Row) (l : Row)
    → bind_all row xs ≡ some rs
    → row y ≡ some l
    → bind_all row (push xs y) ≡ some (rs ++ l ∷ [])
bind_all-more row xs y rs l e f = rw (bind_all-push row xs y, e, f)

-- After the outputs of a transaction, the rows that `insertSAIndex` binds are those bound before
-- and, for each output in order, one with its own consecutive DATA_ID and HASH_ID and the ids of
-- the block and the transaction in their columns.
pub process_outputs-sa_index :
    (s : Store) (os : List Output) (rows : List Row)
    → bind_all sa_index_row s.output_index_of_stealth_addresses ≡ some rows
    → bind_all sa_index_row (process_outputs s os).output_index_of_stealth_addresses
      ≡ some (rows ++ map sa_index_columns (sa_index_of s.ids os))
unfolding process_outputs process_output sa_index_of sa_index_row
process_outputs-sa_index s [] rows e = e ∙ ap some (sym (append-nil rows))
process_outputs-sa_index s (o ∷ os) rows e =
    process_outputs-sa_index (process_output s o) os _
      (bind_all-more sa_index_row s.output_index_of_stealth_addresses _ rows _ e refl)
    ∙ ap some (append_assoc rows _ _)

-- A row of RM_INDEX by its columns.
pub record RmIndex : Type 0 where
  pub data_id : ℕ
  pub block_id : ℕ
  pub tx_id : ℕ
  pub key_image : ℕ
  pub hash_id : ℕ

abbrev pub rm_index_columns : RmIndex → Row
rm_index_columns c =
    bind_int c.data_id
    ∷ bind_int c.block_id
    ∷ bind_int c.tx_id
    ∷ bind_int c.key_image
    ∷ bind_int c.hash_id
    ∷ []

module _ (db : RocksDb) (contents : db.Contents) (end_second : List (Str × ℕ) → Str → ℕ) where
  -- What the ring members of an input should give: consecutive data ids under the block, the
  -- transaction and the key image, with the id that each key is resolved to in turn.
  pub rm_index_of : Store → List Mixin → List RmIndex
  rm_index_of s [] = []
  rm_index_of s (m ∷ ms) =
      record {
        data_id = s.ids.last_input_id;
        block_id = s.ids.last_block_id;
        tx_id = s.ids.last_transaction_id;
        key_image = s.ids.last_key_image_id;
        hash_id = (resolve_ring_id db contents end_second s m.mix_pub_key).1;
      }
      ∷ rm_index_of (process_mixin db contents end_second s m) ms

  resolve-frame :
      (s : Store) (key : Str)
      → let t = (resolve_ring_id db contents end_second s key).0 in
        (t.output_index_of_ring_members ≡ s.output_index_of_ring_members)
        × (t.ids.last_input_id ≡ s.ids.last_input_id)
        × (t.ids.last_block_id ≡ s.ids.last_block_id)
        × (t.ids.last_transaction_id ≡ s.ids.last_transaction_id)
        × (t.ids.last_key_image_id ≡ s.ids.last_key_image_id)
  unfolding resolve_ring_id
  resolve-frame s key = elim (Bool-cases (exists_c_string s.bloom_filter key)) [
    | inl seen ↦ rw seen (refl, refl, refl, refl, refl)
    | inr fresh ↦ rw fresh (refl, refl, refl, refl, refl)
  ]

  one_row :
      (s : Store) (m : Mixin) (rows : List Row)
      → bind_all rm_index_row s.output_index_of_ring_members ≡ some rows
      → bind_all rm_index_row
          (process_mixin db contents end_second s m).output_index_of_ring_members
        ≡ some (
            rows
            ++ rm_index_columns (record {
              data_id = s.ids.last_input_id;
              block_id = s.ids.last_block_id;
              tx_id = s.ids.last_transaction_id;
              key_image = s.ids.last_key_image_id;
              hash_id = (resolve_ring_id db contents end_second s m.mix_pub_key).1;
            })
              ∷ [])
  unfolding process_mixin rm_index_row
  one_row s m rows e =
      let f = resolve-frame s m.mix_pub_key in
      rw (f.0, f.1, f.2, f.3, f.4)
        (bind_all-more rm_index_row s.output_index_of_ring_members _ rows _ e refl)

  -- After the ring members of an input, the rows that `insertRMIndex` binds are those bound before
  -- and, for each ring member in order, one with its own consecutive DATA_ID, the ids of the block,
  -- the transaction and the key image in their columns, and its resolved id as HASH_ID.
  pub process_mixins-rm_index :
      (s : Store) (ms : List Mixin) (rows : List Row)
      → bind_all rm_index_row s.output_index_of_ring_members ≡ some rows
      → bind_all rm_index_row
          (process_mixins db contents end_second s ms).output_index_of_ring_members
        ≡ some (rows ++ map rm_index_columns (rm_index_of s ms))
  unfolding process_mixins rm_index_of
  process_mixins-rm_index s [] rows e = e ∙ ap some (sym (append-nil rows))
  process_mixins-rm_index s (m ∷ ms) rows e =
      process_mixins-rm_index (process_mixin db contents end_second s m) ms _ (one_row s m rows e)
      ∙ ap some (append_assoc rows _ _)
