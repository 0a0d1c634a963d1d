-- ===== src/Parser/Ids.antt =====
-- The counters of the parser and their storage between runs, in the store "lastIds". An `int` is a
-- number that is not negative; that it stays below 2 ^ 31 is not modelled.
use monero_sci_parser.Base.{ℕ, ◌≡◌, inl, inr, Bool-cases, Bool, true, false, arith, if◌then◌else◌}
use monero_sci_parser.Text.{Str, codes, null_text, str_eq, str_eq_iff, to_string, atoi}
use monero_sci_parser.Text.Decimal.{atoi-to_string, to_string-ne-null}
use monero_sci_parser.IdHashMapper.{
  RocksDb, IsStore, insert_key, get_value_from_key, get_value_from_key-insert_key_self,
  get_value_from_key-insert_key_ne,
}

-- The counters `lastBlockId` to `lastRingMemberId`.
pub record Ids : Type 0 where
  pub last_block_id : ℕ
  pub last_transaction_id : ℕ
  pub last_key_image_id : ℕ
  pub last_stealth_address_id : ℕ
  pub last_output_id : ℕ
  pub last_input_id : ℕ
  pub last_ring_member_id : ℕ

-- The keys of the store.
pub data IdKey : Type 0 where
  block_id transaction_id key_image_id stealth_address_id : IdKey
  output_id input_id ring_member_id block_height : IdKey

unfoldable pub key_text : IdKey → Str
key_text block_id = codes "lastBlockId"
key_text transaction_id = codes "lastTransactionId"
key_text key_image_id = codes "lastKeyImageId"
key_text stealth_address_id = codes "lastStealthAddressId"
key_text output_id = codes "lastOutputId"
key_text input_id = codes "lastInputId"
key_text ring_member_id = codes "lastRingMemberId"
key_text block_height = codes "lastBlockHeight"

-- `last_id == "null" ? 1 : atoi(last_id)`, the test of `getLastIdList`
pub id_of_text : Str → ℕ
id_of_text text = if str_eq text null_text then 1 else atoi text

module _ (db : RocksDb) where
  -- `storeLastBlockId` to `storeLastInputId` and `storeLastSavedBlockHeight`
  unfoldable pub store_last : IdKey → db.Contents → ℕ → db.Contents
  store_last key c id = insert_key db c (key_text key) (to_string id)

  -- `getLastBlockId` to `getLastInputId`
  unfoldable pub get_last : IdKey → db.Contents → Str
  get_last key c = get_value_from_key db c (key_text key)

  -- `getLastSavedBlockHeight`: the height, and whether `isFromBegining` is set.
  unfoldable pub get_last_saved_block_height : db.Contents → Bool → Str × Bool
  unfolding get_last
  get_last_saved_block_height c is_from_begining =
      let height = get_last block_height c in
      if str_eq height null_text then (codes "0", true) else (height, is_from_begining)

  -- `getLastIdList`
  unfoldable pub get_last_id_list : db.Contents → Ids
  get_last_id_list c = record {
    last_block_id = id_of_text (get_last block_id c);
    last_transaction_id = id_of_text (get_last transaction_id c);
    last_key_image_id = id_of_text (get_last key_image_id c);
    last_stealth_address_id = id_of_text (get_last stealth_address_id c);
    last_output_id = id_of_text (get_last output_id c);
    last_input_id = id_of_text (get_last input_id c);
    last_ring_member_id = id_of_text (get_last ring_member_id c);
  }

  -- `storeLastIdList`
  unfoldable pub store_last_id_list : db.Contents → Ids → db.Contents
  store_last_id_list c ids =
      let c1 = store_last block_id c ids.last_block_id in
      let c2 = store_last transaction_id c1 ids.last_transaction_id in
      let c3 = store_last stealth_address_id c2 ids.last_stealth_address_id in
      let c4 = store_last output_id c3 ids.last_output_id in
      let c5 = store_last key_image_id c4 ids.last_key_image_id in
      let c6 = store_last ring_member_id c5 ids.last_ring_member_id in
      store_last input_id c6 ids.last_input_id

  module _ (laws : IsStore db)
      (writes : (c : db.Contents) (k v : Str) → (db.put c k v).1 ≡ true) where
    get_last-store_last :
        (k j : IdKey) (c : db.Contents) (id : ℕ)
        → str_eq (key_text k) (key_text j) ≡ false
        → get_last j (store_last k c id) ≡ get_last j c
    unfolding get_last store_last
    get_last-store_last k j c id ne =
        get_value_from_key-insert_key_ne db laws c (key_text k) (to_string id) (writes _ _ _)
          (key_text j) (λ e. ground (arith, str_eq_iff (key_text k) (key_text j)))

    id_of_text-store_last :
        (k j : IdKey) (c : db.Contents) (id : ℕ)
        → key_text k ≡ key_text j
        → id_of_text (get_last j (store_last k c id)) ≡ id
    unfolding id_of_text get_last store_last
    id_of_text-store_last k j c id same =
        rw
          (
            ← same,
            get_value_from_key-insert_key_self db laws c (key_text k) (to_string id) (writes _ _ _),
            to_string-ne-null id,
          )
          (atoi-to_string id)

    -- A stored counter is read back, and no other one changes.
    abbrev pub id_at : IdKey → db.Contents → ℕ
    id_at key c = id_of_text (get_last key c)

    pub id_at-store_last :
        (k j : IdKey) (c : db.Contents) (id : ℕ)
        → id_at j (store_last k c id) ≡ (if str_eq (key_text k) (key_text j) then id else id_at j c)
    id_at-store_last k j c id = elim (Bool-cases (str_eq (key_text k) (key_text j))) [
      | inl same ↦
          rw same (id_of_text-store_last k j c id ((str_eq_iff (key_text k) (key_text j)).0 same))
      | inr other ↦ rw (other, get_last-store_last k j c id other)
    ]

    -- If every write to the store succeeds, the counters of one run are those that the next run
    -- starts from, whatever was stored before.
    pub get_last_id_list-store_last_id_list :
        (c : db.Contents) (ids : Ids) → get_last_id_list (store_last_id_list c ids) ≡ ids
    unfolding get_last_id_list store_last_id_list key_text str_eq
    get_last_id_list-store_last_id_list c ids = simp id_at-store_last
