-- ===== src/IdHashMapper.antt =====
-- src/idhashmapper.h: the map from texts to texts that the parser keeps in RocksDB. The data base
-- itself is a parameter; making the directory, opening and closing are not modelled.
use monero_sci_parser.Base.{◌≡◌, ◌≢◌, refl, Bool, true, Option, none, some, [], ◌∷◌}
use monero_sci_parser.Text.{Str, null_text}

-- RocksDB: `put` and `delete` give the new contents and whether the status is ok; `get` gives the
-- value, or `none` where the status is not ok, which a missing key is.
pub record RocksDb : Type 1 where
  pub Contents : Type 0
  pub put : Contents → Str → Str → Contents × Bool
  pub get : Contents → Str → Option Str
  pub delete : Contents → Str → Contents × Bool

-- What RocksDB documents of a read after a write that succeeded.
pub record IsStore (db : RocksDb) : Type 0 where
  pub get-put_self :
      (c : db.Contents) (k v : Str) → (db.put c k v).1 ≡ true → db.get (db.put c k v).0 k ≡ some v
  pub get-put_ne :
      (c : db.Contents) (k j v : Str)
      → (db.put c k v).1 ≡ true
      → k ≢ j
      → db.get (db.put c k v).0 j ≡ db.get c j

-- `if (value.empty()) value = "null"`
pub null_if_empty : Str → Str
null_if_empty [] = null_text
null_if_empty (x ∷ xs) = x ∷ xs

module _ (db : RocksDb) where
  -- `insertKey`; a bad status is only printed.
  unfoldable pub insert_key : db.Contents → Str → Str → db.Contents
  insert_key c key value = (db.put c key value).0

  -- `getValueFromKey`
  unfoldable pub get_value_from_key : db.Contents → Str → Str
  get_value_from_key c key = elim (db.get c key) [ none ↦ null_text | some value ↦ value ]

  -- `deleteFromKey`
  unfoldable pub delete_from_key : db.Contents → Str → db.Contents
  delete_from_key c key = (db.delete c key).0

  -- `isKeyExist`; the value stays empty where there is none.
  unfoldable pub is_key_exist : db.Contents → Str → Str
  unfolding null_if_empty
  is_key_exist c key = elim (db.get c key) [ none ↦ null_text | some value ↦ null_if_empty value ]

module _ (db : RocksDb) (laws : IsStore db) (c : db.Contents) (k v : Str)
    (stored : (db.put c k v).1 ≡ true) where
  pub get_value_from_key-insert_key_self : get_value_from_key db (insert_key db c k v) k ≡ v
  unfolding get_value_from_key insert_key
  get_value_from_key-insert_key_self = rw (laws.get-put_self c k v stored, get_value_from_key)

  pub get_value_from_key-insert_key_ne :
      (j : Str) → k ≢ j → get_value_from_key db (insert_key db c k v) j ≡ get_value_from_key db c j
  unfolding get_value_from_key insert_key
  get_value_from_key-insert_key_ne j ne = rw (laws.get-put_ne c k j v stored ne, get_value_from_key)

null_if_empty_lem : (v : Str) → v ≢ [] → null_if_empty v ≡ v
unfolding null_if_empty
null_if_empty_lem [] h = absurd (h refl)
null_if_empty_lem (x ∷ xs) h = refl

module _ (db : RocksDb) (c : db.Contents) (k : Str) where
  -- A value that is not empty is what `isKeyExist` answers, and a missing key is "null".
  pub is_key_exist-some : (v : Str) → v ≢ [] → db.get c k ≡ some v → is_key_exist db c k ≡ v
  is_key_exist-some v h e = unfold is_key_exist in rw (e, is_key_exist) (null_if_empty_lem v h)

  pub is_key_exist-none : db.get c k ≡ none → is_key_exist db c k ≡ null_text
  is_key_exist-none e = unfold is_key_exist in rw (e, is_key_exist)
