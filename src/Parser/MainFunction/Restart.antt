-- ===== src/Parser/MainFunction/Restart.antt =====
-- What main.cpp stores at the end of a run, `storeLastSavedBlockHeight`, and what the next run reads.
use monero_sci_parser.Base.{ℕ, ◌+◌, ◌≡◌, refl, Bool, true, none, some, leb, if◌then◌else◌}
use monero_sci_parser.Text.{Str, str_eq, to_string}
use monero_sci_parser.Text.Decimal.{atoi-to_string, to_string-ne-null}
use monero_sci_parser.IdHashMapper.{RocksDb, IsStore, get_value_from_key-insert_key_self}
use monero_sci_parser.Parser.Ids.{
  block_height, key_text, get_last, store_last, get_last_saved_block_height, get_last_id_list,
  id_at-store_last,
}
use monero_sci_parser.Parser.MainFunction.{block_range}

module _ (db : RocksDb) (laws : IsStore db)
    (writes : (c : db.Contents) (k v : Str) → (db.put c k v).1 ≡ true) where
  read_height :
      (c : db.Contents) (n : ℕ)
      → get_last db block_height (store_last db block_height c n) ≡ to_string n
  unfolding get_last store_last
  read_height c n =
      get_value_from_key-insert_key_self db laws c (key_text block_height) (to_string n)
        (writes _ _ _)

  -- If every write to the store succeeds, the run after one that stored the height `n` is not taken
  -- for the first one, starts at block `n + 1` or ends at once where that is the last block or
  -- behind it, and loads the counters that were stored before the height.
  pub block_range-store_last :
      (c : db.Contents) (n end_block_height : ℕ) (is_from_begining : Bool)
      → let d = store_last db block_height c n in
        let read = get_last_saved_block_height db d is_from_begining in
        (block_range read.0 end_block_height
          ≡ (if leb end_block_height (n + 1) then none else some (n + 1, end_block_height)))
        × (read.1 ≡ is_from_begining)
        × (get_last_id_list db d ≡ get_last_id_list db c)
  unfolding get_last_saved_block_height block_range get_last_id_list key_text str_eq
  block_range-store_last c n end_block_height is_from_begining = (
    rw (read_height c n, to_string-ne-null n, atoi-to_string n) refl,
    rw (read_height c n, to_string-ne-null n) refl,
    simp (id_at-store_last db laws writes),
  )
