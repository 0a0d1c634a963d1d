-- ===== src/Parser/Drain.antt =====
-- `runRMIdHashMappingThread` of src/parser.h on the map that `xmrProcessor` reads: it takes an entry
-- out of the map under the mutex, and stores it in RocksDB afterwards.
use monero_sci_parser.Base.{
  ℕ, ◌<◌, ◌≡◌, ◌==◌, if◌then◌else◌, refl, ap, sym, true, Option, none, some, List, [], ◌∷◌,
}
use mathlib.Core.Option.{some-injective}
use monero_sci_parser.Text.{Str, str_eq_refl, to_string}
use monero_sci_parser.BloomFilter.{exists_c_string}
use monero_sci_parser.IdHashMapper.{RocksDb, IsStore, insert_key}
use monero_sci_parser.Parser.Store.{Store, find}
use monero_sci_parser.Parser.Process.{resolve_ring_id}
use monero_sci_parser.Parser.Ring.{IsRing, resolve_known, known_nowhere, known_stored_any}

-- `begin()` of the map, and the map without it.
unfoldable pub take_first : List (Str × ℕ) → Store → Option ((Str × ℕ) × Store)
take_first [] s = none
take_first (entry ∷ rest) s = some (entry, record s { rm_hash_ids = rest })

unfoldable pub drain_take : Store → Option ((Str × ℕ) × Store)
unfolding take_first
drain_take s = take_first s.rm_hash_ids s

-- `insertKey` of the entry that was taken.
unfoldable pub drain_put : (db : RocksDb) → db.Contents → Str × ℕ → db.Contents
drain_put db contents (rm_hash, last_rm_id) = insert_key db contents rm_hash (to_string last_rm_id)

record IsTaken (s t : Store) (k : Str) (n : ℕ) : Type 0 where
  was : find k s.rm_hash_ids ≡ some n
  filter : t.bloom_filter ≡ s.bloom_filter
  counter : t.ids ≡ s.ids

first-IsTaken :
    (rm : List (Str × ℕ)) (s t : Store) (k : Str) (n : ℕ)
    → s.rm_hash_ids ≡ rm
    → take_first rm s ≡ some ((k, n), t)
    → IsTaken s t k n
unfolding take_first find
first-IsTaken [] s t k n same e =
    absurd (let bad : ◌≡◌ {A = Option ((Str × ℕ) × Store)} none (some ((k, n), t)) = e in (cc))
first-IsTaken (entry ∷ rest) s t k n same e =
    let both : (entry, record s { rm_hash_ids = rest }) ≡ ((k, n), t) = some-injective _ _ e in
    let first : entry ≡ (k, n) = ap (λ p. p.0) both in
    let after : record s { rm_hash_ids = rest } ≡ t = ap (λ p. p.1) both in
    record {
      was = rw (same, first, find, str_eq_refl k) refl;
      filter = sym (ap (λ u. u.bloom_filter) after);
      counter = sym (ap (λ u. u.ids) after);
    }

module _ (db : RocksDb) (laws : IsStore db) (contents : db.Contents)
    (end_second : List (Str × ℕ) → Str → ℕ) where
  -- If an entry is taken from the map of a consistent state and its key is then neither in the map
  -- nor in RocksDB, the key is given what the source reads at the end of the map (`end_second`,
  -- undefined in C++), or, where that is 0, the id of the counter, which is above its own. Once the
  -- entry is stored, by a write that succeeds, the key is given its own id again where the read is 0.
  pub resolve-drain_take :
      (s t : Store) (k : Str) (n : ℕ)
      → IsRing s
      → drain_take s ≡ some ((k, n), t)
      → find k t.rm_hash_ids ≡ none
      → db.get contents k ≡ none
      → (db.put contents k (to_string n)).1 ≡ true
      → let last = t.ids.last_ring_member_id in
        let read = end_second t.rm_hash_ids k in
        (n < last)
        × ((resolve_ring_id db contents end_second t k).1 ≡ (if read == 0 then last else read))
        × ((resolve_ring_id db (drain_put db contents (k, n)) end_second t k).1
            ≡ (if read == 0 then n else read))
  unfolding drain_put insert_key drain_take
  resolve-drain_take s t k n r taken gone missing stored =
      let e : IsTaken s t k n = first-IsTaken s.rm_hash_ids s t k n refl taken in
      let seen : exists_c_string t.bloom_filter k ≡ true = rw e.filter (r.seen k n e.was) in
      let own : (0 < n) × (n < s.ids.last_ring_member_id) = r.given k n e.was in
      let put = laws.get-put_self contents k (to_string n) stored in
      let after = drain_put db contents (k, n) in
      (
        rw e.counter own.1,
        ap (λ p. p.1)
            (resolve_known db contents end_second t k _ seen
              (known_nowhere db contents end_second t.rm_hash_ids _ k gone missing)),
        ap (λ p. p.1)
            (resolve_known db after end_second t k _ seen
              (known_stored_any db after end_second t.rm_hash_ids _ n k own.0 gone put)),
      )
