-- ===== src/Parser/Ring.antt =====
-- The ids of ring members: how `xmrProcessor` finds the id that a public key already has, through
-- the Bloom filter, the map in memory and the data base.
pub mod Stable
use mathlib.Core.Option.{some-injective}
use monero_sci_parser.Base.{
  ℕ, ◌+◌, ◌<◌, ◌≡◌, ◌≢◌, ◌⊎◌, refl, ap, ◌∙◌, sym, Bool, true, false, Option, none, some, List, [],
  ◌∷◌, arith, if◌then◌else◌, ◌==◌, Bool-cases, inl, inr,
}
use monero_sci_parser.Text.{Str, null_text, str_eq, str_eq_iff, str_eq_refl, to_string, atoi}
use monero_sci_parser.Text.Decimal.{atoi-to_string, to_string-ne-null, to_string-ne-nil}
use monero_sci_parser.BloomFilter.{exists_c_string, add_c_string, c_string}
use monero_sci_parser.BloomFilter.Membership.Sizes.{
  make-IsValid, exists-clear, exists_c_string-add_self, exists_c_string-add_mono,
  add_c_string-IsValid,
}
use monero_sci_parser.BloomFilter.Membership.{IsValid}
use monero_sci_parser.IdHashMapper.{RocksDb, is_key_exist, is_key_exist-some, is_key_exist-none}
use monero_sci_parser.Parser.Records.{Mixin}
use monero_sci_parser.Parser.Store.{Store, find, assign, find-assign}
use monero_sci_parser.Parser.Process.{known_ring_id, resolve_ring_id, process_mixin, process_mixins}

-- What the parser's state says of the ids it has given: the filter knows their keys, they lie
-- between 1 and the counter, and no two keys share one.
pub record IsRing (s : Store) : Type 0 where
  pub filter : IsValid s.bloom_filter
  pub started : 0 < s.ids.last_ring_member_id
  pub seen :
      (k : Str) (n : ℕ) → find k s.rm_hash_ids ≡ some n → exists_c_string s.bloom_filter k ≡ true
  pub given :
      (k : Str) (n : ℕ) → find k s.rm_hash_ids ≡ some n → (0 < n) × (n < s.ids.last_ring_member_id)
  pub distinct :
      (j k : Str) (n : ℕ) → find j s.rm_hash_ids ≡ some n → find k s.rm_hash_ids ≡ some n → j ≡ k

module _ (db : RocksDb) (contents : db.Contents) (end_second : List (Str × ℕ) → Str → ℕ) where
  abbrev pub resolve : Store → Str → Store × ℕ
  resolve = resolve_ring_id db contents end_second

  pub fresh_store : Store → Str → Store
  fresh_store s key = record s {
    bloom_filter = add_c_string s.bloom_filter key;
    rm_hash_ids = assign key s.ids.last_ring_member_id s.rm_hash_ids;
    ids = record (s.ids) { last_ring_member_id = s.ids.last_ring_member_id + 1 };
  }

  pub resolve_fresh :
      (s : Store) (key : Str)
      → exists_c_string s.bloom_filter key ≡ false
      → resolve s key ≡ (fresh_store s key, s.ids.last_ring_member_id)
  unfolding resolve_ring_id fresh_store
  resolve_fresh s key e = rw e

  pub fresh-IsRing :
      (s : Store) (key : Str)
      → exists_c_string s.bloom_filter key ≡ false
      → IsRing s
      → IsRing (fresh_store s key)
  unfolding fresh_store
  fresh-IsRing s key e r =
      let last = s.ids.last_ring_member_id in
      record {
        filter = add_c_string-IsValid key r.filter;
        started = omega arith;
        seen = λ k n f. elim (Bool-cases (str_eq k key)) [
          | inl same ↦ rw ((str_eq_iff k key).0 same) (exists_c_string-add_self key r.filter)
          | inr other ↦
              exists_c_string-add_mono key k r.filter
                (r.seen k n (ground (arith, find-assign key k last s.rm_hash_ids)))
        ];
        given =
            λ k n f. ground (arith, find-assign key k last s.rm_hash_ids, r.given k n, r.started);
        distinct = λ j k n f g. ground (
          arith,
          find-assign key j last s.rm_hash_ids,
          find-assign key k last s.rm_hash_ids,
          str_eq_iff j key,
          str_eq_iff k key,
          r.distinct j k n,
          r.given j n,
          r.given k n,
        );
      }

  -- Resolving a key keeps the state consistent: the filter is well formed and knows all keys in
  -- memory, their ids lie between 1 and the counter, and no two of them share one.
  pub resolve-IsRing : (s : Store) (key : Str) → IsRing s → IsRing (resolve s key).0
  resolve-IsRing s key r = elim (Bool-cases (exists_c_string s.bloom_filter key)) [
    | inl known ↦ unfold resolve_ring_id in rw known r
    | inr fresh ↦ rw (resolve_fresh s key fresh) (fresh-IsRing s key fresh r)
  ]

  known_in_memory :
      (rm : List (Str × ℕ)) (last n : ℕ) (key : Str)
      → 0 < n
      → find key rm ≡ some n
      → known_ring_id db contents end_second rm last key ≡ n
  unfolding known_ring_id
  known_in_memory rm last n key positive there = ground arith

  known_stored :
      (rm : List (Str × ℕ)) (last n : ℕ) (key : Str)
      → 0 < n
      → find key rm ≡ none
      → end_second rm key ≡ 0
      → db.get contents key ≡ some (to_string n)
      → known_ring_id db contents end_second rm last key ≡ n
  unfolding known_ring_id
  known_stored rm last n key positive gone undefined stored = ground (
    arith,
    is_key_exist-some db contents key (to_string n) (to_string-ne-nil n positive) stored,
    to_string-ne-null n,
    atoi-to_string n,
  )

  -- A key that is in the data base only.
  pub known_stored_any :
      (rm : List (Str × ℕ)) (last n : ℕ) (key : Str)
      → 0 < n
      → find key rm ≡ none
      → db.get contents key ≡ some (to_string n)
      → known_ring_id db contents end_second rm last key
        ≡ (if end_second rm key == 0 then n else end_second rm key)
  unfolding known_ring_id
  known_stored_any rm last n key positive gone stored = ground (
    arith,
    is_key_exist-some db contents key (to_string n) (to_string-ne-nil n positive) stored,
    to_string-ne-null n,
    atoi-to_string n,
  )

  pub known_nowhere :
      (rm : List (Str × ℕ)) (last : ℕ) (key : Str)
      → find key rm ≡ none
      → db.get contents key ≡ none
      → known_ring_id db contents end_second rm last key
        ≡ (if end_second rm key == 0 then last else end_second rm key)
  unfolding known_ring_id
  known_nowhere rm last key gone missing =
      ground (arith, is_key_exist-none db contents key missing, str_eq_refl null_text)

  pub resolve_known :
      (s : Store) (key : Str) (n : ℕ)
      → exists_c_string s.bloom_filter key ≡ true
      → known_ring_id db contents end_second s.rm_hash_ids s.ids.last_ring_member_id key ≡ n
      → resolve s key ≡ (s, n)
  unfolding resolve_ring_id
  resolve_known s key n seen e = rw (seen, e)

  -- A key whose id is in memory, or in the data base and no longer in memory, gets that id, and
  -- nothing changes. (`end_second` is what a lookup in the map gives for a key that is not there.)
  pub resolve-eq-known :
      (s : Store) (key : Str) (n : ℕ)
      → exists_c_string s.bloom_filter key ≡ true
      → 0 < n
      → (find key s.rm_hash_ids ≡ some n)
        ⊎ ((find key s.rm_hash_ids ≡ none)
            × (end_second s.rm_hash_ids key ≡ 0)
            × (db.get contents key ≡ some (to_string n)))
      → resolve s key ≡ (s, n)
  resolve-eq-known s key n seen positive (inl there) =
      resolve_known s key n seen (known_in_memory s.rm_hash_ids _ n key positive there)
  resolve-eq-known s key n seen positive (inr (gone, undefined, stored)) =
      resolve_known s key n seen (known_stored s.rm_hash_ids _ n key positive gone undefined stored)
