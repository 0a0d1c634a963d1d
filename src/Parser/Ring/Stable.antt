-- ===== src/Parser/Ring/Stable.antt =====
-- How long an id of a ring member holds, and where two keys share one.
use monero_sci_parser.Base.{
  ℕ, ◌≡◌, refl, ap, ◌∙◌, false, some, List, [], ◌∷◌, arith, Bool-cases, inl, inr,
}
use monero_sci_parser.Text.{Str, str_eq_iff, str_eq_refl}
use monero_sci_parser.BloomFilter.{exists_c_string}
use monero_sci_parser.IdHashMapper.{RocksDb}
use monero_sci_parser.Parser.Records.{Mixin}
use monero_sci_parser.Parser.Store.{Store, find, find-assign}
use monero_sci_parser.Parser.Process.{resolve_ring_id, process_mixin, process_mixins}
use monero_sci_parser.Parser.Ring.{
  IsRing, resolve, fresh_store, resolve_fresh, fresh-IsRing, resolve-IsRing, resolve-eq-known,
}

module _ (db : RocksDb) (contents : db.Contents) (end_second : List (Str × ℕ) → Str → ℕ) where
  -- An id in memory is not lost or changed while more ring members are processed.
  find-resolve :
      (s : Store) (key other : Str) (n : ℕ)
      → IsRing s
      → find key s.rm_hash_ids ≡ some n
      → find key (resolve db contents end_second s other).0.rm_hash_ids ≡ some n
  find-resolve s key other n r there = elim (Bool-cases (exists_c_string s.bloom_filter other)) [
    | inl known ↦ unfold resolve_ring_id in rw known there
    | inr fresh ↦ rw (resolve_fresh db contents end_second s other fresh) (
        unfold fresh_store in
        ground (
          arith,
          find-assign other key s.ids.last_ring_member_id s.rm_hash_ids,
          str_eq_iff key other,
          r.seen key n,
          ap (exists_c_string s.bloom_filter) {x = key} {y = other},
        ))
  ]

  mixin-rm :
      (s : Store) (m : Mixin)
      → (process_mixin db contents end_second s m).rm_hash_ids
        ≡ (resolve db contents end_second s m.mix_pub_key).0.rm_hash_ids
  unfolding process_mixin
  mixin-rm s m = refl

  mixin-IsRing :
      (s : Store) (m : Mixin) → IsRing s → IsRing (process_mixin db contents end_second s m)
  unfolding process_mixin
  mixin-IsRing s m r =
      let q = resolve-IsRing db contents end_second s m.mix_pub_key r in
      record {
        filter = q.filter;
        started = q.started;
        seen = q.seen;
        given = q.given;
        distinct = q.distinct;
      }

  mixins-IsRing :
      (s : Store) (ms : List Mixin) → IsRing s → IsRing (process_mixins db contents end_second s ms)
  unfolding process_mixins
  mixins-IsRing s [] r = r
  mixins-IsRing s (m ∷ ms) r =
      mixins-IsRing (process_mixin db contents end_second s m) ms (mixin-IsRing s m r)

  find-process_mixins :
      (s : Store) (ms : List Mixin) (key : Str) (n : ℕ)
      → IsRing s
      → find key s.rm_hash_ids ≡ some n
      → find key (process_mixins db contents end_second s ms).rm_hash_ids ≡ some n
  unfolding process_mixins
  find-process_mixins s [] key n r there = there
  find-process_mixins s (m ∷ ms) key n r there =
      find-process_mixins (process_mixin db contents end_second s m) ms key n (mixin-IsRing s m r)
        (ap (find key) (mixin-rm s m) ∙ find-resolve s key m.mix_pub_key n r there)

  -- In a consistent state a key that the filter does not know gets the id of the counter, and it
  -- gets the same id again after any further ring members, as long as the map is not emptied.
  pub resolve_stable :
      (s : Store) (key : Str) (ms : List Mixin)
      → IsRing s
      → exists_c_string s.bloom_filter key ≡ false
      → ((resolve db contents end_second s key).1 ≡ s.ids.last_ring_member_id)
        × ((resolve db contents end_second
              (process_mixins db contents end_second (resolve db contents end_second s key).0 ms)
              key).1
            ≡ s.ids.last_ring_member_id)
  resolve_stable s key ms r fresh =
      let last = s.ids.last_ring_member_id in
      let t = fresh_store db contents end_second s key in
      let u = process_mixins db contents end_second t ms in
      let q : IsRing t = fresh-IsRing db contents end_second s key fresh r in
      let stored : find key t.rm_hash_ids ≡ some last =
        unfold fresh_store in rw (find-assign key key last s.rm_hash_ids, str_eq_refl key) refl in
      let there : find key u.rm_hash_ids ≡ some last = find-process_mixins t ms key last q stored in
      let known : resolve db contents end_second u key ≡ (u, last) =
        resolve-eq-known db contents end_second u key last
          ((mixins-IsRing t ms q).seen key last there) r.started (inl there) in
      rw (resolve_fresh db contents end_second s key fresh) (refl, ap (λ p. p.1) known)
