-- ===== src/Examples/Filter.antt =====
-- The results on the fingerprint and the Bloom filter, on concrete inputs.
use monero_sci_parser.Base.{
  none, ℕ, ◌≡◌, ◌≢◌, refl, true, false, some, List, [], ◌∷◌, ◌++◌, arith, u64,
}
use monero_sci_parser.HashFn.{make_hash_fn, hash_of, roll_hash}
use monero_sci_parser.HashFn.Roll.{
  fingerprint, hash_of-eq-fingerprint, roll_hash-hash_of, roll_hash-ne-hash_of,
}
use monero_sci_parser.BloomFilter.{make, exists, substring_exists}
use monero_sci_parser.BloomFilter.Membership.Sizes.{make-IsValid}
use monero_sci_parser.BloomFilter.Membership.{IsValid, add_all, exists-add_all}
use monero_sci_parser.BloomFilter.Substring.{window_exists, substring_exists-window_exists}
use monero_sci_parser.Examples.{example_filter}

abbrev words : List ℕ
words = 109 ∷ 111 ∷ 110 ∷ []

hash_of-eq-fingerprint_example : hash_of (make_hash_fn 31 true) words ≡ u64 (fingerprint 31 words)
hash_of-eq-fingerprint_example = hash_of-eq-fingerprint 31 true words

roll_hash-hash_of_example :
    roll_hash
      (make_hash_fn 31 true)
      (111 ∷ 110 ∷ [])
      109
      (hash_of (make_hash_fn 31 true) (109 ∷ 111 ∷ []))
    ≡ some (hash_of (make_hash_fn 31 true) (111 ∷ 110 ∷ []))
roll_hash-hash_of_example = roll_hash-hash_of 31 true 109 (111 ∷ []) 110 (omega arith)

roll_hash-ne-hash_of_example :
    roll_hash
      (make_hash_fn 31 true)
      (111 ∷ 110 ∷ [])
      195
      (hash_of (make_hash_fn 31 true) (195 ∷ 111 ∷ []))
    ≢ some (hash_of (make_hash_fn 31 true) (111 ∷ 110 ∷ []))
roll_hash-ne-hash_of_example =
    roll_hash-ne-hash_of 31 true 195 (111 ∷ []) 110 (omega arith) (omega arith) refl

abbrev example_filter-IsValid : IsValid example_filter
example_filter-IsValid = make-IsValid 8 16 (make_hash_fn 31 false ∷ []) (omega arith)

exists-add_all_example :
    exists (add_all example_filter ((1 ∷ []) ∷ [] ++ words ∷ (2 ∷ []) ∷ [])) words ≡ true
exists-add_all_example =
    exists-add_all example_filter ((1 ∷ []) ∷ []) words ((2 ∷ []) ∷ []) example_filter-IsValid

substring_exists-window_exists_example :
    (l : List ℕ) × (substring_exists example_filter words 2
      ≡ some (
        record example_filter { last_hashes = l },
        window_exists 2 2 (exists example_filter) words,
      ))
unfolding make
substring_exists-window_exists_example =
    substring_exists-window_exists ((31, false) ∷ []) 1 example_filter words example_filter-IsValid
      refl refl (omega arith, (omega arith, (omega arith, tt)))

-- A filter with an empty buffer and no bits: a remainder by 0.
no_bits :
    substring_exists (record example_filter { buffer = []; bit_buffer_size = 0 }) words 2 ≡ none
unfolding substring_exists make make_hash_fn
no_bits = refl
