-- ===== src/Parser/Store.antt =====
-- The globals of src/parser.h that the parser fills: counters, the Bloom filter, the map of ring
-- members and the vectors that the writer threads empty.
use monero_sci_parser.Base.{
  ℕ, ◌≡◌, refl, Bool, Option, none, some, List, [], ◌∷◌, ◌++◌, arith, if◌then◌else◌,
}
use monero_sci_parser.Text.{Str, str_eq, str_eq_iff, str_lt}
use monero_sci_parser.BloomFilter.{BloomFilter}
use monero_sci_parser.Parser.Records.{Block, Transaction, Output, Mixin}
use monero_sci_parser.Parser.Ids.{Ids}

-- An entry of `outputOfTx`: the answer with "lastTxId", "coinbase" and "mixin".
pub record TxRow : Type 0 where
  pub transaction : Transaction
  pub last_tx_id : ℕ
  pub coinbase : Bool
  pub mixin : ℕ

-- A pair of an answer and a number is the answer with the id that the parser adds to it.
pub record Store : Type 0 where
  pub ids : Ids
  pub bloom_filter : BloomFilter
  pub rm_hash_ids : List (Str × ℕ)
  pub block_hash_ids : List (Str × Str)
  pub tx_hash_ids : List (Str × Str)
  pub key_image_hash_ids : List (Str × Str)
  pub sa_hash_ids : List (Str × Str)
  pub output_of_block : List (Block × ℕ)
  pub output_index_of_block : List (List ℕ)
  pub output_of_stealth_addresses : List (Output × ℕ)
  pub output_index_of_stealth_addresses : List (List ℕ)
  pub output_of_key_images : List (List Str)
  pub output_of_ring_members : List (Mixin × ℕ)
  pub output_index_of_ring_members : List (List ℕ)
  pub output_of_tx : List TxRow
  pub output_index_of_tx : List (List ℕ)

-- `push_back`
abbrev pub push {ℓ} : {A : Type ℓ} → List A → A → List A
push xs x = xs ++ x ∷ []

-- `std::map<string, int>`, as the list of its entries in the order of their keys.
unfoldable pub find : Str → List (Str × ℕ) → Option ℕ
find k [] = none
find k ((j, id) ∷ m) = if str_eq k j then some id else find k m

-- `m[k] = id`
unfoldable pub assign : Str → ℕ → List (Str × ℕ) → List (Str × ℕ)
assign k id [] = (k, id) ∷ []
assign k id ((j, w) ∷ m) =
    if str_eq k j
    then (k, id) ∷ m
    else if str_lt k j
    then (k, id) ∷ (j, w) ∷ m
    else (j, w) ∷ assign k id m

pub find-assign :
    (k j : Str) (id : ℕ) (m : List (Str × ℕ))
    → find j (assign k id m) ≡ (if str_eq j k then some id else find j m)
unfolding find assign
find-assign k j id [] = refl
find-assign k j id ((i, w) ∷ m) =
    ground (arith, str_eq_iff k i, str_eq_iff j k, str_eq_iff j i, find-assign k j id m)
