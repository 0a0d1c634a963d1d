-- ===== src/Writer.antt =====
-- The writer threads of src/parser.h (`runBlockMainThread` to `runRMIdHashMappingThread`): each takes
-- entries from the vectors that the parser fills and hands them to RocksDB or SQLite, until
-- `isAllBlockDone` is set and its vectors are empty. `stored` is the sequence of the entries handed
-- over, in the order of the calls. The local counters, which the closing messages print, are not
-- modelled.
pub mod Flush
pub mod Interleave
pub mod MainThread
pub mod Threads
use monero_sci_parser.Base.{
  ℕ, zero, suc, Bool, true, false, ◌&&◌, ◌||◌, Option, none, some, List, [], ◌∷◌, ◌++◌, length, ltb,
  leb, if◌then◌else◌,
}
use monero_sci_parser.Text.{Str}

-- A vector that a thread empties, and what the thread has handed over from it.
pub record Queue {ℓ} (A : Type ℓ) : Type ℓ where
  pub waiting : List A
  pub stored : List A

abbrev pub is_empty {ℓ} : {A : Type ℓ} → List A → Bool
is_empty [] = true
is_empty (x ∷ xs) = false

abbrev pub batch_size : ℕ
batch_size = 1000

-- `if (!v.empty())`: take the first entry under the mutex and insert it.
unfoldable pub store_first {ℓ} : {A : Type ℓ} → List A → List A → Queue A
store_first [] stored = record { waiting = []; stored = stored }
store_first (x ∷ xs) stored = record { waiting = xs; stored = stored ++ x ∷ [] }

unfoldable pub hash_turn {ℓ} : {A : Type ℓ} → Queue A → Queue A
unfolding store_first
hash_turn q = store_first q.waiting q.stored

-- Whether the copy of the vector is taken: it is full, or the parser has finished.
unfoldable pub takes_batch {ℓ} : {A : Type ℓ} → Bool → List A → Bool
takes_batch done waiting =
    if leb batch_size (length waiting)
    then true
    else if ltb (length waiting) batch_size && done
    then true
    else false

-- Under the mutex the whole vector is copied and erased; a copy that is not empty is inserted.
unfoldable pub batch_turn {ℓ} : {A : Type ℓ} → Bool → Queue A → Queue A
unfolding takes_batch
batch_turn done q =
    if takes_batch done q.waiting
    then record { waiting = []; stored = q.stored ++ q.waiting }
    else q

-- The vectors of the thread of blocks, and of that of transactions: pairs of hash and id, rows of
-- data, rows of the index.
pub record Tables {ℓ κ} (A : Type ℓ) (B : Type κ) : Type (ℓ ⊔ κ) where
  pub hashes : Queue (Str × Str)
  pub rows : Queue A
  pub index : Queue B

-- One round of the loop of `runBlockMainThread`, and whether it breaks.
unfoldable pub block_round {ℓ κ} : {A : Type ℓ} {B : Type κ} → Bool → Tables A B → Tables A B × Bool
unfolding hash_turn batch_turn
block_round {A} {B} done t =
    let u : Tables A B = record {
      hashes = hash_turn t.hashes;
      rows = batch_turn done t.rows;
      index = batch_turn done t.index;
    } in
    (u, done && is_empty u.hashes.waiting && is_empty u.rows.waiting && is_empty u.index.waiting)

-- One round of the loop of `runTxMainThread`; its test has another order.
unfoldable pub tx_round {ℓ κ} : {A : Type ℓ} {B : Type κ} → Bool → Tables A B → Tables A B × Bool
unfolding hash_turn batch_turn
tx_round {A} {B} done t =
    let u : Tables A B = record {
      hashes = hash_turn t.hashes;
      rows = batch_turn done t.rows;
      index = batch_turn done t.index;
    } in
    (u, is_empty u.hashes.waiting && done && is_empty u.rows.waiting && is_empty u.index.waiting)

-- The vectors of `runKeyImageMainThread`.
pub record Images {ℓ} (A : Type ℓ) : Type ℓ where
  pub hashes : Queue (Str × Str)
  pub rows : Queue A

-- One round of its loop.
unfoldable pub key_image_round {ℓ} : {A : Type ℓ} → Bool → Images A → Images A × Bool
unfolding hash_turn batch_turn
key_image_round {A} done t =
    let u : Images A = record { hashes = hash_turn t.hashes; rows = batch_turn done t.rows } in
    (u, is_empty u.hashes.waiting && done && is_empty u.rows.waiting)

-- One round of `runSAIdHashMappingThread` and `runRMIdHashMappingThread`, which test for the break
-- only where there was nothing to take.
unfoldable pub mapping_round {ℓ} : {A : Type ℓ} → Bool → Queue A → Queue A × Bool
unfolding hash_turn
mapping_round done q = if is_empty q.waiting then (q, done) else (hash_turn q, false)

-- One round of `runSaDataStoreThread`, `runSAIndexStoreThread`, `runRingMemberStoreThread` and
-- `runRMIndexStoreThread`.
unfoldable pub store_round {ℓ} : {A : Type ℓ} → Bool → Queue A → Queue A × Bool
unfolding batch_turn
store_round done q = let u = batch_turn done q in (u, is_empty u.waiting && done)

-- `while (true)` over a round that says whether it breaks; `none` means that the fuel ran out.
unfoldable pub run_rounds {ℓ} : {S : Type ℓ} → (S → S × Bool) → ℕ → S → Option S
run_rounds round zero s = none
run_rounds round (suc fuel) s = elim ((round s).1) [
  | true ↦ some (round s).0
  | false ↦ run_rounds round fuel (round s).0
]
