-- ===== src/Writer/Flush.antt =====
-- Once the parser has finished, each writer thread of src/parser.h ends, having stored all that
-- waited, in order.
pub mod Single
use mathlib.Core.List.{append-nil, append_assoc}
use monero_sci_parser.Base.{
  ℕ, zero, suc, ◌<◌, ◌≡◌, refl, ap, ◌∙◌, sym, Bool, true, false, some, List, [], ◌∷◌, ◌++◌, arith,
  length, Bool-cases, inl, inr,
}
use monero_sci_parser.Writer.{
  Queue, Tables, Images, is_empty, store_first, hash_turn, takes_batch, batch_turn, block_round,
  tx_round, key_image_round, mapping_round, store_round, run_rounds,
}

-- A loop whose rounds keep the final state and shrink what waits until they break in it ends there.
pub run_rounds-final {ℓ} :
    {S : Type ℓ} (round : S → S × Bool) (size : S → ℕ) (final : S → S)
    → ((s : S) → (round s).1 ≡ true → (round s).0 ≡ final s)
    → ((s : S) → (round s).1 ≡ false → final (round s).0 ≡ final s)
    → ((s : S) → (round s).1 ≡ false → size (round s).0 < size s)
    → (fuel : ℕ) (s : S) → size s < fuel
    → run_rounds round fuel s ≡ some (final s)
unfolding run_rounds
run_rounds-final round size final ends keeps shrinks zero s bound = absurd (omega arith)
run_rounds-final round size final ends keeps shrinks (suc fuel) s bound =
    elim (Bool-cases (round s).1) [
      | inl e ↦ rw (run_rounds, e) (ap some (ends s e))
      | inr e ↦
          let smaller : size (round s).0 < size s = shrinks s e in
          rw (run_rounds, e)
            (run_rounds-final round size final ends keeps shrinks fuel (round s).0 (omega arith)
              ∙ ap some (keeps s e))
    ]

module _ {ℓ} {A : Type ℓ} where
  -- Everything handed over.
  abbrev pub flushed : Queue A → Queue A
  flushed q = record { waiting = []; stored = q.stored ++ q.waiting }

  pub batch_turn_done : (q : Queue A) → batch_turn true q ≡ flushed q
  unfolding batch_turn takes_batch
  batch_turn_done q = ground arith

  pub flushed_twice : (q : Queue A) → flushed (flushed q) ≡ flushed q
  flushed_twice q =
      ap (λ l. record { waiting = []; stored = l }) (append-nil (q.stored ++ q.waiting))

  store_first-flushed :
      (xs ys : List A) → flushed (store_first xs ys) ≡ record { waiting = []; stored = ys ++ xs }
  unfolding store_first
  store_first-flushed [] ys = refl
  store_first-flushed (x ∷ xs) ys =
      ap (λ l. record { waiting = []; stored = l }) (append_assoc ys (x ∷ []) xs)

  pub store_first_last :
      (xs ys : List A)
      → is_empty (store_first xs ys).waiting ≡ true
      → store_first xs ys ≡ record { waiting = []; stored = ys ++ xs }
  unfolding store_first
  store_first_last [] ys e = ap (λ l. record { waiting = []; stored = l }) (sym (append-nil ys))
  store_first_last (x ∷ []) ys e = refl
  store_first_last (x ∷ y ∷ xs) ys e = cc

  pub store_first_shorter :
      (xs ys : List A)
      → is_empty (store_first xs ys).waiting ≡ false
      → length (store_first xs ys).waiting < length xs
  unfolding store_first
  store_first_shorter [] ys e = cc
  store_first_shorter (x ∷ xs) ys e = omega arith

  pub hash_turn-flushed : (q : Queue A) → flushed (hash_turn q) ≡ flushed q
  unfolding hash_turn
  hash_turn-flushed q = store_first-flushed q.waiting q.stored

module _ {ℓ κ} {A : Type ℓ} {B : Type κ} where
  turned : Tables A B → Tables A B
  turned t = record { hashes = hash_turn t.hashes; rows = flushed t.rows; index = flushed t.index }

  -- All that waits in the vectors of a thread handed over, in order.
  abbrev pub all_flushed : Tables A B → Tables A B
  all_flushed t = record {
    hashes = flushed t.hashes;
    rows = flushed t.rows;
    index = flushed t.index;
  }

  block_round-turned :
      (t : Tables A B) → block_round true t ≡ (turned t, is_empty (hash_turn t.hashes).waiting)
  unfolding block_round turned
  block_round-turned t =
      rw (batch_turn_done t.rows, batch_turn_done t.index)
        (elim (Bool-cases (is_empty (hash_turn t.hashes).waiting)) [
          | inl e ↦ rw e refl
          | inr e ↦ rw e refl
        ])

  tx_round-turned :
      (t : Tables A B) → tx_round true t ≡ (turned t, is_empty (hash_turn t.hashes).waiting)
  unfolding tx_round turned
  tx_round-turned t =
      rw (batch_turn_done t.rows, batch_turn_done t.index)
        (elim (Bool-cases (is_empty (hash_turn t.hashes).waiting)) [
          | inl e ↦ rw e refl
          | inr e ↦ rw e refl
        ])

  turned_last :
      (t : Tables A B) → is_empty (hash_turn t.hashes).waiting ≡ true → turned t ≡ all_flushed t
  unfolding turned hash_turn
  turned_last t e = rw (store_first_last t.hashes.waiting t.hashes.stored e) refl

  turned-flushed : (t : Tables A B) → all_flushed (turned t) ≡ all_flushed t
  unfolding turned
  turned-flushed t =
      rw (hash_turn-flushed t.hashes, flushed_twice t.rows, flushed_twice t.index) refl

  turned_shorter :
      (t : Tables A B)
      → is_empty (hash_turn t.hashes).waiting ≡ false
      → length (turned t).hashes.waiting < length t.hashes.waiting
  unfolding turned hash_turn
  turned_shorter t e = store_first_shorter t.hashes.waiting t.hashes.stored e

  rounds-flushed :
      (round : Tables A B → Tables A B × Bool)
      → ((t : Tables A B) → round t ≡ (turned t, is_empty (hash_turn t.hashes).waiting))
      → (t : Tables A B) (fuel : ℕ) → length t.hashes.waiting < fuel
      → run_rounds round fuel t ≡ some (all_flushed t)
  rounds-flushed round turns t fuel bound =
      run_rounds-final round (λ s. length s.hashes.waiting) all_flushed
        (λ s e. ap (λ p. p.0) (turns s) ∙ turned_last s (sym (ap (λ p. p.1) (turns s)) ∙ e))
        (λ s e. ap (λ p. all_flushed p.0) (turns s) ∙ turned-flushed s)
        (λ s e. rw (turns s) (turned_shorter s (sym (ap (λ p. p.1) (turns s)) ∙ e))) fuel t bound

  -- The thread of blocks, once the parser has finished: within one round more than pairs of hash
  -- and id wait it breaks, and it has stored all that waited in its three vectors, in order.
  pub block_round-flushed :
      (t : Tables A B) (fuel : ℕ)
      → length t.hashes.waiting < fuel
      → run_rounds (block_round true) fuel t ≡ some (all_flushed t)
  block_round-flushed t fuel bound =
      rounds-flushed (block_round true) block_round-turned t fuel bound

  -- The same for the thread of transactions.
  pub tx_round-flushed :
      (t : Tables A B) (fuel : ℕ)
      → length t.hashes.waiting < fuel
      → run_rounds (tx_round true) fuel t ≡ some (all_flushed t)
  tx_round-flushed t fuel bound = rounds-flushed (tx_round true) tx_round-turned t fuel bound
