-- ===== src/Writer/Flush/Single.antt =====
-- The threads of src/parser.h with one or two vectors, once the parser has finished.
use mathlib.Core.List.{append-nil}
use monero_sci_parser.Base.{
  ℕ, zero, suc, ◌<◌, ◌≡◌, refl, ap, ◌∙◌, sym, true, false, some, List, [], ◌∷◌, arith, length,
  Bool-cases, inl, inr,
}
use monero_sci_parser.Writer.{
  Queue, Images, is_empty, store_first, hash_turn, key_image_round, mapping_round, store_round,
  run_rounds,
}
use monero_sci_parser.Writer.Flush.{
  run_rounds-final, flushed, batch_turn_done, flushed_twice, store_first_last, store_first_shorter,
  hash_turn-flushed,
}

-- The thread of key images.
module _ {ℓ} {A : Type ℓ} where
  abbrev pub images_flushed : Images A → Images A
  images_flushed t = record { hashes = flushed t.hashes; rows = flushed t.rows }

  images_turned : Images A → Images A
  images_turned t = record { hashes = hash_turn t.hashes; rows = flushed t.rows }

  key_image_round-turned :
      (t : Images A)
      → key_image_round true t ≡ (images_turned t, is_empty (hash_turn t.hashes).waiting)
  unfolding key_image_round images_turned
  key_image_round-turned t =
      rw (batch_turn_done t.rows) (elim (Bool-cases (is_empty (hash_turn t.hashes).waiting)) [
        | inl e ↦ rw e refl
        | inr e ↦ rw e refl
      ])

  -- The thread of key images, once the parser has finished: within one round more than pairs of hash
  -- and id wait it breaks, and it has stored all that waited in its two vectors, in order.
  pub key_image_round-flushed :
      (t : Images A) (fuel : ℕ)
      → length t.hashes.waiting < fuel
      → run_rounds (key_image_round true) fuel t ≡ some (images_flushed t)
  unfolding images_turned hash_turn
  key_image_round-flushed t fuel bound =
      run_rounds-final (key_image_round true) (λ s. length s.hashes.waiting) images_flushed
        (λ s e.
          ap (λ p. p.0) (key_image_round-turned s)
          ∙ rw
              (store_first_last s.hashes.waiting s.hashes.stored
                (sym (ap (λ p. p.1) (key_image_round-turned s)) ∙ e))
              refl)
        (λ s e.
          ap (λ p. images_flushed p.0) (key_image_round-turned s)
          ∙ rw (hash_turn-flushed s.hashes, flushed_twice s.rows) refl)
        (λ s e. rw (key_image_round-turned s) (
          store_first_shorter s.hashes.waiting s.hashes.stored
            (sym (ap (λ p. p.1) (key_image_round-turned s)) ∙ e)))
        fuel t bound

-- The threads that empty one vector.
module _ {ℓ} {A : Type ℓ} where
  waits : List A → List A → Queue A
  waits xs ys = record { waiting = xs; stored = ys }

  mapping_round_last :
      (xs ys : List A)
      → (mapping_round true (waits xs ys)).1 ≡ true
      → (mapping_round true (waits xs ys)).0 ≡ flushed (waits xs ys)
  unfolding mapping_round waits
  mapping_round_last [] ys e = ap (λ l. record { waiting = []; stored = l }) (sym (append-nil ys))
  mapping_round_last (x ∷ xs) ys e = cc

  mapping_round_more :
      (xs ys : List A)
      → (mapping_round true (waits xs ys)).1 ≡ false
      → flushed (mapping_round true (waits xs ys)).0 ≡ flushed (waits xs ys)
  unfolding mapping_round waits
  mapping_round_more [] ys e = cc
  mapping_round_more (x ∷ xs) ys e = hash_turn-flushed (waits (x ∷ xs) ys)

  mapping_round_shorter :
      (xs ys : List A)
      → (mapping_round true (waits xs ys)).1 ≡ false
      → length (mapping_round true (waits xs ys)).0.waiting < length xs
  unfolding mapping_round waits hash_turn store_first
  mapping_round_shorter [] ys e = cc
  mapping_round_shorter (x ∷ xs) ys e = omega arith

  -- The threads of the mappings of stealth addresses and of ring members, once the parser has
  -- finished: within one round more than pairs wait they break, and have stored all, in order.
  pub mapping_round-flushed :
      (q : Queue A) (fuel : ℕ)
      → length q.waiting < fuel
      → run_rounds (mapping_round true) fuel q ≡ some (flushed q)
  unfolding waits
  mapping_round-flushed q fuel bound =
      run_rounds-final (mapping_round true) (λ s. length s.waiting) flushed
        (λ s. mapping_round_last s.waiting s.stored) (λ s. mapping_round_more s.waiting s.stored)
        (λ s. mapping_round_shorter s.waiting s.stored) fuel q bound

  -- The four threads that store rows in batches, once the parser has finished: they break in their
  -- first round, having stored all that waited, in order.
  pub store_round-flushed :
      (q : Queue A) (fuel : ℕ) → 0 < fuel → run_rounds (store_round true) fuel q ≡ some (flushed q)
  unfolding store_round run_rounds
  store_round-flushed q zero some_fuel = absurd (omega arith)
  store_round-flushed q (suc fuel) some_fuel =
      rw (run_rounds, batch_turn_done q) (ap some (batch_turn_done q))
