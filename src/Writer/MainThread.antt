-- ===== src/Writer/MainThread.antt =====
-- `runBlockMainThread` of src/parser.h while the parser runs: the steps of the thread on its three
-- vectors, with `push_back` and the end of the parser in between. Each part of the test before the
-- `break` is a step of its own, in the order of the source: `isAllBlockDone`, then the vectors.
pub mod Safety
use monero_sci_parser.Base.{◌≡◌, Bool, true, false, List, [], ◌∷◌, ◌++◌, if◌then◌else◌}
use monero_sci_parser.Text.{Str}
use monero_sci_parser.Writer.{Queue, Tables, is_empty, hash_turn, batch_turn}

-- Where the thread stands: before a vector's turn, before a part of the test, after its loop.
pub data MainPlace : Type 0 where
  at_hashes : MainPlace
  at_rows : MainPlace
  at_index : MainPlace
  at_done_test : MainPlace
  at_hashes_test : MainPlace
  at_rows_test : MainPlace
  at_index_test : MainPlace
  at_end : MainPlace

-- The vectors of the thread, all that the parser has ever pushed to them in order, and where the
-- thread stands.
pub record MainWorld {ℓ κ} (A : Type ℓ) (B : Type κ) : Type (ℓ ⊔ κ) where
  pub tables : Tables A B
  pub hashes_pushed : List (Str × Str)
  pub rows_pushed : List A
  pub index_pushed : List B
  pub done : Bool
  pub place : MainPlace

abbrev pub nothing_yet {ℓ} : {A : Type ℓ} → Queue A
nothing_yet = record { waiting = []; stored = [] }

abbrev pub main_initial {ℓ κ} : {A : Type ℓ} {B : Type κ} → MainWorld A B
main_initial = record {
  tables = record { hashes = nothing_yet; rows = nothing_yet; index = nothing_yet };
  hashes_pushed = [];
  rows_pushed = [];
  index_pushed = [];
  done = false;
  place = at_hashes;
}

module _ {ℓ κ} {A : Type ℓ} {B : Type κ} where
  -- A part of the test: on to the next place, or back to the head of the loop.
  unfoldable pub part : Bool → MainPlace → MainWorld A B → MainWorld A B
  part holds next_place w = record w { place = if holds then next_place else at_hashes }

  -- The next step of the thread at a place.
  unfoldable pub main_step_at : MainPlace → MainWorld A B → MainWorld A B
  unfolding part
  main_step_at at_hashes w = record w {
    tables = record (w.tables) { hashes = hash_turn w.tables.hashes };
    place = at_rows;
  }
  main_step_at at_rows w = record w {
    tables = record (w.tables) { rows = batch_turn w.done w.tables.rows };
    place = at_index;
  }
  main_step_at at_index w = record w {
    tables = record (w.tables) { index = batch_turn w.done w.tables.index };
    place = at_done_test;
  }
  main_step_at at_done_test w = part w.done at_hashes_test w
  main_step_at at_hashes_test w = part (is_empty w.tables.hashes.waiting) at_rows_test w
  main_step_at at_rows_test w = part (is_empty w.tables.rows.waiting) at_index_test w
  main_step_at at_index_test w = part (is_empty w.tables.index.waiting) at_end w
  main_step_at at_end w = w

  unfoldable pub main_step : MainWorld A B → MainWorld A B
  unfolding main_step_at
  main_step w = main_step_at w.place w

  -- The three calls of `push_back`, each under the mutex of its vector.
  unfoldable pub push_hash : Str × Str → MainWorld A B → MainWorld A B
  push_hash x w = record w {
    tables = record (w.tables) {
      hashes = record (w.tables.hashes) { waiting = w.tables.hashes.waiting ++ x ∷ [] };
    };
    hashes_pushed = w.hashes_pushed ++ x ∷ [];
  }

  unfoldable pub push_row : A → MainWorld A B → MainWorld A B
  push_row x w = record w {
    tables = record (w.tables) {
      rows = record (w.tables.rows) { waiting = w.tables.rows.waiting ++ x ∷ [] };
    };
    rows_pushed = w.rows_pushed ++ x ∷ [];
  }

  unfoldable pub push_index : B → MainWorld A B → MainWorld A B
  push_index x w = record w {
    tables = record (w.tables) {
      index = record (w.tables.index) { waiting = w.tables.index.waiting ++ x ∷ [] };
    };
    index_pushed = w.index_pushed ++ x ∷ [];
  }

  -- `isAllBlockDone = true`
  unfoldable pub main_finish : MainWorld A B → MainWorld A B
  main_finish w = record w { done = true }

  -- What can happen next: a step of the thread, a push by the parser before it has finished, its end.
  pub data MainStep (w : MainWorld A B) : MainWorld A B → Type (ℓ ⊔ κ) where
    by_main : MainStep w (main_step w)
    by_push_hash : (x : Str × Str) → w.done ≡ false → MainStep w (push_hash x w)
    by_push_row : (x : A) → w.done ≡ false → MainStep w (push_row x w)
    by_push_index : (x : B) → w.done ≡ false → MainStep w (push_index x w)
    by_end : MainStep w (main_finish w)

  -- The worlds that can come about.
  pub data MainReachable : MainWorld A B → Type (ℓ ⊔ κ) where
    main_start : MainReachable main_initial
    main_next : {v w : MainWorld A B} → MainReachable v → MainStep v w → MainReachable w
