-- ===== src/Writer/Interleave.antt =====
-- A writer thread of src/parser.h while the parser runs: the steps of `runSaDataStoreThread` to
-- `runRMIndexStoreThread`, which have one vector that they store in batches, with `push_back` and the
-- end of the parser in between. The two tests before the `break` are steps of their own: whether the
-- vector is empty comes first, `isAllBlockDone` second.
pub mod Safety
use monero_sci_parser.Base.{◌≡◌, Bool, true, false, List, [], ◌∷◌, ◌++◌, if◌then◌else◌}
use monero_sci_parser.Writer.{Queue, is_empty, batch_turn}

-- Where the thread stands: before its batch, before each of the two tests, after its loop.
pub data Place : Type 0 where
  at_batch : Place
  at_first : Place
  at_second : Place
  stopped : Place

-- `produced` is all that the parser has ever pushed, in order.
pub record World {ℓ} (A : Type ℓ) : Type ℓ where
  pub queue : Queue A
  pub produced : List A
  pub done : Bool
  pub place : Place

abbrev pub initial {ℓ} : {A : Type ℓ} → World A
initial = record {
  queue = record { waiting = []; stored = [] };
  produced = [];
  done = false;
  place = at_batch;
}

unfoldable pub first_test {ℓ} : {A : Type ℓ} → World A → Bool
first_test w = is_empty w.queue.waiting

unfoldable pub second_test {ℓ} : {A : Type ℓ} → World A → Bool
second_test w = w.done

-- The next step of the thread at a place.
unfoldable pub step_at {ℓ} : {A : Type ℓ} → Place → World A → World A
unfolding first_test second_test
step_at at_batch w = record w { queue = batch_turn w.done w.queue; place = at_first }
step_at at_first w = record w { place = if first_test w then at_second else at_batch }
step_at at_second w = record w { place = if second_test w then stopped else at_batch }
step_at stopped w = w

unfoldable pub thread_step {ℓ} : {A : Type ℓ} → World A → World A
unfolding step_at
thread_step w = step_at w.place w

-- `push_back` under the mutex.
unfoldable pub push_entry {ℓ} : {A : Type ℓ} → A → World A → World A
push_entry x w = record w {
  queue = record (w.queue) { waiting = w.queue.waiting ++ x ∷ [] };
  produced = w.produced ++ x ∷ [];
}

-- `isAllBlockDone = true`
unfoldable pub finish {ℓ} : {A : Type ℓ} → World A → World A
finish w = record w { done = true }

-- What can happen next: a step of the thread, a push by the parser before it has finished, its end.
pub data Step {ℓ} {A : Type ℓ} (w : World A) : World A → Type ℓ where
  by_thread : Step w (thread_step w)
  by_push : (x : A) → w.done ≡ false → Step w (push_entry x w)
  by_finish : Step w (finish w)

-- The worlds that can come about, with the parser and the thread.
pub data Reachable {ℓ} {A : Type ℓ} : World A → Type ℓ where
  start : Reachable initial
  next : {v w : World A} → Reachable v → Step v w → Reachable w
