-- ===== src/Writer/Interleave/Safety.antt =====
-- What the order of the tests in the threads with one vector of src/parser.h means for the entries.
use mathlib.Core.List.{append-nil, append_assoc}
use monero_sci_parser.Base.{
  ◌≡◌, refl, ap, ◌∙◌, sym, Bool, true, [], ◌∷◌, ◌++◌, Bool-cases, inl, inr,
}
use monero_sci_parser.Writer.{Queue, takes_batch, batch_turn}
use monero_sci_parser.Writer.Interleave.{
  Place, at_batch, at_first, at_second, stopped, World, first_test, second_test, step_at,
  thread_step, push_entry, finish, Step, by_thread, by_push, by_finish, Reachable, start, next,
}

module _ {ℓ} {A : Type ℓ} where
  -- Nothing is lost, stored twice or reordered while it moves.
  Conserved : World A → Type ℓ
  Conserved w = w.queue.stored ++ w.queue.waiting ≡ w.produced

  pub batch_turn-conserved :
      (done : Bool) (q : Queue A)
      → (batch_turn done q).stored ++ (batch_turn done q).waiting ≡ q.stored ++ q.waiting
  unfolding batch_turn
  batch_turn-conserved done q = elim (Bool-cases (takes_batch done q.waiting)) [
    | inl e ↦ rw e (append-nil (q.stored ++ q.waiting))
    | inr e ↦ rw e refl
  ]

  step_at-Conserved : (p : Place) (w : World A) → Conserved w → Conserved (step_at p w)
  unfolding step_at Conserved
  step_at-Conserved at_batch w c = batch_turn-conserved w.done w.queue ∙ c
  step_at-Conserved at_first w c = c
  step_at-Conserved at_second w c = c
  step_at-Conserved stopped w c = c

  push_entry-Conserved : (x : A) (w : World A) → Conserved w → Conserved (push_entry x w)
  unfolding push_entry Conserved
  push_entry-Conserved x w c =
      sym (append_assoc w.queue.stored w.queue.waiting (x ∷ [])) ∙ ap (λ l. l ++ x ∷ []) c

  Step-Conserved : (v w : World A) → Conserved v → Step v w → Conserved w
  unfolding thread_step finish Conserved
  Step-Conserved v w c by_thread = step_at-Conserved v.place v c
  Step-Conserved v w c (by_push x running) = push_entry-Conserved x v c
  Step-Conserved v w c by_finish = c

  -- In each world that can come about what is stored followed by
  -- what waits is exactly what the parser has pushed, in order.
  pub Reachable-conserved :
      (w : World A) → Reachable w → w.queue.stored ++ w.queue.waiting ≡ w.produced
  unfolding Conserved
  Reachable-conserved w start = refl
  Reachable-conserved w (next {v} r s) = Step-Conserved v w (Reachable-conserved v r) s

  -- The run in which the parser pushes its last entry between the two tests of the thread.
  lost : A → World A
  lost x = record {
    queue = record { waiting = x ∷ []; stored = [] };
    produced = x ∷ [];
    done = true;
    place = stopped;
  }

  -- A thread that tests whether its vector is empty first can stop with an entry in the vector: for
  -- every entry there is a run that ends with the thread stopped, the entry pushed, nothing stored.
  pub stopped-lost :
      (x : A)
      → (w : World A) × Reachable w
        × (w.place ≡ stopped)
        × (w.produced ≡ x ∷ [])
        × (w.queue.stored ≡ [])
  unfolding lost thread_step step_at first_test second_test push_entry finish batch_turn
  stopped-lost x = (
    lost x,
    next (next (next (next (next start by_thread) by_thread) (by_push x refl)) by_finish) by_thread,
    refl,
    refl,
    refl,
  )
