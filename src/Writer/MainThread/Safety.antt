-- ===== src/Writer/MainThread/Safety.antt =====
-- `runBlockMainThread` loses nothing that the parser pushes while it runs.
use mathlib.Core.List.{append-nil, append_assoc}
use monero_sci_parser.Base.{◌≡◌, refl, ap, ◌∙◌, sym, subst, Bool, true, false, List, [], ◌∷◌, ◌++◌}
use monero_sci_parser.Writer.{Queue, is_empty, store_first, hash_turn}
use monero_sci_parser.Writer.Interleave.Safety.{batch_turn-conserved}
use monero_sci_parser.Writer.MainThread.{
  MainPlace, at_hashes, at_rows, at_index, at_done_test, at_hashes_test, at_rows_test,
  at_index_test, at_end, MainWorld, main_step_at, main_step, part, push_hash, push_row, push_index,
  main_finish, MainStep, by_main, by_push_hash, by_push_row, by_push_index, by_end, MainReachable,
  main_start, main_next,
}

store_first-conserved {ℓ} :
    {A : Type ℓ} (waiting stored : List A)
    → (store_first waiting stored).stored ++ (store_first waiting stored).waiting
      ≡ stored ++ waiting
unfolding store_first
store_first-conserved [] stored = refl
store_first-conserved (x ∷ xs) stored = append_assoc stored (x ∷ []) xs

is_empty_lem {ℓ} : {A : Type ℓ} (xs : List A) → is_empty xs ≡ true → xs ≡ []
is_empty_lem [] e = refl
is_empty_lem (x ∷ xs) e = cc

-- All that was pushed to a vector is stored or waits, in order.
abbrev Moves {ℓ} : {A : Type ℓ} → Queue A → List A → Type ℓ
Moves q pushed = q.stored ++ q.waiting ≡ pushed

pushed_on {ℓ} :
    {A : Type ℓ} (stored waiting pushed : List A) (x : A)
    → stored ++ waiting ≡ pushed
    → stored ++ (waiting ++ x ∷ []) ≡ pushed ++ x ∷ []
pushed_on stored waiting pushed x m =
    sym (append_assoc stored waiting (x ∷ [])) ∙ ap (λ l. l ++ x ∷ []) m

all_stored {ℓ} :
    {A : Type ℓ} (q : Queue A) (pushed : List A)
    → Moves q pushed
    → is_empty q.waiting ≡ true
    → q.stored ≡ pushed
all_stored q pushed m none_left =
    sym (append-nil q.stored) ∙ ap (λ l. q.stored ++ l) (sym (is_empty_lem q.waiting none_left)) ∙ m

module _ {ℓ κ} {A : Type ℓ} {B : Type κ} where
  record AllMove (w : MainWorld A B) : Type (ℓ ⊔ κ) where
    hashes : Moves w.tables.hashes w.hashes_pushed
    rows : Moves w.tables.rows w.rows_pushed
    index : Moves w.tables.index w.index_pushed

  part-AllMove :
      (holds : Bool) (p : MainPlace) (w : MainWorld A B) → AllMove w → AllMove (part holds p w)
  unfolding part
  part-AllMove holds p w m = record { hashes = m.hashes; rows = m.rows; index = m.index }

  step-AllMove : (p : MainPlace) (w : MainWorld A B) → AllMove w → AllMove (main_step_at p w)
  unfolding main_step_at hash_turn
  step-AllMove at_hashes w m = record {
    hashes = store_first-conserved w.tables.hashes.waiting w.tables.hashes.stored ∙ m.hashes;
    rows = m.rows;
    index = m.index;
  }
  step-AllMove at_rows w m = record {
    hashes = m.hashes;
    rows = batch_turn-conserved w.done w.tables.rows ∙ m.rows;
    index = m.index;
  }
  step-AllMove at_index w m = record {
    hashes = m.hashes;
    rows = m.rows;
    index = batch_turn-conserved w.done w.tables.index ∙ m.index;
  }
  step-AllMove at_done_test w m = part-AllMove w.done at_hashes_test w m
  step-AllMove at_hashes_test w m = part-AllMove (is_empty w.tables.hashes.waiting) at_rows_test w m
  step-AllMove at_rows_test w m = part-AllMove (is_empty w.tables.rows.waiting) at_index_test w m
  step-AllMove at_index_test w m = part-AllMove (is_empty w.tables.index.waiting) at_end w m
  step-AllMove at_end w m = m

  MainStep-AllMove : (v w : MainWorld A B) → AllMove v → MainStep v w → AllMove w
  unfolding main_step push_hash push_row push_index main_finish
  MainStep-AllMove v w m by_main = step-AllMove v.place v m
  MainStep-AllMove v w m (by_push_hash x running) = record {
    hashes = pushed_on v.tables.hashes.stored v.tables.hashes.waiting v.hashes_pushed x m.hashes;
    rows = m.rows;
    index = m.index;
  }
  MainStep-AllMove v w m (by_push_row x running) = record {
    hashes = m.hashes;
    rows = pushed_on v.tables.rows.stored v.tables.rows.waiting v.rows_pushed x m.rows;
    index = m.index;
  }
  MainStep-AllMove v w m (by_push_index x running) = record {
    hashes = m.hashes;
    rows = m.rows;
    index = pushed_on v.tables.index.stored v.tables.index.waiting v.index_pushed x m.index;
  }
  MainStep-AllMove v w m by_end = record { hashes = m.hashes; rows = m.rows; index = m.index }

  Reachable-AllMove : (w : MainWorld A B) → MainReachable w → AllMove w
  Reachable-AllMove w main_start = record { hashes = refl; rows = refl; index = refl }
  Reachable-AllMove w (main_next {v} r s) = MainStep-AllMove v w (Reachable-AllMove v r) s

  -- What has been seen true on the way to a place: each part of the test that was passed.
  abbrev Seen : MainPlace → MainWorld A B → Type 0
  Seen at_hashes w = Unit
  Seen at_rows w = Unit
  Seen at_index w = Unit
  Seen at_done_test w = Unit
  Seen at_hashes_test w = w.done ≡ true
  Seen at_rows_test w = (w.done ≡ true) × (is_empty w.tables.hashes.waiting ≡ true)
  Seen at_index_test w =
      (w.done ≡ true)
      × (is_empty w.tables.hashes.waiting ≡ true)
      × (is_empty w.tables.rows.waiting ≡ true)
  Seen at_end w =
      (w.done ≡ true)
      × (is_empty w.tables.hashes.waiting ≡ true)
      × (is_empty w.tables.rows.waiting ≡ true)
      × (is_empty w.tables.index.waiting ≡ true)

  part-Seen :
      (holds : Bool) (p : MainPlace) (w : MainWorld A B)
      → (holds ≡ true → Seen p (part true p w))
      → Seen (part holds p w).place (part holds p w)
  unfolding part
  part-Seen true p w h = h refl
  part-Seen false p w h = tt

  step-Seen :
      (p : MainPlace) (w : MainWorld A B)
      → w.place ≡ p
      → Seen p w
      → Seen (main_step_at p w).place (main_step_at p w)
  unfolding main_step_at part
  step-Seen at_hashes w at h = tt
  step-Seen at_rows w at h = tt
  step-Seen at_index w at h = tt
  step-Seen at_done_test w at h = part-Seen w.done at_hashes_test w (λ e. e)
  step-Seen at_hashes_test w at h =
      part-Seen (is_empty w.tables.hashes.waiting) at_rows_test w (λ e. (h, e))
  step-Seen at_rows_test w at h =
      part-Seen (is_empty w.tables.rows.waiting) at_index_test w (λ e. (h.0, h.1, e))
  step-Seen at_index_test w at h =
      part-Seen (is_empty w.tables.index.waiting) at_end w (λ e. (h.0, h.1, h.2, e))
  step-Seen at_end w at h = subst (λ p. Seen p w) (sym at) h

  -- Nothing is pushed once the parser has finished, so a push leaves what was seen as it is.
  push-Seen : (p : MainPlace) (v w : MainWorld A B) → v.done ≡ false → Seen p v → Seen p w
  push-Seen at_hashes v w running h = tt
  push-Seen at_rows v w running h = tt
  push-Seen at_index v w running h = tt
  push-Seen at_done_test v w running h = tt
  push-Seen at_hashes_test v w running h = cc
  push-Seen at_rows_test v w running h = absurd (let done = h.0 in cc)
  push-Seen at_index_test v w running h = absurd (let done = h.0 in cc)
  push-Seen at_end v w running h = absurd (let done = h.0 in cc)

  finish-Seen : (p : MainPlace) (w : MainWorld A B) → Seen p w → Seen p (main_finish w)
  unfolding main_finish
  finish-Seen at_hashes w h = tt
  finish-Seen at_rows w h = tt
  finish-Seen at_index w h = tt
  finish-Seen at_done_test w h = tt
  finish-Seen at_hashes_test w h = refl
  finish-Seen at_rows_test w h = (refl, h.1)
  finish-Seen at_index_test w h = (refl, h.1, h.2)
  finish-Seen at_end w h = (refl, h.1, h.2, h.3)

  MainStep-Seen : (v w : MainWorld A B) → Seen v.place v → MainStep v w → Seen w.place w
  unfolding main_step push_hash push_row push_index main_finish
  MainStep-Seen v w h by_main = step-Seen v.place v refl h
  MainStep-Seen v w h (by_push_hash x running) = push-Seen v.place v w running h
  MainStep-Seen v w h (by_push_row x running) = push-Seen v.place v w running h
  MainStep-Seen v w h (by_push_index x running) = push-Seen v.place v w running h
  MainStep-Seen v w h by_end = finish-Seen v.place v h

  Reachable-Seen : (w : MainWorld A B) → MainReachable w → Seen w.place w
  Reachable-Seen w main_start = tt
  Reachable-Seen w (main_next {v} r s) = MainStep-Seen v w (Reachable-Seen v r) s

  -- Once runBlockMainThread has ended, it has stored all that the parser ever pushed to each of its
  -- three vectors, in order, whatever the interleaving of its steps with the pushes and with the end
  -- of the parser.
  pub at_end-stored :
      (w : MainWorld A B)
      → MainReachable w
      → w.place ≡ at_end
      → (w.tables.hashes.stored ≡ w.hashes_pushed)
        × (w.tables.rows.stored ≡ w.rows_pushed)
        × (w.tables.index.stored ≡ w.index_pushed)
  at_end-stored w r e =
      let (done, no_hashes, no_rows, no_index) : Seen at_end w =
        subst (λ p. Seen p w) e (Reachable-Seen w r) in
      let m = Reachable-AllMove w r in
      (
        all_stored w.tables.hashes w.hashes_pushed m.hashes no_hashes,
        all_stored w.tables.rows w.rows_pushed m.rows no_rows,
        all_stored w.tables.index w.index_pushed m.index no_index,
      )
