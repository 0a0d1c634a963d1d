-- ===== src/IndexMapper/Insert.antt =====
-- What an insert leaves in its table, given what SQLite documents of a statement that is done.
use mathlib.Core.List.{append-nil, append_assoc}
use monero_sci_parser.Base.{
  ◌≡◌, ◌≢◌, refl, ap, ◌∙◌, sym, true, false, List, [], ◌∷◌, ◌++◌, if◌then◌else◌, Bool-cases, inl,
  inr,
}
use monero_sci_parser.Text.{Str}
use monero_sci_parser.IndexMapper.{Sqlite, step_all, begin_transaction, insert_rows}
use monero_sci_parser.IndexMapper.Rows.{Row}

-- The rows that insert statements have written, by statement: a pragma, a begin and a commit write
-- none, a step that is done writes the bound values and nothing under other statements, and one that
-- is not done, such as a row whose key is taken, writes nothing and leaves the rows before it. (An error on which
-- SQLite takes a whole transaction back, as on a full disk, is not covered.)
pub record IsTable (q : Sqlite) : Type 0 where
  pub rows : q.Database → Str → List Row
  pub exec-rows : (d : q.Database) (sql insert : Str) → rows (q.exec d sql) insert ≡ rows d insert
  pub step-rows :
      (d : q.Database) (sql : Str) (r : Row)
      → (q.step d sql r).1 ≡ true
      → rows (q.step d sql r).0 sql ≡ rows d sql ++ r ∷ []
  pub step-refused :
      (d : q.Database) (sql : Str) (r : Row)
      → (q.step d sql r).1 ≡ false
      → rows (q.step d sql r).0 sql ≡ rows d sql
  pub step-rows_ne :
      (d : q.Database) (sql insert : Str) (r : Row)
      → sql ≢ insert
      → rows (q.step d sql r).0 insert ≡ rows d insert

-- The rows whose steps are done, one after the other.
unfoldable pub done_rows : (q : Sqlite) → q.Database → Str → List Row → List Row
done_rows q d sql [] = []
done_rows q d sql (r ∷ rs) =
    let rest = done_rows q (q.step d sql r).0 sql rs in
    if (q.step d sql r).1 then r ∷ rest else rest

-- What an insert writes: the rows that are done, none where the statement is not accepted.
unfoldable pub written : (q : Sqlite) → q.Database → Str → List Row → List Row
unfolding done_rows
written q d sql rs =
    let begun = begin_transaction q d in
    if q.prepare begun sql then done_rows q begun sql rs else []

module _ (q : Sqlite) (t : IsTable q) where
  begin-rows :
      (d : q.Database) (insert : Str) → t.rows (begin_transaction q d) insert ≡ t.rows d insert
  unfolding begin_transaction
  begin-rows d insert =
      t.exec-rows _ _ insert
      ∙ t.exec-rows _ _ insert
      ∙ t.exec-rows _ _ insert
      ∙ t.exec-rows _ _ insert
      ∙ t.exec-rows _ _ insert

  step_all-rows :
      (sql : Str) (d : q.Database) (rs : List Row)
      → t.rows (step_all q d sql rs) sql ≡ t.rows d sql ++ done_rows q d sql rs
  unfolding step_all done_rows
  step_all-rows sql d [] = sym (append-nil (t.rows d sql))
  step_all-rows sql d (r ∷ rs) =
      let next = (q.step d sql r).0 in
      elim (Bool-cases (q.step d sql r).1) [
        | inl done ↦
            rw (done_rows, done)
              (step_all-rows sql next rs
                ∙ ap (λ l. l ++ done_rows q next sql rs) (t.step-rows d sql r done)
                ∙ append_assoc (t.rows d sql) (r ∷ []) (done_rows q next sql rs))
        | inr refused ↦
            rw (done_rows, refused)
              (step_all-rows sql next rs
                ∙ ap (λ l. l ++ done_rows q next sql rs) (t.step-refused d sql r refused))
      ]

  -- An insert adds the rows whose steps are done, in their order, where SQLite accepts the
  -- statement, and none where it does not.
  pub insert_rows-rows :
      (d : q.Database) (sql : Str) (rs : List Row)
      → t.rows (insert_rows q d sql rs) sql ≡ t.rows d sql ++ written q d sql rs
  unfolding insert_rows written
  insert_rows-rows d sql rs = elim (Bool-cases (q.prepare (begin_transaction q d) sql)) [
    | inl accepted ↦ rw accepted (
        t.exec-rows _ _ sql
        ∙ step_all-rows sql (begin_transaction q d) rs
        ∙ ap (λ l. l ++ done_rows q (begin_transaction q d) sql rs) (begin-rows d sql))
    | inr refused ↦ rw refused (begin-rows d sql ∙ sym (append-nil (t.rows d sql)))
  ]

  step_all-rows_ne :
      (sql insert : Str) (d : q.Database) (rs : List Row)
      → sql ≢ insert
      → t.rows (step_all q d sql rs) insert ≡ t.rows d insert
  unfolding step_all
  step_all-rows_ne sql insert d [] ne = refl
  step_all-rows_ne sql insert d (r ∷ rs) ne =
      step_all-rows_ne sql insert (q.step d sql r).0 rs ne ∙ t.step-rows_ne d sql insert r ne

  -- An insert leaves the rows of the other statements alone, whatever its steps answer.
  pub insert_rows-rows_ne :
      (sql insert : Str) (d : q.Database) (rs : List Row)
      → sql ≢ insert
      → t.rows (insert_rows q d sql rs) insert ≡ t.rows d insert
  unfolding insert_rows
  insert_rows-rows_ne sql insert d rs ne =
      elim (Bool-cases (q.prepare (begin_transaction q d) sql)) [
        | inl accepted ↦ rw accepted (
            t.exec-rows _ _ insert
            ∙ step_all-rows_ne sql insert (begin_transaction q d) rs ne
            ∙ begin-rows d insert)
        | inr refused ↦ rw refused (begin-rows d insert)
      ]
