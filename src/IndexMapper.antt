-- ===== src/IndexMapper.antt =====
-- src/indexmapper.h: the writers of the SQLite tables. SQLite is a parameter; opening, closing and
-- the messages on errors are not modelled.
pub mod Rows
pub mod Insert
pub mod Columns
pub mod Tables
use monero_sci_parser.Base.{
  ℕ, ◌≡◌, Bool, true, false, Option, none, some, List, [], ◌∷◌, ◌++◌, map, u32, if◌then◌else◌,
  ◌>>=◌, get_elem?,
}
use monero_sci_parser.Text.{Str, codes}
use monero_sci_parser.Parser.Records.{Block, Output, Mixin}
use monero_sci_parser.Parser.Store.{TxRow}
use monero_sci_parser.IndexMapper.Rows.{
  Row, block_data_sql, block_data_row, block_index_sql, block_index_row, sa_data_sql, sa_data_row,
  sa_index_sql, sa_index_row, ki_data_sql, ki_data_row, rm_data_sql, rm_data_row, rm_index_sql,
  rm_index_row, tx_index_sql, tx_index_row, tx_data_sql, tx_data_row,
}

-- `exec` runs a statement, `prepare` says whether a statement is accepted, and `step` runs the
-- prepared statement with the bound values and says whether it is done. A statement that
-- `createTable` runs may hold several.
pub record Sqlite : Type 1 where
  pub Database : Type 0
  pub exec : Database → Str → Database
  pub prepare : Database → Str → Bool
  pub step : Database → Str → Row → Database × Bool

module _ (q : Sqlite) where
  -- The loop that steps once for each entry; a step that is not done is only printed.
  unfoldable pub step_all : q.Database → Str → List Row → q.Database
  step_all d sql [] = d
  step_all d sql (r ∷ rs) = step_all (q.step d sql r).0 sql rs

  -- What each insert does first.
  unfoldable pub begin_transaction : q.Database → q.Database
  begin_transaction d =
      let d1 = q.exec d (codes "PRAGMA synchronous=OFF") in
      let d2 = q.exec d1 (codes "PRAGMA count_changes=OFF") in
      let d3 = q.exec d2 (codes "PRAGMA journal_mode=MEMORY") in
      let d4 = q.exec d3 (codes "PRAGMA temp_store=MEMORY") in q.exec d4 (codes "BEGIN TRANSACTION")

  -- The frame that the inserts share: where the statement is not accepted the transaction stays
  -- open and no row is written.
  unfoldable pub insert_rows : q.Database → Str → List Row → q.Database
  insert_rows d sql rows =
      let begun = begin_transaction d in
      if q.prepare begun sql
      then q.exec (step_all begun sql rows) (codes "COMMIT TRANSACTION")
      else begun

  -- `createTable`
  unfoldable pub create_table : q.Database → Str → q.Database
  create_table d sql = q.exec d sql

-- The rows of all the entries, or `none` where one of them is too short.
unfoldable pub bind_all {ℓ} : {A : Type ℓ} → (A → Option Row) → List A → Option (List Row)
bind_all row [] = some []
bind_all row (x ∷ xs) = do r ← row x; rs ← bind_all row xs; some (r ∷ rs)

module _ (q : Sqlite) where
  unfoldable pub insert_block_data : q.Database → List (Block × ℕ) → q.Database
  insert_block_data d block_data = insert_rows q d block_data_sql (map block_data_row block_data)

  unfoldable pub insert_block_index : q.Database → List (List ℕ) → Option q.Database
  insert_block_index d block_index = do
    rows ← bind_all block_index_row block_index
    some (insert_rows q d block_index_sql rows)

  unfoldable pub insert_sa_data : q.Database → List (Output × ℕ) → q.Database
  insert_sa_data d sa_data = insert_rows q d sa_data_sql (map sa_data_row sa_data)

  unfoldable pub insert_sa_index : q.Database → List (List ℕ) → Option q.Database
  insert_sa_index d sa_index = do
    rows ← bind_all sa_index_row sa_index
    some (insert_rows q d sa_index_sql rows)

  unfoldable pub insert_ki_data : q.Database → List (List Str) → Option q.Database
  insert_ki_data d ki_data = do
    rows ← bind_all ki_data_row ki_data
    some (insert_rows q d ki_data_sql rows)

  unfoldable pub insert_rm_data : q.Database → List (Mixin × ℕ) → q.Database
  insert_rm_data d rm_data = insert_rows q d rm_data_sql (map rm_data_row rm_data)

  unfoldable pub insert_rm_index : q.Database → List (List ℕ) → Option q.Database
  insert_rm_index d rm_index = do
    rows ← bind_all rm_index_row rm_index
    some (insert_rows q d rm_index_sql rows)

  unfoldable pub insert_tx_index : q.Database → List (List ℕ) → Option q.Database
  insert_tx_index d tx_index = do
    rows ← bind_all tx_index_row tx_index
    some (insert_rows q d tx_index_sql rows)

  unfoldable pub insert_tx_data : q.Database → List TxRow → q.Database
  insert_tx_data d tx_data = insert_rows q d tx_data_sql (map tx_data_row tx_data)
