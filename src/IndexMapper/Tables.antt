-- ===== src/IndexMapper/Tables.antt =====
-- From the outputs and ring members of a transaction to the rows of SA_INDEX and RM_INDEX.
use monero_sci_parser.Base.{◌≡◌, refl, some, List, [], ◌++◌, map}
use monero_sci_parser.IndexMapper.{Sqlite, insert_rows, bind_all, insert_sa_index}
use monero_sci_parser.IndexMapper.Rows.{sa_index_sql}
use monero_sci_parser.IndexMapper.Insert.{IsTable, written, insert_rows-rows}
use monero_sci_parser.IndexMapper.Columns.{sa_index_columns, sa_index_of, process_outputs-sa_index}
use monero_sci_parser.Parser.Records.{Output}
use monero_sci_parser.Parser.Store.{Store}
use monero_sci_parser.Parser.Process.{process_outputs}

module _ (q : Sqlite) (t : IsTable q) where
  -- Processing outputs from an empty vector and inserting the vector succeeds, and adds to SA_INDEX,
  -- as far as SQLite accepts the statement and does the step of the row, for each output in order a
  -- row with its own consecutive DATA_ID and HASH_ID and the ids of the block and the transaction.
  pub insert_sa_index-process_outputs :
      (d : q.Database) (s : Store) (os : List Output)
      → s.output_index_of_stealth_addresses ≡ []
      → (c : q.Database) × (insert_sa_index q d
            (process_outputs s os).output_index_of_stealth_addresses
          ≡ some c)
        × (t.rows c sa_index_sql
            ≡ t.rows d sa_index_sql
              ++ written q d sa_index_sql (map sa_index_columns (sa_index_of s.ids os)))
  unfolding insert_sa_index bind_all
  insert_sa_index-process_outputs d s os empty =
      let bound = process_outputs-sa_index s os [] (rw empty refl) in
      (insert_rows q d sa_index_sql _, rw bound refl, insert_rows-rows q t d sa_index_sql _)
