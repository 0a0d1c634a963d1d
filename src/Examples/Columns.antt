-- ===== src/Examples/Columns.antt =====
-- The results on the rows and the inserts, on one ring member and three rows.
use monero_sci_parser.Base.{ℕ, ◌≡◌, refl, [], ◌∷◌}
use monero_sci_parser.Text.{str_eq}
use monero_sci_parser.IndexMapper.{begin_transaction}
use monero_sci_parser.IndexMapper.Insert.{written}
use monero_sci_parser.IndexMapper.Rows.{Row, bind_int, rm_index_sql}
use monero_sci_parser.Examples.{example_sqlite, no_tables}

-- Of two rows with one key and a third row the second is refused.
row_of : ℕ → ℕ → Row
row_of k n = bind_int k ∷ bind_int n ∷ []

one_refused :
    written example_sqlite no_tables rm_index_sql (row_of 1 5 ∷ row_of 1 6 ∷ row_of 2 7 ∷ [])
    ≡ row_of 1 5 ∷ row_of 2 7 ∷ []
unfolding row_of written str_eq rm_index_sql begin_transaction
one_refused = refl
