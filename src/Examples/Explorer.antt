-- ===== src/Examples/Explorer.antt =====
-- The parser over the explorer, on two blocks of a chain.
use monero_sci_parser.Base.{ℕ, zero, suc, ◌+◌, ◌<◌, ◌≤◌, length, ◌≡◌, refl, ap, some, ◌++◌, arith}
use monero_sci_parser.Text.{Str, codes, str_eq, to_string}
use monero_sci_parser.Text.Decimal.{atoi-to_string}
use monero_sci_parser.Parser.Store.{Store}
use monero_sci_parser.Parser.MainFunction.{main_loop}
use monero_sci_parser.Parser.Explorer.{block_details}
use monero_sci_parser.Parser.Explorer.Range.{hashes_from, IsAnswerable, main_loop-hashes}
use monero_sci_parser.Examples.{
  example_db, empty_contents, end_read, example_store, example_transaction, all_transactions,
}
use monero_sci_parser.Examples.OneChain.{example_node, example_node-IsBlockAt, example_core_block}

no_time : ℕ → Str
no_time t = codes ""

one_digit : (i : ℕ) → i < 2 → length (to_string (1 + i)) ≤ 8
unfolding to_string
one_digit zero below = omega arith
one_digit (suc zero) below = omega arith
one_digit (suc (suc i)) below = absurd (omega arith)

example-IsAnswerable : (i : ℕ) → i < 2 → IsAnswerable example_node no_time all_transactions (1 + i)
example-IsAnswerable i below = record {
  above = omega arith;
  blk = example_core_block;
  has_block = example_node-IsBlockAt (1 + i) (omega arith);
  short = one_digit i below;
  is_number = ap some (atoi-to_string (1 + i));
  stored = ((unfold str_eq in refl, refl), tt);
  answered = ((example_transaction, refl), ((example_transaction, refl), tt));
}

main_loop-hashes_example :
    (t : Store) × (main_loop example_db empty_contents end_read
        (block_details example_node no_time)
        all_transactions
        2
        1
        example_store
      ≡ some t)
    × (t.block_hash_ids ≡ example_store.block_hash_ids ++ hashes_from example_node 1 1 2)
main_loop-hashes_example =
    main_loop-hashes example_node no_time all_transactions example_db empty_contents end_read 2 1
      example_store example-IsAnswerable
