-- ===== src/Examples/Counters.antt =====
-- The results on the stored counters and the stored height, on concrete inputs.
use monero_sci_parser.Base.{◌≡◌, refl, true, none}
use monero_sci_parser.Parser.Ids.{
  get_last_id_list, store_last_id_list, get_last_id_list-store_last_id_list,
}
use monero_sci_parser.Parser.Ids.{block_height, store_last, get_last_saved_block_height}
use monero_sci_parser.Parser.MainFunction.{block_range}
use monero_sci_parser.Parser.MainFunction.Restart.{block_range-store_last}
use monero_sci_parser.Examples.{example_db, example_db-IsStore, empty_contents, example_ids}

get_last_id_list-store_last_id_list_example :
    get_last_id_list example_db (store_last_id_list example_db empty_contents example_ids)
    ≡ example_ids
get_last_id_list-store_last_id_list_example =
    get_last_id_list-store_last_id_list example_db example_db-IsStore (λ c k v. refl) empty_contents
      example_ids

block_range-store_last_example :
    let d = store_last example_db block_height empty_contents 299 in
    let read = get_last_saved_block_height example_db d true in
    (block_range read.0 300 ≡ none)
    × (read.1 ≡ true)
    × (get_last_id_list example_db d ≡ get_last_id_list example_db empty_contents)
block_range-store_last_example =
    block_range-store_last example_db example_db-IsStore (λ c k v. refl) empty_contents 299 300 true
