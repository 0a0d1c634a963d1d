-- ===== src/Parser/MainFunction.antt =====
-- `mainFunction` of src/parser.h, and the choice of its range of blocks in main.cpp: the counters
-- are loaded, the blocks are parsed one after the other, the counters are stored. The performance
-- figures and the printed status are not modelled, and neither is an `int` that overflows.
pub mod Resume
pub mod Restart
use monero_sci_parser.Base.{
  ℕ, zero, suc, ◌+◌, ◌-◌, ◌≡◌, refl, Bool, true, false, Option, none, some, List, [], ◌∷◌, arith,
  leb, if◌then◌else◌, ◌>>=◌,
}
use monero_sci_parser.Text.{Str, to_string, atoi}
use monero_sci_parser.IdHashMapper.{RocksDb}
use monero_sci_parser.Parser.Records.{Block, Transaction}
use monero_sci_parser.Parser.Ids.{
  Ids, IdKey, block_height, get_last_id_list, store_last_id_list, get_last_saved_block_height,
  store_last,
}
use monero_sci_parser.Parser.Store.{Store}
use monero_sci_parser.Parser.Process.{xmr_processor}

-- The blocks from `start_block_height` to `end_block_height`; `none` where the program ends at once.
unfoldable pub block_range : Str → ℕ → Option (ℕ × ℕ)
block_range last_block end_block_height =
    let start_block_height = atoi last_block + 1 in
    if leb end_block_height start_block_height
    then none
    else some (start_block_height, end_block_height)

-- `json_block` and `details` are the answers of the explorer, `contents` is the store of ring
-- members, `last_ids` that of the counters.
module _ (db : RocksDb) (contents : db.Contents) (end_second : List (Str × ℕ) → Str → ℕ) where
  -- `for (x = start; x <= end; x++)`, as the number of rounds that are left.
  unfoldable pub main_loop :
      (Str → Option Block) → (Str → Option Transaction) → ℕ → ℕ → Store → Option Store
  main_loop json_block details zero x s = some s
  main_loop json_block details (suc left) x s = do
    blk ← json_block (to_string x)
    t ← xmr_processor db contents end_second details blk s
    main_loop json_block details left (x + 1) t

  -- `mainFunction`, with the store of the counters.
  unfoldable pub main_function :
      (Str → Option Block)
      → (Str → Option Transaction)
      → ℕ
      → ℕ
      → db.Contents
      → Store
      → Option (db.Contents × Store)
  main_function json_block details first last last_ids s = do
    let loaded = record s { ids = get_last_id_list db last_ids }
    t ← main_loop json_block details (last + 1 - first) first loaded
    some (store_last_id_list db last_ids t.ids, t)
