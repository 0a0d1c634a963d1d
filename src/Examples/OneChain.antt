-- ===== src/Examples/OneChain.antt =====
-- A chain of six equal blocks, and a pool of two transactions.
use monero_sci_parser.Base.{
  ℕ, refl, true, false, none, some, [], ◌∷◌, arith, if◌then◌else◌, ltb, lt→ltb, ◌<◌,
}
use monero_sci_parser.Text.{codes, to_string, atoi, str_eq}
use monero_sci_parser.Tools.{Tx, in_to_key, in_other}
use monero_sci_parser.Chain.{Core, CoreBlock}
use monero_sci_parser.Mempool.{MempoolTx}
use monero_sci_parser.Pages.{Node}
use monero_sci_parser.Pages.Heights.{IsBlockAt}
use monero_sci_parser.Text.Decimal.{atoi-to_string}

abbrev pub example_tx : Tx
example_tx = record {
  vin =
      in_other
      ∷ in_to_key record { amount = 5; key_offsets = 1 ∷ 2 ∷ []; k_image = codes "image" }
      ∷ [];
  vout = record { amount = 3; key = some (codes "key") } ∷ record { amount = 1; key = none } ∷ [];
}

abbrev pub example_core_block : CoreBlock
example_core_block = record {
  miner_tx = example_tx;
  tx_hashes = codes "tx" ∷ [];
  timestamp = 7;
  nonce = 0;
  prev_id = codes "";
}

-- A chain of six equal blocks.
abbrev pub example_core : Core
example_core = record {
  get_block_from_height = λ h. if ltb h 6 then some example_core_block else none;
  get_block_by_hash = λ h. some example_core_block;
  get_block_height = λ h. atoi h;
  get_block_id_by_height = λ h. to_string h;
  get_block_size = λ h. 100;
  have_tx = λ h. str_eq h (codes "tx");
  get_db_tx = λ h. example_tx;
  get_transactions = λ hs. (true, example_tx ∷ [], []);
  get_transaction_hash = λ tx. codes "tx";
  get_outs_money_amount = λ tx. 10;
  get_tx_fee = λ tx. 1;
  default_block = example_core_block;
}

abbrev pub example_mempool_tx : MempoolTx
example_mempool_tx = record {
  tx_hash = codes "tx";
  tx = example_tx;
  receive_time = 9;
  sum_inputs = 5;
  sum_outputs = 3;
  no_inputs = 1;
  no_outputs = 2;
  num_nonrct_inputs = 1;
  mixin_no = 2;
  pid = b'-';
}

-- Every text of 64 characters is the hash of the block at height 1.
abbrev pub example_node : Node
example_node = record {
  core = example_core;
  current_height = 6;
  mempool_txs = example_mempool_tx ∷ example_mempool_tx ∷ [];
  lexical_cast = λ s. some (atoi s);
  parse_str_secret_key = λ s. some (to_string 1);
  null_hash = codes "null";
  get_tx_block_height = λ h. some 1;
  is_coinbase = λ tx. false;
  is_txin_gen = λ i. false;
  get_object_blobsize = λ tx. 100;
}

pub example_node-IsBlockAt :
    (height : ℕ) → height < 6 → IsBlockAt example_node height example_core_block
example_node-IsBlockAt height below = record {
  below_top = omega arith;
  by_height = rw (lt→ltb height 6 below) refl;
  by_hash = refl;
  height_of = atoi-to_string height;
}
