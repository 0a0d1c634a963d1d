-- ===== src/Examples.antt =====
-- Concrete inputs on which the results hold: stores and tables kept as functions, a small filter, a
-- short chain of blocks.
mod Filter
mod Counters
mod Chain
mod Writers
mod BlockPages
mod Columns
mod Money
mod Emission
mod Pages
mod Explorer
mod Web
mod OneChain
mod Front
mod Daemon
mod Outputs
use monero_sci_parser.Base.{
  ℕ, ◌≡◌, ◌≢◌, refl, ap, sym, Bool, true, false, Option, none, some, List, [], ◌∷◌, ◌++◌, arith,
  if◌then◌else◌, inl, inr, Bool-cases, ltb, lt→ltb, ◌<◌, ◌==◌,
}
use monero_sci_parser.Text.{Str, codes, to_string, atoi, str_eq, str_eq_iff, str_eq_refl}
use monero_sci_parser.HashFn.{make_hash_fn}
use monero_sci_parser.Tools.{Tx, in_to_key, in_other}
use monero_sci_parser.Chain.{Core, CoreBlock}
use monero_sci_parser.Mempool.{MempoolTx}
use monero_sci_parser.Pages.{Node}
use monero_sci_parser.Pages.Heights.{IsBlockAt}
use monero_sci_parser.Text.Decimal.{atoi-to_string}
use monero_sci_parser.BloomFilter.{BloomFilter, make}
use monero_sci_parser.IdHashMapper.{RocksDb, IsStore}
use monero_sci_parser.IndexMapper.{Sqlite}
use monero_sci_parser.IndexMapper.Insert.{IsTable}
use monero_sci_parser.IndexMapper.Rows.{Row, int, text}
use monero_sci_parser.Parser.Records.{Block, Transaction, TxRef, Output, Input, Mixin, TxDetails}
use monero_sci_parser.Parser.Ids.{Ids}
use monero_sci_parser.Parser.Store.{Store}

-- A store that never fails.
abbrev pub example_db : RocksDb
example_db = record {
  Contents = Str → Option Str;
  put = λ c k v. ((λ j. if str_eq k j then some v else c j), true);
  get = λ c k. c k;
  delete = λ c k. ((λ j. if str_eq k j then none else c j), true);
}

-- What is read at the end of the map of ring members.
abbrev pub end_read : List (Str × ℕ) → Str → ℕ
end_read rm key = 0

abbrev pub empty_contents : Str → Option Str
empty_contents k = none

pub example_db-IsStore : IsStore example_db
example_db-IsStore = record {
  get-put_self = λ c k v ok. rw (str_eq_refl k) refl;
  get-put_ne = λ c k j v ok ne. elim (Bool-cases (str_eq k j)) [
    | inl same ↦ absurd (ne ((str_eq_iff k j).0 same))
    | inr other ↦ rw other refl
  ];
}

-- Tables that accept every statement; the first column is the key, and a row whose key is taken is
-- refused.
abbrev pub key_of : Row → ℕ
key_of [] = 0
key_of (int n ∷ vs) = n
key_of (text s ∷ vs) = 0

abbrev pub has_key : List Row → ℕ → Bool
has_key [] k = false
has_key (r ∷ rs) k = if key_of r == k then true else has_key rs k

abbrev pub example_sqlite : Sqlite
example_sqlite = record {
  Database = Str → List Row;
  exec = λ d sql. d;
  prepare = λ d sql. true;
  step = λ d sql r.
      if has_key (d sql) (key_of r)
      then (d, false)
      else ((λ i. if str_eq sql i then d i ++ r ∷ [] else d i), true);
}

abbrev pub no_tables : Str → List Row
no_tables sql = []

abbrev pub example_sqlite-IsTable : IsTable example_sqlite
example_sqlite-IsTable = record {
  rows = λ d sql. d sql;
  exec-rows = λ d sql insert. refl;
  step-rows = λ d sql r ok. elim (Bool-cases (has_key (d sql) (key_of r))) [
    | inl taken ↦ absurd (let bad = rw (taken) at ok in cc)
    | inr free ↦ rw (free, str_eq_refl sql) refl
  ];
  step-refused = λ d sql r not_done. elim (Bool-cases (has_key (d sql) (key_of r))) [
    | inl taken ↦ rw (taken) refl
    | inr free ↦ absurd (let bad = rw (free) at not_done in cc)
  ];
  step-rows_ne = λ d sql insert r ne. elim (Bool-cases (has_key (d sql) (key_of r))) [
    | inl taken ↦ rw (taken) refl
    | inr free ↦ elim (Bool-cases (str_eq sql insert)) [
      | inl same ↦ absurd (ne ((str_eq_iff sql insert).0 same))
      | inr other ↦ rw (free, other) refl
    ]
  ];
}

-- 17 bytes and one functor.
abbrev pub example_filter : BloomFilter
example_filter = make 8 16 (make_hash_fn 31 false ∷ [])

abbrev pub example_ids : Ids
example_ids = record {
  last_block_id = 1;
  last_transaction_id = 1;
  last_key_image_id = 1;
  last_stealth_address_id = 1;
  last_output_id = 1;
  last_input_id = 1;
  last_ring_member_id = 1;
}

abbrev pub example_store : Store
example_store = record {
  ids = example_ids;
  bloom_filter = example_filter;
  rm_hash_ids = [];
  block_hash_ids = [];
  tx_hash_ids = [];
  key_image_hash_ids = [];
  sa_hash_ids = [];
  output_of_block = [];
  output_index_of_block = [];
  output_of_stealth_addresses = [];
  output_index_of_stealth_addresses = [];
  output_of_key_images = [];
  output_of_ring_members = [];
  output_index_of_ring_members = [];
  output_of_tx = [];
  output_index_of_tx = [];
}

abbrev pub example_mixin : Mixin
example_mixin = record {
  mix_pub_key = codes "ring";
  mix_blk = codes "1";
  mix_idx = codes "0";
  mix_tx_hash = codes "tx";
  mix_timestamp = codes "now";
  mix_out_indx = 0;
  mix_age = codes "day";
}

abbrev pub example_output : Output
example_output = record {
  out_pub_key = codes "address";
  amount = codes "1.0";
  amount_idx = codes "0";
  output_idx = codes "0";
  num_outputs = 1;
}

abbrev pub example_input : Input
example_input = record {
  in_key_img = codes "image";
  amount = codes "1.0";
  input_idx = codes "0";
  mixins = example_mixin ∷ example_mixin ∷ [];
}

abbrev pub example_transaction : Transaction
example_transaction = record {
  tx_hash = codes "tx";
  outputs = example_output ∷ [];
  inputs = example_input ∷ [];
  details = record {
    tx_blk_height = 1;
    confirmations = 1;
    extra = codes "";
    inputs_no = 1;
    outputs_no = 1;
    payment_id = codes "";
    rct_type = 0;
    tx_fee = codes "0";
    tx_version = 1;
    inputs_xmr_sum = codes "1";
    outputs_xmr_sum = codes "1";
    blk_timestamp_uint = 0;
    blk_timestamp = codes "";
    tx_size = codes "1";
    is_ringct = false;
    tx_pub_key = codes "";
    tx_prefix_hash = codes "";
  };
}

abbrev pub example_block : Block
example_block = record {
  block_height = 1;
  hash = codes "block";
  timestamp = 0;
  timestamp_utc = codes "";
  size = 1;
  tx_count = 1;
  nonce = 0;
  prev_hash = codes "";
  next_hash = codes "";
  txs = record { tx_hash = codes "tx"; coinbase = false; mixin = 2 } ∷ [];
}

abbrev pub all_blocks : Str → Option Block
all_blocks height = some example_block

abbrev pub all_transactions : Str → Option Transaction
all_transactions tx_hash = some example_transaction
