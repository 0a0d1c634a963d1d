-- ===== src/Parser/Records.antt =====
-- The JSON values that `json_block` and `json_detailedtransaction` give, as records of the fields
-- that the parser and its data base writers read. A number is a JSON integer that is not negative.
use monero_sci_parser.Base.{ℕ, Bool, List}
use monero_sci_parser.Text.{Str}

-- An entry of "outputs".
pub record Output : Type 0 where
  pub out_pub_key : Str
  pub amount : Str
  pub amount_idx : Str
  pub output_idx : Str
  pub num_outputs : ℕ

-- An entry of "mixins".
pub record Mixin : Type 0 where
  pub mix_pub_key : Str
  pub mix_blk : Str
  pub mix_idx : Str
  pub mix_tx_hash : Str
  pub mix_timestamp : Str
  pub mix_out_indx : ℕ
  pub mix_age : Str

-- An entry of "inputs".
pub record Input : Type 0 where
  pub in_key_img : Str
  pub amount : Str
  pub input_idx : Str
  pub mixins : List Mixin

-- The fields of a transaction that only its row in the data base uses.
pub record TxDetails : Type 0 where
  pub tx_blk_height : ℕ
  pub confirmations : ℕ
  pub extra : Str
  pub inputs_no : ℕ
  pub outputs_no : ℕ
  pub payment_id : Str
  pub rct_type : ℕ
  pub tx_fee : Str
  pub tx_version : ℕ
  pub inputs_xmr_sum : Str
  pub outputs_xmr_sum : Str
  pub blk_timestamp_uint : ℕ
  pub blk_timestamp : Str
  pub tx_size : Str
  pub is_ringct : Bool
  pub tx_pub_key : Str
  pub tx_prefix_hash : Str

-- The answer for one transaction.
pub record Transaction : Type 0 where
  pub tx_hash : Str
  pub outputs : List Output
  pub inputs : List Input
  pub details : TxDetails

-- An entry of a block's "txs".
pub record TxRef : Type 0 where
  pub tx_hash : Str
  pub coinbase : Bool
  pub mixin : ℕ

-- The answer for one block.
pub record Block : Type 0 where
  pub block_height : ℕ
  pub hash : Str
  pub timestamp : ℕ
  pub timestamp_utc : Str
  pub size : ℕ
  pub tx_count : ℕ
  pub nonce : ℕ
  pub prev_hash : Str
  pub next_hash : Str
  pub txs : List TxRef
