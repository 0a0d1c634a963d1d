-- ===== src/IndexMapper/Rows.antt =====
-- The values that each insert of src/indexmapper.h binds, from left to right in the columns of its
-- statement, for one entry of its argument.
use monero_sci_parser.Base.{
  ℕ, Bool, Option, some, List, [], ◌∷◌, u32, if◌then◌else◌, ◌>>=◌, get_elem?,
}
use monero_sci_parser.Text.{Str, codes, atoi}
use monero_sci_parser.Parser.Records.{Block, Output, Mixin}
use monero_sci_parser.Parser.Store.{TxRow}

-- `sqlite3_bind_int` and `sqlite3_bind_text`. An `int` is its pattern of 32 bits.
pub data SqlValue : Type 0 where
  int : ℕ → SqlValue
  text : Str → SqlValue

abbrev pub Row : Type 0
Row = List SqlValue

abbrev pub bind_int : ℕ → SqlValue
bind_int n = int (u32 n)

abbrev bit_of : Bool → ℕ
bit_of flag = if flag then 1 else 0

unfoldable pub block_data_sql : Str
block_data_sql =
    codes
      "INSERT INTO BLOCK_DATA (DATA_ID,HEIGHT,HASH,TIMESTAMP,TIMESTAMP_UTC,SIZE,TX_COUNT,NONCE,PREV_HASH,NEXT_HASH) VALUES (?,?,?,?,?,?,?,?,?,?);"

-- `insertBlockData`
unfoldable pub block_data_row : Block × ℕ → Row
block_data_row (b, last_block_id) =
    bind_int last_block_id
    ∷ bind_int b.block_height
    ∷ text b.hash
    ∷ bind_int b.timestamp
    ∷ text b.timestamp_utc
    ∷ bind_int b.size
    ∷ bind_int b.tx_count
    ∷ bind_int b.nonce
    ∷ text b.prev_hash
    ∷ text b.next_hash
    ∷ []

unfoldable pub block_index_sql : Str
block_index_sql = codes "INSERT INTO BLOCK_INDEX (ID,HASH_ID, DATA_ID) VALUES (?,?,?);"

-- `insertBlockIndex`; `none` is a read behind the end of the entry.
unfoldable pub block_index_row : List ℕ → Option Row
block_index_row x = do id ← get_elem? x 0; some (bind_int id ∷ bind_int id ∷ bind_int id ∷ [])

unfoldable pub sa_data_sql : Str
sa_data_sql =
    codes
      "INSERT INTO SA_DATA (DATA_ID,P_KEY,AMOUNT,AMOUNT_INDEX,OUTPUT_IDX,NUM_OUTPUTS) VALUES (?,?,?,?,?,?);"

-- `insertSAData`
unfoldable pub sa_data_row : Output × ℕ → Row
sa_data_row (o, last_sa_id) =
    bind_int last_sa_id
    ∷ text o.out_pub_key
    ∷ text o.amount
    ∷ text o.amount_idx
    ∷ text o.output_idx
    ∷ bind_int o.num_outputs
    ∷ []

unfoldable pub sa_index_sql : Str
sa_index_sql = codes "INSERT INTO SA_INDEX (DATA_ID,BLOCK_ID,TX_ID,HASH_ID) VALUES (?,?,?,?);"

-- `insertSAIndex`
unfoldable pub sa_index_row : List ℕ → Option Row
sa_index_row x = do
  data_id ← get_elem? x 2
  block_id ← get_elem? x 3
  tx_id ← get_elem? x 0
  hash_id ← get_elem? x 1
  some (bind_int data_id ∷ bind_int block_id ∷ bind_int tx_id ∷ bind_int hash_id ∷ [])

unfoldable pub ki_data_sql : Str
ki_data_sql =
    codes
      "INSERT INTO KI_DATA (DATA_ID,K_HASH,BLOCK_ID,TX_ID,INPUT_AMOUNT,INPUT_IDX,MIXIN_COUNT) VALUES (?,?,?,?,?,?,?);"

-- `insertKIData`
unfoldable pub ki_data_row : List Str → Option Row
ki_data_row x = do
  data_id ← get_elem? x 0
  k_hash ← get_elem? x 1
  block_id ← get_elem? x 2
  tx_id ← get_elem? x 3
  input_amount ← get_elem? x 4
  input_idx ← get_elem? x 5
  mixin_count ← get_elem? x 6
  some (
      bind_int (atoi data_id)
      ∷ text k_hash
      ∷ bind_int (atoi block_id)
      ∷ bind_int (atoi tx_id)
      ∷ text input_amount
      ∷ text input_idx
      ∷ bind_int (atoi mixin_count)
      ∷ [])

unfoldable pub rm_data_sql : Str
rm_data_sql =
    codes
      "INSERT INTO RM_DATA (DATA_ID,P_KEY,MIX_BLOCK_HEIGHT,MIX_IDX,TX_HASH,MIX_TIMESTAMP,OUTPUT_INDEX,MIX_AGE) VALUES (?,?,?,?,?,?,?,?);"

-- `insertRMData`
unfoldable pub rm_data_row : Mixin × ℕ → Row
rm_data_row (m, last_ring_id) =
    bind_int last_ring_id
    ∷ text m.mix_pub_key
    ∷ bind_int (atoi m.mix_blk)
    ∷ text m.mix_idx
    ∷ text m.mix_tx_hash
    ∷ text m.mix_timestamp
    ∷ bind_int m.mix_out_indx
    ∷ text m.mix_age
    ∷ []

unfoldable pub rm_index_sql : Str
rm_index_sql =
    codes "INSERT INTO RM_INDEX (DATA_ID,BLOCK_ID,TX_ID,KEY_IMAGE,HASH_ID) VALUES (?,?,?,?,?);"

-- `insertRMIndex`
unfoldable pub rm_index_row : List ℕ → Option Row
rm_index_row x = do
  data_id ← get_elem? x 0
  block_id ← get_elem? x 4
  tx_id ← get_elem? x 1
  key_image ← get_elem? x 2
  hash_id ← get_elem? x 3
  some (
      bind_int data_id
      ∷ bind_int block_id
      ∷ bind_int tx_id
      ∷ bind_int key_image
      ∷ bind_int hash_id
      ∷ [])

unfoldable pub tx_index_sql : Str
tx_index_sql = codes "INSERT INTO TX_INDEX (DATA_ID,BLOCK_ID,HASH_ID) VALUES (?,?,?);"

-- `insertTxIndex`
unfoldable pub tx_index_row : List ℕ → Option Row
tx_index_row x = do
  data_id ← get_elem? x 0
  block_id ← get_elem? x 1
  hash_id ← get_elem? x 2
  some (bind_int data_id ∷ bind_int block_id ∷ bind_int hash_id ∷ [])

unfoldable pub tx_data_sql : Str
tx_data_sql =
    codes
      "INSERT INTO TX_DATA (DATA_ID,COIN_BASE,HEIGHT,HASH,CONFIRMATIONS,EXTRA,INPUT_COUNT,MIXIN,OUTPUT_COUNT,PAYMENT_ID,RCT_TYPE,TX_FEE,TX_VERSION,XMR_INPUT,XMR_OUTPUT,TIMESTAMP,TIMESTAMP_UTC,SIZE,IS_RINGCT,TX_PUB_KEY,TX_PREFIX_HASH) VALUES (?,?,?,?,?,?,?,?,?,?,?,?,?,?,?,?,?,?,?,?,?);"

-- `insertTxData`
unfoldable pub tx_data_row : TxRow → Row
tx_data_row r =
    let tx = r.transaction in
    let t = tx.details in
    bind_int r.last_tx_id
    ∷ bind_int (bit_of r.coinbase)
    ∷ bind_int t.tx_blk_height
    ∷ text tx.tx_hash
    ∷ bind_int t.confirmations
    ∷ text t.extra
    ∷ bind_int t.inputs_no
    ∷ bind_int r.mixin
    ∷ bind_int t.outputs_no
    ∷ text t.payment_id
    ∷ bind_int t.rct_type
    ∷ text t.tx_fee
    ∷ bind_int t.tx_version
    ∷ text t.inputs_xmr_sum
    ∷ text t.outputs_xmr_sum
    ∷ bind_int t.blk_timestamp_uint
    ∷ text t.blk_timestamp
    ∷ text t.tx_size
    ∷ bind_int (bit_of t.is_ringct)
    ∷ text t.tx_pub_key
    ∷ text t.tx_prefix_hash
    ∷ []
