-- ===== src/Pages/Transaction.antt =====
-- src/page.h: `json_transaction`.
use monero_sci_parser.Base.{
  ℕ, suc, Bool, true, not, Option, none, some, List, [], ◌∷◌, leb, if◌then◌else◌, get_elem?, ◌>>=◌,
  ◌&&◌,
}
use monero_sci_parser.Text.{Str}
use monero_sci_parser.Tools.{InToKey}
use monero_sci_parser.Pages.{
  Node, failed_retrieving_outputs, Answer, fail, error, success, bare, get_tx_details, TxJson,
  get_tx_json,
}
use monero_sci_parser.Pages.Block.{Made, made_all, stopped, raised, and_made}
use monero_sci_parser.Pages.Raw.{
  OutputData, RawTx, OutputDb, Located, located, not_located, locate, json_rawtransaction,
}

-- `are_absolute_offsets_good`
unfoldable pub are_absolute_offsets_good : ℕ → List ℕ → Bool
are_absolute_offsets_good no_outputs [] = true
are_absolute_offsets_good no_outputs (o ∷ os) =
    not (leb no_outputs o) && are_absolute_offsets_good no_outputs os

-- The entries of the JSON data; `none` is "N/A" for an index, and null for a key offset.
pub record OutputJson : Type 0 where
  pub public_key : Option Str
  pub amount : ℕ
  pub amount_idx : Option ℕ
  pub output_idx : ℕ

pub record MixinJson : Type 0 where
  pub public_key : Str
  pub block_no : ℕ
  pub key_offset : Option ℕ

pub record InputJson : Type 0 where
  pub key_image : Str
  pub amount : ℕ
  pub mixins : List MixinJson

-- `out_amount_indices`; every exception leaves it empty.
unfoldable pub amount_indices : OutputDb → Str → List ℕ
amount_indices db hash = elim (db.tx_exists hash) [
  | none ↦ []
  | some tx_index ↦ elim (db.get_tx_amount_output_indices tx_index) [
    | none ↦ []
    | some indices ↦ indices
  ]
]

-- An output with its index; `at` raises an exception past the end of the indices.
unfoldable pub output_json : List ℕ → ℕ → Option Str × ℕ → Option OutputJson
output_json [] idx (key, amount) =
    some (record { public_key = key; amount = amount; amount_idx = none; output_idx = idx })
output_json (i ∷ is) idx (key, amount) = elim (get_elem? (i ∷ is) idx) [
  | none ↦ none
  | some out_amount_index ↦ some (record {
    public_key = key;
    amount = amount;
    amount_idx = some out_amount_index;
    output_idx = idx;
  })
]

unfoldable pub outputs_json : List ℕ → ℕ → List (Option Str × ℕ) → Option (List OutputJson)
unfolding output_json
outputs_json indices idx [] = some []
outputs_json indices idx (o ∷ os) =
    output_json indices idx o >>= λ j. outputs_json indices (suc idx) os >>= λ js. some (j ∷ js)

-- The mixins of an input: the `y`-th has the `y`-th offset.
unfoldable pub mixins_json : List ℕ → ℕ → List OutputData → List MixinJson
mixins_json key_offsets y [] = []
mixins_json key_offsets y (d ∷ ds) =
    record { public_key = d.pubkey; block_no = d.height; key_offset = get_elem? key_offsets y }
    ∷ mixins_json key_offsets (suc y) ds

-- The loop over the inputs. The counter `x` is declared inside, so `raw_tx_data.at("vin")[x]` is the
-- first entry in each round; `none` for `raw` is data without "vin".
unfoldable pub inputs_json : OutputDb → Option RawTx → List InToKey → Made (List InputJson)
unfolding are_absolute_offsets_good mixins_json
inputs_json db raw [] = made_all []
inputs_json db raw (in_key ∷ keys) =
    let rest = inputs_json db raw keys in
    let absolute_offsets = db.relative_output_offsets_to_absolute in_key.key_offsets in
    if are_absolute_offsets_good (db.get_num_outputs in_key.amount) absolute_offsets
    then elim (db.get_output_key in_key.amount absolute_offsets) [
      | none ↦ stopped
      | some outputs ↦ elim (raw >>= λ vin. get_elem? vin 0 >>= λ first. first) [
        | none ↦ raised
        | some key_offsets ↦
            and_made
              (record {
                key_image = in_key.k_image;
                amount = in_key.amount;
                mixins = mixins_json key_offsets 0 outputs;
              })
              rest
      ]
    ]
    else rest

-- The data of `json_transaction`.
pub record TransactionJson : Type 0 where
  pub tx : TxJson
  pub timestamp : ℕ
  pub block_height : ℕ
  pub confirmations : ℕ
  pub outputs : List OutputJson
  pub inputs : List InputJson
  pub current_height : ℕ

-- "vin" of what `json_rawtransaction` returns: a failure has none.
unfoldable pub raw_vin : Answer RawTx → Option RawTx
raw_vin (bare raw) = some raw
raw_vin (success raw) = none
raw_vin (fail t) = none
raw_vin (error t) = none

-- The answer that the loop over the inputs leads to; `none` is an exception that is not caught.
unfoldable pub inputs_answer :
    (List InputJson → TransactionJson) → Made (List InputJson) → Option (Answer TransactionJson)
inputs_answer j (made_all inputs) = some (bare (j inputs))
inputs_answer j stopped = some (error failed_retrieving_outputs)
inputs_answer j raised = none

unfoldable pub transaction_answer :
    Node → OutputDb → Answer RawTx → Located TransactionJson → Option (Answer TransactionJson)
unfolding amount_indices outputs_json inputs_json raw_vin inputs_answer
transaction_answer node db raw_tx_data (not_located answer) = some answer
transaction_answer node db raw_tx_data (located f block_height tx_timestamp) =
    get_tx_details node f.tx (node.is_coinbase f.tx) block_height node.current_height >>= λ txd.
    outputs_json (amount_indices db txd.hash) 0 txd.output_pub_keys >>= λ outputs.
    let j_data : List InputJson → TransactionJson = λ inputs. record {
      tx = get_tx_json node f.tx txd;
      timestamp = tx_timestamp;
      block_height = block_height;
      confirmations = if f.found_in_mempool then 0 else txd.no_confirmations;
      outputs = outputs;
      inputs = inputs;
      current_height = node.current_height;
    } in
    inputs_answer j_data (inputs_json db (raw_vin raw_tx_data) txd.input_key_imgs)

-- `json_transaction`
unfoldable pub json_transaction : Node → OutputDb → Str → Option (Answer TransactionJson)
unfolding locate json_rawtransaction transaction_answer
json_transaction node db tx_hash_str =
    transaction_answer node db (json_rawtransaction node db tx_hash_str) (locate node tx_hash_str)
