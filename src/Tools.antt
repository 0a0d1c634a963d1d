-- ===== src/Tools.antt =====
-- src/tools.cpp: the sums and counts over the inputs and outputs of transactions. The transaction
-- types are Monero's; only the fields that these functions read are here. `Json` has the versions on
-- parsed JSON; those that parse a text first are not modelled.
pub mod OnePass
pub mod Json
pub mod Age
pub mod Url
use monero_sci_parser.Base.{
  ℕ, ◌+◌, Bool, Option, none, some, List, [], ◌∷◌, ◌++◌, u64, sub64, ltb, ◌==◌, if◌then◌else◌,
  ◌>>=◌, length,
}
use monero_sci_parser.Text.{Str}
use monero_sci_parser.Parser.Store.{push}

-- `txin_to_key`
pub record InToKey : Type 0 where
  pub amount : ℕ
  pub key_offsets : List ℕ
  pub k_image : Str

-- An input of a transaction; the functions tell `txin_to_key` from all other types.
pub data TxIn : Type 0 where
  in_to_key : InToKey → TxIn
  in_other : TxIn

-- An output; `key` is `none` where the target is no `txout_to_key`.
pub record TxOut : Type 0 where
  pub amount : ℕ
  pub key : Option Str

pub record Tx : Type 0 where
  pub vin : List TxIn
  pub vout : List TxOut

-- `sum_money_in_outputs`, from the sum so far.
unfoldable pub sum_outputs : List TxOut → ℕ → ℕ
sum_outputs [] sum_xmr = sum_xmr
sum_outputs (o ∷ os) sum_xmr = sum_outputs os (u64 (sum_xmr + o.amount))

unfoldable pub sum_money_in_outputs : Tx → ℕ
sum_money_in_outputs tx = sum_outputs tx.vout 0

-- `sum_money_in_inputs`
unfoldable pub sum_inputs : List TxIn → ℕ → ℕ
sum_inputs [] sum_xmr = sum_xmr
sum_inputs (in_other ∷ is) sum_xmr = sum_inputs is sum_xmr
sum_inputs (in_to_key k ∷ is) sum_xmr = sum_inputs is (u64 (sum_xmr + k.amount))

unfoldable pub sum_money_in_inputs : Tx → ℕ
sum_money_in_inputs tx = sum_inputs tx.vin 0

-- `++num` where the amount is not 0.
abbrev pub count_amount : ℕ → ℕ → ℕ
count_amount amount num = if amount == 0 then num else u64 (num + 1)

-- `count_nonrct_inputs`
unfoldable pub count_inputs : List TxIn → ℕ → ℕ
count_inputs [] num = num
count_inputs (in_other ∷ is) num = count_inputs is num
count_inputs (in_to_key k ∷ is) num = count_inputs is (count_amount k.amount num)

unfoldable pub count_nonrct_inputs : Tx → ℕ
count_nonrct_inputs tx = count_inputs tx.vin 0

-- `get_mixin_no`: the loop ends at the first number that is not 0.
unfoldable pub mixin_loop : List TxIn → ℕ → ℕ
mixin_loop [] mixin_no = mixin_no
mixin_loop (in_other ∷ is) mixin_no = mixin_loop is mixin_no
mixin_loop (in_to_key k ∷ is) mixin_no =
    let rest = mixin_loop is (length k.key_offsets) in
    if ltb 0 (length k.key_offsets) then length k.key_offsets else rest

unfoldable pub get_mixin_no : Tx → ℕ
get_mixin_no tx = mixin_loop tx.vin 0

-- The entry of `get_ouputs` for an output; one without a key gives the empty pair.
unfoldable pub output_pair : TxOut → Option Str × ℕ
output_pair o = elim (o.key) [ none ↦ (none, 0) | some key ↦ (some key, o.amount) ]

-- `get_ouputs`, from the outputs so far.
unfoldable pub outputs_loop : List TxOut → List (Option Str × ℕ) → List (Option Str × ℕ)
outputs_loop [] outputs = outputs
outputs_loop (o ∷ os) outputs = outputs_loop os (push outputs (output_pair o))

unfoldable pub get_ouputs : Tx → List (Option Str × ℕ)
get_ouputs tx = outputs_loop tx.vout []

-- `get_key_images`
unfoldable pub key_images_loop : List TxIn → List InToKey → List InToKey
key_images_loop [] key_images = key_images
key_images_loop (in_other ∷ is) key_images = key_images_loop is key_images
key_images_loop (in_to_key k ∷ is) key_images = key_images_loop is (push key_images k)

unfoldable pub get_key_images : Tx → List InToKey
get_key_images tx = key_images_loop tx.vin []

-- What `summary_of_in_out_rct` returns, with the two vectors that it appends to.
pub record Summary : Type 0 where
  pub xmr_outputs : ℕ
  pub xmr_inputs : ℕ
  pub mixin_no : ℕ
  pub num_nonrct_inputs : ℕ
  pub output_pub_keys : List (Option Str × ℕ)
  pub input_key_imgs : List InToKey

-- Its loop over the outputs.
unfoldable pub summary_outputs : List TxOut → Summary → Summary
unfolding output_pair
summary_outputs [] s = s
summary_outputs (o ∷ os) s =
    let xmr_outputs : ℕ = elim (o.key) [
      | none ↦ s.xmr_outputs
      | some key ↦ u64 (s.xmr_outputs + o.amount)
    ] in
    summary_outputs os (record s {
      output_pub_keys = push s.output_pub_keys (output_pair o);
      xmr_outputs = xmr_outputs;
    })

-- Its loop over the inputs.
unfoldable pub summary_inputs : List TxIn → Summary → Summary
summary_inputs [] s = s
summary_inputs (in_other ∷ is) s = summary_inputs is s
summary_inputs (in_to_key k ∷ is) s = summary_inputs is (record s {
  xmr_inputs = u64 (s.xmr_inputs + k.amount);
  num_nonrct_inputs = count_amount k.amount s.num_nonrct_inputs;
  mixin_no = if s.mixin_no == 0 then length k.key_offsets else s.mixin_no;
  input_key_imgs = push s.input_key_imgs k;
})

unfoldable pub summary_of_in_out_rct : Tx → List (Option Str × ℕ) → List InToKey → Summary
summary_of_in_out_rct tx output_pub_keys input_key_imgs = summary_inputs tx.vin (
    summary_outputs tx.vout (record {
      xmr_outputs = 0;
      xmr_inputs = 0;
      mixin_no = 0;
      num_nonrct_inputs = 0;
      output_pub_keys = output_pub_keys;
      input_key_imgs = input_key_imgs;
    }))

-- `sum_money_in_txs`, from the sums so far.
unfoldable pub sum_txs : List Tx → ℕ → ℕ → ℕ × ℕ
sum_txs [] inputs outputs = (inputs, outputs)
sum_txs (tx ∷ txs) inputs outputs =
    sum_txs txs (u64 (inputs + sum_money_in_inputs tx)) (u64 (outputs + sum_money_in_outputs tx))

unfoldable pub sum_money_in_txs : List Tx → ℕ × ℕ
sum_money_in_txs txs = sum_txs txs 0 0
