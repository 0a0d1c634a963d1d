-- ===== src/Examples/Money.antt =====
-- The results on the sums over transactions, on two transactions.
use monero_sci_parser.Base.{◌≡◌, some, [], ◌∷◌, ◌++◌, sub64, head_or, ◌>>=◌}
use monero_sci_parser.Tools.{
  sum_money_in_outputs, sum_money_in_inputs, count_nonrct_inputs, get_mixin_no, get_ouputs,
  get_key_images, summary_of_in_out_rct,
}
use monero_sci_parser.Tools.Json.{
  JsonTx, sum_money_in_outputs_json, sum_money_in_inputs_json, count_nonrct_inputs_json,
  get_mixin_no_json, summary_of_in_out_rct_json, summary_of_in_out_rct_json-parts,
}
use monero_sci_parser.Tools.OnePass.{keyed, summary_of_in_out_rct-parts}
use monero_sci_parser.Examples.OneChain.{example_tx}

summary_of_in_out_rct-parts_example : summary_of_in_out_rct example_tx [] [] ≡ record {
  xmr_outputs = sum_money_in_outputs (record example_tx { vout = keyed example_tx.vout });
  xmr_inputs = sum_money_in_inputs example_tx;
  mixin_no = get_mixin_no example_tx;
  num_nonrct_inputs = count_nonrct_inputs example_tx;
  output_pub_keys = [] ++ get_ouputs example_tx;
  input_key_imgs = [] ++ get_key_images example_tx;
}
summary_of_in_out_rct-parts_example = summary_of_in_out_rct-parts example_tx [] []

abbrev example_json : JsonTx
example_json = record {
  vin = record { amount = 5; key_offsets = 1 ∷ 2 ∷ [] } ∷ [];
  vout = 3 ∷ 1 ∷ [];
}

summary_of_in_out_rct_json-parts_example : summary_of_in_out_rct_json example_json ≡ (
    get_mixin_no_json example_json >>= λ mixin_no. some (record {
      xmr_outputs = (sum_money_in_outputs_json example_json).0;
      xmr_inputs = (sum_money_in_inputs_json example_json).0;
      no_outputs = (sum_money_in_outputs_json example_json).1;
      no_inputs = (sum_money_in_inputs_json example_json).1;
      mixin_no = sub64 (head_or mixin_no 0) 1;
      num_nonrct_inputs = count_nonrct_inputs_json example_json;
    }))
summary_of_in_out_rct_json-parts_example = summary_of_in_out_rct_json-parts example_json
