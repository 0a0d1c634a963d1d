-- ===== src/Tools/Json.antt =====
-- The versions of the sums and counts of src/tools.cpp that read the JSON of a transaction in the
-- mempool; a missing entry is an exception, here `none`.
use monero_sci_parser.Base.{
  ℕ, ◌+◌, ◌<◌, ◌≡◌, refl, ap, ◌∙◌, Option, none, some, List, [], ◌∷◌, map, arith, u64, u64_mod,
  sub64, head_or, length, ◌>>=◌, Option-cases, inl, inr,
}
use monero_sci_parser.Tools.{count_amount}

-- The "key" of an entry of "vin".
pub record JsonIn : Type 0 where
  pub amount : ℕ
  pub key_offsets : List ℕ

-- `vout` has the amounts of "vout". A field that is missing, an exception in the source, is left out.
pub record JsonTx : Type 0 where
  pub vin : List JsonIn
  pub vout : List ℕ

-- The loop of `sum_money_in_outputs` and of `sum_money_in_inputs`: the sum and the number.
unfoldable pub sum_json : List ℕ → ℕ → ℕ → ℕ × ℕ
sum_json [] sum number = (sum, number)
sum_json (amount ∷ amounts) sum number = sum_json amounts (u64 (sum + amount)) (u64 (number + 1))

abbrev pub amounts_in : List JsonIn → List ℕ
amounts_in is = map (λ i. i.amount) is

unfoldable pub sum_money_in_outputs_json : JsonTx → ℕ × ℕ
sum_money_in_outputs_json tx = sum_json tx.vout 0 0

unfoldable pub sum_money_in_inputs_json : JsonTx → ℕ × ℕ
sum_money_in_inputs_json tx = sum_json (amounts_in tx.vin) 0 0

-- `count_nonrct_inputs`
unfoldable pub count_json : List JsonIn → ℕ → ℕ
count_json [] num = num
count_json (i ∷ is) num = count_json is (count_amount i.amount num)

unfoldable pub count_nonrct_inputs_json : JsonTx → ℕ
count_nonrct_inputs_json tx = count_json tx.vin 0

-- `at(0)`
unfoldable pub first_in : List JsonIn → Option JsonIn
first_in [] = none
first_in (i ∷ is) = some i

-- `get_mixin_no`
unfoldable pub get_mixin_no_json : JsonTx → Option (List ℕ)
get_mixin_no_json tx = do i ← first_in tx.vin; some (length i.key_offsets ∷ [])

-- What `summary_of_in_out_rct` gives.
pub record JsonSummary : Type 0 where
  pub xmr_outputs : ℕ
  pub xmr_inputs : ℕ
  pub no_outputs : ℕ
  pub no_inputs : ℕ
  pub mixin_no : ℕ
  pub num_nonrct_inputs : ℕ

-- Its loop over "vout".
unfoldable pub json_outputs : List ℕ → ℕ → ℕ
json_outputs [] xmr_outputs = xmr_outputs
json_outputs (amount ∷ amounts) xmr_outputs = json_outputs amounts (u64 (xmr_outputs + amount))

-- Its loop over "vin".
unfoldable pub json_inputs : List JsonIn → ℕ → ℕ → ℕ × ℕ
json_inputs [] xmr_inputs num = (xmr_inputs, num)
json_inputs (i ∷ is) xmr_inputs num =
    json_inputs is (u64 (xmr_inputs + i.amount)) (count_amount i.amount num)

unfoldable pub summary_of_in_out_rct_json : JsonTx → Option JsonSummary
summary_of_in_out_rct_json tx = do
  let ins = json_inputs tx.vin 0 0
  first ← first_in tx.vin
  some (record {
    xmr_outputs = json_outputs tx.vout 0;
    xmr_inputs = ins.0;
    no_outputs = u64 (length tx.vout);
    no_inputs = u64 (length tx.vin);
    mixin_no = sub64 (length first.key_offsets) 1;
    num_nonrct_inputs = ins.1;
  })

sum_json-parts :
    (amounts : List ℕ) (sum number : ℕ)
    → number < u64_mod
    → sum_json amounts sum number ≡ (json_outputs amounts sum, u64 (number + length amounts))
unfolding sum_json json_outputs
sum_json-parts [] sum number fits =
    λ i. (sum, (let e : number ≡ u64 (number + 0) = omega arith in e) i)
sum_json-parts (amount ∷ amounts) sum number fits =
    sum_json-parts amounts (u64 (sum + amount)) (u64 (number + 1)) (omega arith)
    ∙ ap (λ n. (json_outputs amounts (u64 (sum + amount)), n))
        {x = u64 (u64 (number + 1) + length amounts)} (omega arith)

sum_json_all :
    (amounts : List ℕ) → sum_json amounts 0 0 ≡ (json_outputs amounts 0, u64 (length amounts))
sum_json_all amounts =
    sum_json-parts amounts 0 0 (omega arith)
    ∙ ap (λ n. (json_outputs amounts 0, n)) {x = u64 (0 + length amounts)} (omega arith)

json_inputs-parts :
    (is : List JsonIn) (sum num : ℕ)
    → json_inputs is sum num ≡ (json_outputs (amounts_in is) sum, count_json is num)
unfolding json_inputs json_outputs count_json
json_inputs-parts [] sum num = refl
json_inputs-parts (i ∷ is) sum num =
    json_inputs-parts is (u64 (sum + i.amount)) (count_amount i.amount num)

length-amounts_in : (is : List JsonIn) → length (amounts_in is) ≡ length is
length-amounts_in [] = refl
length-amounts_in (i ∷ is) = omega (arith, length-amounts_in is)

-- The summary of a JSON transaction gives the sums and numbers of its outputs and of its inputs and
-- the count of inputs with an amount as the single functions do, and fails where `get_mixin_no`
-- fails; but its mixin number is one less than that of `get_mixin_no`, modulo 2 ^ 64.
pub summary_of_in_out_rct_json-parts :
    (tx : JsonTx)
    → summary_of_in_out_rct_json tx ≡ (
        get_mixin_no_json tx >>= λ mixin_no. some (record {
          xmr_outputs = (sum_money_in_outputs_json tx).0;
          xmr_inputs = (sum_money_in_inputs_json tx).0;
          no_outputs = (sum_money_in_outputs_json tx).1;
          no_inputs = (sum_money_in_inputs_json tx).1;
          mixin_no = sub64 (head_or mixin_no 0) 1;
          num_nonrct_inputs = count_nonrct_inputs_json tx;
        }))
unfolding summary_of_in_out_rct_json get_mixin_no_json sum_money_in_outputs_json
    sum_money_in_inputs_json count_nonrct_inputs_json
summary_of_in_out_rct_json-parts tx = elim (Option-cases (first_in tx.vin)) [
  | inl e ↦ rw e refl
  | inr (first, e) ↦
      rw
        (
          e,
          json_inputs-parts tx.vin 0 0,
          sum_json_all tx.vout,
          sum_json_all (amounts_in tx.vin),
          length-amounts_in tx.vin,
        )
        refl
]
