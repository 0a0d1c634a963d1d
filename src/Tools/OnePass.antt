-- ===== src/Tools/OnePass.antt =====
-- `summary_of_in_out_rct` computes in one pass what the single functions compute, and the wrapping
-- sums are the exact sums modulo 2 ^ 64.
use mathlib.Core.List.{append-nil, append_assoc}
use monero_sci_parser.Base.{
  ℕ, ◌+◌, ◌<◌, ◌≡◌, refl, ap, ◌∙◌, sym, Option, none, some, List, [], ◌∷◌, ◌++◌, arith, u64,
  u64_mod, ltb, ◌==◌, if◌then◌else◌, length, Option-cases, Bool-cases, inl, inr,
}
use monero_sci_parser.Text.{Str}
use monero_sci_parser.Parser.Store.{push}
use monero_sci_parser.Tools.{
  InToKey, TxIn, in_to_key, in_other, TxOut, Tx, sum_outputs, sum_money_in_outputs, sum_inputs,
  sum_money_in_inputs, count_amount, count_inputs, count_nonrct_inputs, mixin_loop, get_mixin_no,
  output_pair, outputs_loop, get_ouputs, key_images_loop, get_key_images, Summary, summary_outputs,
  summary_inputs, summary_of_in_out_rct, sum_txs, sum_money_in_txs,
}

-- The outputs with a key.
abbrev pub keyed : List TxOut → List TxOut
keyed [] = []
keyed (o ∷ os) = elim (o.key) [ none ↦ keyed os | some key ↦ o ∷ keyed os ]

outputs_loop-push :
    (os : List TxOut) (xs : List (Option Str × ℕ)) → outputs_loop os xs ≡ xs ++ outputs_loop os []
unfolding outputs_loop
outputs_loop-push [] xs = sym (append-nil xs)
outputs_loop-push (o ∷ os) xs =
    outputs_loop-push os (push xs (output_pair o))
    ∙ append_assoc xs (output_pair o ∷ []) (outputs_loop os [])
    ∙ ap (λ l. xs ++ l) (sym (outputs_loop-push os (output_pair o ∷ [])))

key_images_loop-push :
    (is : List TxIn) (xs : List InToKey) → key_images_loop is xs ≡ xs ++ key_images_loop is []
unfolding key_images_loop
key_images_loop-push [] xs = sym (append-nil xs)
key_images_loop-push (in_other ∷ is) xs = key_images_loop-push is xs
key_images_loop-push (in_to_key k ∷ is) xs =
    key_images_loop-push is (push xs k)
    ∙ append_assoc xs (k ∷ []) (key_images_loop is [])
    ∙ ap (λ l. xs ++ l) (sym (key_images_loop-push is (k ∷ [])))

summary_outputs-loops :
    (os : List TxOut) (s : Summary)
    → summary_outputs os s ≡ record s {
      xmr_outputs = sum_outputs (keyed os) s.xmr_outputs;
      output_pub_keys = outputs_loop os s.output_pub_keys;
    }
unfolding summary_outputs sum_outputs outputs_loop
summary_outputs-loops [] s = refl
summary_outputs-loops (o ∷ os) s = elim (Option-cases (o.key)) [
  | inl e ↦ rw e (summary_outputs-loops os _)
  | inr (key, e) ↦ rw e (summary_outputs-loops os _)
]

-- The number that the loop of `get_mixin_no` would give, where one is kept once it is not 0.
abbrev mixin_from : List TxIn → ℕ → ℕ
mixin_from is m = if m == 0 then mixin_loop is 0 else m

mixin_from_step :
    (k : InToKey) (is : List TxIn) (m : ℕ)
    → mixin_from is (if m == 0 then length k.key_offsets else m) ≡ mixin_from (in_to_key k ∷ is) m
unfolding mixin_loop
mixin_from_step k is m = elim (Bool-cases (ltb 0 (length k.key_offsets))) [
  | inl e ↦ ground (arith, e)
  | inr e ↦
      let none_there : length k.key_offsets ≡ 0 = ground (arith, e) in
      rw (none_there) (ground arith)
]

mixin_from_end : (m : ℕ) → m ≡ mixin_from [] m
unfolding mixin_loop
mixin_from_end m = ground arith

mixin_from_other : (is : List TxIn) (m : ℕ) → mixin_from is m ≡ mixin_from (in_other ∷ is) m
unfolding mixin_loop
mixin_from_other is m = refl

summary_inputs-loops :
    (is : List TxIn) (s : Summary)
    → summary_inputs is s ≡ record s {
      xmr_inputs = sum_inputs is s.xmr_inputs;
      num_nonrct_inputs = count_inputs is s.num_nonrct_inputs;
      mixin_no = mixin_from is s.mixin_no;
      input_key_imgs = key_images_loop is s.input_key_imgs;
    }
unfolding summary_inputs sum_inputs count_inputs key_images_loop
summary_inputs-loops [] s = ap (λ n. record s { mixin_no = n }) (mixin_from_end s.mixin_no)
summary_inputs-loops (in_other ∷ is) s =
    summary_inputs-loops is s
    ∙ ap
        (λ n. record s {
          xmr_inputs = sum_inputs is s.xmr_inputs;
          num_nonrct_inputs = count_inputs is s.num_nonrct_inputs;
          mixin_no = n;
          input_key_imgs = key_images_loop is s.input_key_imgs;
        })
        (mixin_from_other is s.mixin_no)
summary_inputs-loops (in_to_key k ∷ is) s =
    summary_inputs-loops is _
    ∙ ap
        (λ n. record s {
          xmr_inputs = sum_inputs is (u64 (s.xmr_inputs + k.amount));
          num_nonrct_inputs = count_inputs is (count_amount k.amount s.num_nonrct_inputs);
          mixin_no = n;
          input_key_imgs = key_images_loop is (push s.input_key_imgs k);
        })
        (mixin_from_step k is s.mixin_no)

-- `summary_of_in_out_rct` gives what the single functions give: the sum of the inputs, the mixin
-- number, the count of inputs with an amount, and at the end of the two vectors the outputs and the
-- key images. Its sum of the outputs is that of the outputs with a key alone.
pub summary_of_in_out_rct-parts :
    (tx : Tx) (output_pub_keys : List (Option Str × ℕ)) (input_key_imgs : List InToKey)
    → summary_of_in_out_rct tx output_pub_keys input_key_imgs ≡ record {
      xmr_outputs = sum_money_in_outputs (record tx { vout = keyed tx.vout });
      xmr_inputs = sum_money_in_inputs tx;
      mixin_no = get_mixin_no tx;
      num_nonrct_inputs = count_nonrct_inputs tx;
      output_pub_keys = output_pub_keys ++ get_ouputs tx;
      input_key_imgs = input_key_imgs ++ get_key_images tx;
    }
unfolding summary_of_in_out_rct sum_money_in_outputs sum_money_in_inputs get_mixin_no
    count_nonrct_inputs get_ouputs get_key_images
summary_of_in_out_rct-parts tx outs imgs =
    rw
      (
        summary_outputs-loops tx.vout _,
        summary_inputs-loops tx.vin _,
        outputs_loop-push tx.vout outs,
        key_images_loop-push tx.vin imgs,
      )
      refl

-- The exact sums.
pub exact_inputs : List TxIn → ℕ
exact_inputs [] = 0
exact_inputs (in_other ∷ is) = exact_inputs is
exact_inputs (in_to_key k ∷ is) = k.amount + exact_inputs is

pub exact_outputs : List TxOut → ℕ
exact_outputs [] = 0
exact_outputs (o ∷ os) = o.amount + exact_outputs os

abbrev pub total : (Tx → ℕ) → List Tx → ℕ
total f [] = 0
total f (tx ∷ txs) = f tx + total f txs

sum_inputs-exact :
    (is : List TxIn) (acc : ℕ) → acc < u64_mod → sum_inputs is acc ≡ u64 (acc + exact_inputs is)
unfolding sum_inputs exact_inputs
sum_inputs-exact [] acc fits = omega arith
sum_inputs-exact (in_other ∷ is) acc fits = sum_inputs-exact is acc fits
sum_inputs-exact (in_to_key k ∷ is) acc fits =
    sum_inputs-exact is (u64 (acc + k.amount)) (omega arith) ∙ omega arith

sum_outputs-exact :
    (os : List TxOut) (acc : ℕ) → acc < u64_mod → sum_outputs os acc ≡ u64 (acc + exact_outputs os)
unfolding sum_outputs exact_outputs
sum_outputs-exact [] acc fits = omega arith
sum_outputs-exact (o ∷ os) acc fits =
    sum_outputs-exact os (u64 (acc + o.amount)) (omega arith) ∙ omega arith

same_pair : {a b c d : ℕ} → a ≡ b → c ≡ d → ◌≡◌ {A = ℕ × ℕ} (a, c) (b, d)
same_pair p q = λ i. (p i, q i)

sum_txs-exact :
    (txs : List Tx) (a b : ℕ)
    → a < u64_mod
    → b < u64_mod
    → sum_txs txs a b ≡ (
      u64 (a + total (λ t. exact_inputs t.vin) txs),
      u64 (b + total (λ t. exact_outputs t.vout) txs),
    )
unfolding sum_txs sum_money_in_inputs sum_money_in_outputs
sum_txs-exact [] a b fa fb = same_pair (omega arith) (omega arith)
sum_txs-exact (tx ∷ txs) a b fa fb =
    rw (sum_inputs-exact tx.vin 0 (omega arith), sum_outputs-exact tx.vout 0 (omega arith))
      (sum_txs-exact txs _ _ (omega arith) (omega arith) ∙ same_pair (omega arith) (omega arith))

-- `sum_money_in_txs` gives the exact sums of all inputs and of all outputs modulo 2 ^ 64.
pub sum_money_in_txs-exact :
    (txs : List Tx)
    → sum_money_in_txs txs
      ≡ (u64 (total (λ t. exact_inputs t.vin) txs), u64 (total (λ t. exact_outputs t.vout) txs))
unfolding sum_money_in_txs
sum_money_in_txs-exact txs =
    sum_txs-exact txs 0 0 (omega arith) (omega arith) ∙ same_pair (omega arith) (omega arith)
