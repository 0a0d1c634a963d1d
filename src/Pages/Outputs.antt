-- ===== src/Pages/Outputs.antt =====
-- src/page.h: the search for the outputs of an address, in a transaction (`json_outputs`). Monero's cryptography is the parameter `Keys`.
use monero_sci_parser.Base.{
  ℕ, suc, Bool, true, false, not, Option, none, some, List, [], ◌∷◌, ◌==◌, ◌&&◌, if◌then◌else◌,
  ◌>>=◌, get_or, length,
}
use monero_sci_parser.Text.{Str, codes, str_eq}
use monero_sci_parser.Tools.{Tx}
use monero_sci_parser.Pages.{
  Node, Title, tx_hash_not_provided, address_not_provided, viewkey_not_provided,
  tx_private_key_not_provided, cant_parse_tx_hash, cant_parse_address, cant_parse_view_or_tx_key,
  cant_find_tx_hash, cant_calculate_key_derivation, Answer, fail, error, success, TxDetails,
  get_tx_details, find_tx,
}

-- `rv.type`, as the switch of `decode_ringct` tells the types apart.
pub data RctType : Type 0 where
  rct_simple : RctType
  rct_full : RctType
  rct_other : RctType

-- `account_public_address`
pub record Address : Type 0 where
  pub view_public_key : Str
  pub spend_public_key : Str

-- Boost and Monero: `none` is the answer false of a reader or of `generate_key_derivation`, the null
-- hash of a payment id, and the exception of a decoder. `public_keys` are the keys in the extra field.
pub record Keys : Type 0 where
  pub trim : Str → Str
  pub parse_str_address : Str → Option Address
  pub null_pkey : Str
  pub public_keys : Tx → List Str
  pub additional_pks : Tx → List Str
  pub version : Tx → ℕ
  pub generate_key_derivation : Str → Str → Option Str
  pub derive_public_key : Str → ℕ → Str → Str
  pub derivation_to_scalar : Str → ℕ → Str
  pub rct_type : Tx → RctType
  pub decode_rct_simple : Tx → Str → ℕ → Option ℕ
  pub decode_rct : Tx → Str → ℕ → Option ℕ
  pub payment_id : Tx → Option Str
  pub payment_id8 : Tx → Option Str
  pub decrypt_payment_id : Str → Str → Str → Option Str

-- `get_tx_pub_key_from_received_outs` of src/tools.cpp on the keys of the extra field.
unfoldable pub tx_pub_key : Str → List Str → Str
tx_pub_key null_key [] = null_key
tx_pub_key null_key (key ∷ []) = key
tx_pub_key null_key (key ∷ second ∷ keys) = second

-- `decode_ringct` of src/tools.cpp with a derivation; `none` is the answer false.
unfoldable pub decode_ringct : Keys → Tx → Str → ℕ → Option ℕ
decode_ringct keys tx derivation i = elim (keys.rct_type tx) [
  | rct_simple ↦ keys.decode_rct_simple tx (keys.derivation_to_scalar derivation i) i
  | rct_full ↦ keys.decode_rct tx (keys.derivation_to_scalar derivation i) i
  | rct_other ↦ none
]

-- The derivation and the additional ones, for a public key and a private one.
pub record Derivations : Type 0 where
  pub derivation : Str
  pub additional : List Str

unfoldable pub additional_derivations : Keys → Str → List Str → Option (List Str)
additional_derivations keys key [] = some []
additional_derivations keys key (pk ∷ pks) = keys.generate_key_derivation pk key >>= λ d.
    additional_derivations keys key pks >>= λ ds. some (d ∷ ds)

unfoldable pub derivations_for : Keys → Tx → Str → Str → Option Derivations
unfolding additional_derivations
derivations_for keys tx pub_key key = keys.generate_key_derivation pub_key key >>= λ d.
    additional_derivations keys key (keys.additional_pks tx) >>= λ ds.
    some (record { derivation = d; additional = ds })

-- `outp.first.key == tx_pubkey`; an output without a key has an empty one.
unfoldable pub same_key : Option Str → Str → Bool
same_key key tx_pubkey = elim key [ none ↦ false | some k ↦ str_eq k tx_pubkey ]

-- An output of the loop: `mine_output`, and the derivation that its amount is decoded with.
pub record Mine : Type 0 where
  pub mine_output : Bool
  pub decoding : Str

-- The additional derivation of an output is tried where each output has one.
unfoldable pub test_output : Keys → Address → Derivations → ℕ → ℕ → Option Str → Mine
unfolding same_key
test_output keys address ds no_outputs output_idx key =
    let with_derivation =
      same_key key (keys.derive_public_key ds.derivation output_idx address.spend_public_key) in
    let other = get_or ds.additional output_idx (codes "") in
    if not with_derivation && length ds.additional == no_outputs
    then record {
      mine_output = same_key key (keys.derive_public_key other output_idx address.spend_public_key);
      decoding = other;
    }
    else record { mine_output = with_derivation; decoding = ds.derivation }

-- The amount of an output: the one in plain sight, or the decoded one, `none` where that fails.
-- `money_transfered` is 0 where it is read.
unfoldable pub amount_of : Node → Keys → Tx → Mine → ℕ → ℕ → Option ℕ
unfolding decode_ringct
amount_of node keys tx m output_idx amount =
    if m.mine_output && keys.version tx == 2
    then (if node.is_coinbase tx then some amount else decode_ringct keys tx m.decoding output_idx)
    else some amount

-- An entry of "outputs" of `json_outputs`.
pub record OutputMatch : Type 0 where
  pub output_pubkey : Option Str
  pub amount : ℕ
  pub matches : Bool
  pub output_idx : ℕ

-- An amount that cannot be decoded is shown as 0.
unfoldable pub amount_or_zero : Option ℕ → ℕ
amount_or_zero none = 0
amount_or_zero (some amount) = amount

module _ (node : Node) (keys : Keys) where
  unfoldable pub output_match : Tx → Address → Derivations → ℕ → ℕ → Option Str × ℕ → OutputMatch
  unfolding test_output amount_of amount_or_zero
  output_match tx address ds no_outputs output_idx (key, amount) =
      let m = test_output keys address ds no_outputs output_idx key in
      record {
        output_pubkey = key;
        amount = amount_or_zero (amount_of node keys tx m output_idx amount);
        matches = m.mine_output;
        output_idx = output_idx;
      }

  -- The loop of `json_outputs`.
  unfoldable pub match_loop :
      Tx → Address → Derivations → ℕ → ℕ → List (Option Str × ℕ) → List OutputMatch
  unfolding output_match
  match_loop tx address ds no_outputs output_idx [] = []
  match_loop tx address ds no_outputs output_idx (o ∷ os) =
      output_match tx address ds no_outputs output_idx o
      ∷ match_loop tx address ds no_outputs (suc output_idx) os

-- The data of `json_outputs`.
pub record OutputsJson : Type 0 where
  pub outputs : List OutputMatch
  pub tx_hash : Str
  pub address : Address
  pub viewkey : Str
  pub tx_prove : Bool

-- `str.empty()`
abbrev pub is_empty : Str → Bool
is_empty [] = true
is_empty (c ∷ cs) = false

-- What the texts of a request stand for, or the message of the error.
pub data Parsed : Type 0 where
  parsed : Address → Str → Parsed
  not_parsed : Title → Parsed

module _ (node : Node) (keys : Keys) where
  -- The address and the key.
  unfoldable pub parse_keys : (Str → Title) → Str → Str → Parsed
  parse_keys bad_key address_str viewkey_str = elim (keys.parse_str_address address_str) [
    | none ↦ not_parsed (cant_parse_address address_str)
    | some address ↦ elim (node.parse_str_secret_key viewkey_str) [
      | none ↦ not_parsed (bad_key viewkey_str)
      | some key ↦ parsed address key
    ]
  ]

  -- The answer for a transaction with its details.
  unfoldable pub outputs_answer : Tx → TxDetails → Address → Str → Bool → Answer OutputsJson
  unfolding derivations_for tx_pub_key match_loop
  outputs_answer tx txd address key tx_prove =
      let pub_key =
        if tx_prove
        then address.view_public_key
        else tx_pub_key keys.null_pkey (keys.public_keys tx) in
      elim (derivations_for keys tx pub_key key) [
        | none ↦ error cant_calculate_key_derivation
        | some ds ↦ success (record {
          outputs =
              match_loop node keys tx address ds (length txd.output_pub_keys) 0 txd.output_pub_keys;
          tx_hash = txd.hash;
          address = address;
          viewkey = key;
          tx_prove = tx_prove;
        })
      ]

  -- `json_outputs` with its texts read; `none` is an exception that is not caught.
  unfoldable pub outputs_of_tx : Str → Str → Address → Str → Bool → Option (Answer OutputsJson)
  unfolding outputs_answer
  outputs_of_tx tx_hash_str tx_hash address key tx_prove = elim (find_tx node tx_hash) [
    | none ↦ some (fail (cant_find_tx_hash tx_hash_str))
    | some f ↦ get_tx_details node f.tx false 0 0 >>= λ txd.
        some (outputs_answer f.tx txd address key tx_prove)
  ]

  -- `json_outputs`
  unfoldable pub json_outputs : Str → Str → Str → Bool → Option (Answer OutputsJson)
  unfolding parse_keys outputs_of_tx
  json_outputs tx_hash_text address_text viewkey_text tx_prove =
      let tx_hash_str = keys.trim tx_hash_text in
      let address_str = keys.trim address_text in
      let viewkey_str = keys.trim viewkey_text in
      if is_empty tx_hash_str
      then some (error tx_hash_not_provided)
      else (if is_empty address_str
          then some (error address_not_provided)
          else (if is_empty viewkey_str
              then some
                  (error (if tx_prove then tx_private_key_not_provided else viewkey_not_provided))
              else elim (node.parse_str_secret_key tx_hash_str) [
                | none ↦ some (error (cant_parse_tx_hash tx_hash_str))
                | some tx_hash ↦
                    elim (parse_keys cant_parse_view_or_tx_key address_str viewkey_str) [
                      | not_parsed t ↦ some (error t)
                      | parsed address key ↦ outputs_of_tx tx_hash_str tx_hash address key tx_prove
                    ]
              ]))
