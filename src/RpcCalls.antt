-- ===== src/RpcCalls.antt =====
-- src/rpccalls.cpp and src/rpccalls.h: the calls of the node. The HTTP client is a parameter: whether
-- it is connected or connects, and the response of a call, `none` where `invoke_http_json` fails.
pub mod Newest
pub mod Outcomes
use monero_sci_parser.Base.{
  ℕ, Bool, true, false, not, Option, none, some, List, [], ◌∷◌, ltb, ◌&&◌, ◌||◌, if◌then◌else◌,
  ◌>>=◌,
}
use monero_sci_parser.Text.{Str, codes, str_eq}
use monero_sci_parser.Chain.{CoreBlock}
use monero_sci_parser.Mempool.{TxInfo}

-- `m_http_client`
pub record Client : Type 0 where
  pub is_connected : Bool
  pub connects : Bool

-- A response with its status.
pub record Response {ℓ} (A : Type ℓ) : Type ℓ where
  pub status : Str
  pub result : A

-- CORE_RPC_STATUS_OK and CORE_RPC_STATUS_BUSY
pub record Statuses : Type 0 where
  pub ok : Str
  pub busy : Str

-- `connect_to_monero_deamon`
unfoldable pub connect_to_monero_deamon : Client → Bool
connect_to_monero_deamon client = if client.is_connected then true else client.connects

-- The response of a call, made where there is a connection.
unfoldable pub invoke {ℓ} : {A : Type ℓ} → Client → Option A → Option A
unfolding connect_to_monero_deamon
invoke client response = if connect_to_monero_deamon client then response else none

-- `get_current_height`; 0 also stands for a failure.
unfoldable pub get_current_height : Client → Option ℕ → ℕ
unfolding invoke
get_current_height client response = elim (invoke client response) [ none ↦ 0 | some h ↦ h ]

-- `std::sort` by the time of receiving, the latest first.
unfoldable pub insert_tx : TxInfo → List TxInfo → List TxInfo
insert_tx t [] = t ∷ []
insert_tx t (x ∷ xs) =
    let rest = x ∷ insert_tx t xs in if ltb t.receive_time x.receive_time then rest else t ∷ x ∷ xs

unfoldable pub sort_txs : List TxInfo → List TxInfo
unfolding insert_tx
sort_txs [] = []
sort_txs (t ∷ ts) = insert_tx t (sort_txs ts)

module _ (statuses : Statuses) where
  -- `get_mempool`
  unfoldable pub get_mempool : Client → Option (Response (List TxInfo)) → Option (List TxInfo)
  unfolding invoke sort_txs
  get_mempool client response = invoke client response >>= λ res.
      if str_eq res.status statuses.ok then some (sort_txs res.result) else none

  -- `err` of a JSON call: empty where the response is taken.
  unfoldable pub status_error : Str → Str → Str
  status_error other_error status =
      if str_eq status statuses.busy
      then codes "daemon is busy. Please try again later."
      else (if not (str_eq status statuses.ok) then other_error else [])

  unfoldable pub checked_result {ℓ} : {A : Type ℓ} → Str → A → Option A
  checked_result [] result = some result
  checked_result (c ∷ cs) result = none

  -- A JSON call: another status is its own message.
  unfoldable pub json_rpc {ℓ} : {A : Type ℓ} → Client → Option (Response A) → Option A
  unfolding invoke status_error checked_result
  json_rpc client response = invoke client response >>= λ resp.
      checked_result (status_error resp.status resp.status) resp.result

  -- `get_network_info`
  unfoldable pub get_network_info {ℓ} : {A : Type ℓ} → Client → Option (Response A) → Option A
  unfolding json_rpc
  get_network_info client response = json_rpc client response

  -- `get_hardfork_info`
  unfoldable pub get_hardfork_info {ℓ} : {A : Type ℓ} → Client → Option (Response A) → Option A
  unfolding json_rpc
  get_hardfork_info client response = json_rpc client response

  -- `get_dynamic_per_kb_fee_estimate`
  unfoldable pub get_dynamic_per_kb_fee_estimate : Client → Option (Response ℕ) → Option ℕ
  unfolding json_rpc
  get_dynamic_per_kb_fee_estimate client response = json_rpc client response

  -- `get_alt_blocks`, where Monero has the command.
  unfoldable pub get_alt_blocks : Client → Option (Response (List Str)) → Option (List Str)
  unfolding invoke status_error checked_result
  get_alt_blocks client response = invoke client response >>= λ resp.
      checked_result (status_error (codes "daemon rpc failed. Please try again later.") resp.status)
        resp.result

  -- `get_block`, with Monero's readers of hexadecimal digits and of blocks.
  unfoldable pub get_block :
      (Str → Option Str)
      → (Str → Option CoreBlock)
      → Client
      → Option (Response Str)
      → Option CoreBlock
  unfolding json_rpc
  get_block parse_hexstr_to_binbuff parse_block client response =
      json_rpc client response >>= λ blob. parse_hexstr_to_binbuff blob >>= parse_block

-- `commit_tx`: the answer, and `error_msg` after the call; the result is `reason`, which is empty
-- where there is no response.
unfoldable pub commit_tx : Client → Option (Response Str) → Str → Bool × Str
commit_tx client response error_msg =
    if connect_to_monero_deamon client
    then elim response [
      | none ↦ (false, [])
      | some res ↦
          if str_eq res.status (codes "Failed") then (false, res.result) else (true, error_msg)
    ]
    else (false, error_msg)
