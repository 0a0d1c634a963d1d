-- ===== src/Pages/NetworkPage.antt =====
-- src/page.h: `json_networkinfo`, and the information on the network that the front page shows.
use monero_sci_parser.Base.{ℕ, Bool, true, Option, none, some, sub64, ltb, if◌then◌else◌}
use monero_sci_parser.Mempool.{MempoolStatus}
use monero_sci_parser.Mempool.Network.{NetworkInfo}
use monero_sci_parser.RpcCalls.{Client, Response, Statuses, get_dynamic_per_kb_fee_estimate}
use monero_sci_parser.Pages.{cant_get_network_info, cant_get_fee_estimate, Answer, error, success}

-- The data of `json_networkinfo`: the information, with the fee and the numbers of the pool put in.
pub record NetworkJson : Type 0 where
  pub info : NetworkInfo
  pub fee_per_kb : ℕ
  pub tx_pool_size : ℕ
  pub tx_pool_size_kbytes : ℕ

-- `get_monero_network_info`: the information, and whether it is current.
unfoldable pub get_monero_network_info : NetworkInfo → NetworkInfo × Bool
get_monero_network_info current_network_info = (current_network_info, current_network_info.current)

-- The fee is asked for over the client.
unfoldable pub network_answer : NetworkInfo → MempoolStatus → Option ℕ → Answer NetworkJson
network_answer info status none = error cant_get_fee_estimate
network_answer info status (some fee_estimated) = success (record {
  info = info;
  fee_per_kb = fee_estimated;
  tx_pool_size = status.mempool_no;
  tx_pool_size_kbytes = status.mempool_size;
})

-- `json_networkinfo`
unfoldable pub json_networkinfo :
    Statuses → Client → Option (Response ℕ) → NetworkInfo → MempoolStatus → Answer NetworkJson
unfolding get_monero_network_info network_answer get_dynamic_per_kb_fee_estimate
json_networkinfo statuses client fee current_network_info status =
    let r = get_monero_network_info current_network_info in
    if r.1
    then network_answer r.0 status (get_dynamic_per_kb_fee_estimate statuses client fee)
    else error cant_get_network_info

-- `index2`: information younger than two minutes counts as current.
unfoldable pub front_network_info : ℕ → NetworkInfo → NetworkInfo
front_network_info server_timestamp info =
    if ltb (sub64 server_timestamp info.info_timestamp) 120
    then record info { current = true }
    else info
