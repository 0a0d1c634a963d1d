-- ===== src/Mempool/Network.antt =====
-- src/MempoolStatus.cpp: the information on the network, and the rounds of the thread that keeps it
-- beside the pool. The two texts of block sizes are left out.
pub mod Schedule
use monero_sci_parser.Base.{
  ℕ, ◌+◌, ◌/◌, ◌%◌, Bool, true, false, Option, none, some, List, [], ◌∷◌, ◌==◌, if◌then◌else◌,
  ◌>>=◌,
}
use monero_sci_parser.Text.{Str, str_eq}
use monero_sci_parser.Mempool.{
  TxInfo, TxReader, MempoolStatus, read_mempool, loop_index_divider, next_loop_index,
}
use monero_sci_parser.RpcCalls.{
  Client, Response, Statuses, get_mempool, get_network_info, get_hardfork_info,
  get_dynamic_per_kb_fee_estimate,
}

-- `COMMAND_RPC_GET_INFO::response`, its fields that are read.
pub record RpcInfo : Type 0 where
  pub status : Str
  pub height : ℕ
  pub target_height : ℕ
  pub difficulty : ℕ
  pub target : ℕ
  pub tx_count : ℕ
  pub tx_pool_size : ℕ
  pub alt_blocks_count : ℕ
  pub outgoing_connections_count : ℕ
  pub incoming_connections_count : ℕ
  pub white_peerlist_size : ℕ
  pub testnet : Bool
  pub stagenet : Bool
  pub cumulative_difficulty : ℕ
  pub block_size_limit : ℕ
  pub block_size_median : ℕ
  pub start_time : ℕ
  pub top_block_hash : Str

pub data NetworkType : Type 0 where
  mainnet : NetworkType
  testnet : NetworkType
  stagenet : NetworkType

-- `network_info`
pub record NetworkInfo : Type 0 where
  pub status : ℕ
  pub height : ℕ
  pub target_height : ℕ
  pub difficulty : ℕ
  pub target : ℕ
  pub tx_count : ℕ
  pub tx_pool_size : ℕ
  pub alt_blocks_count : ℕ
  pub outgoing_connections_count : ℕ
  pub incoming_connections_count : ℕ
  pub white_peerlist_size : ℕ
  pub grey_peerlist_size : ℕ
  pub nettype : NetworkType
  pub top_block_hash : Str
  pub cumulative_difficulty : ℕ
  pub block_size_limit : ℕ
  pub block_size_median : ℕ
  pub start_time : ℕ
  pub current_hf_version : ℕ
  pub hash_rate : ℕ
  pub fee_per_kb : ℕ
  pub info_timestamp : ℕ
  pub current : Bool

-- `get_status_uint`
unfoldable pub get_status_uint : Statuses → Str → ℕ
get_status_uint statuses status =
    if str_eq status statuses.ok then 1 else (if str_eq status statuses.busy then 2 else 0)

unfoldable pub nettype_of : Bool → Bool → NetworkType
nettype_of is_testnet is_stagenet =
    if is_testnet then testnet else (if is_stagenet then stagenet else mainnet)

-- What the node answers in a round, and the time of the round.
pub record Answers : Type 0 where
  pub client : Client
  pub info : Option (Response RpcInfo)
  pub fee : Option (Response ℕ)
  pub hardfork : Option (Response ℕ)
  pub pool : Option (Response (List TxInfo))
  pub now : ℕ

-- `hex_to_pod` is Monero's.
module _ (statuses : Statuses) (hex_to_pod : Str → Str) where
  -- `local_copy`; the size of the grey list stays as a new copy has it.
  unfoldable pub network_info_of : RpcInfo → ℕ → ℕ → ℕ → NetworkInfo
  unfolding get_status_uint nettype_of
  network_info_of info fee_estimated version now = record {
    status = get_status_uint statuses info.status;
    height = info.height;
    target_height = info.target_height;
    difficulty = info.difficulty;
    target = info.target;
    tx_count = info.tx_count;
    tx_pool_size = info.tx_pool_size;
    alt_blocks_count = info.alt_blocks_count;
    outgoing_connections_count = info.outgoing_connections_count;
    incoming_connections_count = info.incoming_connections_count;
    white_peerlist_size = info.white_peerlist_size;
    grey_peerlist_size = 0;
    nettype = nettype_of info.testnet info.stagenet;
    top_block_hash = hex_to_pod info.top_block_hash;
    cumulative_difficulty = info.cumulative_difficulty;
    block_size_limit = info.block_size_limit;
    block_size_median = info.block_size_median;
    start_time = info.start_time;
    current_hf_version = version;
    hash_rate = info.difficulty / info.target;
    fee_per_kb = fee_estimated;
    info_timestamp = now;
    current = true;
  }

  -- The three calls; `none` is a call that fails.
  unfoldable pub network_answers : Answers → Option (RpcInfo × ℕ × ℕ)
  unfolding get_network_info get_dynamic_per_kb_fee_estimate get_hardfork_info
  network_answers a = get_network_info statuses a.client a.info >>= λ info.
      get_dynamic_per_kb_fee_estimate statuses a.client a.fee >>= λ fee_estimated.
      get_hardfork_info statuses a.client a.hardfork >>= λ version.
      some (info, fee_estimated, version)

-- How `read_network_info` ends: with new information, with false, or in the division by zero.
pub data NetworkRead : Type 0 where
  network_read : NetworkInfo → NetworkRead
  network_unread : NetworkRead
  divided_by_zero : NetworkRead

-- The state of the thread.
pub record Watch : Type 0 where
  pub loop_index : ℕ
  pub current_network_info : NetworkInfo
  pub status : MempoolStatus

module _ (statuses : Statuses) (hex_to_pod : Str → Str) where
  unfoldable pub read_answers : ℕ → Option (RpcInfo × ℕ × ℕ) → NetworkRead
  unfolding network_info_of
  read_answers now none = network_unread
  read_answers now (some (info, fee_estimated, version)) =
      if info.target == 0
      then divided_by_zero
      else network_read (network_info_of statuses hex_to_pod info fee_estimated version now)

  -- `read_network_info`
  unfoldable pub read_network_info : Answers → NetworkRead
  unfolding read_answers network_answers
  read_network_info a = read_answers a.now (network_answers statuses hex_to_pod a)

  -- What a round does with it: the new information, or the old one that is no longer current.
  unfoldable pub set_network : NetworkRead → NetworkInfo → Option NetworkInfo
  set_network (network_read info) old = some info
  set_network network_unread old = some (record old { current = false })
  set_network divided_by_zero old = none

  unfoldable pub round_network : Bool → NetworkRead → NetworkInfo → Option NetworkInfo
  unfolding set_network
  round_network due read old = if due then set_network read old else some old

  unfoldable pub is_read : NetworkRead → Bool
  is_read (network_read info) = true
  is_read network_unread = false
  is_read divided_by_zero = false

  -- A round of the thread; `none` is the end of the program.
  unfoldable pub watch_round : TxReader → ℕ → Answers → Watch → Option Watch
  unfolding read_network_info round_network is_read read_mempool get_mempool next_loop_index
  watch_round reader divider a w =
      let read = read_network_info a in
      let index = next_loop_index divider (is_read read) w.loop_index in
      round_network index.1 read w.current_network_info >>= λ current_network_info. some (record {
        loop_index = index.0;
        current_network_info = current_network_info;
        status = (read_mempool reader (get_mempool statuses a.client a.pool) w.status).0;
      })

  -- The rounds of the thread, with the refresh time in seconds.
  unfoldable pub watch_rounds : TxReader → ℕ → List Answers → Watch → Option Watch
  unfolding watch_round loop_index_divider
  watch_rounds reader refresh_time [] w = some w
  watch_rounds reader refresh_time (a ∷ as_answered) w =
      watch_round reader (loop_index_divider refresh_time) a w
      >>= watch_rounds reader refresh_time as_answered
