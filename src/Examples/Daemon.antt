-- ===== src/Examples/Daemon.antt =====
-- The results on the calls of a node: a pool of three transactions, and a node that answers once.
use mathlib.Core.List.{Perm}
use monero_sci_parser.Base.{
  ℕ, ◌%◌, ◌≡◌, refl, true, false, Option, none, some, List, [], ◌∷◌, arith, ◌==◌, ◌||◌,
}
use monero_sci_parser.Text.{Str, codes, str_eq}
use monero_sci_parser.Mempool.{
  TxInfo, MempoolTx, TxReader, MempoolStatus, read_mempool, loop_index_divider,
}
use monero_sci_parser.RpcCalls.{
  json_rpc, get_alt_blocks, invoke, Client, Response, Statuses, connect_to_monero_deamon,
  get_mempool,
}
use monero_sci_parser.RpcCalls.Outcomes.{no_text, taken, json_rpc-taken}
use monero_sci_parser.Mempool.Reads.{Parsed, parse_all, after_read}
use monero_sci_parser.RpcCalls.Newest.{times, IsDescending, pool_times, read_mempool-newest}
use monero_sci_parser.Mempool.Network.{RpcInfo, NetworkInfo, mainnet, Answers, Watch, watch_rounds}
use monero_sci_parser.Mempool.Network.Schedule.{asks, watch_rounds-asks}
use monero_sci_parser.Examples.OneChain.{example_tx}

abbrev pub statuses : Statuses
statuses = record { ok = codes "OK"; busy = codes "BUSY" }

abbrev pub client : Client
client = record { is_connected = false; connects = true }

abbrev at_time : ℕ → TxInfo
at_time n = record { tx_blob = codes "blob"; blob_size = 10; receive_time = n }

abbrev answer : Response (List TxInfo)
answer = record { status = codes "OK"; result = at_time 5 ∷ at_time 9 ∷ at_time 7 ∷ [] }

abbrev reader : TxReader
reader = record {
  parse_tx = λ blob. some (example_tx, codes "tx");
  has_payment_id = λ tx. false;
  has_payment_id8 = λ tx. false;
  has_additional_pub_keys = λ tx. false;
}

abbrev no_pool : MempoolStatus
no_pool = record { mempool_txs = []; mempool_no = 0; mempool_size = 0 }

pool_read : (read_mempool reader (get_mempool statuses client (some answer)) no_pool).1 ≡ true
unfolding read_mempool get_mempool str_eq
pool_read = refl

pool : List MempoolTx
pool = (read_mempool reader (get_mempool statuses client (some answer)) no_pool).0.mempool_txs

pool_newest : pool_times pool ≡ 9 ∷ 7 ∷ 5 ∷ []
unfolding pool read_mempool get_mempool str_eq
pool_newest = refl

read_mempool-newest_example :
    (res : Response (List TxInfo)) × (◌≡◌ {A = Option (Response (List TxInfo))}
      (some answer)
      (some res))
    × (connect_to_monero_deamon client ≡ true)
    × (res.status ≡ codes "OK")
    × (sorted : List TxInfo) × (ps : List Parsed) × Perm sorted res.result
    × IsDescending (times sorted)
    × (parse_all reader sorted ≡ some ps)
    × (pool_times (after_read reader no_pool (some ps)).0.mempool_txs ≡ times sorted)
    × ((read_mempool reader (get_mempool statuses client (some answer)) no_pool).0
        ≡ (after_read reader no_pool (some ps)).0)
read_mempool-newest_example =
    read_mempool-newest reader statuses client no_pool (some answer) pool_read

abbrev rpc_info : RpcInfo
rpc_info = record {
  status = codes "OK";
  height = 6;
  target_height = 6;
  difficulty = 1200;
  target = 120;
  tx_count = 1;
  tx_pool_size = 3;
  alt_blocks_count = 0;
  outgoing_connections_count = 8;
  incoming_connections_count = 0;
  white_peerlist_size = 10;
  testnet = false;
  stagenet = false;
  cumulative_difficulty = 1;
  block_size_limit = 600000;
  block_size_median = 300000;
  start_time = 1;
  top_block_hash = codes "top";
}

abbrev answers : Answers
answers = record {
  client = client;
  info = some (record { status = codes "OK"; result = rpc_info });
  fee = some (record { status = codes "OK"; result = 3 });
  hardfork = some (record { status = codes "OK"; result = 7 });
  pool = some answer;
  now = 100;
}

abbrev no_answers : Answers
no_answers = record answers { info = none; pool = none }

abbrev no_info : NetworkInfo
no_info = record {
  status = 0;
  height = 0;
  target_height = 0;
  difficulty = 0;
  target = 0;
  tx_count = 0;
  tx_pool_size = 0;
  alt_blocks_count = 0;
  outgoing_connections_count = 0;
  incoming_connections_count = 0;
  white_peerlist_size = 0;
  grey_peerlist_size = 0;
  nettype = mainnet;
  top_block_hash = codes "";
  cumulative_difficulty = 0;
  block_size_limit = 0;
  block_size_median = 0;
  start_time = 0;
  current_hf_version = 0;
  hash_rate = 0;
  fee_per_kb = 0;
  info_timestamp = 0;
  current = false;
}

abbrev watch : Watch
watch = record { loop_index = 0; current_network_info = no_info; status = no_pool }

-- Three rounds of 20 seconds: the first one is answered.
rounds : List Answers
rounds = answers ∷ no_answers ∷ no_answers ∷ []

after_rounds : Option Watch
after_rounds = watch_rounds statuses (λ s. s) reader 20 rounds watch

or_watch : Option Watch → Watch
or_watch none = watch
or_watch (some w) = w

rounds_done : watch_rounds statuses (λ s. s) reader 20 rounds watch ≡ some (or_watch after_rounds)
unfolding rounds after_rounds or_watch watch_rounds str_eq
rounds_done = refl

hash_rate_kept : (or_watch after_rounds).current_network_info.hash_rate ≡ 10
unfolding rounds after_rounds or_watch watch_rounds str_eq
hash_rate_kept = refl

watch_rounds-asks_example :
    asks statuses (λ s. s) reader 20 (or_watch after_rounds) ≡ (3 % loop_index_divider 20 == 0)
unfolding rounds
watch_rounds-asks_example =
    watch_rounds-asks statuses (λ s. s) reader 20 rounds watch (or_watch after_rounds) refl
      (omega arith) rounds_done

-- Responses with an empty status, which only some of the calls take.
abbrev unnamed : Option (Response ℕ)
unnamed = some (record { status = []; result = 3 })

abbrev unnamed_alt : Option (Response (List Str))
unnamed_alt = some (record { status = []; result = [] })

json_rpc-taken_example :
    (json_rpc statuses client unnamed
      ≡ taken (λ status. str_eq status (codes "OK") || no_text status) (invoke client unnamed))
    × (get_alt_blocks statuses client unnamed_alt
        ≡ taken (λ status. str_eq status (codes "OK")) (invoke client unnamed_alt))
json_rpc-taken_example =
    json_rpc-taken statuses (λ same. absurd (cc)) (λ same. absurd (cc)) client unnamed unnamed_alt
