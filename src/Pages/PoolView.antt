-- ===== src/Pages/PoolView.antt =====
-- src/page.h: `mempool`, the page of the pool and its part of the front page. The formatted texts of
-- a transaction and of the size are left out.
use monero_sci_parser.Base.{
  ℕ, zero, suc, ◌+◌, ◌*◌, ◌≤◌, ◌≡◌, refl, ◌∙◌, arith, Bool, true, false, Option, none, some, List,
  [], ◌∷◌, map, u64, ltb, leb, if◌then◌else◌, ◌>>=◌, get_elem?, length, length-take,
}
use monero_sci_parser.Text.{Str}
use monero_sci_parser.Tools.Age.{TimeSpan, timestamp_difference}
use monero_sci_parser.Mempool.{MempoolTx, MempoolStatus, get_mempool_txs}

-- `age_str`: the hours in two digits, or in three, the minutes and the seconds.
pub data PoolAge : Type 0 where
  hours_2d : ℕ → ℕ → ℕ → PoolAge
  hours_3d : ℕ → ℕ → ℕ → PoolAge

-- The days are taken as hours; the years are not.
unfoldable pub pool_age : ℕ → ℕ → PoolAge
unfolding timestamp_difference
pool_age server_timestamp receive_time =
    let delta_time : TimeSpan = timestamp_difference server_timestamp receive_time in
    let delta_hours = u64 (u64 (delta_time.days * 24) + delta_time.hours) in
    if ltb 99 delta_hours
    then hours_3d delta_hours delta_time.minutes delta_time.seconds
    else hours_2d delta_hours delta_time.minutes delta_time.seconds

-- The map of a transaction that the template shows.
pub record PoolRow : Type 0 where
  pub timestamp_no : ℕ
  pub age : PoolAge
  pub hash : Str
  pub no_inputs : ℕ
  pub no_outputs : ℕ
  pub pid : ℕ
  pub no_nonrct_inputs : ℕ
  pub mixin : ℕ

unfoldable pub pool_row : ℕ → MempoolTx → PoolRow
unfolding pool_age
pool_row server_timestamp mempool_tx = record {
  timestamp_no = mempool_tx.receive_time;
  age = pool_age server_timestamp mempool_tx.receive_time;
  hash = mempool_tx.tx_hash;
  no_inputs = mempool_tx.no_inputs;
  no_outputs = mempool_tx.no_outputs;
  pid = mempool_tx.pid;
  no_nonrct_inputs = mempool_tx.num_nonrct_inputs;
  mixin = mempool_tx.mixin_no;
}

-- The loop from `i` with the rounds that are left; `none` is the exception of `at`.
unfoldable pub pool_row_loop : ℕ → List MempoolTx → ℕ → ℕ → Option (List PoolRow)
unfolding pool_row
pool_row_loop server_timestamp mempool_txs i zero = some []
pool_row_loop server_timestamp mempool_txs i (suc left) =
    let rest = pool_row_loop server_timestamp mempool_txs (suc i) left in
    get_elem? mempool_txs i >>= λ t. rest >>= λ rows. some (pool_row server_timestamp t ∷ rows)

-- What the page shows; the last two only on the front page.
pub record PoolView : Type 0 where
  pub mempool_size : ℕ
  pub mempool_size_bytes : ℕ
  pub mempooltxs : List PoolRow
  pub mempool_fits_on_front_page : Option Bool
  pub no_of_mempool_tx_of_frontpage : Option ℕ

-- The transactions that are read, and their number.
unfoldable pub view_txs : Bool → ℕ → MempoolStatus → List MempoolTx × ℕ
unfolding get_mempool_txs
view_txs true no_of_mempool_tx m = (m.mempool_txs, length m.mempool_txs)
view_txs false no_of_mempool_tx m =
    let txs = get_mempool_txs no_of_mempool_tx m in
    (txs, if ltb (length txs) no_of_mempool_tx then length txs else no_of_mempool_tx)

unfoldable pub pool_view : Bool → MempoolStatus → List MempoolTx × ℕ → List PoolRow → PoolView
pool_view add_header_and_footer m shown rows = record {
  mempool_size = m.mempool_no;
  mempool_size_bytes = m.mempool_size;
  mempooltxs = rows;
  mempool_fits_on_front_page =
      if add_header_and_footer then none else some (leb m.mempool_no (length shown.0));
  no_of_mempool_tx_of_frontpage = if add_header_and_footer then none else some shown.1;
}

-- `mempool`
unfoldable pub mempool_view : ℕ → Bool → ℕ → MempoolStatus → Option PoolView
unfolding view_txs pool_row_loop pool_view
mempool_view server_timestamp add_header_and_footer no_of_mempool_tx m =
    let shown = view_txs add_header_and_footer no_of_mempool_tx m in
    pool_row_loop server_timestamp shown.0 0 shown.1 >>= λ rows.
    some (pool_view add_header_and_footer m shown rows)

-- A later round sees the rest of the pool.
later_rows :
    (now : ℕ) (t : MempoolTx) (ts : List MempoolTx) (i left : ℕ)
    → pool_row_loop now (t ∷ ts) (suc i) left ≡ pool_row_loop now ts i left
unfolding pool_row_loop
later_rows now t ts i zero = refl
later_rows now t ts i (suc left) = rw (later_rows now t ts (suc i) left) refl

-- The loop over as many rounds as there are transactions makes their rows in order.
rows_of_all :
    (now : ℕ) (txs : List MempoolTx)
    → pool_row_loop now txs 0 (length txs) ≡ some (map (pool_row now) txs)
unfolding pool_row_loop
rows_of_all now [] = refl
rows_of_all now (t ∷ ts) = rw (later_rows now t ts 0 (length ts), rows_of_all now ts) refl

-- The lesser of two numbers.
abbrev pub lesser : ℕ → ℕ → ℕ
lesser n k = if ltb k n then k else n

lesser-bound : (n k : ℕ) → lesser n k ≤ k
lesser-bound n k = ground arith

get_mempool_txs-length :
    (n : ℕ) (m : MempoolStatus) → length (get_mempool_txs n m) ≡ lesser n (length m.mempool_txs)
unfolding get_mempool_txs
get_mempool_txs-length n m =
    length-take (lesser n (length m.mempool_txs)) m.mempool_txs
      (lesser-bound n (length m.mempool_txs))

lesser_twice : (n k : ℕ) → lesser n (lesser n k) ≡ lesser n k
lesser_twice n k = ground arith

leb-lesser : (n k : ℕ) → leb k (lesser n k) ≡ leb k n
leb-lesser n k = ground arith

-- The number of rounds is the number of transactions read.
view_txs-length :
    (full : Bool) (n : ℕ) (m : MempoolStatus) → (view_txs full n m).1 ≡ length (view_txs full n m).0
unfolding view_txs
view_txs-length true n m = refl
view_txs-length false n m =
    rw (get_mempool_txs-length n m, lesser_twice n (length m.mempool_txs)) refl

-- The page raises no exception, and shows the transactions that are read in their order.
mempool_view-rows :
    (now : ℕ) (full : Bool) (n : ℕ) (m : MempoolStatus)
    → mempool_view now full n m
      ≡ some (pool_view full m (view_txs full n m) (map (pool_row now) (view_txs full n m).0))
unfolding mempool_view
mempool_view-rows now full n m =
    rw (view_txs-length full n m, rows_of_all now (view_txs full n m).0) refl

-- Where the counter is the length of the pool, the part of the front page shows the transactions
-- asked for, or all where there are fewer, and says that the pool fits just when it has no more.
pub mempool_view-front :
    (now n : ℕ) (m : MempoolStatus)
    → m.mempool_no ≡ length m.mempool_txs
    → mempool_view now false n m
      ≡ some (record {
        mempool_size = length m.mempool_txs;
        mempool_size_bytes = m.mempool_size;
        mempooltxs = map (pool_row now) (get_mempool_txs n m);
        mempool_fits_on_front_page = some (leb (length m.mempool_txs) n);
        no_of_mempool_tx_of_frontpage = some (lesser n (length m.mempool_txs));
      })
unfolding view_txs pool_view
mempool_view-front now n m counted =
    mempool_view-rows now false n m
    ∙ rw
        (
          counted,
          get_mempool_txs-length n m,
          lesser_twice n (length m.mempool_txs),
          leb-lesser n (length m.mempool_txs),
        )
        refl
