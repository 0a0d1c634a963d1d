-- ===== src/Pages/PoolPage/Ranges.antt =====
-- Which transactions a page of the pool has.
use monero_sci_parser.Base.{
  ℕ, zero, suc, ◌+◌, ◌-◌, ◌*◌, ◌/◌, ◌⊎◌, ◌≤◌, ◌<◌, ◌≡◌, refl, ap, ◌∙◌, sym, false, some, List, [],
  ◌∷◌, map, arith, u64, sub64, u64_mod, ltb, if◌then◌else◌, get_elem?, length, take, drop,
  Bool-cases, ltb→lt, inl, inr,
}
use monero_sci_parser.Mempool.{MempoolTx}
use monero_sci_parser.Pages.{Node, Answer, success, known_details, get_tx_json}
use monero_sci_parser.Pages.Heights.{details_above}
use monero_sci_parser.Pages.Paging.{sign64, lt64, not_below_zero}
use monero_sci_parser.Pages.PoolPage.{
  pool_end, pool_start, pool_rounds, PoolTx, txs_made, pool_loop, PoolJson, pool_answer,
  mempool_page,
}

-- The entry of a transaction of the pool.
pub pool_tx : Node → MempoolTx → PoolTx
pool_tx node t = record {
  tx = get_tx_json node t.tx (known_details node t.tx false 1 node.current_height);
  timestamp = t.receive_time;
}

take-all {ℓ} : {A : Type ℓ} (n : ℕ) (xs : List A) → length xs ≤ n → take n xs ≡ xs
take-all zero [] h = refl
take-all zero (x ∷ xs) h = absurd (omega arith)
take-all (suc n) [] h = refl
take-all (suc n) (x ∷ xs) h = ap (λ l. x ∷ l) (take-all n xs (omega arith))

length-drop {ℓ} : {A : Type ℓ} (n : ℕ) (xs : List A) → length (drop n xs) ≡ length xs - n
length-drop zero xs = omega arith
length-drop (suc n) [] = omega arith
length-drop (suc n) (x ∷ xs) = omega (arith, length-drop n xs)

drop-get_elem {ℓ} :
    {A : Type ℓ} (xs : List A) (i : ℕ)
    → i < length xs
    → (x : A) × (get_elem? xs i ≡ some x) × (drop i xs ≡ x ∷ drop (suc i) xs)
drop-get_elem [] i h = absurd (omega arith)
drop-get_elem (x ∷ xs) zero h = (x, refl, refl)
drop-get_elem (x ∷ xs) (suc i) h = drop-get_elem xs i (omega arith)

-- Inside the pool the loop makes the entries of the transactions from `i` on.
pool_loop-take :
    (node : Node) (i left : ℕ)
    → i + left ≤ length node.mempool_txs
    → pool_loop node i left
      ≡ some (txs_made (map (pool_tx node) (take left (drop i node.mempool_txs))))
unfolding pool_loop pool_tx
pool_loop-take node i zero inside = refl
pool_loop-take node i (suc left) inside =
    let (t, there, split) = drop-get_elem node.mempool_txs i (omega arith) in
    rw
      (
        pool_loop,
        there,
        split,
        details_above node t.tx false 1 node.current_height (omega arith),
        pool_loop-take node (suc i) left (omega arith),
      )
      refl

not_below_zero-lt : (a : ℕ) → a < u64_mod → not_below_zero a < sign64
not_below_zero-lt a fits = ground arith

pool_end-le : (n page limit : ℕ) → pool_end n page limit ≤ n
unfolding pool_end
pool_end-le n page limit = ground arith

pool_start-lt : (n page limit : ℕ) → n < sign64 → pool_start n page limit < sign64
unfolding pool_start
pool_start-lt n page limit fits =
    let end_height = pool_end n page limit in
    let start_height = u64 (limit * page) in
    not_below_zero-lt
      (if lt64 end_height start_height then sub64 end_height limit else start_height)
      (elim (Bool-cases (lt64 end_height start_height)) [
        | inl past ↦ rw past (omega arith)
        | inr before ↦ rw before (omega arith)
      ])

-- The page has no rounds, or they stay inside the pool.
pool_rounds-inside :
    (n start_height end_height : ℕ)
    → n < sign64
    → start_height < sign64
    → end_height ≤ n
    → (pool_rounds start_height end_height ≡ 0)
      ⊎ (start_height + pool_rounds start_height end_height ≤ n)
unfolding pool_rounds
pool_rounds-inside n start_height end_height fits start_fits inside = ground arith

module _ (node : Node) where
  abbrev pool : List MempoolTx
  pool = node.mempool_txs

  -- The answer with these transactions of the pool.
  pub pool_json : ℕ → ℕ → List MempoolTx → Answer PoolJson
  pool_json page limit ts = success (record {
    txs = map (pool_tx node) ts;
    page = page;
    limit = limit;
    txs_no = length node.mempool_txs;
    total_page_no = if ltb 0 limit then length node.mempool_txs / limit else 0;
  })

  pool_loop-made :
      (start rounds : ℕ)
      → (rounds ≡ 0) ⊎ (start + rounds ≤ length pool)
      → pool_loop node start rounds
        ≡ some (txs_made (map (pool_tx node) (take rounds (drop start pool))))
  unfolding pool_loop
  pool_loop-made start rounds (inl none_left) = rw none_left refl
  pool_loop-made start rounds (inr inside) = pool_loop-take node start rounds inside

  -- For any two numbers the page is made: no index falls outside the pool.
  mempool_page-made :
      (page limit : ℕ)
      → length pool < sign64
      → mempool_page node page limit
        ≡ some (
            pool_json page limit (
              take
                (pool_rounds
                  (pool_start (length pool) page limit)
                  (pool_end (length pool) page limit))
                (drop (pool_start (length pool) page limit) pool)))
  unfolding mempool_page pool_json pool_answer
  mempool_page-made page limit fits =
      let start = pool_start (length pool) page limit in
      let end_height = pool_end (length pool) page limit in
      rw
        (
          mempool_page,
          pool_loop-made start (pool_rounds start end_height) (
              pool_rounds-inside (length pool) start end_height fits
                (pool_start-lt (length pool) page limit fits)
                (pool_end-le (length pool) page limit)),
        )
        refl

  module _ (page limit : ℕ) (inside : limit * page ≤ length pool)
      (fits : limit * page + limit < sign64) (pool_fits : length pool < sign64) where
    abbrev last_in_page : ℕ
    last_in_page =
        if ltb (length pool) (limit * page + limit) then length pool else limit * page + limit

    pool_end-in_range : pool_end (length pool) page limit ≡ last_in_page
    unfolding pool_end
    pool_end-in_range =
        let exact : u64 (u64 (limit * page) + limit) ≡ limit * page + limit = omega arith in
        rw (pool_end, exact) refl

    last_bounds : (limit * page ≤ last_in_page) × (last_in_page < sign64)
    last_bounds = elim (Bool-cases (ltb (length pool) (limit * page + limit))) [
      | inl short ↦ rw short (inside, pool_fits)
      | inr full ↦ rw full (omega arith, fits)
    ]

    pool_start-in_range : pool_start (length pool) page limit ≡ limit * page
    unfolding pool_start
    pool_start-in_range =
        let exact : u64 (limit * page) ≡ limit * page = omega arith in
        let in_order : lt64 last_in_page (limit * page) ≡ false = ground (arith, last_bounds) in
        rw (pool_start, pool_end-in_range, exact, in_order) (ground arith)

    pool_rounds-in_range : pool_rounds (limit * page) last_in_page ≡ last_in_page - limit * page
    unfolding pool_rounds
    pool_rounds-in_range = ground (arith, last_bounds)

    take-page :
        take (last_in_page - limit * page) (drop (limit * page) pool)
        ≡ take limit (drop (limit * page) pool)
    take-page =
        let rest = length-drop (limit * page) pool in
        elim (Bool-cases (ltb (length pool) (limit * page + limit))) [
          | inl short ↦ rw short (
              take-all (length pool - limit * page) (drop (limit * page) pool) (omega (arith, rest))
              ∙ sym (
                  take-all limit (drop (limit * page) pool)
                    (omega (arith, rest, ltb→lt _ _ short))))
          | inr full ↦
              let whole : limit * page + limit - limit * page ≡ limit = omega arith in
              rw (full, whole) refl
        ]

    -- For a page that starts in the pool, with sizes below 2 ^ 63, the page of the pool has the
    -- transactions from `limit * page` on, at most `limit` of them.
    pub mempool_page-in_range :
        mempool_page node page limit
        ≡ some (pool_json page limit (take limit (drop (limit * page) node.mempool_txs)))
    mempool_page-in_range =
        mempool_page-made page limit pool_fits
        ∙ rw (pool_start-in_range, pool_end-in_range, pool_rounds-in_range, take-page) refl
