-- ===== src/Emission/Sums.antt =====
-- What a run over blocks adds up: the amounts of the coinbase transactions and the fees, as exact
-- sums.
use monero_sci_parser.Base.{
  ℕ, zero, suc, ◌+◌, ◌<◌, ◌≡◌, refl, ap, ◌∙◌, sym, List, [], ◌∷◌, arith, u64, u64_mod,
}
use monero_sci_parser.Tools.{Tx}
use monero_sci_parser.Tools.OnePass.{total}
use monero_sci_parser.Chain.{Core}
use monero_sci_parser.Emission.{
  Emission, no_emission, fee_loop, block_at, block_fee, block_coinbase, emission_loop,
}

-- The sum of `f` over `n` numbers from `start`.
pub sum_range : (ℕ → ℕ) → ℕ → ℕ → ℕ
sum_range f start zero = 0
sum_range f start (suc n) = f start + sum_range f (start + 1) n

pub sum_range-add :
    (f : ℕ → ℕ) (start m n : ℕ)
    → sum_range f start (m + n) ≡ sum_range f start m + sum_range f (start + m) n
unfolding sum_range
sum_range-add f start zero n =
    let none_before : zero + n ≡ n = omega arith in
    let same_start : start + zero ≡ start = omega arith in
    rw (none_before, same_start) (omega arith)
sum_range-add f start (suc m) n =
    let shape : suc m + n ≡ suc (m + n) = omega arith in
    let moved : start + suc m ≡ start + 1 + m = omega arith in
    rw (shape, moved, sum_range) (omega (arith, sum_range-add f (start + 1) m n))

pub sum_range-suc :
    (f : ℕ → ℕ) (start n : ℕ) → sum_range f start (suc n) ≡ sum_range f start n + f (start + n)
unfolding sum_range
sum_range-suc f start n =
    let one_more : n + 1 ≡ suc n = omega arith in
    omega (arith, rw one_more at (sum_range-add f start n 1))

-- The two amounts that a block brings, exactly.
pub paid_to_miner : Core → ℕ → ℕ
paid_to_miner core height = core.get_outs_money_amount (block_at core height).miner_tx

pub fees_of_block : Core → ℕ → ℕ
fees_of_block core height =
    total core.get_tx_fee (core.get_transactions (block_at core height).tx_hashes).1

fee_loop-total :
    (core : Core) (txs : List Tx) (acc : ℕ)
    → acc < u64_mod
    → fee_loop core txs acc ≡ u64 (acc + total core.get_tx_fee txs)
unfolding fee_loop
fee_loop-total core [] acc fits = omega arith
fee_loop-total core (tx ∷ txs) acc fits =
    fee_loop-total core txs (u64 (acc + core.get_tx_fee tx)) (omega arith) ∙ omega arith

pub block_fee-total :
    (core : Core) (height : ℕ) → block_fee core height ≡ u64 (fees_of_block core height)
unfolding block_fee fees_of_block
block_fee-total core height =
    let txs = (core.get_transactions (block_at core height).tx_hashes).1 in
    fee_loop-total core txs 0 (omega arith)
    ∙ ap u64 {x = 0 + total core.get_tx_fee txs} (omega arith)

-- An emission that is the exact one of `n` blocks from `start`, as far as words can tell: the
-- coinbase and the fees together are what the miners got.
pub record IsSumOf (core : Core) (start n : ℕ) (e : Emission) : Type 0 where
  pub fee_sum : e.fee ≡ u64 (sum_range (fees_of_block core) start n)
  pub miner_sum : u64 (e.coinbase + e.fee) ≡ u64 (sum_range (paid_to_miner core) start n)
  pub coinbase_word : e.coinbase < u64_mod

module _ (core : Core) where
  block_coinbase-fee :
      (height : ℕ)
      → u64 (block_coinbase core height + block_fee core height) ≡ u64 (paid_to_miner core height)
  unfolding block_coinbase paid_to_miner
  block_coinbase-fee height = omega (arith, block_fee-total core height)

  -- A block more.
  abbrev with_block : ℕ → Emission → Emission
  with_block height e = record e {
    coinbase = u64 (e.coinbase + block_coinbase core height);
    fee = u64 (e.fee + block_fee core height);
  }

  with_block-IsSumOf :
      (start n : ℕ) (e : Emission)
      → IsSumOf core start n e
      → IsSumOf core start (suc n) (with_block (start + n) e)
  with_block-IsSumOf start n e h = record {
    fee_sum = omega (
      arith,
      h.fee_sum,
      block_fee-total core (start + n),
      sum_range-suc (fees_of_block core) start n,
    );
    miner_sum = omega (
      arith,
      h.miner_sum,
      block_coinbase-fee (start + n),
      sum_range-suc (paid_to_miner core) start n,
    );
    coinbase_word = omega arith;
  }

  pub no_emission-IsSumOf : (start : ℕ) → IsSumOf core start 0 no_emission
  unfolding sum_range
  no_emission-IsSumOf start = record {
    fee_sum = refl;
    miner_sum = refl;
    coinbase_word = omega arith;
  }

  pub emission_loop-IsSumOf :
      (left start n now : ℕ) (e : Emission)
      → now ≡ start + n
      → IsSumOf core start n e
      → IsSumOf core start (n + left) (emission_loop core left now e)
  unfolding emission_loop
  emission_loop-IsSumOf zero start n now e at h =
      let same : n + zero ≡ n = omega arith in
      rw same
        (record { fee_sum = h.fee_sum; miner_sum = h.miner_sum; coinbase_word = h.coinbase_word })
  emission_loop-IsSumOf (suc left) start n now e at h =
      let one_more : n + suc left ≡ suc n + left = omega arith in
      rw one_more (
        emission_loop-IsSumOf left start (suc n) (now + 1) (with_block now e) (omega arith)
          (rw (sym at) at (with_block-IsSumOf start n e h)))

  pub emission_loop-blk_no :
      (left now : ℕ) (e : Emission) → (emission_loop core left now e).blk_no ≡ now + left
  unfolding emission_loop
  emission_loop-blk_no zero now e = omega arith
  emission_loop-blk_no (suc left) now e = emission_loop-blk_no left (now + 1) _ ∙ omega arith
