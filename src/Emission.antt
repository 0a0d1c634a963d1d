-- ===== src/Emission.antt =====
-- src/CurrentBlockchainStatus.cpp and .h: the emission of coins, summed over chunks of blocks by a
-- thread that keeps the sum in a file. The blocks are those of the parameter `Core`; a block that
-- has been read does not change. `uint64_t` wraps at 2 ^ 64.
use monero_sci_parser.Base.{
  ℕ, zero, suc, ◌+◌, ◌-◌, Bool, true, false, Option, none, some, List, [], ◌∷◌, ◌++◌, u64, sub64,
  ltb, leb, ◌&&◌, if◌then◌else◌,
}
pub mod Sums
pub mod Progress
pub mod Top
pub mod Monitor
use monero_sci_parser.Text.{Str, to_string}
use monero_sci_parser.Tools.{Tx}
use monero_sci_parser.Chain.{Core, CoreBlock, get_block_by_height}

-- `Emission`
pub record Emission : Type 0 where
  pub coinbase : ℕ
  pub fee : ℕ
  pub blk_no : ℕ

abbrev pub no_emission : Emission
no_emission = record { coinbase = 0; fee = 0; blk_no = 0 }

-- `checksum`
unfoldable pub checksum : Emission → ℕ
checksum e = u64 (u64 (e.coinbase + e.fee) + e.blk_no)

-- `operator std::string`
unfoldable pub emission_text : Emission → Str
unfolding checksum
emission_text e =
    to_string e.blk_no
    ++ (b','
        ∷ (to_string e.coinbase ++ (b',' ∷ (to_string e.fee ++ (b',' ∷ to_string (checksum e))))))

-- The loop over the transactions of a block.
unfoldable pub fee_loop : Core → List Tx → ℕ → ℕ
fee_loop core [] tx_fee_amount = tx_fee_amount
fee_loop core (tx ∷ txs) tx_fee_amount =
    fee_loop core txs (u64 (tx_fee_amount + core.get_tx_fee tx))

-- The block that the loop of `calculate_emission_in_blocks` works on: the answer of
-- `get_block_by_height` is not tested, so a block that is not there is the default block.
unfoldable pub block_at : Core → ℕ → CoreBlock
block_at core start_blk = elim (get_block_by_height core start_blk) [
  | none ↦ core.default_block
  | some blk ↦ blk
]

unfoldable pub block_fee : Core → ℕ → ℕ
unfolding fee_loop
block_fee core start_blk =
    fee_loop core (core.get_transactions (block_at core start_blk).tx_hashes).1 0

unfoldable pub block_coinbase : Core → ℕ → ℕ
block_coinbase core start_blk =
    sub64 (core.get_outs_money_amount (block_at core start_blk).miner_tx) (block_fee core start_blk)

-- `while (start_blk < end_blk)`, with the rounds that are left.
unfoldable pub emission_loop : Core → ℕ → ℕ → Emission → Emission
emission_loop core zero start_blk e = record e { blk_no = start_blk }
emission_loop core (suc left) start_blk e = emission_loop core left (start_blk + 1) (record e {
  coinbase = u64 (e.coinbase + block_coinbase core start_blk);
  fee = u64 (e.fee + block_fee core start_blk);
})

-- `calculate_emission_in_blocks`
unfoldable pub calculate_emission_in_blocks : Core → ℕ → ℕ → Emission
unfolding emission_loop
calculate_emission_in_blocks core start_blk end_blk =
    emission_loop core (end_blk - start_blk) start_blk no_emission

-- What is added to the current values.
abbrev pub add_emission : Emission → Emission → Emission
add_emission current calculated = record {
  coinbase = u64 (current.coinbase + calculated.coinbase);
  fee = u64 (current.fee + calculated.fee);
  blk_no = calculated.blk_no;
}

-- The end of the next chunk; the subtraction wraps. `blockchain_chunk_size` and
-- `blockchain_chunk_gap` are static members, here arguments.
unfoldable pub chunk_end : ℕ → ℕ → ℕ → ℕ → ℕ
chunk_end chunk_size chunk_gap blk_no current_height =
    let end_block = u64 (blk_no + chunk_size) in
    if ltb current_height end_block then sub64 current_height chunk_gap else end_block

module _ (core : Core) (chunk_size chunk_gap : ℕ) where
  -- `update_current_emission_amount`
  unfoldable pub update_current_emission_amount : ℕ → Emission → Emission
  unfolding calculate_emission_in_blocks chunk_end
  update_current_emission_amount current_height current = add_emission current (
      calculate_emission_in_blocks core current.blk_no
        (chunk_end chunk_size chunk_gap current.blk_no current_height))

  -- `get_emission`
  unfoldable pub get_emission : ℕ → Emission → Emission
  unfolding calculate_emission_in_blocks
  get_emission current_height current =
      let start_blk = current.blk_no in
      let end_block = u64 (start_blk + chunk_gap) in
      if leb current_height end_block && ltb start_blk current_height
      then (let calculated =
            calculate_emission_in_blocks core start_blk
              (if ltb current_height end_block then current_height else end_block) in
          record {
            coinbase = u64 (current.coinbase + calculated.coinbase);
            fee = u64 (current.fee + calculated.fee);
            blk_no = if ltb 0 calculated.blk_no then calculated.blk_no else current.blk_no;
          })
      else current
