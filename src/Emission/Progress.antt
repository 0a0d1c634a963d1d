-- ===== src/Emission/Progress.antt =====
-- The stored emission stays the exact one of the blocks read, and reaches the top of the chain.
use native.Mathlib.Nat.{suc-mul}
use monero_sci_parser.Base.{
  ℕ, zero, suc, ◌+◌, ◌-◌, ◌*◌, ◌≤◌, ◌<◌, ◌≡◌, ◌⊎◌, inl, inr, subst, sym, arith, u64_mod, ◌↔◌,
}
use monero_sci_parser.Chain.{Core}
use monero_sci_parser.Emission.{
  Emission, no_emission, calculate_emission_in_blocks, add_emission, chunk_end,
  update_current_emission_amount,
}
use monero_sci_parser.Emission.Sums.{
  no_emission-IsSumOf, sum_range-add, IsSumOf, fees_of_block, paid_to_miner, emission_loop-IsSumOf,
  emission_loop-blk_no,
}

-- The emission of all blocks below its `blk_no`.
abbrev pub IsExact : Core → Emission → Type 0
IsExact core e = IsSumOf core 0 e.blk_no e

module _ (core : Core) where
  pub no_emission-IsExact : IsExact core no_emission
  no_emission-IsExact = no_emission-IsSumOf core 0

  calculate-IsSumOf :
      (start end_blk : ℕ)
      → IsSumOf core start (end_blk - start) (calculate_emission_in_blocks core start end_blk)
  unfolding calculate_emission_in_blocks
  calculate-IsSumOf start end_blk =
      let counted : 0 + (end_blk - start) ≡ end_blk - start = omega arith in
      rw counted at (
        emission_loop-IsSumOf core (end_blk - start) start 0 start no_emission (omega arith)
          (no_emission-IsSumOf core start))

  pub calculate-blk_no :
      (start end_blk : ℕ)
      → (calculate_emission_in_blocks core start end_blk).blk_no ≡ start + (end_blk - start)
  unfolding calculate_emission_in_blocks
  calculate-blk_no start end_blk = emission_loop-blk_no core (end_blk - start) start no_emission

  add_emission-IsSumOf :
      (m n : ℕ) (e c : Emission)
      → IsSumOf core 0 m e
      → IsSumOf core m n c
      → IsSumOf core 0 (m + n) (add_emission e c)
  add_emission-IsSumOf m n e c he hc =
      let at : 0 + m ≡ m = omega arith in
      record {
        fee_sum =
            omega
              (arith, he.fee_sum, hc.fee_sum, rw at at (sum_range-add (fees_of_block core) 0 m n));
        miner_sum = omega (
          arith,
          he.miner_sum,
          hc.miner_sum,
          rw at at (sum_range-add (paid_to_miner core) 0 m n),
        );
        coinbase_word = omega arith;
      }

  -- The blocks from `blk_no` to `end_blk` added to an exact emission.
  pub add-IsExact :
      (e : Emission) (end_blk : ℕ)
      → IsExact core e
      → IsExact core (add_emission e (calculate_emission_in_blocks core e.blk_no end_blk))
  add-IsExact e end_blk h =
      subst
        (λ n.
          IsSumOf core 0 n (add_emission e (calculate_emission_in_blocks core e.blk_no end_blk)))
        (sym (calculate-blk_no e.blk_no end_blk))
        (add_emission-IsSumOf e.blk_no (end_blk - e.blk_no) e _ h
          (calculate-IsSumOf e.blk_no end_blk))

  module _ (chunk_size chunk_gap : ℕ) where
    chunk_end-cases :
        (blk_no height : ℕ)
        → chunk_gap ≤ height
        → height + chunk_size < u64_mod
        → blk_no ≤ height
        → ((chunk_end chunk_size chunk_gap blk_no height ≡ height - chunk_gap)
            × (height < blk_no + chunk_size))
          ⊎ ((chunk_end chunk_size chunk_gap blk_no height ≡ blk_no + chunk_size)
              × (blk_no + chunk_size ≤ height))
    unfolding chunk_end
    chunk_end-cases blk_no height gap fits below = ground arith

    abbrev update : ℕ → Emission → Emission
    update = update_current_emission_amount core chunk_size chunk_gap

    pub update-IsExact :
        (height : ℕ) (e : Emission) → IsExact core e → IsExact core (update height e)
    unfolding update_current_emission_amount
    update-IsExact height e h = add-IsExact e (chunk_end chunk_size chunk_gap e.blk_no height) h

    -- Where an update ends: below the height, and at the gap or a chunk further on.
    update-blk_no :
        (height : ℕ) (e : Emission)
        → chunk_gap ≤ height
        → height + chunk_size < u64_mod
        → e.blk_no ≤ height
        → ((update height e).blk_no ≤ height)
          × ((height ≤ (update height e).blk_no + chunk_gap)
              ⊎ ((update height e).blk_no ≡ e.blk_no + chunk_size))
    unfolding update_current_emission_amount
    update-blk_no height e gap fits below =
        let end_blk = chunk_end chunk_size chunk_gap e.blk_no height in
        rw (calculate-blk_no e.blk_no end_blk)
          (elim (chunk_end-cases e.blk_no height gap fits below) [
            | inl (gap_end, past) ↦ (omega arith, inl (omega arith))
            | inr (chunk_far, more) ↦ (omega arith, inr (omega arith))
          ])

    -- `count` updates at one height.
    pub updates : ℕ → ℕ → Emission → Emission
    updates height zero e = e
    updates height (suc count) e = updates height count (update height e)

    pub updates-reach :
        (height count : ℕ) (e : Emission)
        → chunk_gap ≤ height
        → height + chunk_size < u64_mod
        → e.blk_no ≤ height
        → height ≤ e.blk_no + count * chunk_size + chunk_gap
        → IsExact core e
        → IsExact core (updates height count e)
          × ((updates height count e).blk_no ≤ height)
          × (height ≤ (updates height count e).blk_no + chunk_gap)
    unfolding updates
    updates-reach height zero e gap fits below enough exact = (exact, below, omega arith)
    updates-reach height (suc count) e gap fits below enough exact =
        let product : suc count * chunk_size ≡ count * chunk_size + chunk_size =
          suc-mul count chunk_size in
        let at = update-blk_no height e gap fits below in
        updates-reach height count (update height e) gap fits at.0
          (elim at.1 [ inl top ↦ omega arith | inr next ↦ omega (arith, product) ])
          (update-IsExact height e exact)

    -- With the height and a chunk together below 2 ^ 64, an update that starts below the gap ends
    -- below it just when the end of a whole chunk does not fall on one of the top blocks.
    pub update_current_emission_amount-gap :
        (height : ℕ) (e : Emission)
        → height + chunk_size < u64_mod
        → e.blk_no + chunk_gap ≤ height
        → ((update_current_emission_amount core chunk_size chunk_gap height e).blk_no + chunk_gap
            ≤ height)
          ↔ ((height < e.blk_no + chunk_size) ⊎ (e.blk_no + chunk_size + chunk_gap ≤ height))
    unfolding update_current_emission_amount
    update_current_emission_amount-gap height e fits below =
        let end_blk = chunk_end chunk_size chunk_gap e.blk_no height in
        rw (calculate-blk_no e.blk_no end_blk)
          (elim (chunk_end-cases e.blk_no height (omega arith) fits (omega arith)) [
            | inl (gap_end, past) ↦ (λ h. inl past, λ h. omega arith)
            | inr (chunk_far, more) ↦ (
              λ h. inr (omega arith),
              λ h. elim h [ inl past ↦ omega arith | inr far ↦ omega arith ],
            )
          ])
