-- ===== src/Emission/Top.antt =====
-- `get_emission`: the blocks of the gap are added to the stored emission.
use monero_sci_parser.Base.{
  ℕ, ◌+◌, ◌*◌, ◌≤◌, ◌<◌, ◌≡◌, ◌⊎◌, inl, inr, refl, subst, arith, u64, u64_mod, ltb, leb, ◌&&◌,
  if◌then◌else◌, Bool-cases,
}
use monero_sci_parser.Chain.{Core}
use monero_sci_parser.Emission.{Emission, calculate_emission_in_blocks, add_emission, get_emission}
use monero_sci_parser.Emission.Sums.{IsSumOf}
use monero_sci_parser.Emission.Progress.{
  IsExact, add-IsExact, calculate-blk_no, updates, updates-reach,
}

module _ (core : Core) (chunk_size chunk_gap : ℕ) where
  abbrev get : ℕ → Emission → Emission
  get = get_emission core chunk_size chunk_gap

  -- The test on `blk_no > 0` changes nothing.
  kept_blk_no :
      (start end_blk : ℕ)
      → (if ltb 0 (calculate_emission_in_blocks core start end_blk).blk_no
          then (calculate_emission_in_blocks core start end_blk).blk_no
          else start)
        ≡ (calculate_emission_in_blocks core start end_blk).blk_no
  kept_blk_no start end_blk = ground (arith, calculate-blk_no core start end_blk)

  -- Where the blocks of the gap are added, and where not.
  get_emission-cases :
      (height : ℕ) (e : Emission)
      → (get height e ≡ e)
        ⊎ ((end_blk : ℕ) × (get height e
              ≡ add_emission e (calculate_emission_in_blocks core e.blk_no end_blk)))
  unfolding get_emission
  get_emission-cases height e =
      elim (Bool-cases (leb height (u64 (e.blk_no + chunk_gap)) && ltb e.blk_no height)) [
        | inl adds ↦
            let end_block =
              if ltb height (u64 (e.blk_no + chunk_gap))
              then height
              else u64 (e.blk_no + chunk_gap) in
            inr (end_block, rw (adds, kept_blk_no e.blk_no end_block) refl)
        | inr keeps ↦ inl (rw keeps refl)
      ]

  -- The emission that is shown is the exact one of the blocks below its `blk_no`.
  pub get_emission-IsExact :
      (height : ℕ) (e : Emission) → IsExact core e → IsExact core (get height e)
  get_emission-IsExact height e exact = elim (get_emission-cases height e) [
    | inl same ↦ rw same exact
    | inr (end_blk, sum) ↦ rw sum (add-IsExact core e end_blk exact)
  ]

  get_emission-blk_no :
      (height : ℕ) (e : Emission)
      → height + chunk_gap < u64_mod
      → e.blk_no ≤ height
      → height ≤ e.blk_no + chunk_gap
      → (get height e).blk_no ≡ height
  unfolding get_emission
  get_emission-blk_no height e fits below near =
      let end_block =
        if ltb height (u64 (e.blk_no + chunk_gap)) then height else u64 (e.blk_no + chunk_gap) in
      let to_top : end_block ≡ height = ground arith in
      elim (Bool-cases (leb height (u64 (e.blk_no + chunk_gap)) && ltb e.blk_no height)) [
        | inl adds ↦
            rw (adds, kept_blk_no e.blk_no end_block)
              (omega (arith, calculate-blk_no core e.blk_no end_block, to_top))
        | inr keeps ↦ rw keeps (ground arith)
      ]

  pub get_emission-reaches_top :
      (height count : ℕ) (e : Emission)
      → chunk_gap ≤ height
      → height + chunk_size < u64_mod
      → height + chunk_gap < u64_mod
      → height ≤ count * chunk_size
      → e.blk_no ≤ height
      → IsExact core e
      → ((get height (updates core chunk_size chunk_gap height count e)).blk_no ≡ height)
        × IsSumOf core 0 height (get height (updates core chunk_size chunk_gap height count e))
  get_emission-reaches_top height count e gap fits_chunk fits_gap enough below exact =
      let last = updates core chunk_size chunk_gap height count e in
      let r =
        updates-reach core chunk_size chunk_gap height count e gap fits_chunk below (omega arith)
          exact in
      let at_top = get_emission-blk_no height last fits_gap r.1 r.2 in
      (
        at_top,
        subst (λ n. IsSumOf core 0 n (get height last)) at_top
            (get_emission-IsExact height last r.0),
      )
