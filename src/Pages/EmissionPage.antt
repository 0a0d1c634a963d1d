-- ===== src/Pages/EmissionPage.antt =====
-- src/page.h: `json_emission`, over the monitor of the emission.
use monero_sci_parser.Base.{
  ℕ, ◌+◌, ◌-◌, ◌*◌, ◌≤◌, ◌<◌, ◌≡◌, ap, ◌∙◌, Bool, arith, u64_mod, sub64, if◌then◌else◌,
}
use monero_sci_parser.Chain.{Core}
use monero_sci_parser.Emission.{Emission, get_emission}
use monero_sci_parser.Emission.Progress.{IsExact, updates}
use monero_sci_parser.Emission.Top.{get_emission-reaches_top}
use monero_sci_parser.Emission.Monitor.{Monitor}
use monero_sci_parser.Pages.{Answer, fail, success, emission_not_enabled}

-- The data of `json_emission`.
pub record EmissionJson : Type 0 where
  pub blk_no : ℕ
  pub coinbase : ℕ
  pub fee : ℕ

unfoldable pub emission_json : Emission → EmissionJson
emission_json current_values = record {
  blk_no = sub64 current_values.blk_no 1;
  coinbase = current_values.coinbase;
  fee = current_values.fee;
}

-- `json_emission`; `is_thread_running` is that of the monitor's thread.
unfoldable pub json_emission : Core → ℕ → ℕ → Bool → Monitor → Answer EmissionJson
unfolding emission_json
json_emission core chunk_size chunk_gap is_thread_running m =
    if is_thread_running
    then success
        (emission_json (get_emission core chunk_size chunk_gap m.current_height m.total_emission))
    else fail emission_not_enabled

-- With a chain that is not empty and the conditions of `get_emission-reaches_top`, the number that
-- is shown is that of the top block.
json_emission-top :
    (core : Core) (chunk_size chunk_gap height count : ℕ) (e : Emission)
    → 0 < height
    → chunk_gap ≤ height
    → height + chunk_size < u64_mod
    → height + chunk_gap < u64_mod
    → height ≤ count * chunk_size
    → e.blk_no ≤ height
    → IsExact core e
    → (emission_json (
        get_emission core chunk_size chunk_gap height
          (updates core chunk_size chunk_gap height count e))).blk_no
      ≡ height - 1
unfolding emission_json
json_emission-top core chunk_size chunk_gap height count e some_block gap fits fits_gap enough below
      exact =
    let top =
      get_emission-reaches_top core chunk_size chunk_gap height count e gap fits fits_gap enough
        below exact in
    ap (λ n. sub64 n 1) top.0 ∙ omega arith
