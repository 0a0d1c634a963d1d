-- ===== src/Examples/Emission.antt =====
-- The results on the emission of coins, on a chain of equal blocks.
use monero_sci_parser.Base.{
  ℕ, ◌+◌, ◌≤◌, ◌<◌, ◌≡◌, ◌⊎◌, ◌↔◌, false, none, some, List, [], ◌∷◌, arith, ◌==◌, if◌then◌else◌,
  All, length,
}
use monero_sci_parser.Text.{Str, codes, atoi}
use monero_sci_parser.Emission.{no_emission, update_current_emission_amount}
use monero_sci_parser.Emission.Progress.{update_current_emission_amount-gap}
use monero_sci_parser.Emission.Monitor.{
  Boost, Monitor, loaded, thrown, load_current_emission_amount, empty, trim_end,
}
use monero_sci_parser.Emission.Monitor.{Save, writes, cannot_open}
use monero_sci_parser.Emission.Monitor.Errors.{
  IsFields, IsNumber, load_current_emission_amount-outcomes,
}
use monero_sci_parser.Examples.OneChain.{example_core}

-- A comma starts a new piece, any other character goes to the first.
abbrev add_char : ℕ → List Str → List Str
add_char c [] = (c ∷ []) ∷ []
add_char c (p ∷ ps) = if c == b',' then [] ∷ p ∷ ps else (c ∷ p) ∷ ps

split_commas : Str → List Str
split_commas [] = [] ∷ []
split_commas (c ∷ cs) = add_char c (split_commas cs)

abbrev example_boost : Boost
example_boost = record { lexical_cast = λ s. some (atoi s); split = split_commas }

-- Nothing has been read, and there is no file.
abbrev first_start : Monitor
first_start = record { current_height = 0; total_emission = no_emission; saved_file = none }

-- Two runs: in the first the second save fails.
abbrev two_runs : List (List (ℕ × Save))
two_runs = ((4, writes) ∷ (5, cannot_open) ∷ []) ∷ ((6, writes) ∷ []) ∷ []

update_current_emission_amount-gap_example :
    ((update_current_emission_amount example_core 4 1 4 no_emission).blk_no + 1 ≤ 4)
    ↔ ((4 < 0 + 4) ⊎ (0 + 4 + 1 ≤ 4))
update_current_emission_amount-gap_example =
    update_current_emission_amount-gap example_core 4 1 4 no_emission (omega arith) (omega arith)

load_current_emission_amount-outcomes_example :
    ((load_current_emission_amount example_boost (codes "3,2,1") ≡ loaded no_emission) ↔ (
      (empty (codes "3,2,1") ≡ false)
      × IsFields example_boost no_emission (example_boost.split (trim_end (codes "3,2,1")))))
    × ((load_current_emission_amount example_boost (codes "3,2,1") ≡ thrown) ↔ (
        (empty (codes "3,2,1") ≡ false)
        × (0 < length (example_boost.split (trim_end (codes "3,2,1"))))
        × (length (example_boost.split (trim_end (codes "3,2,1"))) < 4)
        × All (IsNumber example_boost) (example_boost.split (trim_end (codes "3,2,1")))))
load_current_emission_amount-outcomes_example =
    load_current_emission_amount-outcomes example_boost (codes "3,2,1") no_emission
