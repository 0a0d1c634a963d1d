-- ===== src/Emission/Monitor/Rounds.antt =====
-- The thread over its rounds and over restarts of the program.
use monero_sci_parser.Base.{
  ℕ, ◌≡◌, ◌⊎◌, refl, Bool, none, some, List, [], ◌∷◌, arith, if◌then◌else◌,
}
use monero_sci_parser.Chain.{Core}
use monero_sci_parser.Emission.{Emission, no_emission, emission_text}
use monero_sci_parser.Emission.Progress.{IsExact, no_emission-IsExact}
use monero_sci_parser.Emission.Monitor.{
  Boost, Monitor, Save, cannot_open, writes, breaks_off, load_current_emission_amount,
  monitor_round, monitor_loop, Load, loaded, refused, start_monitor, and_then,
}
use monero_sci_parser.Emission.Monitor.File.{IsWords}

-- Runs of the program: each starts the monitor, whose thread makes the rounds of that run. A run
-- in which the thread is not started is `refused`.
unfoldable pub runs : Boost → Core → ℕ → ℕ → List (List (ℕ × Save)) → Monitor → Load Monitor
unfolding start_monitor monitor_loop
runs boost core chunk_size chunk_gap [] m = loaded m
runs boost core chunk_size chunk_gap (rounds ∷ rs) m =
    and_then (start_monitor boost m) (λ (s : Monitor × Bool).
      if s.1
      then runs boost core chunk_size chunk_gap rs
          (monitor_loop core chunk_size chunk_gap rounds s.0)
      else refused)

-- A round whose save does not break off.
abbrev pub IsWhole : ℕ × Save → Type 0
IsWhole (height, cannot_open) = Unit
IsWhole (height, writes) = Unit
IsWhole (height, breaks_off n) = ⊥

module _ (core : Core) where
  -- The emission of words that is the exact one of the blocks below its `blk_no`.
  pub record IsStored (e : Emission) : Type 0 where
    pub exact : IsExact core e
    pub words : IsWords e

  -- The sum in memory is exact, and so is the one in the file, if there is a file.
  pub record IsSound (m : Monitor) : Type 0 where
    pub total : IsStored m.total_emission
    pub saved :
        (m.saved_file ≡ none)
        ⊎ ((e : Emission) × (m.saved_file ≡ some (emission_text e)) × IsStored e)

  pub no_emission-IsStored : IsStored no_emission
  no_emission-IsStored = record {
    exact = no_emission-IsExact core;
    words = record { blk_no = omega arith; coinbase = omega arith; fee = omega arith };
  }

  -- Where the write of the last round of a run breaks off before its first byte, no later run starts
  -- its thread.
  pub runs-empty_file :
      (boost : Boost) (chunk_size chunk_gap height : ℕ) (m : Monitor) (rounds : List (ℕ × Save))
      (rs : List (List (ℕ × Save)))
      → runs boost core chunk_size chunk_gap
          (rounds ∷ rs)
          (monitor_round core chunk_size chunk_gap (height, breaks_off 0) m)
        ≡ refused
  unfolding runs monitor_round start_monitor load_current_emission_amount
  runs-empty_file boost chunk_size chunk_gap height m rounds rs = refl
