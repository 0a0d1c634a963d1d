-- ===== src/Emission/Monitor.antt =====
-- src/CurrentBlockchainStatus.cpp: the loop of the monitor thread, and the file that keeps the
-- emission. `boost::lexical_cast` and `boost::split` are a parameter.
pub mod File
pub mod Rounds
pub mod Errors
use monero_sci_parser.Base.{
  ℕ, ◌<◌, ◌≡◌, Bool, true, false, Option, none, some, List, [], ◌∷◌, ◌++◌, ltb, ◌==◌, ◌||◌, ◌&&◌,
  if◌then◌else◌, sub64, get_elem?, u64_mod, not, take,
}
use monero_sci_parser.Text.{Str, to_string}
use monero_sci_parser.Chain.{Core}
use monero_sci_parser.Emission.{
  Emission, no_emission, checksum, emission_text, update_current_emission_amount,
}

-- Boost: `lexical_cast<uint64_t>`, where `none` is `bad_lexical_cast`, and `split` at commas.
pub record Boost : Type 0 where
  pub lexical_cast : Str → Option ℕ
  pub split : Str → List Str

-- The static members that the thread changes, and the saved file, `none` where there is no file.
pub record Monitor : Type 0 where
  pub current_height : ℕ
  pub total_emission : Emission
  pub saved_file : Option Str

-- What can happen to a save: the file cannot be opened; it is opened, which empties it, and the whole
-- text is written; or the write breaks off after a number of bytes.
pub data Save : Type 0 where
  cannot_open : Save
  writes : Save
  breaks_off : ℕ → Save

-- `save_current_emission_amount`; a write that breaks off is not noticed.
unfoldable pub save_current_emission_amount : Save → Monitor → Monitor × Bool
save_current_emission_amount cannot_open m = (m, false)
save_current_emission_amount writes m =
    (record m { saved_file = some (emission_text m.total_emission) }, true)
save_current_emission_amount (breaks_off n) m =
    (record m { saved_file = some (take n (emission_text m.total_emission)) }, true)

-- A round of the thread's loop: the height is read, a chunk is added, the sum is saved.
unfoldable pub monitor_round : Core → ℕ → ℕ → ℕ × Save → Monitor → Monitor
unfolding save_current_emission_amount
monitor_round core chunk_size chunk_gap (height, save) m =
    (save_current_emission_amount save (record m {
      current_height = height;
      total_emission =
          update_current_emission_amount core chunk_size chunk_gap height m.total_emission;
    })).0

-- The rounds of the loop, at the heights that the node has.
unfoldable pub monitor_loop : Core → ℕ → ℕ → List (ℕ × Save) → Monitor → Monitor
monitor_loop core chunk_size chunk_gap [] m = m
monitor_loop core chunk_size chunk_gap (r ∷ rs) m =
    monitor_loop core chunk_size chunk_gap rs (monitor_round core chunk_size chunk_gap r m)

-- The seconds that a round sleeps: it compares the emission from before the update, and the
-- subtraction wraps.
unfoldable pub sleep_seconds : ℕ → Monitor → ℕ → ℕ
sleep_seconds chunk_size before height =
    if ltb before.total_emission.blk_no (sub64 height chunk_size) then 1 else 60

-- The characters of " \n\r\t".
abbrev pub blank : ℕ → Bool
blank c = c == 32 || c == 10 || c == 13 || c == 9

abbrev pub empty : Str → Bool
empty [] = true
empty (c ∷ cs) = false

-- `erase(find_last_not_of(" \n\r\t") + 1)`
unfoldable pub trim_end : Str → Str
trim_end [] = []
trim_end (c ∷ cs) = let rest = trim_end cs in if empty rest && blank c then [] else c ∷ rest

-- What the attempt to load gives: a value, the answer false, or an exception that is not caught.
pub data Load {ℓ} (A : Type ℓ) : Type ℓ where
  loaded : A → Load A
  refused : Load A
  thrown : Load A

abbrev pub and_then {ℓ κ} : {A : Type ℓ} {B : Type κ} → Load A → (A → Load B) → Load B
and_then (loaded a) f = f a
and_then refused f = refused
and_then thrown f = thrown

-- `boost::lexical_cast<uint64_t>(strs.at(i))`: `out_of_range` is not caught, `bad_lexical_cast` is.
unfoldable pub field : Boost → List Str → ℕ → Load ℕ
field boost strs i = elim (get_elem? strs i) [
  | none ↦ thrown
  | some s ↦ elim (boost.lexical_cast s) [ none ↦ refused | some n ↦ loaded n ]
]

-- The four fields, and the test of the checksum.
unfoldable pub load_fields : Boost → List Str → Load Emission
unfolding field checksum
load_fields boost strs = and_then (field boost strs 0) (λ blk_no.
    and_then (field boost strs 1) (λ coinbase. and_then (field boost strs 2) (λ fee.
      and_then (field boost strs 3) (λ read_check_sum.
        let emission_loaded : Emission = record {
          coinbase = coinbase;
          fee = fee;
          blk_no = blk_no;
        } in
        if read_check_sum == checksum emission_loaded then loaded emission_loaded else refused))))

abbrev pub no_fields : List Str → Bool
no_fields [] = true
no_fields (s ∷ ss) = false

-- `load_current_emission_amount` on the text that the file has; "" is also what `read` gives where
-- the file cannot be opened.
unfoldable pub load_current_emission_amount : Boost → Str → Load Emission
unfolding load_fields trim_end
load_current_emission_amount boost last_saved_emission =
    if empty last_saved_emission
    then refused
    else (let strs = boost.split (trim_end last_saved_emission) in
        if no_fields strs then refused else load_fields boost strs)

-- `start_monitor_blockchain_thread` up to the start of the thread: the state, and whether the
-- thread is started.
unfoldable pub start_monitor : Boost → Monitor → Load (Monitor × Bool)
unfolding load_current_emission_amount
start_monitor boost m =
    let fresh : Monitor = record m { total_emission = no_emission } in
    elim (m.saved_file) [
      | none ↦ loaded (fresh, true)
      | some text ↦ elim (load_current_emission_amount boost text) [
        | loaded e ↦ loaded (record m { total_emission = e }, true)
        | refused ↦ loaded (fresh, false)
        | thrown ↦ thrown
      ]
    ]
