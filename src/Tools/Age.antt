-- ===== src/Tools/Age.antt =====
-- src/tools.cpp: `timestamp_difference`, the span between two times, from which src/page.h makes the
-- age of a block.
use native.Mathlib.Nat.{div-add-mod'}
use monero_sci_parser.Base.{
  ℕ, ◌+◌, ◌-◌, ◌*◌, ◌/◌, ◌%◌, ◌<◌, ◌≡◌, arith, u64_mod, sub64, u64, ltb, if◌then◌else◌,
}

-- The array of years, days, hours, minutes and seconds.
pub record TimeSpan : Type 0 where
  pub years : ℕ
  pub days : ℕ
  pub hours : ℕ
  pub minutes : ℕ
  pub seconds : ℕ

-- `timestamp_difference`; the first subtraction may wrap, and is then replaced.
unfoldable pub timestamp_difference : ℕ → ℕ → TimeSpan
timestamp_difference t1 t2 =
    let timestamp_diff = if ltb t1 t2 then sub64 t2 t1 else sub64 t1 t2 in
    let time_diff_years = timestamp_diff / 31536000 in
    let less_years = sub64 timestamp_diff (u64 (time_diff_years * 31536000)) in
    let time_diff_days = less_years / 86400 in
    let less_days = sub64 less_years (u64 (time_diff_days * 86400)) in
    let time_diff_hours = less_days / 3600 in
    let less_hours = sub64 less_days (u64 (time_diff_hours * 3600)) in
    let time_diff_minutes = less_hours / 60 in
    let less_minutes = sub64 less_hours (u64 (time_diff_minutes * 60)) in
    record {
      years = time_diff_years;
      days = time_diff_days;
      hours = time_diff_hours;
      minutes = time_diff_minutes;
      seconds = less_minutes;
    }

-- The seconds of a span.
pub seconds_in : TimeSpan → ℕ
seconds_in d = d.years * 31536000 + d.days * 86400 + d.hours * 3600 + d.minutes * 60 + d.seconds

-- The parts are below a year, a day, an hour and a minute.
pub record IsNormal (d : TimeSpan) : Type 0 where
  pub days : d.days < 365
  pub hours : d.hours < 24
  pub minutes : d.minutes < 60
  pub seconds : d.seconds < 60

left_over :
    (diff part rest : ℕ) → part + rest ≡ diff → diff < u64_mod → sub64 diff (u64 part) ≡ rest
left_over diff part rest sum fits = omega arith

-- What is left when the whole units are taken out.
take_units : (diff unit : ℕ) → diff < u64_mod → sub64 diff (u64 (diff / unit * unit)) ≡ diff % unit
take_units diff unit fits =
    left_over diff (diff / unit * unit) (diff % unit) (div-add-mod' diff unit) fits

-- The span of two times of 64 bits is the time between them, in whichever order they are, and
-- its parts are below a year, a day, an hour and a minute.
pub timestamp_difference-IsNormal :
    (t1 t2 : ℕ)
    → t1 < u64_mod
    → t2 < u64_mod
    → IsNormal (timestamp_difference t1 t2)
      × (seconds_in (timestamp_difference t1 t2) ≡ (t1 - t2) + (t2 - t1))
unfolding timestamp_difference seconds_in
timestamp_difference-IsNormal t1 t2 fits1 fits2 =
    let diff : ℕ = (t1 - t2) + (t2 - t1) in
    let same : (if ltb t1 t2 then sub64 t2 t1 else sub64 t1 t2) ≡ diff = ground arith in
    let small : diff < u64_mod = omega arith in
    let year = take_units diff 31536000 small in
    let day = take_units (diff % 31536000) 86400 (omega arith) in
    let hour = take_units (diff % 31536000 % 86400) 3600 (omega arith) in
    let minute = take_units (diff % 31536000 % 86400 % 3600) 60 (omega arith) in
    (
      rw (timestamp_difference, same, year, day, hour, minute)
          (record {
            days = omega arith;
            hours = omega arith;
            minutes = omega arith;
            seconds = omega arith;
          }),
      rw (timestamp_difference, same, year, day, hour, minute) (omega arith),
    )
