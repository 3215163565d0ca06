-- ===== src/Initrd/Timestamp/Months.antt =====
-- The second loop, and the arithmetic after it.
use neur_os.Common.{
  ℕ, zero, suc, ◌+◌, ◌-◌, ◌*◌, ◌/◌, ◌%◌, ◌≤◌, ◌<◌, ◌≡◌, refl, List, [], ◌∷◌, ok, panic,
  out_of_bounds, arith, leb-true, leb-false, length,
}
use neur_os.Initrd.Timestamp.{
  DateTime, month_loop, split_day, seconds_per_day, seconds_per_hour, seconds_per_minute,
}
use neur_os.Initrd.Timestamp.Calendar.{days_before, days_in}

-- The loop finds the month, from `m`, and what is left of the seconds in it.
pub month_loop_lem :
    (table : List ℕ) (j m r : ℕ)
    → r < days_in table j * seconds_per_day
    → month_loop table (days_before table j * seconds_per_day + r) m ≡ ok (m + j, r)
unfolding month_loop days_before days_in
month_loop_lem [] j m r h = absurd (omega arith)
month_loop_lem (d ∷ table) zero m r h =
    let e : 0 * seconds_per_day + r ≡ r = omega arith in
    let n : m + 0 ≡ m = omega arith in rw (e, n, leb-false (d * seconds_per_day) r h) refl
month_loop_lem (d ∷ table) (suc j) m r h =
    let s = (d + days_before table j) * seconds_per_day + r in
    let e : s - d * seconds_per_day ≡ days_before table j * seconds_per_day + r = omega arith in
    let n : m + suc j ≡ m + 1 + j = omega arith in
    rw (leb-true (d * seconds_per_day) s (omega arith), e, n) (month_loop_lem table j (m + 1) r h)

-- With a whole year of seconds or more the index leaves the table.
pub month_loop_past :
    (table : List ℕ) (m s : ℕ)
    → days_before table (length table) * seconds_per_day ≤ s
    → month_loop table s m ≡ panic out_of_bounds
unfolding month_loop days_before
month_loop_past [] m s h = refl
month_loop_past (d ∷ table) m s h =
    rw (leb-true (d * seconds_per_day) s (omega arith))
      (month_loop_past table (m + 1) (s - d * seconds_per_day) (omega arith))

-- The divisions recover the fields of a time.
pub split_day_lem :
    (d : DateTime)
    → 1 ≤ d.day
    → d.hour < 24
    → d.minute < 60
    → d.second < 60
    → split_day d.year d.month (
        (d.day - 1) * seconds_per_day
        + d.hour * seconds_per_hour
        + d.minute * seconds_per_minute
        + d.second)
      ≡ d
unfolding split_day
split_day_lem d a b c e =
    let s =
      (d.day - 1) * seconds_per_day
      + d.hour * seconds_per_hour
      + d.minute * seconds_per_minute
      + d.second in
    let day : s / seconds_per_day + 1 ≡ d.day = omega arith in
    let hour : s % seconds_per_day / seconds_per_hour ≡ d.hour = omega arith in
    let minute : s % seconds_per_day % seconds_per_hour / seconds_per_minute ≡ d.minute =
      omega arith in
    let second : s % seconds_per_day % seconds_per_hour % seconds_per_minute ≡ d.second =
      omega arith in
    λ i. record d { day = day i; hour = hour i; minute = minute i; second = second i }
