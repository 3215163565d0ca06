-- ===== src/Initrd/Timestamp/Correct.antt =====
-- The timestamps that `parse_timestamp` reads rightly.
use neur_os.Common.{
  ℕ, zero, suc, ◌+◌, ◌-◌, ◌*◌, ◌/◌, ◌≤◌, ◌<◌, ◌≡◌, refl, ap, ◌∙◌, ok, arith, ◌>>=◌,
}
use neur_os.Initrd.Timestamp.{
  DateTime, year_length, year_loop, month_loop, month_table, split_day, parse_timestamp,
  format_date, seconds_per_day, seconds_per_hour, seconds_per_minute, seconds_per_year,
  unix_epoch_year,
}
use neur_os.Initrd.Timestamp.Calendar.{
  IsDate, years_before, days_before, second_of_year, epoch_seconds, year_length_cases,
}
use neur_os.Initrd.Timestamp.Years.{
  span, years_before-span, span_ge, Enters, Enters-suc, previous, year_loop-span, year_loop_stop,
}
use neur_os.Initrd.Timestamp.Months.{month_loop_lem, split_day_lem}

-- What the first loop does with a timestamp that lies `o` seconds into year 1970 + n: it passes
-- `n` years, with fuel left for one more round.
pub passes :
    (n o : ℕ)
    → Enters n 0 o
    → (fuel : ℕ) × (year_loop
          ((years_before n + o) / seconds_per_year + 2)
          (years_before n + o)
          unix_epoch_year
          0
        ≡ year_loop (suc fuel) o (unix_epoch_year + n) (previous n))
unfolding previous years_before
passes n o h =
    let y : years_before n ≡ span 0 n =
      let e : 0 + n ≡ n = omega arith in omega (arith, years_before-span 0 n, ap years_before e) in
    let fuel = (span 0 n + o) / seconds_per_year + 1 - n in
    let f : (span 0 n + o) / seconds_per_year + 2 ≡ n + suc fuel = omega (arith, span_ge 0 n) in
    let m : 0 + n ≡ n = omega arith in
    let z : unix_epoch_year + 0 ≡ unix_epoch_year = omega arith in
    (fuel, rw (y, f) (year_loop-span n 0 (suc fuel) o h ∙ rw m refl))

-- A date and time at which both loops stop where they should. Year 1970 has its first second
-- alone. Later years have the seconds that the year before had too, and where the years before are
-- of different lengths, the second year before must not be too long.
pub record IsSafe (d : DateTime) : Type 0 where
  pub first : d.year ≡ unix_epoch_year → second_of_year d ≡ 0
  pub stays : unix_epoch_year < d.year → second_of_year d ≤ year_length (d.year - 1)
  pub enters :
      unix_epoch_year + 1 < d.year
      → year_length (d.year - 2) < year_length (d.year - 1) + second_of_year d

IsSafe-Enters :
    (n : ℕ) (d : DateTime) → d.year ≡ unix_epoch_year + n → IsSafe d → Enters n 0 (second_of_year d)
unfolding previous
IsSafe-Enters zero d e safe = tt
IsSafe-Enters (suc zero) d e safe = omega (arith, year_length_cases unix_epoch_year)
IsSafe-Enters (suc (suc n)) d e safe =
    let m : 0 + suc n ≡ suc n = omega arith in
    let x : d.year - 2 ≡ unix_epoch_year + n = omega arith in
    let y : d.year - 1 ≡ unix_epoch_year + suc n = omega arith in
    Enters-suc (suc n) 0 (second_of_year d) (rw (m, ← x, ← y) (safe.enters (omega arith)))

IsSafe-previous :
    (n : ℕ) (d : DateTime) → d.year ≡ unix_epoch_year + n → IsSafe d → second_of_year d ≤ previous n
unfolding previous
IsSafe-previous zero d e safe = omega (arith, safe.first)
IsSafe-previous (suc n) d e safe =
    let y : d.year - 1 ≡ unix_epoch_year + n = omega arith in rw (← y) (safe.stays (omega arith))

-- Once the year is found, the second loop finds the month, and the fields are those of the date.
pub finish :
    (d : DateTime)
    → IsDate d
    → (month_loop (month_table d.year) (second_of_year d) 1 >>= λ (month, seconds).
        ok (split_day d.year month seconds))
      ≡ ok d
unfolding second_of_year
finish d v =
    let j = d.month - 1 in
    let table = month_table d.year in
    let r =
      (d.day - 1) * seconds_per_day
      + d.hour * seconds_per_hour
      + d.minute * seconds_per_minute
      + d.second in
    let s : second_of_year d ≡ days_before table j * seconds_per_day + r = omega arith in
    let m : 1 + j ≡ d.month = omega (arith, v.month_in) in
    rw (s, month_loop_lem table j 1 r (omega arith), m)
      (ap ok (split_day_lem d v.day_in.0 v.hour_in v.minute_in v.second_in))

-- At a date and time that is safe in this sense, `parse_timestamp` of its seconds since 1970 writes
-- that date and time. Both loops end within the fuel, and nothing panics.
pub parse_timestamp-epoch_seconds :
    (d : DateTime) → IsDate d → IsSafe d → parse_timestamp (epoch_seconds d) ≡ ok (format_date d)
unfolding parse_timestamp epoch_seconds
parse_timestamp-epoch_seconds d v safe =
    let n = d.year - unix_epoch_year in
    let y : d.year ≡ unix_epoch_year + n = omega (arith, v.year_in) in
    let (fuel, e) = passes n (second_of_year d) (IsSafe-Enters n d y safe) in
    rw
      (
        e,
        year_loop_stop fuel (second_of_year d) (unix_epoch_year + n) (previous n)
            (IsSafe-previous n d y safe),
        ← y,
        finish d v,
      )
      refl

-- Past the first day of a year from 1971 on, and within its first 365, a date is safe.
pub midyear-IsSafe :
    (d : DateTime)
    → unix_epoch_year < d.year
    → seconds_per_day < second_of_year d
    → second_of_year d ≤ seconds_per_year
    → IsSafe d
midyear-IsSafe d y lo hi = record {
  first = λ e. absurd (omega arith);
  stays = λ e. omega (arith, year_length_cases (d.year - 1));
  enters = λ e. omega (arith, year_length_cases (d.year - 1), year_length_cases (d.year - 2));
}
