-- ===== src/Initrd/Timestamp/Every.antt =====
-- Every number of seconds is a date, so what `parse_timestamp` does with all of them.
use neur_os.Common.{
  ℕ, zero, suc, ◌+◌, ◌-◌, ◌*◌, ◌/◌, ◌%◌, ◌≤◌, ◌<◌, ◌≡◌, ◌⊎◌, inl, inr, ap, ◌∙◌, sym, List, [], ◌∷◌,
  length, ok, panic, overflow, out_of_bounds, arith, le-or-gt,
}
use neur_os.Initrd.Timestamp.{
  DateTime, month_table, parse_timestamp, format_date, seconds_per_day, seconds_per_hour,
  seconds_per_minute, unix_epoch_year,
}
use neur_os.Initrd.Timestamp.Calendar.{
  IsDate, years_before, days_before, days_in, second_of_year, epoch_seconds, year_length_cases,
  days_before_twelve,
}
use neur_os.Initrd.Timestamp.Correct.{IsSafe, parse_timestamp-epoch_seconds}
use neur_os.Initrd.Timestamp.Failure.{classify, Panics, Unsafe-Panics, length-month_table}

years_before-ge : (n : ℕ) → n ≤ years_before n
unfolding years_before
years_before-ge zero = omega arith
years_before-ge (suc n) = omega (arith, years_before-ge n, year_length_cases (unix_epoch_year + n))

-- The year of a second.
find_year :
    (t k : ℕ) → t < years_before k → (n : ℕ) × (years_before n ≤ t) × (t < years_before (suc n))
unfolding years_before
find_year t zero h = absurd (omega arith)
find_year t (suc k) h = elim (le-or-gt (years_before k) t) [
  | inl g ↦ (k, g, h)
  | inr g ↦ find_year t k g
]

-- The month of a second, from the table's first month on.
find_month :
    (table : List ℕ) (s : ℕ)
    → s < days_before table (length table) * seconds_per_day
    → (j : ℕ) × (j < length table)
      × (days_before table j * seconds_per_day ≤ s)
      × (s < (days_before table j + days_in table j) * seconds_per_day)
unfolding days_before days_in
find_month [] s h = absurd (omega arith)
find_month (d ∷ table) s h = elim (le-or-gt (d * seconds_per_day) s) [
  | inr first ↦ (0, omega arith, omega arith, omega arith)
  | inl later ↦
      let m = find_month table (s - d * seconds_per_day) (omega arith) in
      (suc m.0, omega (arith, m.1), omega (arith, m.2), omega (arith, m.3))
]

-- The date that lies `s` seconds into a year, where `days` days of the year are over before its month.
date_at : (year month days s : ℕ) → DateTime
date_at year month days s =
    let r = s - days * seconds_per_day in
    record {
      year = year;
      month = month;
      day = r / seconds_per_day + 1;
      hour = r % seconds_per_day / seconds_per_hour;
      minute = r % seconds_per_hour / seconds_per_minute;
      second = r % seconds_per_minute;
    }

-- Every number of seconds since 1970 is that of a date.
every-IsDate : (t : ℕ) → (d : DateTime) × IsDate d × (epoch_seconds d ≡ t)
unfolding date_at epoch_seconds second_of_year years_before
every-IsDate t =
    let (n, from, to) = find_year t (suc t) (years_before-ge (suc t)) in
    let y = unix_epoch_year + n in
    let s = t - years_before n in
    let m =
      find_month (month_table y) s
        (rw (length-month_table y) (omega (arith, days_before_twelve y))) in
    let j = m.0 in
    let in_table : j < 12 = rw (length-month_table y) at m.1 in
    let same_year : y - unix_epoch_year ≡ n = omega arith in
    let same_month : j + 1 - 1 ≡ j = omega arith in
    let d = date_at y (j + 1) (days_before (month_table y) j) s in
    (
      d,
      record {
        year_in = omega arith;
        month_in = (omega arith, omega arith);
        day_in = (omega arith, rw same_month (omega (arith, m.2, m.3)));
        hour_in = omega arith;
        minute_in = omega arith;
        second_in = omega arith;
      },
      rw (same_year, same_month) (omega (arith, m.2)),
    )

not-IsSafe : (d : DateTime) → IsDate d → Panics d → ¬ IsSafe d
not-IsSafe d v (inl e) safe = cc (parse_timestamp-epoch_seconds d v safe)
not-IsSafe d v (inr e) safe = cc (parse_timestamp-epoch_seconds d v safe)

decided :
    (d : DateTime)
    → IsDate d
    → (IsSafe d × (parse_timestamp (epoch_seconds d) ≡ ok (format_date d)))
      ⊎ ((¬ IsSafe d) × Panics d)
decided d v =
    let n = d.year - unix_epoch_year in
    let y : d.year ≡ unix_epoch_year + n = omega (arith, v.year_in) in
    elim (classify n d y) [
      | inl safe ↦ inl (safe, parse_timestamp-epoch_seconds d v safe)
      | inr u ↦ let p = Unsafe-Panics d v y u in inr (not-IsSafe d v p, p)
    ]

-- Every timestamp is that of a date. `parse_timestamp` writes that date if it is safe, and panics
-- if it is not: a subtraction goes below 0, or an index leaves the table of months.
pub parse_timestamp-every :
    (t : ℕ)
    → (d : DateTime) × IsDate d
      × (epoch_seconds d ≡ t)
      × ((IsSafe d × (parse_timestamp t ≡ ok (format_date d)))
          ⊎ ((¬ IsSafe d)
              × ((parse_timestamp t ≡ panic overflow) ⊎ (parse_timestamp t ≡ panic out_of_bounds))))
parse_timestamp-every t =
    let (d, v, e) = every-IsDate t in
    let back = ap parse_timestamp (sym e) in
    (
      d,
      v,
      e,
      elim (decided d v) [
        | inl safe ↦ inl (safe.0, back ∙ safe.1)
        | inr (unsafe, inl p) ↦ inr (unsafe, inl (back ∙ p))
        | inr (unsafe, inr p) ↦ inr (unsafe, inr (back ∙ p))
      ],
    )
