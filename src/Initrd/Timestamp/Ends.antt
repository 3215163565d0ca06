-- ===== src/Initrd/Timestamp/Ends.antt =====
-- Both loops of `parse_timestamp` end for every timestamp, at a date or at a panic.
use neur_os.Common.{
  ℕ, zero, suc, ◌+◌, ◌-◌, ◌*◌, ◌/◌, ◌<◌, List, [], ◌∷◌, Ends, Ends-bind, arith, Bool-cases, leb,
  inl, inr, ltb-false, le-or-gt, ltb-true,
}
use neur_os.Initrd.Timestamp.{
  year_length, year_loop, month_loop, month_table, date_time, parse_timestamp, seconds_per_day,
  seconds_per_year, unix_epoch_year,
}
use neur_os.Initrd.Timestamp.Calendar.{year_length_cases}

Ends-year_loop : (fuel s y ys : ℕ) → s < fuel * seconds_per_year → Ends (year_loop fuel s y ys)
unfolding year_loop
Ends-year_loop zero s y ys h = absurd (omega arith)
Ends-year_loop (suc fuel) s y ys h = elim (le-or-gt s ys) [
  | inl stop ↦ rw (ltb-false ys s stop) tt
  | inr more ↦ elim (le-or-gt (year_length y) s) [
    | inl fits ↦
        rw (ltb-true ys s more, ltb-false s (year_length y) fits)
          (Ends-year_loop fuel (s - year_length y) (y + 1) (year_length y)
            (omega (arith, year_length_cases y)))
    | inr below ↦ rw (ltb-true ys s more, ltb-true s (year_length y) below) tt
  ]
]

Ends-month_loop : (table : List ℕ) (s m : ℕ) → Ends (month_loop table s m)
unfolding month_loop
Ends-month_loop [] s m = tt
Ends-month_loop (d ∷ table) s m = elim (Bool-cases (leb (d * seconds_per_day) s)) [
  | inl more ↦ rw more (Ends-month_loop table (s - d * seconds_per_day) (m + 1))
  | inr stop ↦ rw stop tt
]

pub Ends-parse_timestamp : (t : ℕ) → Ends (parse_timestamp t)
unfolding parse_timestamp
Ends-parse_timestamp t =
    Ends-bind (date_time t) _
      (Ends-bind (year_loop (t / seconds_per_year + 2) t unix_epoch_year 0) _
        (Ends-year_loop (t / seconds_per_year + 2) t unix_epoch_year 0 (omega arith))
        (λ r.
          Ends-bind (month_loop (month_table r.0) r.1 1) _ (Ends-month_loop (month_table r.0) r.1 1)
            (λ _. tt)))
      (λ _. tt)
