-- ===== src/Initrd/Timestamp/Failure.antt =====
-- The timestamps at which `parse_timestamp` panics.
use neur_os.Common.{
  ℕ, zero, suc, ◌+◌, ◌-◌, ◌*◌, ◌≤◌, ◌<◌, ◌≡◌, ◌⊎◌, inl, inr, refl, List, [], ◌∷◌, length, panic,
  overflow, out_of_bounds, arith, le-or-gt,
}
use neur_os.Initrd.Timestamp.{
  DateTime, year_length, month_table, is_leap_year, parse_timestamp, seconds_per_day,
  unix_epoch_year,
}
use neur_os.Initrd.Timestamp.Calendar.{
  IsDate, years_before, days_before, days_in, second_of_year, epoch_seconds, year_length_cases,
  days_before_twelve,
}
use neur_os.Initrd.Timestamp.Years.{
  len, previous, previous_le, Enters, Enters-suc, year_loop_stop, year_loop_overflow,
}
use neur_os.Initrd.Timestamp.Months.{month_loop_past}
use neur_os.Initrd.Timestamp.Correct.{IsSafe, passes}

days_before-lt :
    (table : List ℕ) (j n : ℕ) → j < n → days_before table j + days_in table j ≤ days_before table n
unfolding days_before days_in
days_before-lt table j zero h = absurd (omega arith)
days_before-lt [] zero (suc n) h = omega arith
days_before-lt [] (suc j) (suc n) h = omega arith
days_before-lt (d ∷ table) zero (suc n) h = omega arith
days_before-lt (d ∷ table) (suc j) (suc n) h = omega (arith, days_before-lt table j n (omega arith))

-- A date falls within its year.
pub second_of_year-lt : (d : DateTime) → IsDate d → second_of_year d < year_length d.year
unfolding second_of_year
second_of_year-lt d v = omega (
  arith,
  days_before_twelve d.year,
  days_before-lt (month_table d.year) (d.month - 1) 12 (omega (arith, v.month_in)),
)

pub length-month_table : (y : ℕ) → length (month_table y) ≡ 12
unfolding month_table is_leap_year
length-month_table y = ground arith

-- Seconds that year 1970 + n would hold, but the year before it would not.
overflows :
    (n : ℕ) (d : DateTime)
    → IsDate d
    → d.year ≡ unix_epoch_year + n
    → previous n < second_of_year d
    → parse_timestamp (epoch_seconds d) ≡ panic overflow
unfolding parse_timestamp epoch_seconds previous
overflows n d v y h =
    let (fuel, e) = passes n (second_of_year d) (enters n h) in
    let m : d.year - unix_epoch_year ≡ n = omega arith in
    rw
      (
        m,
        e,
        year_loop_overflow fuel (second_of_year d) (unix_epoch_year + n) (previous n) h
            (rw (← y) (second_of_year-lt d v)),
      )
      refl
  where
    enters : (k : ℕ) → previous k < second_of_year d → Enters k 0 (second_of_year d)
    enters zero g = tt
    enters (suc k) g =
        let m : 0 + k ≡ k = omega arith in
        Enters-suc k 0 (second_of_year d)
          (rw m (omega (arith, previous_le k, year_length_cases (unix_epoch_year + k))))

-- Seconds so few that the loop stops in the year before.
stops_early :
    (n : ℕ) (d : DateTime)
    → d.year ≡ unix_epoch_year + suc (suc n)
    → len (suc n) + second_of_year d ≤ len n
    → parse_timestamp (epoch_seconds d) ≡ panic out_of_bounds
unfolding parse_timestamp epoch_seconds years_before previous
stops_early n d y h =
    let o = len (suc n) + second_of_year d in
    let z : 0 + n ≡ n = omega arith in
    let m : d.year - unix_epoch_year ≡ suc (suc n) = omega arith in
    let t : years_before (suc (suc n)) + second_of_year d ≡ years_before (suc n) + o =
      omega arith in
    let (fuel, e) = passes (suc n) o (
      Enters-suc n 0 o (
        rw z (
          omega (
            arith,
            previous_le n,
            year_length_cases (unix_epoch_year + n),
            year_length_cases (unix_epoch_year + suc n),
          )))) in
    let past : days_before (month_table (unix_epoch_year + suc n))
            (length (month_table (unix_epoch_year + suc n)))
          * seconds_per_day
        ≤ o =
      rw (length-month_table (unix_epoch_year + suc n))
        (omega (arith, days_before_twelve (unix_epoch_year + suc n))) in
    rw
      (
        m,
        t,
        e,
        year_loop_stop fuel o (unix_epoch_year + suc n) (previous (suc n)) h,
        month_loop_past (month_table (unix_epoch_year + suc n)) 1 o past,
      )
      refl

-- Why a date and time in year 1970 + n is not safe.
pub data Unsafe (d : DateTime) : ℕ → Type 0 where
  too_late : (n : ℕ) → previous n < second_of_year d → Unsafe d n
  too_early : (n : ℕ) → len (suc n) + second_of_year d ≤ len n → Unsafe d (suc (suc n))

pub classify : (n : ℕ) (d : DateTime) → d.year ≡ unix_epoch_year + n → IsSafe d ⊎ Unsafe d n
unfolding previous
classify zero d y = elim (le-or-gt (second_of_year d) 0) [
  | inl h ↦ inl (record {
    first = λ e. omega arith;
    stays = λ e. absurd (omega arith);
    enters = λ e. absurd (omega arith);
  })
  | inr h ↦ inr (too_late 0 h)
]
classify (suc zero) d y =
    let a : d.year - 1 ≡ unix_epoch_year + 0 = omega arith in
    elim (le-or-gt (second_of_year d) (len 0)) [
      | inl h ↦ inl (record {
        first = λ e. absurd (omega arith);
        stays = λ e. rw a h;
        enters = λ e. absurd (omega arith);
      })
      | inr h ↦ inr (too_late 1 h)
    ]
classify (suc (suc n)) d y =
    let a : d.year - 1 ≡ unix_epoch_year + suc n = omega arith in
    let b : d.year - 2 ≡ unix_epoch_year + n = omega arith in
    elim (le-or-gt (second_of_year d) (len (suc n))) [
      | inl h ↦ elim (le-or-gt (len (suc n) + second_of_year d) (len n)) [
        | inl g ↦ inr (too_early n g)
        | inr g ↦ inl (record {
          first = λ e. absurd (omega arith);
          stays = λ e. rw a h;
          enters = λ e. rw (a, b) g;
        })
      ]
      | inr h ↦ inr (too_late (suc (suc n)) h)
    ]

abbrev pub Panics : DateTime → Type 0
Panics d =
    (parse_timestamp (epoch_seconds d) ≡ panic overflow)
    ⊎ (parse_timestamp (epoch_seconds d) ≡ panic out_of_bounds)

pub Unsafe-Panics :
    (d : DateTime) {n : ℕ} → IsDate d → d.year ≡ unix_epoch_year + n → Unsafe d n → Panics d
Unsafe-Panics d v y (too_late n h) = inl (overflows n d v y h)
Unsafe-Panics d v y (too_early n h) = inr (stops_early n d y h)

-- At every date and time that is not safe `parse_timestamp` panics: a subtraction goes below 0, or
-- an index leaves the table of months.
pub parse_timestamp-panics :
    (d : DateTime)
    → IsDate d
    → ¬ IsSafe d
    → (parse_timestamp (epoch_seconds d) ≡ panic overflow)
      ⊎ (parse_timestamp (epoch_seconds d) ≡ panic out_of_bounds)
parse_timestamp-panics d v unsafe =
    let n = d.year - unix_epoch_year in
    let y : d.year ≡ unix_epoch_year + n = omega (arith, v.year_in) in
    elim (classify n d y) [ inl safe ↦ absurd (unsafe safe) | inr u ↦ Unsafe-Panics d v y u ]
