-- ===== src/Initrd/Timestamp/Calendar.antt =====
-- The calendar, independently of the loops: when a year begins and when a month begins.
use neur_os.Common.{ℕ, zero, suc, ◌+◌, ◌-◌, ◌*◌, ◌≤◌, ◌<◌, ◌≡◌, List, [], ◌∷◌, arith}
use neur_os.Initrd.Timestamp.{
  DateTime, is_leap_year, year_length, month_table, seconds_per_day, seconds_per_hour,
  seconds_per_minute, seconds_per_year, seconds_per_leap_year, unix_epoch_year,
}

-- The seconds from the start of 1970 to the start of year 1970 + n.
unfoldable pub years_before : ℕ → ℕ
years_before zero = 0
years_before (suc n) = years_before n + year_length (unix_epoch_year + n)

-- The days of the first `n` months of a table.
unfoldable pub days_before : List ℕ → ℕ → ℕ
days_before table zero = 0
days_before [] (suc n) = 0
days_before (d ∷ table) (suc n) = d + days_before table n

-- The length of the n-th month of a table, from 0.
unfoldable pub days_in : List ℕ → ℕ → ℕ
days_in [] n = 0
days_in (d ∷ table) zero = d
days_in (d ∷ table) (suc n) = days_in table n

-- The date and time exist, in a year from 1970 on.
pub record IsDate (d : DateTime) : Type 0 where
  pub year_in : unix_epoch_year ≤ d.year
  pub month_in : (1 ≤ d.month) × (d.month ≤ 12)
  pub day_in : (1 ≤ d.day) × (d.day ≤ days_in (month_table d.year) (d.month - 1))
  pub hour_in : d.hour < 24
  pub minute_in : d.minute < 60
  pub second_in : d.second < 60

-- The second of its year at which a date and time fall.
unfoldable pub second_of_year : DateTime → ℕ
second_of_year d =
    (days_before (month_table d.year) (d.month - 1) + (d.day - 1)) * seconds_per_day
    + d.hour * seconds_per_hour
    + d.minute * seconds_per_minute
    + d.second

-- The seconds since 1970 at a date and time.
unfoldable pub epoch_seconds : DateTime → ℕ
unfolding second_of_year
epoch_seconds d = years_before (d.year - unix_epoch_year) + second_of_year d

pub year_length_cases :
    (y : ℕ) → (seconds_per_year ≤ year_length y) × (year_length y ≤ seconds_per_leap_year)
unfolding year_length is_leap_year
year_length_cases y = ground arith

-- The twelve months make up the year.
pub days_before_twelve : (y : ℕ) → days_before (month_table y) 12 * seconds_per_day ≡ year_length y
unfolding days_before month_table year_length is_leap_year
days_before_twelve y = ground arith
