-- ===== src/Initrd/Timestamp.antt =====
-- kernel/src/initrd.rs, `File::parse_timestamp`: seconds since 1970 as a date and a time.
mod Calendar
mod Years
mod Months
mod Correct
mod Failure
mod Every
pub mod Ends
mod Tests
use neur_os.Common.{
  ℕ, zero, suc, ◌+◌, ◌-◌, ◌*◌, ◌/◌, ◌%◌, Text, codes, show, show_02, List, [], ◌∷◌, ◌++◌, Bool, not,
  ◌&&◌, ◌||◌, Outcome, ok, panic, overflow, out_of_bounds, stuck, ◌>>=◌, ◌==◌, ltb, leb,
  if◌then◌else◌,
}

abbrev pub unix_epoch_year : ℕ
unix_epoch_year = 1970

abbrev pub days_per_month : List ℕ
days_per_month = 31 ∷ 28 ∷ 31 ∷ 30 ∷ 31 ∷ 30 ∷ 31 ∷ 31 ∷ 30 ∷ 31 ∷ 30 ∷ 31 ∷ []

abbrev pub days_per_leap_month : List ℕ
days_per_leap_month = 31 ∷ 29 ∷ 31 ∷ 30 ∷ 31 ∷ 30 ∷ 31 ∷ 31 ∷ 30 ∷ 31 ∷ 30 ∷ 31 ∷ []

abbrev pub days_per_year : ℕ
days_per_year = 365

abbrev pub days_per_leap_year : ℕ
days_per_leap_year = 366

abbrev pub seconds_per_minute : ℕ
seconds_per_minute = 60

abbrev pub seconds_per_hour : ℕ
seconds_per_hour = seconds_per_minute * 60

abbrev pub seconds_per_day : ℕ
seconds_per_day = seconds_per_hour * 24

abbrev pub seconds_per_year : ℕ
seconds_per_year = seconds_per_day * days_per_year

abbrev pub seconds_per_leap_year : ℕ
seconds_per_leap_year = seconds_per_day * days_per_leap_year

pub is_leap_year : ℕ → Bool
is_leap_year year = ((year % 4 == 0) && not (year % 100 == 0)) || (year % 400 == 0)

-- What the body of the first loop assigns to `year_seconds`.
pub year_length : ℕ → ℕ
unfolding is_leap_year
year_length year = if is_leap_year year then seconds_per_leap_year else seconds_per_year

-- `while seconds > year_seconds`, with fuel: the year and the seconds left. `seconds -=
-- year_seconds` panics where it would go below 0. The year stays far below 2 ^ 32.
pub year_loop : ℕ → ℕ → ℕ → ℕ → Outcome (ℕ × ℕ)
unfolding year_length
year_loop zero seconds year year_seconds = panic stuck
year_loop (suc fuel) seconds year year_seconds =
    let length = year_length year in
    let rest = year_loop fuel (seconds - length) (year + 1) length in
    if ltb year_seconds seconds
    then (if ltb seconds length then panic overflow else rest)
    else ok (year, seconds)

-- `while seconds >= days_per_month[month - 1] * SECONDS_PER_DAY`: the list is what the table holds
-- from index `month - 1` on, and an index past its end panics.
pub month_loop : List ℕ → ℕ → ℕ → Outcome (ℕ × ℕ)
month_loop [] seconds month = panic out_of_bounds
month_loop (days ∷ table) seconds month =
    let rest = month_loop table (seconds - days * seconds_per_day) (month + 1) in
    if leb (days * seconds_per_day) seconds then rest else ok (month, seconds)

pub month_table : ℕ → List ℕ
unfolding is_leap_year
month_table year = if is_leap_year year then days_per_leap_month else days_per_month

pub record DateTime : Type 0 where
  pub year : ℕ
  pub month : ℕ
  pub day : ℕ
  pub hour : ℕ
  pub minute : ℕ
  pub second : ℕ

-- The arithmetic after the two loops.
pub split_day : ℕ → ℕ → ℕ → DateTime
split_day year month seconds = record {
  year = year;
  month = month;
  day = seconds / seconds_per_day + 1;
  hour = seconds % seconds_per_day / seconds_per_hour;
  minute = seconds % seconds_per_day % seconds_per_hour / seconds_per_minute;
  second = seconds % seconds_per_day % seconds_per_hour % seconds_per_minute;
}

-- The final `format!`.
pub format_date : DateTime → Text
format_date d =
    show d.year
    ++ (codes "-"
        ++ (show_02 d.month
            ++ (codes "-"
                ++ (show_02 d.day
                    ++ (codes " "
                        ++ (show_02 d.hour
                            ++ (codes ":"
                                ++ (show_02 d.minute ++ (codes ":" ++ show_02 d.second)))))))))

-- The fields that `parse_timestamp` computes. Each round of the first loop takes off a year at
-- least, so the fuel is enough.
pub date_time : ℕ → Outcome DateTime
unfolding year_loop month_loop month_table split_day
date_time timestamp = do
  (year, seconds) ← year_loop (timestamp / seconds_per_year + 2) timestamp unix_epoch_year 0
  (month, seconds') ← month_loop (month_table year) seconds 1
  ok (split_day year month seconds')

-- `File::parse_timestamp`
unfoldable pub parse_timestamp : ℕ → Outcome Text
unfolding date_time format_date show show_02
parse_timestamp timestamp = do d ← date_time timestamp; ok (format_date d)
