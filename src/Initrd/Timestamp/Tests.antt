-- ===== src/Initrd/Timestamp/Tests.antt =====
-- Timestamps at which `parse_timestamp` is right, and some at which it panics.
use neur_os.Common.{
  ◌⊎◌, panic, overflow, out_of_bounds, ◌≡◌, ◌⊎◌, refl, ok, panic, overflow, out_of_bounds, arith,
  codes,
}
use neur_os.Initrd.Timestamp.{DateTime, parse_timestamp, format_date}
use neur_os.Initrd.Timestamp.Calendar.{IsDate, epoch_seconds, days_before, days_in}
use neur_os.Initrd.Timestamp.Every.{parse_timestamp-every}
use neur_os.Initrd.Timestamp.Correct.{IsSafe, parse_timestamp-epoch_seconds, midyear-IsSafe}
use neur_os.Initrd.Timestamp.Failure.{parse_timestamp-panics}

leap_day_test : parse_timestamp 1709210096 ≡ ok (codes "2024-02-29 12:34:56")
unfolding parse_timestamp
leap_day_test = refl

epoch_test : parse_timestamp 0 ≡ ok (codes "1970-01-01 00:00:00")
unfolding parse_timestamp
epoch_test = refl

-- One second past the epoch.
first_second_test : parse_timestamp 1 ≡ panic overflow
unfolding parse_timestamp
first_second_test = refl

-- 2024-12-31 12:00:00 and 2022-01-01 00:00:00
new_year_test :
    (parse_timestamp 1735646400 ≡ panic overflow)
    × (parse_timestamp 1640995200 ≡ panic out_of_bounds)
unfolding parse_timestamp
new_year_test = (refl, refl)

abbrev leap_day : DateTime
leap_day = record { year = 2024; month = 2; day = 29; hour = 12; minute = 34; second = 56 }

abbrev new_year : DateTime
new_year = record { year = 2022; month = 1; day = 1; hour = 0; minute = 0; second = 0 }

dates : Unit {0}
unfolding epoch_seconds parse_timestamp days_before days_in
dates = tt

leap_day-IsDate : IsDate leap_day
unfolding dates
leap_day-IsDate = omega arith

new_year-IsDate : IsDate new_year
unfolding dates
new_year-IsDate = omega arith

parse_timestamp-epoch_seconds_example :
    parse_timestamp (epoch_seconds leap_day) ≡ ok (format_date leap_day)
unfolding dates
parse_timestamp-epoch_seconds_example =
    parse_timestamp-epoch_seconds leap_day leap_day-IsDate
      (midyear-IsSafe leap_day (omega arith) (omega arith) (omega arith))

new_year-not-IsSafe : ¬ IsSafe new_year
unfolding dates
new_year-not-IsSafe s = omega (arith, s.enters (omega arith))

parse_timestamp-panics_example :
    (parse_timestamp (epoch_seconds new_year) ≡ panic overflow)
    ⊎ (parse_timestamp (epoch_seconds new_year) ≡ panic out_of_bounds)
parse_timestamp-panics_example = parse_timestamp-panics new_year new_year-IsDate new_year-not-IsSafe

parse_timestamp-every_example :
    (d : DateTime) × IsDate d
    × (epoch_seconds d ≡ 1709210096)
    × ((IsSafe d × (parse_timestamp 1709210096 ≡ ok (format_date d)))
        ⊎ ((¬ IsSafe d)
            × ((parse_timestamp 1709210096 ≡ panic overflow)
                ⊎ (parse_timestamp 1709210096 ≡ panic out_of_bounds))))
parse_timestamp-every_example = parse_timestamp-every 1709210096
