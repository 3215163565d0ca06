-- ===== src/Timer.antt =====
-- kernel/src/timer.rs: the count of timer interrupts, an `AtomicU32`.
use neur_os.Common.{ℕ, ◌+◌, ◌%◌, ◌^◌}

pub record Timer : Type 0 where
  pub elapsed : ℕ

abbrev pub new : Timer
new = record { elapsed = 0 }

abbrev pub get_elapsed : Timer → ℕ
get_elapsed t = t.elapsed

-- `fetch_add` wraps around.
unfoldable pub increment : Timer → Timer
increment t = record { elapsed = (t.elapsed + 1) % 2 ^ 32 }
