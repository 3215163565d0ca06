-- ===== src/Syscall.antt =====
-- kernel/src/syscall.rs: the system calls. All but `fork` are `todo!`, which panics.
use neur_os.Common.{ℕ, Outcome, panic, explicit_panic}
use neur_os.Scheduler.{Scheduler}
use neur_os.Scheduler

pub data Call : Type 0 where
  close exec exit fork kill open_file read wait write : Call

-- The scheduler after a call, and the number that it returns.
unfoldable pub call : Call → Scheduler → Outcome (Scheduler × ℕ)
call fork s = Scheduler.fork s
call _ s = panic explicit_panic
