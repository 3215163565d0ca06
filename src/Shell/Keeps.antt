-- ===== src/Shell/Keeps.antt =====
-- kernel/src/shell.rs: what the commands leave alone, whatever is typed.
use neur_os.Common.{
  ◌≡◌, refl, ℕ, Text, ◌==◌, Bool-cases, inl, inr, Whenever, Whenever-bind, Whenever-ok,
}
use neur_os.Scheduler.{Scheduler}
use neur_os.Scheduler
use neur_os.Scheduler.Reach.{Reach, next, forks}
use neur_os.Syscall
use neur_os.Elf.{elf_new}
use neur_os.Shell.{
  Shell, System, Command, echo, fork, help, id, logs, pwd, readelf, reboot, shutdown, time, unknown,
  command_of, run, split_line, interpret, enter,
}

-- The second system is the first with another scheduler, which can be reached if the first one's can.
pub record Keeps (y y' : System) : Type 0 where
  pub initrd : y'.initrd ≡ y.initrd
  pub logger : y'.logger ≡ y.logger
  pub clock : y'.clock ≡ y.clock
  pub reach : Reach y.scheduler → Reach y'.scheduler

Keeps-refl : (y : System) → Keeps y y
Keeps-refl y = record { initrd = refl; logger = refl; clock = refl; reach = λ r. r }

run-Keeps :
    (c : Command) (argument : Text) (s : Shell) (y : System)
    → Whenever (λ r. Keeps y r.0) (run c argument s y)
unfolding run Syscall.call
run-Keeps fork argument s y =
    Whenever-bind (λ r. Keeps y r.0) (Scheduler.fork y.scheduler) _
      (λ r e. record {
        initrd = refl;
        logger = refl;
        clock = refl;
        reach = λ reach. next reach (forks r.1 e);
      })
run-Keeps readelf argument s y =
    Whenever-bind (λ r. Keeps y r.0) (elf_new y.initrd argument) _ (λ r e. Keeps-refl y)
run-Keeps echo argument s y = Keeps-refl y
run-Keeps help argument s y = Keeps-refl y
run-Keeps id argument s y = Keeps-refl y
run-Keeps logs argument s y = Keeps-refl y
run-Keeps pwd argument s y = Keeps-refl y
run-Keeps reboot argument s y = Keeps-refl y
run-Keeps shutdown argument s y = Keeps-refl y
run-Keeps time argument s y = Keeps-refl y
run-Keeps unknown argument s y = Keeps-refl y

enter-Keeps : (s : Shell) (y : System) → Whenever (λ r. Keeps y r.1) (enter s y)
unfolding enter
enter-Keeps s y =
    let l = split_line s.buffer in
    Whenever-bind (λ r. Keeps y r.1) (run (command_of l.0) l.1 s y) _
      (λ r e.
        Whenever-ok (λ r'. Keeps y r'.0) (run (command_of l.0) l.1 s y) r
          (run-Keeps (command_of l.0) l.1 s y) e)

pub interpret-Keeps :
    (c : ℕ) (s : Shell) (y : System) → Whenever (λ r. Keeps y r.1) (interpret c s y)
unfolding interpret
interpret-Keeps c s y = elim (Bool-cases (c == 13)) [
  | inl e ↦ rw (e, interpret) (enter-Keeps s y)
  | inr e ↦ elim (Bool-cases (c == 8)) [
    | inl e' ↦ rw (e, interpret) (rw (e', interpret) (Keeps-refl y))
    | inr e' ↦ rw (e, interpret) (rw (e', interpret) (Keeps-refl y))
  ]
]
