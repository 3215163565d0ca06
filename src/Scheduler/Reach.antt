-- ===== src/Scheduler/Reach.antt =====
-- The states that the scheduler can reach from boot by timer interrupts and forks.
use mathlib.Core.List.{Mem}
use mathlib.Core.List.Perm
use neur_os.Common.{
  ℕ, ◌≤◌, ◌≡◌, refl, List, [], ◌∷◌, ◌++◌, ok, arith, ap, ◌≢◌, some, Bool-cases, ◌==◌, inl, inr,
}
use neur_os.Logger.{Logger}
use neur_os.Process.{Process}
use neur_os.Scheduler.{Scheduler, tick, fork, initialize, front}
use neur_os.Scheduler.Switch.{ids, rotated}
use neur_os.Scheduler.RoundRobin.{ticked, tick-ticked}
use neur_os.Scheduler.Identity.{
  IsNumbered, fork-Forked, fork-forked, forked, rotated-IsNumbered, forked-IsNumbered, fresh,
  down_from,
}
use neur_os.Scheduler.Running.{FrontRuns, rotated-FrontRuns, forked-FrontRuns}

-- An interrupt of the timer, or a `fork` system call.
pub data Step (s t : Scheduler) : Type 0 where
  timer : (l l' : Logger) → tick s l ≡ ok (t, l') → Step s t
  forks : (pid : ℕ) → fork s ≡ ok (t, pid) → Step s t

pub data Reach : Scheduler → Type 0 where
  boot : (l : Logger) → Reach (initialize l).0
  next : {s t : Scheduler} → Reach s → Step s t → Reach t

-- The queue holds a process, its identifiers are 1 to its length, its front is marked as running,
-- and no more of the quantum is left than there is.
pub record IsValid (s : Scheduler) : Type 0 where
  pub occupied : s.queue ≢ []
  pub numbered : IsNumbered s.queue
  pub front_runs : FrontRuns s.queue
  pub budget : s.remaining ≤ s.quantum

initialize-IsValid : (l : Logger) → IsValid (initialize l).0
unfolding initialize down_from
initialize-IsValid l = record {
  occupied = λ e. cc e;
  numbered = Perm.refl (1 ∷ []);
  front_runs = refl;
  budget = omega arith;
}

rotated-occupied : (ps : List Process) → ps ≢ [] → rotated ps ≢ []
unfolding rotated
rotated-occupied [] h e = h e
rotated-occupied (p ∷ []) h e = cc e
rotated-occupied (p ∷ q ∷ ps) h e = cc e

ticked-IsValid : (s : Scheduler) → IsValid s → IsValid (ticked s)
unfolding ticked
ticked-IsValid s v = elim (Bool-cases (s.remaining == 0)) [
  | inl e ↦ rw e (record {
    occupied = rotated-occupied s.queue v.occupied;
    numbered = rotated-IsNumbered s.queue v.numbered;
    front_runs = rotated-FrontRuns s.queue v.front_runs;
    budget = omega arith;
  })
  | inr e ↦ rw e (record {
    occupied = v.occupied;
    numbered = v.numbered;
    front_runs = v.front_runs;
    budget = omega (arith, v.budget);
  })
]

forked-occupied : (p : Process) (ps : List Process) → forked p ps ≢ []
forked-occupied p [] e = cc e
forked-occupied p (q ∷ ps) e = cc e

fork-IsValid : (s t : Scheduler) (pid : ℕ) → IsValid s → fork s ≡ ok (t, pid) → IsValid t
fork-IsValid s t pid v e =
    let f = fork-Forked s t pid e in
    rw f.after (record {
      occupied = forked-occupied f.parent s.queue;
      numbered = forked-IsNumbered f.parent s.queue v.numbered;
      front_runs = forked-FrontRuns f.parent s.queue v.front_runs (rw f.before at (v.front_runs));
      budget = v.budget;
    })

-- Every state that the scheduler reaches from boot, by any sequence of timer interrupts and forks,
-- has a process in its queue, the identifiers 1 to the queue's length each once, a front process
-- that is marked as running, and at most a whole quantum left.
pub Reach-IsValid : {s : Scheduler} → Reach s → IsValid s
Reach-IsValid (boot l) = initialize-IsValid l
Reach-IsValid (next {s} {t} r (timer l l' e)) =
    rw (tick-ticked s t l l' e) (ticked-IsValid s (Reach-IsValid r))
Reach-IsValid (next {s} {t} r (forks pid e)) = fork-IsValid s t pid (Reach-IsValid r) e

front_of_occupied :
    (ps : List Process) → ps ≢ [] → (p : Process) × (qs : List Process) × (ps ≡ p ∷ qs)
front_of_occupied [] h = absurd (h refl)
front_of_occupied (p ∷ qs) h = (p, qs, refl)

-- In a reachable state `fork` returns. It appends a copy of the front process that differs in its
-- identifier alone, the identifier that it returns; no process in the queue has that identifier.
pub fork-fresh :
    {s : Scheduler}
    → Reach s
    → (t : Scheduler) × (pid : ℕ) × (parent : Process) × (fork s ≡ ok (t, pid))
      × (front s.queue ≡ some parent)
      × (t ≡ record s { queue = s.queue ++ (record parent { id = pid } ∷ []) })
      × (¬ Mem pid (ids s.queue))
unfolding front
fork-fresh {s} r =
    let v = Reach-IsValid r in
    let (p, ps, e) = front_of_occupied s.queue v.occupied in
    (_, _, p, fork-forked {s = s} e, ap front e, refl, fresh s.queue v.numbered)
