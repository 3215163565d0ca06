-- ===== src/Scheduler/RoundRobin.antt =====
-- `tick` against an abstract round-robin line of identifiers.
use neur_os.Common.{ℕ, ◌-◌, ◌≡◌, refl, List, ok, ◌==◌, if◌then◌else◌, Bool-cases, inl, inr}
use neur_os.Logger.{Logger}
use neur_os.Scheduler.{Scheduler, tick}
use neur_os.Scheduler.Switch.{ids, rotated, rotate_lem, rotl, ids-rotated}

-- The scheduler after a tick.
unfoldable pub ticked : Scheduler → Scheduler
ticked s =
    if s.remaining == 0
    then record s { queue = rotated s.queue; remaining = s.quantum }
    else record s { remaining = s.remaining - 1 }

pub tick_lem : (s : Scheduler) (l : Logger) → (l' : Logger) × (tick s l ≡ ok (ticked s, l'))
unfolding tick ticked
tick_lem s l = elim (Bool-cases (s.remaining == 0)) [
  | inl e ↦ let (l', r) = rotate_lem s l in (l', rw (e, r) refl)
  | inr e ↦ (l, rw e refl)
]

pub tick-ticked : (s t : Scheduler) (l l' : Logger) → tick s l ≡ ok (t, l') → t ≡ ticked s
tick-ticked s t l l' e = let (l₁, r) = tick_lem s l in cc

-- The contract: who is in line, and how many ticks the one at the front has left.
pub record Line : Type 0 where
  pub waiting : List ℕ
  pub quantum : ℕ
  pub left : ℕ

-- A tick uses up one unit of time; at 0 the front goes to the end and a new quantum starts.
unfoldable pub pass_time : Line → Line
unfolding rotl
pass_time r =
    if r.left == 0
    then record r { waiting = rotl r.waiting; left = r.quantum }
    else record r { left = r.left - 1 }

abbrev pub line : Scheduler → Line
line s = record { waiting = ids s.queue; quantum = s.quantum; left = s.remaining }

line-ticked : (s : Scheduler) → line (ticked s) ≡ pass_time (line s)
unfolding ticked pass_time
line-ticked s = elim (Bool-cases (s.remaining == 0)) [
  | inl e ↦ rw (e, ids-rotated s.queue) refl
  | inr e ↦ rw e refl
]

-- `tick` never panics, whatever the queue holds, and moves the line of process identifiers as
-- `pass_time` does: a unit of the quantum is used up, or the front goes to the back.
pub tick_refines :
    (s : Scheduler) (l : Logger)
    → (s' : Scheduler) × (l' : Logger) × (tick s l ≡ ok (s', l')) × (line s' ≡ pass_time (line s))
tick_refines s l = let (l', e) = tick_lem s l in (ticked s, l', e, line-ticked s)
