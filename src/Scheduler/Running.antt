-- ===== src/Scheduler/Running.antt =====
-- Which processes are marked as running.
use neur_os.Common.{ℕ, suc, ◌+◌, ◌≡◌, refl, List, [], ◌∷◌, ◌++◌, ok, arith}
use neur_os.Process.{Process, State, running, stopped}
use neur_os.Scheduler.{Scheduler, tick, fork}
use neur_os.Scheduler.Switch.{rotated, stopped_last}
use neur_os.Scheduler.RoundRobin.{ticked, tick-ticked}
use neur_os.Scheduler.Identity.{fork-Forked, child, forked}
use neur_os.Logger.{Logger}

-- The front is marked as running, if there is one.
abbrev pub FrontRuns : List Process → Type 0
FrontRuns [] = Unit {0}
FrontRuns (p ∷ ps) = p.state ≡ running

abbrev pub AllStopped : List Process → Type 0
AllStopped [] = Unit {0}
AllStopped (p ∷ ps) = (p.state ≡ stopped) × AllStopped ps

-- The front is the only process that is marked as running.
abbrev pub OnlyFrontRuns : List Process → Type 0
OnlyFrontRuns [] = Unit {0}
OnlyFrontRuns (p ∷ ps) = (p.state ≡ running) × AllStopped ps

pub rotated-FrontRuns : (ps : List Process) → FrontRuns ps → FrontRuns (rotated ps)
unfolding rotated
rotated-FrontRuns [] h = h
rotated-FrontRuns (p ∷ []) h = h
rotated-FrontRuns (p ∷ q ∷ ps) h = refl

pub forked-FrontRuns :
    (p : Process) (ps : List Process) → FrontRuns ps → p.state ≡ running → FrontRuns (forked p ps)
forked-FrontRuns p [] h r = r
forked-FrontRuns p (q ∷ ps) h r = h

AllStopped-append :
    (ps : List Process) (p : Process) → AllStopped ps → AllStopped (stopped_last ps p)
AllStopped-append [] p h = (refl, tt)
AllStopped-append (q ∷ ps) p h = (h.0, AllStopped-append ps p h.1)

rotated-OnlyFrontRuns : (ps : List Process) → OnlyFrontRuns ps → OnlyFrontRuns (rotated ps)
unfolding rotated
rotated-OnlyFrontRuns [] h = h
rotated-OnlyFrontRuns (p ∷ []) h = h
rotated-OnlyFrontRuns (p ∷ q ∷ ps) h = (refl, AllStopped-append ps p h.1.1)

ticked-OnlyFrontRuns : (s : Scheduler) → OnlyFrontRuns s.queue → OnlyFrontRuns (ticked s).queue
unfolding ticked
ticked-OnlyFrontRuns s h = ground (arith, rotated-OnlyFrontRuns s.queue h)

-- Ticks hand the processor over cleanly: where the front is the only process marked as running, it
-- is so after the tick, whether or not the tick switches.
pub tick-OnlyFrontRuns :
    (s t : Scheduler) (l l' : Logger)
    → tick s l ≡ ok (t, l')
    → OnlyFrontRuns s.queue
    → OnlyFrontRuns t.queue
tick-OnlyFrontRuns s t l l' e h = rw (tick-ticked s t l l' e) (ticked-OnlyFrontRuns s h)

pub is_running : State → ℕ
is_running running = 1
is_running stopped = 0

-- How many processes are marked as running.
unfoldable pub count_running : List Process → ℕ
unfolding is_running
count_running [] = 0
count_running (p ∷ ps) = is_running p.state + count_running ps

count_running-forked :
    (p : Process) (ps qs : List Process)
    → p.state ≡ running
    → count_running (ps ++ (child p qs ∷ [])) ≡ suc (count_running ps)
unfolding count_running
count_running-forked p [] qs r = rw r refl
count_running-forked p (q ∷ ps) qs r = omega (arith, count_running-forked p ps qs r)

-- `fork` clones the parent with its state: where the front is marked as running, a fork leaves one
-- more process so marked, the child at the back.
pub fork-count_running :
    (s t : Scheduler) (pid : ℕ)
    → FrontRuns s.queue
    → fork s ≡ ok (t, pid)
    → count_running t.queue ≡ suc (count_running s.queue)
fork-count_running s t pid h e =
    let f = fork-Forked s t pid e in
    rw (f.after) (count_running-forked f.parent s.queue s.queue (rw f.before at h))
