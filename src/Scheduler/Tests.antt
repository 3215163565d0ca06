-- ===== src/Scheduler/Tests.antt =====
-- Runs of the scheduler, and its theorems at concrete queues.
use mathlib.Core.List.{Mem}
use neur_os.Common.{ℕ, ◌+◌, ◌*◌, ◌≡◌, refl, [], ◌∷◌, ◌++◌, some, ok, panic, unwrap_failed, codes}
use neur_os.Logger.{Logger}
use neur_os.Logger
use neur_os.Process.{Process, State, running, stopped}
use neur_os.Process
use neur_os.Scheduler.{Scheduler, tick, ticks, fork, front, initialize}
use neur_os.Scheduler.Switch.{ids}
use neur_os.Scheduler.RoundRobin.{line, pass_time, tick_refines}
use neur_os.Scheduler.Turns.{ticks-turns}
use neur_os.Scheduler.Running.{OnlyFrontRuns, count_running, tick-OnlyFrontRuns, fork-count_running}
use neur_os.Scheduler.Reach.{IsValid, boot, next, forks, Reach-IsValid, fork-fresh}

abbrev kernel : Process
kernel = Process.new 1 (codes "kernel") running

abbrev child : Process
child = Process.new 2 (codes "kernel") stopped

abbrev third : Process
third = Process.new 3 (codes "init") stopped

-- Three processes, a quantum of two ticks.
abbrev three : ℕ → Scheduler
three left = record { queue = kernel ∷ child ∷ third ∷ []; quantum = 2; remaining = left }

runs : Unit {0}
unfolding tick ticks fork initialize Logger.log
runs = tt

abbrev boot_state : Scheduler
boot_state = record { queue = kernel ∷ []; quantum = 100; remaining = 100 }

abbrev after_fork : Scheduler
after_fork = record boot_state { queue = kernel ∷ record kernel { id = 2 } ∷ [] }

initialize_test : (initialize Logger.new).0 ≡ boot_state
unfolding runs
initialize_test = refl

-- An empty queue cannot fork.
fork_empty : fork (record boot_state { queue = [] }) ≡ panic unwrap_failed
unfolding runs
fork_empty = refl

tick_refines_example :
    (s' : Scheduler) × (l' : Logger) × (tick (three 0) Logger.new ≡ ok (s', l'))
    × (line s' ≡ pass_time (line (three 0)))
tick_refines_example = tick_refines (three 0) Logger.new

pass_time_test :
    pass_time (line (three 0)) ≡ record { waiting = 2 ∷ 3 ∷ 1 ∷ []; quantum = 2; left = 2 }
unfolding pass_time
pass_time_test = refl

ticks-turns_example :
    (s' : Scheduler) × (l' : Logger) × (ticks (2 * (2 + 1)) (three 2) Logger.new ≡ ok (s', l'))
    × (ids s'.queue ≡ 3 ∷ 1 ∷ 2 ∷ [])
    × (s'.remaining ≡ s'.quantum)
ticks-turns_example = ticks-turns (1 ∷ 2 ∷ []) (3 ∷ []) (three 2) Logger.new refl refl

tick-OnlyFrontRuns_example : OnlyFrontRuns (three 1).queue
unfolding runs
tick-OnlyFrontRuns_example =
    tick-OnlyFrontRuns (three 2) (three 1) Logger.new Logger.new refl (refl, (refl, (refl, tt)))

fork-count_running_example : count_running after_fork.queue ≡ count_running boot_state.queue + 1
unfolding runs count_running
fork-count_running_example = fork-count_running boot_state after_fork 2 refl refl

Reach-IsValid_example : IsValid after_fork
unfolding runs
Reach-IsValid_example = Reach-IsValid (next (boot Logger.new) (forks 2 refl))

fork-fresh_example :
    (t : Scheduler) × (pid : ℕ) × (parent : Process) × (fork (initialize Logger.new).0
      ≡ ok (t, pid))
    × (front (initialize Logger.new).0.queue ≡ some parent)
    × (t ≡ record (initialize Logger.new).0 {
      queue = (initialize Logger.new).0.queue ++ (record parent { id = pid } ∷ []);
    })
    × (¬ Mem pid (ids (initialize Logger.new).0.queue))
fork-fresh_example = fork-fresh (boot Logger.new)
