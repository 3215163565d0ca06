-- ===== src/Scheduler.antt =====
-- kernel/src/scheduler.rs: the round-robin scheduler. A `VecDeque` is the list of its elements,
-- front first; the global LOGGER, which the macros lock, is passed along.
mod Switch
pub mod RoundRobin
mod Turns
mod Identity
mod Running
pub mod Reach
pub mod Lines
mod Tests
use neur_os.Common.{
  ℕ, zero, suc, ◌+◌, ◌-◌, Text, codes, show, Option, none, some, List, [], ◌∷◌, ◌++◌, length,
  Outcome, ok, unwrap, ◌>>=◌, ◌==◌, leb, if◌then◌else◌,
}
use neur_os.Logger.Macros
use neur_os.Logger.{Logger, Level, log}
use neur_os.Process.{Process, State, get_id, get_name, set_id, set_state}
use neur_os.Process

pub record Scheduler : Type 0 where
  pub queue : List Process
  pub quantum : ℕ
  pub remaining : ℕ

-- `VecDeque::pop_front`, `front` and `push_back`
pub pop_front : List Process → Option (Process × List Process)
pop_front [] = none
pop_front (p ∷ ps) = some (p, ps)

pub front : List Process → Option Process
front [] = none
front (p ∷ ps) = some p

abbrev pub push_back : Process → List Process → List Process
push_back p ps = ps ++ (p ∷ [])

-- `Scheduler::new`
unfoldable pub new : ℕ → Logger → Scheduler × Logger
new quantum l = (
  record { queue = []; quantum = quantum; remaining = quantum },
  Macros.debug
      (codes "Created process scheduler with a quantum of " ++ (show quantum ++ codes " ticks.")) l,
)

-- `Scheduler::add`
unfoldable pub add : Process → Scheduler → Scheduler
add p s = record s { queue = push_back p s.queue }

-- "verb process #id (name)."
switch_message : Text → Process → Text
switch_message verb p =
    verb ++ (codes " process #" ++ (show (get_id p) ++ (codes " (" ++ (get_name p ++ codes ")."))))

-- `if let Some(back) = self.queue.back_mut()`
pub stop_back : List Process → Logger → List Process × Logger
stop_back [] l = ([], l)
stop_back (p ∷ []) l =
    let stopped = set_state State.stopped p in
    (stopped ∷ [], Macros.trace (switch_message (codes "Stopped") stopped) l)
stop_back (p ∷ q ∷ ps) l = let (rest, l') = stop_back (q ∷ ps) l in (p ∷ rest, l')

-- `if let Some(front) = self.queue.front_mut()`
start_front : List Process → Logger → List Process × Logger
start_front [] l = ([], l)
start_front (p ∷ ps) l =
    let started = set_state State.running p in
    (started ∷ ps, Macros.trace (switch_message (codes "Started") started) l)

-- `Scheduler::schedule`
schedule : Scheduler → Logger → Outcome (Scheduler × Logger)
unfolding pop_front stop_back start_front switch_message
schedule s l = do
  (current, rest) ← unwrap (pop_front s.queue)
  let (stopped, l₁) = stop_back (push_back current rest) l
  let (started, l₂) = start_front stopped l₁
  ok (record s { queue = started }, l₂)

-- The inner branch of `tick`, at the end of a quantum.
pub rotate : Scheduler → Logger → Outcome (Scheduler × Logger)
unfolding schedule
rotate s l =
    if leb 2 (length s.queue)
    then schedule s l
    else ok (s, Macros.warn (codes "Queue doesn't have enough processes to swap.") l)

-- `Scheduler::tick`
unfoldable pub tick : Scheduler → Logger → Outcome (Scheduler × Logger)
unfolding rotate
tick s l =
    if s.remaining == 0
    then (do (s', l') ← rotate s l; ok (record s' { remaining = s'.quantum }, l'))
    else ok (record s { remaining = s.remaining - 1 }, l)

-- `Scheduler::fork`: the new scheduler and the child's identifier. The queue is in memory, so its
-- length is far below 2 ^ 64 and neither the sum nor the cast changes it.
unfoldable pub fork : Scheduler → Outcome (Scheduler × ℕ)
unfolding front add
fork s = do
  parent ← unwrap (front s.queue)
  let child = set_id (length s.queue + 1) parent
  ok (add child s, get_id child)

-- The `SCHEDULER` of the kernel, and what `initialize` puts into it.
unfoldable pub initialize : Logger → Scheduler × Logger
unfolding new add
initialize l = let (s, l') = new 100 l in (add (Process.new 1 (codes "kernel") State.running) s, l')

-- `k` timer interrupts in a row, each of which calls `tick`.
unfoldable pub ticks : ℕ → Scheduler → Logger → Outcome (Scheduler × Logger)
ticks zero s l = ok (s, l)
ticks (suc k) s l = do (s', l') ← tick s l; ticks k s' l'
