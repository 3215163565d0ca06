-- ===== src/Machine/Events.antt =====
-- What holds after any sequence of interrupts.
use neur_os.Common.{
  ◌≡◌, refl, ap, sym, ◌∙◌, ℕ, suc, ◌+◌, ◌*◌, length, ◌%◌, ◌^◌, ◌<◌, List, [], ◌∷◌, ◌++◌, map, ok,
  ◌==◌, Bool-cases, inl, inr, arith, append-nil, append_assoc, Whenever, Whenever-bind, Whenever-ok,
  Whenever-mono,
}
use neur_os.Logger.Growth.{Grows, Grows-refl, Grows-trans, log-Grows}
use neur_os.Logger.{Logger}
use neur_os.Timer.{increment}
use neur_os.Scheduler
use neur_os.Scheduler.Reach.{Reach, next, timer}
use neur_os.Scheduler.Lines.{tick-Grows}
use neur_os.Initrd.Archive.{Initrd}
use neur_os.Serial.{Device, read, write_str}
use neur_os.Shell
use neur_os.Shell.Keeps.{Keeps, interpret-Keeps}
use neur_os.Keyboard
use neur_os.Keyboard.{Screen}
use neur_os.Interrupts.{index, keyboard, com1, timer_handler}
use neur_os.Interrupts
use neur_os.Interrupts.Console.{Console, serial_handler}
use neur_os.Interrupts.Keys.{Desk, keyboard_handler}
use neur_os.Machine.{Machine, Event, tick, receive, press, handle, run}

-- The vector of an interrupt.
abbrev pub vector : Event → ℕ
vector tick = index Interrupts.timer
vector receive = index com1
vector (press scan_code) = index keyboard

-- How many of the interrupts are the timer's.
abbrev pub ticks_in : List Event → ℕ
ticks_in [] = 0
ticks_in (tick ∷ events) = suc (ticks_in events)
ticks_in (receive ∷ events) = ticks_in events
ticks_in (press scan_code ∷ events) = ticks_in events

-- From one state to a later one.
pub record Follows (events : List Event) (m m' : Machine) : Type 0 where
  pub initrd : m'.initrd ≡ m.initrd
  pub reach : Reach m'.scheduler
  pub clock : m'.clock.elapsed ≡ (m.clock.elapsed + ticks_in events) % 2 ^ 32
  pub logger : Grows (2 * length events) m.logger m'.logger
  pub ended : m'.ended ≡ m.ended ++ map vector events

timer_handler-Whenever :
    (k : Interrupts.Kernel)
    → Reach k.scheduler
    → Whenever
        (λ k'.
          (k'.clock ≡ increment k.clock)
          × Reach k'.scheduler
          × Grows 2 k.logger k'.logger
          × (k'.ended ≡ k.ended ++ (index Interrupts.timer ∷ [])))
        (timer_handler k)
unfolding timer_handler
timer_handler-Whenever k r = Whenever-bind _ (Scheduler.tick k.scheduler k.logger) _ (λ t e. (
  refl,
  next r (timer k.logger t.1 e),
  Whenever-ok (λ t'. Grows 2 k.logger t'.1) (Scheduler.tick k.scheduler k.logger) t
      (tick-Grows k.scheduler k.logger) e,
  refl,
))

serial_handler-Whenever :
    (register : Device) (fuel : ℕ) (c : Console)
    → Whenever
        (λ c'. Keeps c.system c'.system × (c'.ended ≡ c.ended ++ (index com1 ∷ [])))
        (serial_handler register fuel c)
unfolding serial_handler
serial_handler-Whenever register fuel c = Whenever-bind _ (read register fuel c.serial) _ (λ r _.
    Whenever-bind _ (Shell.interpret r.1 c.shell c.system) _ (λ t e.
      Whenever-bind _ (write_str register fuel t.2 r.0) _ (λ port _. (
        Whenever-ok (λ t'. Keeps c.system t'.1) (Shell.interpret r.1 c.shell c.system) t
            (interpret-Keeps r.1 c.shell c.system) e,
        refl,
      ))))

interpret-Grows :
    (code : ℕ) (i : Initrd) (s : Screen) (l : Logger)
    → Whenever (λ r. Grows 2 l r.1) (Keyboard.interpret code i s l)
unfolding Keyboard.interpret
interpret-Grows code i s l = elim (Bool-cases (code == Keyboard.enter)) [
  | inr other ↦ rw (other, Keyboard.interpret) (log-Grows 1 _ _ l)
  | inl enter ↦
      rw (enter, Keyboard.interpret)
        (Whenever-bind (λ r. Grows 2 l r.1) (Keyboard.lock_console i s) _
          (λ t _.
            Whenever-bind (λ r. Grows 2 l r.1) (Keyboard.display i t.0 t.1) _
              (λ v _. log-Grows 1 _ _ l)))
]

keyboard_handler-Whenever :
    (code : ℕ) (i : Initrd) (d : Desk)
    → Whenever
        (λ d'. Grows 2 d.logger d'.logger × (d'.ended ≡ d.ended ++ (index keyboard ∷ [])))
        (keyboard_handler code i d)
unfolding keyboard_handler
keyboard_handler-Whenever code i d =
    Whenever-bind _ (Keyboard.interpret code i d.screen d.logger) _ (λ r e. (
      Whenever-ok (λ r'. Grows 2 d.logger r'.1) (Keyboard.interpret code i d.screen d.logger) r
          (interpret-Grows code i d.screen d.logger) e,
      refl,
    ))

-- One interrupt.
pub handle-Follows :
    (register : Device) (fuel : ℕ) (e : Event) (m : Machine)
    → Reach m.scheduler
    → m.clock.elapsed < 2 ^ 32
    → Whenever (Follows (e ∷ []) m) (handle register fuel e m)
unfolding handle increment
handle-Follows register fuel tick m r h =
    let k₀ : Interrupts.Kernel = record {
      clock = m.clock;
      scheduler = m.scheduler;
      logger = m.logger;
      ended = m.ended;
    } in
    Whenever-bind (Follows (tick ∷ []) m) (timer_handler k₀) _ (λ k e.
      let t = Whenever-ok _ (timer_handler k₀) k (timer_handler-Whenever k₀ r) e in
      record {
        initrd = refl;
        reach = t.1;
        clock = ap (λ c. c.elapsed) t.0;
        logger = t.2;
        ended = t.3;
      })
handle-Follows register fuel receive m r h =
    let c₀ : Console = record {
      shell = m.shell;
      serial = m.serial;
      system = record {
        initrd = m.initrd;
        scheduler = m.scheduler;
        logger = m.logger;
        clock = m.clock;
      };
      ended = m.ended;
    } in
    Whenever-bind (Follows (receive ∷ []) m) (serial_handler register fuel c₀) _ (λ c e.
      let (keeps, ended) =
        Whenever-ok _ (serial_handler register fuel c₀) c (serial_handler-Whenever register fuel c₀)
          e in
      record {
        initrd = keeps.initrd;
        reach = keeps.reach r;
        clock = ap (λ c'. c'.elapsed) keeps.clock ∙ omega arith;
        logger = rw keeps.logger (Grows-refl _ m.logger);
        ended = ended;
      })
handle-Follows register fuel (press code) m r h =
    let d₀ : Desk = record { screen = m.screen; logger = m.logger; ended = m.ended } in
    Whenever-bind (Follows (press code ∷ []) m) (keyboard_handler code m.initrd d₀) _ (λ d e.
      let (grows, ended) =
        Whenever-ok _ (keyboard_handler code m.initrd d₀) d
          (keyboard_handler-Whenever code m.initrd d₀) e in
      record { initrd = refl; reach = r; clock = omega arith; logger = grows; ended = ended })

ticks_in-cons :
    (e : Event) (events : List Event) → ticks_in (e ∷ events) ≡ ticks_in (e ∷ []) + ticks_in events
ticks_in-cons tick events = omega arith
ticks_in-cons receive events = omega arith
ticks_in-cons (press code) events = omega arith

Follows-trans :
    (e : Event) (events : List Event) (m m' m'' : Machine)
    → Follows (e ∷ []) m m'
    → Follows events m' m''
    → Follows (e ∷ events) m m''
Follows-trans e events m m' m'' f g = record {
  initrd = g.initrd ∙ f.initrd;
  reach = g.reach;
  clock = omega (arith, f.clock, g.clock, ticks_in-cons e events);
  logger = Grows-trans (omega arith) f.logger g.logger;
  ended =
      g.ended
      ∙ ap (λ l. l ++ map vector events) f.ended
      ∙ append_assoc m.ended (vector e ∷ []) (map vector events);
}

run-Whenever :
    (register : Device) (fuel : ℕ) (events : List Event) (m : Machine)
    → Reach m.scheduler
    → m.clock.elapsed < 2 ^ 32
    → Whenever (Follows events m) (run register fuel events m)
unfolding run
run-Whenever register fuel [] m r h = record {
  initrd = refl;
  reach = r;
  clock = omega arith;
  logger = Grows-refl _ m.logger;
  ended = sym (append-nil m.ended);
}
run-Whenever register fuel (e ∷ events) m r h =
    Whenever-bind (Follows (e ∷ events) m) (handle register fuel e m) _ (λ m' found.
      let f =
        Whenever-ok (Follows (e ∷ []) m) (handle register fuel e m) m'
          (handle-Follows register fuel e m r h) found in
      let clock = f.clock in
      Whenever-mono (Follows events m') (Follows (e ∷ events) m) (run register fuel events m')
        (λ m'' g. Follows-trans e events m m' m'' f g)
        (run-Whenever register fuel events m' f.reach (omega arith)))

-- After any sequence of interrupts in any order, each with its handler run to its end, the scheduler
-- is in one of its reachable states, the clock has counted the timer's interrupts around 2 ^ 32, the
-- log has kept its lines and has at most two more for each interrupt, the ramdisk is as it was, and the PICs have been told of each interrupt once,
-- in order.
pub run-Follows :
    (register : Device) (fuel : ℕ) (events : List Event) (m m' : Machine)
    → Reach m.scheduler
    → m.clock.elapsed < 2 ^ 32
    → run register fuel events m ≡ ok m'
    → Follows events m m'
run-Follows register fuel events m m' r h e =
    Whenever-ok (Follows events m) (run register fuel events m) m'
      (run-Whenever register fuel events m r h) e
