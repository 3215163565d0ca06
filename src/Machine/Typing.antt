-- ===== src/Machine/Typing.antt =====
-- Interrupts while a line is typed: no handler panics or waits for ever.
use neur_os.Common.{
  ◌≡◌, refl, ℕ, ◌+◌, ◌^◌, ◌<◌, Text, codes, show_hex, List, [], ◌∷◌, ◌++◌, All, ok, ◌==◌, false,
  Bool-cases, bind-ok, inl, inr,
}
use neur_os.Scheduler.Reach.{Reach}
use neur_os.Scheduler.RoundRobin.{tick_refines}
use neur_os.Serial.{Device}
use neur_os.Serial.Sending.{Answers, write_str-Answers}
use neur_os.Shell.{Shell, System, backspace}
use neur_os.Shell
use neur_os.Keyboard
use neur_os.Initrd.Archive.{Initrd}
use neur_os.Logger.Macros
use neur_os.Interrupts.{Kernel, timer_handler}
use neur_os.Interrupts.Console.{Console, serial_handler, read-IsFirst}
use neur_os.Interrupts.Keys.{Desk, keyboard_handler}
use neur_os.Machine.{Machine, Event, press, receive, handle, run}
use neur_os.Machine
use neur_os.Machine.Events.{Follows, run-Follows}

-- The interrupt is not that of ENTER on the keyboard.
abbrev pub NoEnter : Event → Type 0
NoEnter (press scan_code) = (scan_code == Keyboard.enter) ≡ false
NoEnter _ = Unit {0}

-- A character that is not a carriage return changes the line that is typed, and no more.
interpret-typed :
    (c : ℕ) (s : Shell) (y : System)
    → (c == 13) ≡ false
    → (s' : Shell) × (out : Text) × (Shell.interpret c s y ≡ ok (s', y, out))
unfolding Shell.interpret
interpret-typed c s y h = elim (Bool-cases (c == 8)) [
  | inl e ↦ ((backspace s).0, (backspace s).1, rw (h, e, Shell.interpret) refl)
  | inr e ↦ (record s { buffer = s.buffer ++ (c ∷ []) }, c ∷ [], rw (h, e, Shell.interpret) refl)
]

pub timer_handler-returns : (k : Kernel) → (k' : Kernel) × (timer_handler k ≡ ok k')
unfolding timer_handler
timer_handler-returns k =
    let (s, l, e, _) = tick_refines k.scheduler k.logger in bind-ok _ _ e (_, refl)

pub keyboard_handler-returns :
    (code : ℕ) (i : Initrd) (d : Desk)
    → (code == Keyboard.enter) ≡ false
    → (d' : Desk) × (keyboard_handler code i d ≡ ok d')
unfolding keyboard_handler Keyboard.interpret
keyboard_handler-returns code i d h =
    let l =
      Macros.trace (codes "Received scan code (0x" ++ (show_hex code ++ codes ") from keyboard."))
        d.logger in
    let e : Keyboard.interpret code i d.screen d.logger ≡ ok (d.screen, l) =
      rw (h, Keyboard.interpret) refl in
    bind-ok _ _ e (_, refl)

module _ (register : Device) (n : ℕ) (received : Answers register 1 n)
    (empty : Answers register 0x20 n) (typed : (k : ℕ) → (register 0 k == 13) ≡ false) where
  serial_handler-typed : (c : Console) → (c' : Console) × (serial_handler register n c ≡ ok c')
  unfolding serial_handler
  serial_handler-typed c =
      let (k, _, e) = read-IsFirst register n c.serial received in
      let (shell, out, f) =
        interpret-typed (register 0 (c.serial.reads + k + 1)) c.shell c.system
          (typed (c.serial.reads + k + 1)) in
      let (_, g) =
        write_str-Answers register n out (record c.serial { reads = c.serial.reads + k + 1 + 1 })
          empty in
      bind-ok _ _ e (bind-ok _ _ f (bind-ok _ _ g (_, refl)))

  handle-returns :
      (e : Event) (m : Machine) → NoEnter e → (m' : Machine) × (handle register n e m ≡ ok m')
  unfolding handle
  handle-returns Machine.tick m q =
      let k =
        timer_handler-returns (record {
          clock = m.clock;
          scheduler = m.scheduler;
          logger = m.logger;
          ended = m.ended;
        }) in
      bind-ok _ k.0 k.1 (_, refl)
  handle-returns receive m q =
      let c = serial_handler-typed (record {
        shell = m.shell;
        serial = m.serial;
        system = record {
          initrd = m.initrd;
          scheduler = m.scheduler;
          logger = m.logger;
          clock = m.clock;
        };
        ended = m.ended;
      }) in
      bind-ok _ c.0 c.1 (_, refl)
  handle-returns (press code) m q =
      let d =
        keyboard_handler-returns code m.initrd
          (record { screen = m.screen; logger = m.logger; ended = m.ended }) q in
      bind-ok _ d.0 d.1 (_, refl)

  run-returns :
      (events : List Event) (m : Machine)
      → All NoEnter events
      → (m' : Machine) × (run register n events m ≡ ok m')
  unfolding run
  run-returns [] m q = (m, refl)
  run-returns (e ∷ events) m q =
      let (m', r) = handle-returns e m q.0 in
      bind-ok (run register n events) m' r (run-returns events m' q.1)

  -- While the serial port does not hang and receives no carriage return, and ENTER is not pressed on
  -- the keyboard, the handlers of any sequence of interrupts return; the machine that they leave
  -- follows a machine whose scheduler is in a reachable state and whose clock fits in 32 bits.
  pub run-NoEnter :
      (events : List Event) (m : Machine)
      → All NoEnter events
      → Reach m.scheduler
      → m.clock.elapsed < 2 ^ 32
      → (m' : Machine) × (run register n events m ≡ ok m') × Follows events m m'
  run-NoEnter events m q reach clock =
      let (m', e) = run-returns events m q in
      (m', e, run-Follows register n events m m' reach clock e)
