-- ===== src/Machine/Session.antt =====
-- Interrupts in which no `readelf` is entered and the screen is not used.
use neur_os.Common.{
  ◌≡◌, ◌≢◌, ℕ, ◌^◌, ◌<◌, List, [], ◌∷◌, ok, arith, Whenever, Whenever-ok, refl, false, ◌==◌,
  bind-ok,
}
use neur_os.Scheduler.Reach.{Reach}
use neur_os.Serial.{Device}
use neur_os.Serial.Sending.{Answers}
use neur_os.Shell.{command_of, split_line, readelf}
use neur_os.Keyboard
use neur_os.Interrupts.Console.{Console, serial_handler-returns}
use neur_os.Machine.{Machine, Event, tick, press, receive, handle, run}
use neur_os.Machine.Events.{Follows, run-Follows, handle-Follows}
use neur_os.Machine.Typing.{timer_handler-returns, keyboard_handler-returns}

-- The line that the console holds when a character comes is no call of `readelf`, and a key is not
-- ENTER.
abbrev pub IsHarmless : Event → Machine → Type 0
IsHarmless receive m = command_of (split_line m.shell.buffer).0 ≢ readelf
IsHarmless (press code) m = (code == Keyboard.enter) ≡ false
IsHarmless tick m = Unit {0}

-- So it is at each interrupt of the sequence.
abbrev pub AllHarmless : Device → ℕ → List Event → Machine → Type 0
AllHarmless register n [] m = Unit {0}
AllHarmless register n (e ∷ events) m =
    IsHarmless e m × Whenever (AllHarmless register n events) (handle register n e m)

module _ (register : Device) (n : ℕ) (received : Answers register 1 n)
    (empty : Answers register 0x20 n) where
  handle-harmless :
      (e : Event) (m : Machine)
      → IsHarmless e m
      → Reach m.scheduler
      → (m' : Machine) × (handle register n e m ≡ ok m')
  unfolding handle
  handle-harmless tick m q reach =
      let (_, e) =
        timer_handler-returns (record {
          clock = m.clock;
          scheduler = m.scheduler;
          logger = m.logger;
          ended = m.ended;
        }) in
      bind-ok _ _ e (_, refl)
  handle-harmless receive m q reach =
      let c : Console = record {
        shell = m.shell;
        serial = m.serial;
        system = record {
          initrd = m.initrd;
          scheduler = m.scheduler;
          logger = m.logger;
          clock = m.clock;
        };
        ended = m.ended;
      } in
      let (_, _, _, _, _, _, _, e, _) =
        serial_handler-returns register n c received empty q reach in
      bind-ok _ _ e (_, refl)
  handle-harmless (press code) m q reach =
      let (_, e) =
        keyboard_handler-returns code m.initrd
          (record { screen = m.screen; logger = m.logger; ended = m.ended }) q in
      bind-ok _ _ e (_, refl)

  -- While the serial port does not hang, for reading as for writing, no line that the console holds
  -- when a character comes is a `readelf`, and ENTER is not pressed on the keyboard, the handlers of
  -- any sequence of interrupts return, all other commands included, and the machine that they leave
  -- follows the first, whose scheduler is in a reachable state and whose clock fits in 32 bits.
  pub run-AllHarmless :
      (events : List Event) (m : Machine)
      → AllHarmless register n events m
      → Reach m.scheduler
      → m.clock.elapsed < 2 ^ 32
      → (m' : Machine) × (run register n events m ≡ ok m') × Follows events m m'
  unfolding run
  run-AllHarmless events m q reach clock =
      let (m', e) = returns events m q reach clock in
      (m', e, run-Follows register n events m m' reach clock e)
    where
      returns :
          (events : List Event) (m : Machine)
          → AllHarmless register n events m
          → Reach m.scheduler
          → m.clock.elapsed < 2 ^ 32
          → (m' : Machine) × (run register n events m ≡ ok m')
      returns [] m q reach clock = (m, refl)
      returns (e ∷ events) m q reach clock =
          let (m', found) = handle-harmless e m q.0 reach in
          let f =
            Whenever-ok (Follows (e ∷ []) m) (handle register n e m) m'
              (handle-Follows register n e m reach clock) found in
          let later =
            Whenever-ok (AllHarmless register n events) (handle register n e m) m' q.1 found in
          let elapsed = f.clock in
          bind-ok (run register n events) m' found (returns events m' later f.reach (omega arith))
