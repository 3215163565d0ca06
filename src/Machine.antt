-- ===== src/Machine.antt =====
-- The running kernel: the statics of all modules in kernel/src, and the interrupts that come one after
-- the other, since a handler runs with interrupts off.
pub mod Events
pub mod Typing
pub mod Session
mod Tests
use neur_os.Common.{ℕ, List, [], ◌∷◌, Outcome, ok, ◌>>=◌}
use neur_os.Logger.{Logger}
use neur_os.Timer.{Timer}
use neur_os.Scheduler.{Scheduler}
use neur_os.Initrd.Archive.{Initrd}
use neur_os.Serial.{Serial, Device}
use neur_os.Shell.{Shell}
use neur_os.Keyboard.{Screen}
use neur_os.Interrupts.{timer_handler}
use neur_os.Interrupts.Console.{serial_handler}
use neur_os.Interrupts.Keys.{keyboard_handler}

-- `INITRD`, `SERIAL_CONSOLE`, `SERIAL`, `VGA` with `VGA_CONSOLE`, `TIMER`, `SCHEDULER` and `LOGGER`, and
-- what the PICs have been told.
pub record Machine : Type 0 where
  pub initrd : Initrd
  pub shell : Shell
  pub serial : Serial
  pub screen : Screen
  pub clock : Timer
  pub scheduler : Scheduler
  pub logger : Logger
  pub ended : List ℕ

-- An interrupt that the PICs let through: of the timer, the serial port, or the keyboard with a scan
-- code.
pub data Event : Type 0 where
  tick receive : Event
  press : ℕ → Event

module _ (register : Device) (fuel : ℕ) where
  -- The handler of an interrupt on the statics that it uses.
  unfoldable pub handle : Event → Machine → Outcome Machine
  handle tick m = do
    k ←
        timer_handler
          (record { clock = m.clock; scheduler = m.scheduler; logger = m.logger; ended = m.ended })
    ok (record m { clock = k.clock; scheduler = k.scheduler; logger = k.logger; ended = k.ended })
  handle receive m = do
    c ← serial_handler register fuel (record {
      shell = m.shell;
      serial = m.serial;
      system = record {
        initrd = m.initrd;
        scheduler = m.scheduler;
        logger = m.logger;
        clock = m.clock;
      };
      ended = m.ended;
    })
    ok (record m {
      shell = c.shell;
      serial = c.serial;
      initrd = c.system.initrd;
      scheduler = c.system.scheduler;
      logger = c.system.logger;
      clock = c.system.clock;
      ended = c.ended;
    })
  handle (press scan_code) m = do
    d ←
        keyboard_handler scan_code m.initrd
          (record { screen = m.screen; logger = m.logger; ended = m.ended })
    ok (record m { screen = d.screen; logger = d.logger; ended = d.ended })

  -- One interrupt after the other.
  unfoldable pub run : List Event → Machine → Outcome Machine
  unfolding handle
  run [] m = ok m
  run (e ∷ events) m = do m' ← handle e m; run events m'
