-- ===== src/Interrupts/Console.antt =====
-- kernel/src/interrupts.rs: `serial_handler`, which passes what the serial port has received to the
-- console. The console's text is sent as one, where the code sends it piece by piece.
use neur_os.Common.{◌≡◌, refl, ◌≢◌, ℕ, ◌+◌, List, [], ◌∷◌, ◌++◌, Text, Outcome, ok, ◌>>=◌}
use neur_os.Scheduler.{Scheduler}
use neur_os.Scheduler.Reach.{Reach}
use neur_os.Serial.{Serial, Device, read, inb, write_str}
use neur_os.Serial.Sending.{Answers, after, line_bytes, IsFirst, wait-IsFirst, write_str-Answers}
use neur_os.Shell.{Shell, System, interpret, command_of, split_line, readelf}
use neur_os.Shell.Commands.{interpret-returns}
use neur_os.Interrupts.{index, com1}

-- The state that the handler works on. `ended` is what the PICs have been told.
pub record Console : Type 0 where
  pub shell : Shell
  pub serial : Serial
  pub system : System
  pub ended : List ℕ

unfoldable pub serial_handler : Device → ℕ → Console → Outcome Console
serial_handler register fuel m = do
  (port, character) ← read register fuel m.serial
  (shell, system, out) ← interpret character m.shell m.system
  port' ← write_str register fuel out port
  ok (record {
    shell = shell;
    serial = port';
    system = system;
    ended = m.ended ++ (index com1 ∷ []);
  })

-- The byte is the one that the data register holds just after the line status register has told of a
-- byte for the first time.
pub read-IsFirst :
    (register : Device) (n : ℕ) (s : Serial)
    → Answers register 1 n
    → (k : ℕ) × IsFirst register 1 s.reads k
      × (read register n s
          ≡ ok (record s { reads = s.reads + k + 1 + 1 }, register 0 (s.reads + k + 1)))
unfolding read inb
read-IsFirst register n s answers =
    let a = answers s.reads in
    let (k, first, e) = wait-IsFirst register 1 a.0 n s a.1 a.2 in (k, first, rw e refl)

-- Where the device never hangs and the line that is typed so far is not a `readelf`, the handler
-- returns. It has waited for the first read in which the line status register tells of a byte, has
-- had the byte that the data register holds then interpreted, sent what `interpret` writes for it,
-- ended the interrupt of COM1, and changed of the system the scheduler alone, which stays in its
-- reachable states.
pub serial_handler-returns :
    (register : Device) (n : ℕ) (m : Console)
    → Answers register 1 n
    → Answers register 0x20 n
    → command_of (split_line m.shell.buffer).0 ≢ readelf
    → Reach m.system.scheduler
    → (k : ℕ) × (shell : Shell) × (scheduler : Scheduler) × (out : Text) × (reads : ℕ) × IsFirst
        register 1 m.serial.reads k
      × (interpret (register 0 (m.serial.reads + k + 1)) m.shell m.system
          ≡ ok (shell, record m.system { scheduler = scheduler }, out))
      × (serial_handler register n m
          ≡ ok (record {
            shell = shell;
            serial = after m.serial reads (line_bytes out);
            system = record m.system { scheduler = scheduler };
            ended = m.ended ++ (index com1 ∷ []);
          }))
      × Reach scheduler
unfolding serial_handler
serial_handler-returns register n m received empty line reach =
    let (k, first, e) = read-IsFirst register n m.serial received in
    let i = interpret-returns (register 0 (m.serial.reads + k + 1)) m.shell m.system line reach in
    let w =
      write_str-Answers register n i.2 (record m.serial { reads = m.serial.reads + k + 1 + 1 })
        empty in
    (k, i.0, i.1, i.2, w.0, first, i.3, rw (e, ◌>>=◌) (rw (i.3, ◌>>=◌) (rw (w.1, ◌>>=◌))), i.4)
