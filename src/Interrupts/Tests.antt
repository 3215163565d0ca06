-- ===== src/Interrupts/Tests.antt =====
-- Runs of the handlers, and their theorems at concrete states.
use neur_os.Common.{
  ℕ, Text, split_once, ◌≢◌, ◌==◌, if◌then◌else◌, Bool-cases, inl, inr, ◌+◌, ◌-◌, ◌%◌, ◌^◌, ◌≡◌, [],
  ◌∷◌, ◌++◌, ok, arith, replicate, true, codes,
}
use neur_os.Logger
use neur_os.Process
use neur_os.Process.{running}
use neur_os.Scheduler.{ticks}
use neur_os.Interrupts.{Kernel, idt, unmasked, timer_handlers, index, timer, com1}
use neur_os.Interrupts.Timing.{unmasked-idt, timer_handlers_lem}
use neur_os.Timer
use neur_os.Scheduler.{Scheduler, initialize}
use neur_os.Scheduler.Reach.{Reach, boot}
use neur_os.Serial.{Device}
use neur_os.Serial
use neur_os.Serial.Sending.{IsFirst, Answers, after, line_bytes}
use neur_os.Shell.{Shell, interpret, command_of, split_line, readelf}
use neur_os.Interrupts.Exceptions.{exception_handler, page_fault, resumes}
use neur_os.Interrupts.Exceptions.Halting.{exception_handler_lem}
use neur_os.Logger.{Level}
use neur_os.Interrupts.Console.{Console, serial_handler, serial_handler-returns}

abbrev booted : Kernel
booted = record {
  clock = record { elapsed = 2 ^ 32 - 2 };
  scheduler = record {
    queue = Process.new 1 (codes "kernel") running ∷ [];
    quantum = 100;
    remaining = 100;
  };
  logger = Logger.new;
  ended = [];
}

unmasked-idt_example : unmasked 4 ≡ true
unfolding idt
unmasked-idt_example = unmasked-idt 4 (omega arith)

three_ticks_test :
    (k' : Kernel) × (timer_handlers 3 booted ≡ ok k')
    × (k'.clock.elapsed ≡ (2 ^ 32 - 2 + 3) % 2 ^ 32)
    × (ticks 3 booted.scheduler booted.logger ≡ ok (k'.scheduler, k'.logger))
    × (k'.ended ≡ [] ++ replicate 3 (index timer))
three_ticks_test = timer_handlers_lem 3 booted (omega arith)

-- A port that is busy at every other read, and receives `l`.
abbrev device : Device
device offset k = if offset == 0 then 0x6C else if k % 2 == 0 then 0 else 0x21

received : Answers device 1 2
received k = elim (Bool-cases (k % 2 == 0)) [
  | inl e ↦ (1, omega arith, ground arith)
  | inr e ↦ (0, omega arith, ground arith)
]

empty : Answers device 0x20 2
empty k = elim (Bool-cases (k % 2 == 0)) [
  | inl e ↦ (1, omega arith, ground arith)
  | inr e ↦ (0, omega arith, ground arith)
]

abbrev console : Console
console = record {
  shell = record {
    buffer = [];
    group = codes "root";
    group_id = 0;
    prompt = codes "# ";
    user_id = 0;
    username = codes "root";
    working_directory = codes "/root";
  };
  serial = Serial.new;
  system = record {
    initrd = record { files = [] };
    scheduler = (initialize Logger.new).0;
    logger = Logger.new;
    clock = Timer.new;
  };
  ended = [];
}

not_readelf : command_of (split_line []).0 ≢ readelf
unfolding command_of split_line split_once
not_readelf e = cc e

serial_handler-returns_example :
    (k : ℕ) × (shell : Shell) × (scheduler : Scheduler) × (out : Text) × (reads : ℕ) × IsFirst
      device 1 console.serial.reads k
    × (interpret (device 0 (console.serial.reads + k + 1)) console.shell console.system
        ≡ ok (shell, record console.system { scheduler = scheduler }, out))
    × (serial_handler device 2 console
        ≡ ok (record {
          shell = shell;
          serial = after console.serial reads (line_bytes out);
          system = record console.system { scheduler = scheduler };
          ended = [] ++ (index com1 ∷ []);
        }))
    × Reach scheduler
serial_handler-returns_example =
    serial_handler-returns device 2 console received empty not_readelf (boot Logger.new)

exception_handler_lem_example :
    (level : Level) × (what : Text) × (exception_handler page_fault 2 (codes "frame") Logger.new ≡ (
      record { logs = [] ++ (record { level = level; message = what ++ codes "frame" } ∷ []) },
      resumes,
    ))
exception_handler_lem_example = exception_handler_lem page_fault 2 (codes "frame") Logger.new
