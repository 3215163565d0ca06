-- ===== src/Main/Serving/Tests.antt =====
-- The sample in use.
use neur_os.Common.{
  ◌*◌, length, ◌≡◌, ◌≢◌, refl, false, ◌==◌, ap, ◌∙◌, ℕ, split_once, List, [], ◌∷◌, none, ok,
  Whenever-all, arith, replicate,
}
use neur_os.Logger
use neur_os.Logger.Growth.{Grows}
use neur_os.Logger.{Logger, Level, fatal, log}
use neur_os.Shell.{command_of, split_line, readelf}
use neur_os.Scheduler.Reach.{IsValid, boot}
use neur_os.Scheduler.{initialize}
use neur_os.Serial
use neur_os.Timer
use neur_os.Keyboard.{enter}
use neur_os.Vga.{Vga}
use neur_os.Memory.Sample.{Table, mapped, paging}
use neur_os.Machine.{Machine, Event, tick, receive, press, handle, run}
use neur_os.Machine.Events.{Follows}
use neur_os.Machine.Session.{AllHarmless, run-AllHarmless}
use neur_os.Main.{Started, kmain}
use neur_os.Main.Returns.{IsStarted, kmain-IsStarted}
use neur_os.Main.Sample.{initrd, given, register, reset}
use neur_os.Main.Sample.Facts.{console, furnished-console, furnished, answered, connected}
use neur_os.Main.Serving.{kmain-serves}

abbrev screen : Vga
screen = record {
  cursor = record { x = 8; y = 24; fg = 0xF5F6FA; bg = 0 };
  font = record { magic = 0x0436; font_mode = 2; glyph_size = 16; glyphs = replicate 4096 0xFF };
  height = 768;
  pitch = 4096;
  width = 1024;
  words = [];
}

not_readelf : command_of (split_line []).0 ≢ readelf
unfolding command_of split_line split_once
not_readelf e = cc e

-- A carriage return first, then keys and ticks.
abbrev sample_events : List Event
sample_events = receive ∷ press 0x1E ∷ tick ∷ press 0x1E ∷ []

-- Of the interrupts of a sequence none is the serial port's, and no key is ENTER.
abbrev IsQuiet : List Event → Type 0
IsQuiet [] = Unit {0}
IsQuiet (receive ∷ events) = ⊥
IsQuiet (tick ∷ events) = IsQuiet events
IsQuiet (press code ∷ events) = ((code == enter) ≡ false) × IsQuiet events

IsQuiet-AllHarmless :
    (events : List Event) (m : Machine) → IsQuiet events → AllHarmless register 1 events m
IsQuiet-AllHarmless [] m h = tt
IsQuiet-AllHarmless (tick ∷ events) m h = (
  tt,
  Whenever-all (AllHarmless register 1 events) (handle register 1 tick m)
      (λ m'. IsQuiet-AllHarmless events m' h),
)
IsQuiet-AllHarmless (receive ∷ events) m h = absurd h
IsQuiet-AllHarmless (press code ∷ events) m h = (
  h.0,
  Whenever-all (AllHarmless register 1 events) (handle register 1 (press code) m)
      (λ m'. IsQuiet-AllHarmless events m' h.1),
)

sample_events-AllHarmless :
    (m : Machine) → m.shell.buffer ≡ [] → AllHarmless register 1 sample_events m
sample_events-AllHarmless m e = (
  rw e not_readelf,
  Whenever-all (AllHarmless register 1 (press 0x1E ∷ tick ∷ press 0x1E ∷ []))
      (handle register 1 receive m)
      (λ m'. IsQuiet-AllHarmless (press 0x1E ∷ tick ∷ press 0x1E ∷ []) m' (refl, (refl, tt))),
)

abbrev machine : Machine
machine = record {
  initrd = initrd;
  shell = console;
  serial = Serial.new;
  screen = record { vga = screen; console = none };
  clock = Timer.new;
  scheduler = (initialize Logger.new).0;
  logger = Logger.new;
  ended = [];
}

run-AllHarmless_example :
    (m' : Machine) × (run register 1 sample_events machine ≡ ok m')
    × Follows sample_events machine m'
run-AllHarmless_example =
    run-AllHarmless register 1 (λ k. (0, omega arith, refl)) (λ k. (0, omega arith, refl))
      sample_events machine (sample_events-AllHarmless machine refl) (boot Logger.new) (omega arith)

begun :
    (s : Started ℕ Table) × (kmain (given paging) 1 reset ≡ ok s)
    × IsStarted mapped s initrd furnished.shell furnished.framebuffer
begun = kmain-IsStarted (λ n. n) mapped (given paging) 1 initrd reset answered furnished connected

kmain-serves_example :
    (m : Machine) × (run register 1 sample_events begun.0.machine ≡ ok m)
    × IsValid m.scheduler
    × (m.clock.elapsed ≡ 1)
    × (m.ended ≡ 36 ∷ 33 ∷ 32 ∷ 33 ∷ [])
    × Grows (2 * length sample_events) begun.0.machine.logger m.logger
kmain-serves_example =
    kmain-serves (given paging) 1 reset begun.0 sample_events (λ k. (0, omega arith, refl))
      (λ k. (0, omega arith, refl)) begun.1
      (sample_events-AllHarmless begun.0.machine
        (ap (λ c. c.buffer) (begun.2.shell ∙ furnished-console)))
