-- ===== src/Main/Tests.antt =====
-- The start of the kernel on a small ramdisk.
use neur_os.Common.{
  ◌≡◌, refl, ℕ, ◌+◌, ◌-◌, ◌*◌, ◌/◌, ◌^◌, Text, codes, List, [], ◌∷◌, ◌++◌, length, replicate, some,
  none, Bool, true, false, Outcome, ok, panic, returned, ◌==◌, if◌then◌else◌,
}
use neur_os.Initrd.Archive
use neur_os.Initrd.Ustar.{archive}
use neur_os.Memory.{usable}
use neur_os.Memory.Start.{Paging}
use neur_os.Serial.{Device}
use neur_os.Intro
use neur_os.Vga.{Vga}
use neur_os.Logger.Growth.{Grows}
use neur_os.Scheduler.Reach.{IsValid}
use neur_os.Machine.{Machine, Event, tick, receive, press, handle, run}
use neur_os.Interrupts.{timer_handler}
use neur_os.Interrupts.Console.{serial_handler}
use neur_os.Interrupts.Keys.{keyboard_handler}
use neur_os.Keyboard
use neur_os.Shell
use neur_os.Scheduler
use neur_os.Main.Boot.{boot-run}
use neur_os.Main.Sample.Facts.{furnished, answered, connected}
use neur_os.Main.Returns.{IsStarted, kmain-IsStarted}
use neur_os.Memory.Sample.{Table, mapped, paging}
use neur_os.Initrd.Archive.{get_data}
use neur_os.Image.{Image, image_new}
use neur_os.Shell.{Shell, shell_new, read_text, prompt_of}
use neur_os.Common.{
  ap, ◌≤◌, inr, arith, length-replicate, split_whitespace, parse_usize, from_utf8, from_str_radix,
}
use neur_os.Main.Sample.{initrd, append, star_accepts, register, given, reset}
use neur_os.Main.{Started, kmain}

-- Pages that are mapped, the last one first.
abbrev simple : Paging (List (ℕ × ℕ))
simple = record {
  level_4_table = 8192;
  virt_addr = ok;
  add = λ a b. ok (a + b);
  sub = λ a b. ok (a - b);
  page_of = λ a. a / 4096 * 4096;
  range_inclusive = λ a b. a ∷ b ∷ [];
  offset_page_table = λ a b. [];
  containing_address = λ a. ok (a / 4096 * 4096);
  map_to = λ t page frame m. ok (some ((page, frame) ∷ t, m));
}

-- The kernel has started.
started : (s : Started ℕ (List (ℕ × ℕ))) × (kmain (given simple) 1 reset ≡ ok s)
unfolding kmain append star_accepts neur_os.Initrd.Ustar.digits neur_os.Common.from_utf8
    neur_os.Common.from_str_radix neur_os.Common.trim_end_nul neur_os.Memory.allocate_pages
    neur_os.Memory.allocate_frame Archive.new neur_os.Elf.bytes_at Intro.initialize
    neur_os.Image.image_new neur_os.Common.split_whitespace neur_os.Common.parse_usize
    neur_os.Vga.Text.write_str neur_os.Vga.write_char neur_os.Serial.initialize
    neur_os.Serial.write_str neur_os.Serial.put neur_os.Serial.write_char neur_os.Serial.wait
started = returned (kmain (given simple) 1 reset) refl

abbrev events : List Event
events = press 0x1E ∷ tick ∷ receive ∷ tick ∷ []

ran : (m : Machine) × (run register 1 events started.0.machine ≡ ok m)
unfolding started run handle keyboard_handler timer_handler serial_handler Scheduler.tick
    Keyboard.interpret Shell.interpret kmain append star_accepts neur_os.Initrd.Ustar.digits
    neur_os.Common.from_utf8 neur_os.Common.from_str_radix neur_os.Common.trim_end_nul
    neur_os.Memory.allocate_pages neur_os.Memory.allocate_frame Archive.new neur_os.Elf.bytes_at
    Intro.initialize neur_os.Image.image_new neur_os.Common.split_whitespace
    neur_os.Common.parse_usize neur_os.Vga.Text.write_str neur_os.Vga.write_char
    neur_os.Serial.initialize neur_os.Serial.write_str neur_os.Serial.put neur_os.Serial.write_char
    neur_os.Serial.wait neur_os.Common.show_hex neur_os.Serial.read Shell.enter Shell.run
ran = returned (run register 1 events started.0.machine) refl

boot-run_test :
    (started.0.interrupts ≡ true)
    × IsValid ran.0.scheduler
    × (ran.0.clock.elapsed ≡ 2)
    × (ran.0.ended ≡ 33 ∷ 32 ∷ 36 ∷ 32 ∷ [])
    × (ran.0.initrd ≡ started.0.machine.initrd)
    × Grows (2 * length events) started.0.machine.logger ran.0.logger
boot-run_test = boot-run (given simple) 1 reset started.0 events ran.0 started.1 ran.1

kmain-IsStarted_example :
    (s : Started ℕ Table) × (kmain (given paging) 1 reset ≡ ok s)
    × IsStarted mapped s initrd furnished.shell furnished.framebuffer
kmain-IsStarted_example =
    kmain-IsStarted (λ n. n) mapped (given paging) 1 initrd reset answered furnished connected
