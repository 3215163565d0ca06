-- ===== src/Locks/Scripts.antt =====
-- kernel/src: what the start and the handlers do with the statics, in their order. A number stands for
-- so many lines of the log, files of the ramdisk or changes of the font, and `faults` says what goes
-- wrong on the way. The heap's lock, which each allocation takes and gives back, is left out but for the
-- start.
use neur_os.Common.{ℕ, zero, suc, Bool, true, false, Option, none, some}
use neur_os.Shell.{
  Command, echo, fork, help, id, logs, pwd, readelf, reboot, shutdown, time, unknown,
}
use neur_os.Locks.{
  Static, logger, initrd, timer, scheduler, vga, serial, serial_console, vga_console, keyboard,
  physical_manager, virtual_manager, allocator, idt, gdt, pics, Script, done, fail, lazy, lock,
}

-- What makes the code panic: no memory map or no frame left; no answer about the cores; a ramdisk that
-- cannot be read or printed; a file that is not there or has not the form that is wanted; a screen
-- without room; a character that the font does not have; a serial port that fails its test; selectors
-- that STAR refuses.
pub data Fault : Type 0 where
  mapping cores archive file room character port segments : Fault

abbrev pub Faults : Type 0
Faults = Fault → Bool

abbrev pub may_panic : Bool → Script → Script
may_panic true after = fail
may_panic false after = after

-- A lock that is there from the start, for the time of one call.
abbrev pub use_lock : Static → Script → Script
use_lock s after = lock s done after

-- `LOGGER.lock()`
abbrev pub lock_logger : Script → Script → Script
lock_logger body after = lazy logger done (lock logger body after)

-- `debug!` and the others, `n` times
abbrev pub log_lines : ℕ → Script → Script
log_lines zero after = after
log_lines (suc n) after = lock_logger done (log_lines n after)

-- `SCHEDULER.lock()`
abbrev pub lock_scheduler : Script → Script → Script
lock_scheduler body after = lazy scheduler (log_lines 1 done) (lock scheduler body after)

-- `timer_handler`, with the lines that `tick` writes
abbrev pub timer_handler : (lines : ℕ) → Script
timer_handler lines = lazy timer done (lock_scheduler (log_lines lines done) (use_lock pics done))

-- An interrupt that the PICs let through: `none` is a character of a line, `some` a command.
pub data Entry : Type 0 where
  tick : (lines : ℕ) → Entry
  receive : Faults → Option Command → Entry
  press : Faults → (enter : Bool) → Entry

module _ (files : ℕ) (faults : Faults) where
  -- `INITRD`, with a line for each of its `files`
  abbrev pub use_initrd : Script → Script
  use_initrd after = lazy initrd (log_lines files (may_panic (faults archive) done)) after

  -- `INITRD.get_data` and what is made of the file, `n` times
  abbrev pub get_files : ℕ → Script → Script
  get_files zero after = after
  get_files (suc n) after = use_initrd (may_panic (faults file) (get_files n after))

  -- `VGA.lock()`: the closure reads the font.
  abbrev pub lock_vga : Script → Script → Script
  lock_vga body after = lazy vga (get_files 1 done) (lock vga body after)

  -- `SERIAL.lock()`
  abbrev pub lock_serial : Script → Script → Script
  lock_serial body after = lazy serial (may_panic (faults port) done) (lock serial body after)

  -- `SERIAL_CONSOLE.lock()`: `Shell::new` reads three files.
  abbrev pub lock_serial_console : Script → Script → Script
  lock_serial_console body after =
      lazy serial_console (get_files 3 done) (lock serial_console body after)

  -- `VGA_CONSOLE.lock()`: the closure holds the screen to its end.
  abbrev pub lock_vga_console : Script → Script → Script
  lock_vga_console body after =
      lazy vga_console (lock_vga (get_files 3 done) done) (lock vga_console body after)

  -- The commands of `Shell::interpret`
  abbrev pub command : Command → Script
  command fork = lock_scheduler done done
  command logs = lock_logger done done
  command readelf = get_files 1 done
  command time = lazy timer done done
  command echo = done
  command help = done
  command id = done
  command pwd = done
  command reboot = done
  command shutdown = done
  command unknown = done

  -- `serial_handler`, where `none` is a character of a line
  abbrev pub serial_handler : Option Command → Script
  serial_handler none = lock_serial_console (lock_serial done done) (use_lock pics done)
  serial_handler (some c) = lock_serial_console (lock_serial (command c) done) (use_lock pics done)

  -- `keyboard_handler`, where ENTER displays the message of the day and changes the font `fonts` times
  abbrev pub keyboard_handler : (fonts : ℕ) (enter : Bool) → Script
  keyboard_handler fonts false =
      lazy keyboard done (lock keyboard (log_lines 1 done) (use_lock pics done))
  keyboard_handler fonts true = lazy keyboard done (
      lock keyboard
        (log_lines 1 (
          lock_vga_console
            (lock_vga (get_files (suc fonts) (may_panic (faults character) done)) done) done))
        (use_lock pics done))

  -- `kmain`: the table of segments; the two managers of memory and the heap; the table of interrupts
  -- and the PICs; the cores; the ramdisk; the scheduler; the start screen with its three images; the
  -- console; the table of segments again, for STAR; the last line of the log
  abbrev pub kmain : (fonts : ℕ) → Script
  kmain fonts = lazy gdt done (
      lazy virtual_manager (may_panic (faults mapping) done) (
        lock virtual_manager
          (lazy physical_manager (may_panic (faults mapping) done)
            (lock physical_manager (may_panic (faults mapping) done) done))
          (use_lock allocator (
            lazy idt done (
              use_lock pics (
                may_panic (faults cores) (
                  log_lines 1 (
                    use_initrd (
                      log_lines 1 (
                        lock_scheduler done (
                          lock_vga
                            (may_panic (faults room)
                              (get_files 3 (get_files fonts (may_panic (faults character) done))))
                            (lock_serial_console (lock_serial (get_files 1 done) done) (
                              lazy gdt done
                                (may_panic (faults segments) (log_lines 1 done)))))))))))))))

  -- `panic`, whose log holds `fonts` changes of the font
  abbrev pub panic : (fonts : ℕ) → Script
  panic fonts =
      lock_vga
        (get_files 2
          (log_lines 1 (lock_logger (get_files fonts (may_panic (faults character) done)) done)))
        done

-- The handler of an interrupt
abbrev pub handler : (files fonts : ℕ) → Entry → Script
handler files fonts (tick lines) = timer_handler lines
handler files fonts (receive faults c) = serial_handler files faults c
handler files fonts (press faults enter) = keyboard_handler files faults fonts enter
