-- ===== src/Lib.antt =====
-- NeurOS, a hobbyist operating system in Rust: the kernel, in kernel/src.
--
-- At boot the kernel reads an initial ramdisk that the boot loader has put into memory, fills a
-- queue of processes, and turns interrupts on. From then on all that happens is a handler of an
-- interrupt: the timer's counts the time and lets the scheduler switch between processes; the
-- serial port's passes a character to the console, whose commands read files, fork processes and
-- print the log. Every part writes lines to one log.
--
-- The files, and the parts of the kernel that they model:
--   Common       tests, lists, text, and Rust's parsing of text (`from_utf8`, `from_str_radix`,
--                `split_terminator`, `split_once`, `trim_end`); `Outcome`, the result of code that
--                may panic.
--   Ansi         kernel/src/ansi.rs, the escape sequences.
--   Logger       kernel/src/logger.rs: `Logger` with `log`, and the line of a `Log`.
--   Process      kernel/src/process.rs: `Process`, `Context` and `State`.
--   Scheduler    kernel/src/scheduler.rs: `Scheduler` with `add`, `tick`, `schedule` and `fork`.
--                Its children hold the line of processes as an abstract round robin, the turns of
--                the processes, their identifiers, and the states that can be reached from boot.
--   Timer        kernel/src/timer.rs: the counter.
--   Syscall      kernel/src/syscall.rs: `fork`, and the calls that are `todo!`.
--   Interrupts   kernel/src/interrupts.rs: the table, the handlers of exceptions, the timer's
--                handler, the serial port's (`Console`), the keyboard's (`Keys`) and the masks of the
--                interrupt controllers.
--   Initrd       kernel/src/initrd.rs. `Block` parses one header, `Display` prints the line of a
--                file, `Timestamp` is `File::parse_timestamp`, `Archive` is `Initrd::new` and
--                `get_data`; `Ustar` writes archives, to be read back.
--   Elf          kernel/src/elf.rs: `Header::new` is `header_new`, `Elf::new` is `elf_new`, and so
--                on; `Report` is `Elf::fmt`; `Image` writes the headers, to be read back.
--   Memory       kernel/src/memory.rs: `PhysicalManager::allocate_frame`,
--                `VirtualManager::allocate_pages`, and `initialize` (`Start`), which maps the heap.
--   Serial       kernel/src/serial.rs: the port's registers, sending and receiving; the device is an
--                argument, and so is the fuel of the busy loops, which hold as long as it is busy.
--   Font, Vga    kernel/src/font.rs and kernel/src/vga.rs: the drawing of a character, `write_str`
--                (`Text`), and `Vga::new` and `clear` (`Screen`). The framebuffer is the list of the
--                words that are written; `Inside` is about drawings within it.
--   Image        kernel/src/image.rs: `Image::new` is `image_new`, and `draw`. `Pixels` writes images,
--                to be read back; `Raster` is the layout of a PBM image.
--   Shell        kernel/src/shell.rs: `Shell::new`, `display`, and `interpret` with its commands.
--   Keyboard     kernel/src/keyboard.rs, with the console on the screen.
--   Machine      the statics that the handlers of interrupts share, and any sequence of interrupts;
--                `Typing` is about those in which no command is entered, `Session` about those in which
--                no `readelf` is and the screen is not used.
--   Gdt          kernel/src/gdt.rs; Userspace is userspace.rs, with what the processor wants of the
--                selectors in `Selectors`. Smp is smp.rs, and Acpi acpi.rs.
--   Intro        kernel/src/intro.rs.
--   Main         kernel/src/main.rs: `kmain` in its order, and the handler of panics. `Needs` is what
--                the start relies on; `Boot` and `Serving` go on from it through the interrupts.
--   Locks        the statics behind `Lazy` and `Mutex`. `Scripts` has, for each handler, for the start
--                and for the handler of panics, which of them it uses, in which order, and
--                where it can panic; `Order` is the order that they keep to; `Points` is about the places where a panic can happen.
--
-- How the code is read. The statics of the kernel are values that are passed on, but for Locks, which
-- has their locks in place of their values. A handler runs with interrupts off. A number of a
-- fixed width is a natural number with its wrap or its check written out. The default build is a
-- debug build, in which an overflow panics; so it does in the model. `Outcome` has a value or the
-- cause of a panic. Two causes are no panics: `bad_pointer` marks a read outside of the module of
-- the ramdisk, where the program's behaviour is undefined, and `stuck` marks a loop that has run out
-- of fuel. Fuel is `length + 1` rounds for the walk over the ramdisk, each of which goes on by 512
-- bytes at least, and `timestamp / 31536000 + 2` for the years of a timestamp, each of which is
-- that long at least.
--
-- What is not modelled. The x86_64, pic8259, limine, acpi, spin and linked_list_allocator crates
-- are not part of the repository: the functions of theirs that matter are arguments, with what
-- their documentation says as hypotheses. The heap is there for all that the code allocates, so it
-- has room for the log. A write behind the framebuffer is kept as a word like others. The port of
-- the keyboard is not there: the byte that it has comes with the interrupt. Of userland, `main` is
-- empty.
pub mod Acpi
pub mod Ansi
pub mod Common
pub mod Elf
pub mod Font
pub mod Gdt
pub mod Image
pub mod Initrd
pub mod Interrupts
pub mod Intro
pub mod Keyboard
pub mod Locks
pub mod Logger
pub mod Machine
pub mod Main
pub mod Memory
pub mod Process
pub mod Scheduler
pub mod Serial
pub mod Shell
pub mod Smp
pub mod Syscall
pub mod Timer
pub mod Userspace
pub mod Vga
