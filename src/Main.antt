-- ===== src/Main.antt =====
-- kernel/src/main.rs: the order of the start, and the handler of panics.
pub mod Boot
pub mod Serving
pub mod Needs
pub mod Returns
pub mod Sample
mod Tests
use neur_os.Common.{
  ℕ, Text, codes, List, [], ◌∷◌, ◌++◌, Option, some, none, Bool, true, false, Outcome, ok, ◌>>=◌,
}
use neur_os.Ansi.{bold, red, normal}
use neur_os.Logger.{Logger, Log}
use neur_os.Logger.Macros
use neur_os.Logger
use neur_os.Timer
use neur_os.Scheduler
use neur_os.Initrd.Archive.{Initrd}
use neur_os.Initrd.Archive
use neur_os.Serial.{Serial, Device}
use neur_os.Serial
use neur_os.Shell.{Shell, shell_new}
use neur_os.Shell
use neur_os.Vga.{Vga}
use neur_os.Vga.Screen.{Framebuffer, vga_static, clear, write_fmt}
use neur_os.Gdt.{Descriptor, Processor}
use neur_os.Gdt
use neur_os.Userspace
use neur_os.Memory.Start.{Paging, Answers, Memory}
use neur_os.Memory.Start
use neur_os.Interrupts.{mask_1, mask_2}
use neur_os.Smp
use neur_os.Intro.{Build}
use neur_os.Intro
use neur_os.Machine.{Machine}

-- The lines of the log on the screen, as the loop of `panic` writes them.
unfoldable pub write_logs : Initrd → List Log → Vga → Outcome Vga
write_logs i [] vga = ok vga
write_logs i (entry ∷ logs) vga = do
  vga' ← write_fmt i (Logger.fmt entry ++ (10 ∷ [])) vga
  write_logs i logs vga'

-- `panic`, of the text of its argument, up to the halt. The locks that it takes are free.
unfoldable pub panic : Text → Initrd → Vga → Logger → Outcome (Vga × Logger)
unfolding write_logs clear
panic info i vga l = do
  vga' ←
      write_fmt i (bold ++ (red ++ (codes "[KERNEL PANIC]" ++ (normal ++ (10 ∷ 10 ∷ [])))))
        (clear vga)
  let l' = Macros.fatal (codes "The kernel has panicked." ++ (10 ∷ info)) l
  vga'' ← write_logs i l'.logs vga'
  ok (vga'', l')

-- What the boot loader, the build and the crates give.
pub record Given (Segments Table : Type 0) : Type 0 where
  pub new_segments : Segments
  pub append : Segments → Descriptor → Outcome (Segments × ℕ)
  pub star_accepts : ℕ → ℕ → ℕ → ℕ → Bool
  pub paging : Paging Table
  pub answers : Answers
  pub cpus : Option (List ℕ)
  pub ramdisk : List ℕ
  pub framebuffers : Option (List Framebuffer)
  pub build : Build
  pub register : Device

-- What `kmain` leaves: the processor, the managers of memory, the masks of the PICs, the other
-- statics, and whether interrupts are on.
pub record Started (Segments Table : Type 0) : Type 0 where
  pub processor : Processor Segments
  pub memory : Memory Table
  pub masks : ℕ × ℕ
  pub machine : Machine
  pub interrupts : Bool

-- `shell::initialize`, with the lazy `SERIAL_CONSOLE` and `SERIAL`.
unfoldable pub shell_initialize : Device → ℕ → Initrd → Outcome (Shell × Serial)
unfolding shell_new Shell.display
shell_initialize register fuel i = do
  shell ← shell_new i
  serial ← Serial.initialize register Serial.new
  out ← Shell.display shell i
  serial' ← Serial.write_str register fuel out serial
  ok (shell, serial')

-- `tick`, up to its loop.
unfoldable pub tick : Logger → Logger × Bool
tick l = (Macros.info (codes "The operating system has been successfully initialized.") l, true)

-- `kmain`, up to the loop of `tick`; of `interrupts::initialize` the model keeps the masks. The lazy
-- statics are made where they are used first: the ramdisk in `initrd::initialize`, the screen in
-- `intro::initialize`.
unfoldable pub kmain :
    {Segments Table : Type 0}
    → Given Segments Table
    → ℕ
    → Processor Segments
    → Outcome (Started Segments Table)
unfolding tick shell_initialize Scheduler.initialize Smp.initialize Start.initialize Gdt.initialize
    Userspace.initialize vga_static Archive.initialize
kmain g fuel processor = do
  processor' ← Gdt.initialize g.new_segments g.append processor
  memory ← Start.initialize g.paging g.answers
  l₁ ← Smp.initialize g.cpus Logger.new
  (initrd, l₂) ← Archive.new g.ramdisk l₁
  let l₃ = Archive.initialize initrd l₂
  let (scheduler, l₄) = Scheduler.initialize l₃
  vga ← vga_static initrd g.framebuffers
  vga' ← Intro.initialize g.build initrd vga
  (shell, serial) ← shell_initialize g.register fuel initrd
  processor'' ← Userspace.initialize g.new_segments g.append g.star_accepts processor'
  let (l₅, interrupts) = tick l₄
  ok (record {
    processor = processor'';
    memory = memory;
    masks = (mask_1, mask_2);
    machine = record {
      initrd = initrd;
      shell = shell;
      serial = serial;
      screen = record { vga = vga'; console = none };
      clock = Timer.new;
      scheduler = scheduler;
      logger = l₅;
      ended = [];
    };
    interrupts = interrupts;
  })
