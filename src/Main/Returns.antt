-- ===== src/Main/Returns.antt =====
-- kernel/src/main.rs: with all that it relies on, the start returns.
use neur_os.Common.{
  ◌≡◌, refl, ap, ◌∙◌, ℕ, ◌+◌, ◌-◌, ◌*◌, ◌/◌, ◌<◌, ◌≤◌, Text, codes, show, List, [], ◌∷◌, ◌++◌,
  length, take, length-take, leb-true, true, some, none, ok, arith,
}
use neur_os.Logger
use neur_os.Logger.Macros
use neur_os.Timer
use neur_os.Scheduler
use neur_os.Interrupts.{mask_1, mask_2}
use neur_os.Elf.{le_at, bytes_at}
use neur_os.Font.{font_new}
use neur_os.Memory.{frame_size}
use neur_os.Memory.Pages.{Mapped}
use neur_os.Memory.Heap
use neur_os.Initrd.Archive.{Initrd, get_data}
use neur_os.Initrd.Archive
use neur_os.Initrd.Ustar.{trace_all}
use neur_os.Initrd.Ustar.Files.{new-archive}
use neur_os.Serial.{Serial, Write, Device, inb, outb}
use neur_os.Serial
use neur_os.Serial.Sending.{Answers, after, line_bytes, write_str-Answers}
use neur_os.Shell.{Shell, shell_new, read_text}
use neur_os.Shell
use neur_os.Vga.{Vga}
use neur_os.Vga.Text.{rgb, white, black}
use neur_os.Vga.Lines.{IsReady}
use neur_os.Vga.Screen.{Framebuffer, vga_new, vga_static}
use neur_os.Gdt.{Processor}
use neur_os.Userspace.Selectors
use neur_os.Smp
use neur_os.Intro
use neur_os.Intro.Returns.{IsSound, initialize-Ended}
use neur_os.Vga.Inside.{IsInside}
use neur_os.Main.{Given, Started, tick, shell_initialize, kmain}
use neur_os.Main.Needs.{IsAnswered, IsFurnished, IsConnected}

-- The font of a file with 256 glyphs or more.
pub font_new-glyphs :
    (i : Initrd) (path : Text) (glyphs : List ℕ)
    → 4096 ≤ length glyphs
    → get_data i path ≡ ok (0x36 ∷ 0x04 ∷ 2 ∷ 16 ∷ glyphs)
    → font_new i path
      ≡ ok (record { magic = 0x0436; font_mode = 2; glyph_size = 16; glyphs = take 4096 glyphs })
unfolding font_new le_at bytes_at
font_new-glyphs i path glyphs h e =
    rw (e, leb-true 4100 (length (0x36 ∷ 0x04 ∷ 2 ∷ 16 ∷ glyphs)) (omega arith)) refl

-- A port that passes its test has been told of its speed, its format and its buffers.
abbrev connected : Serial
connected = record Serial.new {
  reads = 1;
  writes =
      write 1 1
      ∷ write 3 0x80
      ∷ write 0 3
      ∷ write 1 0
      ∷ write 3 3
      ∷ write 2 0xC7
      ∷ write 4 0x0B
      ∷ write 4 0x1E
      ∷ write 0 0xAE
      ∷ write 4 0x0F
      ∷ [];
}
  where
    write : ℕ → ℕ → Write
    write offset value = record { port = Serial.com1 + offset; value = value }

initialize-connected :
    (register : Device) → register 0 0 ≡ 0xAE → Serial.initialize register Serial.new ≡ ok connected
unfolding Serial.initialize inb outb
initialize-connected register g = rw g refl

-- The console on the serial port is there, and has greeted.
shell_initialize-returns :
    (register : Device) (fuel : ℕ) (i : Initrd) (shell : Shell) (motd : Text)
    → shell_new i ≡ ok shell
    → read_text i (codes "initrd/etc/motd") ≡ ok motd
    → register 0 0 ≡ 0xAE
    → Answers register 0x20 fuel
    → (serial : Serial) × (shell_initialize register fuel i ≡ ok (shell, serial))
unfolding shell_initialize Shell.display
shell_initialize-returns register fuel i shell motd e f g answers =
    let (reads, sent) =
      write_str-Answers register fuel (motd ++ (10 ∷ shell.prompt)) connected answers in
    (
      after connected reads (line_bytes (motd ++ (10 ∷ shell.prompt))),
      rw (e, f, initialize-connected register g, sent) refl,
    )

-- What the kernel is when it has started.
pub record IsStarted {Segments Table : Type 0} (mapped : Mapped Table) (s : Started Segments Table)
    (i : Initrd) (greeter : Shell) (framebuffer : Framebuffer) : Type 0 where
  pub kernel_code : s.processor.cs ≡ 8
  pub system_calls : s.processor.star ≡ some (35, 27, s.processor.cs, s.processor.ss)
  pub heap :
      (a : ℕ)
      → s.memory.heap_start ≤ a
      → a < s.memory.heap_start + s.memory.heap_size
      → (frame : ℕ) × (mapped s.memory.table (a / frame_size * frame_size) ≡ some frame)
  pub initrd : s.machine.initrd ≡ i
  pub shell : s.machine.shell ≡ greeter
  pub screen : IsReady s.machine.screen.vga
  pub drawn : IsInside framebuffer.height framebuffer.pitch framebuffer.width s.machine.screen.vga
  pub column : s.machine.screen.vga.cursor.x ≡ framebuffer.width / 2 - 96 + 8 * 23
  pub row : s.machine.screen.vga.cursor.y ≡ framebuffer.height - framebuffer.height / 4
  pub console : s.machine.screen.console ≡ none
  pub interrupts : s.interrupts ≡ true

vga_static-ready :
    {Segments Table : Type 0} (g : Given Segments Table) (initrd : Initrd)
    (f : IsFurnished g initrd)
    → (v : Vga) × (vga_static initrd g.framebuffers ≡ ok v)
      × IsReady v
      × (v.width ≡ f.framebuffer.width)
      × (v.height ≡ f.framebuffer.height)
      × (v.pitch ≡ f.framebuffer.pitch)
      × IsSound v
unfolding vga_static vga_new
vga_static-ready g initrd f =
    let font =
      font_new-glyphs initrd (codes "initrd/usr/share/fonts/ter-i16n.psf") f.glyphs f.glyph_bytes
        f.font in
    (
      record {
        cursor = record { x = 0; y = 0; fg = rgb white; bg = rgb black };
        font = record {
          magic = 0x0436;
          font_mode = 2;
          glyph_size = 16;
          glyphs = take 4096 f.glyphs;
        };
        height = f.framebuffer.height;
        pitch = f.framebuffer.pitch;
        width = f.framebuffer.width;
        words = [];
      },
      rw (font, f.framebuffers) refl,
      record { glyph_rows = refl; glyph_bytes = length-take 4096 f.glyphs f.glyph_bytes },
      refl,
      refl,
      refl,
      record {
        rows_fit = f.pitched;
        inside = record { tall = refl; pitched = refl; wide = refl; words = tt };
      },
    )

-- The screen with what `Intro.initialize` draws.
start_screen :
    {Segments Table : Type 0} (g : Given Segments Table) (initrd : Initrd)
    (f : IsFurnished g initrd)
    → (v v' : Vga) × (vga_static initrd g.framebuffers ≡ ok v)
      × (Intro.initialize g.build initrd v ≡ ok v')
      × IsReady v'
      × IsInside f.framebuffer.height f.framebuffer.pitch f.framebuffer.width v'
      × (v'.cursor.x ≡ f.framebuffer.width / 2 - 96 + 8 * 23)
      × (v'.cursor.y ≡ f.framebuffer.height - f.framebuffer.height / 4)
start_screen g initrd f =
    let (v, made, ready, width, height, pitch, sound) = vga_static-ready g initrd f in
    let (e, inside) =
      initialize-Ended g.build initrd v ready (rw (width, height) f.images)
        (rw (width, height) f.room) sound in
    (
      v,
      e.screen,
      made,
      e.result,
      e.ready,
      rw (width, height, pitch) at inside,
      e.column ∙ ap (λ w. w / 2 - 96 + 8 * 23) width,
      e.row ∙ ap (λ h. h - h / 4) height,
    )

module _ {Segments Table : Type 0} (used : Segments → ℕ) (mapped : Mapped Table)
    (g : Given Segments Table) (fuel : ℕ) where
  -- Where the crates are as documented, the boot loader has answered, the ramdisk is an archive whose
  -- files have lines that can be printed, with the files that the kernel reads, the screen has room for
  -- the images in their places and for the texts, and the serial port does not hang, `kmain` returns, and
  -- the kernel is started, with all that was drawn within the framebuffer.
  pub kmain-IsStarted :
      (initrd : Initrd) (p : Processor Segments)
      → IsAnswered used mapped g
      → (f : IsFurnished g initrd) → IsConnected g fuel
      → (s : Started Segments Table) × (kmain g fuel p ≡ ok s)
        × IsStarted mapped s initrd f.shell f.framebuffer
  unfolding kmain Smp.initialize tick
  kmain-IsStarted initrd p a f c =
      let (p', p'', segments, system_calls, code, _, _, star) =
        Selectors.initialize_lem used g.new_segments g.append a.empty a.appends g.star_accepts
          a.accepts p in
      let (memory, mapping, _, heap) =
        Heap.initialize_lem mapped g.paging a.paging a.memory_map a.offset a.placed a.enough
          a.canonical a.canonical_table a.unmapped in
      let (vga, vga', screen, shown, ready, drawn, column, row) = start_screen g initrd f in
      let (serial, console) =
        shell_initialize-returns g.register fuel initrd f.shell f.motd f.users f.greeting
          c.loops_back c.sends in
      let l =
        Macros.debug
          (codes "Detected that the processor has " ++ (show (length a.cores) ++ codes " core(s)."))
          Logger.new in
      let (scheduler, l') =
        Scheduler.initialize (Archive.initialize initrd (trace_all f.lines l)) in
      (
        record {
          processor = p'';
          memory = memory;
          masks = (mask_1, mask_2);
          machine = record {
            initrd = initrd;
            shell = f.shell;
            serial = serial;
            screen = record { vga = vga'; console = none };
            clock = Timer.new;
            scheduler = scheduler;
            logger = (tick l').0;
            ended = [];
          };
          interrupts = true;
        },
        rw
            (
              segments,
              a.answers,
              mapping,
              a.cpus,
              f.packed,
              new-archive initrd.files f.lines f.rest l f.entries f.printed,
              screen,
              shown,
              console,
              system_calls,
            )
            refl,
        record {
          kernel_code = code;
          system_calls = star;
          heap = heap;
          initrd = refl;
          shell = refl;
          screen = ready;
          drawn = drawn;
          column = column;
          row = row;
          console = refl;
          interrupts = refl;
        },
      )
