-- ===== src/Main/Needs.antt =====
-- kernel/src/main.rs: what the start relies on, of the crates, the boot loader, the ramdisk and the
-- serial port.
use neur_os.Common.{◌≡◌, ℕ, ◌+◌, ◌*◌, ◌≤◌, Text, codes, List, ◌∷◌, length, some, none, All, ok}
use neur_os.Memory.{Entry}
use neur_os.Memory.Frames.{frames, IsMemoryMap}
use neur_os.Memory.Pages.{Mapped}
use neur_os.Memory.Heap.{IsCanonical, IsPaging, heap_pages}
use neur_os.Userspace.Selectors.{entries, Appends, AcceptsInOrder}
use neur_os.Initrd.Archive.{Initrd, get_data}
use neur_os.Initrd.Ustar.{archive, IsEntry, Printed}
use neur_os.Serial.Sending.{Answers}
use neur_os.Shell.{Shell, shell_new, read_text}
use neur_os.Vga.Screen.{Framebuffer}
use neur_os.Intro.Returns.{HasImages, HasRoom}
use neur_os.Main.{Given}

-- The crates are as documented, and the boot loader has answered all requests.
pub record IsAnswered {Segments Table : Type 0} (used : Segments → ℕ) (mapped : Mapped Table)
    (g : Given Segments Table) : Type 0 where
  pub empty : used g.new_segments ≡ 1
  pub appends : (t : Segments) (d : _) → used t + entries d ≤ 8 → Appends used g.append t d
  pub accepts : AcceptsInOrder g.star_accepts
  pub paging : IsPaging mapped g.paging
  pub memory_map : List Entry
  pub offset : ℕ
  pub answers : g.answers ≡ record { entries = some memory_map; offset = some offset }
  pub placed : IsMemoryMap 0 memory_map
  pub enough : 4096 ≤ length (frames memory_map)
  pub canonical : IsCanonical offset
  pub canonical_table : IsCanonical (offset + g.paging.level_4_table)
  pub unmapped :
      All
        (λ page.
          mapped (g.paging.offset_page_table (offset + g.paging.level_4_table) offset) page ≡ none)
        heap_pages
  pub cores : List ℕ
  pub cpus : g.cpus ≡ some cores

-- The ramdisk is an archive with the files that the kernel reads: the font, the images, the texts of
-- the console. Each file has a line that can be printed. The first framebuffer has room for the start
-- screen, the images in their heights included.
pub record IsFurnished {Segments Table : Type 0} (g : Given Segments Table) (initrd : Initrd)
    : Type 0 where
  pub lines : List Text
  pub rest : List ℕ
  pub packed : g.ramdisk ≡ archive initrd.files rest
  pub entries : All IsEntry initrd.files
  pub printed : Printed initrd.files lines
  pub glyphs : List ℕ
  pub font :
      get_data initrd (codes "initrd/usr/share/fonts/ter-i16n.psf")
      ≡ ok (0x36 ∷ 0x04 ∷ 2 ∷ 16 ∷ glyphs)
  pub glyph_bytes : 4096 ≤ length glyphs
  pub framebuffer : Framebuffer
  pub others : List Framebuffer
  pub framebuffers : g.framebuffers ≡ some (framebuffer ∷ others)
  pub pitched : framebuffer.width * 4 ≤ framebuffer.pitch
  pub images : HasImages initrd framebuffer.width framebuffer.height
  pub room : HasRoom g.build framebuffer.width framebuffer.height
  pub shell : Shell
  pub users : shell_new initrd ≡ ok shell
  pub motd : Text
  pub greeting : read_text initrd (codes "initrd/etc/motd") ≡ ok motd

-- The serial port passes its test of the loop-back mode and does not hang.
pub record IsConnected {Segments Table : Type 0} (g : Given Segments Table) (fuel : ℕ)
    : Type 0 where
  pub loops_back : g.register 0 0 ≡ 0xAE
  pub sends : Answers g.register 0x20 fuel
