-- ===== src/Vga/Screen.antt =====
-- kernel/src/vga.rs: the screen as a whole. The framebuffers are those of the boot loader's answer.
use neur_os.Common.{
  ℕ, zero, suc, ◌+◌, Text, codes, List, [], ◌∷◌, Option, none, some, Outcome, ok, panic,
  explicit_panic, unwrap, ◌>>=◌,
}
use neur_os.Initrd.Archive.{Initrd}
use neur_os.Font
use neur_os.Font.{Font, font_new}
use neur_os.Vga.{Vga, draw_pixel, set_cursor}
use neur_os.Vga.Text.{rgb, black, white, write_str}

pub record Framebuffer : Type 0 where
  pub height : ℕ
  pub pitch : ℕ
  pub width : ℕ

-- `Vga::new`
unfoldable pub vga_new : Font → Option (List Framebuffer) → Outcome Vga
vga_new font none = panic explicit_panic
vga_new font (some []) = unwrap none
vga_new font (some (f ∷ fs)) = ok (record {
  cursor = record { x = 0; y = 0; fg = rgb white; bg = rgb black };
  font = font;
  height = f.height;
  pitch = f.pitch;
  width = f.width;
  words = [];
})

-- The value of the lazy `VGA`.
unfoldable pub vga_static : Initrd → Option (List Framebuffer) → Outcome Vga
unfolding vga_new font_new
vga_static i framebuffers = do
  font ← font_new i (codes "initrd/usr/share/fonts/ter-i16n.psf")
  vga_new font framebuffers

-- The inner loop of `Vga::clear`, from column `x` on.
unfoldable pub clear_columns : ℕ → ℕ → ℕ → Vga → Vga
clear_columns zero x y v = v
clear_columns (suc left) x y v = clear_columns left (x + 1) y (draw_pixel x y (rgb black) v)

-- The outer loop, from row `y` on.
unfoldable pub clear_rows : ℕ → ℕ → Vga → Vga
clear_rows zero y v = v
clear_rows (suc left) y v = clear_rows left (y + 1) (clear_columns v.width 0 y v)

-- `Vga::clear`
unfoldable pub clear : Vga → Vga
unfolding clear_rows clear_columns draw_pixel
clear v = set_cursor 8 24 (rgb white) (rgb black) (clear_rows v.height 0 v)

-- `Vga::write_fmt`: interrupts are off anyway where the model runs.
abbrev pub write_fmt : Initrd → Text → Vga → Outcome Vga
write_fmt i t v = write_str i t v

abbrev pub get_width : Vga → ℕ
get_width v = v.width

abbrev pub get_height : Vga → ℕ
get_height v = v.height

abbrev pub get_font_width : Vga → ℕ
get_font_width v = Font.get_width v.font

abbrev pub get_font_height : Vga → ℕ
get_font_height v = Font.get_height v.font
