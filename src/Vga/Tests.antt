-- ===== src/Vga/Tests.antt =====
-- The screen's theorems at a font of full blocks.
use neur_os.Common.{
  codes, ◌≡◌, refl, ℕ, [], replicate, length-replicate, panic, out_of_bounds, arith,
}
use neur_os.Font.{Font}
use neur_os.Vga.{Vga, write_char}
use neur_os.Vga.Text.{write_str}
use neur_os.Vga.Lines.{Ended, write_str-Ended}
use neur_os.Vga.Glyphs.{Drawn, InCell, write_char-InCell, write_char-panics}

abbrev blocks : Font
blocks = record { magic = 0x0436; font_mode = 2; glyph_size = 16; glyphs = replicate 4096 255 }

abbrev screen : Vga
screen = record {
  cursor = record { x = 8; y = 24; fg = 0xF5F6FA; bg = 0 };
  font = blocks;
  height = 768;
  pitch = 4096;
  width = 1024;
  words = [];
}

write_char-InCell_example : Drawn (InCell 4096 8 24 16) 128 screen (write_char 65 screen)
write_char-InCell_example =
    write_char-InCell 65 screen refl (length-replicate {A = ℕ} 4096 255) (omega arith) (omega arith)

write_char-panics_example : write_char 955 screen ≡ panic out_of_bounds
write_char-panics_example =
    write_char-panics 955 screen refl (length-replicate {A = ℕ} 4096 255) (omega arith)

write_str-Ended_example : Ended 16 24 (write_str (record { files = [] }) (codes "ok") screen)
write_str-Ended_example =
    write_str-Ended (record { files = [] }) 111 (codes "k") screen
      (record { glyph_rows = refl; glyph_bytes = length-replicate {A = ℕ} 4096 255 }) (omega arith)
      (
        record {
          drawn = omega arith;
          no_feed = refl;
          no_return = refl;
          no_tab = refl;
          no_escape = refl;
        },
        (
          record {
            drawn = omega arith;
            no_feed = refl;
            no_return = refl;
            no_tab = refl;
            no_escape = refl;
          },
          tt,
        ),
      )
