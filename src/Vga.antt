-- ===== src/Vga.antt =====
-- kernel/src/vga.rs: the drawing of a character. The framebuffer is the list of the words that have
-- been written to it, each at its distance from the buffer's start.
pub mod Glyphs
pub mod Text
pub mod Lines
pub mod Inside
pub mod Screen
pub mod Clearing
mod Tests
use neur_os.Common.{
  ℕ, ◌+◌, ◌-◌, ◌*◌, ◌/◌, ◌%◌, List, [], ◌∷◌, ◌++◌, length, take, drop, ltb, leb, ◌==◌,
  if◌then◌else◌, Outcome, ok, panic, overflow, out_of_bounds, ◌>>=◌,
}
use neur_os.Font.{Font, get_width, get_height}

pub record Cursor : Type 0 where
  pub x : ℕ
  pub y : ℕ
  pub fg : ℕ
  pub bg : ℕ

pub record Word : Type 0 where
  pub offset : ℕ
  pub color : ℕ

pub record Vga : Type 0 where
  pub cursor : Cursor
  pub font : Font
  pub height : ℕ
  pub pitch : ℕ
  pub width : ℕ
  pub words : List Word

-- `Vga::draw_pixel`. It looks at no bound, and what a write behind the framebuffer does is not defined:
-- the word is kept like the others, and `Inside` says where the words lie. The sums of `usize` stay in
-- 64 bits for a word in the framebuffer.
unfoldable pub draw_pixel : ℕ → ℕ → ℕ → Vga → Vga
draw_pixel x y color v = record v {
  words = v.words ++ (record { offset = y * v.pitch + x * 4; color = color } ∷ []);
}

abbrev pub masks : List ℕ
masks = 128 ∷ 64 ∷ 32 ∷ 16 ∷ 8 ∷ 4 ∷ 2 ∷ 1 ∷ []

-- The inner loop of `Vga::write_char`: `x` is `x + cx` and `y` is `y + cy`. A mask has one bit, so
-- the test of `glyph & mask` is one of that bit.
unfoldable pub draw_columns : List ℕ → ℕ → ℕ → ℕ → Vga → Outcome Vga
draw_columns [] glyph x y v = ok v
draw_columns (mask ∷ rest) glyph x y v =
    let color = if glyph / mask % 2 == 0 then v.cursor.bg else v.cursor.fg in
    let more = draw_columns rest glyph (x + 1) y (draw_pixel x (y - 12) color v) in
    if ltb y 12 then panic overflow else more

-- The outer loop.
unfoldable pub draw_rows : List ℕ → ℕ → ℕ → Vga → Outcome Vga
draw_rows [] x y v = ok v
draw_rows (glyph ∷ rest) x y v = do
  v' ← draw_columns (take (get_width v.font) masks) glyph x y v
  draw_rows rest x (y + 1) v'

-- `Vga::write_char`, of a character's code
unfoldable pub write_char : ℕ → Vga → Outcome Vga
unfolding draw_rows draw_columns draw_pixel
write_char c v = do
  let position = c * get_height v.font
  glyphs ←
      if leb position (length v.font.glyphs)
      then ok (drop position v.font.glyphs)
      else panic out_of_bounds
  draw_rows (take (get_height v.font) glyphs) v.cursor.x v.cursor.y v

-- `Vga::set_cursor`
abbrev pub set_cursor : ℕ → ℕ → ℕ → ℕ → Vga → Vga
set_cursor x y fg bg v = record v { cursor = record { x = x; y = y; fg = fg; bg = bg } }
