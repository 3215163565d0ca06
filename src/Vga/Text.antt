-- ===== src/Vga/Text.antt =====
-- kernel/src/vga.rs: `Vga::write_str`, with its control characters and escape sequences.
use neur_os.Common.{
  ℕ, ◌+◌, ◌*◌, Text, codes, [], ◌∷◌, ◌++◌, list_eq, ◌==◌, if◌then◌else◌, Option, none, some,
  Outcome, ok, ◌>>=◌,
}
use neur_os.Ansi
use neur_os.Initrd.Archive.{Initrd}
use neur_os.Font.{font_new, get_width, get_height}
use neur_os.Vga.{Vga, set_cursor, write_char}

pub data Color : Type 0 where
  black blue green orange purple red white yellow : Color

-- `Color::… as u32`
abbrev pub rgb : Color → ℕ
rgb black = 0x0
rgb blue = 0x0097E6
rgb green = 0x44BD32
rgb orange = 0xC23616
rgb purple = 0x8C7AE6
rgb red = 0xE84118
rgb white = 0xF5F6FA
rgb yellow = 0xFBC531

-- What an escape sequence asks for.
pub data Style : Type 0 where
  font : Text → Style
  foreground : Color → Style
  nothing : Style

-- The inner `match`, on the whole sequence
unfoldable pub style_of : Text → Style
style_of sequence =
    if list_eq sequence Ansi.bold
    then font (codes "initrd/usr/share/fonts/ter-i16b.psf")
    else if list_eq sequence Ansi.blue
    then foreground blue
    else if list_eq sequence Ansi.default
    then foreground white
    else if list_eq sequence Ansi.green
    then foreground green
    else if list_eq sequence Ansi.normal
    then font (codes "initrd/usr/share/fonts/ter-i16n.psf")
    else if list_eq sequence Ansi.orange
    then foreground orange
    else if list_eq sequence Ansi.purple
    then foreground purple
    else if list_eq sequence Ansi.red
    then foreground red
    else if list_eq sequence Ansi.yellow
    then foreground yellow
    else nothing

-- The local variables of `write_str` that change. `escape` is what `take_while` has collected of a
-- sequence that is not complete.
pub record Writing : Type 0 where
  pub x : ℕ
  pub y : ℕ
  pub fg : ℕ
  pub position : ℕ
  pub escape : Option Text

-- The arms of the inner `match`
unfoldable pub restyle : Style → Initrd → Writing → Vga → Outcome (Writing × Vga)
restyle (font path) i w v = do f ← font_new i path; ok (w, record v { font = f })
restyle (foreground c) i w v = ok (record w { fg = rgb c }, v)
restyle nothing i w v = ok (w, v)

unfoldable pub apply_style : Initrd → Text → Writing → Vga → Outcome (Writing × Vga)
unfolding restyle style_of font_new
apply_style i collected w v =
    restyle (style_of (0x1b ∷ (collected ++ codes "m"))) i (record w { escape = none }) v

-- The arm of a character that is neither a control character nor part of a sequence.
unfoldable pub write_plain : ℕ → Writing → Vga → Outcome (Writing × Vga)
write_plain c w v = do
  v' ← write_char c (set_cursor (w.x + get_width v.font * w.position) w.y w.fg v.cursor.bg v)
  ok (record w { position = w.position + 1 }, v')

-- The `match` on a character outside of a sequence.
unfoldable pub match_character : ℕ → Writing → Vga → Outcome (Writing × Vga)
match_character c w v =
    if c == 10
    then (let x = get_width v.font in
        let y = w.y + get_height v.font in
        ok (record w { x = x; y = y; position = 0 }, set_cursor x y w.fg v.cursor.bg v))
    else if c == 13
    then (let x = get_width v.font in
        ok (record w { x = x; position = 0 }, set_cursor x w.y w.fg v.cursor.bg v))
    else if c == 9
    then (let x = w.x + get_width v.font * 8 in
        ok (record w { x = x }, set_cursor x w.y w.fg v.cursor.bg v))
    else if c == 0x1b
    then ok (record w { escape = some [] }, v)
    else write_plain c w v

-- One character of the loop, given what has been collected.
unfoldable pub step : Option Text → Initrd → ℕ → Writing → Vga → Outcome (Writing × Vga)
step none i c w v = match_character c w v
step (some collected) i c w v =
    let applied = apply_style i collected w v in
    if c == 109 then applied else ok (record w { escape = some (collected ++ (c ∷ [])) }, v)

-- The end of the text. A sequence that it cuts off is taken as if its `m` stood there.
unfoldable pub finish : Option Text → Initrd → Writing → Vga → Outcome Vga
finish none i w v = ok v
finish (some collected) i w v = do (w', v') ← apply_style i collected w v; ok v'

-- The loop.
unfoldable pub write_loop : Initrd → Text → Writing → Vga → Outcome Vga
write_loop i [] w v = finish w.escape i w v
write_loop i (c ∷ t) w v = do (w', v') ← step w.escape i c w v; write_loop i t w' v'

-- `Vga::write_str`
unfoldable pub write_str : Initrd → Text → Vga → Outcome Vga
unfolding write_loop step match_character finish apply_style write_plain
write_str i t v =
    write_loop i t
      (record { x = v.cursor.x; y = v.cursor.y; fg = v.cursor.fg; position = 0; escape = none }) v
