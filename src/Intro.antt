-- ===== src/Intro.antt =====
-- kernel/src/intro.rs: the start screen. The texts that the build sets are arguments. The products of
-- a text's length and the width of the font stay far below 2 ^ 64.
pub mod Returns
use neur_os.Common.{
  ℕ, ◌+◌, ◌-◌, ◌*◌, ◌/◌, leb, if◌then◌else◌, Text, codes, ◌++◌, length, Outcome, ok, panic,
  overflow, ◌>>=◌,
}
use neur_os.Initrd.Archive.{Initrd}
use neur_os.Image
use neur_os.Image.{image_new, set_position, draw}
use neur_os.Vga.{Vga, set_cursor}
use neur_os.Vga.Text.{rgb, black, red, blue, white}
use neur_os.Vga.Screen.{write_fmt, get_width, get_height, get_font_width}

-- `CARGO_PKG_VERSION`, `COMMIT_HASH` and `CARGO_PKG_AUTHORS`
pub record Build : Type 0 where
  pub version : Text
  pub commit : Text
  pub authors : Text

-- `-` on `usize`
abbrev pub sub : ℕ → ℕ → Outcome ℕ
sub a b = if leb b a then ok (a - b) else panic overflow

-- The three images of `initialize`.
unfoldable pub draw_images : Initrd → Vga → Outcome Vga
unfolding draw
draw_images i vga = do
  let width = get_width vga
  let height = get_height vga
  logo ← image_new i (codes "initrd/usr/share/images/logo.ppm")
  x ← sub (width / 2) (Image.get_width logo / 2)
  let vga₁ = draw (set_position x (height / 8) logo) vga
  neuro ← image_new i (codes "initrd/usr/share/images/neuro.ppm")
  x' ← sub (width / 3) (Image.get_width neuro / 2)
  let vga₂ = draw (set_position x' (height / 2) neuro) vga₁
  evil ← image_new i (codes "initrd/usr/share/images/evil.ppm")
  left ← sub width (width / 3)
  x'' ← sub left (Image.get_width evil / 2)
  ok (draw (set_position x'' (height / 2) evil) vga₂)

abbrev pub copyright : Build → Text
copyright b = codes "Copyright (C) 2024 " ++ b.authors

abbrev pub instruction : Text
instruction = codes "Press ENTER to continue."

abbrev pub version_text : Build → Text
version_text b = codes "Version " ++ (b.version ++ (codes " (" ++ (b.commit ++ codes ")")))

-- The three texts of `initialize`.
unfoldable pub write_texts : Build → Initrd → Vga → Outcome Vga
write_texts b i vga = do
  let width = get_width vga
  let height = get_height vga
  let font_width = get_font_width vga
  y ← sub height font_width
  vga₁ ← write_fmt i (version_text b) (set_cursor font_width y (rgb red) (rgb black) vga)
  x ← sub width (length (copyright b) * font_width + font_width)
  y' ← sub height font_width
  vga₂ ← write_fmt i (copyright b) (set_cursor x y' (rgb blue) (rgb black) vga₁)
  x' ← sub (width / 2) (length instruction * font_width / 2)
  y'' ← sub height (height / 4)
  write_fmt i instruction (set_cursor x' y'' (rgb white) (rgb black) vga₂)

unfoldable pub initialize : Build → Initrd → Vga → Outcome Vga
unfolding draw_images write_texts
initialize b i vga = do vga' ← draw_images i vga; write_texts b i vga'
