-- ===== src/Font.antt =====
-- kernel/src/font.rs: the bitmap font, a file of the ramdisk in the PSF format.
use neur_os.Common.{
  ℕ, ◌/◌, List, Text, get_elem?, length, take, drop, leb, ◌==◌, if◌then◌else◌, Outcome, ok, panic,
  out_of_bounds, in_bounds, assert, ◌>>=◌, ◌>>◌,
}
use neur_os.Initrd.Archive.{Initrd, get_data}
use neur_os.Elf.{le_at}

-- The fields of `Font` and of its `Header`. The field `data` of the source is a keyword here.
pub record Font : Type 0 where
  pub magic : ℕ
  pub font_mode : ℕ
  pub glyph_size : ℕ
  pub glyphs : List ℕ

-- `Font::new`
unfoldable pub font_new : Initrd → Text → Outcome Font
unfolding get_data le_at
font_new i path = do
  psf ← get_data i path
  magic ← le_at psf 0 2
  font_mode ← in_bounds (get_elem? psf 2)
  glyph_size ← in_bounds (get_elem? psf 3)
  glyphs ← if leb 4100 (length psf) then ok (take 4096 (drop 4 psf)) else panic out_of_bounds
  assert (magic == 0x0436)
  assert (font_mode == 0x02)
  assert (glyph_size == 16)
  ok (record { magic = magic; font_mode = font_mode; glyph_size = glyph_size; glyphs = glyphs })

-- `Font::get_width`
abbrev pub get_width : Font → ℕ
get_width f = f.glyph_size / 2

-- `Font::get_height`
abbrev pub get_height : Font → ℕ
get_height f = f.glyph_size
