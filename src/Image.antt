-- ===== src/Image.antt =====
-- kernel/src/image.rs: images in the formats PBM, PGM and PPM. The heap is not modelled: the vector
-- of the pixels is made. A vector has fewer than 2 ^ 63 bytes, so the products of the loops do not
-- overflow.
pub mod Header
pub mod Pixels
pub mod Raster
pub mod Drawing
mod Tests
use neur_os.Common.{
  ℕ, zero, suc, ◌+◌, ◌*◌, ◌/◌, ◌%◌, ◌^◌, Text, codes, List, [], ◌∷◌, ◌++◌, get_elem?, take, drop,
  list_eq, ◌==◌, if◌then◌else◌, Option, none, some, true, false, Outcome, ok, panic, explicit_panic,
  unwrap, in_bounds, ◌>>=◌, from_utf8, split_terminator, split_whitespace, parse_usize,
}
use neur_os.Initrd.Archive.{Initrd, get_data}
use neur_os.Vga.{Vga, draw_pixel}

pub record ImageHeader : Type 0 where
  pub width : ℕ
  pub height : ℕ
  pub x : ℕ
  pub y : ℕ

pub record Pixel : Type 0 where
  pub red : ℕ
  pub green : ℕ
  pub blue : ℕ

-- The field `data` of the source is a keyword here.
pub record Image : Type 0 where
  pub header : ImageHeader
  pub pixels : List (List Pixel)

pub data Format : Type 0 where
  pbm pgm ppm : Format

abbrev pub gray : ℕ → Pixel
gray value = record { red = value; green = value; blue = value }

-- `newlines.nth(n)`, with the index of the first byte
unfoldable pub newline_from : ℕ → ℕ → List ℕ → Option ℕ
newline_from i n [] = none
newline_from i n (b ∷ bytes) = elim (b == 10) [
  | false ↦ newline_from (suc i) n bytes
  | true ↦ elim n [ zero ↦ some i | suc m ↦ newline_from (suc i) m bytes ]
]

abbrev pub last : List Text → Option Text
last [] = none
last (t ∷ []) = some t
last (t ∷ u ∷ ts) = last (u ∷ ts)

-- The match on the extension
unfoldable pub format_of : Text → Outcome Format
format_of extension =
    if list_eq extension (codes "pbm")
    then ok pbm
    else if list_eq extension (codes "pgm")
    then ok pgm
    else if list_eq extension (codes "ppm")
    then ok ppm
    else panic explicit_panic

-- How many line feeds stand before the one that ends the image's header.
unfoldable pub header_lines : Format → ℕ
header_lines pbm = 1
header_lines pgm = 2
header_lines ppm = 2

abbrev pub masks : List ℕ
masks = 128 ∷ 64 ∷ 32 ∷ 16 ∷ 8 ∷ 4 ∷ 2 ∷ 1 ∷ []

-- `pixels[i]`
abbrev pub byte_at : List ℕ → ℕ → Outcome ℕ
byte_at pixels i = in_bounds (get_elem? pixels i)

-- The value of `data[y][x]`. A mask has one bit, so the test of `pixel & mask` is one of that bit.
unfoldable pub pixel_at : Format → List ℕ → ℕ → ℕ → ℕ → Outcome Pixel
pixel_at pbm pixels width y x = do
  pixel ← byte_at pixels (y * (width / 8) + x / 8)
  mask ← byte_at masks (x % 8)
  ok (gray (if pixel / mask % 2 == 0 then 0xFF else 0x00))
pixel_at pgm pixels width y x = do value ← byte_at pixels (y * width + x); ok (gray value)
pixel_at ppm pixels width y x = do
  red ← byte_at pixels (y * width * 3 + 3 * x)
  green ← byte_at pixels (y * width * 3 + (3 * x + 1))
  blue ← byte_at pixels (y * width * 3 + (3 * x + 2))
  ok (record { red = red; green = green; blue = blue })

-- The inner loop, from column `x` on with `left` columns to go.
unfoldable pub read_row : Format → List ℕ → ℕ → ℕ → ℕ → ℕ → Outcome (List Pixel)
read_row f pixels width y x zero = ok []
read_row f pixels width y x (suc left) = do
  pixel ← pixel_at f pixels width y x
  row ← read_row f pixels width y (suc x) left
  ok (pixel ∷ row)

-- The outer loop.
unfoldable pub read_rows : Format → List ℕ → ℕ → ℕ → ℕ → Outcome (List (List Pixel))
read_rows f pixels width y zero = ok []
read_rows f pixels width y (suc left) = do
  row ← read_row f pixels width y 0 width
  rows ← read_rows f pixels width (suc y) left
  ok (row ∷ rows)

-- The image's size, from the text in front of the line feed at `index`.
unfoldable pub read_header : List ℕ → ℕ → Outcome ImageHeader
read_header image index = do
  text ← unwrap (from_utf8 (take index image))
  let fields = split_whitespace text
  first ← unwrap (get_elem? fields 1)
  width ← unwrap (parse_usize first)
  second ← unwrap (get_elem? fields 2)
  height ← unwrap (parse_usize second)
  ok (record { width = width; height = height; x = 0; y = 0 })

-- `Image::new`
unfoldable pub image_new : Initrd → Text → Outcome Image
unfolding read_header read_rows read_row pixel_at header_lines format_of newline_from
image_new i path = do
  image ← get_data i path
  extension ← unwrap (last (split_terminator 46 path))
  f ← format_of extension
  index ← unwrap (newline_from 0 (header_lines f) image)
  header ← read_header image index
  rows ← read_rows f (drop (index + 1) image) header.width 0 header.height
  ok (record { header = header; pixels = rows })

abbrev get_red : Pixel → ℕ
get_red p = p.red

abbrev get_green : Pixel → ℕ
get_green p = p.green

abbrev get_blue : Pixel → ℕ
get_blue p = p.blue

-- `red << 16 | green << 8 | blue`: the bits of the three do not overlap.
abbrev pub color_of : Pixel → ℕ
color_of p = get_red p * 2 ^ 16 + get_green p * 2 ^ 8 + get_blue p

-- The inner loop of `Image::draw`, from column `x` on.
unfoldable pub draw_row : List Pixel → ℕ → ℕ → Vga → Vga
draw_row [] x y v = v
draw_row (p ∷ row) x y v = draw_row row (x + 1) y (draw_pixel x y (color_of p) v)

-- The outer loop, from row `y` on.
unfoldable pub draw_rows : ℕ → List (List Pixel) → ℕ → ℕ → Vga → Vga
draw_rows width [] x y v = v
draw_rows width (row ∷ rows) x y v =
    draw_rows width rows x (y + 1) (draw_row (take width row) x y v)

-- `Image::draw`
unfoldable pub draw : Image → Vga → Vga
unfolding draw_rows draw_row draw_pixel
draw m v = draw_rows m.header.width (take m.header.height m.pixels) m.header.x m.header.y v

abbrev pub get_width : Image → ℕ
get_width m = m.header.width

abbrev pub set_position : ℕ → ℕ → Image → Image
set_position x y m = record m { header = record m.header { x = x; y = y } }
