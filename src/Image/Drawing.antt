-- ===== src/Image/Drawing.antt =====
-- kernel/src/image.rs: what `Image::draw` writes to the framebuffer.
use neur_os.Common.{
  ◌≡◌, refl, ap, sym, ◌∙◌, ℕ, zero, suc, ◌+◌, ◌*◌, ◌-◌, ◌<◌, List, [], ◌∷◌, ◌++◌, length, get_elem?,
  some, All, arith, append-nil, append_assoc, take-length, length-append, get_elem?-left,
  get_elem?-right,
}
use mathlib.Core.Option.{some-injective}
use neur_os.Vga.{Vga, Word, draw_pixel}
use neur_os.Image.{Image, Pixel, color_of, draw, draw_row, draw_rows}

-- The words for the pixels of a row, from column `x` on.
abbrev pub row_words : ℕ → List Pixel → ℕ → ℕ → List Word
row_words pitch [] x y = []
row_words pitch (p ∷ row) x y =
    record { offset = y * pitch + x * 4; color = color_of p } ∷ row_words pitch row (x + 1) y

pub draw_row-row_words :
    (row : List Pixel) (x y : ℕ) (v : Vga)
    → draw_row row x y v ≡ record v { words = v.words ++ row_words v.pitch row x y }
unfolding draw_row draw_pixel
draw_row-row_words [] x y v = ap (λ w. record v { words = w }) (sym (append-nil v.words))
draw_row-row_words (p ∷ row) x y v =
    let word : Word = record { offset = y * v.pitch + x * 4; color = color_of p } in
    draw_row-row_words row (x + 1) y (draw_pixel x y (color_of p) v)
    ∙ ap (λ w. record v { words = w })
        (append_assoc v.words (word ∷ []) (row_words v.pitch row (x + 1) y))

-- The words for the rows of an image.
abbrev pub image_words : ℕ → List (List Pixel) → ℕ → ℕ → List Word
image_words pitch [] x y = []
image_words pitch (row ∷ rows) x y = row_words pitch row x y ++ image_words pitch rows x (y + 1)

-- Each row is as long as the image is wide.
abbrev pub Rows : ℕ → List (List Pixel) → Type 0
Rows width rows = All (λ row. length row ≡ width) rows

draw_rows-image_words :
    (width : ℕ) (rows : List (List Pixel)) (x y : ℕ) (v : Vga)
    → Rows width rows
    → draw_rows width rows x y v ≡ record v { words = v.words ++ image_words v.pitch rows x y }
unfolding draw_rows
draw_rows-image_words width [] x y v h = ap (λ w. record v { words = w }) (sym (append-nil v.words))
draw_rows-image_words width (row ∷ rows) x y v h =
    ap (λ r. draw_rows width rows x (y + 1) (draw_row r x y v)) (take-length width row h.0)
    ∙ ap (draw_rows width rows x (y + 1)) (draw_row-row_words row x y v)
    ∙ draw_rows-image_words width rows x (y + 1)
        (record v { words = v.words ++ row_words v.pitch row x y }) h.1
    ∙ ap (λ w. record v { words = w })
        (append_assoc v.words (row_words v.pitch row x y) (image_words v.pitch rows x (y + 1)))

length-row_words :
    (pitch : ℕ) (row : List Pixel) (x y : ℕ) → length (row_words pitch row x y) ≡ length row
length-row_words pitch [] x y = refl
length-row_words pitch (p ∷ row) x y = omega (arith, length-row_words pitch row (x + 1) y)

pub length-image_words :
    (pitch width : ℕ) (rows : List (List Pixel)) (x y : ℕ)
    → Rows width rows
    → length (image_words pitch rows x y) ≡ length rows * width
length-image_words pitch width [] x y h = omega arith
length-image_words pitch width (row ∷ rows) x y h = omega (
  arith,
  h.0,
  length-append (row_words pitch row x y) (image_words pitch rows x (y + 1)),
  length-row_words pitch row x y,
  length-image_words pitch width rows x (y + 1) h.1,
)

-- The word for a pixel in the framebuffer.
abbrev pub word_at : ℕ → ℕ → ℕ → Pixel → Word
word_at pitch x y p = record { offset = y * pitch + x * 4; color = color_of p }

row_words-word_at :
    (pitch : ℕ) (row : List Pixel) (x y c : ℕ) (p : Pixel)
    → get_elem? row c ≡ some p
    → get_elem? (row_words pitch row x y) c ≡ some (word_at pitch (x + c) y p)
row_words-word_at pitch [] x y c p e = cc
row_words-word_at pitch (q ∷ row) x y zero p e =
    let here : x ≡ x + 0 = omega arith in
    ap (λ q'. some (word_at pitch x y q')) (some-injective q p e)
    ∙ ap (λ k. some (word_at pitch k y p)) here
row_words-word_at pitch (q ∷ row) x y (suc c) p e =
    let next : x + 1 + c ≡ x + suc c = omega arith in
    row_words-word_at pitch row (x + 1) y c p e ∙ ap (λ k. some (word_at pitch k y p)) next

pub image_words-word_at :
    (pitch width : ℕ) (rows : List (List Pixel)) (x y r c : ℕ) (row : List Pixel) (p : Pixel)
    → Rows width rows
    → get_elem? rows r ≡ some row
    → get_elem? row c ≡ some p
    → c < width
    → get_elem? (image_words pitch rows x y) (r * width + c)
      ≡ some (word_at pitch (x + c) (y + r) p)
image_words-word_at pitch width [] x y r c row p h e g k = cc
image_words-word_at pitch width (first ∷ rows) x y zero c row p h e g k =
    let ws = row_words pitch first x y in
    let same = some-injective first row e in
    let start : 0 * width + c ≡ c = omega arith in
    let down : y ≡ y + 0 = omega arith in
    ap (get_elem? (ws ++ image_words pitch rows x (y + 1))) start
    ∙ get_elem?-left ws (image_words pitch rows x (y + 1)) c
        (omega (arith, length-row_words pitch first x y, h.0, k))
    ∙ row_words-word_at pitch first x y c p (ap (λ l. get_elem? l c) same ∙ g)
    ∙ ap (λ k. some (word_at pitch (x + c) k p)) down
image_words-word_at pitch width (first ∷ rows) x y (suc r) c row p h e g k =
    let ws = row_words pitch first x y in
    let long : length ws ≡ width = length-row_words pitch first x y ∙ h.0 in
    let rest : suc r * width + c - length ws ≡ r * width + c = omega (arith, long) in
    let down : y + 1 + r ≡ y + suc r = omega arith in
    get_elem?-right ws (image_words pitch rows x (y + 1)) (suc r * width + c) (omega (arith, long))
    ∙ ap (get_elem? (image_words pitch rows x (y + 1))) rest
    ∙ image_words-word_at pitch width rows x (y + 1) r c row p h.1 e g k
    ∙ ap (λ k. some (word_at pitch (x + c) k p)) down

-- An image whose header has its size is drawn with one word for each pixel, row by row: the pixel in
-- row `r` and column `c` is written, in its colour, to its place in the framebuffer, counted from the
-- image's position.
pub draw_lem :
    (m : Image) (v : Vga) (r c : ℕ) (row : List Pixel) (p : Pixel)
    → length m.pixels ≡ m.header.height
    → Rows m.header.width m.pixels
    → get_elem? m.pixels r ≡ some row
    → get_elem? row c ≡ some p
    → c < m.header.width
    → (words : List Word) × (draw m v ≡ record v { words = v.words ++ words })
      × (length words ≡ m.header.height * m.header.width)
      × (get_elem? words (r * m.header.width + c)
          ≡ some (record {
            offset = (m.header.y + r) * v.pitch + (m.header.x + c) * 4;
            color = color_of p;
          }))
unfolding draw
draw_lem m v r c row p tall wide e g k =
    let words = image_words v.pitch m.pixels m.header.x m.header.y in
    (
      words,
      ap (λ rows. draw_rows m.header.width rows m.header.x m.header.y v)
            (take-length m.header.height m.pixels tall)
          ∙ draw_rows-image_words m.header.width m.pixels m.header.x m.header.y v wide,
      length-image_words v.pitch m.header.width m.pixels m.header.x m.header.y wide
          ∙ ap (λ n. n * m.header.width) tall,
      image_words-word_at v.pitch m.header.width m.pixels m.header.x m.header.y r c row p wide e g
          k,
    )
