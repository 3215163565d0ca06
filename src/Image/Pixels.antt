-- ===== src/Image/Pixels.antt =====
-- kernel/src/image.rs: the pixels of an image that is written to a file are read back.
use neur_os.Common.{
  ◌≡◌, ◌⊎◌, inl, inr, refl, ap, sym, ◌∙◌, ℕ, zero, suc, ◌+◌, ◌*◌, Text, codes, List, [], ◌∷◌, ◌++◌,
  length, get_elem?, drop, All, some, arith, ok, drop-append, drop-drop, length-append,
  append_assoc, split_terminator,
}
use neur_os.Initrd.Archive.{Initrd, get_data}
use neur_os.Image.{
  Image, Pixel, Format, pgm, ppm, gray, last, byte_at, pixel_at, read_row, read_rows, format_of,
  header_lines, image_new,
}
use neur_os.Image.Header.{
  HeaderText, IsHeaderText, header_text, newline_from-header_text, read_header-header_text,
  drop-header_text,
}

abbrev pub joined : {A : Type 0} → (A → List ℕ) → List A → List ℕ
joined encode [] = []
joined encode (a ∷ as') = encode a ++ joined encode as'

pub get_elem?-drop : (o k : ℕ) (xs : List ℕ) → get_elem? xs (o + k) ≡ get_elem? (drop o xs) k
get_elem?-drop zero k xs = ap (get_elem? xs) (omega arith)
get_elem?-drop (suc o) k [] = refl
get_elem?-drop (suc o) k (x ∷ xs) =
    let e : suc o + k ≡ suc (o + k) = omega arith in rw e (get_elem?-drop o k xs)

-- A format whose pixels take `size` bytes each, one after the other.
module _ (f : Format) (encode : Pixel → List ℕ) (size : ℕ) (Good : Pixel → Type 0)
    (measured : (p : Pixel) → length (encode p) ≡ size)
    (decoded : (pixels rest : List ℕ) (width y x : ℕ) (p : Pixel)
      → drop (y * width * size + x * size) pixels ≡ encode p ++ rest
      → Good p
      → pixel_at f pixels width y x ≡ ok p) where
  read_row-joined :
      (row : List Pixel) (pixels rest : List ℕ) (width y x : ℕ)
      → drop (y * width * size + x * size) pixels ≡ joined encode row ++ rest
      → All Good row
      → read_row f pixels width y x (length row) ≡ ok row
  unfolding read_row
  read_row-joined [] pixels rest width y x e g = refl
  read_row-joined (p ∷ row) pixels rest width y x e g =
      let here = e ∙ append_assoc (encode p) (joined encode row) rest in
      let step : y * width * size + x * size + size ≡ y * width * size + suc x * size =
        omega arith in
      let there : drop (y * width * size + suc x * size) pixels ≡ joined encode row ++ rest =
        sym (ap (λ k. drop k pixels) step)
        ∙ sym (drop-drop (y * width * size + x * size) size pixels)
        ∙ ap (drop size) here
        ∙ drop-append size (encode p) (joined encode row ++ rest) (measured p) in
      rw (
        decoded pixels (joined encode row ++ rest) width y x p here g.0,
        read_row-joined row pixels rest width y (suc x) there g.1,
      )

  length-joined : (row : List Pixel) → length (joined encode row) ≡ length row * size
  length-joined [] = omega arith
  length-joined (p ∷ row) =
      omega (arith, measured p, length-append (encode p) (joined encode row), length-joined row)

  read_rows-joined :
      (rows : List (List Pixel)) (pixels rest : List ℕ) (width y : ℕ)
      → drop (y * width * size) pixels ≡ joined (joined encode) rows ++ rest
      → All (λ row. (length row ≡ width) × All Good row) rows
      → read_rows f pixels width y (length rows) ≡ ok rows
  unfolding read_rows
  read_rows-joined [] pixels rest width y e g = refl
  read_rows-joined (row ∷ rows) pixels rest width y e g =
      let here = e ∙ append_assoc (joined encode row) (joined (joined encode) rows) rest in
      let start : y * width * size + 0 * size ≡ y * width * size = omega arith in
      let this : read_row f pixels width y 0 width ≡ ok row =
        ap (read_row f pixels width y 0) (sym g.0.0)
        ∙ read_row-joined row pixels (joined (joined encode) rows ++ rest) width y 0
            (ap (λ k. drop k pixels) start ∙ here) g.0.1 in
      let long : length (joined encode row) ≡ width * size =
        length-joined row ∙ ap (λ k. k * size) g.0.0 in
      let step : y * width * size + width * size ≡ suc y * width * size = omega arith in
      let there : drop (suc y * width * size) pixels ≡ joined (joined encode) rows ++ rest =
        sym (ap (λ k. drop k pixels) step)
        ∙ sym (drop-drop (y * width * size) (width * size) pixels)
        ∙ ap (drop (width * size)) here
        ∙ drop-append (width * size) (joined encode row) (joined (joined encode) rows ++ rest)
            long in
      rw (this, read_rows-joined rows pixels rest width (suc y) there g.1)

byte_at-drop :
    (o k i : ℕ) (pixels bytes : List ℕ) (b : ℕ)
    → drop o pixels ≡ bytes
    → i ≡ o + k
    → get_elem? bytes k ≡ some b
    → byte_at pixels i ≡ ok b
byte_at-drop o k i pixels bytes b e at found =
    rw (ap (get_elem? pixels) at ∙ get_elem?-drop o k pixels ∙ ap (λ l. get_elem? l k) e ∙ found)

abbrev pub rgb_bytes : Pixel → List ℕ
rgb_bytes p = p.red ∷ p.green ∷ p.blue ∷ []

decoded-rgb :
    (pixels rest : List ℕ) (width y x : ℕ) (p : Pixel)
    → drop (y * width * 3 + x * 3) pixels ≡ rgb_bytes p ++ rest
    → Unit {0}
    → pixel_at ppm pixels width y x ≡ ok p
unfolding pixel_at
decoded-rgb pixels rest width y x p e u =
    let o = y * width * 3 + x * 3 in
    rw (
      byte_at-drop o 0 (y * width * 3 + 3 * x) pixels (rgb_bytes p ++ rest) p.red e (omega arith)
          refl,
      byte_at-drop o 1 (y * width * 3 + (3 * x + 1)) pixels (rgb_bytes p ++ rest) p.green e
          (omega arith) refl,
      byte_at-drop o 2 (y * width * 3 + (3 * x + 2)) pixels (rgb_bytes p ++ rest) p.blue e
          (omega arith) refl,
    )

abbrev pub gray_bytes : Pixel → List ℕ
gray_bytes p = p.red ∷ []

-- The three colours are one.
abbrev pub IsGray : Pixel → Type 0
IsGray p = p ≡ gray p.red

decoded-gray :
    (pixels rest : List ℕ) (width y x : ℕ) (p : Pixel)
    → drop (y * width * 1 + x * 1) pixels ≡ gray_bytes p ++ rest
    → IsGray p
    → pixel_at pgm pixels width y x ≡ ok p
unfolding pixel_at
decoded-gray pixels rest width y x p e g =
    rw
      (byte_at-drop (y * width * 1 + x * 1) 0 (y * width + x) pixels (gray_bytes p ++ rest) p.red e
        (omega arith) refl)
      (ap ok (sym g))

abbrev pub Always : Pixel → Type 0
Always p = Unit {0}

-- The rows of an image that is as wide as its header says.
abbrev pub Wide : ℕ → (Pixel → Type 0) → List (List Pixel) → Type 0
Wide width Good rows = All (λ row. (length row ≡ width) × All Good row) rows

-- The file of an image whose pixels are written as `encode` does.
abbrev pub image_bytes : HeaderText → (Pixel → List ℕ) → List (List Pixel) → List ℕ → List ℕ
image_bytes t encode rows rest = header_text t ++ (10 ∷ (joined (joined encode) rows ++ rest))

abbrev pub image_of : ℕ → List (List Pixel) → Image
image_of width rows = record {
  header = record { width = width; height = length rows; x = 0; y = 0 };
  pixels = rows;
}

drop-zero : (n k : ℕ) (bytes : List ℕ) → drop (0 * n * k) bytes ≡ bytes
drop-zero n k bytes = let e : 0 * n * k ≡ 0 = omega arith in rw e

-- `Image::new` reads back every image that is written to a file in the format PPM, or in PGM if it
-- is gray: its size, and its pixels row by row. Bytes behind the pixels are ignored.
pub image_new-image_bytes :
    (i : Initrd) (path : Text) (t : HeaderText) (width : ℕ) (rows : List (List Pixel))
    (rest : List ℕ)
    → IsHeaderText t width (length rows)
    → ((last (split_terminator 46 path) ≡ some (codes "ppm"))
        × Wide width Always rows
        × (get_data i path ≡ ok (image_bytes t rgb_bytes rows rest)))
      ⊎ ((last (split_terminator 46 path) ≡ some (codes "pgm"))
          × Wide width IsGray rows
          × (get_data i path ≡ ok (image_bytes t gray_bytes rows rest)))
    → image_new i path ≡ ok (image_of width rows)
unfolding image_new format_of header_lines
image_new-image_bytes i path t width rows rest h (inl (ending, wide, found)) =
    let bytes = joined (joined rgb_bytes) rows ++ rest in
    rw (
      found,
      ending,
      newline_from-header_text t width (length rows) h bytes,
      read_header-header_text t width (length rows) h bytes,
      drop-header_text t width (length rows) h bytes,
      read_rows-joined ppm rgb_bytes 3 Always (λ p. refl) decoded-rgb rows bytes rest width 0
          (drop-zero width 3 bytes) wide,
    )
image_new-image_bytes i path t width rows rest h (inr (ending, wide, found)) =
    let bytes = joined (joined gray_bytes) rows ++ rest in
    rw (
      found,
      ending,
      newline_from-header_text t width (length rows) h bytes,
      read_header-header_text t width (length rows) h bytes,
      drop-header_text t width (length rows) h bytes,
      read_rows-joined pgm gray_bytes 1 IsGray (λ p. refl) decoded-gray rows bytes rest width 0
          (drop-zero width 1 bytes) wide,
    )
