-- ===== src/Vga/Inside.antt =====
-- kernel/src/vga.rs and kernel/src/image.rs: drawings whose words lie in the framebuffer.
use mathlib.Core.Path.{subst}
use neur_os.Common.{
  ◌≡◌, refl, ap, sym, ◌∙◌, ℕ, zero, suc, ◌+◌, ◌-◌, ◌*◌, ◌<◌, ◌≤◌, Text, List, [], ◌∷◌, ◌++◌, length,
  take, none, All, All-append, arith, Whenever,
}
use neur_os.Initrd.Archive.{Initrd}
use neur_os.Image.{Image, Pixel, draw, draw_row, draw_rows, color_of}
use neur_os.Vga.{Vga, Word, draw_pixel}
use neur_os.Vga.Glyphs.{InCell}
use neur_os.Vga.Lines.{IsReady, Printable, step-Printable, finish-none, write_plain-Printable}
use neur_os.Vga.Text.{Writing, write_loop, write_str}

-- The four bytes of the word lie in a framebuffer of so many rows.
abbrev pub InBuffer : (height pitch : ℕ) → Word → Type 0
InBuffer height pitch w = w.offset + 4 ≤ height * pitch

-- A screen of this size, all words of which lie in the framebuffer.
pub record IsInside (height pitch width : ℕ) (v : Vga) : Type 0 where
  pub tall : v.height ≡ height
  pub pitched : v.pitch ≡ pitch
  pub wide : v.width ≡ width
  pub words : All (InBuffer height pitch) v.words

mul_mono : (a b p : ℕ) → a ≤ b → a * p ≤ b * p
mul_mono a b p h = grind arith

length-take-le : {A : Type 0} (n : ℕ) (xs : List A) → length (take n xs) ≤ n
length-take-le zero xs = omega arith
length-take-le (suc n) [] = omega arith
length-take-le (suc n) (x ∷ xs) = omega (arith, length-take-le n xs)

module _ (height pitch width : ℕ) (rows_fit : width * 4 ≤ pitch) where
  pixel-InBuffer :
      (x y color offset : ℕ)
      → offset ≡ y * pitch + x * 4
      → x < width
      → y < height
      → InBuffer height pitch (record { offset = offset; color = color })
  pixel-InBuffer x y color offset e h g =
      let rows = mul_mono (y + 1) height pitch (omega arith) in
      let row : (y + 1) * pitch ≡ y * pitch + pitch = omega arith in omega arith

  draw_pixel-IsInside :
      (x y color : ℕ) (v : Vga)
      → x < width
      → y < height
      → IsInside height pitch width v
      → IsInside height pitch width (draw_pixel x y color v)
  unfolding draw_pixel
  draw_pixel-IsInside x y color v h g i = record {
    tall = i.tall;
    pitched = i.pitched;
    wide = i.wide;
    words = All-append v.words _ (InBuffer height pitch) (
      i.words,
      (pixel-InBuffer x y color (y * v.pitch + x * 4) (ap (λ p. y * p + x * 4) i.pitched) h g, tt),
    );
  }

  draw_row-IsInside :
      (row : List Pixel) (x y : ℕ) (v : Vga)
      → x + length row ≤ width
      → y < height
      → IsInside height pitch width v
      → IsInside height pitch width (draw_row row x y v)
  unfolding draw_row
  draw_row-IsInside [] x y v h g i = i
  draw_row-IsInside (p ∷ row) x y v h g i =
      draw_row-IsInside row (x + 1) y (draw_pixel x y (color_of p) v) (omega arith) g
        (draw_pixel-IsInside x y (color_of p) v (omega arith) g i)

  draw_rows-IsInside :
      (columns : ℕ) (rows : List (List Pixel)) (x y : ℕ) (v : Vga)
      → x + columns ≤ width
      → y + length rows ≤ height
      → IsInside height pitch width v
      → IsInside height pitch width (draw_rows columns rows x y v)
  unfolding draw_rows
  draw_rows-IsInside columns [] x y v h g i = i
  draw_rows-IsInside columns (row ∷ rows) x y v h g i =
      let fits : x + length (take columns row) ≤ width =
        omega (arith, length-take-le columns row) in
      draw_rows-IsInside columns rows x (y + 1) (draw_row (take columns row) x y v) h (omega arith)
        (draw_row-IsInside (take columns row) x y v fits (omega arith) i)

  -- An image that the screen has room for, at its place, is drawn inside of the framebuffer.
  pub draw-IsInside :
      (m : Image) (v : Vga)
      → m.header.x + m.header.width ≤ width
      → m.header.y + m.header.height ≤ height
      → IsInside height pitch width v
      → IsInside height pitch width (draw m v)
  unfolding draw
  draw-IsInside m v h g i =
      draw_rows-IsInside m.header.width (take m.header.height m.pixels) m.header.x m.header.y v h
        (omega (arith, length-take-le m.header.height m.pixels)) i

  cell-InBuffer :
      (x y : ℕ) (ws : List Word)
      → 12 ≤ y
      → x + 8 ≤ width
      → y + 4 ≤ height
      → All (InCell pitch x y 16) ws
      → All (InBuffer height pitch) ws
  cell-InBuffer x y [] high h g a = tt
  cell-InBuffer x y (w ∷ ws) high h g a =
      let c = a.0 in
      let narrow = c.narrow in
      let low = c.low in
      (
        pixel-InBuffer (x + c.column) (y - 12 + c.row) w.color w.offset c.place (omega arith)
            (omega arith),
        cell-InBuffer x y ws high h g a.1,
      )

  -- One character of a text.
  write_plain-IsInside :
      (c : ℕ) (w : Writing) (v v' : Vga) (words : List Word)
      → 12 ≤ w.y
      → w.x + 8 * w.position + 8 ≤ width
      → w.y + 4 ≤ height
      → v' ≡ record v { cursor = v'.cursor; words = v.words ++ words }
      → All (InCell v.pitch (w.x + 8 * w.position) w.y 16) words
      → IsInside height pitch width v
      → IsInside height pitch width v'
  write_plain-IsInside c w v v' words high h g e a i =
      let cells =
        cell-InBuffer (w.x + 8 * w.position) w.y words high h g
          (subst (λ p. All (InCell p (w.x + 8 * w.position) w.y 16) words) i.pitched a) in
      record {
        tall = ap (λ k. k.height) e ∙ i.tall;
        pitched = ap (λ k. k.pitch) e ∙ i.pitched;
        wide = ap (λ k. k.width) e ∙ i.wide;
        words =
            subst (All (InBuffer height pitch)) (sym (ap (λ k. k.words) e))
              (All-append v.words words (InBuffer height pitch) (i.words, cells));
      }

  write_loop-IsInside :
      (i : Initrd) (c : ℕ) (t : Text) (w : Writing) (v : Vga)
      → w.escape ≡ none
      → IsReady v
      → 12 ≤ w.y
      → All Printable (c ∷ t)
      → w.x + 8 * (w.position + length (c ∷ t)) ≤ width
      → w.y + 4 ≤ height
      → IsInside height pitch width v
      → Whenever (IsInside height pitch width) (write_loop i (c ∷ t) w v)
  unfolding write_loop
  write_loop-IsInside i c [] w v e r high p h g inside =
      let (v', result, ready, _, _, words, same, cells) = write_plain-Printable c w v r high p.0 in
      rw
        (
          step-Printable i c w v e p.0,
          result,
          finish-none i (record w { position = w.position + 1 }) v' e,
        )
        (write_plain-IsInside c w v v' words high (omega arith) g same cells inside)
  write_loop-IsInside i c (d ∷ t) w v e r high p h g inside =
      let (v', result, ready, _, _, words, same, cells) = write_plain-Printable c w v r high p.0 in
      rw (step-Printable i c w v e p.0, result)
        (write_loop-IsInside i d t (record w { position = w.position + 1 }) v' e ready high p.1
          (omega arith) g
          (write_plain-IsInside c w v v' words high (omega arith) g same cells inside))

  -- A text that the row has room for is drawn inside of the framebuffer.
  pub write_str-IsInside :
      (i : Initrd) (c : ℕ) (t : Text) (v : Vga)
      → IsReady v
      → 12 ≤ v.cursor.y
      → All Printable (c ∷ t)
      → v.cursor.x + 8 * length (c ∷ t) ≤ width
      → v.cursor.y + 4 ≤ height
      → IsInside height pitch width v
      → Whenever (IsInside height pitch width) (write_str i (c ∷ t) v)
  unfolding write_str
  write_str-IsInside i c t v r high p h g inside =
      write_loop-IsInside i c t
        (record { x = v.cursor.x; y = v.cursor.y; fg = v.cursor.fg; position = 0; escape = none }) v
        refl r high p (omega arith) g inside
