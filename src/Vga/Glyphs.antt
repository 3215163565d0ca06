-- ===== src/Vga/Glyphs.antt =====
-- kernel/src/vga.rs: where a character is drawn.
use neur_os.Common.{
  ◌≡◌, refl, ap, sym, ◌∙◌, ℕ, suc, ◌+◌, ◌-◌, ◌*◌, ◌<◌, ◌≤◌, List, [], ◌∷◌, ◌++◌, length, take,
  length-take, drop, All, All-append, arith, Outcome, ok, panic, out_of_bounds, ltb-false, leb,
  leb-true, leb-false, length-append, length-drop, append-nil, append_assoc, ◌>>=◌, ◌==◌, ◌/◌, ◌%◌,
  if◌then◌else◌,
}
use neur_os.Vga.{Vga, Word, draw_pixel, draw_columns, draw_rows, write_char, masks}

-- A word of the framebuffer in the columns from `x` to `x + 8` and the rows from `y - 12` on.
pub record InCell (pitch x y rows : ℕ) (w : Word) : Type 0 where
  pub column : ℕ
  pub row : ℕ
  pub narrow : column < 8
  pub low : row < rows
  pub place : w.offset ≡ (y - 12 + row) * pitch + (x + column) * 4

-- A drawing that has returned: the words, as many as given, that satisfy `P`.
pub record Drawn (P : Word → Type 0) (count : ℕ) (v : Vga) (m : Outcome Vga) : Type 0 where
  pub words : List Word
  pub result : m ≡ ok (record v { words = v.words ++ words })
  pub counted : length words ≡ count
  pub inside : All P words

All-mono : (P Q : Word → Type 0) (ws : List Word) → ((w : Word) → P w → Q w) → All P ws → All Q ws
All-mono P Q [] f h = tt
All-mono P Q (w ∷ ws) f h = (f w h.0, All-mono P Q ws f h.1)

draw_columns-Drawn :
    (ms : List ℕ) (glyph x y left : ℕ) (v : Vga)
    → 12 ≤ y
    → left + length ms ≤ 8
    → Drawn (InCell v.pitch x y 1) (length ms) v (draw_columns ms glyph (x + left) y v)
unfolding draw_columns draw_pixel
draw_columns-Drawn [] glyph x y left v h g = record {
  words = [];
  result = ap (λ ws. ok (record v { words = ws })) (sym (append-nil v.words));
  counted = refl;
  inside = tt;
}
draw_columns-Drawn (mask ∷ ms) glyph x y left v h g =
    let color = if glyph / mask % 2 == 0 then v.cursor.bg else v.cursor.fg in
    let word : Word = record { offset = (y - 12) * v.pitch + (x + left) * 4; color = color } in
    let d =
      draw_columns-Drawn ms glyph x y (suc left) (draw_pixel (x + left) (y - 12) color v) h
        (omega arith) in
    let next : (x + left) + 1 ≡ x + suc left = omega arith in
    record {
      words = word ∷ d.words;
      result =
          rw (ltb-false y 12 h, next)
            (d.result
              ∙ ap (λ ws. ok (record v { words = ws })) (append_assoc v.words (word ∷ []) d.words));
      counted = omega (arith, d.counted);
      inside = (
        record {
          column = left;
          row = 0;
          narrow = omega arith;
          low = omega arith;
          place = ap (λ r. r * v.pitch + (x + left) * 4) (omega arith);
        },
        d.inside,
      );
    }

InCell-lower :
    (pitch x y top : ℕ) (w : Word)
    → 12 ≤ y
    → top < 16
    → InCell pitch x (y + top) 1 w
    → InCell pitch x y 16 w
InCell-lower pitch x y top w h g c =
    let low = c.low in
    let same : (y + top) - 12 + c.row ≡ y - 12 + (top + c.row) = omega arith in
    record {
      column = c.column;
      row = top + c.row;
      narrow = c.narrow;
      low = omega arith;
      place = c.place ∙ ap (λ r. r * pitch + (x + c.column) * 4) same;
    }

draw_rows-cons :
    (glyph : ℕ) (gs : List ℕ) (x y : ℕ) (v v' : Vga)
    → v.font.glyph_size ≡ 16
    → draw_columns masks glyph x y v ≡ ok v'
    → draw_rows (glyph ∷ gs) x y v ≡ draw_rows gs x (y + 1) v'
unfolding draw_rows
draw_rows-cons glyph gs x y v v' size e =
    let wide : take (v.font.glyph_size / 2) masks ≡ masks = ap (λ k. take (k / 2) masks) size in
    rw (wide, e)

draw_rows-Drawn :
    (gs : List ℕ) (x y top : ℕ) (v : Vga)
    → 12 ≤ y
    → v.font.glyph_size ≡ 16
    → top + length gs ≤ 16
    → Drawn (InCell v.pitch x y 16) (length gs * 8) v (draw_rows gs x (y + top) v)
unfolding draw_rows
draw_rows-Drawn [] x y top v h size g = record {
  words = [];
  result = ap (λ ws. ok (record v { words = ws })) (sym (append-nil v.words));
  counted = refl;
  inside = tt;
}
draw_rows-Drawn (glyph ∷ gs) x y top v h size g =
    let c = draw_columns-Drawn masks glyph x (y + top) 0 v (omega arith) (omega arith) in
    let d =
      draw_rows-Drawn gs x y (suc top) (record v { words = v.words ++ c.words }) h size
        (omega arith) in
    let here : x + 0 ≡ x = omega arith in
    let next : (y + top) + 1 ≡ y + suc top = omega arith in
    let row = rw here at c.result in
    record {
      words = c.words ++ d.words;
      result =
          draw_rows-cons glyph gs x (y + top) v (record v { words = v.words ++ c.words }) size row
          ∙ ap (λ k. draw_rows gs x k (record v { words = v.words ++ c.words })) next
          ∙ (d.result
              ∙ ap (λ ws. ok (record v { words = ws })) (append_assoc v.words c.words d.words));
      counted = omega (arith, c.counted, d.counted, length-append c.words d.words);
      inside = All-append c.words d.words (InCell v.pitch x y 16) (
        All-mono (InCell v.pitch x (y + top) 1) (InCell v.pitch x y 16) c.words
            (λ w i. InCell-lower v.pitch x y top w h (omega arith) i) c.inside,
        d.inside,
      );
    }

write_char-rows :
    (c : ℕ) (v : Vga)
    → v.font.glyph_size ≡ 16
    → write_char c v ≡ (
        (if leb (c * 16) (length v.font.glyphs)
          then ok (drop (c * 16) v.font.glyphs)
          else panic out_of_bounds)
        >>= λ g. draw_rows (take 16 g) v.cursor.x v.cursor.y v)
unfolding write_char
write_char-rows c v size =
    ap
      (λ k.
        (if leb (c * k) (length v.font.glyphs)
          then ok (drop (c * k) v.font.glyphs)
          else panic out_of_bounds)
        >>= λ g. draw_rows (take k g) v.cursor.x v.cursor.y v)
      size

-- With a font of 256 glyphs of 16 rows, and the cursor at row 12 or below, a character with a code
-- below 256 is drawn: 128 words are written, all of them in the cell of 8 by 16 pixels whose first
-- row is 12 rows above the cursor.
pub write_char-InCell :
    (c : ℕ) (v : Vga)
    → v.font.glyph_size ≡ 16
    → length v.font.glyphs ≡ 4096
    → 12 ≤ v.cursor.y
    → c < 256
    → Drawn (InCell v.pitch v.cursor.x v.cursor.y 16) 128 v (write_char c v)
write_char-InCell c v size glyphs h g =
    let rows = take 16 (drop (c * 16) v.font.glyphs) in
    let whole : length rows ≡ 16 =
      length-take 16 (drop (c * 16) v.font.glyphs)
        (omega (arith, length-drop (c * 16) v.font.glyphs)) in
    let d = draw_rows-Drawn rows v.cursor.x v.cursor.y 0 v h size (omega arith) in
    let start : v.cursor.y + 0 ≡ v.cursor.y = omega arith in
    let all = rw start at d.result in
    record {
      words = d.words;
      result =
          write_char-rows c v size
          ∙ rw (leb-true (c * 16) (length v.font.glyphs) (omega arith)) all;
      counted = omega (arith, d.counted, whole);
      inside = d.inside;
    }

-- With a font of 256 glyphs of 16 rows, a character with a code above 256 makes the drawing panic.
pub write_char-panics :
    (c : ℕ) (v : Vga)
    → v.font.glyph_size ≡ 16
    → length v.font.glyphs ≡ 4096
    → 256 < c
    → write_char c v ≡ panic out_of_bounds
write_char-panics c v size glyphs h =
    write_char-rows c v size ∙ rw (leb-false (c * 16) (length v.font.glyphs) (omega arith))
