-- ===== src/Vga/Clearing.antt =====
-- kernel/src/vga.rs: `clear` draws what a black image of the screen's size would.
use neur_os.Common.{
  ◌≡◌, refl, ap, sym, ◌∙◌, ℕ, zero, suc, ◌+◌, ◌*◌, ◌<◌, List, ◌++◌, length, replicate, get_elem?,
  some, arith, append-nil, append_assoc, length-replicate, All-replicate,
}
use neur_os.Vga.{Vga, Word, draw_pixel, set_cursor}
use neur_os.Vga.Text.{rgb, black, white}
use neur_os.Vga.Screen.{clear, clear_rows, clear_columns}
use neur_os.Image.{Pixel, draw_row, gray}
use neur_os.Image.Drawing.{
  Rows, row_words, image_words, draw_row-row_words, length-image_words, image_words-word_at,
}

clear_columns-draw_row :
    (n x y : ℕ) (v : Vga) → clear_columns n x y v ≡ draw_row (replicate n (gray 0)) x y v
unfolding clear_columns draw_row
clear_columns-draw_row zero x y v = refl
clear_columns-draw_row (suc n) x y v = clear_columns-draw_row n (x + 1) y (draw_pixel x y 0 v)

-- The rows of a black image.
abbrev pub black_rows : ℕ → ℕ → List (List Pixel)
black_rows n width = replicate n (replicate width (gray 0))

pub clear_rows-image_words :
    (n y : ℕ) (v : Vga)
    → clear_rows n y v
      ≡ record v { words = v.words ++ image_words v.pitch (black_rows n v.width) 0 y }
unfolding clear_rows
clear_rows-image_words zero y v = ap (λ w. record v { words = w }) (sym (append-nil v.words))
clear_rows-image_words (suc n) y v =
    let row = row_words v.pitch (replicate v.width (gray 0)) 0 y in
    ap (clear_rows n (y + 1))
      (clear_columns-draw_row v.width 0 y v ∙ draw_row-row_words (replicate v.width (gray 0)) 0 y v)
    ∙ clear_rows-image_words n (y + 1) (record v { words = v.words ++ row })
    ∙ ap (λ w. record v { words = w })
        (append_assoc v.words row (image_words v.pitch (black_rows n v.width) 0 (y + 1)))

get_elem?-replicate : {A : Type 0} (n i : ℕ) (a : A) → i < n → get_elem? (replicate n a) i ≡ some a
get_elem?-replicate zero i a h = absurd (omega arith)
get_elem?-replicate (suc n) zero a h = refl
get_elem?-replicate (suc n) (suc i) a h = get_elem?-replicate n i a (omega arith)

-- `clear` writes black to each pixel of the screen, row by row, and nothing else, and puts the cursor
-- to the first line in white on black.
pub clear_lem :
    (v : Vga) (x y : ℕ)
    → x < v.width
    → y < v.height
    → (words : List Word) × (clear v
        ≡ set_cursor 8 24 (rgb white) (rgb black) (record v { words = v.words ++ words }))
      × (length words ≡ v.height * v.width)
      × (get_elem? words (y * v.width + x)
          ≡ some (record { offset = y * v.pitch + x * 4; color = rgb black }))
unfolding clear
clear_lem v x y h g =
    let rows = black_rows v.height v.width in
    let wide : Rows v.width rows =
      All-replicate (λ row. length row ≡ v.width) v.height (replicate v.width (gray 0))
        (length-replicate v.width (gray 0)) in
    let across : 0 + x ≡ x = omega arith in
    let down : 0 + y ≡ y = omega arith in
    (
      image_words v.pitch rows 0 0,
      ap (set_cursor 8 24 (rgb white) (rgb black)) (clear_rows-image_words v.height 0 v),
      length-image_words v.pitch v.width rows 0 0 wide
          ∙ ap (λ n. n * v.width) (length-replicate v.height (replicate v.width (gray 0))),
      image_words-word_at v.pitch v.width rows 0 0 y x (replicate v.width (gray 0)) (gray 0) wide
            (get_elem?-replicate v.height y (replicate v.width (gray 0)) g)
            (get_elem?-replicate v.width x (gray 0) h) h
          ∙ ap (λ k. some (record { offset = k * v.pitch + (0 + x) * 4; color = 0 })) down
          ∙ ap (λ k. some (record { offset = y * v.pitch + k * 4; color = 0 })) across,
    )
