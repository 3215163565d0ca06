-- ===== src/Intro/Returns.antt =====
-- kernel/src/intro.rs: on a screen that has room for its images and its texts the start screen is
-- shown.
use mathlib.Core.Path.{subst}
use neur_os.Common.{
  ◌≡◌, refl, ap, ◌∙◌, ℕ, ◌+◌, ◌-◌, ◌*◌, ◌/◌, ◌≤◌, leb-true, Bool, true, false, if◌then◌else◌, leb,
  ltb, ◌<◌, All-append, Text, codes, List, [], ◌∷◌, ◌++◌, length, take, All, ok, ◌>>=◌, arith,
  Whenever-ok,
}
use neur_os.Initrd.Archive.{Initrd}
use neur_os.Image
use neur_os.Image.{Image, Pixel, image_new, set_position, draw, draw_row, draw_rows, color_of}
use neur_os.Vga.{Vga, set_cursor, draw_pixel}
use neur_os.Vga.Text.{rgb, red, blue, white, black}
use neur_os.Vga.Screen.{write_fmt}
use neur_os.Vga.Inside.{IsInside, draw-IsInside, write_str-IsInside}
use neur_os.Vga.Lines.{IsReady, Printable, Ended, write_str-Ended}
use neur_os.Intro.{
  Build, sub, version_text, copyright, instruction, draw_images, write_texts, initialize,
}

-- The second screen has the first one's size and font.
record Alike (v v' : Vga) : Type 0 where
  font : v'.font ≡ v.font
  width : v'.width ≡ v.width
  height : v'.height ≡ v.height

Alike-trans : {u v w : Vga} → Alike u v → Alike v w → Alike u w
Alike-trans a b = record {
  font = b.font ∙ a.font;
  width = b.width ∙ a.width;
  height = b.height ∙ a.height;
}

draw_row-Alike : (row : List Pixel) (x y : ℕ) (v : Vga) → Alike v (draw_row row x y v)
unfolding draw_row draw_pixel
draw_row-Alike [] x y v = record { font = refl; width = refl; height = refl }
draw_row-Alike (p ∷ row) x y v =
    let first : Alike v (draw_pixel x y (color_of p) v) = record {
      font = refl;
      width = refl;
      height = refl;
    } in
    Alike-trans first (draw_row-Alike row (x + 1) y (draw_pixel x y (color_of p) v))

draw_rows-Alike :
    (width : ℕ) (rows : List (List Pixel)) (x y : ℕ) (v : Vga)
    → Alike v (draw_rows width rows x y v)
unfolding draw_rows
draw_rows-Alike width [] x y v = record { font = refl; width = refl; height = refl }
draw_rows-Alike width (row ∷ rows) x y v =
    let first = draw_row-Alike (take width row) x y v in
    Alike-trans first (draw_rows-Alike width rows x (y + 1) (draw_row (take width row) x y v))

draw-Alike : (m : Image) (v : Vga) → Alike v (draw m v)
unfolding draw
draw-Alike m v =
    draw_rows-Alike m.header.width (take m.header.height m.pixels) m.header.x m.header.y v

-- An image of the ramdisk that the screen has room for, if its middle stands in the column `room` and
-- its top in the row `y`.
pub record HasImage (i : Initrd) (path : Text) (room y width height : ℕ) : Type 0 where
  pub image : Image
  pub found : image_new i path ≡ ok image
  pub fits : Image.get_width image / 2 ≤ room
  pub right : room - Image.get_width image / 2 + Image.get_width image ≤ width
  pub bottom : y + image.header.height ≤ height

pub record HasImages (i : Initrd) (width height : ℕ) : Type 0 where
  pub logo :
      HasImage i (codes "initrd/usr/share/images/logo.ppm") (width / 2) (height / 8) width height
  pub neuro :
      HasImage i (codes "initrd/usr/share/images/neuro.ppm") (width / 3) (height / 2) width height
  pub evil :
      HasImage i
        (codes "initrd/usr/share/images/evil.ppm")
        (width - width / 3)
        (height / 2)
        width
        height

-- The texts are made of characters that the font has, and there is room for them.
pub record HasRoom (b : Build) (width height : ℕ) : Type 0 where
  pub version : All Printable b.version
  pub commit : All Printable b.commit
  pub authors : All Printable b.authors
  pub tall : 20 ≤ height
  pub wide : 192 ≤ width
  pub versioned : (length (version_text b) + 1) * 8 ≤ width
  pub copyrighted : (length (copyright b) + 1) * 8 ≤ width

-- All words of the screen lie in its framebuffer, whose rows are long enough for it.
pub record IsSound (v : Vga) : Type 0 where
  pub rows_fit : v.width * 4 ≤ v.pitch
  pub inside : IsInside v.height v.pitch v.width v

sub-ok : (a b : ℕ) → b ≤ a → sub a b ≡ ok (a - b)
sub-ok a b h = rw (leb-true b a h)

draw_images-Alike :
    (i : Initrd) (v : Vga)
    → HasImages i v.width v.height
    → IsSound v
    → (v' : Vga) × (draw_images i v ≡ ok v') × Alike v v' × IsInside v.height v.pitch v.width v'
unfolding draw_images
draw_images-Alike i v h sound =
    let draw-IsInside' = draw-IsInside v.height v.pitch v.width sound.rows_fit in
    let x = v.width / 2 - Image.get_width h.logo.image / 2 in
    let x' = v.width / 3 - Image.get_width h.neuro.image / 2 in
    let x'' = v.width - v.width / 3 - Image.get_width h.evil.image / 2 in
    let logo = set_position x (v.height / 8) h.logo.image in
    let neuro = set_position x' (v.height / 2) h.neuro.image in
    let evil = set_position x'' (v.height / 2) h.evil.image in
    (
      draw evil (draw neuro (draw logo v)),
      rw
          (
            h.logo.found,
            sub-ok (v.width / 2) (Image.get_width h.logo.image / 2) h.logo.fits,
            h.neuro.found,
            sub-ok (v.width / 3) (Image.get_width h.neuro.image / 2) h.neuro.fits,
            h.evil.found,
            sub-ok v.width (v.width / 3) (omega arith),
            sub-ok (v.width - v.width / 3) (Image.get_width h.evil.image / 2) h.evil.fits,
          )
          refl,
      Alike-trans (draw-Alike logo v) (
          Alike-trans (draw-Alike neuro (draw logo v))
            (draw-Alike evil (draw neuro (draw logo v)))),
      draw-IsInside' evil (draw neuro (draw logo v)) h.evil.right h.evil.bottom (
          draw-IsInside' neuro (draw logo v) h.neuro.right h.neuro.bottom
            (draw-IsInside' logo v h.logo.right h.logo.bottom sound.inside)),
    )

-- A text of ASCII that is not a control code.
abbrev plain : Text → Bool
plain [] = true
plain (c ∷ t) = if leb 32 c then (if ltb c 127 then plain t else false) else false

plain-Printable : (t : Text) → plain t ≡ true → All Printable t
plain-Printable [] h = tt
plain-Printable (c ∷ t) h =
    let low : 32 ≤ c = ground arith in
    let high : c < 127 = ground arith in
    let rest : plain t ≡ true = ground arith in
    (
      record {
        drawn = omega arith;
        no_feed = ground arith;
        no_return = ground arith;
        no_tab = ground arith;
        no_escape = ground arith;
      },
      plain-Printable t rest,
    )

-- One text at a place of the screen.
written :
    (height pitch width : ℕ)
    → width * 4 ≤ pitch
    → (i : Initrd) (c : ℕ) (t : Text) (x y fg : ℕ) (v : Vga) → IsReady v
    → 12 ≤ y
    → All Printable (c ∷ t)
    → x + 8 * length (c ∷ t) ≤ width
    → y + 4 ≤ height
    → IsInside height pitch width v
    → (e : Ended (x + 8 * length t) y (write_fmt i (c ∷ t) (set_cursor x y fg (rgb black) v)))
      × IsInside height pitch width e.screen
written height pitch width rows_fit i c t x y fg v r h p right low inside =
    let v' = set_cursor x y fg (rgb black) v in
    let r' : IsReady v' = record { glyph_rows = r.glyph_rows; glyph_bytes = r.glyph_bytes } in
    let i' : IsInside height pitch width v' = record {
      tall = inside.tall;
      pitched = inside.pitched;
      wide = inside.wide;
      words = inside.words;
    } in
    let e = write_str-Ended i c t v' r' h p in
    (
      e,
      Whenever-ok (IsInside height pitch width) (write_fmt i (c ∷ t) v') e.screen
          (write_str-IsInside height pitch width rows_fit i c t v' r' h p right low i') e.result,
    )

write_texts-Ended :
    (b : Build) (i : Initrd) (v : Vga)
    → IsReady v
    → HasRoom b v.width v.height
    → (pitch : ℕ) → v.width * 4 ≤ pitch
    → IsInside v.height pitch v.width v
    → (e : Ended (v.width / 2 - 96 + 8 * 23) (v.height - v.height / 4) (write_texts b i v))
      × IsInside v.height pitch v.width e.screen
unfolding write_texts
write_texts-Ended b i v r h pitch rows_fit inside =
    let written' = written v.height pitch v.width rows_fit in
    let versioned = h.versioned in
    let cell : v.font.glyph_size / 2 ≡ 8 = ap (λ k. k / 2) r.glyph_rows in
    let tall = h.tall in
    let wide = h.wide in
    let copyrighted = h.copyrighted in
    let y = v.height - 8 in
    let x = v.width - (length (copyright b) * 8 + 8) in
    let (first, inside₁) =
      written' i 86 (codes "ersion " ++ (b.version ++ (codes " (" ++ (b.commit ++ codes ")")))) 8 y
        (rgb red) v r (omega arith)
        (All-append (codes "Version ") _ Printable (
          plain-Printable (codes "Version ") refl,
          All-append b.version _ Printable (
            h.version,
            All-append (codes " (") _ Printable (
              plain-Printable (codes " (") refl,
              All-append b.commit (codes ")") Printable
                  (h.commit, plain-Printable (codes ")") refl),
            ),
          ),
        ))
        (omega arith) (omega arith) inside in
    let (second, inside₂) =
      written' i 67 (codes "opyright (C) 2024 " ++ b.authors) x y (rgb blue) first.screen
        first.ready (omega arith)
        (All-append (codes "Copyright (C) 2024 ") b.authors Printable
          (plain-Printable (codes "Copyright (C) 2024 ") refl, h.authors))
        (omega arith) (omega arith) inside₁ in
    let (third, inside₃) =
      written' i 80 (codes "ress ENTER to continue.") (v.width / 2 - 96) (v.height - v.height / 4)
        (rgb white) second.screen second.ready (omega arith) (plain-Printable instruction refl)
        (omega arith) (omega arith) inside₂ in
    (
      record {
        screen = third.screen;
        result =
            rw
              (
                cell,
                sub-ok v.height 8 (omega arith),
                first.result,
                sub-ok v.width (length (copyright b) * 8 + 8) (omega arith),
                second.result,
                sub-ok (v.width / 2) 96 (omega arith),
                sub-ok v.height (v.height / 4) (omega arith),
              )
              third.result;
        ready = third.ready;
        column = third.column;
        row = third.row;
      },
      inside₃,
    )

IsReady-Alike : (v v' : Vga) → Alike v v' → IsReady v → IsReady v'
IsReady-Alike v v' a r = record {
  glyph_rows = ap (λ f. f.glyph_size) a.font ∙ r.glyph_rows;
  glyph_bytes = ap (λ f. length f.glyphs) a.font ∙ r.glyph_bytes;
}

-- Where the ramdisk has the three images and the screen has room for them and for the texts, the
-- start screen is shown without a panic and within the framebuffer, and the cursor is left on the last
-- character of the instruction.
pub initialize-Ended :
    (b : Build) (i : Initrd) (v : Vga)
    → IsReady v
    → HasImages i v.width v.height
    → HasRoom b v.width v.height
    → IsSound v
    → (e : Ended (v.width / 2 - 96 + 8 * 23) (v.height - v.height / 4) (initialize b i v))
      × IsInside v.height v.pitch v.width e.screen
unfolding initialize
initialize-Ended b i v r images room sound =
    let (v', e, a, inside) = draw_images-Alike i v images sound in
    let (t, inside') =
      write_texts-Ended b i v' (IsReady-Alike v v' a r) (rw (a.width, a.height) room) v.pitch
        (rw a.width sound.rows_fit) (rw (a.width, a.height) inside) in
    (
      record {
        screen = t.screen;
        result = rw (e, ◌>>=◌) t.result;
        ready = t.ready;
        column = t.column ∙ ap (λ w. w / 2 - 96 + 8 * 23) a.width;
        row = t.row ∙ ap (λ w. w - w / 4) a.height;
      },
      subst (λ k. IsInside k v.pitch v.width t.screen) a.height
          (subst (λ k. IsInside v'.height v.pitch k t.screen) a.width inside'),
    )
