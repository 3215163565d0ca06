-- ===== src/Vga/Lines.antt =====
-- kernel/src/vga.rs: where the cursor stands after a text without control characters.
use mathlib.Core.Path.{subst}
use neur_os.Common.{
  List, ◌≡◌, refl, ap, ◌∙◌, ℕ, ◌+◌, ◌*◌, ◌/◌, ◌<◌, ◌≤◌, Text, [], ◌∷◌, ◌++◌, length, All, none,
  false, ◌==◌, arith, Outcome, ok, ◌>>=◌,
}
use neur_os.Initrd.Archive.{Initrd}
use neur_os.Vga.{Vga, Word, set_cursor}
use neur_os.Vga.Glyphs.{InCell, write_char-InCell}
use neur_os.Vga.Text.{Writing, step, match_character, finish, write_plain, write_loop, write_str}

-- A character that the font has, and that neither moves the cursor nor starts a sequence.
pub record Printable (c : ℕ) : Type 0 where
  pub drawn : c < 256
  pub no_feed : (c == 10) ≡ false
  pub no_return : (c == 13) ≡ false
  pub no_tab : (c == 9) ≡ false
  pub no_escape : (c == 0x1b) ≡ false

-- A screen whose font has 256 glyphs of 16 rows.
pub record IsReady (v : Vga) : Type 0 where
  pub glyph_rows : v.font.glyph_size ≡ 16
  pub glyph_bytes : length v.font.glyphs ≡ 4096

match_character-Printable :
    (c : ℕ) (w : Writing) (v : Vga) → Printable c → match_character c w v ≡ write_plain c w v
unfolding match_character
match_character-Printable c w v p = rw (p.no_feed, p.no_return, p.no_tab, p.no_escape)

pub step-Printable :
    (i : Initrd) (c : ℕ) (w : Writing) (v : Vga)
    → w.escape ≡ none
    → Printable c
    → step w.escape i c w v ≡ write_plain c w v
unfolding step
step-Printable i c w v e p = ap (λ o. step o i c w v) e ∙ match_character-Printable c w v p

pub finish-none :
    (i : Initrd) (w : Writing) (v : Vga) → w.escape ≡ none → finish w.escape i w v ≡ ok v
unfolding finish
finish-none i w v e = ap (λ o. finish o i w v) e

-- A screen after a text: still ready, with its cursor at the place.
pub record Ended (x y : ℕ) (m : Outcome Vga) : Type 0 where
  pub screen : Vga
  pub result : m ≡ ok screen
  pub ready : IsReady screen
  pub column : screen.cursor.x ≡ x
  pub row : screen.cursor.y ≡ y

-- The writing and the screen after one character, and the words that have been written.
pub write_plain-Printable :
    (c : ℕ) (w : Writing) (v : Vga)
    → IsReady v
    → 12 ≤ w.y
    → Printable c
    → (v' : Vga) × (write_plain c w v ≡ ok (record w { position = w.position + 1 }, v'))
      × IsReady v'
      × (v'.cursor.x ≡ w.x + 8 * w.position)
      × (v'.cursor.y ≡ w.y)
      × (words : List Word) × (v' ≡ record v { cursor = v'.cursor; words = v.words ++ words })
      × All (InCell v.pitch (w.x + 8 * w.position) w.y 16) words
unfolding write_plain
write_plain-Printable c w v r h p =
    let s = set_cursor (w.x + v.font.glyph_size / 2 * w.position) w.y w.fg v.cursor.bg v in
    let d = write_char-InCell c s r.glyph_rows r.glyph_bytes h p.drawn in
    let column : w.x + v.font.glyph_size / 2 * w.position ≡ w.x + 8 * w.position =
      ap (λ k. w.x + k / 2 * w.position) r.glyph_rows in
    (
      record s { words = s.words ++ d.words },
      rw (d.result, ◌>>=◌),
      record { glyph_rows = r.glyph_rows; glyph_bytes = r.glyph_bytes },
      column,
      refl,
      d.words,
      refl,
      subst (λ x. All (InCell v.pitch x w.y 16) d.words) column d.inside,
    )

write_loop-Ended :
    (i : Initrd) (c : ℕ) (t : Text) (w : Writing) (v : Vga)
    → w.escape ≡ none
    → IsReady v
    → 12 ≤ w.y
    → All Printable (c ∷ t)
    → Ended (w.x + 8 * (w.position + length t)) w.y (write_loop i (c ∷ t) w v)
unfolding write_loop
write_loop-Ended i c [] w v e r h p =
    let s = write_plain-Printable c w v r h p.0 in
    record {
      screen = s.0;
      result =
          rw (step-Printable i c w v e p.0, s.1)
            (finish-none i (record w { position = w.position + 1 }) s.0 e);
      ready = s.2;
      column = s.3 ∙ omega arith;
      row = s.4;
    }
write_loop-Ended i c (d ∷ t) w v e r h p =
    let s = write_plain-Printable c w v r h p.0 in
    let rest = write_loop-Ended i d t (record w { position = w.position + 1 }) s.0 e s.2 h p.1 in
    record {
      screen = rest.screen;
      result = rw (step-Printable i c w v e p.0, s.1) rest.result;
      ready = rest.ready;
      column = rest.column ∙ omega arith;
      row = rest.row;
    }

-- A text of `n + 1` characters that the font has, without control characters, is written, and the
-- cursor is left `n` cells to the right, on the last character and not behind it.
pub write_str-Ended :
    (i : Initrd) (c : ℕ) (t : Text) (v : Vga)
    → IsReady v
    → 12 ≤ v.cursor.y
    → All Printable (c ∷ t)
    → Ended (v.cursor.x + 8 * length t) v.cursor.y (write_str i (c ∷ t) v)
unfolding write_str
write_str-Ended i c t v r h p =
    let w : Writing = record {
      x = v.cursor.x;
      y = v.cursor.y;
      fg = v.cursor.fg;
      position = 0;
      escape = none;
    } in
    let end : v.cursor.x + 8 * (0 + length t) ≡ v.cursor.x + 8 * length t = omega arith in
    let e = write_loop-Ended i c t w v refl r h p in
    record {
      screen = e.screen;
      result = e.result;
      ready = e.ready;
      column = e.column ∙ end;
      row = e.row;
    }
