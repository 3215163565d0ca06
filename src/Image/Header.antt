-- ===== src/Image/Header.antt =====
-- kernel/src/image.rs: the text in front of the pixels, and that `Image::new` finds its end and reads
-- the size from it.
use neur_os.Common.{
  ◌≡◌, ◌≢◌, refl, ap, sym, ◌∙◌, ℕ, suc, ◌+◌, ◌<◌, Text, List, [], ◌∷◌, ◌++◌, length, drop, All,
  All-append, some, true, false, ◌==◌, ==_iff, Bool-cases, inl, inr, arith, ok, take-append,
  drop-append, length-append, append_assoc, is_whitespace, split_whitespace, parse_usize,
  from_utf8_ascii,
}
use neur_os.Image.{newline_from, read_header}

-- A character of a word of the header.
pub record Letter (c : ℕ) : Type 0 where
  pub ascii : c < 128
  pub solid : is_whitespace c ≡ false

pub record IsWord (t : Text) : Type 0 where
  pub some_letter : t ≢ []
  pub letters : All Letter t

Letter-no_feed : (c : ℕ) → Letter c → (c == 10) ≡ false
unfolding is_whitespace
Letter-no_feed c l = elim (Bool-cases (c == 10)) [
  | inr other ↦ other
  | inl feed ↦ let e : c ≡ 10 = (==_iff c 10).0 feed in let s = rw e at l.solid in cc
]

-- A word of the header and the whitespace behind it.
split_word :
    (c : ℕ) (t : Text) (w : ℕ) (rest : Text)
    → All Letter (c ∷ t)
    → is_whitespace w ≡ true
    → split_whitespace ((c ∷ t) ++ (w ∷ rest)) ≡ (c ∷ t) ∷ split_whitespace rest
unfolding split_whitespace
split_word c [] w [] l h = rw (l.0.solid, h)
split_word c [] w (d ∷ rest) l h = rw (l.0.solid, h)
split_word c (d ∷ t) w rest l h = rw (l.0.solid, l.1.0.solid, split_word d t w rest l.1 h)

split_whitespace-IsWord :
    (t : Text) (w : ℕ) (rest : Text)
    → IsWord t
    → is_whitespace w ≡ true
    → split_whitespace (t ++ (w ∷ rest)) ≡ t ∷ split_whitespace rest
split_whitespace-IsWord [] w rest l h = absurd (l.some_letter refl)
split_whitespace-IsWord (c ∷ t) w rest l h = split_word c t w rest l.letters h

abbrev NoFeed : ℕ → Type 0
NoFeed c = (c == 10) ≡ false

newline_from-skip :
    (t : Text) (i n : ℕ) (rest : List ℕ)
    → All NoFeed t
    → newline_from i n (t ++ rest) ≡ newline_from (i + length t) n rest
unfolding newline_from
newline_from-skip [] i n rest l = let e : i + 0 ≡ i = omega arith in rw e
newline_from-skip (c ∷ t) i n rest l =
    let e : suc i + length t ≡ i + suc (length t) = omega arith in
    rw (l.0, newline_from)
      (newline_from-skip t (suc i) n rest l.1 ∙ ap (λ k. newline_from k n rest) e)

newline_from-line :
    (t : Text) (i n : ℕ) (rest : List ℕ)
    → All NoFeed t
    → newline_from i (suc n) (t ++ (10 ∷ rest)) ≡ newline_from (i + length t + 1) n rest
unfolding newline_from
newline_from-line t i n rest l =
    let e : suc (i + length t) ≡ i + length t + 1 = omega arith in
    newline_from-skip t i (suc n) (10 ∷ rest) l ∙ ap (λ k. newline_from k n rest) e

newline_from-found :
    (t : Text) (i : ℕ) (rest : List ℕ)
    → All NoFeed t
    → newline_from i 0 (t ++ (10 ∷ rest)) ≡ some (i + length t)
unfolding newline_from
newline_from-found t i rest l = newline_from-skip t i 0 (10 ∷ rest) l

All-NoFeed : (t : Text) → All Letter t → All NoFeed t
All-NoFeed [] l = tt
All-NoFeed (c ∷ t) l = (Letter-no_feed c l.0, All-NoFeed t l.1)

All-ascii : (t : Text) → All Letter t → All (λ c. c < 128) t
All-ascii [] l = tt
All-ascii (c ∷ t) l = (l.0.ascii, All-ascii t l.1)

-- The words of a header: the format's number, the size, and the greatest value of a colour.
pub record HeaderText : Type 0 where
  pub magic : Text
  pub width_text : Text
  pub height_text : Text
  pub depth : Text

-- They are words, and the size can be read.
pub record IsHeaderText (t : HeaderText) (width height : ℕ) : Type 0 where
  pub magic_word : IsWord t.magic
  pub width_word : IsWord t.width_text
  pub height_word : IsWord t.height_text
  pub depth_word : IsWord t.depth
  pub width_read : parse_usize t.width_text ≡ some width
  pub height_read : parse_usize t.height_text ≡ some height

abbrev pub size_line : HeaderText → Text
size_line t = t.width_text ++ (32 ∷ t.height_text)

-- The header as a text, three lines of which the last has no end yet.
abbrev pub header_text : HeaderText → Text
header_text t = t.magic ++ (10 ∷ (size_line t ++ (10 ∷ t.depth)))

module _ (t : HeaderText) (width height : ℕ) (h : IsHeaderText t width height) where
  size_line-NoFeed : All NoFeed (size_line t)
  size_line-NoFeed = All-append t.width_text (32 ∷ t.height_text) NoFeed (
    All-NoFeed t.width_text h.width_word.letters,
    (refl, All-NoFeed t.height_text h.height_word.letters),
  )

  header_text-ascii : All (λ c. c < 128) (header_text t)
  header_text-ascii =
      All-append t.magic (10 ∷ (size_line t ++ (10 ∷ t.depth))) (λ c. c < 128)
        (
          All-ascii t.magic h.magic_word.letters,
          (
            omega arith,
            All-append (size_line t) (10 ∷ t.depth) (λ c. c < 128)
                (
                  All-append t.width_text (32 ∷ t.height_text) (λ c. c < 128)
                      (
                        All-ascii t.width_text h.width_word.letters,
                        (omega arith, All-ascii t.height_text h.height_word.letters),
                      ),
                  (omega arith, All-ascii t.depth h.depth_word.letters),
                ),
          ),
        )

  header_text-append :
      (bytes : List ℕ)
      → header_text t ++ (10 ∷ bytes)
        ≡ t.magic ++ (10 ∷ (size_line t ++ (10 ∷ (t.depth ++ (10 ∷ bytes)))))
  header_text-append bytes =
      append_assoc t.magic (10 ∷ (size_line t ++ (10 ∷ t.depth))) (10 ∷ bytes)
      ∙ ap (λ l. t.magic ++ (10 ∷ l)) (append_assoc (size_line t) (10 ∷ t.depth) (10 ∷ bytes))

  -- The third line feed ends the header.
  pub newline_from-header_text :
      (bytes : List ℕ)
      → newline_from 0 2 (header_text t ++ (10 ∷ bytes)) ≡ some (length (header_text t))
  newline_from-header_text bytes =
      let first =
        newline_from-line t.magic 0 1 (size_line t ++ (10 ∷ (t.depth ++ (10 ∷ bytes))))
          (All-NoFeed t.magic h.magic_word.letters) in
      let second =
        newline_from-line (size_line t) (0 + length t.magic + 1) 0 (t.depth ++ (10 ∷ bytes))
          size_line-NoFeed in
      let third =
        newline_from-found t.depth (0 + length t.magic + 1 + length (size_line t) + 1) bytes
          (All-NoFeed t.depth h.depth_word.letters) in
      let count : 0 + length t.magic + 1 + length (size_line t) + 1 + length t.depth
          ≡ length (header_text t) =
        omega (
          arith,
          length-append t.magic (10 ∷ (size_line t ++ (10 ∷ t.depth))),
          length-append (size_line t) (10 ∷ t.depth),
        ) in
      ap (newline_from 0 2) (header_text-append bytes) ∙ first ∙ second ∙ third ∙ ap some count

  split_header :
      split_whitespace (header_text t)
      ≡ t.magic ∷ t.width_text ∷ t.height_text ∷ split_whitespace t.depth
  unfolding is_whitespace
  split_header =
      split_whitespace-IsWord t.magic 10 (size_line t ++ (10 ∷ t.depth)) h.magic_word refl
      ∙ ap (λ l. t.magic ∷ l)
          (ap split_whitespace (append_assoc t.width_text (32 ∷ t.height_text) (10 ∷ t.depth))
            ∙ split_whitespace-IsWord t.width_text 32 (t.height_text ++ (10 ∷ t.depth)) h.width_word
                refl
            ∙ ap (λ l. t.width_text ∷ l)
                (split_whitespace-IsWord t.height_text 10 t.depth h.height_word refl))

  -- The size is read from it.
  pub read_header-header_text :
      (bytes : List ℕ)
      → read_header (header_text t ++ (10 ∷ bytes)) (length (header_text t))
        ≡ ok (record { width = width; height = height; x = 0; y = 0 })
  unfolding read_header
  read_header-header_text bytes = rw (
    take-append (length (header_text t)) (header_text t) (10 ∷ bytes) refl,
    from_utf8_ascii (header_text t) header_text-ascii,
    split_header,
    h.width_read,
    h.height_read,
  )

  -- The pixels come behind it.
  pub drop-header_text :
      (bytes : List ℕ) → drop (length (header_text t) + 1) (header_text t ++ (10 ∷ bytes)) ≡ bytes
  drop-header_text bytes =
      ap (drop (length (header_text t) + 1)) (sym (append_assoc (header_text t) (10 ∷ []) bytes))
      ∙ drop-append (length (header_text t) + 1) (header_text t ++ (10 ∷ [])) bytes
          (length-append (header_text t) (10 ∷ []))
