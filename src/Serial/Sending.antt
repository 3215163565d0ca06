-- ===== src/Serial/Sending.antt =====
-- kernel/src/serial.rs: what a text sends over the line.
use neur_os.Common.{
  ◌≡◌, refl, ap, sym, ◌∙◌, ℕ, zero, suc, ◌+◌, ◌/◌, ◌%◌, ◌<◌, Text, List, [], ◌∷◌, ◌++◌, map, ◌==◌,
  true, false, Bool-cases, inl, inr, ok, arith, ◌>>=◌, append-nil, append_assoc,
}
use mathlib.Core.List.{map-append}
use neur_os.Serial.{Serial, Write, Device, inb, outb, wait, write_char, put, write_str}

-- The bytes of a character on the line: a line ends with a carriage return and a line feed.
unfoldable pub char_bytes : ℕ → List ℕ
char_bytes c = elim (c == 10) [ true ↦ 13 ∷ c % 256 ∷ [] | false ↦ c % 256 ∷ [] ]

abbrev pub line_bytes : Text → List ℕ
line_bytes [] = []
line_bytes (c ∷ t) = char_bytes c ++ line_bytes t

-- Within `n` reads from any time on the bit is set: the device does not hang.
abbrev pub Answers : Device → ℕ → ℕ → Type 0
Answers register bit n = (k : ℕ) → (j : ℕ) × (j < n) × ((register 5 (k + j) / bit % 2 == 0) ≡ false)

-- From the read number `start` on, the bit is set for the first time `k` reads later.
pub record IsFirst (register : Device) (bit start k : ℕ) : Type 0 where
  pub set : (register 5 (start + k) / bit % 2 == 0) ≡ false
  pub clear : (i : ℕ) → i < k → (register 5 (start + i) / bit % 2 == 0) ≡ true

-- The writes of bytes to the data register.
abbrev pub sends : ℕ → List ℕ → List Write
sends address bytes = map (λ b. record { port = address + 0; value = b }) bytes

-- A port after some reads, that has been sent the bytes.
abbrev pub after : Serial → ℕ → List ℕ → Serial
after s reads bytes = record s { reads = reads; writes = s.writes ++ sends s.address bytes }

module _ (register : Device) where
  IsFirst-later :
      (bit start k : ℕ)
      → ((register 5 start / bit % 2 == 0) ≡ true)
      → IsFirst register bit (start + 1) k
      → IsFirst register bit start (suc k)
  IsFirst-later bit start k busy first =
      let next : (i : ℕ) → start + suc i ≡ (start + 1) + i = λ i. omega arith in
      record { set = rw (next k) first.set; clear = clear }
    where
      clear : (i : ℕ) → i < suc k → (register 5 (start + i) / bit % 2 == 0) ≡ true
      clear zero h = let here : start + 0 ≡ start = omega arith in rw here busy
      clear (suc i) h =
          let next : start + suc i ≡ (start + 1) + i = omega arith in
          rw next (first.clear i (omega arith))

  -- The loop ends with the first read in which the bit is set.
  pub wait-IsFirst :
      (bit j n : ℕ) (s : Serial)
      → j < n
      → ((register 5 (s.reads + j) / bit % 2 == 0) ≡ false)
      → (k : ℕ) × IsFirst register bit s.reads k
        × (wait register bit n s ≡ ok (record s { reads = s.reads + k + 1 }))
  unfolding wait inb
  wait-IsFirst bit j zero s h e = absurd (omega arith)
  wait-IsFirst bit zero (suc n) s h e =
      let here : s.reads + 0 ≡ s.reads = omega arith in
      (0, record { set = e; clear = λ i g. absurd (omega arith) }, rw (rw here at e, here) refl)
  wait-IsFirst bit (suc j) (suc n) s h e = elim (Bool-cases (register 5 s.reads / bit % 2 == 0)) [
    | inr ready ↦
        let here : s.reads + 0 ≡ s.reads = omega arith in
        (
          0,
          record { set = rw here ready; clear = λ i g. absurd (omega arith) },
          rw (ready, here) refl,
        )
    | inl busy ↦
        let later : s.reads + suc j ≡ (s.reads + 1) + j = omega arith in
        let (k, first, result) =
          wait-IsFirst bit j n (record s { reads = s.reads + 1 }) (omega arith) (rw later at e) in
        let count : (s.reads + 1) + k + 1 ≡ s.reads + suc k + 1 = omega arith in
        (
          suc k,
          IsFirst-later bit s.reads k busy first,
          rw busy (result ∙ ap (λ r. ok (record s { reads = r })) count),
        )
  ]

  write_char-ready :
      (n c : ℕ) (s : Serial)
      → Answers register 0x20 n
      → (reads : ℕ) × (write_char register n c s ≡ ok (after s reads (c % 256 ∷ [])))
  unfolding write_char outb
  write_char-ready n c s answers =
      let a = answers s.reads in
      let (k, _, e) = wait-IsFirst 0x20 a.0 n s a.1 a.2 in (s.reads + k + 1, rw e)

  then_sent :
      (s : Serial) (k l : ℕ) (xs ys : List ℕ) → after (after s k xs) l ys ≡ after s l (xs ++ ys)
  then_sent s k l xs ys =
      ap (λ w. record s { reads = l; writes = w })
        (append_assoc s.writes (sends s.address xs) (sends s.address ys)
          ∙ ap (λ w. s.writes ++ w)
              (sym (map-append (λ b. record { port = s.address + 0; value = b }) xs ys)))

  put-ready :
      (n c : ℕ) (s : Serial)
      → Answers register 0x20 n
      → (reads : ℕ) × (put register n c s ≡ ok (after s reads (char_bytes c)))
  unfolding put char_bytes
  put-ready n c s answers = elim (Bool-cases (c == 10)) [
    | inr other ↦
        let w = write_char-ready n c s answers in
        (w.0, rw (other, put) (rw (other, char_bytes) w.1))
    | inl feed ↦
        let r = write_char-ready n 13 s answers in
        let w = write_char-ready n c (after s r.0 (13 ∷ [])) answers in
        (
          w.0,
          rw (feed, put)
              (rw (feed, char_bytes)
                (rw (r.1, ◌>>=◌) (w.1 ∙ ap ok (then_sent s r.0 w.0 (13 ∷ []) (c % 256 ∷ []))))),
        )
  ]

  -- Where the device never hangs, `write_str` returns, and has sent each character of the text in
  -- order, as one byte, and a carriage return before each line feed.
  pub write_str-Answers :
      (n : ℕ) (t : Text) (s : Serial)
      → Answers register 0x20 n
      → (reads : ℕ) × (write_str register n t s ≡ ok (after s reads (line_bytes t)))
  unfolding write_str
  write_str-Answers n [] s answers =
      (s.reads, ap (λ w. ok (record s { writes = w })) (sym (append-nil s.writes)))
  write_str-Answers n (c ∷ t) s answers =
      let w = put-ready n c s answers in
      let rest = write_str-Answers n t (after s w.0 (char_bytes c)) answers in
      (
        rest.0,
        rw (w.1, ◌>>=◌) (rest.1 ∙ ap ok (then_sent s w.0 rest.0 (char_bytes c) (line_bytes t))),
      )
