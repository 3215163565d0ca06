-- ===== src/Shell/Editing.antt =====
-- kernel/src/shell.rs: the line that is typed, and corrected, before it is run.
use neur_os.Common.{
  ◌≡◌, refl, ap, sym, ◌∙◌, ℕ, zero, suc, Text, List, [], ◌∷◌, ◌++◌, length, replicate, All, false,
  ◌==◌, Outcome, ok, panic, ◌>>=◌, append-nil, append_assoc,
}
use neur_os.Shell.{Shell, System, interpret, session, enter, backspace, pop}

-- A character that is neither the end of a line nor a backspace.
abbrev pub Plain : ℕ → Type 0
Plain c = ((c == 13) ≡ false) × ((c == 8) ≡ false)

-- The text stands in front of what a computation writes.
abbrev pub prefixed : Text → Outcome (Shell × System × Text) → Outcome (Shell × System × Text)
prefixed out m = m >>= λ r. ok (r.0, r.1, out ++ r.2)

prefixed-prefixed :
    (a b : Text) (m : Outcome (Shell × System × Text))
    → prefixed a (prefixed b m) ≡ prefixed (a ++ b) m
prefixed-prefixed a b (ok r) = ap (λ t. ok (r.0, r.1, t)) (sym (append_assoc a b r.2))
prefixed-prefixed a b (panic e) = refl

prefixed-nil : (m : Outcome (Shell × System × Text)) → prefixed [] m ≡ m
prefixed-nil (ok r) = refl
prefixed-nil (panic e) = refl

interpret-Plain :
    (c : ℕ) (s : Shell) (y : System)
    → Plain c
    → interpret c s y ≡ ok (record s { buffer = s.buffer ++ (c ∷ []) }, y, c ∷ [])
unfolding interpret
interpret-Plain c s y plain = rw (plain.0, interpret) (rw (plain.1, interpret))

typed-then :
    (cs ks : List ℕ) (s : Shell) (y : System)
    → All Plain cs
    → session (cs ++ ks) s y ≡ prefixed cs (session ks (record s { buffer = s.buffer ++ cs }) y)
unfolding session
typed-then [] ks s y plain =
    sym (prefixed-nil (session ks s y))
    ∙ ap (λ b. prefixed [] (session ks (record s { buffer = b }) y)) (sym (append-nil s.buffer))
typed-then (c ∷ cs) ks s y plain =
    rw
      (
        interpret-Plain c s y plain.0,
        typed-then cs ks (record s { buffer = s.buffer ++ (c ∷ []) }) y plain.1,
        append_assoc s.buffer (c ∷ []) cs,
      )
      (prefixed-prefixed (c ∷ []) cs (session ks (record s { buffer = s.buffer ++ (c ∷ cs) }) y))

-- What `n` backspaces write.
abbrev pub rubout : ℕ → Text
rubout zero = []
rubout (suc n) = rubout n ++ (8 ∷ 32 ∷ 8 ∷ [])

pop-snoc : (b : List ℕ) (d : ℕ) → pop (b ++ (d ∷ [])) ≡ b
pop-snoc [] d = refl
pop-snoc (c ∷ []) d = refl
pop-snoc (c ∷ e ∷ b) d = ap (λ l. c ∷ l) (pop-snoc (e ∷ b) d)

backspace-snoc :
    (b : List ℕ) (d : ℕ) (s : Shell)
    → backspace (record s { buffer = b ++ (d ∷ []) }) ≡ (record s { buffer = b }, 8 ∷ 32 ∷ 8 ∷ [])
backspace-snoc [] d s = refl
backspace-snoc (c ∷ b) d s =
    ap (λ l. (record s { buffer = l }, 8 ∷ 32 ∷ 8 ∷ [])) (pop-snoc (c ∷ b) d)

replicate-shift : (n : ℕ) (ks : List ℕ) → 8 ∷ (replicate n 8 ++ ks) ≡ replicate n 8 ++ (8 ∷ ks)
replicate-shift zero ks = refl
replicate-shift (suc n) ks = ap (λ l. 8 ∷ l) (replicate-shift n ks)

one_back :
    (b : List ℕ) (d : ℕ) (ks : List ℕ) (s : Shell) (y : System)
    → session (8 ∷ ks) (record s { buffer = b ++ (d ∷ []) }) y
      ≡ prefixed (8 ∷ 32 ∷ 8 ∷ []) (session ks (record s { buffer = b }) y)
unfolding session interpret
one_back b d ks s y = rw (backspace-snoc b d s)

rubbed-then :
    (ds b ks : List ℕ) (s : Shell) (y : System)
    → session (replicate (length ds) 8 ++ ks) (record s { buffer = b ++ ds }) y
      ≡ prefixed (rubout (length ds)) (session ks (record s { buffer = b }) y)
rubbed-then [] b ks s y =
    ap (λ l. session ks (record s { buffer = l }) y) (append-nil b)
    ∙ sym (prefixed-nil (session ks (record s { buffer = b }) y))
rubbed-then (d ∷ ds) b ks s y =
    rw
      (
        replicate-shift (length ds) ks,
        sym (append_assoc b (d ∷ []) ds),
        rubbed-then ds (b ++ (d ∷ [])) (8 ∷ ks) s y,
      )
      (ap (prefixed (rubout (length ds))) (one_back b d ks s y)
        ∙ prefixed-prefixed (rubout (length ds)) (8 ∷ 32 ∷ 8 ∷ [])
            (session ks (record s { buffer = b }) y))

nothing_after : (m : Outcome (Shell × System × Text)) → (m >>= λ r. ok (r.0, r.1, r.2 ++ [])) ≡ m
nothing_after (ok r) = ap (λ t. ok (r.0, r.1, t)) (append-nil r.2)
nothing_after (panic e) = refl

session-enter : (s : Shell) (y : System) → session (13 ∷ []) s y ≡ enter s y
unfolding session interpret
session-enter s y = nothing_after (enter s y)

-- A line that is typed with a false end, corrected with as many backspaces, and entered is run as
-- the line without that end. All that was typed is echoed, and each backspace blanks one character.
pub session-corrected :
    (cs ds : List ℕ) (s : Shell) (y : System)
    → s.buffer ≡ []
    → All Plain cs
    → All Plain ds
    → session (cs ++ (ds ++ (replicate (length ds) 8 ++ (13 ∷ [])))) s y
      ≡ prefixed (cs ++ (ds ++ rubout (length ds))) (enter (record s { buffer = cs }) y)
session-corrected cs ds s y empty plain plain' =
    let back : List ℕ = replicate (length ds) 8 ++ (13 ∷ []) in
    rw
      (
        typed-then cs (ds ++ back) s y plain,
        empty,
        typed-then ds back (record s { buffer = cs }) y plain',
        rubbed-then ds cs (13 ∷ []) s y,
        session-enter (record s { buffer = cs }) y,
      )
      (ap (prefixed cs)
          (prefixed-prefixed ds (rubout (length ds)) (enter (record s { buffer = cs }) y))
        ∙ prefixed-prefixed cs (ds ++ rubout (length ds)) (enter (record s { buffer = cs }) y))
