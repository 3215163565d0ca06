-- ===== src/Initrd/Display/Modes.antt =====
-- The permissions that are printed for a mode.
use neur_os.Common.{
  ℕ, zero, suc, ◌+◌, ◌-◌, ◌/◌, ◌%◌, ◌<◌, ◌≤◌, ◌≡◌, refl, ap, ◌∙◌, Text, List, [], ◌∷◌, ◌++◌,
  list_eq, list_eq→eq, ok, panic, out_of_bounds, true, arith, some, to_digit, decimal_from, show,
  ltb-true, ltb-false, leb-true, passes_below, passes_below→test, ◌==◌, if◌then◌else◌, le-or-gt,
  inl, inr, length,
}
use neur_os.Initrd.Block.{Header}
use neur_os.Initrd.Display.{parse_permission, digits_of, permissions}

-- The three letters for the three binary digits of a number below 8.
unfoldable pub letters : ℕ → Text
letters d =
    (if d / 4 % 2 == 1 then b'r' else b'-')
    ∷ (if d / 2 % 2 == 1 then b'w' else b'-')
    ∷ (if d % 2 == 1 then b'x' else b'-')
    ∷ []

letters_table : passes_below (λ d. list_eq (parse_permission d) (letters d)) 10 ≡ true
unfolding passes_below parse_permission letters
letters_table = refl

parse_permission-letters : (d : ℕ) → d < 10 → parse_permission d ≡ letters d
parse_permission-letters d h =
    list_eq→eq _ _
      (passes_below→test (λ d. list_eq (parse_permission d) (letters d)) 10 d h letters_table)

decimal_last :
    (fuel n : ℕ) (acc : Text) → n < fuel → n < 10 → decimal_from fuel n acc ≡ (48 + n) ∷ acc
unfolding decimal_from
decimal_last zero n acc h g = absurd (omega arith)
decimal_last (suc fuel) n acc h g = rw (ltb-true n 10 g) refl

decimal_more :
    (fuel n : ℕ) (acc : Text)
    → n < fuel
    → 10 ≤ n
    → decimal_from fuel n acc ≡ decimal_from (fuel - 1) (n / 10) ((48 + n % 10) ∷ acc)
unfolding decimal_from
decimal_more zero n acc h g = absurd (omega arith)
decimal_more (suc fuel) n acc h g =
    let e : suc fuel - 1 ≡ fuel = omega arith in rw (ltb-false n 10 g, e) refl

-- Numbers of one to four digits.
show_1 : (n : ℕ) → n < 10 → show n ≡ (48 + n) ∷ []
unfolding show
show_1 n h = decimal_last (suc n) n [] (omega arith) h

show_2 : (n : ℕ) → 10 ≤ n → n < 100 → show n ≡ (48 + n / 10) ∷ (48 + n % 10) ∷ []
unfolding show
show_2 n h g =
    decimal_more (suc n) n [] (omega arith) h
    ∙ decimal_last (suc n - 1) (n / 10) _ (omega arith) (omega arith)

show_3 :
    (n : ℕ)
    → 100 ≤ n
    → n < 1000
    → show n ≡ (48 + n / 10 / 10) ∷ (48 + n / 10 % 10) ∷ (48 + n % 10) ∷ []
unfolding show
show_3 n h g =
    decimal_more (suc n) n [] (omega arith) (omega arith)
    ∙ decimal_more (suc n - 1) (n / 10) _ (omega arith) (omega arith)
    ∙ decimal_last (suc n - 1 - 1) (n / 10 / 10) _ (omega arith) (omega arith)

show_4 :
    (n : ℕ)
    → 1000 ≤ n
    → n < 10000
    → show n
      ≡ (48 + n / 10 / 10 / 10) ∷ (48 + n / 10 / 10 % 10) ∷ (48 + n / 10 % 10) ∷ (48 + n % 10) ∷ []
unfolding show
show_4 n h g =
    decimal_more (suc n) n [] (omega arith) (omega arith)
    ∙ decimal_more (suc n - 1) (n / 10) _ (omega arith) (omega arith)
    ∙ decimal_more (suc n - 1 - 1) (n / 10 / 10) _ (omega arith) (omega arith)
    ∙ decimal_last (suc n - 1 - 1 - 1) (n / 10 / 10 / 10) _ (omega arith) (omega arith)

to_digit_lem : (d : ℕ) → d < 10 → to_digit 10 (48 + d) ≡ some d
unfolding to_digit
to_digit_lem d h =
    let e : 48 + d - 48 ≡ d = omega arith in
    rw (leb-true 48 (48 + d) (omega arith), ltb-true (48 + d) (48 + 10) (omega arith), e) refl

-- The text for the letter of a file's type and three digits.
abbrev pub shown : Header → ℕ → ℕ → ℕ → Text
shown h a b c = (if h.flag == 5 then b'd' else b'-') ∷ (letters a ++ (letters b ++ letters c))

digits_of-cons :
    (d : ℕ) (cs : Text) (ds : List ℕ)
    → d < 10
    → digits_of cs ≡ ok ds
    → digits_of ((48 + d) ∷ cs) ≡ ok (d ∷ ds)
unfolding digits_of
digits_of-cons d cs ds h e = rw (to_digit_lem d h, e) refl

digits_of-nil : digits_of [] ≡ ok []
unfolding digits_of
digits_of-nil = refl

permissions_of :
    (h : Header) (a b c : ℕ) (ds : List ℕ)
    → digits_of (show h.mode) ≡ ok (a ∷ b ∷ c ∷ ds)
    → a < 10
    → b < 10
    → c < 10
    → permissions h ≡ ok (shown h a b c)
unfolding permissions
permissions_of h a b c ds e ha hb hc =
    rw
      (
        e,
        parse_permission-letters a ha,
        parse_permission-letters b hb,
        parse_permission-letters c hc,
      )
      refl

-- A mode of three digits is printed as the three groups of letters for its digits, behind the
-- letter of the file's type.
pub permissions-three :
    (h : Header)
    → 100 ≤ h.mode
    → h.mode < 1000
    → permissions h ≡ ok (shown h (h.mode / 100) (h.mode / 10 % 10) (h.mode % 10))
permissions-three h lo hi =
    let e : h.mode / 10 / 10 ≡ h.mode / 100 = omega arith in
    let digits = digits_of-cons (h.mode / 10 / 10) _ _ (omega arith) (
      digits_of-cons (h.mode / 10 % 10) _ _ (omega arith)
        (digits_of-cons (h.mode % 10) _ _ (omega arith) digits_of-nil)) in
    rw (← e) (
      permissions_of h (h.mode / 10 / 10) (h.mode / 10 % 10) (h.mode % 10) []
        (ap digits_of (show_3 h.mode lo hi) ∙ digits) (omega arith) (omega arith) (omega arith))

-- A mode of four digits, of which the first holds the special bits, is printed by its first three
-- digits: the permissions of the owner, the group and the others stand one place too far on.
pub permissions-four :
    (h : Header)
    → 1000 ≤ h.mode
    → h.mode < 10000
    → permissions h ≡ ok (shown h (h.mode / 1000) (h.mode / 100 % 10) (h.mode / 10 % 10))
permissions-four h lo hi =
    let e : h.mode / 10 / 10 / 10 ≡ h.mode / 1000 = omega arith in
    let g : h.mode / 10 / 10 % 10 ≡ h.mode / 100 % 10 = omega arith in
    let digits = digits_of-cons (h.mode / 10 / 10 / 10) _ _ (omega arith) (
      digits_of-cons (h.mode / 10 / 10 % 10) _ _ (omega arith) (
        digits_of-cons (h.mode / 10 % 10) _ _ (omega arith)
          (digits_of-cons (h.mode % 10) _ _ (omega arith) digits_of-nil))) in
    rw (← e, ← g)
      (permissions_of h (h.mode / 10 / 10 / 10) (h.mode / 10 / 10 % 10) (h.mode / 10 % 10) _
        (ap digits_of (show_4 h.mode lo hi) ∙ digits) (omega arith) (omega arith) (omega arith))

permissions_short :
    (h : Header) (ds : List ℕ)
    → digits_of (show h.mode) ≡ ok ds
    → length ds ≤ 2
    → permissions h ≡ panic out_of_bounds
unfolding permissions
permissions_short h [] e n = rw e refl
permissions_short h (a ∷ []) e n = rw e refl
permissions_short h (a ∷ b ∷ []) e n = rw e refl
permissions_short h (a ∷ b ∷ c ∷ ds) e n = absurd (omega arith)

-- With a mode of fewer than three digits the printing panics at an index out of bounds. So it does
-- where the field is no number, since that is read as 0, and for a file that gives nothing to its
-- owner.
pub permissions-panics : (h : Header) → h.mode < 100 → permissions h ≡ panic out_of_bounds
permissions-panics h hi = elim (le-or-gt 10 h.mode) [
  | inl lo ↦
      let digits =
        digits_of-cons (h.mode / 10) _ _ (omega arith)
          (digits_of-cons (h.mode % 10) _ _ (omega arith) digits_of-nil) in
      permissions_short h _ (ap digits_of (show_2 h.mode lo hi) ∙ digits) (omega arith)
  | inr lo ↦
      permissions_short h _
        (ap digits_of (show_1 h.mode lo) ∙ digits_of-cons h.mode _ _ lo digits_of-nil) (omega arith)
]
