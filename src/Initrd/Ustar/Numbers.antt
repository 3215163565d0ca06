-- ===== src/Initrd/Ustar/Numbers.antt =====
-- Printing a number with a given width and reading it back.
use native.Mathlib.Nat.{div-add-mod', mod-lt, div-lt_iff_lt-mul, pow-suc, pow-zero, le_trans}
use neur_os.Common.{
  ℕ, zero, suc, ◌+◌, ◌-◌, ◌*◌, ◌/◌, ◌%◌, ◌^◌, ◌<◌, ◌≤◌, ◌≡◌, refl, ap, ◌∙◌, Text, [], ◌∷◌, ◌++◌,
  length, length-append, some, digits_value, next_digit, Option-cases, inl, inr, from_str_radix,
  arith, ltb-true, leb-true, false, ◌==◌, All, All-append,
}
use neur_os.Initrd.Ustar.{digits}

pub length-digits : (radix width n : ℕ) → length (digits radix width n) ≡ width
unfolding digits
length-digits radix zero n = refl
length-digits radix (suc width) n = omega (
  arith,
  length-digits radix width (n / radix),
  length-append (digits radix width (n / radix)) ((48 + n % radix) ∷ []),
)

-- The characters of a number are digits.
abbrev pub IsDigit : ℕ → Type 0
IsDigit c = (48 ≤ c) × (c < 58)

pub digits-IsDigit :
    (radix width n : ℕ) → 0 < radix → radix ≤ 10 → All IsDigit (digits radix width n)
unfolding digits
digits-IsDigit radix zero n h g = tt
digits-IsDigit radix (suc width) n h g =
    All-append (digits radix width (n / radix)) ((48 + n % radix) ∷ []) IsDigit
      (digits-IsDigit radix width (n / radix) h g, (grind arith, tt))

next_digit_lem :
    (radix acc d : ℕ)
    → d < radix
    → acc * radix + d < 2 ^ 32
    → next_digit radix acc (48 + d) ≡ some (acc * radix + d)
unfolding next_digit
next_digit_lem radix acc d h g =
    let e : 48 + d - 48 ≡ d = omega arith in
    rw
      (
        leb-true 48 (48 + d) (omega arith),
        ltb-true (48 + d) (48 + radix) (omega arith),
        e,
        ltb-true (acc * radix + d) (2 ^ 32) g,
      )
      refl

digits_value-append :
    (radix acc m : ℕ) (xs ys : Text)
    → digits_value radix acc xs ≡ some m
    → digits_value radix acc (xs ++ ys) ≡ digits_value radix m ys
unfolding digits_value
digits_value-append radix acc m [] ys h =
    let e : acc ≡ m = ground arith in ap (λ a. digits_value radix a ys) e
digits_value-append radix acc m (x ∷ xs) ys h = elim (Option-cases (next_digit radix acc x)) [
  | inl e ↦ cc (rw e at h)
  | inr (n, e) ↦ rw e (digits_value-append radix n m xs ys (rw e at h))
]

-- The digits of a number below `radix ^ width` are read back as that number.
digits_value-digits :
    (radix width n : ℕ)
    → 0 < radix
    → n < radix ^ width
    → n < 2 ^ 32
    → digits_value radix 0 (digits radix width n) ≡ some n
unfolding digits digits_value
digits_value-digits radix zero n p h g = let e : 0 ≡ n = omega (arith, pow-zero radix) in ap some e
digits_value-digits radix (suc width) n p h g =
    let q = div-add-mod' n radix in
    let r = mod-lt n p in
    digits_value-append radix 0 (n / radix) (digits radix width (n / radix)) _ (
      digits_value-digits radix width (n / radix) p
        ((div-lt_iff_lt-mul p).1 (rw (pow-suc radix width) at h)) (le_trans (grind (arith, q)) g))
    ∙ rw (next_digit_lem radix (n / radix) (n % radix) r (omega (arith, q)), q) refl

-- A number that fits its field is read back as itself.
pub from_str_radix-digits :
    (radix width n : ℕ)
    → 0 < radix
    → radix ≤ 10
    → n < radix ^ suc width
    → n < 2 ^ 32
    → from_str_radix radix (digits radix (suc width) n) ≡ some n
unfolding from_str_radix
from_str_radix-digits radix width n p t h g =
    go (digits radix (suc width) n) (digits-IsDigit radix (suc width) n p t)
      (length-digits radix (suc width) n)
    ∙ digits_value-digits radix (suc width) n p h g
  where
    go :
        (s : Text)
        → All IsDigit s
        → length s ≡ suc width
        → from_str_radix radix s ≡ digits_value radix 0 s
    go [] d l = absurd (omega arith)
    go (c ∷ []) d l = refl
    go (c ∷ e ∷ s) d l = let ne : (c == 43) ≡ false = ground (arith, d.0) in rw ne refl
