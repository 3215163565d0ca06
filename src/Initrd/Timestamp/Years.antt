-- ===== src/Initrd/Timestamp/Years.antt =====
-- The first loop: which years it passes, and where it stops.
use neur_os.Common.{
  ℕ, zero, suc, ◌+◌, ◌-◌, ◌*◌, ◌≤◌, ◌<◌, ◌≡◌, refl, ap, ◌∙◌, ok, panic, overflow, arith, ltb-true,
  ltb-false,
}
use neur_os.Initrd.Timestamp.{
  year_length, year_loop, seconds_per_year, seconds_per_leap_year, unix_epoch_year,
}
use neur_os.Initrd.Timestamp.Calendar.{years_before, year_length_cases}

-- The length of year 1970 + n.
abbrev pub len : ℕ → ℕ
len n = year_length (unix_epoch_year + n)

-- `year_seconds` as the loop comes to year 1970 + n: the length of the year before, or 0.
unfoldable pub previous : ℕ → ℕ
previous zero = 0
previous (suc n) = len n

pub previous_le : (n : ℕ) → previous n ≤ seconds_per_leap_year
unfolding previous
previous_le zero = omega arith
previous_le (suc n) = (year_length_cases (unix_epoch_year + n)).1

-- The seconds of the `k` years from 1970 + n on.
unfoldable pub span : ℕ → ℕ → ℕ
span n zero = 0
span n (suc k) = len n + span (suc n) k

pub years_before-span : (n k : ℕ) → years_before n + span n k ≡ years_before (n + k)
unfolding span years_before
years_before-span n zero = let e : n ≡ n + 0 = omega arith in omega (arith, ap years_before e)
years_before-span n (suc k) =
    let e : suc n + k ≡ n + suc k = omega arith in
    omega (arith, years_before-span (suc n) k, ap years_before e)

pub span_ge : (n k : ℕ) → k * seconds_per_year ≤ span n k
unfolding span
span_ge n zero = omega arith
span_ge n (suc k) = omega (arith, span_ge (suc n) k, year_length_cases (unix_epoch_year + n))

-- A round that neither ends the loop nor goes below 0.
year_loop-next :
    (fuel s y ys : ℕ)
    → ys < s
    → year_length y ≤ s
    → year_loop (suc fuel) s y ys ≡ year_loop fuel (s - year_length y) (y + 1) (year_length y)
unfolding year_loop
year_loop-next fuel s y ys h g = rw (ltb-true ys s h, ltb-false s (year_length y) g) refl

-- The condition under which the last of `k` rounds before year `n` is made with `o` seconds left.
abbrev pub Enters : ℕ → ℕ → ℕ → Type 0
Enters zero n o = Unit {0}
Enters (suc zero) n o = previous n < len n + o
Enters (suc (suc k)) n o = Enters (suc k) (suc n) o

pub Enters-suc : (k n o : ℕ) → previous (n + k) < len (n + k) + o → Enters (suc k) n o
Enters-suc zero n o h = let e : n + 0 ≡ n = omega arith in rw e at h
Enters-suc (suc k) n o h =
    Enters-suc k (suc n) o (let e : n + suc k ≡ suc n + k = omega arith in rw e at h)

Enters-previous : (k n o : ℕ) → Enters (suc k) n o → previous n < span n (suc k) + o
unfolding span
Enters-previous zero n o h = omega (arith, h)
Enters-previous (suc k) n o h = omega (
  arith,
  previous_le n,
  year_length_cases (unix_epoch_year + n),
  year_length_cases (unix_epoch_year + suc n),
)

Enters-tail : (k n o : ℕ) → Enters (suc k) n o → Enters k (suc n) o
Enters-tail zero n o h = tt
Enters-tail (suc k) n o h = h

-- The loop passes `k` years.
pub year_loop-span :
    (k n fuel o : ℕ)
    → Enters k n o
    → year_loop (k + fuel) (span n k + o) (unix_epoch_year + n) (previous n)
      ≡ year_loop fuel o (unix_epoch_year + (n + k)) (previous (n + k))
unfolding span previous
year_loop-span zero n fuel o h =
    let e : 0 + fuel ≡ fuel = omega arith in
    let d : 0 + o ≡ o = omega arith in let m : n + 0 ≡ n = omega arith in rw (e, d, m) refl
year_loop-span (suc k) n fuel o h =
    let e : suc k + fuel ≡ suc (k + fuel) = omega arith in
    let d : span n (suc k) + o - len n ≡ span (suc n) k + o = omega arith in
    let y : unix_epoch_year + n + 1 ≡ unix_epoch_year + suc n = omega arith in
    let m : n + suc k ≡ suc n + k = omega arith in
    rw (e, m)
      (year_loop-next (k + fuel) (span n (suc k) + o) (unix_epoch_year + n) (previous n)
          (Enters-previous k n o h) (omega arith)
        ∙ rw (d, y) (year_loop-span k (suc n) fuel o (Enters-tail k n o h)))

-- The loop ends at a year whose offset the year before could hold.
pub year_loop_stop : (fuel o y ys : ℕ) → o ≤ ys → year_loop (suc fuel) o y ys ≡ ok (y, o)
unfolding year_loop
year_loop_stop fuel o y ys h = rw (ltb-false ys o h) refl

-- Where the offset is more than the year before holds, but less than this year does, the
-- subtraction goes below 0.
pub year_loop_overflow :
    (fuel o y ys : ℕ) → ys < o → o < year_length y → year_loop (suc fuel) o y ys ≡ panic overflow
unfolding year_loop
year_loop_overflow fuel o y ys h g = rw (ltb-true ys o h, ltb-true o (year_length y) g) refl
