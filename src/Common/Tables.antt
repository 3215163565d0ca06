-- ===== src/Common/Tables.antt =====
-- Claims about each of the first numbers, settled by trying them one after another.
use Prim.Native.Nat.{ℕ, zero, suc, ◌<◌}
use mathlib.Core.Path.{◌≡◌}
use mathlib.Core.Bool.{Bool, true, false}
use native.Mathlib.Omega.{arith}
use neur_os.Common.Tests.{if◌then◌else◌}

module _ (test : ℕ → Bool) where
  unfoldable pub passes_below : ℕ → Bool
  passes_below zero = true
  passes_below (suc bound) = if test bound then passes_below bound else false

  pub passes_below→test : (bound n : ℕ) → n < bound → passes_below bound ≡ true → test n ≡ true
  unfolding passes_below
  passes_below→test zero n small passed = absurd (omega arith)
  passes_below→test (suc bound) n small passed = ground (arith, passes_below→test bound n)

abbrev pub bool_eq : Bool → Bool → Bool
bool_eq true b = b
bool_eq false true = false
bool_eq false false = true

pub bool_eq→eq : (a b : Bool) → bool_eq a b ≡ true → a ≡ b
bool_eq→eq a b h = ground arith
