-- ===== src/Common/Strings.antt =====
-- Text as the list of its characters' codes, and what `format!` writes for a number.
use Prim.Native.Nat.{ℕ, zero, suc, ◌+◌, ◌/◌, ◌%◌}
use Prim.Native.Char.{code}
use Prim.Native.String.{String}
use mathlib.Core.List.{List, [], ◌∷◌}
use neur_os.Common.Tests.{ltb, if◌then◌else◌}

abbrev pub Text : Type 0
Text = List ℕ

-- A literal of the source.
abbrev pub codes : String → Text
codes String.[] = []
codes (String.◌∷◌ c s) = code c ∷ codes s

-- `{}` of an unsigned number: its digits, the most significant first.
unfoldable pub decimal_from : ℕ → ℕ → Text → Text
decimal_from zero n acc = acc
decimal_from (suc fuel) n acc =
    let more = decimal_from fuel (n / 10) ((48 + n % 10) ∷ acc) in
    if ltb n 10 then (48 + n) ∷ acc else more

-- Each round divides by ten, so `n + 1` rounds are enough.
unfoldable pub show : ℕ → Text
unfolding decimal_from
show n = decimal_from (suc n) n []

-- `{:x}`
hex_digit : ℕ → ℕ
hex_digit d = if ltb d 10 then 48 + d else 87 + d

unfoldable pub hex_from : ℕ → ℕ → Text → Text
unfolding hex_digit
hex_from zero n acc = acc
hex_from (suc fuel) n acc =
    let more = hex_from fuel (n / 16) (hex_digit (n % 16) ∷ acc) in
    if ltb n 16 then hex_digit n ∷ acc else more

unfoldable pub show_hex : ℕ → Text
unfolding hex_from
show_hex n = hex_from (suc n) n []

-- `{:02}`
unfoldable pub show_02 : ℕ → Text
unfolding show
show_02 n = if ltb n 10 then 48 ∷ show n else show n
