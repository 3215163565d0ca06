-- ===== src/Common/Words.antt =====
-- What the kernel uses of Rust's `str` to take a text apart.
use Prim.Native.Nat.{ℕ, ◌+◌, ◌*◌, ◌^◌}
use mathlib.Core.Bool.{Bool, true, false, ◌&&◌, ◌||◌}
use mathlib.Core.Option.{Option, none, some}
use mathlib.Core.List.{List, [], ◌∷◌, ◌++◌}
use neur_os.Common.Tests.{ltb, leb, ◌==◌, if◌then◌else◌}
use neur_os.Common.Strings.{Text}
use neur_os.Common.Decode.{option_then, to_digit}

-- `char::is_whitespace`
unfoldable pub is_whitespace : ℕ → Bool
is_whitespace c =
    (leb 9 c && leb c 13)
    || (c == 32)
    || (c == 0x85)
    || (c == 0xA0)
    || (c == 0x1680)
    || (leb 0x2000 c && leb c 0x200A)
    || (c == 0x2028)
    || (c == 0x2029)
    || (c == 0x202F)
    || (c == 0x205F)
    || (c == 0x3000)

-- `.split_once(char::is_whitespace)`, with what stands before the character so far
unfoldable pub split_once_from : Text → Text → Option (Text × Text)
split_once_from before [] = none
split_once_from before (c ∷ cs) = elim (is_whitespace c) [
  | true ↦ some (before, cs)
  | false ↦ split_once_from (before ++ (c ∷ [])) cs
]

unfoldable pub split_once : Text → Option (Text × Text)
unfolding split_once_from is_whitespace
split_once t = split_once_from [] t

-- A character in front of the first piece.
abbrev pub onto_first : ℕ → List Text → List Text
onto_first c [] = (c ∷ []) ∷ []
onto_first c (piece ∷ pieces) = (c ∷ piece) ∷ pieces

-- `.split_terminator(sep)`: an empty piece at the end is left out.
unfoldable pub split_terminator : ℕ → Text → List Text
split_terminator sep [] = []
split_terminator sep (c ∷ cs) =
    let pieces = split_terminator sep cs in if c == sep then [] ∷ pieces else onto_first c pieces

-- `trim_end`
unfoldable pub trim_end : Text → Text
unfolding is_whitespace
trim_end [] = []
trim_end (c ∷ cs) = elim (trim_end cs) [
  | [] ↦ if is_whitespace c then [] else c ∷ []
  | d ∷ ds ↦ c ∷ d ∷ ds
]

-- `.split_whitespace()`: a character goes to the word that the next one belongs to, if it does.
unfoldable pub split_whitespace : Text → List Text
split_whitespace [] = []
split_whitespace (c ∷ []) = if is_whitespace c then [] else (c ∷ []) ∷ []
split_whitespace (c ∷ d ∷ cs) =
    let words = split_whitespace (d ∷ cs) in
    if is_whitespace c
    then words
    else if is_whitespace d
    then (c ∷ []) ∷ words
    else onto_first c words

-- The value of a string of digits, which must fit a `usize`.
unfoldable pub usize_value : ℕ → Text → Option ℕ
usize_value acc [] = some acc
usize_value acc (c ∷ cs) = option_then (to_digit 10 c) (λ d.
    let rest = usize_value (acc * 10 + d) cs in if ltb (acc * 10 + d) (2 ^ 64) then rest else none)

-- `parse` of a `usize`
unfoldable pub parse_usize : Text → Option ℕ
unfolding usize_value to_digit
parse_usize [] = none
parse_usize (c ∷ []) = usize_value 0 (c ∷ [])
parse_usize (c ∷ d ∷ cs) = if c == 43 then usize_value 0 (d ∷ cs) else usize_value 0 (c ∷ d ∷ cs)
