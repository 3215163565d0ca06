-- ===== src/Common/Decode.antt =====
-- What the kernel uses of Rust's `str` and integer parsing. A `&str` is the list of its characters.
use Prim.Native.Nat.{ℕ, zero, suc, ◌+◌, ◌-◌, ◌*◌, ◌%◌, ◌^◌, ◌<◌}
use mathlib.Core.Path.{◌≡◌, refl}
use mathlib.Core.Bool.{true, false, ◌&&◌}
use mathlib.Core.Option.{Option, none, some}
use mathlib.Core.Option
use mathlib.Core.List.{List, [], ◌∷◌}
use neur_os.Common.Tests.{ltb, leb, ◌==◌, if◌then◌else◌, ltb-true}
use neur_os.Common.Lists.{All}

-- What the first byte of a UTF-8 sequence says: how many bytes follow, the range of the next one,
-- and the bits of the character so far.
pub record Lead : Type 0 where
  pub following : ℕ
  pub low : ℕ
  pub high : ℕ
  pub bits : ℕ

abbrev pub lead_of : ℕ → ℕ → ℕ → ℕ → Lead
lead_of n lo hi b = record { following = n; low = lo; high = hi; bits = b }

unfoldable pub lead : ℕ → Option Lead
lead b =
    if ltb b 0x80
    then some (lead_of 0 0 0 b)
    else if ltb b 0xC2
    then none
    else if ltb b 0xE0
    then some (lead_of 1 0x80 0xBF (b % 32))
    else if b == 0xE0
    then some (lead_of 2 0xA0 0xBF (b % 16))
    else if b == 0xED
    then some (lead_of 2 0x80 0x9F (b % 16))
    else if ltb b 0xF0
    then some (lead_of 2 0x80 0xBF (b % 16))
    else if b == 0xF0
    then some (lead_of 3 0x90 0xBF (b % 8))
    else if ltb b 0xF4
    then some (lead_of 3 0x80 0xBF (b % 8))
    else if b == 0xF4
    then some (lead_of 3 0x80 0x8F (b % 8))
    else none

-- The decoder, with `need` bytes of the current character to come.
unfoldable pub utf8 : (need low high bits : ℕ) → List ℕ → Option (List ℕ)
utf8 zero lo hi bits [] = some []
utf8 (suc k) lo hi bits [] = none
utf8 zero lo hi bits (b ∷ bs) = elim (lead b) [
  | none ↦ none
  | some l ↦ elim l.following [
    | zero ↦ Option.map (λ cs. l.bits ∷ cs) (utf8 0 0 0 0 bs)
    | suc k ↦ utf8 (suc k) l.low l.high l.bits bs
  ]
]
utf8 (suc k) lo hi bits (b ∷ bs) =
    let bits' = bits * 64 + b % 64 in
    elim (leb lo b && leb b hi) [
      | false ↦ none
      | true ↦ elim k [
        | zero ↦ Option.map (λ cs. bits' ∷ cs) (utf8 0 0 0 0 bs)
        | suc j ↦ utf8 (suc j) 0x80 0xBF bits' bs
      ]
    ]

-- `core::str::from_utf8`
unfoldable pub from_utf8 : List ℕ → Option (List ℕ)
unfolding utf8 lead
from_utf8 bs = utf8 0 0 0 0 bs

abbrev pub IsAscii : List ℕ → Type 0
IsAscii = All (λ b. b < 128)

lead_ascii : (b : ℕ) → b < 128 → lead b ≡ some (lead_of 0 0 0 b)
unfolding lead
lead_ascii b h = rw (ltb-true b 128 h) refl

utf8_ascii : (bs : List ℕ) → IsAscii bs → utf8 0 0 0 0 bs ≡ some bs
unfolding utf8
utf8_ascii [] h = refl
utf8_ascii (b ∷ bs) h = rw (lead_ascii b h.0, utf8, utf8_ascii bs h.1) refl

-- ASCII is its own encoding.
pub from_utf8_ascii : (bs : List ℕ) → IsAscii bs → from_utf8 bs ≡ some bs
unfolding from_utf8
from_utf8_ascii bs h = utf8_ascii bs h

-- `str::trim_end_matches('\0')`
unfoldable pub trim_end_nul : List ℕ → List ℕ
trim_end_nul [] = []
trim_end_nul (c ∷ cs) = elim (trim_end_nul cs) [
  | [] ↦ (if c == 0 then [] else c ∷ [])
  | d ∷ ds ↦ c ∷ d ∷ ds
]

-- `char::to_digit`, for a radix of at most ten
unfoldable pub to_digit : ℕ → ℕ → Option ℕ
to_digit radix c = if leb 48 c && ltb c (48 + radix) then some (c - 48) else none

-- A result that must fit a `u32`.
unfoldable pub checked_u32 : ℕ → Option ℕ
checked_u32 n = if ltb n (2 ^ 32) then some n else none

abbrev pub option_then {ℓ κ} : {A : Type ℓ} {B : Type κ} → Option A → (A → Option B) → Option B
option_then none f = none
option_then (some a) f = f a

-- One more digit; the product and the sum are checked against overflow.
unfoldable pub next_digit : ℕ → ℕ → ℕ → Option ℕ
unfolding to_digit checked_u32
next_digit radix acc c = option_then (to_digit radix c) (λ d. checked_u32 (acc * radix + d))

-- The value of a string of digits.
unfoldable pub digits_value : ℕ → ℕ → List ℕ → Option ℕ
digits_value radix acc [] = some acc
digits_value radix acc (c ∷ cs) =
    option_then (next_digit radix acc c) (λ n. digits_value radix n cs)

-- `u32::from_str_radix`: a leading `+` is allowed, no digits at all are not.
unfoldable pub from_str_radix : ℕ → List ℕ → Option ℕ
unfolding digits_value next_digit
from_str_radix radix [] = none
from_str_radix radix (c ∷ []) = digits_value radix 0 (c ∷ [])
from_str_radix radix (c ∷ d ∷ cs) =
    if c == 43 then digits_value radix 0 (d ∷ cs) else digits_value radix 0 (c ∷ d ∷ cs)
