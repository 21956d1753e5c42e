-- ===== src/Base/Decimal.antt =====
-- The number parsers of Go's package strconv, in bases up to ten.
pub mod RoundTrip
use k0smos.Base.Tests.{ltb, leb, ◌==◌, if◌then◌else◌}
use k0smos.Base.Text.{Text}
use Prim.Native.Nat.{ℕ, zero, suc, ◌+◌, ◌-◌, ◌*◌, ◌^◌, ◌/◌, ◌%◌}
use mathlib.Core.Bool.{◌&&◌}
use mathlib.Core.Option.{Option, none, some}
use mathlib.Core.List.{[], ◌∷◌}

-- An integer: `pos n` is n, `negsuc n` is -(n + 1).
pub data ℤ : Type 0 where
  pos : ℕ → ℤ
  negsuc : ℕ → ℤ

unfoldable pub parse_digits : ℕ → ℕ → Text → Option ℕ
parse_digits base acc [] = some acc
parse_digits base acc (c ∷ s) =
    let rest = parse_digits base (acc * base + (c - b'0')) s in
    if leb b'0' c && ltb c (b'0' + base) then rest else none

abbrev pub within : ℕ → Option ℕ → Option ℕ
within bound none = none
within bound (some n) = if ltb n bound then some n else none

-- strconv.ParseUint(s, base, bits), without its error
unfoldable pub parse_uint : ℕ → ℕ → Text → Option ℕ
parse_uint base bits [] = none
parse_uint base bits (c ∷ s) = within (2 ^ bits) (parse_digits base 0 (c ∷ s))

abbrev pub negated : Option ℕ → Option ℤ
negated none = none
negated (some zero) = some (pos 0)
negated (some (suc n)) = if ltb n (2 ^ 63) then some (negsuc n) else none

abbrev pub positive : Option ℕ → Option ℤ
positive none = none
positive (some n) = some (pos n)

-- strconv.Atoi(s), for an int of 64 bits
unfoldable pub atoi : Text → Option ℤ
unfolding parse_uint
atoi [] = none
atoi (c ∷ s) =
    if c == b'-'
    then negated (parse_uint 10 64 s)
    else if c == b'+'
    then positive (parse_uint 10 63 s)
    else positive (parse_uint 10 63 (c ∷ s))

-- The digits of a number before what is there; fuel for as many rounds as the number has digits.
unfoldable pub digits_from : ℕ → ℕ → Text → Text
digits_from zero n acc = acc
digits_from (suc fuel) n acc =
    let here = (b'0' + n % 10) ∷ acc in
    let more = digits_from fuel (n / 10) here in if ltb n 10 then here else more

-- strconv.Itoa(n), and fmt's %d, of a number that is not negative
unfoldable pub decimal : ℕ → Text
unfolding digits_from
decimal n = digits_from (suc n) n []
