-- ===== src/Base/Decimal/RoundTrip.antt =====
-- Numbers printed and read.
use k0smos.Base.Tests.{ltb, Bool-cases}
use k0smos.Base.Lists.{All}
use k0smos.Base.Text.{Text}
use k0smos.Base.Decimal.{pos, parse_digits, parse_uint, atoi, digits_from, decimal}
use Prim.Native.Nat.{ℕ, zero, suc, ◌+◌, ◌*◌, ◌/◌, ◌%◌, ◌^◌, ◌≤◌, ◌<◌}
use mathlib.Core.Path.{◌≡◌, refl, ap, ◌∙◌, subst}
use mathlib.Core.Logic.{inl, inr}
use mathlib.Core.Option.{some}
use mathlib.Core.List.{[], ◌∷◌}
use native.Mathlib.Omega.{arith}

abbrev pub IsDigit : ℕ → Type 0
IsDigit c = (48 ≤ c) × (c ≤ 57)

parse-digit :
    (acc d : ℕ) (s : Text)
    → d < 10
    → parse_digits 10 acc ((48 + d) ∷ s) ≡ parse_digits 10 (acc * 10 + d) s
unfolding parse_digits
parse-digit acc d s h = ground arith

parse_digits-digits_from :
    (fuel n : ℕ) (s : Text)
    → n < fuel
    → parse_digits 10 0 (digits_from fuel n s) ≡ parse_digits 10 n s
unfolding digits_from
parse_digits-digits_from zero n s h = absurd (omega (arith, h))
parse_digits-digits_from (suc fuel) n s h = elim (Bool-cases (ltb n 10)) [
  | inl l ↦
      rw l (parse-digit 0 (n % 10) s (omega arith) ∙ ap (λ k. parse_digits 10 k s) (ground arith))
  | inr g ↦ rw g (
      parse_digits-digits_from fuel (n / 10) ((48 + n % 10) ∷ s) (ground arith)
      ∙ parse-digit (n / 10) (n % 10) s (omega arith)
      ∙ ap (λ k. parse_digits 10 k s) (omega arith))
]

digits_from-IsDigit : (fuel n : ℕ) (s : Text) → All IsDigit s → All IsDigit (digits_from fuel n s)
unfolding digits_from
digits_from-IsDigit zero n s h = h
digits_from-IsDigit (suc fuel) n s h = elim (Bool-cases (ltb n 10)) [
  | inl l ↦ rw l ((omega arith, omega arith), h)
  | inr g ↦
      rw g (digits_from-IsDigit fuel (n / 10) ((48 + n % 10) ∷ s) ((omega arith, omega arith), h))
]

pub decimal-IsDigit : (n : ℕ) → All IsDigit (decimal n)
unfolding decimal
decimal-IsDigit n = digits_from-IsDigit (suc n) n [] tt

-- There is a first digit.
pub digits_from-cons :
    (fuel n c : ℕ) (s : Text) → (d : ℕ) × (r : Text) × (digits_from fuel n (c ∷ s) ≡ d ∷ r)
unfolding digits_from
digits_from-cons zero n c s = (c, s, refl)
digits_from-cons (suc fuel) n c s = elim (Bool-cases (ltb n 10)) [
  | inl l ↦ rw l (48 + n % 10, c ∷ s, refl)
  | inr g ↦ rw g (digits_from-cons fuel (n / 10) (48 + n % 10) (c ∷ s))
]

pub decimal-cons : (n : ℕ) → (d : ℕ) × (r : Text) × (decimal n ≡ d ∷ r)
unfolding decimal digits_from
decimal-cons n = elim (Bool-cases (ltb n 10)) [
  | inl l ↦ rw l (48 + n % 10, [], refl)
  | inr g ↦ rw g (digits_from-cons n (n / 10) (48 + n % 10) [])
]

parse_digits-decimal : (n : ℕ) → parse_digits 10 0 (decimal n) ≡ some n
unfolding decimal parse_digits
parse_digits-decimal n = parse_digits-digits_from (suc n) n [] (omega arith)

atoi-digit :
    (d : ℕ) (r : Text) (n : ℕ)
    → IsDigit d
    → parse_digits 10 0 (d ∷ r) ≡ some n
    → n < 2 ^ 63
    → atoi (d ∷ r) ≡ some (pos n)
unfolding atoi parse_uint
atoi-digit d r n (lo, hi) e h = ground (arith, e)

-- Atoi reads back what Itoa writes.
pub atoi-decimal : (n : ℕ) → n < 2 ^ 63 → atoi (decimal n) ≡ some (pos n)
atoi-decimal n h =
    let (d, r, e) = decimal-cons n in
    rw e (
      atoi-digit d r n (subst (All IsDigit) e (decimal-IsDigit n)).0
        (rw e at (parse_digits-decimal n)) h)
