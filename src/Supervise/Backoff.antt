-- ===== src/Supervise/Backoff.antt =====
-- The pauses between restarts.
use k0smos.Base.{ℕ, zero, suc, ◌*◌, ◌^◌, ◌≡◌, ap, ◌∙◌, min, arith}
use native.Mathlib.Numerals.{unary_clauses}
use k0smos.Supervise.{next_backoff, first_backoff}

-- The pause before the restart number n, from 0.
abbrev pub backoff : ℕ → ℕ → ℕ
backoff max zero = first_backoff
backoff max (suc n) = next_backoff max (backoff max n)

next-min : (max x : ℕ) → next_backoff max (min x max) ≡ min (2 * x) max
unfolding next_backoff
next-min max x = ground arith

double : (n : ℕ) → 2 * (first_backoff * 2 ^ n) ≡ first_backoff * 2 ^ suc n
double n = simp unary_clauses (omega arith)

-- From the second pause on, a pause is 200 milliseconds times a power of two, or the longest that
-- is allowed, whichever is less.
pub backoff_closed : (max n : ℕ) → backoff max (suc n) ≡ min (first_backoff * 2 ^ suc n) max
unfolding next_backoff
backoff_closed max zero = ground arith
backoff_closed max (suc n) =
    ap (next_backoff max) (backoff_closed max n)
    ∙ next-min max (first_backoff * 2 ^ suc n)
    ∙ ap (λ x. min x max) (double (suc n))
