-- ===== src/Supervise/Restarts.antt =====
-- When the supervisor returns, and what it has done by then.
use mathlib.Core.Path.{subst}
use k0smos.Base.{
  ℕ, zero, suc, ◌+◌, ◌<◌, ◌≡◌, refl, Bool, true, false, ◌||◌, some, List, [], ◌∷◌, ◌++◌,
  if◌then◌else◌, arith, Bool-cases, inl, inr,
}
use k0smos.Supervise.{Op, start, on_exit, sleep, max_backoff, after_start, run_from, run}
use k0smos.Supervise.Backoff.{backoff}

-- The calls of the first n rounds.
abbrev pub rounds_done : Bool → ℕ → ℕ → List Op
rounds_done reports max zero = []
rounds_done reports max (suc n) =
    (if reports
      then rounds_done reports max n ++ start ∷ on_exit ∷ []
      else rounds_done reports max n ++ start ∷ [])
    ++ sleep (backoff max n) ∷ []

module _ (cancelled : List Op → Bool) (reports : Bool) (max : ℕ) where
  abbrev pub at_start : ℕ → List Op
  at_start n = rounds_done reports max n

  abbrev pub at_exit : ℕ → List Op
  at_exit n = after_start cancelled reports max (at_start n)

  -- Round n is not cancelled, neither before the child starts nor when it has ended.
  abbrev pub Runs : ℕ → Type 0
  Runs n = (cancelled (at_start n) ≡ false) × (cancelled (at_exit n) ≡ false)

  abbrev pub stop : ℕ → List Op
  stop n = if cancelled (at_start n) then at_start n else at_exit n

  stop_here :
      (n f : ℕ)
      → (cancelled (at_start n) || cancelled (at_exit n)) ≡ true
      → run_from cancelled reports max (suc f) (backoff max n) (at_start n) ≡ some (stop n)
  unfolding run_from
  stop_here n f c = elim (Bool-cases (cancelled (at_start n))) [
    | inl s ↦ rw s refl
    | inr s ↦ rw (s, rw s at c) refl
  ]

  run_from-stop :
      (n d i f : ℕ)
      → i + d ≡ n
      → d < f
      → ((j : ℕ) → j < n → Runs j)
      → (cancelled (at_start n) || cancelled (at_exit n)) ≡ true
      → run_from cancelled reports max f (backoff max i) (at_start i) ≡ some (stop n)
  unfolding run_from
  run_from-stop n zero i zero e l h c = absurd (omega (arith, l))
  run_from-stop n (suc d) i zero e l h c = absurd (omega (arith, l))
  run_from-stop n zero i (suc f) e l h c =
      subst
        (λ k. run_from cancelled reports max (suc f) (backoff max k) (at_start k) ≡ some (stop n))
        (omega (arith, e)) (stop_here n f c)
  run_from-stop n (suc d) i (suc f) e l h c =
      let (s, x) = h i (omega (arith, e)) in
      rw (s, x) (run_from-stop n d (suc i) f (omega (arith, e)) (omega (arith, l)) h c)

-- If the context is not cancelled in the first n rounds, and is in the round behind them, the
-- supervisor, given more than n rounds, returns in that round: before it starts a child, or when
-- the child has ended, with no pause. Each round before it started one child, reported its end if
-- that is asked for, and paused.
pub run_stops :
    (cancelled : List Op → Bool) (reports : Bool) (limit n f : ℕ)
    → n < f
    → ((j : ℕ) → j < n → Runs cancelled reports (max_backoff limit) j)
    → (cancelled (at_start cancelled reports (max_backoff limit) n)
        || cancelled (at_exit cancelled reports (max_backoff limit) n))
      ≡ true
    → run cancelled reports limit f ≡ some (stop cancelled reports (max_backoff limit) n)
unfolding run
run_stops cancelled reports limit n f l h c =
    run_from-stop cancelled reports (max_backoff limit) n n 0 f (omega arith) l h c
