-- ===== src/Reaper/Drain.antt =====
-- The drain of the children that are ready.
use k0smos.Base.{ℕ, zero, suc, ◌+◌, ◌<◌, ◌≡◌, ◌⊎◌, inl, inr, ap, List, [], ◌∷◌, length, arith}
use k0smos.Base.Text.{Text}
use k0smos.Reaper.{Reaped, child, none_ready, failed, drain}

-- From the i-th call on, these children are ready, and behind them there is none, or an error.
abbrev pub IsReady : (ℕ → Reaped) → ℕ → List ℕ → Type 0
IsReady reap i [] = (reap i ≡ none_ready) ⊎ ((e : Text) × (reap i ≡ failed e))
IsReady reap i (pid ∷ pids) = (reap i ≡ child pid) × IsReady reap (suc i) pids

-- A drain reaps the children that are ready, in order and all of them, with one call for each and one
-- more, and then ends, whatever fuel it has beyond that.
pub drain-IsReady :
    (reap : ℕ → Reaped) (i : ℕ) (pids : List ℕ) (fuel : ℕ)
    → length pids < fuel
    → IsReady reap i pids
    → drain fuel reap i ≡ (suc i + length pids, pids)
unfolding drain
drain-IsReady reap i pids zero l h = absurd (omega (arith, l))
drain-IsReady reap i [] (suc fuel) l (inl e) = rw (e, drain) (ap (λ n. (n, [])) (omega arith))
drain-IsReady reap i [] (suc fuel) l (inr (x, e)) = rw (e, drain) (ap (λ n. (n, [])) (omega arith))
drain-IsReady reap i (pid ∷ pids) (suc fuel) l (e, h) =
    rw (e, drain, drain-IsReady reap (suc i) pids fuel (omega (arith, l)) h)
      (ap (λ n. (n, pid ∷ pids)) (omega arith))
