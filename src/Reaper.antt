-- ===== src/Reaper.antt =====
-- internal/reaper/reaper.go: children are reaped on each trigger until none is left.
pub mod Drain
use k0smos.Base.{ℕ, zero, suc, ◌+◌, List, [], ◌∷◌, ◌++◌}
use k0smos.Base.Text.{Text}

-- What one call of Reap gives: a child's number, none that is ready, or an error.
pub data Reaped : Type 0 where
  child : ℕ → Reaped
  none_ready : Reaped
  failed : Text → Reaped

-- The closure `drain`, at the i-th call of Reap, with fuel for its rounds: the number of the next
-- call, and the children reaped.
unfoldable pub drain : ℕ → (ℕ → Reaped) → ℕ → ℕ × List ℕ
drain zero reap i = (i, [])
drain (suc fuel) reap i =
    let (next, pids) = drain fuel reap (suc i) in
    elim (reap i) [
      | child pid ↦ (next, pid ∷ pids)
      | none_ready ↦ (suc i, [])
      | failed e ↦ (suc i, [])
    ]

-- What `select` receives.
pub data Event : Type 0 where
  trigger : Event
  done : Event

-- Run(ctx, r, trigger): all children reaped until the context is done, with fuel for each drain
unfoldable pub run : ℕ → (ℕ → Reaped) → ℕ → List Event → List ℕ
run fuel reap i [] = []
run fuel reap i (done ∷ es) = []
run fuel reap i (trigger ∷ es) =
    let (next, pids) = drain fuel reap i in pids ++ run fuel reap next es
