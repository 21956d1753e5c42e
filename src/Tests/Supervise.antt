-- ===== src/Tests/Supervise.antt =====
-- Runs of the supervisor (internal/supervise).
use k0smos.Base.{
  ℕ, zero, suc, ◌≡◌, ◌<◌, refl, Bool, true, some, List, [], ◌∷◌, arith, leb, length, ◌*◌, ◌^◌,
}
use k0smos.Supervise.{Op, start, on_exit, sleep, run, run_from, next_backoff}
use k0smos.Supervise.Restarts.{run_stops, Runs, stop}

-- The context is cancelled when seven calls have been made.
abbrev after_seven : List Op → Bool
after_seven t = leb 7 (length t)

pauses :
    run after_seven true 0 3
    ≡ some (
        start
        ∷ on_exit
        ∷ sleep (2 * 10 ^ 8)
        ∷ start
        ∷ on_exit
        ∷ sleep (4 * 10 ^ 8)
        ∷ start
        ∷ on_exit
        ∷ [])
unfolding run run_from next_backoff
pauses = refl

two_rounds : (j : ℕ) → j < 2 → Runs after_seven true (10 ^ 10) j
two_rounds zero l = (refl, refl)
two_rounds (suc zero) l = (refl, refl)
two_rounds (suc (suc j)) l = absurd (omega (arith, l))

run_stops_example : run after_seven true 0 3 ≡ some (stop after_seven true (10 ^ 10) 2)
run_stops_example = run_stops after_seven true 0 2 3 (omega arith) two_rounds refl
