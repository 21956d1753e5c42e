-- ===== src/Tests/Power.antt =====
-- A run of the power-button watcher (internal/power).
use k0smos.Base.{ℕ, ◌≡◌, ◌<◌, ◌^◌, refl, List, [], ◌∷◌, length, select, replicate, arith}
use k0smos.Power.{watch, is_power_press}
use k0smos.Power.Presses.{Event, IsEvent, stream, is_press, watch-stream}

abbrev event : ℕ → ℕ → Event
event code value = record { time = replicate 16 0; type = 1; code = code; value = value }

-- The power key is pressed and released, and another key is pressed.
abbrev events : List Event
events = event 116 1 ∷ event 116 0 ∷ event 30 1 ∷ []

one_press : watch 4 (stream events (1 ∷ 2 ∷ [])) ≡ 1
unfolding watch is_power_press
one_press = refl

events-IsEvent : (code value : ℕ) → code < 2 ^ 16 → value < 2 ^ 32 → IsEvent (event code value)
events-IsEvent code value c v = record { time = refl; type = omega arith; code = c; value = v }

watch-stream_example : watch 4 (stream events (1 ∷ 2 ∷ [])) ≡ length (select is_press events)
watch-stream_example =
    watch-stream events (1 ∷ 2 ∷ []) 4
      (
        events-IsEvent 116 1 (omega arith) (omega arith),
        (
          events-IsEvent 116 0 (omega arith) (omega arith),
          (events-IsEvent 30 1 (omega arith) (omega arith), tt),
        ),
      )
      (omega arith) (omega arith)
