-- ===== src/Init/Waiting.antt =====
-- Which event takes the machine down, and how.
use k0smos.Base.{ℕ, ◌≡◌, refl, Option, none, some, List, [], ◌∷◌, ◌++◌, All}
use k0smos.Control.{Command}
use k0smos.Shutdown.{power_off, reboot_cmd}
use k0smos.Init.Boot.{Event, signal, host, host_closed, button, button_closed, cancelled, wait}

-- What an event asks for by itself: a closed channel asks for nothing.
abbrev pub request_of : Event → Option ℕ
request_of signal = some power_off
request_of (host k0smos.Control.reboot) = some reboot_cmd
request_of (host k0smos.Control.power_off) = some power_off
request_of host_closed = none
request_of button = some power_off
request_of button_closed = none
request_of cancelled = some power_off

-- The machine goes down by its first request, behind any closed channels and whatever comes later,
-- and as that one asks; and it stays up as long as only channels close.
pub wait-request_of :
    (closed : List Event) (e : Event) (rest : List Event) (how : ℕ)
    → All (λ x. request_of x ≡ none) closed
    → request_of e ≡ some how
    → (wait (closed ++ e ∷ rest) ≡ some how) × (wait closed ≡ none)
unfolding wait
wait-request_of [] signal rest how h r = (r, refl)
wait-request_of [] (host k0smos.Control.reboot) rest how h r = (r, refl)
wait-request_of [] (host k0smos.Control.power_off) rest how h r = (r, refl)
wait-request_of [] host_closed rest how h r = absurd (cc)
wait-request_of [] button rest how h r = (r, refl)
wait-request_of [] button_closed rest how h r = absurd (cc)
wait-request_of [] cancelled rest how h r = (r, refl)
wait-request_of (host_closed ∷ closed) e rest how (n, h) r = wait-request_of closed e rest how h r
wait-request_of (button_closed ∷ closed) e rest how (n, h) r = wait-request_of closed e rest how h r
wait-request_of (signal ∷ closed) e rest how (n, h) r = absurd (cc)
wait-request_of (host k0smos.Control.reboot ∷ closed) e rest how (n, h) r = absurd (cc)
wait-request_of (host k0smos.Control.power_off ∷ closed) e rest how (n, h) r = absurd (cc)
wait-request_of (button ∷ closed) e rest how (n, h) r = absurd (cc)
wait-request_of (cancelled ∷ closed) e rest how (n, h) r = absurd (cc)
