-- ===== src/Tests/Control.antt =====
-- Runs of the control port (internal/control).
use k0smos.Base.{◌≤◌, ◌≡◌, refl, Bool, true, false, some, List, [], ◌∷◌, arith, length}
use k0smos.Base.Text.{Text, codes, text_eq, to_lower, trim_space, cut}
use k0smos.Base.Text.Laws.{Lacks}
use k0smos.Base.Io.{ok}
use k0smos.Base.Decimal.{decimal, digits_from}
use k0smos.Base.Scan.{drop_cr, scan_from, scan_lines}
use k0smos.Control.{
  reboot, command, request, is_request, is_one_of, parse, event_of, event_named, events_of,
  watch_events,
}
use k0smos.Control.Port.{Responder, Op, serve_request, max_reply_bytes}
use k0smos.Control.Lines.{IsLine, event_of_case}
use k0smos.Control.Exchange.{exchange, answer, exchange-answer}

-- A responder that gives back what it is asked.
abbrev echo : Responder
echo name = ok name

abbrev live : List Op → Bool
live t = false

abbrev cat : Text
cat = codes "cat /Run/x"

reads_lower :
    watch_events (codes "junk\n REBOOT \r\ncat /Run/x\n")
    ≡ command reboot ∷ request (codes "cat /run/x") ∷ []
unfolding watch_events events_of event_of event_named parse is_request is_one_of scan_lines
    scan_from drop_cr trim_space to_lower cut text_eq
reads_lower = refl

frame : serve_request (codes "token") (some echo) ≡ codes "k0smos-ok 5\ntoken"
unfolding serve_request decimal digits_from
frame = refl

cat-IsLine : IsLine cat
cat-IsLine = (ground arith, omega arith)

no_return : Lacks b'\r' cat
no_return = ground arith

is_cat : is_request (to_lower (trim_space cat)) ≡ true
unfolding is_request is_one_of to_lower trim_space cut text_eq
is_cat = refl

carried : length (to_lower (trim_space cat)) ≤ max_reply_bytes
unfolding to_lower trim_space
carried = omega arith

exchange-answer_example : exchange echo live cat ≡ answer (echo (to_lower (trim_space cat)))
exchange-answer_example = exchange-answer echo live cat cat-IsLine no_return is_cat carried

same_lower : to_lower cat ≡ to_lower (codes "CAT /run/X")
unfolding to_lower
same_lower = refl

event_of_case_example : event_of cat ≡ event_of (codes "CAT /run/X")
event_of_case_example = event_of_case cat (codes "CAT /run/X") same_lower
