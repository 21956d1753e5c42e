-- ===== src/Control/Lines.antt =====
-- The lines of the port and what they ask for.
use k0smos.Base.{
  ◌+◌, ◌<◌, ◌≡◌, refl, sym, ap, ◌∙◌, Option, none, some, List, [], ◌∷◌, ◌++◌, length, length-append,
  arith, All, append_assoc, append-nil, map,
}
use k0smos.Base.Text.{Text, to_lower, trim_space}
use k0smos.Base.Text.Laws.{Lacks}
use k0smos.Base.Text.Trim.{to_lower-trim_space}
use k0smos.Base.Scan.{drop_cr, scan_from, scan_lines, max_token}
use k0smos.Control.{Bytes, Event, event_of, event_named, event_cons, events_of, watch_events}

-- A line that the scanner takes: no newline in it, and shorter than its longest token.
abbrev pub IsLine : Text → Type 0
IsLine s = Lacks b'\n' s × (length s < max_token)

scan_from-line :
    (s line : Text) (r : Bytes)
    → Lacks b'\n' s
    → length line + length s < max_token
    → scan_from line (s ++ b'\n' ∷ r) ≡ drop_cr (line ++ s) ∷ scan_from [] r
unfolding scan_from
scan_from-line [] line r h l = ground (arith, append-nil line)
scan_from-line (c ∷ s) line r (hc, h) l = ground (
  arith,
  scan_from-line s (line ++ c ∷ []) r h,
  length-append line (c ∷ []),
  append_assoc line (c ∷ []) s,
)

abbrev pub on_lines : List Text → Bytes → Bytes
on_lines [] r = r
on_lines (s ∷ ss) r = s ++ b'\n' ∷ on_lines ss r

scan_lines-on_lines :
    (ss : List Text) (r : Bytes)
    → All IsLine ss
    → scan_lines (on_lines ss r) ≡ map drop_cr ss ++ scan_lines r
unfolding scan_lines
scan_lines-on_lines [] r h = refl
scan_lines-on_lines (s ∷ ss) r ((hs, l), h) =
    scan_from-line s [] (on_lines ss r) hs (omega (arith, l))
    ∙ ap (λ t. drop_cr s ∷ t) (scan_lines-on_lines ss r h)

event_cons-append :
    (o : Option Event) (es fs : List Event) → event_cons o (es ++ fs) ≡ event_cons o es ++ fs
event_cons-append none es fs = refl
event_cons-append (some e) es fs = refl

events_of-append : (ss ts : List Text) → events_of (ss ++ ts) ≡ events_of ss ++ events_of ts
unfolding events_of
events_of-append [] ts = refl
events_of-append (s ∷ ss) ts =
    ap (event_cons (event_of s)) (events_of-append ss ts)
    ∙ event_cons-append (event_of s) (events_of ss) (events_of ts)

-- Every whole line of the port is read for itself, in order, whatever stands on the lines around
-- it: a line that asks for nothing, or for anything else, hides no later one.
pub watch_events-on_lines :
    (ss : List Text) (r : Bytes)
    → All IsLine ss
    → watch_events (on_lines ss r) ≡ events_of (map drop_cr ss) ++ watch_events r
unfolding watch_events
watch_events-on_lines ss r h =
    ap events_of (scan_lines-on_lines ss r h) ∙ events_of-append (map drop_cr ss) (scan_lines r)

-- Letter case makes no difference to what a line asks for, the argument of a request included: two
-- paths that differ in case alone are one request.
pub event_of_case : (s t : Text) → to_lower s ≡ to_lower t → event_of s ≡ event_of t
unfolding event_of
event_of_case s t h =
    ap event_named (to_lower-trim_space s ∙ ap trim_space h ∙ sym (to_lower-trim_space t))
