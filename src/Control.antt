-- ===== src/Control.antt =====
-- internal/control/control.go: shutdown and data requests over the port to the host.
-- A port is the list of the bytes that can be read from it; what is written to it is a list too.
pub mod Port
pub mod Reply
pub mod Lines
pub mod Exchange
use k0smos.Base.{
  ℕ, zero, suc, ◌+◌, ◌-◌, ◌*◌, ◌/◌, ◌%◌, ◌^◌, Bool, true, false, not, ◌&&◌, ◌||◌, Option, none,
  some, List, [], ◌∷◌, ◌++◌, if◌then◌else◌, ltb, leb, ◌==◌, take, length,
}
use k0smos.Base.Scan.{scan_lines}
use k0smos.Base.Text.{Text, codes, text_eq, is_empty, cut, trim_space, trim_right, to_lower}
use k0smos.Base.Io.{Result, ok, err}
use k0smos.Base.Decimal.{ℤ, pos, negsuc, atoi, decimal}

abbrev pub Bytes : Type 0
Bytes = List ℕ

pub data Command : Type 0 where
  power_off reboot : Command

-- (c Command) String()
unfoldable pub command_text : Command → Text
command_text power_off = codes "poweroff"
command_text reboot = codes "reboot"

abbrev pub requests : List Text
requests = codes "kubeconfig" ∷ codes "token" ∷ codes "status" ∷ codes "cat" ∷ codes "dmesg" ∷ []

unfoldable pub is_one_of : Text → List Text → Bool
is_one_of s [] = false
is_one_of s (t ∷ ts) = text_eq t s || is_one_of s ts

-- isRequest(line)
unfoldable pub is_request : Text → Bool
is_request line = is_one_of (cut line b' ').0 requests

abbrev pub command_named : Text → Option Command
command_named line =
    if text_eq line (codes "poweroff")
    then some power_off
    else if text_eq line (codes "reboot") || text_eq line (codes "restart")
    then some reboot
    else none

-- Parse(line)
unfoldable pub parse : Text → Option Command
parse line = command_named (to_lower (trim_space line))

pub data Event : Type 0 where
  command : Command → Event
  request : Text → Event

abbrev pub command_event : Option Command → Option Event
command_event none = none
command_event (some c) = some (command c)

-- A line in lower case, with no white space around it: what it asks for, if anything.
unfoldable pub event_named : Text → Option Event
event_named line = if is_request line then some (request line) else command_event (parse line)

-- One line of the port.
unfoldable pub event_of : Text → Option Event
event_of text = event_named (to_lower (trim_space text))

abbrev pub event_cons : Option Event → List Event → List Event
event_cons none es = es
event_cons (some e) es = e ∷ es

unfoldable pub events_of : List Text → List Event
events_of [] = []
events_of (line ∷ lines) = event_cons (event_of line) (events_of lines)

-- watchEvents(ctx, r), without cancellation
unfoldable pub watch_events : Bytes → List Event
watch_events r = events_of (scan_lines r)

abbrev pub command_cons : Option Command → List Command → List Command
command_cons none cs = cs
command_cons (some c) cs = c ∷ cs

unfoldable pub commands_of : List Text → List Command
commands_of [] = []
commands_of (line ∷ lines) = command_cons (parse line) (commands_of lines)

-- Watch(ctx, r), without cancellation
unfoldable pub watch_commands : Bytes → List Command
watch_commands r = commands_of (scan_lines r)
