-- ===== src/Control/Port.antt =====
-- internal/control/control.go: what the node writes to the port, and what the host makes of it.
use k0smos.Base.{
  ℕ, ◌+◌, ◌-◌, ◌*◌, ◌/◌, ◌%◌, ◌^◌, Bool, true, false, ◌&&◌, ◌||◌, Option, none, some, List, [], ◌∷◌,
  ◌++◌, if◌then◌else◌, ltb, leb, ◌==◌, take, length,
}
use k0smos.Base.Text.{Text, codes, text_eq, cut, trim_space, trim_right}
use k0smos.Base.Io.{Result, ok, err}
use k0smos.Base.Decimal.{ℤ, pos, negsuc, atoi, decimal}
use k0smos.Control.{Bytes, Command, Event, command, request, watch_events}

-- A responder gives a payload or an error's text; there may be none.
abbrev pub Responder : Type 0
Responder = Text → Result Text Bytes

abbrev pub reply_ok : Text
reply_ok = codes "k0smos-ok"

abbrev pub reply_error : Text
reply_error = codes "k0smos-error"

abbrev hex_digit : ℕ → ℕ
hex_digit d = if ltb d 10 then b'0' + d else b'a' + d - 10

-- One byte of %q, for ASCII.
unfoldable pub quote_byte : ℕ → Text
quote_byte c =
    if c == b'"' || c == b'\\'
    then b'\\' ∷ c ∷ []
    else if c == 7
    then codes "\\a"
    else if c == 8
    then codes "\\b"
    else if c == 12
    then codes "\\f"
    else if c == 10
    then codes "\\n"
    else if c == 13
    then codes "\\r"
    else if c == 9
    then codes "\\t"
    else if c == 11
    then codes "\\v"
    else if leb 32 c && ltb c 127
    then c ∷ []
    else b'\\' ∷ b'x' ∷ hex_digit (c / 16) ∷ hex_digit (c % 16) ∷ []

unfoldable pub quote_bytes : Text → Text
quote_bytes [] = []
quote_bytes (c ∷ s) = quote_byte c ++ quote_bytes s

-- %q
unfoldable pub quote : Text → Text
unfolding quote_bytes quote_byte
quote s = b'"' ∷ (quote_bytes s ++ b'"' ∷ [])

-- strings.ReplaceAll(s, "\n", " ")
abbrev pub one_line : Text → Text
one_line [] = []
one_line (c ∷ s) = (if c == b'\n' then b' ' else c) ∷ one_line s

-- serveCommandAck(w)
abbrev pub command_ack : Bytes
command_ack = reply_ok ++ codes " 0\n"

abbrev pub reply_for : Result Text Bytes → Bytes
reply_for (err e) = reply_error ++ b' ' ∷ (one_line e ++ b'\n' ∷ [])
reply_for (ok payload) = reply_ok ++ b' ' ∷ (decimal (length payload) ++ b'\n' ∷ payload)

-- serveRequest(w, request, respond): what is written
unfoldable pub serve_request : Text → Option Responder → Bytes
serve_request name none =
    reply_error ++ (codes " unsupported request " ++ (quote name ++ b'\n' ∷ []))
serve_request name (some respond) = reply_for (respond name)

-- What one connection of the node does: write to the port, hand a command on.
pub data Op : Type 0 where
  write : Bytes → Op
  deliver : Command → Op

module _ (respond : Option Responder) (cancelled : List Op → Bool) where
  -- The loop of `readOnce` over the events of the port; the flag is `forwarded`. Handing a command
  -- on may end in cancellation instead.
  unfoldable pub serve_events : List Event → Bool → List Op → Bool × List Op
  serve_events [] forwarded t = (forwarded, t)
  serve_events (request name ∷ es) forwarded t =
      serve_events es true (t ++ write (serve_request name respond) ∷ [])
  serve_events (command c ∷ es) forwarded t =
      let rest = serve_events es true (t ++ write command_ack ∷ deliver c ∷ []) in
      if cancelled (t ++ write command_ack ∷ [])
      then (forwarded, t ++ write command_ack ∷ [])
      else rest

  -- readOnce(ctx, open, out, respond): the port that `open` gives, or none
  unfoldable pub read_once : Option Bytes → List Op → Bool × List Op
  read_once none t = (false, t)
  read_once (some port) t = serve_events (watch_events port) false t

pub data Wait : Type 0 where
  connection : List Op → Wait
  pause : Wait

-- WatchReopen(ctx, open, retry, respond), for the ports that the openings give; the context is
-- cancelled behind the last. Each connection starts a trace of its own.
unfoldable pub watch_reopen : Option Responder → (List Op → Bool) → List (Option Bytes) → List Wait
watch_reopen respond cancelled [] = []
watch_reopen respond cancelled (port ∷ ports) =
    let (forwarded, t) = read_once respond cancelled port [] in
    let rest = watch_reopen respond cancelled ports in
    if forwarded then connection t ∷ rest else connection t ∷ pause ∷ rest

-- How `Request` fails.
pub data Failure : Type 0 where
  no_status : Failure
  remote : Text → Failure
  bad_length : Text → Failure
  out_of_range : ℤ → Failure
  short_reply : ℕ → Failure
  unexpected : Text → Failure

-- 8 << 20
abbrev pub max_reply_bytes : ℕ
max_reply_bytes = 8 * 2 ^ 20

unfoldable pub is_line_end : ℕ → Bool
is_line_end c = c == b'\r' || c == b'\n'

abbrev pub payload_of : Text → Option ℤ → Bytes → Result Failure Bytes
payload_of arg none rest = err (bad_length arg)
payload_of arg (some (negsuc n)) rest = err (out_of_range (negsuc n))
payload_of arg (some (pos n)) rest =
    if ltb max_reply_bytes n
    then err (out_of_range (pos n))
    else if ltb (length rest) n
    then err (short_reply n)
    else ok (take n rest)

unfoldable pub read_status : Text → Bytes → Result Failure Bytes
read_status status rest =
    let (kind, arg, found) = cut status b' ' in
    if text_eq kind reply_error
    then err (remote arg)
    else if text_eq kind reply_ok
    then payload_of arg (atoi (trim_space arg)) rest
    else err (unexpected status)

-- Request(rw, name), behind the sending of the name: the reply in what can be read
unfoldable pub read_reply : Bytes → Result Failure Bytes
read_reply reply =
    let (status, rest, found) = cut reply b'\n' in
    if found then read_status (trim_right is_line_end status) rest else err no_status

-- What `Request` sends.
abbrev pub sent_for : Text → Bytes
sent_for name = name ++ b'\n' ∷ []
