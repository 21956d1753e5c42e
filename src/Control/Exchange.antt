-- ===== src/Control/Exchange.antt =====
-- A whole exchange over the port: what the host is told.
use k0smos.Base.{
  ◌||◌, append_assoc, ◌≤◌, ◌≡◌, refl, ap, ◌∙◌, Bool, true, false, Option, some, List, [], ◌∷◌, ◌++◌,
  length, arith, append-nil,
}
use k0smos.Base.Text.{Text, to_lower, trim_space}
use k0smos.Base.Text.Laws.{Lacks}
use k0smos.Base.Io.{Result, ok, err}
use k0smos.Base.Scan.{drop_cr, scan_from, scan_lines}
use k0smos.Control.{
  Bytes, Event, command, request, is_request, event_named, event_of, events_of, watch_events,
}
use k0smos.Control.Port.{
  Responder, Op, write, deliver, serve_request, command_ack, serve_events, read_once, read_reply,
  sent_for, Failure, remote, one_line, max_reply_bytes,
}
use k0smos.Control.Reply.{read_reply-serve_request, read_reply-serve_error}
use k0smos.Control.Lines.{IsLine, watch_events-on_lines}

-- What the node writes on one connection.
abbrev pub written : List Op → Bytes
written [] = []
written (write b ∷ t) = b ++ written t
written (deliver c ∷ t) = written t

-- The host sends a request, the node serves the connection, and the host reads the reply.
abbrev pub exchange : Responder → (List Op → Bool) → Text → Result Failure Bytes
exchange respond cancelled name =
    read_reply (written (read_once (some respond) cancelled (some (sent_for name)) []).1)

-- The same by a direct call of the responder.
abbrev pub answer : Result Text Bytes → Result Failure Bytes
answer (ok payload) = ok payload
answer (err e) = err (remote (one_line e))

-- The port carries a payload of eight mebibytes at most, and an error with no carriage return.
abbrev pub Carried : Result Text Bytes → Type 0
Carried (ok payload) = length payload ≤ max_reply_bytes
Carried (err e) = Lacks b'\r' e

drop_cr-Lacks : (s : Text) → Lacks b'\r' s → drop_cr s ≡ s
unfolding drop_cr
drop_cr-Lacks [] h = refl
drop_cr-Lacks (c ∷ []) h = ground arith
drop_cr-Lacks (c ∷ d ∷ s) (hc, h) = ap (λ t. c ∷ t) (drop_cr-Lacks (d ∷ s) h)

one_request :
    (name : Text)
    → IsLine name
    → Lacks b'\r' name
    → is_request (to_lower (trim_space name)) ≡ true
    → watch_events (sent_for name) ≡ request (to_lower (trim_space name)) ∷ []
unfolding watch_events events_of event_of event_named scan_lines scan_from
one_request name l c h =
    watch_events-on_lines (name ∷ []) [] (l, tt) ∙ rw (drop_cr-Lacks name c, h) refl

answered :
    (respond : Responder) (name : Text) (r : Result Text Bytes)
    → respond name ≡ r
    → Carried r
    → read_reply (serve_request name (some respond) ++ []) ≡ answer r
answered respond name (ok payload) e h = read_reply-serve_request respond name payload [] e h
answered respond name (err x) e h = read_reply-serve_error respond name x [] e h

-- For a request on one line, with no line end in it and shorter than 64 KiB, if what the responder answers is one that the
-- port carries, that is, a payload of at most 8 MiB or an error with no carriage return: the
-- exchange over the port gives the host what a direct call of the responder gives, at the request
-- with its case lowered and its outer white space removed, an error with its line ends made spaces.
pub exchange-answer :
    (respond : Responder) (cancelled : List Op → Bool) (name : Text)
    → IsLine name
    → Lacks b'\r' name
    → is_request (to_lower (trim_space name)) ≡ true
    → Carried (respond (to_lower (trim_space name)))
    → exchange respond cancelled name ≡ answer (respond (to_lower (trim_space name)))
unfolding read_once serve_events
exchange-answer respond cancelled name l c q h =
    rw (one_request name l c q)
      (answered respond (to_lower (trim_space name)) (respond (to_lower (trim_space name))) refl h)

-- What is done for one event: a request is answered; a command is acknowledged before it is handed
-- on.
abbrev pub ops_for : Option Responder → Event → List Op
ops_for respond (request name) = write (serve_request name respond) ∷ []
ops_for respond (command c) = write command_ack ∷ deliver c ∷ []

abbrev pub ops_for_all : Option Responder → List Event → List Op
ops_for_all respond [] = []
ops_for_all respond (e ∷ es) = ops_for respond e ++ ops_for_all respond es

abbrev pub is_any : List Event → Bool
is_any [] = false
is_any (e ∷ es) = true

module _ (respond : Option Responder) (cancelled : List Op → Bool)
    (live : (t : List Op) → cancelled t ≡ false) where
  or-true : (f : Bool) → (f || true) ≡ true
  or-true f = ground arith

  serve_events-ops :
      (es : List Event) (f : Bool) (t : List Op)
      → serve_events respond cancelled es f t ≡ (f || is_any es, t ++ ops_for_all respond es)
  unfolding serve_events
  serve_events-ops [] false t = rw (append-nil t) refl
  serve_events-ops [] true t = rw (append-nil t) refl
  serve_events-ops (request name ∷ es) f t =
      let op = write (serve_request name respond) in
      rw (or-true f) (
        serve_events-ops es true (t ++ op ∷ [])
        ∙ ap (λ u. (true, u)) (append_assoc t (op ∷ []) (ops_for_all respond es)))
  serve_events-ops (command c ∷ es) f t =
      let done = write command_ack ∷ deliver c ∷ [] in
      rw (or-true f, live (t ++ write command_ack ∷ []))
        (serve_events-ops es true (t ++ done)
          ∙ ap (λ u. (true, u)) (append_assoc t done (ops_for_all respond es)))

  -- While the context lives, every event of a connection is served, in order, each command
  -- acknowledged before it is handed on; and there is a pause behind the connection exactly if it
  -- asked for nothing.
  pub read_once_serves :
      (port : Bytes)
      → read_once respond cancelled (some port) []
        ≡ (is_any (watch_events port), ops_for_all respond (watch_events port))
  unfolding read_once
  read_once_serves port = serve_events-ops (watch_events port) false []
