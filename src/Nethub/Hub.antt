-- ===== src/Nethub/Hub.antt =====
-- The hub as a transition system: each guest's goroutine reads frames and floods them, one write at
-- a time, while the others do the same.
-- A port is a number. A write to one port is whole under that port's lock; a write that fails may
-- have sent a part, and behind it the connection takes nothing more.
use k0smos.Base.{
  ℕ, ◌<◌, ◌≡◌, Bool, true, false, not, ◌||◌, List, [], ◌∷◌, ◌++◌, if◌then◌else◌, ◌==◌, take, length,
  select,
}
use k0smos.Nethub.Framing.{Bytes, encode}
use k0smos.Nethub.Framing.Stream.{IsFrame}

-- A call of `flood` that is under way: where its frame came from, and the ports still to write.
pub record Flood : Type 0 where
  pub from : ℕ
  pub frame : Bytes
  pub targets : List ℕ

-- `accepted` are all ports that there have been, and `closing` those whose connection is to be
-- closed by `serve` or by `Close`; `output q` is what was sent to port q, and `got q`
-- the frames that were sent to it whole, with the ports that they came from.
pub record Hub : Type 0 where
  pub ports : List ℕ
  pub accepted : List ℕ
  pub closed : Bool
  pub closing : List ℕ
  pub floods : List Flood
  pub output : ℕ → Bytes
  pub broken : ℕ → Bool
  pub got : ℕ → List (ℕ × Bytes)

-- Listen(addr)
abbrev pub initial : Hub
initial = record {
  ports = [];
  accepted = [];
  closed = false;
  closing = [];
  floods = [];
  output = λ q. [];
  broken = λ q. false;
  got = λ q. [];
}

unfoldable pub is_port : ℕ → List ℕ → Bool
is_port p [] = false
is_port p (q ∷ qs) = q == p || is_port p qs

-- The snapshot of `flood`: every port but the one that the frame came from.
abbrev pub others : ℕ → List ℕ → List ℕ
others p ports = select (λ q. not (q == p)) ports

abbrev pub updated {ℓ} : {A : Type ℓ} → (ℕ → A) → ℕ → A → ℕ → A
updated f q a p = if p == q then a else f p

-- The part of `accept` under the lock.
abbrev pub accept_port : ℕ → Hub → Hub
accept_port p h = record h { ports = p ∷ h.ports; accepted = p ∷ h.accepted }

-- A frame was read from p: its flood begins.
abbrev pub start_flood : ℕ → Bytes → Hub → Hub
start_flood p frame h = record h {
  floods = record { from = p; frame = frame; targets = others p h.ports } ∷ h.floods;
}

-- The end of `serve`, under the lock: the port is deleted, and its connection is closed next.
abbrev pub leave_port : ℕ → Hub → Hub
leave_port p h = record h { ports = others p h.ports; closing = p ∷ h.closing }

-- The part of `Close` under the lock: all connections are closed next.
abbrev pub close_hub : Hub → Hub
close_hub h = record h { closed = true; closing = h.ports ++ h.closing }

-- p.conn.Close()
abbrev pub close_connection : ℕ → Hub → Hub
close_connection p h = record h { broken = updated h.broken p true }

-- One write of a flood, to q: all of it, or a part and the connection's end, or nothing.
abbrev pub write_frame : ℕ → Flood → Hub → Hub
write_frame q fl h = record h {
  output = updated h.output q (h.output q ++ encode fl.frame);
  got = updated h.got q (h.got q ++ (fl.from, fl.frame) ∷ []);
}

abbrev pub write_part : ℕ → ℕ → Flood → Hub → Hub
write_part q n fl h = record h {
  output = updated h.output q (h.output q ++ take n (encode fl.frame));
  broken = updated h.broken q true;
}

-- The flood goes on with its other targets.
abbrev pub advance : List Flood → Flood → List ℕ → List Flood → Hub → Hub
advance before fl qs after h = record h { floods = before ++ record fl { targets = qs } ∷ after }

pub data Step : Hub → Hub → Type 0 where
  accept :
      (h : Hub) (p : ℕ) → h.closed ≡ false → is_port p h.accepted ≡ false → Step h (accept_port p h)
  read :
      (h : Hub) (p : ℕ) (frame : Bytes)
      → is_port p h.ports ≡ true
      → IsFrame frame
      → Step h (start_flood p frame h)
  write :
      (h : Hub) (before : List Flood) (fl : Flood) (after : List Flood) (q : ℕ) (qs : List ℕ)
      → h.floods ≡ before ++ fl ∷ after
      → fl.targets ≡ q ∷ qs
      → h.broken q ≡ false
      → Step h (advance before fl qs after (write_frame q fl h))
  fail :
      (h : Hub) (before : List Flood) (fl : Flood) (after : List Flood) (q n : ℕ) (qs : List ℕ)
      → h.floods ≡ before ++ fl ∷ after
      → fl.targets ≡ q ∷ qs
      → h.broken q ≡ false
      → n < length (encode fl.frame)
      → Step h (advance before fl qs after (write_part q n fl h))
  skip :
      (h : Hub) (before : List Flood) (fl : Flood) (after : List Flood) (q : ℕ) (qs : List ℕ)
      → h.floods ≡ before ++ fl ∷ after
      → fl.targets ≡ q ∷ qs
      → h.broken q ≡ true
      → Step h (advance before fl qs after h)
  leave : (h : Hub) (p : ℕ) → is_port p h.ports ≡ true → Step h (leave_port p h)
  close : (h : Hub) → h.closed ≡ false → Step h (close_hub h)
  end : (h : Hub) (p : ℕ) → is_port p h.closing ≡ true → Step h (close_connection p h)

pub data Reach : Hub → Type 0 where
  listen : Reach initial
  step : {h k : Hub} → Reach h → Step h k → Reach k
