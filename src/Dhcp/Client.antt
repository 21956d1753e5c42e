-- ===== src/Dhcp/Client.antt =====
-- internal/dhcp/client.go: the exchange with a server, and the renewal of the lease.
-- A packet that is received is a list of bytes; times are in nanoseconds. The loops take fuel and
-- give none when it is used up: `Recv` may go on yielding packets for other clients.
pub mod Behind
pub mod Exchange
pub mod Renewal
use k0smos.Base.{
  ℕ, zero, suc, ◌*◌, ◌^◌, ◌%◌, Bool, true, false, Option, none, some, List, [], ◌∷◌, ◌++◌,
  if◌then◌else◌, ◌==◌,
}
use k0smos.Base.Text.{Text, is_empty}
use k0smos.Base.Io.{Result, ok, err}
use k0smos.Dhcp.{
  Bytes, Lease, Parsed, accepted, refused, parse, second, build_discover, build_request,
  build_renew, msg_offer, msg_ack, msg_nak,
}

pub data Op : Type 0 where
  send : Bytes → Bytes → Op
  recv : ℕ → Op
  sleep : ℕ → Op
  apply : Lease → Op

pub data Failure : Type 0 where
  no_response : Failure
  cancelled : Text → Failure
  send_failed : Text → Failure
  recv_failed : Text → Failure
  unexpected : ℕ → Failure
  no_server : Failure
  lost : Failure → Failure
  apply_failed : Text → Failure

-- What the link, the clock and the caller do, each as a function of the calls made so far.
pub record World : Type 0 where
  pub fails : List Op → Op → Option Text
  pub receive : List Op → Result Text Bytes
  pub random : List Op → ℕ
  pub context : List Op → Option Text

pub record Client : Type 0 where
  pub mac : Bytes
  pub hostname : Text
  pub max_attempts : ℕ
  pub timeout : ℕ

abbrev pub broadcast : Bytes
broadcast = 255 ∷ 255 ∷ 255 ∷ 255 ∷ []

abbrev pub retry_backoff : ℕ
retry_backoff = 2 * second

abbrev pub attempts : Client → ℕ
attempts c = if c.max_attempts == 0 then 6 else c.max_attempts

abbrev pub timeout_of : Client → ℕ
timeout_of c = if c.timeout == 0 then 4 * second else c.timeout

-- A lease keeps a nil address as no bytes.
abbrev pub ip_or_nil : Bytes → Option Bytes
ip_or_nil [] = none
ip_or_nil (b ∷ ip) = some (b ∷ ip)

-- The result and the calls made, or none for want of fuel.
abbrev pub Outcome : Type 0 → Type 0
Outcome A = Option (Result Failure A × List Op)

abbrev pub returns : {A : Type 0} → Result Failure A → List Op → Outcome A
returns r t = some (r, t)

abbrev pub next : {A B : Type 0} → Outcome A → (A → List Op → Outcome B) → Outcome B
next none f = none
next (some (err e, t)) f = some (err e, t)
next (some (ok a, t)) f = f a t

module _ (w : World) (c : Client) where
  abbrev pub after_send : Option Text → List Op → Outcome Unit
  after_send none t = returns (ok tt) t
  after_send (some e) t = returns (err (send_failed e)) t

  -- c.Conn.SendTo(p, dst)
  abbrev pub send_to : Bytes → Bytes → List Op → Outcome Unit
  send_to p dst t = after_send (w.fails t (send p dst)) (t ++ send p dst ∷ [])

  abbrev pub xid : List Op → ℕ
  xid t = w.random t % 2 ^ 32

  abbrev pub parse_reply : ℕ → Result Text Bytes → Result Text (Option (Lease × ℕ))
  parse_reply x (err e) = err e
  parse_reply x (ok p) =
      ok (elim (parse p x c.mac) [ accepted l mt ↦ some (l, mt) | refused r ↦ none ])

  abbrev pub on_reply :
      Result Text (Option (Lease × ℕ)) → List Op → Outcome (Lease × ℕ) → Outcome (Lease × ℕ)
  on_reply (err e) t again = returns (err (recv_failed e)) t
  on_reply (ok none) t again = again
  on_reply (ok (some r)) t again = returns (ok r) t

  -- await(xid)
  unfoldable pub await : ℕ → ℕ → List Op → Outcome (Lease × ℕ)
  await zero x t = none
  await (suc fuel) x t =
      on_reply (parse_reply x (w.receive t)) (t ++ recv (timeout_of c) ∷ [])
        (await fuel x (t ++ recv (timeout_of c) ∷ []))

  abbrev pub want : ℕ → Lease × ℕ → List Op → Outcome Lease
  want expected (l, mt) t =
      if mt == expected then returns (ok l) t else returns (err (unexpected mt)) t

  abbrev pub request_lease : ℕ → ℕ → Lease → List Op → Outcome Lease
  request_lease fuel x offer t =
      next
        (send_to (build_request x c.mac c.hostname (ip_or_nil offer.ip) (ip_or_nil offer.server))
          broadcast t)
        (λ _ t1. next (await fuel x t1) (want msg_ack))

  -- once()
  unfoldable pub once : ℕ → List Op → Outcome Lease
  once fuel t =
      next (send_to (build_discover (xid t) c.mac c.hostname) broadcast t)
        (λ _ t1. next (next (await fuel (xid t) t1) (want msg_offer)) (request_lease fuel (xid t)))

  abbrev pub after_sleep : Option Text → List Op → Outcome Unit
  after_sleep none t = returns (ok tt) t
  after_sleep (some e) t = returns (err (cancelled e)) t

  abbrev pub sleep_for : ℕ → List Op → Outcome Unit
  sleep_for d t = after_sleep (w.fails t (sleep d)) (t ++ sleep d ∷ [])

  abbrev pub unless_cancelled : Option Text → List Op → Outcome Lease → Outcome Lease
  unless_cancelled (some e) t go = returns (err (cancelled e)) t
  unless_cancelled none t go = go

  abbrev pub retry : Outcome Lease → (Failure → List Op → Outcome Lease) → Outcome Lease
  retry none again = none
  retry (some (ok l, t)) again = some (ok l, t)
  retry (some (err e, t)) again = again e t

  -- The loop of `Acquire`, with so many attempts left.
  unfoldable pub acquire_from : ℕ → ℕ → Failure → List Op → Outcome Lease
  acquire_from fuel zero last t = returns (err last) t
  acquire_from fuel (suc zero) last t =
      unless_cancelled (w.context t) t (retry (once fuel t) (λ e t1. returns (err e) t1))
  acquire_from fuel (suc (suc n)) last t = unless_cancelled (w.context t) t (
      retry (once fuel t)
        (λ e t1. next (sleep_for retry_backoff t1) (λ _ t2. acquire_from fuel (suc n) e t2)))

  -- Acquire(ctx)
  unfoldable pub acquire : ℕ → List Op → Outcome Lease
  acquire fuel t = acquire_from fuel (attempts c) no_response t

  abbrev pub renew_with : ℕ → Bytes → Lease → List Op → Outcome Lease
  renew_with fuel dst lease t =
      next (send_to (build_renew (xid t) c.mac c.hostname lease.ip) dst t)
        (λ _ t1. next (await fuel (xid t) t1) (want msg_ack))

  -- renewOnce(lease)
  unfoldable pub renew_once : ℕ → Lease → List Op → Outcome Lease
  renew_once fuel lease t =
      if is_empty lease.server
      then returns (err no_server) t
      else renew_with fuel lease.server lease t

  -- rebind(lease)
  unfoldable pub rebind : ℕ → Lease → List Op → Outcome Lease
  rebind fuel lease t = renew_with fuel broadcast lease t

  -- The three ways to a new lease, each tried when the one before it failed.
  unfoldable pub next_lease : ℕ → Lease → List Op → Outcome Lease
  next_lease fuel lease t = retry (renew_once fuel lease t) (λ _ t1.
      retry (rebind fuel lease t1)
        (λ _ t2. retry (acquire fuel t2) (λ e t3. returns (err (lost e)) t3)))

  abbrev pub after_apply : Option Text → Lease → List Op → Outcome Lease
  after_apply none l t = returns (ok l) t
  after_apply (some e) l t = returns (err (apply_failed e)) t

  -- One round of `Renew`: the lease that is held behind it.
  unfoldable pub renew_round : ℕ → Lease → List Op → Outcome Lease
  renew_round fuel lease t = next (sleep_for lease.t1 t) (λ _ t1.
      next (next_lease fuel lease t1)
        (λ l t2. after_apply (w.fails t2 (apply l)) l (t2 ++ apply l ∷ [])))

  -- Renew(ctx, lease, apply), for so many rounds
  unfoldable pub renew : ℕ → ℕ → Lease → List Op → Outcome Lease
  renew fuel zero lease t = none
  renew fuel (suc rounds) lease t = next (renew_round fuel lease t) (renew fuel rounds)
