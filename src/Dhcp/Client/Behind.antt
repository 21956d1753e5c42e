-- ===== src/Dhcp/Client/Behind.antt =====
-- The calls of the client, behind those made before.
use mathlib.Core.Path.{subst}
use k0smos.Base.{
  ℕ, zero, suc, ◌≡◌, refl, sym, ◌∙◌, Option, none, some, List, [], ◌∷◌, ◌++◌, ◌==◌, append_assoc,
  append-nil, ap, inl, inr, Bool-cases, Option-cases,
}
use k0smos.Base.Text.{Text, is_empty}
use k0smos.Base.Io.{Result, ok, err}
use k0smos.Dhcp.{Bytes, Lease, build_request, build_discover, build_renew, msg_offer, msg_ack}
use k0smos.Dhcp.Client.{
  Op, renew_with, renew_once, rebind, send, recv, sleep, Failure, World, Client, Outcome, next,
  parse_reply, on_reply, await, want, request_lease, once, send_to, broadcast, timeout_of,
  ip_or_nil, xid, sleep_for,
}

-- The calls made are those of `t` and further ones.
abbrev pub Behind : List Op → List Op → Type 0
Behind t t' = (u : List Op) × (t' ≡ t ++ u)

pub Behind-trans : (t s u : List Op) → Behind t s → Behind s u → Behind t u
Behind-trans t s u (v, e) (v', e') = (v ++ v', e' ∙ ap (λ y. y ++ v') e ∙ append_assoc t v v')

abbrev pub Extends : {A : Type 0} → List Op → Outcome A → Type 0
Extends t none = Unit
Extends t (some (r, t')) = Behind t t'

pub Extends-later :
    {A : Type 0} (t s : List Op) (o : Outcome A) → Behind t s → Extends s o → Extends t o
Extends-later t s none b h = tt
Extends-later t s (some (r, t')) b h = Behind-trans t s t' b h

Extends-next :
    {A B : Type 0} (t : List Op) (o : Outcome A) (f : A → List Op → Outcome B)
    → Extends t o
    → ((a : A) (s : List Op) → Extends s (f a s))
    → Extends t (next o f)
Extends-next t none f h g = tt
Extends-next t (some (err e, s)) f h g = h
Extends-next t (some (ok a, s)) f h g = Extends-later t s (f a s) h (g a s)

pub Extends-ran :
    {A : Type 0} (t t' : List Op) (r : Result Failure A) (o : Outcome A)
    → Extends t o
    → o ≡ some (r, t')
    → Behind t t'
Extends-ran t t' r o h e = subst (Extends t) e h

module _ (w : World) (c : Client) where
  Extends-send : (p dst : Bytes) (t : List Op) → Extends t (send_to w c p dst t)
  Extends-send p dst t = elim (Option-cases (w.fails t (send p dst))) [
    | inl n ↦ rw n (send p dst ∷ [], refl)
    | inr (e, s) ↦ rw s (send p dst ∷ [], refl)
  ]

  pub Extends-sleep : (d : ℕ) (t : List Op) → Extends t (sleep_for w c d t)
  Extends-sleep d t = elim (Option-cases (w.fails t (sleep d))) [
    | inl n ↦ rw n (sleep d ∷ [], refl)
    | inr (e, s) ↦ rw s (sleep d ∷ [], refl)
  ]

  Extends-reply :
      (r : Result Text (Option (Lease × ℕ))) (t : List Op) (again : Outcome (Lease × ℕ))
      → Extends (t ++ recv (timeout_of c) ∷ []) again
      → Extends t (on_reply w c r (t ++ recv (timeout_of c) ∷ []) again)
  Extends-reply (err e) t again h = (recv (timeout_of c) ∷ [], refl)
  Extends-reply (ok none) t again h =
      Extends-later t (t ++ recv (timeout_of c) ∷ []) again (recv (timeout_of c) ∷ [], refl) h
  Extends-reply (ok (some k)) t again h = (recv (timeout_of c) ∷ [], refl)

  Extends-await : (fuel x : ℕ) (t : List Op) → Extends t (await w c fuel x t)
  unfolding await
  Extends-await zero x t = tt
  Extends-await (suc fuel) x t =
      Extends-reply (parse_reply w c x (w.receive t)) t
        (await w c fuel x (t ++ recv (timeout_of c) ∷ []))
        (Extends-await fuel x (t ++ recv (timeout_of c) ∷ []))

  Extends-want : (expected : ℕ) (r : Lease × ℕ) (t : List Op) → Extends t (want w c expected r t)
  Extends-want expected (l, mt) t = elim (Bool-cases (mt == expected)) [
    | inl e ↦ rw e ([], sym (append-nil t))
    | inr e ↦ rw e ([], sym (append-nil t))
  ]

  Extends-wanted :
      (expected fuel x : ℕ) (t : List Op)
      → Extends t (next (await w c fuel x t) (want w c expected))
  Extends-wanted expected fuel x t =
      Extends-next t (await w c fuel x t) (want w c expected) (Extends-await fuel x t)
        (Extends-want expected)

  pub Extends-once : (fuel : ℕ) (t : List Op) → Extends t (once w c fuel t)
  unfolding once
  Extends-once fuel t =
      let x = xid w c t in
      Extends-next t (send_to w c (build_discover x c.mac c.hostname) broadcast t) _
        (Extends-send (build_discover x c.mac c.hostname) broadcast t)
        (λ _ t1.
          Extends-next t1 (next (await w c fuel x t1) (want w c msg_offer))
            (request_lease w c fuel x) (Extends-wanted msg_offer fuel x t1)
            (λ offer t2.
              Extends-next t2
                (send_to w c
                  (build_request x c.mac c.hostname (ip_or_nil offer.ip) (ip_or_nil offer.server))
                  broadcast t2)
                _ (Extends-send _ broadcast t2) (λ _ t3. Extends-wanted msg_ack fuel x t3)))

  Extends-renew_with :
      (fuel : ℕ) (dst : Bytes) (old : Lease) (t : List Op)
      → Extends t (renew_with w c fuel dst old t)
  Extends-renew_with fuel dst old t =
      let x = xid w c t in
      Extends-next t (send_to w c (build_renew x c.mac c.hostname old.ip) dst t) _
        (Extends-send (build_renew x c.mac c.hostname old.ip) dst t)
        (λ _ t1. Extends-wanted msg_ack fuel x t1)

  pub Extends-renew_once :
      (fuel : ℕ) (old : Lease) (t : List Op) → Extends t (renew_once w c fuel old t)
  unfolding renew_once
  Extends-renew_once fuel old t = elim (Bool-cases (is_empty old.server)) [
    | inl e ↦ rw e ([], sym (append-nil t))
    | inr e ↦ rw e (Extends-renew_with fuel old.server old t)
  ]

  pub Extends-rebind : (fuel : ℕ) (old : Lease) (t : List Op) → Extends t (rebind w c fuel old t)
  unfolding rebind
  Extends-rebind fuel old t = Extends-renew_with fuel broadcast old t
