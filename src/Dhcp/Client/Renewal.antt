-- ===== src/Dhcp/Client/Renewal.antt =====
-- Waiting among other clients' packets, and the renewal of a lease.
use mathlib.Core.Path.{subst}
use k0smos.Base.{
  ℕ, zero, suc, sym, ap, append-nil, ◌<◌, ◌≡◌, refl, ◌⊎◌, none, some, List, [], ◌∷◌, ◌++◌, arith,
  inl, inr, Bool-cases,
}
use k0smos.Base.Text.{is_empty}
use k0smos.Base.Io.{ok, err}
use k0smos.Dhcp.{Bytes, Lease, build_renew, msg_ack}
use k0smos.Dhcp.Client.{
  Op, send, recv, World, Client, next, parse_reply, await, want, timeout_of, xid, renew_with,
  renew_once, rebind, next_lease, acquire, broadcast,
}
use k0smos.Dhcp.Client.Exchange.{
  Received, Acknowledged, reply_wanted, sent, retry_ok, some_err, acquire-Acknowledged,
  Acknowledged-later,
}
use k0smos.Dhcp.Client.Behind.{Behind-trans, Extends-ran, Extends-renew_once, Extends-rebind}

module _ (w : World) (c : Client) where
  -- The calls behind n packets received.
  abbrev pub waited : List Op → ℕ → List Op
  waited t zero = t
  waited t (suc n) = waited (t ++ recv (timeout_of c) ∷ []) n

  -- Packets that are no replies to this transaction are passed over: if n of them come in and then
  -- one that is, with fuel for more than n packets, that one is the result, and n + 1 calls were
  -- made to receive it.
  pub await_first :
      (n fuel x : ℕ) (t : List Op) (r : Lease × ℕ)
      → ((j : ℕ) → j < n → parse_reply w c x (w.receive (waited t j)) ≡ ok none)
      → parse_reply w c x (w.receive (waited t n)) ≡ ok (some r)
      → n < fuel
      → await w c fuel x t ≡ some (ok r, waited t (suc n))
  unfolding await
  await_first n zero x t r skip hit l = absurd (omega (arith, l))
  await_first zero (suc fuel) x t r skip hit l = rw hit refl
  await_first (suc n) (suc fuel) x t r skip hit l = rw (skip 0 (omega arith)) (
      await_first n fuel x (t ++ recv (timeout_of c) ∷ []) r
        (λ j k. skip (suc j) (omega (arith, k))) hit (omega (arith, l)))

  -- In the calls behind `t`, up to `t'`, a request to renew the old lease went out to `dst`, and
  -- then an ACK of the same transaction came in that carries the new one.
  pub record Renewed (dst : Bytes) (old : Lease) (t t' : List Op) (l : Lease) : Type 0 where
    pub tries : List Op
    pub transaction : ℕ
    pub chosen : transaction ≡ xid w c (t ++ tries)
    pub acked :
        Received w c
          ((t ++ tries) ++ send (build_renew transaction c.mac c.hostname old.ip) dst ∷ [])
          t'
          transaction
          l
          msg_ack

  renew_with_sound :
      (fuel : ℕ) (dst : Bytes) (old : Lease) (t u s : List Op) (l : Lease) (t' : List Op)
      → s ≡ t ++ u
      → renew_with w c fuel dst old s ≡ some (ok l, t')
      → Renewed dst old t t' l
  renew_with_sound fuel dst old t u s l t' e h =
      let x = xid w c s in
      let request = build_renew x c.mac c.hostname old.ip in
      record {
        tries = u;
        transaction = x;
        chosen = ap (xid w c) e;
        acked =
            subst (λ y. Received w c (y ++ send request dst ∷ []) t' x l msg_ack) e
              (reply_wanted w c msg_ack fuel x (s ++ send request dst ∷ []) l t' (
                sent w c request dst s (λ _ t1. next (await w c fuel x t1) (want w c msg_ack)) l t'
                  h));
      }

  renew_once_sound :
      (fuel : ℕ) (old : Lease) (t : List Op) (l : Lease) (t' : List Op)
      → renew_once w c fuel old t ≡ some (ok l, t')
      → Renewed old.server old t t' l
  unfolding renew_once
  renew_once_sound fuel old t l t' h = elim (Bool-cases (is_empty old.server)) [
    | inl e ↦ absurd (some_err _ _ _ _ (rw e at h))
    | inr e ↦ renew_with_sound fuel old.server old t [] t l t' (sym (append-nil t)) (rw e at h)
  ]

  rebind_sound :
      (fuel : ℕ) (old : Lease) (t u s : List Op) (l : Lease) (t' : List Op)
      → s ≡ t ++ u
      → rebind w c fuel old s ≡ some (ok l, t')
      → Renewed broadcast old t t' l
  unfolding rebind
  rebind_sound fuel old t u s l t' e h = renew_with_sound fuel broadcast old t u s l t' e h

  -- A lease that replaces another is that of an ACK which the last call received: of a transaction
  -- in which, after the calls made before, the client sent a request to renew the old lease, to the
  -- server that the old lease names or by broadcast, or else of an exchange as `Acquire` makes it,
  -- with a discover, an offer and a request. Who sent the ACK is not checked by the code, and not
  -- stated.
  pub next_lease_sound :
      (fuel : ℕ) (old : Lease) (t : List Op) (l : Lease) (t' : List Op)
      → next_lease w c fuel old t ≡ some (ok l, t')
      → Renewed old.server old t t' l ⊎ Renewed broadcast old t t' l ⊎ Acknowledged w c t t' l
  unfolding next_lease
  next_lease_sound fuel old t l t' h = elim (retry_ok w c (renew_once w c fuel old t) _ l t' h) [
    | inl o ↦ inl (renew_once_sound fuel old t l t' o)
    | inr (e, s, f, g) ↦
        let asked =
          Extends-ran t s (err e) (renew_once w c fuel old t) (Extends-renew_once w c fuel old t)
            f in
        elim (retry_ok w c (rebind w c fuel old s) _ l t' g) [
          | inl o ↦ inr (inl (rebind_sound fuel old t asked.0 s l t' asked.1 o))
          | inr (d, u, i, k) ↦
              let (more, joined) = Behind-trans t s u asked (
                Extends-ran s u (err d) (rebind w c fuel old s) (Extends-rebind w c fuel old s)
                  i) in
              elim (retry_ok w c (acquire w c fuel u) _ l t' k) [
                | inl o ↦ inr (
                    inr (
                      Acknowledged-later w c t more u t' l joined
                        (acquire-Acknowledged w c fuel u l t' o)))
                | inr (_, v, _, m) ↦ absurd (some_err _ _ _ _ m)
              ]
        ]
  ]
