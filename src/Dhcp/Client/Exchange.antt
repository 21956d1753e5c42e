-- ===== src/Dhcp/Client/Exchange.antt =====
-- What precedes a lease that the client takes.
use mathlib.Core.Path.{subst}
use k0smos.Base.{
  ◌⊎◌, ℕ, zero, suc, ◌≡◌, refl, sym, ◌∙◌, Option, none, some, List, [], ◌∷◌, ◌++◌, ◌==◌, ==_iff,
  append_assoc, append-nil, ap, inl, inr, Bool-cases, Option-cases,
}
use k0smos.Base.Text.{Text}
use k0smos.Base.Io.{Result, ok, err}
use k0smos.Dhcp.{
  Bytes, Lease, Parsed, accepted, refused, parse, build_request, build_discover, msg_offer, msg_ack,
}
use k0smos.Dhcp.Client.{
  Op, send, recv, Failure, World, Client, Outcome, next, parse_reply, on_reply, await, want,
  request_lease, once, send_to, broadcast, timeout_of, ip_or_nil, xid, acquire, acquire_from, retry,
  unless_cancelled, sleep_for, retry_backoff, attempts, no_response,
}
use k0smos.Dhcp.Client.Behind.{Behind-trans, Extends-ran, Extends-once, Extends-sleep}

next_ok :
    {A B : Type 0} (o : Outcome A) (f : A → List Op → Outcome B) (b : B) (t : List Op)
    → next o f ≡ some (ok b, t)
    → (a : A) × (s : List Op) × (o ≡ some (ok a, s)) × (f a s ≡ some (ok b, t))
next_ok none f b t h = cc
next_ok (some (err e, s)) f b t h = cc
next_ok (some (ok a, s)) f b t h = (a, s, refl, h)

pub some_err :
    {A : Type 0} (e : Failure) (a : A) (s t : List Op)
    → ◌≡◌ {A = Outcome A} (some (err e, s)) (some (ok a, t))
    → ⊥
some_err e a s t h = cc

module _ (w : World) (c : Client) where
  -- The last of the calls `upto`, all made behind `since` but for those, receives a packet that is
  -- accepted as this reply to transaction x.
  pub record Received (since upto : List Op) (x : ℕ) (l : Lease) (msg_type : ℕ) : Type 0 where
    pub packet : Bytes
    pub at : List Op
    pub wait : List Op
    pub waited : at ≡ since ++ wait
    pub taken : upto ≡ at ++ recv (timeout_of c) ∷ []
    pub came : w.receive at ≡ ok packet
    pub accepts : parse packet x c.mac ≡ accepted l msg_type

  Received-later :
      (t : List Op) (op : Op) (t' : List Op) (x : ℕ) (l : Lease) (mt : ℕ)
      → Received (t ++ op ∷ []) t' x l mt
      → Received t t' x l mt
  Received-later t op t' x l mt r = record {
    packet = r.packet;
    at = r.at;
    wait = op ∷ r.wait;
    waited = r.waited ∙ append_assoc t (op ∷ []) r.wait;
    taken = r.taken;
    came = r.came;
    accepts = r.accepts;
  }

  module _ (x : ℕ) (l : Lease) (mt : ℕ) (s t' : List Op) (again : Outcome (Lease × ℕ))
      (later : again ≡ some (ok (l, mt), t') → Received s t' x l mt) where
    abbrev after : List Op
    after = s ++ recv (timeout_of c) ∷ []

    parsed_sound :
        (p : Bytes) (q : Parsed)
        → w.receive s ≡ ok p
        → parse p x c.mac ≡ q
        → on_reply w c (ok (elim q [ accepted k m ↦ some (k, m) | refused r ↦ none ])) after again
          ≡ some (ok (l, mt), t')
        → Received s t' x l mt
    parsed_sound p (accepted k m) came e g = record {
      packet = p;
      at = s;
      wait = [];
      waited = sym (append-nil s);
      taken = cc;
      came = came;
      accepts = cc;
    }
    parsed_sound p (refused r) came e g = later g

    reply_sound :
        (r : Result Text Bytes)
        → w.receive s ≡ r
        → on_reply w c (parse_reply w c x r) after again ≡ some (ok (l, mt), t')
        → Received s t' x l mt
    reply_sound (err e) came g = cc
    reply_sound (ok p) came g = parsed_sound p (parse p x c.mac) came refl g

  await_sound :
      (fuel x : ℕ) (t : List Op) (l : Lease) (mt : ℕ) (t' : List Op)
      → await w c fuel x t ≡ some (ok (l, mt), t')
      → Received t t' x l mt
  unfolding await
  await_sound zero x t l mt t' h = cc
  await_sound (suc fuel) x t l mt t' h =
      reply_sound x l mt t t' (await w c fuel x (t ++ recv (timeout_of c) ∷ []))
        (λ e.
          Received-later t (recv (timeout_of c)) t' x l mt
            (await_sound fuel x (t ++ recv (timeout_of c) ∷ []) l mt t' e))
        (w.receive t) refl h

  want_sound :
      (expected : ℕ) (l : Lease) (mt : ℕ) (t : List Op) (l' : Lease) (t' : List Op)
      → want w c expected (l, mt) t ≡ some (ok l', t')
      → (mt ≡ expected) × (l ≡ l') × (t ≡ t')
  want_sound expected l mt t l' t' h = elim (Bool-cases (mt == expected)) [
    | inl e ↦ ((==_iff mt expected).0 e, cc, cc)
    | inr e ↦ cc
  ]

  -- A reply of the wanted type.
  pub reply_wanted :
      (expected fuel x : ℕ) (t : List Op) (l : Lease) (t' : List Op)
      → next (await w c fuel x t) (want w c expected) ≡ some (ok l, t')
      → Received t t' x l expected
  reply_wanted expected fuel x t l t' h =
      let ((k, m), s, a, b) = next_ok (await w c fuel x t) (want w c expected) l t' h in
      let (e, f, g) = want_sound expected k m s l t' b in
      subst (λ y. Received t y x l expected) g
        (subst (λ y. Received t s x l y) e
          (subst (λ y. Received t s x y m) f (await_sound fuel x t k m s a)))

  pub sent :
      (p dst : Bytes) (t : List Op) (f : Unit → List Op → Outcome Lease) (l : Lease) (t' : List Op)
      → next (send_to w c p dst t) f ≡ some (ok l, t')
      → f tt (t ++ send p dst ∷ []) ≡ some (ok l, t')
  sent p dst t f l t' h = elim (Option-cases (w.fails t (send p dst))) [
    | inl n ↦ rw n at h
    | inr (e, s) ↦ absurd (some_err _ _ _ _ (rw s at h))
  ]

  abbrev pub request_for : ℕ → Lease → Op
  request_for x offer =
      send (build_request x c.mac c.hostname (ip_or_nil offer.ip) (ip_or_nil offer.server))
        broadcast

  -- A run of calls, all of them behind `t` but for those, up to `t'`: behind some further calls a
  -- discover went out, then an offer came in, a request for that offer went out, and an ACK came in
  -- that carries the lease, all in one transaction.
  pub record Acknowledged (t t' : List Op) (l : Lease) : Type 0 where
    pub tries : List Op
    pub offer : Lease
    pub asked : List Op
    pub transaction : ℕ
    pub chosen : transaction ≡ xid w c (t ++ tries)
    pub offered :
        Received
          ((t ++ tries) ++ send (build_discover transaction c.mac c.hostname) broadcast ∷ [])
          asked
          transaction
          offer
          msg_offer
    pub acked : Received (asked ++ request_for transaction offer ∷ []) t' transaction l msg_ack

  once_sound :
      (fuel : ℕ) (t : List Op) (l : Lease) (t' : List Op)
      → once w c fuel t ≡ some (ok l, t')
      → Acknowledged t t' l
  unfolding once
  once_sound fuel t l t' h =
      let x = xid w c t in
      let t1 = t ++ send (build_discover x c.mac c.hostname) broadcast ∷ [] in
      let a =
        sent (build_discover x c.mac c.hostname) broadcast t
          (λ _ t1.
            next (next (await w c fuel x t1) (want w c msg_offer)) (request_lease w c fuel x))
          l t' h in
      let (offer, t2, o, b) =
        next_ok (next (await w c fuel x t1) (want w c msg_offer)) (request_lease w c fuel x) l t'
          a in
      let k =
        sent (build_request x c.mac c.hostname (ip_or_nil offer.ip) (ip_or_nil offer.server))
          broadcast t2 (λ _ t3. next (await w c fuel x t3) (want w c msg_ack)) l t' b in
      record {
        tries = [];
        offer = offer;
        asked = t2;
        transaction = x;
        chosen = ap (xid w c) (sym (append-nil t));
        offered =
            subst
              (λ y.
                Received (y ++ send (build_discover x c.mac c.hostname) broadcast ∷ []) t2 x offer
                  msg_offer)
              (sym (append-nil t)) (reply_wanted msg_offer fuel x t1 offer t2 o);
        acked = reply_wanted msg_ack fuel x (t2 ++ request_for x offer ∷ []) l t' k;
      }

  pub Acknowledged-later :
      (t u s t' : List Op) (l : Lease) → s ≡ t ++ u → Acknowledged s t' l → Acknowledged t t' l
  Acknowledged-later t u s t' l e a =
      let longer : s ++ a.tries ≡ t ++ (u ++ a.tries) =
        ap (λ y. y ++ a.tries) e ∙ append_assoc t u a.tries in
      record {
        tries = u ++ a.tries;
        offer = a.offer;
        asked = a.asked;
        transaction = a.transaction;
        chosen = a.chosen ∙ ap (xid w c) longer;
        offered =
            subst
              (λ y.
                Received (y ++ send (build_discover a.transaction c.mac c.hostname) broadcast ∷ [])
                  a.asked a.transaction a.offer msg_offer)
              longer a.offered;
        acked = a.acked;
      }

  pub retry_ok :
      (o : Outcome Lease) (again : Failure → List Op → Outcome Lease) (l : Lease) (t : List Op)
      → retry w c o again ≡ some (ok l, t)
      → (o ≡ some (ok l, t))
        ⊎ ((e : Failure) × (s : List Op) × (o ≡ some (err e, s)) × (again e s ≡ some (ok l, t)))
  retry_ok none again l t h = inl h
  retry_ok (some (ok k, s)) again l t h = inl h
  retry_ok (some (err e, s)) again l t h = inr (e, s, refl, h)

  unless_ok :
      (x : Option Text) (s : List Op) (go : Outcome Lease) (l : Lease) (t : List Op)
      → unless_cancelled w c x s go ≡ some (ok l, t)
      → go ≡ some (ok l, t)
  unless_ok none s go l t h = h
  unless_ok (some e) s go l t h = absurd (some_err _ _ _ _ h)

  acquire_from_sound :
      (fuel n : ℕ) (last : Failure) (t : List Op) (l : Lease) (t' : List Op)
      → acquire_from w c fuel n last t ≡ some (ok l, t')
      → Acknowledged t t' l
  unfolding acquire_from
  acquire_from_sound fuel zero last t l t' h = absurd (some_err _ _ _ _ h)
  acquire_from_sound fuel (suc zero) last t l t' h =
      elim (retry_ok (once w c fuel t) (λ e t1. some (err e, t1)) l t'
        (unless_ok (w.context t) t _ l t' h)) [
          | inl o ↦ once_sound fuel t l t' o
          | inr (e, s, _, g) ↦ absurd (some_err _ _ _ _ g)
        ]
  acquire_from_sound fuel (suc (suc n)) last t l t' h =
      let again : Failure → List Op → Outcome Lease = λ e t1.
        next (sleep_for w c retry_backoff t1) (λ _ t2. acquire_from w c fuel (suc n) e t2) in
      elim (retry_ok (once w c fuel t) again l t' (unless_ok (w.context t) t _ l t' h)) [
        | inl o ↦ once_sound fuel t l t' o
        | inr (e, s, f, g) ↦
            let (u, t2, k, m) =
              next_ok (sleep_for w c retry_backoff s) (λ _ t2. acquire_from w c fuel (suc n) e t2) l
                t' g in
            let tried = Extends-ran t s (err e) (once w c fuel t) (Extends-once w c fuel t) f in
            let slept =
              Extends-ran s t2 (ok u) (sleep_for w c retry_backoff s)
                (Extends-sleep w c retry_backoff s) k in
            let (more, joined) = Behind-trans t s t2 tried slept in
            Acknowledged-later t more t2 t' l joined (acquire_from_sound fuel (suc n) e t2 l t' m)
      ]

  -- A lease that `Acquire` returns, however many attempts were needed and whatever else was
  -- received, is that of an ACK of a transaction of this run. In that transaction this client, in
  -- this order, sent a discover, received an offer, sent a request for what was offered, and
  -- received the ACK, by the last call of the run. That the ACK gives the address that was offered
  -- is not checked by the code, and not stated.
  pub acquire-Acknowledged :
      (fuel : ℕ) (t : List Op) (l : Lease) (t' : List Op)
      → acquire w c fuel t ≡ some (ok l, t')
      → Acknowledged t t' l
  unfolding acquire
  acquire-Acknowledged fuel t l t' h = acquire_from_sound fuel (attempts c) no_response t l t' h
