-- ===== src/Nethub/Flooding.antt =====
-- What a guest receives, in every run of the hub.
use mathlib.Core.Path.{subst}
use k0smos.Base.{
  ℕ, ◌<◌, ◌≡◌, ◌≢◌, refl, sym, ap, ◌∙◌, Bool, true, false, List, [], ◌∷◌, ◌++◌, if◌then◌else◌, ◌==◌,
  take, length, inl, inr, Bool-cases, All, arith,
}
use k0smos.Nethub.Framing.{Bytes, encode, serve, gone}
use k0smos.Nethub.Framing.Stream.{IsFrame, serve-on_wire}
use k0smos.Nethub.Hub.{
  Flood, Hub, initial, others, write_frame, write_part, advance, Step, accept, read, write, fail,
  skip, leave, close, end, Reach, listen, step,
}
use k0smos.Nethub.Ports.{
  frames_of, FromOther, IsSoundPort, IsSoundPort-write, IsSoundPort-part, IsSoundPort-broken,
}

abbrev IsSoundFlood : Flood → Type 0
IsSoundFlood fl = IsFrame fl.frame × All (λ q. fl.from ≢ q) fl.targets

record IsSound (h : Hub) : Type 0 where
  floods : All IsSoundFlood h.floods
  ports : (q : ℕ) → IsSoundPort q (h.output q) (h.broken q) (h.got q)

-- How a case on the port that an operation is about is split.
port_case : (q r : ℕ) (P : Bool → Type 0) → (q ≡ r → P true) → P false → P (r == q)
port_case q r P same other = elim (Bool-cases (r == q)) [
  | inl e ↦ rw e (same (ground (arith, e)))
  | inr e ↦ rw e other
]

All-middle :
    (P : Flood → Type 0) (before : List Flood) (fl : Flood) (after : List Flood)
    → All P (before ++ fl ∷ after)
    → P fl × ((g : Flood) → P g → All P (before ++ g ∷ after))
All-middle P [] fl after (p, h) = (p, λ g pg. (pg, h))
All-middle P (b ∷ before) fl after (pb, h) =
    let (p, put) = All-middle P before fl after h in (p, λ g pg. (pb, put g pg))

others-≢ : (p : ℕ) (ports : List ℕ) → All (λ q. p ≢ q) (others p ports)
others-≢ p [] = tt
others-≢ p (q ∷ qs) = elim (Bool-cases (q == p)) [
  | inl e ↦ rw e (others-≢ p qs)
  | inr e ↦ rw e ((λ eq. ground (arith, e, eq)), others-≢ p qs)
]

-- A flood with a target yet, among sound ones: its frame fits, the target is not the sender, and
-- the flood stays sound behind the target.
IsSoundFlood-advance :
    (floods before : List Flood) (fl : Flood) (after : List Flood) (q : ℕ) (qs : List ℕ)
    → All IsSoundFlood floods
    → floods ≡ before ++ fl ∷ after
    → fl.targets ≡ q ∷ qs
    → IsFrame fl.frame
      × (fl.from ≢ q)
      × All IsSoundFlood (before ++ record fl { targets = qs } ∷ after)
IsSoundFlood-advance floods before fl after q qs h e et =
    let ((fits, targets), put) =
      All-middle IsSoundFlood before fl after (subst (All IsSoundFlood) e h) in
    let (ne, left) = subst (All (λ q. fl.from ≢ q)) et targets in
    (fits, ne, put (record fl { targets = qs }) (fits, left))

IsSound-write :
    (h : Hub) (before : List Flood) (fl : Flood) (after : List Flood) (q : ℕ) (qs : List ℕ)
    → IsSound h
    → h.floods ≡ before ++ fl ∷ after
    → fl.targets ≡ q ∷ qs
    → h.broken q ≡ false
    → IsSound (advance before fl qs after (write_frame q fl h))
IsSound-write h before fl after q qs s e et eb =
    let (fits, ne, left) = IsSoundFlood-advance h.floods before fl after q qs s.floods e et in
    let here =
      IsSoundPort-write q fl.from fl.frame fits ne (h.output q) (h.got q)
        (subst (λ b. IsSoundPort q (h.output q) b (h.got q)) eb (s.ports q)) in
    record {
      floods = left;
      ports = λ r.
          port_case q r
            (λ b.
              IsSoundPort r (if b then h.output q ++ encode fl.frame else h.output r) (h.broken r)
                (if b then h.got q ++ (fl.from, fl.frame) ∷ [] else h.got r))
            (λ er.
              subst
                (λ t.
                  IsSoundPort t (h.output q ++ encode fl.frame) (h.broken t)
                    (h.got q ++ (fl.from, fl.frame) ∷ []))
                er
                (subst
                  (λ b.
                    IsSoundPort q (h.output q ++ encode fl.frame) b
                      (h.got q ++ (fl.from, fl.frame) ∷ []))
                  (sym eb) here))
            (s.ports r);
    }

IsSound-fail :
    (h : Hub) (before : List Flood) (fl : Flood) (after : List Flood) (q n : ℕ) (qs : List ℕ)
    → IsSound h
    → h.floods ≡ before ++ fl ∷ after
    → fl.targets ≡ q ∷ qs
    → h.broken q ≡ false
    → n < length (encode fl.frame)
    → IsSound (advance before fl qs after (write_part q n fl h))
IsSound-fail h before fl after q n qs s e et eb l =
    let (fits, ne, left) = IsSoundFlood-advance h.floods before fl after q qs s.floods e et in
    let here =
      IsSoundPort-part q fl.from fl.frame fits ne n (h.output q) (h.got q) l
        (subst (λ b. IsSoundPort q (h.output q) b (h.got q)) eb (s.ports q)) in
    record {
      floods = left;
      ports = λ r.
          port_case q r
            (λ b.
              IsSoundPort r (if b then h.output q ++ take n (encode fl.frame) else h.output r)
                (if b then true else h.broken r) (h.got r))
            (λ er.
              subst (λ t. IsSoundPort t (h.output q ++ take n (encode fl.frame)) true (h.got t)) er
                here)
            (s.ports r);
    }

Step-IsSound : {h k : Hub} → Step h k → IsSound h → IsSound k
Step-IsSound (accept h p eo ep) s = record { floods = s.floods; ports = s.ports }
Step-IsSound (read h p frame ep hf) s = record {
  floods = ((hf, others-≢ p h.ports), s.floods);
  ports = s.ports;
}
Step-IsSound (write h before fl after q qs e et eb) s =
    IsSound-write h before fl after q qs s e et eb
Step-IsSound (fail h before fl after q n qs e et eb l) s =
    IsSound-fail h before fl after q n qs s e et eb l
Step-IsSound (skip h before fl after q qs e et eb) s =
    let (fits, ne, left) = IsSoundFlood-advance h.floods before fl after q qs s.floods e et in
    record { floods = left; ports = s.ports }
Step-IsSound (leave h p ep) s = record { floods = s.floods; ports = s.ports }
Step-IsSound (close h e) s = record { floods = s.floods; ports = s.ports }
Step-IsSound (end h p ep) s = record {
  floods = s.floods;
  ports = λ r.
      port_case p r (λ b. IsSoundPort r (h.output r) (if b then true else h.broken r) (h.got r))
        (λ e. IsSoundPort-broken r (h.output r) (h.broken r) (h.got r) (s.ports r)) (s.ports r);
}

initial-IsSound : IsSound initial
initial-IsSound = record {
  floods = tt;
  ports =
      λ q. record { rest = []; shape = refl; partial = inl refl; whole = λ _. refl; senders = tt };
}

Reach-IsSound : {h : Hub} → Reach h → IsSound h
Reach-IsSound listen = initial-IsSound
Reach-IsSound (step r s) = Step-IsSound s (Reach-IsSound r)

senders-IsFrame : (q : ℕ) (l : List (ℕ × Bytes)) → All (FromOther q) l → All IsFrame (frames_of l)
senders-IsFrame q [] h = tt
senders-IsFrame q ((p, f) ∷ l) ((_, hf), h) = (hf, senders-IsFrame q l h)

-- In every reachable state of the hub, whatever the order of its goroutines' steps and wherever
-- writes fail, what was sent to a port is read, by a loop like `serve`, as exactly the frames that
-- were sent to it whole, in their order, and none has a wrong length; and each of them is a legal
-- frame that another port sent.
pub received_from_others :
    (h : Hub) (q : ℕ)
    → Reach h
    → (serve (h.output q) ≡ (frames_of (h.got q), gone)) × All (FromOther q) (h.got q)
received_from_others h q r =
    let s = (Reach-IsSound r).ports q in
    (
      ap serve s.shape
          ∙ serve-on_wire (frames_of (h.got q)) s.rest (senders-IsFrame q _ s.senders) s.partial,
      s.senders,
    )
