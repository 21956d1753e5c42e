-- ===== src/Nethub/Ports.antt =====
-- What was sent to one port.
use k0smos.Base.{
  zero, suc, ℕ, ◌<◌, ◌≡◌, ◌≢◌, refl, sym, ap, ◌∙◌, Bool, true, false, List, [], ◌∷◌, ◌++◌, take,
  drop, length, inl, inr, All, All-append, arith, append_assoc, append-nil,
}
use k0smos.Nethub.Framing.{Bytes, encode}
use k0smos.Nethub.Framing.Stream.{IsFrame, on_wire, Partial}

abbrev pub frames_of : List (ℕ × Bytes) → List Bytes
frames_of [] = []
frames_of ((p, f) ∷ l) = f ∷ frames_of l

-- A frame that another port sent.
abbrev pub FromOther : ℕ → ℕ × Bytes → Type 0
FromOther q (p, f) = (p ≢ q) × IsFrame f

pub record IsSoundPort (q : ℕ) (out : Bytes) (broken : Bool) (got : List (ℕ × Bytes)) : Type 0 where
  pub rest : Bytes
  pub shape : out ≡ on_wire (frames_of got) ++ rest
  pub partial : Partial rest
  pub whole : broken ≡ false → rest ≡ []
  pub senders : All (FromOther q) got

frames_of-append : (l k : List (ℕ × Bytes)) → frames_of (l ++ k) ≡ frames_of l ++ frames_of k
frames_of-append [] k = refl
frames_of-append ((p, f) ∷ l) k = ap (λ t. f ∷ t) (frames_of-append l k)

on_wire-append : (l k : List Bytes) → on_wire (l ++ k) ≡ on_wire l ++ on_wire k
on_wire-append [] k = refl
on_wire-append (f ∷ l) k =
    rw (on_wire-append l k) (sym (append_assoc (encode f) (on_wire l) (on_wire k)))

take-drop : (n : ℕ) (s : Bytes) → take n s ++ drop n s ≡ s
take-drop zero s = refl
take-drop (suc n) [] = refl
take-drop (suc n) (c ∷ s) = ap (λ t. c ∷ t) (take-drop n s)

drop_left : (n : ℕ) (s : Bytes) → n < length s → 0 < length (drop n s)
drop_left zero s h = h
drop_left (suc n) [] h = absurd (omega (arith, h))
drop_left (suc n) (c ∷ s) h = drop_left n s (omega (arith, h))

-- What was sent to a port whose connection still takes something.
whole_out :
    (q : ℕ) (out : Bytes) (got : List (ℕ × Bytes))
    → IsSoundPort q out false got
    → out ≡ on_wire (frames_of got)
whole_out q out got s =
    s.shape ∙ ap (λ r. on_wire (frames_of got) ++ r) (s.whole refl) ∙ append-nil _

module _ (q p : ℕ) (f : Bytes) (fits : IsFrame f) (other : p ≢ q) where
  pub IsSoundPort-write :
      (out : Bytes) (got : List (ℕ × Bytes))
      → IsSoundPort q out false got
      → IsSoundPort q (out ++ encode f) false (got ++ (p, f) ∷ [])
  IsSoundPort-write out got s = record {
    rest = [];
    shape =
        rw
          (
            whole_out q out got s,
            frames_of-append got ((p, f) ∷ []),
            on_wire-append (frames_of got) (f ∷ []),
          )
          (sym (append-nil _ ∙ ap (λ t. on_wire (frames_of got) ++ t) (append-nil (encode f))));
    partial = inl refl;
    whole = λ _. refl;
    senders = All-append (FromOther q) got ((p, f) ∷ []) s.senders ((other, fits), tt);
  }

  pub IsSoundPort-part :
      (n : ℕ) (out : Bytes) (got : List (ℕ × Bytes))
      → n < length (encode f)
      → IsSoundPort q out false got
      → IsSoundPort q (out ++ take n (encode f)) true got
  IsSoundPort-part n out got l s = record {
    rest = take n (encode f);
    shape = ap (λ o. o ++ take n (encode f)) (whole_out q out got s);
    partial = inr (record {
      frame = f;
      fits = fits;
      missing = drop n (encode f);
      some_missing = drop_left n (encode f) l;
      whole = take-drop n (encode f);
    });
    whole = λ e. cc;
    senders = s.senders;
  }

pub IsSoundPort-broken :
    (q : ℕ) (out : Bytes) (b : Bool) (got : List (ℕ × Bytes))
    → IsSoundPort q out b got
    → IsSoundPort q out true got
IsSoundPort-broken q out b got s = record {
  rest = s.rest;
  shape = s.shape;
  partial = s.partial;
  whole = λ e. cc;
  senders = s.senders;
}
