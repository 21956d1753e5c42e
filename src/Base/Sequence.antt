-- ===== src/Base/Sequence.antt =====
-- Calls that are attempted one behind the other until one fails.
use mathlib.Core.Path.{◌≡◌, refl, sym, subst, ap, ◌∙◌}
use mathlib.Core.Logic.{inl, inr}
use mathlib.Core.Option.{none, some}
use mathlib.Core.List.{List, [], ◌∷◌, ◌++◌, append-nil, append_assoc}
use k0smos.Base.Tests.{Option-cases}
use k0smos.Base.Io.{Result, ok, err, Env, Io, pure, attempt, continue, ◌>>◌}

-- A call, and what its error is wrapped in.
abbrev pub Step : Type 0 → Type 0 → Type 0 → Type 0
Step Op F E = Op × (F → E)

abbrev pub calls : {Op F E : Type 0} → List (Step Op F E) → List Op
calls [] = []
calls ((op, wrap) ∷ l) = op ∷ calls l

module _ {Op F E : Type 0} (env : Env Op F) where
  unfoldable pub perform : List (Step Op F E) → Io Op E Unit
  perform [] = pure tt
  perform ((op, wrap) ∷ l) = attempt env op wrap >> perform l

  abbrev pub Succeeds : List (Step Op F E) → List Op → Type 0
  Succeeds [] t = Unit
  Succeeds ((op, wrap) ∷ l) t = (env t op ≡ none) × Succeeds l (t ++ op ∷ [])

  -- A step whose call fails, all steps before it having succeeded.
  pub record FailsAt (l : List (Step Op F E)) (t : List Op) (e : E) (t' : List Op) : Type 0 where
    pub before : List (Step Op F E)
    pub op : Op
    pub wrap : F → E
    pub after : List (Step Op F E)
    pub cause : F
    pub place : l ≡ before ++ (op, wrap) ∷ after
    pub succeeded : Succeeds before t
    pub failed : env (t ++ calls before) op ≡ some cause
    pub wrapped : e ≡ wrap cause
    pub made : t' ≡ t ++ (calls before ++ op ∷ [])

  -- All steps succeed and their calls are made; or the calls up to the first that fails are made,
  -- and its error is the result.
  abbrev pub Performed : List (Step Op F E) → List Op → Result E Unit × List Op → Type 0
  Performed l t (ok u, t') = Succeeds l t × (t' ≡ t ++ calls l)
  Performed l t (err e, t') = FailsAt l t e t'

  Performed-cons :
      (op : Op) (wrap : F → E) (l : List (Step Op F E)) (t : List Op) (r : Result E Unit × List Op)
      → env t op ≡ none
      → Performed l (t ++ op ∷ []) r
      → Performed ((op, wrap) ∷ l) t r
  Performed-cons op wrap l t (ok u, t') n (s, e) = ((n, s), e ∙ append_assoc t (op ∷ []) (calls l))
  Performed-cons op wrap l t (err x, t') n f = record {
    before = (op, wrap) ∷ f.before;
    op = f.op;
    wrap = f.wrap;
    after = f.after;
    cause = f.cause;
    place = ap (λ k. (op, wrap) ∷ k) f.place;
    succeeded = (n, f.succeeded);
    failed =
        subst (λ k. env k f.op ≡ some f.cause) (append_assoc t (op ∷ []) (calls f.before)) f.failed;
    wrapped = f.wrapped;
    made = f.made ∙ append_assoc t (op ∷ []) (calls f.before ++ f.op ∷ []);
  }

  pub perform-Performed : (l : List (Step Op F E)) (t : List Op) → Performed l t (perform l t)
  unfolding perform
  perform-Performed [] t = (tt, sym (append-nil t))
  perform-Performed ((op, wrap) ∷ l) t = elim (Option-cases (env t op)) [
    | inl n ↦ rw n (
        Performed-cons op wrap l t (perform l (t ++ op ∷ [])) n
          (perform-Performed l (t ++ op ∷ [])))
    | inr (c, s) ↦ rw s (record {
      before = [];
      op = op;
      wrap = wrap;
      after = l;
      cause = c;
      place = refl;
      succeeded = tt;
      failed = subst (λ k. env k op ≡ some c) (sym (append-nil t)) s;
      wrapped = refl;
      made = refl;
    })
  ]

  -- One step and then a run.
  pub perform-attempt :
      (a : Op) (f : F → E) (l : List (Step Op F E)) (m : Io Op E Unit) (t : List Op)
      → ((k : List Op) → m k ≡ perform l k)
      → (attempt env a f >> m) t ≡ perform ((a, f) ∷ l) t
  unfolding perform
  perform-attempt a f l m t h = elim (Option-cases (env t a)) [
    | inr (c, s) ↦ rw s refl
    | inl n ↦ rw n (h (t ++ a ∷ []))
  ]

pub bind_assoc :
    {Op E : Type 0} (x y z : Io Op E Unit) (t : List Op) → ((x >> y) >> z) t ≡ (x >> (y >> z)) t
bind_assoc {Op} {E} x y z t = by_result (x t)
  where
    by_result :
        (r : Result E Unit × List Op)
        → (let (s, t') = (let (a, b) = r in continue a (λ _. y) b) in continue s (λ _. z) t')
          ≡ (let (a, b) = r in continue a (λ _. y >> z) b)
    by_result (ok u, b) = refl
    by_result (err e, b) = refl
