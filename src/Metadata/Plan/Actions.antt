-- ===== src/Metadata/Plan/Actions.antt =====
-- The interpretation of commands and the performing of actions.
use k0smos.Base.{
  ℕ, ap, ◌∙◌, Option, none, some, List, [], ◌∷◌, ◌++◌, ◌≡◌, ◌↔◌, refl, sym, map, In, append-nil,
  append_assoc, inl, inr, Option-cases,
}
use mathlib.Core.Path.{subst}
use k0smos.Base.Text.{Text}
use k0smos.Base.Io.{Env}
use k0smos.Base.Decimal.{ℤ}
use k0smos.Metadata.Plan.{Action, mkdir, chmod, chown, symlink, path_of}

-- The calls on the Applier interface.
pub data Op : Type 0 where
  mkdir_all : Text → ℕ → Op
  change_mode : Text → ℕ → Op
  change_owner : Text → ℤ → ℤ → Op
  make_symlink : Text → Text → Op

abbrev pub call_of : Action → Op
call_of (mkdir path) = mkdir_all path 0o755
call_of (chmod path mode) = change_mode path mode
call_of (chown path uid gid) = change_owner path uid gid
call_of (symlink path target) = make_symlink target path

module _ {E : Type 0} (fails : Env Op E) where
  abbrev pub collect : Action → Option E → List (Text × E) → List (Text × E)
  collect a none errs = errs
  collect a (some e) errs = (path_of a, e) ∷ errs

  -- RunActions(a, actions): the errors, and the calls made
  unfoldable pub run_actions : List Action → List Op → List (Text × E) × List Op
  run_actions [] t = ([], t)
  run_actions (a ∷ actions) t =
      let (errs, t') = run_actions actions (t ++ call_of a ∷ []) in
      (collect a (fails t (call_of a)) errs, t')

module _ {E : Type 0} (fails : Env Op E) where
  run_actions_trace :
      (l : List Action) (t : List Op) → (run_actions fails l t).1 ≡ t ++ map call_of l
  unfolding run_actions
  run_actions_trace [] t = sym (append-nil t)
  run_actions_trace (a ∷ l) t = rw (run_actions_trace l (t ++ call_of a ∷ []), append_assoc) refl

  -- An action at some place of the list, whose call fails after those of the actions before it.
  pub record FailedAt (l : List Action) (t : List Op) (p : Text) (e : E) : Type 0 where
    before : List Action
    action : Action
    after : List Action
    place : l ≡ before ++ action ∷ after
    fails_there : fails (t ++ map call_of before) (call_of action) ≡ some e
    path : path_of action ≡ p

  FailedAt-later :
      (a : Action) (l : List Action) (t : List Op) (p : Text) (e : E)
      → FailedAt l (t ++ call_of a ∷ []) p e
      → FailedAt (a ∷ l) t p e
  FailedAt-later a l t p e f = record {
    before = a ∷ f.before;
    action = f.action;
    after = f.after;
    place = ap (λ x. a ∷ x) f.place;
    fails_there =
        subst (λ x. fails x (call_of f.action) ≡ some e)
          (append_assoc t (call_of a ∷ []) (map call_of f.before)) f.fails_there;
    path = f.path;
  }

  errors_sound :
      (l : List Action) (t : List Op) (p : Text) (e : E)
      → In (p, e) (run_actions fails l t).0
      → FailedAt l t p e
  unfolding run_actions
  errors_sound [] t p e m = absurd m
  errors_sound (a ∷ l) t p e m = elim (Option-cases (fails t (call_of a))) [
    | inl n ↦ FailedAt-later a l t p e (errors_sound l (t ++ call_of a ∷ []) p e (rw n at m))
    | inr (d, s) ↦ elim (rw s at m) as (λ _. FailedAt (a ∷ l) t p e) [
      | inl q ↦ record {
        before = [];
        action = a;
        after = l;
        place = refl;
        fails_there =
            subst (λ x. fails x (call_of a) ≡ some e) (sym (append-nil t))
              (s ∙ ap (λ x. some x.1) q);
        path = ap (λ x. x.0) q;
      }
      | inr r ↦ FailedAt-later a l t p e (errors_sound l (t ++ call_of a ∷ []) p e r)
    ]
  ]

  In-collect :
      (x : Text × E) (c : Action) (o : Option E) (errs : List (Text × E))
      → In x errs
      → In x (collect fails c o errs)
  In-collect x c none errs m = m
  In-collect x c (some e) errs m = inr m

  errors_complete :
      (b : List Action) (a : Action) (l : List Action) (t : List Op) (e : E)
      → fails (t ++ map call_of b) (call_of a) ≡ some e
      → In (path_of a, e) (run_actions fails (b ++ a ∷ l) t).0
  unfolding run_actions
  errors_complete [] a l t e h =
      rw (subst (λ x. fails x (call_of a) ≡ some e) (append-nil t) h) (inl refl)
  errors_complete (c ∷ b) a l t e h =
      In-collect (path_of a, e) c (fails t (call_of c)) _
        (errors_complete b a l (t ++ call_of c ∷ []) e (
          subst (λ x. fails x (call_of a) ≡ some e)
            (sym (append_assoc t (call_of c ∷ []) (map call_of b))) h))

  -- Whatever fails, every action's call is made, once and in order; the errors are exactly those
  -- of the actions whose own calls failed, each with the action's path.
  pub run_actions_complete :
      (l : List Action) (t : List Op) (p : Text) (e : E)
      → ((run_actions fails l t).1 ≡ t ++ map call_of l)
        × (In (p, e) (run_actions fails l t).0 ↔ FailedAt l t p e)
  run_actions_complete l t p e = (run_actions_trace l t, (errors_sound l t p e, λ f. found f))
    where
      found : FailedAt l t p e → In (p, e) (run_actions fails l t).0
      found f =
          subst (λ x. In (x, e) (run_actions fails l t).0) f.path
            (subst (λ x. In (path_of f.action, e) (run_actions fails x t).0) (sym f.place)
              (errors_complete f.before f.action f.after t e f.fails_there))
