-- ===== src/Mount/Ensure.antt =====
-- What `Ensure` mounts.
use k0smos.Base.{
  not, Option, List, [], ◌∷◌, ◌++◌, ◌≡◌, refl, sym, ◌∙◌, select, inl, inr, Bool-cases,
}
use mathlib.Core.Path.{subst}
use k0smos.Base.Text.{Text}
use k0smos.Base.Io.{Env, attempt}
use k0smos.Base.Sequence.{Step, perform, Performed, perform-Performed, perform-attempt, bind_assoc}
use k0smos.Mount.{
  Op, mounts, mkdir, Failure, mkdir_failed, mount_failed, Spec, mount_op, has_target, existing,
  default_specs, ensure_each, ensure,
}

abbrev pub missing : List Text → List Spec → List Spec
missing have ss = select (λ s. not (has_target s.target have)) ss

module _ (fails : Env Op Text) where
  abbrev pub steps : List Spec → List (Step Op Text Failure)
  steps [] = []
  steps (s ∷ ss) =
      (mkdir s.target s.perm, mkdir_failed s.target)
      ∷ (mount_op s, mount_failed s.target)
      ∷ steps ss

  ensure_each-perform :
      (have : List Text) (ss : List Spec) (t : List Op)
      → ensure_each fails have ss t ≡ perform fails (steps (missing have ss)) t
  unfolding ensure_each perform
  ensure_each-perform have [] t = refl
  ensure_each-perform have (s ∷ ss) t = elim (Bool-cases (has_target s.target have)) [
    | inl e ↦ rw e (ensure_each-perform have ss t)
    | inr e ↦ rw e (
        bind_assoc (attempt fails (mkdir s.target s.perm) (mkdir_failed s.target))
          (attempt fails (mount_op s) (mount_failed s.target)) (ensure_each fails have ss) t
        ∙ perform-attempt fails _ _ ((mount_op s, mount_failed s.target) ∷ steps (missing have ss))
            _ t
            (λ k.
              perform-attempt fails _ _ (steps (missing have ss)) _ k
                (ensure_each-perform have ss)))
  ]

  -- `Ensure` reads the mount table, and an unreadable one counts as empty; it then creates and
  -- mounts, in their order, exactly the default filesystems whose targets are not in the table; the
  -- first failure ends it and is its error.
  pub ensure-Performed :
      (table : List Op → Option (List Text)) (t : List Op)
      → Performed fails
          (steps (missing (existing (table (t ++ mounts ∷ []))) default_specs))
          (t ++ mounts ∷ [])
          (ensure fails table t)
  unfolding ensure
  ensure-Performed table t =
      subst (Performed fails _ (t ++ mounts ∷ []))
        (sym (ensure_each-perform _ default_specs (t ++ mounts ∷ []))) (perform-Performed fails _ _)
