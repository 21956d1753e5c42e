-- ===== src/Mount/Writable.antt =====
-- What `MakeWritable` and the set-up of cgroups mount.
use k0smos.Base.{drop, inl, inr, Option-cases, List, [], ◌∷◌, ◌≡◌, refl, sym, ◌∙◌}
use mathlib.Core.Path.{subst}
use k0smos.Base.Text.{Text, codes}
use k0smos.Base.Io.{Env, attempt, ◌>>◌}
use k0smos.Base.Sequence.{Step, perform, Performed, perform-Performed, perform-attempt, bind_assoc}
use k0smos.Mount.{
  Op, mkdir, mount, Failure, mkdir_failed, mount_failed, join_scratch, overlay_op, make_writable,
  setup, cgroup_root, subtree_control, write_file, write_failed,
}

module _ (fails : Env Op Text) where
  abbrev pub overlay_steps : List Text → List (Step Op Text Failure)
  overlay_steps [] = []
  overlay_steps (p ∷ ps) =
      (mkdir (join_scratch p (codes "upper")) 0o755, mkdir_failed (join_scratch p (codes "upper")))
      ∷ (mkdir (join_scratch p (codes "work")) 0o755, mkdir_failed (join_scratch p (codes "work")))
      ∷ (overlay_op p, mount_failed p)
      ∷ overlay_steps ps

  make_writable-perform :
      (ps : List Text) (t : List Op) → make_writable fails ps t ≡ perform fails (overlay_steps ps) t
  unfolding make_writable perform
  make_writable-perform [] t = refl
  make_writable-perform (p ∷ ps) t =
      let x =
        attempt fails (mkdir (join_scratch p (codes "upper")) 0o755)
          (mkdir_failed (join_scratch p (codes "upper"))) in
      let y =
        attempt fails (mkdir (join_scratch p (codes "work")) 0o755)
          (mkdir_failed (join_scratch p (codes "work"))) in
      let z = attempt fails (overlay_op p) (mount_failed p) in
      let rest = make_writable fails ps in
      let work_on =
        (mkdir (join_scratch p (codes "work")) 0o755, mkdir_failed (join_scratch p (codes "work")))
        ∷ (overlay_op p, mount_failed p)
        ∷ overlay_steps ps in
      let mount_on = (overlay_op p, mount_failed p) ∷ overlay_steps ps in
      bind_assoc x (y >> z) rest t
      ∙ perform-attempt fails _ _ work_on _ t (λ k.
        bind_assoc y z rest k
        ∙ perform-attempt fails _ _ mount_on _ k
            (λ j. perform-attempt fails _ _ (overlay_steps ps) _ j (make_writable-perform ps)))

  -- `MakeWritable` creates the two scratch directories of a path before it mounts the path's
  -- overlay, path by path; the first failure ends it and is its error.
  pub make_writable-Performed :
      (ps : List Text) (t : List Op)
      → Performed fails (overlay_steps ps) t (make_writable fails ps t)
  make_writable-Performed ps t =
      subst (Performed fails (overlay_steps ps) t) (sym (make_writable-perform ps t))
        (perform-Performed fails (overlay_steps ps) t)

  abbrev pub setup_steps : List (Step Op Text Failure)
  setup_steps =
      (mkdir cgroup_root 0o755, mkdir_failed cgroup_root)
      ∷ (
        mount (codes "cgroup2") cgroup_root (codes "cgroup2") 0 (codes "nsdelegate"),
        mount_failed cgroup_root,
      )
      ∷ (
        write_file subtree_control (codes "+cpu +memory +pids +io") 0o644,
        write_failed cgroup_root,
      )
      ∷ []

  write_alone :
      (op : Op) (wrap : Text → Failure) (t : List Op)
      → attempt fails op wrap t ≡ perform fails ((op, wrap) ∷ []) t
  unfolding perform
  write_alone op wrap t = elim (Option-cases (fails t op)) [
    | inl n ↦ rw n refl
    | inr (c, s) ↦ rw s refl
  ]

  -- The set-up of cgroups creates the root, mounts the unified hierarchy on it, and then enables
  -- the controllers; the first failure ends it and is its error.
  pub setup-Performed : (t : List Op) → Performed fails setup_steps t (setup fails t)
  unfolding setup
  setup-Performed t =
      subst (Performed fails setup_steps t)
        (sym (
          perform-attempt fails _ _ (drop 1 setup_steps) _ t
            (λ k. perform-attempt fails _ _ (drop 2 setup_steps) _ k (write_alone _ _))))
        (perform-Performed fails setup_steps t)
