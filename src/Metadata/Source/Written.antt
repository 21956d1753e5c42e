-- ===== src/Metadata/Source/Written.antt =====
-- The writing of the files that user-data asks for.
use mathlib.Core.Path.{subst}
use k0smos.Base.{◌≡◌, refl, sym, ◌∙◌, inl, inr, List, [], ◌∷◌, Bool-cases, if◌then◌else◌}
use k0smos.Base.Text.{Text, is_empty}
use k0smos.Base.Paths.{path_dir}
use k0smos.Base.Io.{Env, attempt}
use k0smos.Base.Sequence.{Step, perform, Performed, perform-Performed, perform-attempt, bind_assoc}
use k0smos.Metadata.Document.{WriteFile, UserData, mode}
use k0smos.Metadata.Source.{
  Op, mkdir_all, write_file, Failure, mkdir_failed, write_failed, apply_each, apply,
}

-- The calls for some files: for each that has a path, its directory and itself.
abbrev pub file_steps : List WriteFile → List (Step Op Text Failure)
file_steps [] = []
file_steps (f ∷ fs) =
    if is_empty f.path
    then file_steps fs
    else (mkdir_all (path_dir f.path) 0o755, mkdir_failed f.path)
      ∷ (write_file f.path f.content (mode f), write_failed f.path)
      ∷ file_steps fs

module _ (fails : Env Op Text) where
  apply_each-perform :
      (fs : List WriteFile) (t : List Op) → apply_each fails fs t ≡ perform fails (file_steps fs) t
  unfolding apply_each perform
  apply_each-perform [] t = refl
  apply_each-perform (f ∷ fs) t = elim (Bool-cases (is_empty f.path)) [
    | inl e ↦ rw e (apply_each-perform fs t)
    | inr e ↦ rw e (
        bind_assoc (attempt fails (mkdir_all (path_dir f.path) 0o755) (mkdir_failed f.path))
          (attempt fails (write_file f.path f.content (mode f)) (write_failed f.path))
          (apply_each fails fs) t
        ∙ perform-attempt fails _ _
            ((write_file f.path f.content (mode f), write_failed f.path) ∷ file_steps fs) _ t
            (λ k. perform-attempt fails _ _ (file_steps fs) _ k (apply_each-perform fs)))
  ]

  -- `Apply` makes, for each file of user-data that has a path, in their order, the file's directory
  -- and the file with its mode, whatever was called before; the first failure ends it and is its
  -- error, and nothing is called behind it.
  pub apply-Performed :
      (u : UserData) (t : List Op) → Performed fails (file_steps u.write_files) t (apply fails u t)
  unfolding apply
  apply-Performed u t =
      subst (Performed fails _ t) (sym (apply_each-perform u.write_files t))
        (perform-Performed fails _ _)
