-- ===== src/Metadata/Source/Warned.antt =====
-- Files that `Load` asks for and cannot read.
use mathlib.Core.Path.{subst}
use k0smos.Base.{
  ◌≡◌, refl, ◌∙◌, ap, inl, inr, ◌⊎◌, List, [], ◌∷◌, ◌++◌, In, In-append_left, In-append_right,
}
use k0smos.Base.Text.{Text}
use k0smos.Base.Io.{Result, ok, err}
use k0smos.Metadata.Document.{UserData, MetaData, Warning, unreadable, Codecs, parse_user_data}
use k0smos.Metadata.Source.{
  Reading, content, missing, failed, Files, user_data_paths, meta_data_paths, read_from, read_first,
  with_warnings, load,
}

abbrev pub NotFound : Reading → Type 0
NotFound (content b) = ⊥
NotFound missing = Unit
NotFound (failed e) = Unit

-- `n` is a candidate that is asked for: none before it has a content.
abbrev pub Asked : Files → Text → List Text → Type 0
Asked files n [] = ⊥
Asked files n (m ∷ ms) = (m ≡ n) ⊎ (NotFound (files m) × Asked files n ms)

Reading-cases :
    (r : Reading) → ((b : Text) × (r ≡ content b)) ⊎ (r ≡ missing) ⊎ ((e : Text) × (r ≡ failed e))
Reading-cases (content b) = inl (b, refl)
Reading-cases missing = inr (inl refl)
Reading-cases (failed e) = inr (inr (e, refl))

module _ (files : Files) where
  read_from-keeps :
      (w : Warning) (ws : List Warning) (ns : List Text) → In w ws → In w (read_from files ws ns).1
  unfolding read_from
  read_from-keeps w ws [] m = m
  read_from-keeps w ws (n ∷ ns) m = elim (Reading-cases (files n)) [
    | inl (b, h) ↦ rw (h, read_from) m
    | inr (inl h) ↦ rw (h, read_from) (read_from-keeps w ws ns m)
    | inr (inr (e, h)) ↦
        rw (h, read_from)
          (read_from-keeps w (ws ++ unreadable e ∷ []) ns
            (In-append_left w ws (unreadable e ∷ []) m))
  ]

  read_from-Asked :
      (n : Text) (e : Text) (ws : List Warning) (ns : List Text)
      → files n ≡ failed e
      → Asked files n ns
      → In (unreadable e) (read_from files ws ns).1
  unfolding read_from
  read_from-Asked n e ws [] h a = elim a [ ]
  read_from-Asked n e ws (m ∷ ms) h (inl same) =
      rw (ap files same ∙ h, read_from)
        (read_from-keeps (unreadable e) (ws ++ unreadable e ∷ []) ms
          (In-append_right (unreadable e) ws (unreadable e ∷ []) (inl refl)))
  read_from-Asked n e ws (m ∷ ms) h (inr (nf, a)) = elim (Reading-cases (files m)) [
    | inl (b, hb) ↦ absurd (subst NotFound hb nf)
    | inr (inl hm) ↦ rw (hm, read_from) (read_from-Asked n e ws ms h a)
    | inr (inr (x, hx)) ↦ rw (hx, read_from) (read_from-Asked n e (ws ++ unreadable x ∷ []) ms h a)
  ]

with_warnings-In :
    (w : Warning) (u : UserData) (ws : List Warning) (m : Result Text MetaData)
    → In w ws
    → In w (with_warnings (ok u) ws m).0.warnings
with_warnings-In w u ws (ok m) i = In-append_right w u.warnings ws i
with_warnings-In w u ws (err e) i = In-append_right w u.warnings ws i

-- If the user-data of a drive parses, every candidate file that is asked for and cannot be read is
-- reported among the warnings of the user-data that `Load` returns, with its error, whether or not
-- the meta-data parses.
pub load_warns :
    (codecs : Codecs) (files : Files) (u : UserData) (n e : Text)
    → parse_user_data codecs (read_first files user_data_paths).0 ≡ ok u
    → files n ≡ failed e
    → Asked files n user_data_paths ⊎ Asked files n meta_data_paths
    → In (unreadable e) (load codecs files).0.warnings
unfolding load read_first
load_warns codecs files u n e p h a = rw p (
    with_warnings-In (unreadable e) u _ _ (elim a [
      | inl k ↦ In-append_left _ _ _ (read_from-Asked files n e [] user_data_paths h k)
      | inr k ↦ In-append_right _ _ _ (read_from-Asked files n e [] meta_data_paths h k)
    ]))
