-- ===== src/Tests/Module.antt =====
-- Runs of the module loader (internal/module).
use k0smos.Base.{
  ℕ, ◌<◌, ◌≡◌, ◌↔◌, refl, sym, false, none, some, List, [], ◌∷◌, ◌++◌, inl, inr, if◌then◌else◌,
  arith, In, All, Bool-cases,
}
use mathlib.Core.Path.{subst}
use k0smos.Base.Text.{Text, codes, text_eq, cut, split, fields, trim_space, trim_suffix}
use k0smos.Base.Text.Laws.{text_eq_iff}
use k0smos.Base.Io.{ok}
use k0smos.Base.Paths.{path_base}
use k0smos.Module.Index.{
  lookup, ModInfo, parse_deps, add_dep_lines, add_dep_line, names_of, name_of, is_member,
  AliasEntry, Glob, match_devices,
}
use k0smos.Module.Index.Devices.{match_devices_exact, Distinct, DrivesAny}
use k0smos.Module.Resolver.{
  Loader, Tree, State, new_state, resolve, load, visit, load_names, load_each, insert_module,
  decompress, soft_deps, hard_deps,
}
use k0smos.Module.Resolver.Ends.{Loads, load_names-Loads}
use k0smos.Module.Resolver.Ordering.{OrderedFrom, OnceFrom, ResolvedRead}
use k0smos.Module.Resolver.Walk.{load_names_once}
use k0smos.Module.Resolver.Acyclic.{Descends, load_names_ordered}

deps_line :
    parse_deps (codes "kernel/net/a.ko.gz: kernel/lib/b.ko\nkernel/lib/b.ko:\n")
    ≡ (codes "b", record { path = codes "kernel/lib/b.ko"; deps = [] })
      ∷ (codes "a", record { path = codes "kernel/net/a.ko.gz"; deps = codes "b" ∷ [] })
      ∷ []
unfolding parse_deps add_dep_lines add_dep_line names_of name_of path_base split cut fields
    trim_space trim_suffix text_eq
deps_line = refl

abbrev kernel : Loader
kernel = record { read_file = λ p. ok p; init_module = λ t i. none; gunzip = λ i. ok i }

abbrev entry : Text → List Text → Text × ModInfo
entry name deps = (name, record { path = name; deps = deps })

-- "a" needs "b".
abbrev two : Tree
two = record {
  base = codes "/lib/modules";
  deps = entry (codes "a") (codes "b" ∷ []) ∷ entry (codes "b") [] ∷ [];
  soft = [];
  alias = [];
  device = [];
}

-- "a" and "b" need one another.
abbrev cycle : Tree
cycle = record two {
  deps = entry (codes "a") (codes "b" ∷ []) ∷ entry (codes "b") (codes "a" ∷ []) ∷ [];
}

loads_both : (load_names kernel cycle (codes "a" ∷ []) new_state).loaded ≡ 2
unfolding load_names load_each load visit resolve insert_module decompress lookup text_eq is_member
loads_both = refl

rank : Text → ℕ
rank k = if text_eq k (codes "a") then 1 else 0

b_is_b : resolve two (codes "b") ≡ some (codes "b")
unfolding resolve lookup text_eq
b_is_b = refl

no_other_deps : (k : Text) → text_eq (codes "a") k ≡ false → soft_deps two k ++ hard_deps two k ≡ []
unfolding lookup text_eq
no_other_deps k h = rw h (ground arith)

a_needs_b :
    (d j : Text)
    → In d (soft_deps two (codes "a") ++ hard_deps two (codes "a"))
    → resolve two d ≡ some j
    → j ≡ codes "b"
unfolding lookup text_eq
a_needs_b d j (inl e) h = cc b_is_b
a_needs_b d j (inr m) h = absurd m

b_is_lower : rank (codes "b") < rank (codes "a")
unfolding rank text_eq
b_is_lower = omega arith

two-Descends : Descends two rank
two-Descends k d j m e = elim (Bool-cases (text_eq (codes "a") k)) [
  | inl y ↦
      let same : codes "a" ≡ k = (text_eq_iff (codes "a") k).0 y in
      subst (λ x. rank j < rank x) same
        (rw (a_needs_b d j (subst (λ x. In d (soft_deps two x ++ hard_deps two x)) (sym same) m) e)
          b_is_lower)
  | inr n ↦ absurd (subst (In d) (no_other_deps k n) m)
]

load_names_ordered_example :
    OrderedFrom two [] (load_names kernel two (codes "a" ∷ []) new_state).ops
    × All
        (λ d. ResolvedRead (resolve two d) (load_names kernel two (codes "a" ∷ []) new_state).ops)
        (codes "a" ∷ [])
load_names_ordered_example = load_names_ordered kernel two rank two-Descends (codes "a" ∷ [])

load_names_once_example :
    OnceFrom [] (load_names kernel cycle (codes "a" ∷ codes "b" ∷ []) new_state).ops
load_names_once_example = load_names_once kernel cycle (codes "a" ∷ codes "b" ∷ [])

load_names-Loads_example :
    Loads kernel cycle new_state
      (codes "a" ∷ [])
      (load_names kernel cycle (codes "a" ∷ []) new_state)
    × ((t : State)
        → Loads kernel cycle new_state (codes "a" ∷ []) t
        → load_names kernel cycle (codes "a" ∷ []) new_state ≡ t)
load_names-Loads_example = load_names-Loads kernel cycle (codes "a" ∷ []) new_state

-- A line ".ko:" gives the tree a module named "", which is never loaded.
abbrev nameless : Tree
nameless = record two { deps = entry [] [] ∷ [] }

loads_no_empty_name : load_names kernel nameless ([] ∷ []) new_state ≡ new_state
unfolding load_names load_each load visit resolve lookup text_eq
loads_no_empty_name = refl

abbrev same_text : Glob
same_text p t = some (text_eq p t)

abbrev virtio : AliasEntry
virtio = record { pattern_text = codes "virtio:*"; target = codes "virtio_net" }

match_devices_exact_example :
    Distinct (match_devices same_text (virtio ∷ []) (codes "virtio:*" ∷ []))
    × (In (codes "virtio_net") (match_devices same_text (virtio ∷ []) (codes "virtio:*" ∷ []))
        ↔ DrivesAny same_text (codes "virtio:*" ∷ []) (virtio ∷ []) (codes "virtio_net"))
match_devices_exact_example =
    match_devices_exact same_text (virtio ∷ []) (codes "virtio:*" ∷ []) (codes "virtio_net")
