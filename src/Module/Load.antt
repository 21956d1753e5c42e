-- ===== src/Module/Load.antt =====
-- The entry points: reading the indices of a module tree, and loading by name and by device.
use k0smos.Base.{ℕ, ◌-◌, Bool, true, false, Option, none, some, List, [], ◌∷◌}
use k0smos.Base.Text.{Text, codes}
use k0smos.Base.Io.{Result}
use k0smos.Module.Index.{Glob, parse_deps, parse_softdeps, parse_aliases}
use k0smos.Module.Resolver.{Loader, Tree, Op, LoadError, new_state, load_names, device_rounds}

-- What a read of an index gives: its text, that it is absent (ENOENT), or another error.
pub data Index : Type 0 where
  present : Text → Index
  absent : Index
  unreadable : Text → Index

pub data Failure : Type 0 where
  read_deps : Text → Failure
  joined : List LoadError → Failure

-- The struct `Result` of the source.
pub record Report : Type 0 where
  pub tree_found : Bool
  pub loaded : ℕ
  pub autoloaded : ℕ
  pub devices : ℕ

abbrev pub no_report : Report
no_report = record { tree_found = false; loaded = 0; autoloaded = 0; devices = 0 }

-- An index that is absent or unreadable is as good as an empty one.
abbrev pub text_or_nil : Index → Text
text_or_nil (present t) = t
text_or_nil absent = []
text_or_nil (unreadable e) = []

-- What `newResolver` finds: a tree, no tree, or an error.
pub data Found : Type 0 where
  tree : Tree → Found
  monolithic : Found
  broken : Failure → Found

module _ (index : Text → Index) where
  abbrev pub tree_of : Text → Index → Found
  tree_of base (unreadable e) = broken (read_deps e)
  tree_of base absent = monolithic
  tree_of base (present deps) =
      let aliases = parse_aliases (text_or_nil (index (codes "modules.alias"))) in
      tree (record {
        base = base;
        deps = parse_deps deps;
        soft = parse_softdeps (text_or_nil (index (codes "modules.softdep")));
        alias = aliases.exact;
        device = aliases.device;
      })

  -- newResolver(l, base)
  unfoldable pub new_resolver : Text → Found
  new_resolver base = tree_of base (index (codes "modules.dep"))

-- errors.Join(errs...): nil for no error
abbrev pub join_errors : List LoadError → Option Failure
join_errors [] = none
join_errors (e ∷ es) = some (joined (e ∷ es))

abbrev pub max_device_rounds : ℕ
max_device_rounds = 8

module _ (l : Loader) (glob : Glob) (devices : List Op → Result Text (List Text)) where
  abbrev pub report_names : List Text → Found → Report × Option Failure
  report_names names monolithic = (no_report, none)
  report_names names (broken e) = (no_report, some e)
  report_names names (tree r) =
      let s = load_names l r names new_state in
      (
        record { tree_found = true; loaded = s.loaded; autoloaded = 0; devices = 0 },
        join_errors s.errs,
      )

  abbrev pub report_devices : Found → Report × Option Failure
  report_devices monolithic = (no_report, none)
  report_devices (broken e) = (no_report, some e)
  report_devices (tree r) =
      let (s, seen) = device_rounds l r glob devices max_device_rounds 0 new_state in
      (
        record { tree_found = true; loaded = s.loaded; autoloaded = s.loaded; devices = seen },
        join_errors s.errs,
      )

  abbrev pub report_all : List Text → Found → Report × Option Failure
  report_all names monolithic = (no_report, none)
  report_all names (broken e) = (no_report, some e)
  report_all names (tree r) =
      let named = load_names l r names new_state in
      let (s, seen) = device_rounds l r glob devices max_device_rounds 0 named in
      (
        record {
          tree_found = true;
          loaded = named.loaded;
          autoloaded = s.loaded - named.loaded;
          devices = seen;
        },
        join_errors s.errs,
      )
