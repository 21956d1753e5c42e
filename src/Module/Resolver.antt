-- ===== src/Module/Resolver.antt =====
-- The resolver: a depth-first walk of the dependencies that marks a module before it recurses.
pub mod Fuel
pub mod Ordering
pub mod Walk
pub mod Acyclic
pub mod Ends
use k0smos.Base.{
  ℕ, zero, suc, ◌+◌, ◌-◌, Bool, true, false, not, ◌&&◌, ◌||◌, Option, none, some, List, [], ◌∷◌,
  ◌++◌, if◌then◌else◌, ◌==◌, ltb, length,
}
use k0smos.Base.Text.{Text, codes, text_eq, is_empty}
use k0smos.Base.Io.{Result, ok, err}
use k0smos.Module.Index.{
  Table, lookup, ModInfo, AliasEntry, Glob, is_member, match_devices, list_or_nil,
}

abbrev pub Bytes : Type 0
Bytes = List ℕ

-- Calls on the Loader interface. A read carries the name of the module beside its path.
pub data Op : Type 0 where
  read : Text → Text → Op
  init : Bytes → Op

-- An answer of init_module(2) other than success.
pub data Errno : Type 0 where
  eexist : Errno
  other : Text → Errno

pub data LoadError : Type 0 where
  read_failed decompress_failed load_failed : Text → Text → LoadError
  enumerate_failed : Text → LoadError

-- The machine, and the decompression of package compress/gzip.
pub record Loader : Type 0 where
  pub read_file : Text → Result Text Bytes
  pub init_module : List Op → Bytes → Option Errno
  pub gunzip : Bytes → Result Text Bytes

-- The indices of a module tree. `base` is cleaned, so joining a path to it puts a slash between.
pub record Tree : Type 0 where
  pub base : Text
  pub deps : Table ModInfo
  pub soft : Table (List Text)
  pub alias : Table Text
  pub device : List AliasEntry

-- The part of the resolver that changes; `done` holds its marks and `ops` its calls, oldest first.
pub record State : Type 0 where
  pub done : List Text
  pub loaded : ℕ
  pub errs : List LoadError
  pub ops : List Op

abbrev pub new_state : State
new_state = record { done = []; loaded = 0; errs = []; ops = [] }

abbrev pub is_some {ℓ} : {A : Type ℓ} → Option A → Bool
is_some none = false
is_some (some a) = true

abbrev pub keyed : Table ModInfo → Option Text → Option Text
keyed deps none = none
keyed deps (some target) = if is_some (lookup target deps) then some target else none

-- The test of `load` on the key: "" is nothing to load, also where the table has that name.
abbrev pub unless_empty : Option Text → Option Text
unless_empty none = none
unless_empty (some []) = none
unless_empty (some (c ∷ key)) = some (c ∷ key)

-- resolve(name), with the test of its caller; `none` for ""
unfoldable pub resolve : Tree → Text → Option Text
resolve r name =
    unless_empty
      (if is_some (lookup name r.deps) then some name else keyed r.deps (lookup name r.alias))

abbrev pub info_or : Option ModInfo → ModInfo
info_or none = record { path = []; deps = [] }
info_or (some i) = i

-- decompress(image)
unfoldable pub decompress : Loader → Bytes → Result Text Bytes
decompress l (a ∷ b ∷ image) =
    if a == 0x1f && b == 0x8b then l.gunzip (a ∷ b ∷ image) else ok (a ∷ b ∷ image)
decompress l image = ok image

abbrev pub failed : State → LoadError → State
failed s e = record s { errs = s.errs ++ e ∷ [] }

abbrev pub after_init : Text → State → Option Errno → State
after_init key s none = record s { loaded = s.loaded + 1 }
after_init key s (some eexist) = record s { loaded = s.loaded + 1 }
after_init key s (some (other e)) = failed s (load_failed key e)

abbrev pub init_image : Loader → Text → State → Result Text Bytes → State
init_image l key s (err e) = failed s (decompress_failed key e)
init_image l key s (ok image) =
    after_init key (record s { ops = s.ops ++ init image ∷ [] }) (l.init_module s.ops image)

abbrev pub use_image : Loader → Text → State → Result Text Bytes → State
use_image l key s (err e) = failed s (read_failed key e)
use_image l key s (ok image) = init_image l key s (decompress l image)

abbrev pub module_path : Tree → Text → Text
module_path r key = r.base ++ (b'/' ∷ (info_or (lookup key r.deps)).path)

-- Reading the module's file and handing it to the kernel.
unfoldable pub insert_module : Loader → Tree → Text → State → State
insert_module l r key s =
    use_image l key (record s { ops = s.ops ++ read key (module_path r key) ∷ [] })
      (l.read_file (module_path r key))

-- `for _, dep := range names { r.load(dep) }`
unfoldable pub load_each : (State → Text → State) → List Text → State → State
load_each load [] s = s
load_each load (d ∷ ds) s = load_each load ds (load s d)

abbrev pub soft_deps : Tree → Text → List Text
soft_deps r key = list_or_nil (lookup key r.soft)

abbrev pub hard_deps : Tree → Text → List Text
hard_deps r key = (info_or (lookup key r.deps)).deps

abbrev pub mark : State → Text → State
mark s key = record s { done = key ∷ s.done }

module _ (l : Loader) (r : Tree) where
  -- Behind the lookup of the name; `load` makes the recursive calls.
  unfoldable pub visit : (State → Text → State) → State → Option Text → State
  visit load s none = s
  visit load s (some key) =
      let rest =
        insert_module l r key
          (load_each load (hard_deps r key) (load_each load (soft_deps r key) (mark s key))) in
      if is_member key s.done then s else rest

  -- load(name), with fuel for the depth of the walk
  unfoldable pub load : ℕ → State → Text → State
  load zero s name = s
  load (suc fuel) s name = visit (load fuel) s (resolve r name)

  -- One more than the number of modules.
  abbrev pub enough : ℕ
  enough = suc (length r.deps)

  -- Load(l, base, names), behind the reading of the indices
  unfoldable pub load_names : List Text → State → State
  load_names names s = load_each (load enough) names s

  -- The rounds of `loadDevices`: the devices that are present may change with each; gives the state
  -- and the number of devices that the last round saw. An enumeration that yields some devices
  -- beside an error counts as a success with these.
  unfoldable pub device_rounds :
      Glob → (List Op → Result Text (List Text)) → ℕ → ℕ → State → State × ℕ
  device_rounds glob devices zero seen s = (s, seen)
  device_rounds glob devices (suc rounds) seen s = elim (devices s.ops) [
    | err e ↦ (failed s (enumerate_failed e), seen)
    | ok modaliases ↦
        let s' = load_names (match_devices glob r.device modaliases) s in
        let more = device_rounds glob devices rounds (length modaliases) s' in
        if s'.loaded == s.loaded then (s', length modaliases) else more
  ]
