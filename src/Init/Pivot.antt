-- ===== src/Init/Pivot.antt =====
-- When the machine switches to a root.
use k0smos.Base.{
  ◌≡◌, refl, inl, inr, ◌⊎◌, Option, none, some, ◌&&◌, List, [], ◌∷◌, ◌++◌, Bool-cases,
}
use k0smos.Base.Text.{Text, codes, is_empty, trim_prefix}
use k0smos.Base.Io.{Result, ok, err, answer, continue}
use k0smos.Config.{Config}
use k0smos.Blkid
use k0smos.Blkid.{identify_info}
use k0smos.Init.Root.{
  Fault, Op, Failure, disabled, loop_failed, not_found, mkdir_failed, mount_failed, switch_failed,
  Machine, root_device, mount_call, after_first_mount, mount_device, mount_and_switch, pivot,
  fs_type_of, new_root_dir, mkdir, switch_to_root, or_loop_failed, or_not_found, find_root, Root,
  no_root, embedded, device, select_root,
}

-- The result of a run that got as far as the switch.
abbrev pub IsSwitchError : Failure → Type 0
IsSwitchError disabled = ⊥
IsSwitchError (loop_failed e) = ⊥
IsSwitchError (not_found s e) = ⊥
IsSwitchError (mkdir_failed e) = ⊥
IsSwitchError (mount_failed d f e) = ⊥
IsSwitchError (switch_failed e) = Unit

abbrev pub IsSwitch : Result Failure Unit → Type 0
IsSwitch (ok u) = Unit
IsSwitch (err e) = IsSwitchError e

abbrev NoSwitch : Result Failure Text → Type 0
NoSwitch (ok dev) = Unit
NoSwitch (err e) = IsSwitchError e → ⊥

module _ (m : Machine) (c : Config) where
  -- A mount of the device with a file system type, read-write or read-only, succeeded.
  abbrev pub Mounted : Text → Text → Type 0
  Mounted dev fs_type =
      (t : List Op) × ((m.fails t (mount_call m c dev fs_type 0) ≡ none)
        ⊎ (m.fails t (mount_call m c dev fs_type 1) ≡ none))

  second_mount :
      (dev fs_type : Text) (t u : List Op) (o : Option Fault)
      → m.fails t (mount_call m c dev fs_type 1) ≡ o
      → IsSwitch (answer o (mount_failed dev fs_type) u).0
      → Mounted dev fs_type
  second_mount dev fs_type t u none e s = (t, inr e)
  second_mount dev fs_type t u (some f) e s = elim s [ ]

  after_first_mount-Mounted :
      (dev fs_type : Text) (t u : List Op) (o : Option Fault)
      → m.fails t (mount_call m c dev fs_type 0) ≡ o
      → IsSwitch (after_first_mount m c dev fs_type o u).0
      → Mounted dev fs_type
  after_first_mount-Mounted dev fs_type t u none e s = (t, inl e)
  after_first_mount-Mounted dev fs_type t u (some f) e s = elim (Bool-cases f.denied) [
    | inl d ↦ second_mount dev fs_type u _ _ refl (rw d at s)
    | inr d ↦ absurd (rw d at s)
  ]

  -- The part of a run up to the mount decides: an error before it is no switch.
  then-IsSwitch :
      (dev fs_type : Text) (r : Result Failure Unit) (t : List Op)
      → IsSwitch (continue r (λ _. switch_to_root m) t).0
      → IsSwitch r
  then-IsSwitch dev fs_type (ok u) t s = tt
  then-IsSwitch dev fs_type (err e) t s = s

  mkdir-Mounted :
      (dev fs_type : Text) (o : Option Fault) (u : List Op)
      → IsSwitch
          (continue
            (answer o mkdir_failed u).0
            (λ _. mount_device m c dev fs_type)
            (answer o mkdir_failed u).1).0
      → Mounted dev fs_type
  unfolding mount_device
  mkdir-Mounted dev fs_type none u s = after_first_mount-Mounted dev fs_type u _ _ refl s
  mkdir-Mounted dev fs_type (some e) u s = elim s [ ]

  or_loop_failed-NoSwitch : (r : Result Text Text) (t : List Op) → NoSwitch (or_loop_failed m r t).0
  or_loop_failed-NoSwitch (ok dev) t = tt
  or_loop_failed-NoSwitch (err e) t = λ s. s

  or_not_found-NoSwitch :
      (spec : Text) (r : Result Blkid.Failure Text) (t : List Op)
      → NoSwitch (or_not_found m spec r t).0
  or_not_found-NoSwitch spec (ok dev) t = tt
  or_not_found-NoSwitch spec (err e) t = λ s. s

  find_root-NoSwitch : (root : Root) (t : List Op) → NoSwitch (find_root m root t).0
  find_root-NoSwitch no_root t = λ s. s
  find_root-NoSwitch embedded t = or_loop_failed-NoSwitch _ _
  find_root-NoSwitch (device spec) t = or_not_found-NoSwitch spec _ _

  found_root :
      (r : Result Failure Text) (t : List Op)
      → NoSwitch r
      → IsSwitch (continue r (mount_and_switch m c) t).0
      → (dev : Text) × (r ≡ ok dev)
        × Mounted dev (fs_type_of c (identify_info m.holds (trim_prefix dev (codes "/dev/"))))
  found_root (err e) t n s = absurd (n s)
  found_root (ok dev) t n s = (
    dev,
    refl,
    mkdir-Mounted dev _ (m.fails t (mkdir new_root_dir 0o755)) (t ++ mkdir new_root_dir 0o755 ∷ [])
        (then-IsSwitch dev [] _ _ s),
  )

  -- A run of `pivot` that gets as far as the switch of the root found the root's device, and mounted
  -- that device with success, with the type of the file system that it holds where one is
  -- recognised, and else with the configured one.
  pub pivot-Mounted :
      (t : List Op)
      → IsSwitch (pivot m c t).0
      → (dev : Text) × ((root_device m c t).0 ≡ ok dev)
        × Mounted dev (fs_type_of c (identify_info m.holds (trim_prefix dev (codes "/dev/"))))
  unfolding pivot root_device
  pivot-Mounted t s =
      found_root (root_device m c t).0 (root_device m c t).1
        (find_root-NoSwitch (select_root c.root (is_empty c.root && m.has_image)) t) s
