-- ===== src/Init/Root.antt =====
-- `selectRoot`, `rootDevice` and `pivot` of cmd/k0smos/init_linux.go: the real root is found, mounted
-- and switched to.
use k0smos.Base.{ℕ, Bool, true, not, ◌&&◌, Option, none, some, List, [], ◌∷◌, ◌++◌, if◌then◌else◌}
use k0smos.Base.Text.{Text, codes, text_eq, is_empty, trim_prefix}
use k0smos.Base.Io.{Result, ok, err, Env, Io, pure, raise, attempt, ◌>>=◌, ◌>>◌}
use k0smos.Config.{Config}
use k0smos.Blkid
use k0smos.Blkid.{Prober, Info, identify_info, resolve_wait}
use k0smos.SwitchRoot.{Call, do_switch}

-- An error of a call; `denied` is EACCES or EROFS.
pub record Fault : Type 0 where
  pub denied : Bool
  pub text : Text

pub data Op : Type 0 where
  loop_attach : Text → Bool → Op
  sleeps : ℕ → Op
  mkdir : Text → ℕ → Op
  mount_root : Text → Text → Text → ℕ → Text → Op
  is_read_only : Text → Op
  switch : Call → Op

pub data Failure : Type 0 where
  disabled : Failure
  loop_failed : Text → Failure
  not_found : Text → Option Blkid.Failure → Failure
  mkdir_failed : Fault → Failure
  mount_failed : Text → Text → Fault → Failure
  switch_failed : k0smos.SwitchRoot.Failure Fault → Failure

-- What the machine holds and answers: whether the initramfs carries a root image, the loop device
-- that it is attached to, the devices at each probe of the wait, and those behind it.
pub record Machine : Type 0 where
  pub fails : Env Op Fault
  pub has_image : Bool
  pub loop_device : List Op → Result Text Text
  pub view : ℕ → Prober
  pub holds : Prober

-- selectRoot(explicit, hasEmbedded)
pub data Root : Type 0 where
  no_root : Root
  embedded : Root
  device : Text → Root

unfoldable pub select_root : Text → Bool → Root
select_root explicit has_embedded =
    if text_eq explicit (codes "none")
    then no_root
    else if not (is_empty explicit)
    then device explicit
    else if has_embedded
    then embedded
    else device (codes "LABEL=k0smos")

abbrev pub embedded_root : Text
embedded_root = codes "/k0smos-root.img"

abbrev pub new_root_dir : Text
new_root_dir = codes "/newroot"

abbrev pub init_path : Text
init_path = codes "/sbin/k0smos"

-- The file system that a device holds, where it is known, and else the one that is configured.
abbrev pub fs_type_of : Config → Option Info → Text
fs_type_of c none = c.root_fs_type
fs_type_of c (some info) = info.fs_type

module _ (m : Machine) where
  abbrev pub or_loop_failed : Result Text Text → Io Op Failure Text
  or_loop_failed (err e) = raise (loop_failed e)
  or_loop_failed (ok dev) = pure dev

  abbrev pub or_not_found : Text → Result Blkid.Failure Text → Io Op Failure Text
  or_not_found spec (err e) = raise (not_found spec (some e))
  or_not_found spec (ok dev) = pure dev

  abbrev pub find_root : Root → Io Op Failure Text
  find_root no_root t = raise disabled t
  find_root embedded t =
      let u = t ++ loop_attach embedded_root true ∷ [] in or_loop_failed (m.loop_device u) u
  find_root (device spec) t =
      let (found, pauses) = resolve_wait m.view spec 30 in
      or_not_found spec found (t ++ sleeps pauses ∷ [])

  -- rootDevice(s, cfg): the image in the initramfs counts only where no root is named
  unfoldable pub root_device : Config → Io Op Failure Text
  root_device c = find_root (select_root c.root (is_empty c.root && m.has_image))

  abbrev pub mount_call : Config → Text → Text → ℕ → Op
  mount_call c dev fs_type flags = mount_root dev new_root_dir fs_type flags c.root_flags

  -- Behind the first attempt to mount: a refusal to write is answered by a read-only one.
  abbrev pub after_first_mount : Config → Text → Text → Option Fault → Io Op Failure Unit
  after_first_mount c dev fs_type none t = (ok tt, t ++ is_read_only new_root_dir ∷ [])
  after_first_mount c dev fs_type (some f) t =
      if f.denied
      then attempt m.fails (mount_call c dev fs_type 1) (mount_failed dev fs_type) t
      else raise (mount_failed dev fs_type f) t

  unfoldable pub mount_device : Config → Text → Text → Io Op Failure Unit
  mount_device c dev fs_type t =
      after_first_mount c dev fs_type (m.fails t (mount_call c dev fs_type 0))
        (t ++ mount_call c dev fs_type 0 ∷ [])

  abbrev pub or_switch_failed : Result (k0smos.SwitchRoot.Failure Fault) Unit → Result Failure Unit
  or_switch_failed (ok u) = ok tt
  or_switch_failed (err e) = err (switch_failed e)

  abbrev pub switch_to_root : Io Op Failure Unit
  switch_to_root t =
      let (r, u) =
        do_switch switch m.fails new_root_dir init_path (init_path ∷ codes "--switched-root" ∷ [])
          t in
      (or_switch_failed r, u)

  abbrev pub mount_and_switch : Config → Text → Io Op Failure Unit
  mount_and_switch c dev =
      attempt m.fails (mkdir new_root_dir 0o755) mkdir_failed
      >> mount_device c dev (fs_type_of c (identify_info m.holds (trim_prefix dev (codes "/dev/"))))
      >> switch_to_root

  -- pivot(s, cfg)
  unfoldable pub pivot : Config → Io Op Failure Unit
  pivot c = root_device c >>= mount_and_switch c
