-- ===== src/Mount.antt =====
-- internal/mount/mount.go and internal/cgroup/cgroup.go: the mounts of a boot.
pub mod Ensure
pub mod Writable
use mathlib.Core.List.{reverse}
use k0smos.Base.{
  drop, ℕ, Bool, true, false, ◌||◌, Option, none, some, List, [], ◌∷◌, ◌++◌, if◌then◌else◌,
}
use k0smos.Base.Text.{Text, codes, text_eq, is_empty, split, join}
use k0smos.Base.Io.{Result, ok, err, Env, Io, pure, attempt, ◌>>=◌, ◌>>◌}

-- The calls on the Mounter and the Controller interface.
pub data Op : Type 0 where
  mounts : Op
  mkdir : Text → ℕ → Op
  mount : Text → Text → Text → ℕ → Text → Op
  write_file : Text → Text → ℕ → Op

pub data Failure : Type 0 where
  mkdir_failed : Text → Text → Failure
  mount_failed : Text → Text → Failure
  write_failed : Text → Text → Failure

pub record Spec : Type 0 where
  pub source : Text
  pub target : Text
  pub fs_type : Text
  pub flags : ℕ
  pub data_text : Text
  pub perm : ℕ

abbrev plain : Text → Text → Text → ℕ → Spec
plain source target fs_type perm = record {
  source = source;
  target = target;
  fs_type = fs_type;
  flags = 0;
  data_text = [];
  perm = perm;
}

abbrev pub default_specs : List Spec
default_specs =
    plain (codes "proc") (codes "/proc") (codes "proc") 0o555
    ∷ plain (codes "sysfs") (codes "/sys") (codes "sysfs") 0o555
    ∷ plain (codes "devtmpfs") (codes "/dev") (codes "devtmpfs") 0o755
    ∷ plain (codes "devpts") (codes "/dev/pts") (codes "devpts") 0o755
    ∷ plain (codes "tmpfs") (codes "/dev/shm") (codes "tmpfs") 0o755
    ∷ plain (codes "tmpfs") (codes "/run") (codes "tmpfs") 0o755
    ∷ plain (codes "tmpfs") (codes "/tmp") (codes "tmpfs") 0o1777
    ∷ []

unfoldable pub has_target : Text → List Text → Bool
has_target target [] = false
has_target target (t ∷ ts) = text_eq t target || has_target target ts

-- A mount table that cannot be read is taken for an empty one.
abbrev pub existing : Option (List Text) → List Text
existing none = []
existing (some targets) = targets

abbrev pub mount_op : Spec → Op
mount_op s = mount s.source s.target s.fs_type s.flags s.data_text

-- filepath.Join(rwScratch, path, leaf): the parts, with "." and empty ones dropped and ".." taken
-- back; the path is rooted
unfoldable pub clean_parts : List Text → List Text → List Text
clean_parts kept [] = reverse kept
clean_parts kept (p ∷ ps) =
    clean_parts
      (if is_empty p || text_eq p (codes ".")
        then kept
        else if text_eq p (codes "..")
        then drop 1 kept
        else p ∷ kept)
      ps

abbrev pub rw_scratch : Text
rw_scratch = codes "/run/k0smos/rw"

unfoldable pub join_scratch : Text → Text → Text
join_scratch path leaf =
    b'/' ∷ join (clean_parts [] (split (rw_scratch ++ b'/' ∷ path ++ b'/' ∷ leaf) b'/')) b'/'

abbrev pub writable_paths : List Text
writable_paths = codes "/etc" ∷ codes "/usr/libexec" ∷ []

abbrev pub cgroup_root : Text
cgroup_root = codes "/sys/fs/cgroup"

abbrev pub subtree_control : Text
subtree_control = cgroup_root ++ codes "/cgroup.subtree_control"

abbrev pub overlay_data : Text → Text
overlay_data path =
    codes "lowerdir="
    ++ path
    ++ codes ",upperdir="
    ++ join_scratch path (codes "upper")
    ++ codes ",workdir="
    ++ join_scratch path (codes "work")

abbrev pub overlay_op : Text → Op
overlay_op path = mount (codes "overlay") path (codes "overlay") 0 (overlay_data path)

module _ (fails : Env Op Text) where
  abbrev pub mkdir_at : Text → ℕ → Io Op Failure Unit
  mkdir_at path perm = attempt fails (mkdir path perm) (mkdir_failed path)

  abbrev pub mount_spec : Spec → Io Op Failure Unit
  mount_spec s = do mkdir_at s.target s.perm; attempt fails (mount_op s) (mount_failed s.target)

  -- The loop of `Ensure`.
  unfoldable pub ensure_each : List Text → List Spec → Io Op Failure Unit
  ensure_each have [] = pure tt
  ensure_each have (s ∷ ss) =
      let rest = ensure_each have ss in
      if has_target s.target have then rest else mount_spec s >> rest

  -- Ensure(m); the mount table at each time
  unfoldable pub ensure : (List Op → Option (List Text)) → Io Op Failure Unit
  ensure table t =
      ensure_each (existing (table (t ++ mounts ∷ []))) default_specs (t ++ mounts ∷ [])

  abbrev pub make_writable_one : Text → Io Op Failure Unit
  make_writable_one path = do
    mkdir_at (join_scratch path (codes "upper")) 0o755
    mkdir_at (join_scratch path (codes "work")) 0o755
    attempt fails (overlay_op path) (mount_failed path)

  -- MakeWritable(m, paths)
  unfoldable pub make_writable : List Text → Io Op Failure Unit
  make_writable [] = pure tt
  make_writable (path ∷ paths) = do make_writable_one path; make_writable paths

  -- cgroup.Setup(c)
  unfoldable pub setup : Io Op Failure Unit
  setup = do
    mkdir_at cgroup_root 0o755
    attempt fails (mount (codes "cgroup2") cgroup_root (codes "cgroup2") 0 (codes "nsdelegate"))
        (mount_failed cgroup_root)
    attempt fails (write_file subtree_control (codes "+cpu +memory +pids +io") 0o644)
        (write_failed cgroup_root)
