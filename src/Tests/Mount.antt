-- ===== src/Tests/Mount.antt =====
-- Runs of the mounts of a boot (internal/mount, internal/cgroup).
use k0smos.Base.{◌≡◌, refl, Option, none, some, List, [], ◌∷◌, if◌then◌else◌}
use k0smos.Base.Text.{Text, codes, text_eq, split, join}
use k0smos.Base.Io.{Env}
use k0smos.Base.Sequence.{Performed}
use k0smos.Mount.{Op, mounts, mkdir, default_specs, ensure, join_scratch, clean_parts}
use k0smos.Mount.Ensure.{steps, missing, ensure-Performed}

scratch :
    join_scratch (codes "/usr/libexec") (codes "work") ≡ codes "/run/k0smos/rw/usr/libexec/work"
unfolding join_scratch clean_parts split join text_eq
scratch = refl

-- A machine that refuses to create /dev/shm.
abbrev no_shm : Env Op Text
no_shm t (mkdir path perm) = if text_eq path (codes "/dev/shm") then some (codes "EROFS") else none
no_shm t o = none

abbrev only_proc : List Op → Option (List Text)
only_proc t = some (codes "/proc" ∷ [])

ensure-Performed_example :
    Performed no_shm
      (steps no_shm (missing (codes "/proc" ∷ []) default_specs))
      (mounts ∷ [])
      (ensure no_shm only_proc [])
ensure-Performed_example = ensure-Performed no_shm only_proc []
