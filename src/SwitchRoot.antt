-- ===== src/SwitchRoot.antt =====
-- internal/switchroot/switchroot.go: moving to the real root and executing its init.
-- The calls stand among those of the caller, who says which they are.
use k0smos.Base.{ℕ, List, [], ◌∷◌, ◌++◌}
use k0smos.Base.Text.{Text, codes}
use k0smos.Base.Io.{Env, Io, ignore, attempt, ◌>>=◌, ◌>>◌}

pub data Call : Type 0 where
  mount : Text → Text → Text → ℕ → Text → Call
  chdir : Text → Call
  chroot : Text → Call
  exec : Text → List Text → Call

pub data Failure (F : Type 0) : Type 0 where
  chdir_failed : Text → F → Failure F
  move_failed : F → Failure F
  chroot_failed : F → Failure F
  exec_failed : F → Failure F

abbrev pub ms_move : ℕ
ms_move = 0x2000

abbrev pub kernel_mounts : List Text
kernel_mounts = codes "/dev" ∷ codes "/proc" ∷ codes "/sys" ∷ []

module _ {Op F : Type 0} (call : Call → Op) (fails : Env Op F) where
  -- The moves of the kernel's filesystems, whose errors do not matter.
  unfoldable pub move_each : Text → List Text → Io Op (Failure F) Unit
  move_each new_root [] t = (k0smos.Base.Io.ok tt, t)
  move_each new_root (m ∷ ms) t =
      move_each new_root ms (t ++ call (mount m (new_root ++ m) [] ms_move []) ∷ [])

  -- Do(s, newRoot, init, args); a success of `exec` does not return, and is the end of the run here
  unfoldable pub do_switch : Text → Text → List Text → Io Op (Failure F) Unit
  unfolding move_each
  do_switch new_root init args =
      move_each new_root kernel_mounts
      >> attempt fails (call (chdir new_root)) (chdir_failed new_root)
      >> attempt fails (call (mount (codes ".") (codes "/") [] ms_move [])) move_failed
      >> attempt fails (call (chroot (codes "."))) chroot_failed
      >> attempt fails (call (chdir (codes "/"))) (chdir_failed (codes "/"))
      >> attempt fails (call (exec init args)) exec_failed
