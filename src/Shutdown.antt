-- ===== src/Shutdown.antt =====
-- internal/shutdown/shutdown.go: flushing and detaching the filesystems before reboot(2).
pub mod Kept
pub mod Order
pub mod Sequence
use mathlib.Core.List.{List}
use k0smos.Base.{
  ℕ, ◌*◌, ◌^◌, Bool, true, false, not, ◌&&◌, ◌||◌, [], ◌∷◌, ◌++◌, if◌then◌else◌, ltb, select,
}
use k0smos.Base.Text
use k0smos.Base.Text.{Text, codes, text_eq, has_prefix, count}
use k0smos.Base.Io.{Result, ok, err, Env, Io, pure, attempt, ignore, continue, ◌>>=◌, ◌>>◌}

abbrev pub power_off : ℕ
power_off = 0x4321fedc

abbrev pub reboot_cmd : ℕ
reboot_cmd = 0x1234567

abbrev pub mnt_detach : ℕ
mnt_detach = 0x2

-- msRemount | msRdonly
abbrev pub remount_read_only : ℕ
remount_read_only = 0x21

abbrev pub sig_term : ℕ
sig_term = 0xf

abbrev pub sig_kill : ℕ
sig_kill = 0x9

-- 5 * time.Second
abbrev pub term_grace : ℕ
term_grace = 5 * 10 ^ 9

-- The calls on the Shutdowner interface, and the pause between the two signals.
pub data Op : Type 0 where
  kill_all : ℕ → Op
  sleep : ℕ → Op
  sync : Op
  mounts : Op
  unmount : Text → ℕ → Op
  mount : Text → Text → Text → ℕ → Text → Op
  reboot : ℕ → Op

-- What `Do` returns: the mount table could not be read, or reboot(2) itself failed.
pub data Failure : Type 0 where
  read_mounts : Text → Failure
  reboot_failed : Text → Failure

-- The machine: its answer to each call, and its mount table at the time of the call.
pub record Machine : Type 0 where
  pub fails : Env Op Text
  pub table : List Op → Result Text (List Text)

abbrev pub slash : ℕ
slash = b'/'

abbrev pub pseudo_roots : List Text
pseudo_roots = codes "/proc" ∷ codes "/sys" ∷ codes "/dev" ∷ codes "/run" ∷ codes "/tmp" ∷ []

unfoldable pub under_any : Text → List Text → Bool
under_any target [] = false
under_any target (p ∷ ps) =
    text_eq target p || has_prefix target (p ++ slash ∷ []) || under_any target ps

unfoldable pub is_pseudo : Text → Bool
is_pseudo target = under_any target pseudo_roots

abbrev pub depth : Text → ℕ
depth t = count t slash

-- One target of a list that is sorted deepest first; targets of one depth keep their order.
unfoldable pub insert_deepest : Text → List Text → List Text
insert_deepest t [] = t ∷ []
insert_deepest t (u ∷ us) =
    let later = insert_deepest t us in if ltb (depth t) (depth u) then u ∷ later else t ∷ u ∷ us

-- sort.SliceStable by the number of slashes, most first
unfoldable pub sort_deepest : List Text → List Text
sort_deepest [] = []
sort_deepest (t ∷ ts) = insert_deepest t (sort_deepest ts)

unfoldable pub is_kept : Text → Bool
is_kept t = not (text_eq t (codes "/") || is_pseudo t)

unfoldable pub unmount_order : List Text → List Text
unmount_order targets = sort_deepest (select is_kept targets)

table_result : Result Text (List Text) → Io Op Failure (List Text)
table_result (ok targets) t = (ok targets, t)
table_result (err e) t = (err (read_mounts e), t)

module _ (m : Machine) where
  read_table : Io Op Failure (List Text)
  unfolding table_result
  read_table t = table_result (m.table t) (t ++ mounts ∷ [])

  unfoldable pub unmount_each : List Text → Io Op Failure Unit
  unmount_each [] = pure tt
  unmount_each (target ∷ ts) = do ignore m.fails (unmount target mnt_detach); unmount_each ts

  -- Do(s, cmd)
  unfoldable pub do_shutdown : ℕ → Io Op Failure Unit
  unfolding read_table
  do_shutdown cmd = do
    ignore m.fails (kill_all sig_term)
    ignore m.fails (sleep term_grace)
    ignore m.fails (kill_all sig_kill)
    ignore m.fails sync
    targets ← read_table
    unmount_each (unmount_order targets)
    ignore m.fails sync
    ignore m.fails (mount [] (codes "/") [] remount_read_only [])
    attempt m.fails (reboot cmd) reboot_failed
