-- ===== src/Shutdown/Sequence.antt =====
-- The calls that a shutdown makes.
use k0smos.Base.{ℕ, ◌≡◌, refl, List, [], ◌∷◌, ◌++◌, map, append-nil, append_assoc, ◌∙◌}
use k0smos.Base.Text.{Text, codes}
use k0smos.Base.Io.{Result, ok, err, answer}
use k0smos.Shutdown.{
  Op, kill_all, sleep, sync, mounts, unmount, mount, reboot, Failure, read_mounts, reboot_failed,
  Machine, unmount_each, unmount_order, do_shutdown, mnt_detach, remount_read_only, sig_term,
  sig_kill, term_grace,
}

-- Every process is signalled, and killed, before anything is flushed.
abbrev pub quiesce : List Op
quiesce = kill_all sig_term ∷ sleep term_grace ∷ kill_all sig_kill ∷ sync ∷ []

abbrev pub detach_all : List Text → List Op
detach_all = map (λ t. unmount t mnt_detach)

abbrev pub finish : List Op
finish = sync ∷ mount [] (codes "/") [] remount_read_only [] ∷ []

unmount_each-trace :
    (m : Machine) (ts : List Text) (t : List Op) → unmount_each m ts t ≡ (ok tt, t ++ detach_all ts)
unfolding unmount_each
unmount_each-trace m [] t = rw append-nil
unmount_each-trace m (u ∷ ts) t =
    unmount_each-trace m ts (t ++ unmount u mnt_detach ∷ []) ∙ rw append_assoc

-- The calls before reboot(2), with a mount table that lists `targets`.
abbrev pub before_reboot : List Text → List Op
before_reboot targets = quiesce ++ mounts ∷ (detach_all (unmount_order targets) ++ finish)

-- The result and the calls of a shutdown, by what the mount table gives.
abbrev pub shutdown_calls : Machine → ℕ → Result Text (List Text) → Result Failure Unit × List Op
shutdown_calls m cmd (ok targets) =
    answer (m.fails (before_reboot targets) (reboot cmd)) reboot_failed
      (before_reboot targets ++ reboot cmd ∷ [])
shutdown_calls m cmd (err e) = (err (read_mounts e), quiesce ++ mounts ∷ [])

-- With a readable mount table a shutdown signals, waits, kills, flushes, detaches every target in
-- order, flushes again, remounts the root read-only and calls reboot(2), whatever any of these calls
-- answers, and its result is the answer of the last; with an unreadable table it makes the calls up
-- to reading it and returns that error: it unmounts nothing, remounts nothing and does not reboot.
pub do_shutdown_calls :
    (m : Machine) (cmd : ℕ) → do_shutdown m cmd [] ≡ shutdown_calls m cmd (m.table quiesce)
unfolding do_shutdown
do_shutdown_calls m cmd = by_table (m.table quiesce) refl
  where
    by_table :
        (r : Result Text (List Text))
        → m.table quiesce ≡ r
        → do_shutdown m cmd [] ≡ shutdown_calls m cmd r
    by_table (ok targets) h = rw (h, unmount_each-trace m) (simp append_assoc)
    by_table (err e) h = rw h
