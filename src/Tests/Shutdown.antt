-- ===== src/Tests/Shutdown.antt =====
-- Runs of the shutdown sequence (internal/shutdown).
use k0smos.Base.{◌⊎◌, ◌≡◌, refl, false, none, List, [], ◌∷◌, ◌++◌, inl}
use k0smos.Base.Text.{Text, codes, text_eq, has_prefix, count}
use k0smos.Base.Io.{err}
use k0smos.Shutdown.{
  Machine, read_mounts, mounts, power_off, do_shutdown, unmount_order, sort_deepest, insert_deepest,
  is_kept, is_pseudo, under_any,
}
use k0smos.Shutdown.Kept.{LeftAlone, occurrences, occurrences-unmount_order}
use k0smos.Shutdown.Order.{child_before_parent}
use k0smos.Shutdown.Sequence.{quiesce, do_shutdown_calls}

abbrev targets : List Text
targets = codes "/" ∷ codes "/proc" ∷ codes "/var" ∷ codes "/var/lib/k0s" ∷ codes "/run/k0smos" ∷ []

order : unmount_order targets ≡ codes "/var/lib/k0s" ∷ codes "/var" ∷ []
unfolding unmount_order sort_deepest insert_deepest is_kept is_pseudo under_any text_eq has_prefix
    count
order = refl

occurrences-unmount_order_example :
    (LeftAlone (codes "/var") × (occurrences (codes "/var") (unmount_order targets) ≡ 0))
    ⊎ ((LeftAlone (codes "/var") → ⊥)
        × (occurrences (codes "/var") (unmount_order targets) ≡ occurrences (codes "/var") targets))
occurrences-unmount_order_example = occurrences-unmount_order targets (codes "/var")

child_before_parent_example : has_prefix (codes "/var") (codes "/var/lib/k0s" ++ b'/' ∷ []) ≡ false
child_before_parent_example =
    child_before_parent targets [] (codes "/var" ∷ []) (codes "/var/lib/k0s") (codes "/var") order
      (inl refl)

-- No mount table can be read.
abbrev blind : Machine
blind = record { fails = λ t op. none; table = λ t. err (codes "no /proc") }

do_shutdown_calls_example :
    do_shutdown blind power_off [] ≡ (err (read_mounts (codes "no /proc")), quiesce ++ mounts ∷ [])
do_shutdown_calls_example = do_shutdown_calls blind power_off
