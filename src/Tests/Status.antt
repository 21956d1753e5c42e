-- ===== src/Tests/Status.antt =====
-- A boot record that is handed to a file (internal/status).
use k0smos.Base.{◌≡◌, refl, Option, none, some, List, [], ◌∷◌, ◌++◌}
use k0smos.Base.Text.{Text, codes}
use k0smos.Status.{
  BootRecord, Recorder, Change, stage, child, child_exited, new, new_from, apply_changes,
  empty_record,
}
use k0smos.Status.Log.{
  stages_of, exits_of, record_after, records_after, contents, apply_changes-log,
}

-- An encoding that keeps the number of exits.
abbrev json : BootRecord → Option Text
json r = some (r.child.restarts ∷ [])

abbrev early : List Change
early = stage (codes "mounts") none [] (codes "t0") ∷ []

abbrev late : List Change
late = child (codes "k0s" ∷ []) ∷ child_exited (some (codes "killed")) ∷ []

abbrev handed : Recorder
handed = apply_changes json late (new_from json (apply_changes json early (new (codes "t"))))

apply_changes-log_example :
    (handed.written
      ≡ contents json (
          record_after early (empty_record (codes "t"))
          ∷ records_after late (record_after early (empty_record (codes "t")))))
    × (handed.rec.steps ≡ stages_of (early ++ late))
    × (handed.rec.child.restarts ≡ exits_of (early ++ late))
apply_changes-log_example = apply_changes-log json (codes "t") early late handed refl
