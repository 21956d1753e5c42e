-- ===== src/Etcd.antt =====
-- internal/etcd/etcd.go: the command by which a controller gives up its etcd membership.
use k0smos.Base.{Bool, false, not, ◌||◌, Option, none, some, List, [], ◌∷◌, ◌++◌, if◌then◌else◌}
use k0smos.Base.Text.{Text, codes, text_eq, has_prefix, drop_text}
use k0smos.Base.Paths.{path_base}

-- flagValue(args, name)
unfoldable pub flag_value : List Text → Text → Option Text
flag_value [] name = none
flag_value (a ∷ args) name =
    let rest = flag_value args name in
    let joined =
      if has_prefix a (name ++ codes "=") then some (drop_text a (name ++ codes "=")) else rest in
    elim args [ [] ↦ joined | v ∷ vs ↦ if text_eq a name then some v else joined ]

unfoldable pub is_single : List Text → Bool
is_single [] = false
is_single (a ∷ args) =
    text_eq a (codes "--single") || has_prefix a (codes "--single=") || is_single args

abbrev pub flag_args : Text → Option Text → List Text
flag_args name none = []
flag_args name (some v) = name ∷ v ∷ []

-- The command for a controller with these arguments.
abbrev pub leave_args : Text → List Text → List Text
leave_args k0s args =
    k0s
    ∷ codes "etcd"
    ∷ codes "leave"
    ∷ (flag_args (codes "--data-dir") (flag_value args (codes "--data-dir"))
        ++ flag_args (codes "--status-socket") (flag_value args (codes "--status-socket")))

-- LeaveCmd(workload); `none` where it returns nil
unfoldable pub leave_cmd : List Text → Option (List Text)
leave_cmd [] = none
leave_cmd (k0s ∷ []) = none
leave_cmd (k0s ∷ role ∷ args) =
    if not (text_eq (path_base k0s) (codes "k0s"))
    then none
    else if not (text_eq role (codes "controller"))
    then none
    else if is_single args
    then none
    else some (leave_args k0s args)
