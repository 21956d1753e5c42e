-- ===== src/Metadata/Plan.antt =====
-- internal/metadata/plan.go: runcmd becomes typed file actions and the supervised workload.
-- A command is the list of its words; nil and empty are one list.
pub mod Install
pub mod Interpret
pub mod Actions
use k0smos.Base.{
  ℕ, Bool, true, false, not, ◌&&◌, ◌||◌, Option, none, some, List, [], ◌∷◌, ◌++◌, map,
  if◌then◌else◌, select,
}
use k0smos.Base.Text.{Text, codes, text_eq, has_prefix, trim_prefix, cut, contains}
use k0smos.Base.Paths.{path_base}
use k0smos.Base.Io.{Env}
use k0smos.Base.Decimal.{ℤ, pos, parse_uint, atoi}

pub data Action : Type 0 where
  mkdir : Text → Action
  chmod : Text → ℕ → Action
  chown : Text → ℤ → ℤ → Action
  -- path, target
  symlink : Text → Text → Action

pub record Plan : Type 0 where
  pub workload : List Text
  pub env : List Text
  pub actions : List Action
  pub unsupported : List (List Text)

abbrev pub no_plan : Plan
no_plan = record { workload = []; env = []; actions = []; unsupported = [] }

unfoldable pub is_service_manager : Text → Bool
is_service_manager bin =
    text_eq bin (codes "systemctl")
    || text_eq bin (codes "service")
    || text_eq bin (codes "rc-update")
    || text_eq bin (codes "rc-service")

unfoldable pub named_owner : Text → Option ℤ
named_owner s =
    if text_eq s (codes "root")
    then some (pos 0)
    else if text_eq s (codes "nobody")
    then some (pos 65534)
    else none

abbrev pub or_named : Text → Option ℤ → Option ℤ
or_named s none = named_owner s
or_named s (some n) = some n

-- resolveOwner(s)
unfoldable pub resolve_owner : Text → Option ℤ
resolve_owner s = or_named s (atoi s)

abbrev pub both : Option ℤ → Option ℤ → Option (ℤ × ℤ)
both (some uid) (some gid) = some (uid, gid)
both none gid = none
both (some uid) none = none

-- owner(spec)
unfoldable pub owner : Text → Option (ℤ × ℤ)
owner spec =
    let (u, g, found) = cut spec b':' in
    both (resolve_owner u) (resolve_owner (if found then g else u))

unfoldable pub is_operand : Text → Bool
is_operand a = not (has_prefix a (codes "-"))

-- flags(args): the operands
unfoldable pub flags : List Text → List Text
flags args = select is_operand args

-- hasFlag(args, "-" + letter)
unfoldable pub has_flag : List Text → Text → Bool
has_flag [] letter = false
has_flag (a ∷ args) letter =
    text_eq a (codes "-" ++ letter)
    || (has_prefix a (codes "-") && not (has_prefix a (codes "--")) && contains a letter)
    || has_flag args letter

abbrev pub mkdirs : List Text → Option (List Action)
mkdirs [] = none
mkdirs (p ∷ ps) = some (map mkdir (p ∷ ps))

abbrev pub chmod_each : List Text → Option ℕ → Option (List Action)
chmod_each paths none = none
chmod_each paths (some mode) = some (map (λ p. chmod p mode) paths)

abbrev pub chmods : List Text → Option (List Action)
chmods [] = none
chmods (mode ∷ []) = none
chmods (mode ∷ p ∷ ps) = chmod_each (p ∷ ps) (parse_uint 8 32 mode)

abbrev pub chown_each : List Text → Option (ℤ × ℤ) → Option (List Action)
chown_each paths none = none
chown_each paths (some (uid, gid)) = some (map (λ p. chown p uid gid) paths)

abbrev pub chowns : List Text → Option (List Action)
chowns [] = none
chowns (spec ∷ []) = none
chowns (spec ∷ p ∷ ps) = chown_each (p ∷ ps) (owner spec)

abbrev pub link : List Text → Option (List Action)
link [] = none
link (target ∷ []) = none
link (target ∷ path ∷ []) = some (symlink path target ∷ [])
link (target ∷ path ∷ p ∷ ps) = none

-- interpret(bin, cmd): `args` is the command without its first word
unfoldable pub interpret : Text → List Text → Option (List Action)
interpret bin args =
    if text_eq bin (codes "mkdir")
    then mkdirs (flags args)
    else if text_eq bin (codes "chmod")
    then chmods (flags args)
    else if text_eq bin (codes "chown")
    then chowns (flags args)
    else if text_eq bin (codes "ln")
    then (if has_flag args (codes "s") then link (flags args) else none)
    else none

unfoldable pub is_env_flag : Text → Bool
is_env_flag a = text_eq a (codes "--env") || text_eq a (codes "-e")

-- The loop of `translateInstall`; the flag says that the next word is the value of an `--env`.
unfoldable pub install_args : Bool → List Text → List Text × List Text
install_args value [] = ([], [])
install_args true (a ∷ args) = let (argv, env) = install_args false args in (argv, a ∷ env)
install_args false (a ∷ args) =
    let (argv, env) = install_args (not (text_eq a (codes "--force")) && is_env_flag a) args in
    if text_eq a (codes "--force") || is_env_flag a
    then (argv, env)
    else if has_prefix a (codes "--env=")
    then (argv, trim_prefix a (codes "--env=") ∷ env)
    else if has_prefix a (codes "-e=")
    then (argv, trim_prefix a (codes "-e=") ∷ env)
    else (a ∷ argv, env)

-- translateInstall(cmd): the words behind `install`, the role first
unfoldable pub translate_install : Text → Text → List Text → List Text × List Text
translate_install bin role args =
    let (argv, env) = install_args false args in (bin ∷ role ∷ argv, env)

abbrev pub use_interpreted : Plan → List Text → Option (List Action) → Plan
use_interpreted p cmd none = record p { unsupported = p.unsupported ++ cmd ∷ [] }
use_interpreted p cmd (some actions) = record p { actions = p.actions ++ actions }

abbrev pub is_start_stop : List Text → Bool
is_start_stop [] = false
is_start_stop (verb ∷ args) = text_eq verb (codes "start") || text_eq verb (codes "stop")

-- A command that is no `k0s install`.
unfoldable pub plan_other : Plan → Text → List Text → Plan
plan_other p arg args =
    let bin = path_base arg in
    if text_eq bin (codes "k0s") && is_start_stop args || is_service_manager bin
    then p
    else use_interpreted p (arg ∷ args) (interpret bin args)

abbrev pub with_workload : Plan → List Text × List Text → Plan
with_workload p (argv, env) = record p { workload = argv; env = p.env ++ env }

-- One round of the loop of `Plan`.
unfoldable pub plan_command : Plan → List Text → Plan
plan_command p [] = p
plan_command p (arg ∷ []) = plan_other p arg []
plan_command p (arg ∷ verb ∷ []) = plan_other p arg (verb ∷ [])
plan_command p (arg ∷ verb ∷ role ∷ args) =
    if text_eq (path_base arg) (codes "k0s") && text_eq verb (codes "install")
    then with_workload p (translate_install arg role args)
    else plan_other p arg (verb ∷ role ∷ args)

unfoldable pub plan_from : Plan → List (List Text) → Plan
plan_from p [] = p
plan_from p (cmd ∷ cmds) = plan_from (plan_command p cmd) cmds

-- (u UserData) Plan(), on RunCmd
unfoldable pub plan : List (List Text) → Plan
plan run_cmd = plan_from no_plan run_cmd

abbrev pub path_of : Action → Text
path_of (mkdir path) = path
path_of (chmod path mode) = path
path_of (chown path uid gid) = path
path_of (symlink path target) = path
