-- ===== src/Tests/Metadata.antt =====
-- Runs of the interpretation of user-data (internal/metadata).
use k0smos.Base.Text.Laws.{Lacks}
use k0smos.Base.{arith, ◌≡◌, refl, none, some, List, [], ◌∷◌, All, In, map, ◌↔◌}
use k0smos.Base.Text.{Text, codes, text_eq, has_prefix, cut, trim_prefix}
use k0smos.Base.Io.{Env}
use k0smos.Base.Paths.{path_base}
use k0smos.Base.Decimal.{pos, parse_uint, parse_digits, atoi}
use k0smos.Metadata.Plan.{
  Action, mkdir, chmod, chown, plan, plan_from, plan_command, plan_other, is_service_manager,
  interpret, flags, is_operand, has_flag, owner, resolve_owner, named_owner, translate_install,
  install_args, is_env_flag,
}
use k0smos.Metadata.Plan.Install.{
  force, env_apart, env_joined, argument, words, translate_install-words,
}
use k0smos.Metadata.Plan.Interpret.{plan-FromCommand, FromCommand}
use k0smos.Metadata.Plan.Actions.{
  Op, mkdir_all, change_mode, run_actions, call_of, run_actions_complete, FailedAt,
}

abbrev bootstrap : List (List Text)
bootstrap =
    (codes "/usr/local/bin/k0s"
      ∷ codes "install"
      ∷ codes "worker"
      ∷ codes "--force"
      ∷ codes "-e"
      ∷ codes "A=1"
      ∷ codes "--token-file"
      ∷ codes "/etc/token"
      ∷ [])
    ∷ (codes "mkdir" ∷ codes "-p" ∷ codes "/etc/k0s" ∷ [])
    ∷ (codes "/bin/chmod" ∷ codes "0700" ∷ codes "/etc/k0s" ∷ [])
    ∷ (codes "chown" ∷ codes "nobody" ∷ codes "/etc/k0s" ∷ [])
    ∷ (codes "systemctl" ∷ codes "daemon-reload" ∷ [])
    ∷ (codes "curl" ∷ codes "x" ∷ [])
    ∷ (codes "k0s" ∷ codes "start" ∷ [])
    ∷ []

plan_of_bootstrap : plan bootstrap ≡ record {
  workload =
      codes "/usr/local/bin/k0s" ∷ codes "worker" ∷ codes "--token-file" ∷ codes "/etc/token" ∷ [];
  env = codes "A=1" ∷ [];
  actions =
      mkdir (codes "/etc/k0s")
      ∷ chmod (codes "/etc/k0s") 0o700
      ∷ chown (codes "/etc/k0s") (pos 65534) (pos 65534)
      ∷ [];
  unsupported = (codes "curl" ∷ codes "x" ∷ []) ∷ [];
}
unfolding plan plan_from plan_command plan_other interpret path_base text_eq has_prefix is_operand
    flags is_service_manager owner resolve_owner named_owner cut atoi parse_uint parse_digits
    translate_install install_args is_env_flag trim_prefix has_flag
plan_of_bootstrap = refl

plan-FromCommand_example : All (FromCommand bootstrap) (plan bootstrap).actions
plan-FromCommand_example = plan-FromCommand bootstrap

translate_install-words_example :
    translate_install (codes "k0s") (codes "worker") (
      words (
        force
        ∷ env_apart (codes "A=1")
        ∷ env_joined (codes "B=2")
        ∷ argument (codes "--debug")
        ∷ []))
    ≡ (codes "k0s" ∷ codes "worker" ∷ codes "--debug" ∷ [], codes "A=1" ∷ codes "B=2" ∷ [])
unfolding text_eq has_prefix is_env_flag
translate_install-words_example =
    translate_install-words (codes "k0s") (codes "worker")
      (force ∷ env_apart (codes "A=1") ∷ env_joined (codes "B=2") ∷ argument (codes "--debug") ∷ [])
      (tt, (tt, (tt, ((refl, refl, refl, refl), tt))))

abbrev mode_args : List Text
mode_args = codes "-R" ∷ codes "750" ∷ codes "/opt" ∷ []

mode_of_opt : interpret (codes "chmod") mode_args ≡ some (chmod (codes "/opt") 0o750 ∷ [])
unfolding interpret flags is_operand has_prefix text_eq parse_uint parse_digits
mode_of_opt = refl

no_colon : Lacks b':' (codes "nobody")
no_colon = ground arith

-- A machine on which changing a mode fails.
abbrev no_chmod : Env Op Text
no_chmod t (mkdir_all p m) = none
no_chmod t (change_mode p m) = some (codes "EROFS")
no_chmod t o = none

abbrev two_actions : List Action
two_actions = chmod (codes "/a") 0o700 ∷ mkdir (codes "/b") ∷ []

run_actions_complete_example :
    ((run_actions no_chmod two_actions []).1 ≡ map call_of two_actions)
    × (In (codes "/a", codes "EROFS") (run_actions no_chmod two_actions []).0
        ↔ FailedAt no_chmod two_actions [] (codes "/a") (codes "EROFS"))
run_actions_complete_example =
    run_actions_complete no_chmod two_actions [] (codes "/a") (codes "EROFS")
