-- ===== src/Metadata/Plan/Install.antt =====
-- The command line of `k0s install`, its settings of the environment taken out.
use k0smos.Base.{arith, false, List, [], ◌∷◌, ◌++◌, ◌≡◌, refl, All}
use k0smos.Base.Text.{Text, codes, text_eq, has_prefix, trim_prefix}
use k0smos.Metadata.Plan.{install_args, translate_install, is_env_flag}

-- What a user writes behind the role.
pub data Item : Type 0 where
  force : Item
  env_apart : Text → Item
  env_short : Text → Item
  env_joined : Text → Item
  env_short_joined : Text → Item
  argument : Text → Item

abbrev pub words : List Item → List Text
words [] = []
words (force ∷ l) = codes "--force" ∷ words l
words (env_apart v ∷ l) = codes "--env" ∷ v ∷ words l
words (env_short v ∷ l) = codes "-e" ∷ v ∷ words l
words (env_joined v ∷ l) = (codes "--env=" ++ v) ∷ words l
words (env_short_joined v ∷ l) = (codes "-e=" ++ v) ∷ words l
words (argument a ∷ l) = a ∷ words l

abbrev pub arguments : List Item → List Text
arguments [] = []
arguments (argument a ∷ l) = a ∷ arguments l
arguments (force ∷ l) = arguments l
arguments (env_apart v ∷ l) = arguments l
arguments (env_short v ∷ l) = arguments l
arguments (env_joined v ∷ l) = arguments l
arguments (env_short_joined v ∷ l) = arguments l

abbrev pub settings : List Item → List Text
settings [] = []
settings (argument a ∷ l) = settings l
settings (force ∷ l) = settings l
settings (env_apart v ∷ l) = v ∷ settings l
settings (env_short v ∷ l) = v ∷ settings l
settings (env_joined v ∷ l) = v ∷ settings l
settings (env_short_joined v ∷ l) = v ∷ settings l

-- An argument is none of the words that are taken out.
abbrev pub IsPlain : Item → Type 0
IsPlain (argument a) =
    (text_eq a (codes "--force") ≡ false)
    × (is_env_flag a ≡ false)
    × (has_prefix a (codes "--env=") ≡ false)
    × (has_prefix a (codes "-e=") ≡ false)
IsPlain force = Unit
IsPlain (env_apart v) = Unit
IsPlain (env_short v) = Unit
IsPlain (env_joined v) = Unit
IsPlain (env_short_joined v) = Unit

install_args-words :
    (l : List Item) → All IsPlain l → install_args false (words l) ≡ (arguments l, settings l)
unfolding install_args is_env_flag text_eq has_prefix trim_prefix
install_args-words [] h = refl
install_args-words (force ∷ l) (_, h) = rw (install_args-words l h) refl
install_args-words (env_apart v ∷ l) (_, h) = rw (install_args-words l h) refl
install_args-words (env_short v ∷ l) (_, h) = rw (install_args-words l h) refl
install_args-words (env_joined v ∷ l) (_, h) = rw (install_args-words l h) refl
install_args-words (env_short_joined v ∷ l) (_, h) = rw (install_args-words l h) refl
install_args-words (argument a ∷ l) ((p, q, r, s), h) = ground (arith, install_args-words l h)

-- In whatever order the flags and the arguments of an install stand, if no argument looks like one
-- of the flags: the workload is the binary, the role and the arguments, in order; the environment
-- has the value of each setting, in each of its four forms, in order; `--force` is in neither.
pub translate_install-words :
    (bin role : Text) (l : List Item)
    → All IsPlain l
    → translate_install bin role (words l) ≡ (bin ∷ role ∷ arguments l, settings l)
unfolding translate_install
translate_install-words bin role l h = rw (install_args-words l h) refl
