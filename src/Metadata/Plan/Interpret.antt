-- ===== src/Metadata/Plan/Interpret.antt =====
-- What the interpretation of a command yields.
use mathlib.Core.Path.{subst}
use k0smos.Base.{
  ℕ, Bool, true, false, Option, none, some, List, [], ◌∷◌, ◌++◌, ◌≡◌, ◌<◌, ◌^◌, refl, map, In, All,
  All-append, All-of-In, All-mono, ◌&&◌, ◌||◌, select, arith, inl, inr, Bool-cases, Option-cases,
}
use k0smos.Base.Text.{Text, codes, text_eq, cut}
use k0smos.Base.Text.Laws.{Lacks, cut-append}
use k0smos.Base.Paths.{path_base}
use k0smos.Base.Decimal.{parse_uint}
use k0smos.Metadata.Plan.{
  Plan, is_start_stop, is_service_manager, Action, mkdir, chmod, chown, symlink, path_of, flags,
  is_operand, interpret, mkdirs, chmods, chowns, link, owner, plan, plan_from, plan_command,
  plan_other, no_plan,
}

-- The mode of an action fits 32 bits.
abbrev pub HasMode : Action → Type 0
HasMode (mkdir path) = Unit
HasMode (chmod path mode) = mode < 2 ^ 32
HasMode (chown path uid gid) = Unit
HasMode (symlink path target) = Unit

-- An action on an operand of the command: a word of it that is no flag.
abbrev pub OnOperand : List Text → Action → Type 0
OnOperand args a = In (path_of a) args × (is_operand (path_of a) ≡ true) × HasMode a

In-select : (p : Text → Bool) (x : Text) (l : List Text) → In x (select p l) → In x l × (p x ≡ true)
In-select p x [] m = absurd m
In-select p x (y ∷ l) m = elim (Bool-cases (p y)) [
  | inl e ↦ elim (rw e at m) as (λ _. In x (y ∷ l) × (p x ≡ true)) [
    | inl q ↦ (inl q, subst (λ z. p z ≡ true) q e)
    | inr r ↦ (inr (In-select p x l r).0, (In-select p x l r).1)
  ]
  | inr e ↦ let (i, t) = In-select p x l (rw e at m) in (inr i, t)
]

module _ (args : List Text) where
  abbrev Good : Text → Type 0
  Good p = In p args × (is_operand p ≡ true)

  abbrev GoodResult : Option (List Action) → Type 0
  GoodResult none = Unit
  GoodResult (some l) = All (OnOperand args) l

  map-OnOperand :
      (f : Text → Action)
      → ((p : Text) → path_of (f p) ≡ p)
      → ((p : Text) → HasMode (f p))
      → (ps : List Text) → All Good ps
      → All (OnOperand args) (map f ps)
  map-OnOperand f hp hm [] h = tt
  map-OnOperand f hp hm (p ∷ ps) ((i, o), h) = (rw (hp p) (i, o, hm p), map-OnOperand f hp hm ps h)

  mkdirs-GoodResult : (ps : List Text) → All Good ps → GoodResult (mkdirs ps)
  mkdirs-GoodResult [] h = tt
  mkdirs-GoodResult (p ∷ ps) h = map-OnOperand mkdir (λ _. refl) (λ _. tt) (p ∷ ps) h

  parse_mode_bound : (s : Text) (n : ℕ) → parse_uint 8 32 s ≡ some n → n < 2 ^ 32
  unfolding parse_uint
  parse_mode_bound [] n h = cc
  parse_mode_bound (c ∷ s) n h = ground arith

  chmods-GoodResult : (ps : List Text) → All Good ps → GoodResult (chmods ps)
  chmods-GoodResult [] h = tt
  chmods-GoodResult (m ∷ []) h = tt
  chmods-GoodResult (m ∷ p ∷ ps) (_, h) = elim (Option-cases (parse_uint 8 32 m)) [
    | inl e ↦ rw e tt
    | inr (n, e) ↦
        rw e (map-OnOperand (λ q. chmod q n) (λ _. refl) (λ _. parse_mode_bound m n e) (p ∷ ps) h)
  ]

  chowns-GoodResult : (ps : List Text) → All Good ps → GoodResult (chowns ps)
  chowns-GoodResult [] h = tt
  chowns-GoodResult (m ∷ []) h = tt
  chowns-GoodResult (m ∷ p ∷ ps) (_, h) = elim (Option-cases (owner m)) [
    | inl e ↦ rw e tt
    | inr ((u, g), e) ↦ rw e (map-OnOperand (λ q. chown q u g) (λ _. refl) (λ _. tt) (p ∷ ps) h)
  ]

  link-GoodResult : (ps : List Text) → All Good ps → GoodResult (link ps)
  link-GoodResult [] h = tt
  link-GoodResult (t ∷ []) h = tt
  link-GoodResult (t ∷ p ∷ []) (_, ((i, o), _)) = ((i, o, tt), tt)
  link-GoodResult (t ∷ p ∷ q ∷ ps) h = tt

  interpret-GoodResult : (bin : Text) → All Good (flags args) → GoodResult (interpret bin args)
  unfolding interpret
  interpret-GoodResult bin h = ground (
    arith,
    mkdirs-GoodResult (flags args) h,
    chmods-GoodResult (flags args) h,
    chowns-GoodResult (flags args) h,
    link-GoodResult (flags args) h,
  )

-- A command that is interpreted acts only on its operands, words that begin with no dash, whatever
-- they hold, and sets no mode of more than 32 bits.
pub interpret-operands :
    (bin : Text) (args : List Text) (l : List Action)
    → interpret bin args ≡ some l
    → All (OnOperand args) l
unfolding flags
interpret-operands bin args l e = subst (GoodResult args) e (
    interpret-GoodResult args bin
      (All-of-In (Good args) (flags args) (λ x m. In-select is_operand x args m)))

cut-Lacks : (s : Text) (sep : ℕ) → Lacks sep s → cut s sep ≡ (s, [], false)
unfolding cut
cut-Lacks [] sep h = refl
cut-Lacks (c ∷ s) sep (hc, hs) = ground (arith, cut-Lacks s sep hs)

-- An owner with no group has the group of the same name or number.
pub owner_alone : (u : Text) → Lacks b':' u → owner u ≡ owner (u ++ b':' ∷ u)
unfolding owner
owner_alone u h = rw (cut-Lacks u b':' h, cut-append u u b':' h) refl

-- The plan's actions, from the actions of each command.
module _ (P : Action → Type 0) where
  abbrev Interpreted : List Text → Type 0
  Interpreted cmd =
      (arg : Text) (args : List Text) (l : List Action)
      → cmd ≡ arg ∷ args
      → interpret (path_base arg) args ≡ some l
      → All P l

  actions-plan_other :
      (p : Plan) (arg : Text) (args : List Text)
      → All P p.actions
      → Interpreted (arg ∷ args)
      → All P (plan_other p arg args).actions
  unfolding plan_other
  actions-plan_other p arg args h g =
      elim (Bool-cases (
        text_eq (path_base arg) (codes "k0s") && is_start_stop args
        || is_service_manager (path_base arg))) [
          | inl e ↦ rw e h
          | inr e ↦ elim (Option-cases (interpret (path_base arg) args)) [
            | inl n ↦ rw (e, n) h
            | inr (l, s) ↦ rw (e, s) (All-append P p.actions l h (g arg args l refl s))
          ]
        ]

  actions-plan_command :
      (p : Plan) (cmd : List Text)
      → All P p.actions
      → Interpreted cmd
      → All P (plan_command p cmd).actions
  unfolding plan_command
  actions-plan_command p [] h g = h
  actions-plan_command p (arg ∷ []) h g = actions-plan_other p arg [] h g
  actions-plan_command p (arg ∷ verb ∷ []) h g = actions-plan_other p arg (verb ∷ []) h g
  actions-plan_command p (arg ∷ verb ∷ role ∷ args) h g =
      elim (Bool-cases (text_eq (path_base arg) (codes "k0s") && text_eq verb (codes "install"))) [
        | inl e ↦ rw e h
        | inr e ↦ rw e (actions-plan_other p arg (verb ∷ role ∷ args) h g)
      ]

  actions-plan_from :
      (p : Plan) (cmds : List (List Text))
      → All P p.actions
      → ((cmd : List Text) → In cmd cmds → Interpreted cmd)
      → All P (plan_from p cmds).actions
  unfolding plan_from
  actions-plan_from p [] h g = h
  actions-plan_from p (cmd ∷ cmds) h g =
      actions-plan_from (plan_command p cmd) cmds (actions-plan_command p cmd h (g cmd (inl refl)))
        (λ c m. g c (inr m))

-- An action of some command.
abbrev pub FromCommand : List (List Text) → Action → Type 0
FromCommand cmds a = (arg : Text) × (args : List Text) × In (arg ∷ args) cmds × OnOperand args a

-- Whatever user-data says: an action of the plan acts on an operand of one of its commands.
pub plan-FromCommand : (cmds : List (List Text)) → All (FromCommand cmds) (plan cmds).actions
unfolding plan
plan-FromCommand cmds =
    actions-plan_from (FromCommand cmds) no_plan cmds tt (λ cmd m arg args l e s.
      All-mono (OnOperand args) (FromCommand cmds)
        (λ a o. (arg, args, subst (λ c. In c cmds) e m, o)) l
        (interpret-operands (path_base arg) args l s))
