-- ===== src/Supervise.antt =====
-- internal/supervise/supervise.go: the child is restarted, with a capped exponential pause.
pub mod Backoff
pub mod Restarts
use k0smos.Base.{
  ℕ, zero, suc, ◌+◌, ◌*◌, ◌^◌, Bool, true, false, Option, none, some, List, [], ◌∷◌, ◌++◌,
  if◌then◌else◌, ltb,
}

-- What a run does: start the child and wait for its end, report the end, pause.
pub data Op : Type 0 where
  start : Op
  on_exit : Op
  sleep : ℕ → Op

-- 200 * time.Millisecond
abbrev pub first_backoff : ℕ
first_backoff = 2 * 10 ^ 8

-- 10 * time.Second
abbrev pub default_max : ℕ
default_max = 10 ^ 10

-- `if opts.MaxBackoff == 0 { opts.MaxBackoff = 10 * time.Second }`
abbrev pub max_backoff : ℕ → ℕ
max_backoff zero = default_max
max_backoff (suc n) = suc n

-- `if backoff *= 2; backoff > opts.MaxBackoff { backoff = opts.MaxBackoff }`
unfoldable pub next_backoff : ℕ → ℕ → ℕ
next_backoff max backoff = if ltb max (2 * backoff) then max else 2 * backoff

module _ (cancelled : List Op → Bool) (reports : Bool) (max : ℕ) where
  -- The child's end is reported if `OnExit` is set.
  abbrev pub after_start : List Op → List Op
  after_start t = if reports then t ++ start ∷ on_exit ∷ [] else t ++ start ∷ []

  -- The loop of `Run`, for so many rounds; `cancelled t` is `ctx.Err() != nil` after the calls `t`.
  -- Gives the calls made when it returns, and none when the rounds are used up.
  unfoldable pub run_from : ℕ → ℕ → List Op → Option (List Op)
  run_from zero backoff t = none
  run_from (suc rounds) backoff t =
      let t1 = after_start t in
      let rest = run_from rounds (next_backoff max backoff) (t1 ++ sleep backoff ∷ []) in
      if cancelled t then some t else if cancelled t1 then some t1 else rest

-- Run(ctx, opts)
unfoldable pub run : (List Op → Bool) → Bool → ℕ → ℕ → Option (List Op)
run cancelled reports max rounds =
    run_from cancelled reports (max_backoff max) rounds first_backoff []
