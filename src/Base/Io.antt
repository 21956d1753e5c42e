-- ===== src/Base/Io.antt =====
-- Code that calls an interface to the machine: each run takes the calls made so far and gives them
-- back with its own behind, oldest first, beside its result or its error.
-- The environment answers a call with an error or with none, and may look at every earlier call:
-- nothing is assumed of it.
use mathlib.Core.Option.{Option, none, some}
use mathlib.Core.List.{List, [], ◌∷◌, ◌++◌}

pub data Result (E A : Type 0) : Type 0 where
  ok : A → Result E A
  err : E → Result E A

abbrev pub Env : Type 0 → Type 0 → Type 0
Env Op E = List Op → Op → Option E

abbrev pub Io : Type 0 → Type 0 → Type 0 → Type 0
Io Op E A = List Op → Result E A × List Op

module _ {Op E A : Type 0} where
  abbrev pub pure : A → Io Op E A
  pure a t = (ok a, t)

  abbrev pub raise : E → Io Op E A
  raise e t = (err e, t)

abbrev pub answer : {Op F E : Type 0} → Option F → (F → E) → List Op → Result E Unit × List Op
answer none wrap t = (ok tt, t)
answer (some e) wrap t = (err (wrap e), t)

module _ {Op F E : Type 0} (env : Env Op F) where
  -- `if err := op; err != nil { return wrap(err) }`
  abbrev pub attempt : Op → (F → E) → Io Op E Unit
  attempt op wrap t = answer (env t op) wrap (t ++ op ∷ [])

  -- `_ = op`
  abbrev pub ignore : Op → Io Op E Unit
  ignore op t = (ok tt, t ++ op ∷ [])

module _ {Op E A B : Type 0} where
  abbrev pub continue : Result E A → (A → Io Op E B) → Io Op E B
  continue (ok a) f t = f a t
  continue (err e) f t = (err e, t)

  infixl 10 ◌>>=◌ ◌>>◌
  abbrev pub ◌>>=◌ : Io Op E A → (A → Io Op E B) → Io Op E B
  ◌>>=◌ m f t = let (r, t') = m t in continue r f t'

  abbrev pub ◌>>◌ : Io Op E A → Io Op E B → Io Op E B
  m >> n = m >>= λ _. n
