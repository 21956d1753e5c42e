-- ===== src/Blkid/Wait.antt =====
-- Resolving with retries.
use k0smos.Base.{ℕ, zero, suc, ◌+◌, ◌<◌, ◌≡◌, sym, ◌∙◌, Option, none, some, arith}
use mathlib.Core.Path.{subst}
use native.Mathlib.Nat.{zero-add}
use k0smos.Base.Text.{Text}
use k0smos.Base.Io.{Result, ok, err}
use k0smos.Blkid.{Prober, Failure, resolve, wait_from, resolve_wait}

abbrev Fails : (ℕ → Prober) → Text → ℕ → Type 0
Fails view spec i = (e : Failure) × (resolve (view i) spec ≡ err e)

at_index :
    (view : ℕ → Prober) (spec : Text) (r : Result Failure Text) {i j : ℕ}
    → i ≡ j
    → resolve (view i) spec ≡ r
    → resolve (view j) spec ≡ r
at_index view spec r e h = subst (λ n. resolve (view n) spec ≡ r) e h

wait_from_success :
    (view : ℕ → Prober) (spec dev : Text) (attempts i k : ℕ) (last : Option Failure)
    → k < attempts
    → ((j : ℕ) → j < k → Fails view spec (i + j))
    → resolve (view (i + k)) spec ≡ ok dev
    → wait_from view spec attempts i last ≡ (ok dev, i + k)
unfolding wait_from
wait_from_success view spec dev zero i k last h _ _ = absurd (omega arith)
wait_from_success view spec dev (suc n) i zero last h _ e =
    let e0 : i + 0 ≡ i = omega arith in rw (e0, at_index view spec (ok dev) e0 e, wait_from)
wait_from_success view spec dev (suc n) i (suc k) last h f e =
    let e0 : i + 0 ≡ i = omega arith in
    let e1 : i + suc k ≡ suc i + k = omega arith in
    let bad = f 0 (omega arith) in
    rw (e1, at_index view spec (err bad.0) e0 bad.1, wait_from)
      (wait_from_success view spec dev n (suc i) k (some bad.0) (omega arith)
        (λ j hj. later j (f (suc j) (omega arith))) (at_index view spec (ok dev) e1 e))
  where
    later : (j : ℕ) → Fails view spec (i + suc j) → Fails view spec (suc i + j)
    later j (x, p) = (x, at_index view spec (err x) (omega arith) p)

-- Retrying returns the first success and pauses once for each failure before it.
pub resolve_wait_success :
    (view : ℕ → Prober) (spec dev : Text) (attempts k : ℕ)
    → k < attempts
    → ((j : ℕ) → j < k → (e : Failure) × (resolve (view j) spec ≡ err e))
    → resolve (view k) spec ≡ ok dev
    → resolve_wait view spec attempts ≡ (ok dev, k)
unfolding resolve_wait
resolve_wait_success view spec dev attempts k h f e =
    wait_from_success view spec dev attempts 0 k none h (λ j hj. shift j (f j hj))
      (at_index view spec (ok dev) (sym (zero-add k)) e)
    ∙ rw zero-add
  where
    shift : (j : ℕ) → Fails view spec j → Fails view spec (0 + j)
    shift j (x, p) = (x, at_index view spec (err x) (sym (zero-add j)) p)
