-- ===== src/Module/Resolver/Ordering.antt =====
-- The order in which modules are read and handed to the kernel.
use k0smos.Base.{
  ◌≡◌, refl, ◌∙◌, Bool, true, false, Option, none, some, List, [], ◌∷◌, ◌++◌, ◌||◌, arith, All,
  append_assoc, append-nil,
}
use k0smos.Base.Text.{Text, text_eq}
use k0smos.Base.Io.{Result, ok, err}
use k0smos.Module.Resolver.{
  Loader, Tree, State, Op, read, init, Errno, eexist, other, Bytes, resolve, decompress, after_init,
  init_image, use_image, insert_module, module_path, soft_deps, hard_deps,
}

-- The module has been read.
abbrev pub is_read : Text → List Op → Bool
is_read k [] = false
is_read k (read j p ∷ ops) = text_eq j k || is_read k ops
is_read k (init image ∷ ops) = is_read k ops

pub is_read-append :
    (k : Text) (xs ys : List Op) → is_read k (xs ++ ys) ≡ (is_read k xs || is_read k ys)
is_read-append k [] ys = refl
is_read-append k (read j p ∷ xs) ys = ground (arith, is_read-append k xs ys)
is_read-append k (init image ∷ xs) ys = is_read-append k xs ys

-- From the calls `before` on: no module is read twice.
abbrev pub OnceFrom : List Op → List Op → Type 0
OnceFrom before [] = Unit
OnceFrom before (read k p ∷ ops) =
    (is_read k before ≡ false) × OnceFrom (before ++ read k p ∷ []) ops
OnceFrom before (init image ∷ ops) = OnceFrom (before ++ init image ∷ []) ops

pub Once-snoc-read :
    (before xs : List Op) (k p : Text)
    → OnceFrom before xs
    → is_read k (before ++ xs) ≡ false
    → OnceFrom before (xs ++ read k p ∷ [])
Once-snoc-read before [] k p o d = (rw append-nil at d, tt)
Once-snoc-read before (read j q ∷ xs) k p (oj, o) d =
    (oj, Once-snoc-read (before ++ read j q ∷ []) xs k p o (rw append_assoc d))
Once-snoc-read before (init i ∷ xs) k p o d =
    Once-snoc-read (before ++ init i ∷ []) xs k p o (rw append_assoc d)

pub Once-snoc-init :
    (before xs : List Op) (i : Bytes) → OnceFrom before xs → OnceFrom before (xs ++ init i ∷ [])
Once-snoc-init before [] i o = tt
Once-snoc-init before (read j q ∷ xs) i (oj, o) =
    (oj, Once-snoc-init (before ++ read j q ∷ []) xs i o)
Once-snoc-init before (init x ∷ xs) i o = Once-snoc-init (before ++ init x ∷ []) xs i o

-- The module that a name resolves to, if any, has been read.
abbrev pub ResolvedRead : Option Text → List Op → Type 0
ResolvedRead none ops = Unit
ResolvedRead (some j) ops = is_read j ops ≡ true

module _ (r : Tree) where
  -- Every dependency of `k`, soft or hard, that resolves to a module has been read.
  abbrev pub DepsRead : Text → List Op → Type 0
  DepsRead k ops = All (λ d. ResolvedRead (resolve r d) ops) (soft_deps r k ++ hard_deps r k)

  -- From the calls `before` on: a module is read behind its dependencies.
  abbrev pub OrderedFrom : List Op → List Op → Type 0
  OrderedFrom before [] = Unit
  OrderedFrom before (read k p ∷ ops) =
      DepsRead k before × OrderedFrom (before ++ read k p ∷ []) ops
  OrderedFrom before (init image ∷ ops) = OrderedFrom (before ++ init image ∷ []) ops

  pub Ordered-snoc-read :
      (before xs : List Op) (k p : Text)
      → OrderedFrom before xs
      → DepsRead k (before ++ xs)
      → OrderedFrom before (xs ++ read k p ∷ [])
  Ordered-snoc-read before [] k p o d = (rw append-nil at d, tt)
  Ordered-snoc-read before (read j q ∷ xs) k p (oj, o) d =
      (oj, Ordered-snoc-read (before ++ read j q ∷ []) xs k p o (rw append_assoc d))
  Ordered-snoc-read before (init i ∷ xs) k p o d =
      Ordered-snoc-read (before ++ init i ∷ []) xs k p o (rw append_assoc d)

  pub Ordered-snoc-init :
      (before xs : List Op) (i : Bytes)
      → OrderedFrom before xs
      → OrderedFrom before (xs ++ init i ∷ [])
  Ordered-snoc-init before [] i o = tt
  Ordered-snoc-init before (read j q ∷ xs) i (oj, o) =
      (oj, Ordered-snoc-init (before ++ read j q ∷ []) xs i o)
  Ordered-snoc-init before (init x ∷ xs) i o = Ordered-snoc-init (before ++ init x ∷ []) xs i o

-- Inserting a module appends its read, and at most one call more.
pub data Inserted (r : Tree) (key : Text) (ops : List Op) : List Op → Type 0 where
  read_only : Inserted r key ops (ops ++ read key (module_path r key) ∷ [])
  read_init :
      (i : Bytes) → Inserted r key ops ((ops ++ read key (module_path r key) ∷ []) ++ init i ∷ [])

ops-after_init : (key : Text) (s : State) (e : Option Errno) → (after_init key s e).ops ≡ s.ops
ops-after_init key s none = refl
ops-after_init key s (some eexist) = refl
ops-after_init key s (some (other e)) = refl

pub insert-Inserted :
    (l : Loader) (r : Tree) (key : Text) (s : State)
    → Inserted r key s.ops (insert_module l r key s).ops
unfolding insert_module
insert-Inserted l r key s = used (l.read_file (module_path r key))
  where
    s' : State
    s' = record s { ops = s.ops ++ read key (module_path r key) ∷ [] }

    inited : (i : Result Text Bytes) → Inserted r key s.ops (init_image l key s' i).ops
    inited (err e) = read_only
    inited (ok image) =
        rw
          (ops-after_init key (record s' { ops = s'.ops ++ init image ∷ [] })
            (l.init_module s'.ops image))
          (read_init image)

    used : (i : Result Text Bytes) → Inserted r key s.ops (use_image l key s' i).ops
    used (err e) = read_only
    used (ok image) = inited (decompress l image)

read-snoc :
    (r : Tree) (key k : Text) (ops : List Op)
    → is_read k (ops ++ read key (module_path r key) ∷ []) ≡ (is_read k ops || text_eq key k)
read-snoc r key k ops = is_read-append k ops (read key (module_path r key) ∷ []) ∙ ground arith

-- What an insertion changes.
pub Inserted-is_read :
    (r : Tree) (key k : Text) (ops : List Op) {ops' : List Op}
    → Inserted r key ops ops'
    → is_read k ops' ≡ (is_read k ops || text_eq key k)
Inserted-is_read r key k ops read_only = read-snoc r key k ops
Inserted-is_read r key k ops (read_init i) =
    is_read-append k (ops ++ read key (module_path r key) ∷ []) (init i ∷ [])
    ∙ ground (arith, read-snoc r key k ops)

pub Inserted-Ordered :
    (r : Tree) (key : Text) (ops : List Op) {ops' : List Op}
    → Inserted r key ops ops'
    → OrderedFrom r [] ops
    → DepsRead r key ops
    → OrderedFrom r [] ops'
Inserted-Ordered r key ops read_only o d = Ordered-snoc-read r [] ops key (module_path r key) o d
Inserted-Ordered r key ops (read_init i) o d =
    Ordered-snoc-init r [] (ops ++ read key (module_path r key) ∷ []) i
      (Ordered-snoc-read r [] ops key (module_path r key) o d)

pub Inserted-Once :
    (r : Tree) (key : Text) (ops : List Op) {ops' : List Op}
    → Inserted r key ops ops'
    → OnceFrom [] ops
    → is_read key ops ≡ false
    → OnceFrom [] ops'
Inserted-Once r key ops read_only o d = Once-snoc-read [] ops key (module_path r key) o d
Inserted-Once r key ops (read_init i) o d =
    Once-snoc-init [] (ops ++ read key (module_path r key) ∷ []) i
      (Once-snoc-read [] ops key (module_path r key) o d)
