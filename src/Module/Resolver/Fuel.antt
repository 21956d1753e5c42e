-- ===== src/Module/Resolver/Fuel.antt =====
-- The measure of the walk: the modules of the tree that are not marked, fewer with each mark.
use mathlib.Core.Path.{subst}
use k0smos.Base.{
  ℕ, suc, ◌≤◌, ◌<◌, ◌≡◌, refl, true, false, Option, none, some, List, [], ◌∷◌, inl, inr,
  if◌then◌else◌, ◌||◌, arith, length, Bool-cases,
}
use k0smos.Base.Text.{Text, text_eq}
use k0smos.Base.Text.Laws.{text_eq_iff, text_eq_refl}
use k0smos.Base.Io.{Result, ok, err}
use k0smos.Module.Index.{Table, lookup, ModInfo, is_member}
use k0smos.Module.Resolver.{
  Loader, Tree, State, Errno, eexist, other, Bytes, is_some, keyed, unless_empty, resolve,
  decompress, after_init, init_image, use_image, insert_module, module_path, mark,
}

done-after_init : (key : Text) (s : State) (e : Option Errno) → (after_init key s e).done ≡ s.done
done-after_init key s none = refl
done-after_init key s (some eexist) = refl
done-after_init key s (some (other e)) = refl

done-init_image :
    (l : Loader) (key : Text) (s : State) (i : Result Text Bytes)
    → (init_image l key s i).done ≡ s.done
done-init_image l key s (ok image) = done-after_init key _ (l.init_module s.ops image)
done-init_image l key s (err e) = refl

done-use_image :
    (l : Loader) (key : Text) (s : State) (i : Result Text Bytes)
    → (use_image l key s i).done ≡ s.done
done-use_image l key s (ok image) = done-init_image l key s (decompress l image)
done-use_image l key s (err e) = refl

pub done-insert_module :
    (l : Loader) (r : Tree) (key : Text) (s : State) → (insert_module l r key s).done ≡ s.done
unfolding insert_module
done-insert_module l r key s = done-use_image l key _ (l.read_file (module_path r key))

unless_empty-some : (o : Option Text) (key : Text) → unless_empty o ≡ some key → o ≡ some key
unless_empty-some none key h = h
unless_empty-some (some []) key h = cc
unless_empty-some (some (c ∷ k)) key h = h

keyed-is_some :
    (deps : Table ModInfo) (o : Option Text) (key : Text)
    → keyed deps o ≡ some key
    → is_some (lookup key deps) ≡ true
keyed-is_some deps none key h = cc
keyed-is_some deps (some target) key h = ground arith

-- A name resolves to a module of the tree.
pub resolve-is_some :
    (r : Tree) (name key : Text) → resolve r name ≡ some key → is_some (lookup key r.deps) ≡ true
unfolding resolve
resolve-is_some r name key h =
    let found = unless_empty-some _ key h in
    elim (Bool-cases (is_some (lookup name r.deps))) [
      | inl e ↦
          let same : ◌≡◌ {A = Option Text} (some name) (some key) = rw e at found in
          subst (λ k. is_some (lookup k r.deps) ≡ true) (some_name same) e
      | inr e ↦ keyed-is_some r.deps (lookup name r.alias) key (rw e at found)
    ]
  where
    some_name : ◌≡◌ {A = Option Text} (some name) (some key) → name ≡ key
    some_name e = cc

-- How many entries of the table are not marked.
unmarked : Table ModInfo → List Text → ℕ
unmarked [] done = 0
unmarked ((k, v) ∷ m) done =
    let rest = unmarked m done in if is_member k done then rest else suc rest

unmarked-le : (m : Table ModInfo) (done : List Text) → unmarked m done ≤ length m
unfolding unmarked
unmarked-le [] done = omega arith
unmarked-le ((k, v) ∷ m) done = ground (arith, unmarked-le m done)

pub is_member-cons :
    (x y : Text) (l : List Text) → is_member x (y ∷ l) ≡ (text_eq y x || is_member x l)
unfolding is_member
is_member-cons x y l = refl

unmarked-cons :
    (key : Text) (m : Table ModInfo) (done : List Text) → unmarked m (key ∷ done) ≤ unmarked m done
unfolding unmarked
unmarked-cons key [] done = omega arith
unmarked-cons key ((k, v) ∷ m) done =
    ground (arith, is_member-cons k key done, unmarked-cons key m done)

unmarked-mark :
    (key : Text) (m : Table ModInfo) (done : List Text)
    → is_some (lookup key m) ≡ true
    → is_member key done ≡ false
    → unmarked m (key ∷ done) < unmarked m done
unfolding unmarked lookup
unmarked-mark key [] done h _ = cc
unmarked-mark key ((k, v) ∷ m) done h hd = ground (
  arith,
  is_member-cons k key done,
  text_eq_iff k key,
  text_eq_refl key,
  unmarked-cons key m done,
  unmarked-mark key m done,
)

module _ (l : Loader) (r : Tree) where
  pub left : State → ℕ
  left s = unmarked r.deps s.done

  pub left-mark :
      (s : State) (key : Text)
      → is_some (lookup key r.deps) ≡ true
      → is_member key s.done ≡ false
      → left (mark s key) < left s
  unfolding left
  left-mark s key h d = unmarked-mark key r.deps s.done h d

  pub left-insert : (key : Text) (s : State) → left (insert_module l r key s) ≡ left s
  unfolding left
  left-insert key s = rw (done-insert_module l r key s)

  pub left-le : (s : State) → left s ≤ length r.deps
  unfolding left
  left-le s = unmarked-le r.deps s.done
