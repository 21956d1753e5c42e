-- ===== src/Module/Resolver/Ends.antt =====
-- The source's recursion as a relation, without fuel, and the fuel of the model.
use mathlib.Core.Path.{subst}
use k0smos.Base.{
  Bool, ℕ, zero, suc, ◌≤◌, ◌≡◌, refl, sym, ◌∙◌, true, false, Option, none, some, List, [], ◌∷◌,
  ◌++◌, arith, Bool-cases, inl, inr, length,
}
use k0smos.Base.Text.{Text}
use k0smos.Module.Index.{is_member}
use k0smos.Module.Resolver.{
  Loader, Tree, State, resolve, insert_module, mark, soft_deps, hard_deps, load_each, visit, load,
  load_names,
}
use k0smos.Module.Resolver.Fuel.{resolve-is_some, left, left-mark, left-le}
use k0smos.Module.Resolver.Walk.{load-Grows, each-Grows}

-- Loading names one behind the other: a name that resolves to nothing or to a module that is marked
-- changes nothing; any other module is marked, then what it depends on is loaded, softly before
-- hard, then the module itself is inserted.
pub data Loads (l : Loader) (r : Tree) : State → List Text → State → Type 0 where
  end : (s : State) → Loads l r s [] s
  absent :
      (s t : State) (d : Text) (ds : List Text)
      → resolve r d ≡ none
      → Loads l r s ds t
      → Loads l r s (d ∷ ds) t
  already :
      (s t : State) (d key : Text) (ds : List Text)
      → resolve r d ≡ some key
      → is_member key s.done ≡ true
      → Loads l r s ds t
      → Loads l r s (d ∷ ds) t
  deeper :
      (s u t : State) (d key : Text) (ds : List Text)
      → resolve r d ≡ some key
      → is_member key s.done ≡ false
      → Loads l r (mark s key) (soft_deps r key ++ hard_deps r key) u
      → Loads l r (insert_module l r key u) ds t
      → Loads l r s (d ∷ ds) t

module _ (l : Loader) (r : Tree) where
  Loads-append :
      {s t u : State} {ds : List Text} (es : List Text)
      → Loads l r s ds t
      → Loads l r t es u
      → Loads l r s (ds ++ es) u
  Loads-append es (end s) k = k
  Loads-append es (absent s t d ds e h) k = absent s _ d (ds ++ es) e (Loads-append es h k)
  Loads-append es (already s t d key ds e m h) k =
      already s _ d key (ds ++ es) e m (Loads-append es h k)
  Loads-append es (deeper s v t d key ds e m g h) k =
      deeper s v _ d key (ds ++ es) e m g (Loads-append es h k)

  -- A way to load that follows the relation wherever at most `n` modules are left.
  abbrev Follows : ℕ → (State → Text → State) → Type 0
  Follows n g = (s : State) (d : Text) → left l r s ≤ n → Loads l r s (d ∷ []) (g s d)

  each-Loads :
      (n fuel : ℕ) (ds : List Text) (s : State)
      → Follows n (load l r fuel)
      → left l r s ≤ n
      → Loads l r s ds (load_each (load l r fuel) ds s)
  unfolding load_each
  each-Loads n fuel [] s f h = end s
  each-Loads n fuel (d ∷ ds) s f h = Loads-append ds (f s d h) (
      each-Loads n fuel ds (load l r fuel s d) f
        (omega (arith, h, (load-Grows l r fuel s d).fewer)))

  visit-Loads :
      (n fuel : ℕ) (s : State) (d : Text) (o : Option Text)
      → (left l r s ≤ suc n → Follows n (load l r fuel))
      → resolve r d ≡ o
      → left l r s ≤ suc n
      → Loads l r s (d ∷ []) (visit l r (load l r fuel) s o)
  unfolding visit
  visit-Loads n fuel s d none f e h = absent s s d [] e (end s)
  visit-Loads n fuel s d (some key) f e h = elim (Bool-cases (is_member key s.done)) [
    | inl m ↦ rw m (already s s d key [] e m (end s))
    | inr m ↦
        let few = left-mark l r s key (resolve-is_some r d key e) m in
        let soft = load_each (load l r fuel) (soft_deps r key) (mark s key) in
        let g1 = each-Loads n fuel (soft_deps r key) (mark s key) (f h) (omega (arith, h, few)) in
        let grown =
          each-Grows l r (load l r fuel) (soft_deps r key) (mark s key) (load-Grows l r fuel) in
        let g2 =
          each-Loads n fuel (hard_deps r key) soft (f h) (omega (arith, h, few, grown.fewer)) in
        rw m (deeper s _ _ d key [] e m (Loads-append (hard_deps r key) g1 g2) (end _))
  ]

  visit_last-Loads :
      (s : State) (d : Text) (o : Option Text)
      → resolve r d ≡ o
      → left l r s ≤ 0
      → Loads l r s (d ∷ []) (visit l r (load l r zero) s o)
  unfolding visit
  visit_last-Loads s d none e h = absent s s d [] e (end s)
  visit_last-Loads s d (some key) e h = elim (Bool-cases (is_member key s.done)) [
    | inl m ↦ rw m (already s s d key [] e m (end s))
    | inr m ↦ absurd (omega (arith, h, left-mark l r s key (resolve-is_some r d key e) m))
  ]

  load-Loads : (n : ℕ) → Follows n (load l r (suc n))
  unfolding load
  load-Loads zero s d h = visit_last-Loads s d (resolve r d) refl h
  load-Loads (suc n) s d h = visit-Loads n (suc n) s d (resolve r d) (λ _. load-Loads n) refl h

  some_key : (x y : Text) → ◌≡◌ {A = Option Text} (some x) (some y) → x ≡ y
  some_key x y h = cc

  no_key : (d key : Text) {A : Type 0} → resolve r d ≡ none → resolve r d ≡ some key → A
  no_key d key e f = cc

  marked_not : (b : Bool) {A : Type 0} → b ≡ true → b ≡ false → A
  marked_not b e f = cc

  one_end : {s t u : State} {ds : List Text} → Loads l r s ds t → Loads l r s ds u → t ≡ u
  one_end (end s) (end _) = refl
  one_end (absent s t d ds e h) (absent _ t' _ _ e' k) = one_end h k
  one_end (absent s t d ds e h) (already _ t' _ key _ e' m k) = no_key d key e e'
  one_end (absent s t d ds e h) (deeper _ v t' _ key _ e' m g k) = no_key d key e e'
  one_end (already s t d key ds e m h) (absent _ t' _ _ e' k) = no_key d key e' e
  one_end (already s t d key ds e m h) (already _ t' _ key' _ e' m' k) = one_end h k
  one_end (already s t d key ds e m h) (deeper _ v t' _ key' _ e' m' g k) =
      let same = some_key key key' (sym e ∙ e') in
      marked_not (is_member key s.done) m (subst (λ x. is_member x s.done ≡ false) (sym same) m')
  one_end (deeper s v t d key ds e m g h) (absent _ t' _ _ e' k) = no_key d key e' e
  one_end (deeper s v t d key ds e m g h) (already _ t' _ key' _ e' m' k) =
      let same = some_key key key' (sym e ∙ e') in
      marked_not (is_member key s.done) (subst (λ x. is_member x s.done ≡ true) (sym same) m') m
  one_end (deeper s v t d key ds e m g h) (deeper _ v' t' _ key' _ e' m' g' k) =
      let same = some_key key' key (sym e' ∙ e) in
      let inner =
        one_end g (subst (λ x. Loads l r (mark s x) (soft_deps r x ++ hard_deps r x) v') same g') in
      let moved = subst (λ x. Loads l r (insert_module l r x v') ds t') same k in
      one_end h (subst (λ y. Loads l r (insert_module l r key y) ds t') (sym inner) moved)

  -- `Loads` writes the walk out without fuel, as the source has it: a name that resolves to nothing
  -- or to a marked module is passed over, any other module is marked, then its soft and hard
  -- dependencies are loaded, then it is inserted. This walk ends for every tree, a cyclic one
  -- included, from every state and for every list of names; and it ends in the state that the model
  -- computes with its fuel, and in no other.
  pub load_names-Loads :
      (names : List Text) (s : State)
      → Loads l r s names (load_names l r names s)
        × ((t : State) → Loads l r s names t → load_names l r names s ≡ t)
  unfolding load_names
  load_names-Loads names s =
      let walk =
        each-Loads (length r.deps) (suc (length r.deps)) names s (load-Loads (length r.deps))
          (left-le l r s) in
      (walk, λ t k. one_end walk k)
