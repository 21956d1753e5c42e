-- ===== src/Module/Resolver/Walk.antt =====
-- What any part of the walk does to marks and reads.
use k0smos.Base.{
  ℕ, zero, suc, ◌≤◌, ◌≡◌, refl, true, false, Option, none, some, List, [], ◌∷◌, ◌⊎◌, inl, inr,
  arith, Bool-cases,
}
use k0smos.Base.Text.{Text}
use k0smos.Base.Text.Laws.{text_eq_iff, text_eq_refl}
use k0smos.Module.Index.{lookup, is_member}
use k0smos.Module.Resolver.{
  Loader, Tree, State, is_some, resolve, insert_module, mark, soft_deps, hard_deps, load_each,
  visit, load, enough, new_state, load_names,
}
use k0smos.Module.Resolver.Fuel.{
  done-insert_module, resolve-is_some, left, left-mark, left-insert, is_member-cons,
}
use k0smos.Module.Resolver.Ordering.{
  is_read, OnceFrom, insert-Inserted, Inserted-is_read, Inserted-Once,
}

module _ (l : Loader) (r : Tree) where
  -- What any part of the walk does to marks and reads.
  pub record Grows (s t : State) : Type 0 where
    pub marks : (k : Text) → is_member k s.done ≡ true → is_member k t.done ≡ true
    pub reads : (k : Text) → is_read k s.ops ≡ true → is_read k t.ops ≡ true
    pub fresh :
        (k : Text)
        → is_member k t.done ≡ true
        → (is_member k s.done ≡ true) ⊎ (is_read k t.ops ≡ true)
    pub new_reads :
        (k : Text)
        → is_read k t.ops ≡ true
        → (is_read k s.ops ≡ true) ⊎ (is_member k s.done ≡ false)
    pub fewer : left l r t ≤ left l r s

  Grows-refl : (s : State) → Grows s s
  Grows-refl s = record {
    marks = λ k h. h;
    reads = λ k h. h;
    fresh = λ k h. inl h;
    new_reads = λ k h. inl h;
    fewer = omega arith;
  }

  pub Grows-trans : (s t u : State) → Grows s t → Grows t u → Grows s u
  Grows-trans s t u a b = record {
    marks = λ k h. b.marks k (a.marks k h);
    reads = λ k h. b.reads k (a.reads k h);
    fresh = λ k h. elim (b.fresh k h) [
      | inl m ↦ elim (a.fresh k m) [ inl x ↦ inl x | inr x ↦ inr (b.reads k x) ]
      | inr x ↦ inr x
    ];
    new_reads = λ k h. elim (b.new_reads k h) [
      | inl x ↦ a.new_reads k x
      | inr m ↦ inr (ground (arith, a.marks k))
    ];
    fewer = omega (arith, a.fewer, b.fewer);
  }

  -- Between marking a module and inserting it.
  Grows-visit :
      (s t : State) (key : Text)
      → is_some (lookup key r.deps) ≡ true
      → is_member key s.done ≡ false
      → Grows (mark s key) t
      → Grows s (insert_module l r key t)
  Grows-visit s t key known new g = record {
    marks = λ k h.
        rw (done-insert_module l r key t) (g.marks k (ground (arith, is_member-cons k key s.done)));
    reads = λ k h.
        rw (Inserted-is_read r key k t.ops (insert-Inserted l r key t))
          (ground (arith, g.reads k h));
    fresh = λ k h. ground (
      arith,
      done-insert_module l r key t,
      Inserted-is_read r key k t.ops (insert-Inserted l r key t),
      is_member-cons k key s.done,
      g.fresh k,
    );
    new_reads = λ k h. ground (
      arith,
      done-insert_module l r key t,
      Inserted-is_read r key k t.ops (insert-Inserted l r key t),
      is_member-cons k key s.done,
      g.new_reads k,
      text_eq_iff key k,
    );
    fewer = omega (arith, left-insert l r key t, g.fewer, left-mark l r s key known new);
  }

  abbrev pub Growing : (State → Text → State) → Type 0
  Growing load = (s : State) (d : Text) → Grows s (load s d)

  pub each-Grows :
      (g : State → Text → State) (ds : List Text) (s : State)
      → Growing g
      → Grows s (load_each g ds s)
  unfolding load_each
  each-Grows g [] s h = Grows-refl s
  each-Grows g (d ∷ ds) s h = Grows-trans s (g s d) _ (h s d) (each-Grows g ds (g s d) h)

  -- The state when the dependencies of a module are loaded.
  abbrev pub deps_loaded : (State → Text → State) → State → Text → State
  deps_loaded g s key = load_each g (hard_deps r key) (load_each g (soft_deps r key) (mark s key))

  pub deps_loaded-Grows :
      (g : State → Text → State) (s : State) (key : Text)
      → Growing g
      → Grows (mark s key) (deps_loaded g s key)
  deps_loaded-Grows g s key h =
      Grows-trans (mark s key) (load_each g (soft_deps r key) (mark s key)) (deps_loaded g s key)
        (each-Grows g (soft_deps r key) (mark s key) h)
        (each-Grows g (hard_deps r key) (load_each g (soft_deps r key) (mark s key)) h)

  visit-Grows :
      (g : State → Text → State) (s : State) (o : Option Text)
      → Growing g
      → ((key : Text) → o ≡ some key → is_some (lookup key r.deps) ≡ true)
      → Grows s (visit l r g s o)
  unfolding visit
  visit-Grows g s none h known = Grows-refl s
  visit-Grows g s (some key) h known = elim (Bool-cases (is_member key s.done)) [
    | inl e ↦ rw e (Grows-refl s)
    | inr e ↦
        rw e
          (Grows-visit s (deps_loaded g s key) key (known key refl) e (deps_loaded-Grows g s key h))
  ]

  pub load-Grows : (fuel : ℕ) → Growing (load l r fuel)
  unfolding load
  load-Grows zero s d = Grows-refl s
  load-Grows (suc n) s d =
      visit-Grows (load l r n) s (resolve r d) (load-Grows n) (λ key. resolve-is_some r d key)

  -- Reads are marked, and none is made twice.
  record Once (s : State) : Type 0 where
    marked : (k : Text) → is_read k s.ops ≡ true → is_member k s.done ≡ true
    once : OnceFrom [] s.ops

  abbrev KeepsOnce : (State → Text → State) → Type 0
  KeepsOnce g = (s : State) (d : Text) → Once s → Once (g s d)

  each-Once :
      (g : State → Text → State) (ds : List Text) (s : State)
      → KeepsOnce g
      → Once s
      → Once (load_each g ds s)
  unfolding load_each
  each-Once g [] s h o = o
  each-Once g (d ∷ ds) s h o = each-Once g ds (g s d) h (h s d o)

  insert-Once :
      (s : State) (key : Text)
      → Once s
      → is_read key s.ops ≡ false
      → is_member key s.done ≡ true
      → Once (insert_module l r key s)
  insert-Once s key o new mk = record {
    marked = λ k h. ground (
      arith,
      done-insert_module l r key s,
      Inserted-is_read r key k s.ops (insert-Inserted l r key s),
      o.marked k,
      text_eq_iff key k,
    );
    once = Inserted-Once r key s.ops (insert-Inserted l r key s) o.once new;
  }

  unread :
      (s t : State) (key : Text)
      → Once s
      → is_member key s.done ≡ false
      → Grows (mark s key) t
      → is_read key t.ops ≡ false
  unread s t key o new g = elim (Bool-cases (is_read key t.ops)) [
    | inl e ↦ absurd (
        ground
          (arith, g.new_reads key e, o.marked key, is_member-cons key key s.done, text_eq_refl key))
    | inr e ↦ e
  ]

  visit-Once :
      (g : State → Text → State) (s : State) (o : Option Text)
      → Growing g
      → KeepsOnce g
      → Once s
      → Once (visit l r g s o)
  unfolding visit
  visit-Once g s none h k o = o
  visit-Once g s (some key) h k o = elim (Bool-cases (is_member key s.done)) [
    | inl e ↦ rw e o
    | inr e ↦
        let grown = deps_loaded-Grows g s key h in
        let start : Once (mark s key) = record {
          marked = λ j x. ground (arith, is_member-cons j key s.done, o.marked j);
          once = o.once;
        } in
        let before =
          each-Once g (hard_deps r key) _ k (each-Once g (soft_deps r key) (mark s key) k start) in
        rw e (
          insert-Once (deps_loaded g s key) key before
            (unread s (deps_loaded g s key) key o e grown)
            (grown.marks key (ground (arith, is_member-cons key key s.done, text_eq_refl key))))
  ]

  load-Once : (fuel : ℕ) → KeepsOnce (load l r fuel)
  unfolding load
  load-Once zero s d o = o
  load-Once (suc n) s d o = visit-Once (load l r n) s (resolve r d) (load-Grows n) (load-Once n) o

  -- Whatever the dependencies, in cycles too, and whatever the machine answers: a run over any list
  -- of names reads no module's file twice.
  pub load_names_once : (names : List Text) → OnceFrom [] (load_names l r names new_state).ops
  unfolding load_names
  load_names_once names =
      (each-Once (load l r (enough l r)) names new_state (load-Once (enough l r))
        (record { marked = λ k h. cc; once = tt })).once
