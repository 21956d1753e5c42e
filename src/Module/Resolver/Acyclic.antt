-- ===== src/Module/Resolver/Acyclic.antt =====
-- The order of the walk on an acyclic graph of dependencies.
use k0smos.Base.{
  ℕ, zero, suc, ◌+◌, ◌≤◌, ◌<◌, ◌≡◌, refl, true, false, Option, none, some, List, [], ◌∷◌, ◌++◌, inl,
  inr, arith, length, Bool-cases, ap, In, All, All-of-In, In-append-cases, In-append_left,
  In-append_right,
}
use k0smos.Base.Text.{Text, text_eq}
use k0smos.Base.Text.Laws.{text_eq_iff, text_eq_refl}
use k0smos.Module.Index.{lookup, is_member}
use k0smos.Module.Resolver.{
  Loader, Tree, State, is_some, resolve, insert_module, mark, soft_deps, hard_deps, load_each,
  visit, load, enough, new_state, load_names,
}
use k0smos.Module.Resolver.Fuel.{
  done-insert_module, resolve-is_some, left, left-mark, left-le, is_member-cons,
}
use k0smos.Module.Resolver.Ordering.{
  is_read, DepsRead, ResolvedRead, OrderedFrom, insert-Inserted, Inserted-Ordered,
}
use k0smos.Module.Resolver.Walk.{
  Grows, Growing, each-Grows, load-Grows, deps_loaded, deps_loaded-Grows,
}

-- A number for each module that falls along every dependency.
abbrev pub Descends : Tree → (Text → ℕ) → Type 0
Descends r rank =
    (k d j : Text) → In d (soft_deps r k ++ hard_deps r k) → resolve r d ≡ some j → rank j < rank k

module _ (l : Loader) (r : Tree) (rank : Text → ℕ) (descends : Descends r rank) where
  -- What is marked below a rank has been read.
  abbrev Ready : ℕ → State → Type 0
  Ready b s = (k : Text) → is_member k s.done ≡ true → rank k < b → is_read k s.ops ≡ true

  Ready-Grows : (b : ℕ) (s t : State) → Ready b s → Grows l r s t → Ready b t
  Ready-Grows b s t h g k m lt = elim (g.fresh k m) [
    | inl old ↦ g.reads k (h k old lt)
    | inr new ↦ new
  ]

  Ready-mark :
      (b : ℕ) (s : State) (key : Text) → Ready b s → rank key < b → Ready (rank key) (mark s key)
  Ready-mark b s key h lt k m lt' = elim (Bool-cases (text_eq key k)) [
    | inl e ↦ absurd (omega (arith, ap rank ((text_eq_iff key k).0 e)))
    | inr e ↦ h k (ground (arith, is_member-cons k key s.done)) (omega arith)
  ]

  abbrev Below : ℕ → Text → Type 0
  Below b d = (j : Text) → resolve r d ≡ some j → rank j < b

  -- What a way to load does wherever at most `n` modules are left.
  record Orders (n : ℕ) (g : State → Text → State) : Type 0 where
    grows : Growing l r g
    ordered :
        (b : ℕ) (s : State) (d : Text)
        → left l r s ≤ n
        → Below b d
        → Ready b s
        → OrderedFrom r [] s.ops
        → OrderedFrom r [] (g s d).ops
    marked :
        (s : State) (d j : Text)
        → left l r s ≤ n
        → resolve r d ≡ some j
        → is_member j (g s d).done ≡ true

  each-ordered :
      (n b : ℕ) (g : State → Text → State) (ds : List Text) (s : State)
      → Orders n g
      → left l r s ≤ n
      → ((d : Text) → In d ds → Below b d)
      → Ready b s
      → OrderedFrom r [] s.ops
      → OrderedFrom r [] (load_each g ds s).ops
  unfolding load_each
  each-ordered n b g [] s o h below ready ord = ord
  each-ordered n b g (d ∷ ds) s o h below ready ord =
      each-ordered n b g ds (g s d) o (omega (arith, (o.grows s d).fewer)) (λ e m. below e (inr m))
        (Ready-Grows b s (g s d) ready (o.grows s d))
        (o.ordered b s d h (below d (inl refl)) ready ord)

  each-marked :
      (n : ℕ) (g : State → Text → State) (ds : List Text) (s : State)
      → Orders n g
      → left l r s ≤ n
      → (d j : Text) → In d ds
      → resolve r d ≡ some j
      → is_member j (load_each g ds s).done ≡ true
  unfolding load_each
  each-marked n g [] s o h d j m e = absurd m
  each-marked n g (x ∷ ds) s o h d j (inl same) e =
      (each-Grows l r g ds (g s x) o.grows).marks j (o.marked s x j h (rw same e))
  each-marked n g (x ∷ ds) s o h d j (inr m) e =
      each-marked n g ds (g s x) o (omega (arith, (o.grows s x).fewer)) d j m e

  -- The dependencies of an unmarked module are loaded in order, and then all of them are read.
  module _ (n b : ℕ) (g : State → Text → State) (s : State) (key : Text) (o : Orders n g)
      (few : left l r (mark s key) ≤ n) (low : rank key < b) (ready : Ready b s)
      (ord : OrderedFrom r [] s.ops) where
    after_soft : State
    after_soft = load_each g (soft_deps r key) (mark s key)

    soft-Grows : Grows l r (mark s key) after_soft
    unfolding after_soft
    soft-Grows = each-Grows l r g (soft_deps r key) (mark s key) o.grows

    Below-key : (d : Text) → In d (soft_deps r key ++ hard_deps r key) → Below (rank key) d
    Below-key d m j e = descends key d j m e

    soft-ordered : OrderedFrom r [] after_soft.ops
    unfolding after_soft
    soft-ordered =
        each-ordered n (rank key) g (soft_deps r key) (mark s key) o few
          (λ d m. Below-key d (In-append_left d (soft_deps r key) (hard_deps r key) m))
          (Ready-mark b s key ready low) ord

    Ready-after_soft : Ready (rank key) after_soft
    Ready-after_soft =
        Ready-Grows (rank key) (mark s key) after_soft (Ready-mark b s key ready low) soft-Grows

    few_after_soft : left l r after_soft ≤ n
    few_after_soft = omega (arith, soft-Grows.fewer)

    deps-ordered : OrderedFrom r [] (deps_loaded l r g s key).ops
    unfolding after_soft
    deps-ordered =
        each-ordered n (rank key) g (hard_deps r key) after_soft o few_after_soft
          (λ d m. Below-key d (In-append_right d (soft_deps r key) (hard_deps r key) m))
          Ready-after_soft soft-ordered

    hard-Grows : Grows l r after_soft (deps_loaded l r g s key)
    unfolding after_soft
    hard-Grows = each-Grows l r g (hard_deps r key) after_soft o.grows

    deps-marked :
        (d j : Text)
        → In d (soft_deps r key ++ hard_deps r key)
        → resolve r d ≡ some j
        → is_member j (deps_loaded l r g s key).done ≡ true
    unfolding after_soft
    deps-marked d j m e = elim (In-append-cases d (soft_deps r key) (hard_deps r key) m) [
      | inl soft ↦
          hard-Grows.marks j (each-marked n g (soft_deps r key) (mark s key) o few d j soft e)
      | inr hard ↦ each-marked n g (hard_deps r key) after_soft o few_after_soft d j hard e
    ]

    dep-read :
        (d : Text)
        → In d (soft_deps r key ++ hard_deps r key)
        → (x : Option Text) → resolve r d ≡ x
        → ResolvedRead x (deps_loaded l r g s key).ops
    dep-read d m none e = tt
    dep-read d m (some j) e =
        Ready-Grows (rank key) after_soft (deps_loaded l r g s key) Ready-after_soft hard-Grows j
          (deps-marked d j m e) (descends key d j m e)

    deps-read : DepsRead r key (deps_loaded l r g s key).ops
    deps-read =
        All-of-In (λ d. ResolvedRead (resolve r d) (deps_loaded l r g s key).ops)
          (soft_deps r key ++ hard_deps r key) (λ d m. dep-read d m (resolve r d) refl)

    insert-ordered : OrderedFrom r [] (insert_module l r key (deps_loaded l r g s key)).ops
    insert-ordered =
        Inserted-Ordered r key (deps_loaded l r g s key).ops
          (insert-Inserted l r key (deps_loaded l r g s key)) deps-ordered deps-read

  visit-ordered :
      (n b : ℕ) (g : State → Text → State) (s : State) (o : Option Text)
      → (left l r s ≤ suc n → Orders n g)
      → left l r s ≤ suc n
      → ((key : Text) → o ≡ some key → (is_some (lookup key r.deps) ≡ true) × (rank key < b))
      → Ready b s
      → OrderedFrom r [] s.ops
      → OrderedFrom r [] (visit l r g s o).ops
  unfolding visit
  visit-ordered n b g s none h few known ready ord = ord
  visit-ordered n b g s (some key) h few known ready ord =
      elim (Bool-cases (is_member key s.done)) [
        | inl e ↦ rw e ord
        | inr e ↦
            let (there, low) = known key refl in
            rw e (
              insert-ordered n b g s key (h few) (omega (arith, left-mark l r s key there e)) low
                ready ord)
      ]

  visit-nothing_left :
      (g : State → Text → State) (s : State) (o : Option Text)
      → left l r s ≤ 0
      → ((key : Text) → o ≡ some key → is_some (lookup key r.deps) ≡ true)
      → visit l r g s o ≡ s
  unfolding visit
  visit-nothing_left g s none few known = refl
  visit-nothing_left g s (some key) few known = elim (Bool-cases (is_member key s.done)) [
    | inl e ↦ rw e
    | inr e ↦ absurd (omega (arith, left-mark l r s key (known key refl) e))
  ]

  visit-marked :
      (g : State → Text → State) (s : State) (key : Text)
      → Growing l r g
      → is_member key (visit l r g s (some key)).done ≡ true
  unfolding visit
  visit-marked g s key h = elim (Bool-cases (is_member key s.done)) [
    | inl e ↦ rw e e
    | inr e ↦
        rw (e, done-insert_module l r key (deps_loaded l r g s key))
          ((deps_loaded-Grows l r g s key h).marks key
            (ground (arith, is_member-cons key key s.done, text_eq_refl key)))
  ]

  load-marked :
      (n : ℕ) (s : State) (d j : Text)
      → resolve r d ≡ some j
      → is_member j (load l r (suc n) s d).done ≡ true
  unfolding load
  load-marked n s d j e = rw e (visit-marked (load l r n) s j (load-Grows l r n))

  load-Orders : (n : ℕ) → Orders n (load l r (suc n))
  unfolding load
  load-Orders zero = record {
    grows = load-Grows l r 1;
    ordered = λ b s d few below ready ord.
        rw (visit-nothing_left (load l r zero) s (resolve r d) few (λ key. resolve-is_some r d key))
          ord;
    marked = λ s d j few e. load-marked zero s d j e;
  }
  load-Orders (suc n) = record {
    grows = load-Grows l r (suc (suc n));
    ordered = λ b s d few below ready ord.
        visit-ordered n b (load l r (suc n)) s (resolve r d) (λ _. load-Orders n) few
          (λ key e. (resolve-is_some r d key e, below key e)) ready ord;
    marked = λ s d j few e. load-marked (suc n) s d j e;
  }

  abbrev rank_above : Option Text → ℕ
  rank_above none = 0
  rank_above (some j) = suc (rank j)

  -- A number above the ranks of all names of a list.
  bound : List Text → ℕ
  bound [] = 0
  bound (d ∷ ds) = rank_above (resolve r d) + bound ds

  Below-bound : (names : List Text) (d : Text) → In d names → Below (bound names) d
  unfolding bound
  Below-bound [] d m j e = elim m [ ]
  Below-bound (x ∷ ds) d (inl same) j e =
      let known : rank_above (resolve r x) ≡ suc (rank j) = rw (same, e) in omega (arith, known)
  Below-bound (x ∷ ds) d (inr m) j e = omega (arith, Below-bound ds d m j e)

  unmarked_at_start : (k : Text) → is_member k new_state.done ≡ false
  unfolding is_member
  unmarked_at_start k = refl

  run : State → Text → State
  run = load l r (enough l r)

  each-read :
      (names : List Text) (d j : Text)
      → In d names
      → resolve r d ≡ some j
      → is_read j (load_each run names new_state).ops ≡ true
  unfolding run
  each-read names d j m e =
      elim ((each-Grows l r run names new_state (load-Grows l r (enough l r))).fresh j (
        each-marked (length r.deps) run names new_state (load-Orders (length r.deps))
          (left-le l r new_state) d j m e)) [ inl old ↦ cc (unmarked_at_start j) | inr new ↦ new ]

  -- On an acyclic graph, whatever the machine answers: a run over any list of names reads the
  -- module that each name resolves to, and reads a module only when all modules that it depends on,
  -- softly or hard, have been read.
  pub load_names_ordered :
      (names : List Text)
      → OrderedFrom r [] (load_names l r names new_state).ops
        × All (λ d. ResolvedRead (resolve r d) (load_names l r names new_state).ops) names
  unfolding load_names run
  load_names_ordered names = (
    each-ordered (length r.deps) (bound names) run names new_state (load-Orders (length r.deps))
        (left-le l r new_state) (Below-bound names) (λ k h lt. cc (unmarked_at_start k)) tt,
    All-of-In (λ d. ResolvedRead (resolve r d) (load_each run names new_state).ops) names
        (λ d m. read_of d m (resolve r d) refl),
  )
    where
      read_of :
          (d : Text)
          → In d names
          → (x : Option Text) → resolve r d ≡ x
          → ResolvedRead x (load_each run names new_state).ops
      read_of d m none e = tt
      read_of d m (some j) e = each-read names d j m e
