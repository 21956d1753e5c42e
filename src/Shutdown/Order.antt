-- ===== src/Shutdown/Order.antt =====
-- The order in which filesystems are unmounted.
use k0smos.Base.{
  ℕ, ◌≤◌, ◌<◌, ◌≡◌, true, false, List, [], ◌∷◌, ◌++◌, inl, inr, ltb, select, arith, In, All,
  Bool-cases, ap,
}
use k0smos.Base.Text.{Text, has_prefix, drop_text, count}
use k0smos.Base.Text.Laws.{has_prefix_split, count-append}
use k0smos.Shutdown.{depth, slash, insert_deepest, sort_deepest, unmount_order, is_kept}

-- No item is deeper than `d`.
abbrev AtMost : ℕ → List Text → Type 0
AtMost d = All (λ u. depth u ≤ d)

abbrev DeepestFirst : List Text → Type 0
DeepestFirst [] = Unit
DeepestFirst (t ∷ ts) = AtMost (depth t) ts × DeepestFirst ts

AtMost-mono : (d e : ℕ) (ts : List Text) → d ≤ e → AtMost d ts → AtMost e ts
AtMost-mono d e [] h _ = tt
AtMost-mono d e (t ∷ ts) h (ht, hs) = (omega arith, AtMost-mono d e ts h hs)

AtMost-insert :
    (d : ℕ) (t : Text) (us : List Text) → depth t ≤ d → AtMost d us → AtMost d (insert_deepest t us)
unfolding insert_deepest
AtMost-insert d t [] h _ = (h, tt)
AtMost-insert d t (u ∷ us) h (hu, hs) = elim (Bool-cases (ltb (depth t) (depth u))) [
  | inl e ↦ rw (e, insert_deepest) (hu, AtMost-insert d t us h hs)
  | inr e ↦ rw (e, insert_deepest) (h, (hu, hs))
]

insert-DeepestFirst :
    (t : Text) (us : List Text) → DeepestFirst us → DeepestFirst (insert_deepest t us)
unfolding insert_deepest
insert-DeepestFirst t [] _ = (tt, tt)
insert-DeepestFirst t (u ∷ us) (hu, hs) = elim (Bool-cases (ltb (depth t) (depth u))) [
  | inl e ↦
      rw (e, insert_deepest)
        (AtMost-insert (depth u) t us (ground arith) hu, insert-DeepestFirst t us hs)
  | inr e ↦
      rw (e, insert_deepest)
        ((ground arith, AtMost-mono (depth u) (depth t) us (ground arith) hu), (hu, hs))
]

sort-DeepestFirst : (ts : List Text) → DeepestFirst (sort_deepest ts)
unfolding sort_deepest
sort-DeepestFirst [] = tt
sort-DeepestFirst (t ∷ ts) = insert-DeepestFirst t (sort_deepest ts) (sort-DeepestFirst ts)

AtMost-In : (d : ℕ) (ts : List Text) (u : Text) → AtMost d ts → In u ts → depth u ≤ d
AtMost-In d [] u _ m = elim m [ ]
AtMost-In d (t ∷ ts) u (ht, hs) (inl e) = ground arith
AtMost-In d (t ∷ ts) u (ht, hs) (inr m) = AtMost-In d ts u hs m

DeepestFirst-after :
    (xs ys : List Text) (p u : Text) → DeepestFirst (xs ++ p ∷ ys) → In u ys → depth u ≤ depth p
DeepestFirst-after [] ys p u (h, _) m = AtMost-In (depth p) ys u h m
DeepestFirst-after (x ∷ xs) ys p u (_, h) m = DeepestFirst-after xs ys p u h m

-- A mount below another is deeper.
depth-under : (u p : Text) → has_prefix u (p ++ slash ∷ []) ≡ true → depth p < depth u
unfolding count
depth-under u p h =
    let rest = drop_text u (p ++ slash ∷ []) in
    omega (
      arith,
      ap (λ t. count t slash) (has_prefix_split u (p ++ slash ∷ []) h),
      count-append (p ++ slash ∷ []) rest slash,
      count-append p (slash ∷ []) slash,
    )

-- What is unmounted after a mount point does not lie below it: a child always goes before its
-- parent.
pub child_before_parent :
    (ts xs ys : List Text) (parent child : Text)
    → unmount_order ts ≡ xs ++ parent ∷ ys
    → In child ys
    → has_prefix child (parent ++ slash ∷ []) ≡ false
unfolding unmount_order
child_before_parent ts xs ys parent child e m =
    let sorted = rw e at (sort-DeepestFirst (select is_kept ts)) in
    elim (Bool-cases (has_prefix child (parent ++ slash ∷ []))) [
      | inl under ↦ absurd (
          omega
            (arith, depth-under child parent under, DeepestFirst-after xs ys parent child sorted m))
      | inr e' ↦ e'
    ]
