-- ===== src/Base/Text/Trim.antt =====
-- Laws of trimming.
use mathlib.Core.List.{[], ◌∷◌, ◌++◌, reverse, reverse-append, reverse-reverse}
use mathlib.Core.Path.{◌≡◌, refl, sym, ap, ◌∙◌, subst}
use mathlib.Core.Logic.{inl, inr}
use mathlib.Core.Bool.{Bool, false}
use Prim.Native.Nat.{ℕ}
use native.Mathlib.Omega.{arith}
use k0smos.Base.Tests.{Bool-cases}
use k0smos.Base.Lists.{All, All-append}
use k0smos.Base.Text.{Text, trim_left, trim_right, trim_space, is_space, lower, to_lower}

module _ (p : ℕ → Bool) where
  abbrev pub Kept : ℕ → Type 0
  Kept c = p c ≡ false

  All-reverse : (s : Text) → All Kept s → All Kept (reverse s)
  All-reverse [] h = tt
  All-reverse (c ∷ s) (hc, hs) =
      subst (All Kept) (sym (reverse-append (c ∷ []) s))
        (All-append Kept (reverse s) (c ∷ []) (All-reverse s hs) (hc, tt))

  trim_left_none : (s : Text) → All Kept s → trim_left p s ≡ s
  unfolding trim_left
  trim_left_none [] h = refl
  trim_left_none (c ∷ s) (hc, hs) = rw hc refl

  pub trim_right_none : (s : Text) → All Kept s → trim_right p s ≡ s
  unfolding trim_right
  trim_right_none s h = rw (trim_left_none (reverse s) (All-reverse s h)) (reverse-reverse s)

  trim_left-Kept :
      (u : Text) (x : ℕ) (t : Text)
      → All Kept u
      → Kept x
      → trim_left p ((u ++ x ∷ []) ++ t) ≡ (u ++ x ∷ []) ++ t
  unfolding trim_left
  trim_left-Kept [] x t hu hx = rw hx refl
  trim_left-Kept (c ∷ u) x t (hc, hu) hx = rw hc refl

  trim_right-Kept :
      (s : Text) (x : ℕ) (w : Text) → All Kept w → Kept x → trim_right p (s ++ x ∷ w) ≡ s ++ x ∷ w
  unfolding trim_right
  trim_right-Kept s x w hw hx =
      let back : reverse (s ++ x ∷ w) ≡ (reverse w ++ x ∷ []) ++ reverse s =
        reverse-append s (x ∷ w) ∙ ap (λ t. t ++ reverse s) (reverse-append (x ∷ []) w) in
      ap (λ t. reverse (trim_left p t)) back
      ∙ ap reverse (trim_left-Kept (reverse w) x (reverse s) (All-reverse w hw) hx)
      ∙ ap reverse (sym back)
      ∙ reverse-reverse (s ++ x ∷ w)

-- Only what is inside is white space: the first item is not, and neither is anything from x on.
pub trim_space_inner :
    (a : ℕ) (s : Text) (x : ℕ) (w : Text)
    → Kept is_space a
    → All (Kept is_space) (x ∷ w)
    → trim_space (a ∷ (s ++ x ∷ w)) ≡ a ∷ (s ++ x ∷ w)
unfolding trim_space trim_left
trim_space_inner a s x w ha (hx, hw) = rw ha (trim_right-Kept is_space (a ∷ s) x w hw hx)

pub trim_space_none : (s : Text) → All (Kept is_space) s → trim_space s ≡ s
unfolding trim_space
trim_space_none s h = rw (trim_left_none is_space s h) (trim_right_none is_space s h)

is_space-lower : (c : ℕ) → is_space (lower c) ≡ is_space c
unfolding is_space lower
is_space-lower c = ground arith

to_lower-append : (s t : Text) → to_lower (s ++ t) ≡ to_lower s ++ to_lower t
unfolding to_lower
to_lower-append [] t = refl
to_lower-append (c ∷ s) t = ap (λ x. lower c ∷ x) (to_lower-append s t)

to_lower-reverse : (s : Text) → to_lower (reverse s) ≡ reverse (to_lower s)
unfolding to_lower
to_lower-reverse [] = refl
to_lower-reverse (c ∷ s) =
    ap to_lower (reverse-append (c ∷ []) s)
    ∙ to_lower-append (reverse s) (c ∷ [])
    ∙ ap (λ t. t ++ lower c ∷ []) (to_lower-reverse s)
    ∙ sym (reverse-append (lower c ∷ []) (to_lower s))

to_lower-trim_left : (s : Text) → to_lower (trim_left is_space s) ≡ trim_left is_space (to_lower s)
unfolding trim_left to_lower
to_lower-trim_left [] = refl
to_lower-trim_left (c ∷ s) = elim (Bool-cases (is_space c)) [
  | inl e ↦ rw (is_space-lower c, e) (to_lower-trim_left s)
  | inr e ↦ rw (is_space-lower c, e) refl
]

-- Trimming white space and lowering the case can be swapped.
pub to_lower-trim_space : (s : Text) → to_lower (trim_space s) ≡ trim_space (to_lower s)
unfolding trim_space
to_lower-trim_space s =
    to_lower-reverse (trim_left is_space (reverse (trim_left is_space s)))
    ∙ ap reverse (to_lower-trim_left (reverse (trim_left is_space s)))
    ∙ ap (λ t. reverse (trim_left is_space t)) (to_lower-reverse (trim_left is_space s))
    ∙ ap (λ t. reverse (trim_left is_space (reverse t))) (to_lower-trim_left s)
