-- ===== src/Base/Text/Laws.antt =====
-- Laws of the text functions: equality, prefixes, cutting, splitting and fields.
use Prim.Native.Nat.{ℕ, ◌+◌}
use mathlib.Core.Path.{◌≡◌, refl, ap, ◌∙◌}
use mathlib.Core.Logic.{◌↔◌, ◌≢◌, inl, inr}
use mathlib.Core.Bool.{true, false}
use mathlib.Core.List.{List, [], ◌∷◌, ◌++◌, append_assoc, append-nil}
use native.Mathlib.Omega.{arith}
use k0smos.Base.Tests.{◌==◌, Bool-cases}
use k0smos.Base.Lists.{All, All-append}
use k0smos.Base.Text.{
  Text, text_eq, has_prefix, drop_text, trim_prefix, cut, split, join, is_space, flush, fields_from,
  fields, count,
}

abbrev pub Lacks : ℕ → Text → Type 0
Lacks b = All (λ c. c ≢ b)

abbrev pub NoSpace : Text → Type 0
NoSpace = All (λ c. is_space c ≡ false)

pub text_eq_refl : (s : Text) → text_eq s s ≡ true
unfolding text_eq
text_eq_refl [] = refl
text_eq_refl (c ∷ s) = ground (arith, text_eq_refl s)

pub text_eq→eq : (s t : Text) → text_eq s t ≡ true → s ≡ t
unfolding text_eq
text_eq→eq [] [] h = refl
text_eq→eq [] (d ∷ t) h = cc
text_eq→eq (c ∷ s) [] h = cc
text_eq→eq (c ∷ s) (d ∷ t) h = ground (arith, text_eq→eq s t)

pub text_eq_iff : (s t : Text) → (text_eq s t ≡ true) ↔ (s ≡ t)
text_eq_iff s t = (text_eq→eq s t, λ e. ground (arith, text_eq_refl s))

pub has_prefix-append : (p s : Text) → has_prefix (p ++ s) p ≡ true
unfolding has_prefix
has_prefix-append [] s = refl
has_prefix-append (c ∷ p) s = ground (arith, has_prefix-append p s)

pub drop_text-append : (p s : Text) → drop_text (p ++ s) p ≡ s
drop_text-append [] s = refl
drop_text-append (c ∷ p) s = drop_text-append p s

pub trim_prefix-append : (p s : Text) → trim_prefix (p ++ s) p ≡ s
unfolding trim_prefix
trim_prefix-append p s = rw (has_prefix-append p s) (drop_text-append p s)

pub has_prefix_split : (s p : Text) → has_prefix s p ≡ true → s ≡ p ++ drop_text s p
unfolding has_prefix
has_prefix_split s [] h = refl
has_prefix_split [] (d ∷ p) h = cc
has_prefix_split (c ∷ s) (d ∷ p) h = ground (arith, has_prefix_split s p)

pub cut-append : (p r : Text) (sep : ℕ) → Lacks sep p → cut (p ++ sep ∷ r) sep ≡ (p, r, true)
unfolding cut
cut-append [] r sep h = ground arith
cut-append (c ∷ p) r sep (hc, hp) = ground (arith, cut-append p r sep hp)

pub cut_sound :
    (s : Text) (sep : ℕ)
    → (cut s sep).2 ≡ true
    → (s ≡ (cut s sep).0 ++ sep ∷ (cut s sep).1) × Lacks sep (cut s sep).0
unfolding cut
cut_sound [] sep h = cc
cut_sound (c ∷ s) sep h = elim (Bool-cases (c == sep)) [
  | inl e ↦ rw e (ground arith, tt)
  | inr e ↦ rw e (
    ap (λ t. c ∷ t) (cut_sound s sep (rw e at h)).0,
    (ground arith, (cut_sound s sep (rw e at h)).1),
  )
]

fields_from_space : (t cur : Text) → fields_from (32 ∷ t) cur ≡ flush cur ++ fields_from t []
unfolding fields_from is_space
fields_from_space t cur = refl

pub fields_from-append :
    (s t cur : Text) → fields_from (s ++ 32 ∷ t) cur ≡ fields_from s cur ++ fields_from t []
unfolding fields_from
fields_from-append [] t cur = fields_from_space t cur
fields_from-append (c ∷ s) t cur = elim (Bool-cases (is_space c)) [
  | inl e ↦ rw (e, fields_from) (simp (fields_from-append s t [], append_assoc))
  | inr e ↦ rw (e, fields_from) (fields_from-append s t (cur ++ c ∷ []))
]

-- Text behind a space adds its own fields.
pub fields-append : (s t : Text) → fields (s ++ 32 ∷ t) ≡ fields s ++ fields t
unfolding fields
fields-append s t = fields_from-append s t []

flush-append : (cur : Text) (c : ℕ) → flush (cur ++ c ∷ []) ≡ (cur ++ c ∷ []) ∷ []
unfolding flush
flush-append [] c = refl
flush-append (d ∷ cur) c = refl

fields_from-NoSpace : (t cur : Text) → NoSpace t → fields_from t cur ≡ flush (cur ++ t)
unfolding fields_from
fields_from-NoSpace [] cur h = rw append-nil
fields_from-NoSpace (c ∷ t) cur (hc, ht) =
    rw (hc, fields_from) (fields_from-NoSpace t (cur ++ c ∷ []) ht ∙ rw append_assoc)

-- A text with no space in it is one field.
pub fields-NoSpace : (c : ℕ) (t : Text) → NoSpace (c ∷ t) → fields (c ∷ t) ≡ (c ∷ t) ∷ []
unfolding fields flush
fields-NoSpace c t h = fields_from-NoSpace (c ∷ t) [] h

-- Splitting off a part that lacks the separator.
pub split-append : (p r : Text) (sep : ℕ) → Lacks sep p → split (p ++ sep ∷ r) sep ≡ p ∷ split r sep
unfolding split
split-append [] r sep h = ground arith
split-append (c ∷ p) r sep (hc, hp) = ground (arith, split-append p r sep hp)

pub split-Lacks : (p : Text) (sep : ℕ) → Lacks sep p → split p sep ≡ p ∷ []
unfolding split
split-Lacks [] sep h = refl
split-Lacks (c ∷ p) sep (hc, hp) = ground (arith, split-Lacks p sep hp)

-- Splitting a join gives the parts back, if there is a part and none holds the separator.
pub split-join :
    (p : Text) (ps : List Text) (sep : ℕ)
    → All (Lacks sep) (p ∷ ps)
    → split (join (p ∷ ps) sep) sep ≡ p ∷ ps
unfolding join
split-join p [] sep h = split-Lacks p sep h.0
split-join p (q ∷ ps) sep (hp, hs) =
    split-append p (join (q ∷ ps) sep) sep hp ∙ ap (λ t. p ∷ t) (split-join q ps sep hs)

pub count-append : (s t : Text) (b : ℕ) → count (s ++ t) b ≡ count s b + count t b
unfolding count
count-append [] t b = omega arith
count-append (c ∷ s) t b = ground (arith, count-append s t b)

pub Lacks-append : (b : ℕ) (s t : Text) → Lacks b s → Lacks b t → Lacks b (s ++ t)
Lacks-append b s t = All-append (λ c. c ≢ b) s t
