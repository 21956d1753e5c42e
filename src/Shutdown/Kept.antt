-- ===== src/Shutdown/Kept.antt =====
-- Which filesystems are unmounted.
use k0smos.Base.{
  ℕ, suc, ◌≡◌, refl, sym, ◌∙◌, Bool, true, false, List, [], ◌∷◌, ◌++◌, ◌⊎◌, inl, inr, ltb, select,
  arith, In, Bool-cases, ap, append_assoc, if◌then◌else◌,
}
use k0smos.Base.Text.{Text, codes, text_eq, has_prefix, drop_text}
use k0smos.Base.Text.Laws.{text_eq_iff, has_prefix_split, has_prefix-append}
use k0smos.Shutdown.{
  slash, depth, insert_deepest, sort_deepest, unmount_order, is_kept, is_pseudo, under_any,
  pseudo_roots,
}

-- How often a text is on a list.
abbrev pub occurrences : Text → List Text → ℕ
occurrences t [] = 0
occurrences t (u ∷ us) = let rest = occurrences t us in if text_eq u t then suc rest else rest

swapped :
    (t u v : Text) (us : List Text) {n : ℕ}
    → n ≡ occurrences t (u ∷ us)
    → (if text_eq v t then suc n else n) ≡ occurrences t (u ∷ v ∷ us)
swapped t u v us e =
    ap (λ n. if text_eq v t then suc n else n) e ∙ elim (Bool-cases (text_eq u t)) [
      | inl a ↦ elim (Bool-cases (text_eq v t)) [ inl b ↦ rw (a, b) refl | inr b ↦ rw (a, b) refl ]
      | inr a ↦ elim (Bool-cases (text_eq v t)) [ inl b ↦ rw (a, b) refl | inr b ↦ rw (a, b) refl ]
    ]

occurrences-insert_deepest :
    (t u : Text) (us : List Text) → occurrences t (insert_deepest u us) ≡ occurrences t (u ∷ us)
unfolding insert_deepest
occurrences-insert_deepest t u [] = refl
occurrences-insert_deepest t u (v ∷ us) = elim (Bool-cases (ltb (depth u) (depth v))) [
  | inl e ↦ rw (e, insert_deepest) (swapped t u v us (occurrences-insert_deepest t u us))
  | inr e ↦ rw (e, insert_deepest) refl
]

occurrences-sort_deepest :
    (t : Text) (us : List Text) → occurrences t (sort_deepest us) ≡ occurrences t us
unfolding sort_deepest
occurrences-sort_deepest t [] = refl
occurrences-sort_deepest t (u ∷ us) =
    occurrences-insert_deepest t u (sort_deepest us)
    ∙ ap (λ n. if text_eq u t then suc n else n) (occurrences-sort_deepest t us)

-- A test that holds for a text keeps all of its occurrences, one that does not keeps none.
occurrences-select :
    (p : Text → Bool) (t : Text) (us : List Text)
    → occurrences t (select p us) ≡ (if p t then occurrences t us else 0)
occurrences-select p t [] = ground arith
occurrences-select p t (u ∷ us) =
    let ih = occurrences-select p t us in
    elim (Bool-cases (text_eq u t)) [
      | inl e ↦ elim (Bool-cases (p t)) [
        | inl h ↦
            let h' : p u ≡ true = ap p ((text_eq_iff u t).0 e) ∙ h in
            rw (h', h, e) (ap suc (rw h at ih))
        | inr h ↦ let h' : p u ≡ false = ap p ((text_eq_iff u t).0 e) ∙ h in rw (h', h) (rw h at ih)
      ]
      | inr e ↦ elim (Bool-cases (p u)) [ inl h ↦ rw (h, e) ih | inr h ↦ rw (h, e) ih ]
    ]

-- What is never unmounted: the root, and whatever is mounted at or below one of the
-- pseudo-filesystems.
abbrev pub LeftAlone : Text → Type 0
LeftAlone t =
    (t ≡ codes "/")
    ⊎ ((p : Text) × In p
          (codes "/proc" ∷ codes "/sys" ∷ codes "/dev" ∷ codes "/run" ∷ codes "/tmp" ∷ [])
        × ((t ≡ p) ⊎ ((rest : Text) × (t ≡ p ++ slash ∷ rest))))

-- At or below one of these.
abbrev Under : Text → List Text → Type 0
Under t ps = (p : Text) × In p ps × ((t ≡ p) ⊎ ((rest : Text) × (t ≡ p ++ slash ∷ rest)))

under_any_sound : (t : Text) (ps : List Text) → under_any t ps ≡ true → Under t ps
unfolding under_any
under_any_sound t [] h = cc
under_any_sound t (p ∷ ps) h = elim (Bool-cases (text_eq t p)) [
  | inl e ↦ (p, inl refl, inl ((text_eq_iff t p).0 e))
  | inr e ↦ elim (Bool-cases (has_prefix t (p ++ slash ∷ []))) [
    | inl f ↦
        let rest = drop_text t (p ++ slash ∷ []) in
        (
          p,
          inl refl,
          inr (rest, has_prefix_split t (p ++ slash ∷ []) f ∙ append_assoc p (slash ∷ []) rest),
        )
    | inr f ↦ let (q, m, w) = under_any_sound t ps (rw (e, f) at h) in (q, inr m, w)
  ]
]

under_any_complete : (t : Text) (ps : List Text) → Under t ps → under_any t ps ≡ true
unfolding under_any
under_any_complete t [] (p, m, w) = absurd m
under_any_complete t (q ∷ ps) (p, inl e, inl same) = rw ((text_eq_iff t q).1 (same ∙ sym e)) refl
under_any_complete t (q ∷ ps) (p, inl e, inr (rest, same)) =
    let split : t ≡ (q ++ slash ∷ []) ++ rest =
      same ∙ ap (λ x. x ++ slash ∷ rest) (sym e) ∙ sym (append_assoc q (slash ∷ []) rest) in
    let below : has_prefix t (q ++ slash ∷ []) ≡ true =
      ap (λ x. has_prefix x (q ++ slash ∷ [])) split ∙ has_prefix-append (q ++ slash ∷ []) rest in
    rw below (ground arith)
under_any_complete t (q ∷ ps) (p, inr m, w) = rw (under_any_complete t ps (p, m, w)) (ground arith)

is_kept-LeftAlone : (t : Text) → is_kept t ≡ false → LeftAlone t
unfolding is_kept is_pseudo
is_kept-LeftAlone t h = elim (Bool-cases (text_eq t (codes "/"))) [
  | inl e ↦ inl ((text_eq_iff t (codes "/")).0 e)
  | inr e ↦ elim (Bool-cases (under_any t pseudo_roots)) [
    | inl f ↦ inr (under_any_sound t pseudo_roots f)
    | inr f ↦ cc (rw (e, f) at h)
  ]
]

LeftAlone-is_kept : (t : Text) → LeftAlone t → is_kept t ≡ false
unfolding is_kept is_pseudo
LeftAlone-is_kept t (inl e) = rw ((text_eq_iff t (codes "/")).1 e) refl
LeftAlone-is_kept t (inr u) = rw (under_any_complete t pseudo_roots u) (ground arith)

not_kept_and_left : (t : Text) → is_kept t ≡ true → LeftAlone t → ⊥
not_kept_and_left t h u = cc (LeftAlone-is_kept t u)

-- For every list of mounts and every target: the root, and what is mounted at or below /proc, /sys,
-- /dev, /run or /tmp, is never unmounted; any other target is unmounted as often as it is listed.
pub occurrences-unmount_order :
    (ts : List Text) (t : Text)
    → (LeftAlone t × (occurrences t (unmount_order ts) ≡ 0))
      ⊎ ((LeftAlone t → ⊥) × (occurrences t (unmount_order ts) ≡ occurrences t ts))
unfolding unmount_order
occurrences-unmount_order ts t =
    let sorted = occurrences-sort_deepest t (select is_kept ts) ∙ occurrences-select is_kept t ts in
    elim (Bool-cases (is_kept t)) [
      | inl h ↦ inr (not_kept_and_left t h, rw h at sorted)
      | inr h ↦ inl (is_kept-LeftAlone t h, rw h at sorted)
    ]
