-- ===== src/Module/Index/Devices.antt =====
-- Which modules the devices of a machine need.
use k0smos.Base.{
  ◌≡◌, refl, Bool, true, false, not, ◌&&◌, ◌||◌, List, [], ◌∷◌, ◌++◌, ◌⊎◌, inl, inr, ◌↔◌,
  if◌then◌else◌, arith, In, In-append_left, In-append_right, In-append-cases, Bool-cases,
}
use k0smos.Base.Text.{Text, text_eq}
use k0smos.Base.Text.Laws.{text_eq_iff}
use k0smos.Module.Index.{
  AliasEntry, is_member, Glob, matched, match_entries, match_each, match_devices,
}

is_member-In : (x : Text) (l : List Text) → is_member x l ≡ true → In x l
unfolding is_member
is_member-In x [] h = cc
is_member-In x (y ∷ l) h = elim (Bool-cases (text_eq y x)) [
  | inl e ↦ inl ((text_eq_iff y x).0 e)
  | inr e ↦ inr (is_member-In x l (rw e at h))
]

In-is_member : (x : Text) (l : List Text) → In x l → is_member x l ≡ true
unfolding is_member
In-is_member x [] m = elim m [ ]
In-is_member x (y ∷ l) (inl e) = ground (arith, (text_eq_iff y x).1 e)
In-is_member x (y ∷ l) (inr m) = ground (arith, In-is_member x l m)

-- No item twice.
abbrev pub Distinct : List Text → Type 0
Distinct [] = Unit
Distinct (x ∷ l) = (is_member x l ≡ false) × Distinct l

is_member-append :
    (x y : Text) (l : List Text) → is_member x (l ++ y ∷ []) ≡ (is_member x l || text_eq y x)
unfolding is_member
is_member-append x y [] = ground arith
is_member-append x y (z ∷ l) = ground (arith, is_member-append x y l)

Distinct-append :
    (y : Text) (l : List Text) → is_member y l ≡ false → Distinct l → Distinct (l ++ y ∷ [])
unfolding is_member
Distinct-append y [] h d = (refl, tt)
Distinct-append y (x ∷ l) h (hx, d) = (
  rw is_member-append (ground (arith, text_eq_iff y x, text_eq_iff x y)),
  Distinct-append y l (ground arith) d,
)

module _ (glob : Glob) where
  -- An entry that drives a device.
  abbrev pub Drives : Text → List AliasEntry → Text → Type 0
  Drives modalias [] t = ⊥
  Drives modalias (e ∷ es) t =
      (matched (glob e.pattern_text modalias) ≡ true) × (e.target ≡ t) ⊎ Drives modalias es t

  abbrev pub DrivesAny : List Text → List AliasEntry → Text → Type 0
  DrivesAny [] es t = ⊥
  DrivesAny (m ∷ ms) es t = Drives m es t ⊎ DrivesAny ms es t

  match_entries-Distinct :
      (es : List AliasEntry) (modalias : Text) (out : List Text)
      → Distinct out
      → Distinct (match_entries glob es modalias out)
  unfolding match_entries
  match_entries-Distinct [] modalias out d = d
  match_entries-Distinct (e ∷ es) modalias out d =
      elim (Bool-cases (matched (glob e.pattern_text modalias) && not (is_member e.target out))) [
        | inl y ↦
            rw y
              (match_entries-Distinct es modalias _ (Distinct-append e.target out (ground arith) d))
        | inr n ↦ rw n (match_entries-Distinct es modalias out d)
      ]

  match_each-Distinct :
      (es : List AliasEntry) (ms out : List Text)
      → Distinct out
      → Distinct (match_each glob es ms out)
  unfolding match_each
  match_each-Distinct es [] out d = d
  match_each-Distinct es (m ∷ ms) out d =
      match_each-Distinct es ms _ (match_entries-Distinct es m out d)

  -- What a round adds, whichever way the test goes.
  In-step :
      (b : Bool) (out : List Text) (x t : Text)
      → In t (if b && not (is_member x out) then out ++ x ∷ [] else out)
        ↔ (In t out ⊎ (b ≡ true) × (x ≡ t))
  In-step false out x t = (λ m. inl m, λ c. elim c [ inl m ↦ m | inr (e, _) ↦ cc ])
  In-step true out x t = elim (Bool-cases (is_member x out)) [
    | inl old ↦
        rw old
          (λ m. inl m, λ c. elim c [ inl m ↦ m | inr (_, e) ↦ rw e at (is_member-In x out old) ])
    | inr new ↦ rw new (
      λ m. elim (In-append-cases t out (x ∷ []) m) [
        | inl k ↦ inl k
        | inr k ↦ elim k [ inl e ↦ inr (refl, e) | inr z ↦ absurd z ]
      ],
      λ c. elim c [
        | inl m ↦ In-append_left t out (x ∷ []) m
        | inr (_, e) ↦ In-append_right t out (x ∷ []) (inl e)
      ],
    )
  ]

  match_entries_iff :
      (es : List AliasEntry) (modalias : Text) (out : List Text) (t : Text)
      → In t (match_entries glob es modalias out) ↔ (In t out ⊎ Drives modalias es t)
  unfolding match_entries
  match_entries_iff [] modalias out t = (λ m. inl m, λ c. elim c [ inl m ↦ m | inr z ↦ absurd z ])
  match_entries_iff (e ∷ es) modalias out t =
      let ih =
        match_entries_iff es modalias
          (if matched (glob e.pattern_text modalias) && not (is_member e.target out)
            then out ++ e.target ∷ []
            else out)
          t in
      let st = In-step (matched (glob e.pattern_text modalias)) out e.target t in
      (
        λ m. elim (ih.0 m) [
          | inl k ↦ elim (st.0 k) [ inl a ↦ inl a | inr b ↦ inr (inl b) ]
          | inr d ↦ inr (inr d)
        ],
        λ c. ih.1 (elim c [
          | inl k ↦ inl (st.1 (inl k))
          | inr d ↦ elim d [ inl b ↦ inl (st.1 (inr b)) | inr r ↦ inr r ]
        ]),
      )

  match_each_iff :
      (es : List AliasEntry) (ms out : List Text) (t : Text)
      → In t (match_each glob es ms out) ↔ (In t out ⊎ DrivesAny ms es t)
  unfolding match_each
  match_each_iff es [] out t = (λ m. inl m, λ c. elim c [ inl m ↦ m | inr z ↦ absurd z ])
  match_each_iff es (m ∷ ms) out t =
      let ih = match_each_iff es ms (match_entries glob es m out) t in
      let st = match_entries_iff es m out t in
      (
        λ k. elim (ih.0 k) [
          | inl a ↦ elim (st.0 a) [ inl b ↦ inl b | inr d ↦ inr (inl d) ]
          | inr d ↦ inr (inr d)
        ],
        λ c. ih.1 (elim c [
          | inl k ↦ inl (st.1 (inl k))
          | inr d ↦ elim d [ inl b ↦ inl (st.1 (inr b)) | inr r ↦ inr r ]
        ]),
      )

  -- For any glob matcher: the modules for a list of devices are exactly those of which some alias
  -- entry matches some device, each once; a malformed pattern matches nothing and costs no other
  -- entry.
  pub match_devices_exact :
      (es : List AliasEntry) (ms : List Text) (t : Text)
      → Distinct (match_devices glob es ms) × (In t (match_devices glob es ms) ↔ DrivesAny ms es t)
  unfolding match_devices
  match_devices_exact es ms t = (
    match_each-Distinct es ms [] tt,
    (
      λ m. elim ((match_each_iff es ms [] t).0 m) [ inl z ↦ absurd z | inr d ↦ d ],
      λ d. (match_each_iff es ms [] t).1 (inr d),
    ),
  )
