-- ===== src/Datavol/Safety.antt =====
-- Which device is formatted.
use mathlib.Core.Path.{subst}
use k0smos.Base.{
  ◌≡◌, ◌≢◌, refl, Option, none, some, List, [], ◌∷◌, ◌++◌, inl, inr, In, In-append-cases,
  Bool-cases, ap,
}
use k0smos.Base.Text.{Text, codes, is_empty, trim_prefix}
use k0smos.Base.Io.{Result, ok, err}
use k0smos.Blkid.{Info, identify_info, blank}
use k0smos.Datavol.{
  Op, mkfs, mkdir, Volume, Options, Failure, Report, select_device, attach, after_identify,
  prepare_selected, mkfs_op, prepare, after_mkfs, after_mkdir, after_mount, mount_op,
}

-- The first calls are `t`, and the rest formats nothing.
abbrev NoMkfs : Op → Type 0
NoMkfs (mkfs d f l) = ⊥
NoMkfs _ = Unit

module _ (v : Volume) (o : Options) (dev fs label : Text) where
  In-snoc :
      (t : List Op) (op : Op)
      → NoMkfs op
      → In (mkfs dev fs label) (t ++ op ∷ [])
      → In (mkfs dev fs label) t
  In-snoc t op h m = elim (In-append-cases (mkfs dev fs label) t (op ∷ []) m) [
    | inl k ↦ k
    | inr k ↦ elim k [ inl e ↦ absurd (subst NoMkfs e h) | inr z ↦ absurd z ]
  ]

  attach_formats_nothing :
      (res : Report) (d : Text) (t : List Op)
      → In (mkfs dev fs label) (attach v o res d t).2
      → In (mkfs dev fs label) t
  unfolding attach
  attach_formats_nothing res d t m =
      let op = mkdir o.mount_point 0o700 in go (v.fails t op) (t ++ op ∷ []) (In-snoc t op tt) m
    where
      last :
          (x : Option Text) (t' : List Op)
          → (In (mkfs dev fs label) t' → In (mkfs dev fs label) t)
          → In (mkfs dev fs label) (after_mount res d o.mount_point x t').2
          → In (mkfs dev fs label) t
      last none t' f k = f k
      last (some e) t' f k = f k

      go :
          (x : Option Text) (t' : List Op)
          → (In (mkfs dev fs label) t' → In (mkfs dev fs label) t)
          → In (mkfs dev fs label) (after_mkdir v o res d x t').2
          → In (mkfs dev fs label) t
      go (some e) t' f k = f k
      go none t' f k =
          last (v.fails t' (mount_op v o d)) (t' ++ mount_op v o d ∷ [])
            (λ q. f (In-snoc t' (mount_op v o d) tt q)) k

  only_op :
      (d : Text) → In (mkfs dev fs label) (mkfs_op v o d ∷ []) → mkfs_op v o d ≡ mkfs dev fs label
  only_op d (inl e) = e
  only_op d (inr z) = absurd z

  after_mkfs_formats :
      (d : Text) (x : Option Text)
      → In (mkfs dev fs label) (after_mkfs v o d x (mkfs_op v o d ∷ [])).2
      → mkfs_op v o d ≡ mkfs dev fs label
  after_mkfs_formats d none m = only_op d (attach_formats_nothing _ d _ m)
  after_mkfs_formats d (some e) m = only_op d m

  after_identify_formats :
      (d : Text) (i : Option Info)
      → In (mkfs dev fs label) (after_identify v o d i).2
      → (i ≡ none) × (mkfs_op v o d ≡ mkfs dev fs label)
  after_identify_formats d none m = (refl, after_mkfs_formats d _ m)
  after_identify_formats d (some i) m = absurd (attach_formats_nothing _ d [] m)

  -- What a format call tells of the device that was selected.
  abbrev Formats : Result Failure Text → Type 0
  Formats r =
      (r ≡ ok dev)
      × (identify_info v.prober (trim_prefix dev (codes "/dev/")) ≡ none)
      × (fs ≡ o.fs_type)
      × (label ≡ o.label)
      × (dev ≢ [])

  selected-Formats :
      (r : Result Failure Text) → In (mkfs dev fs label) (prepare_selected v o r).2 → Formats r
  selected-Formats (err e) m = absurd m
  selected-Formats (ok []) m = absurd m
  selected-Formats (ok (c ∷ d)) m =
      let (blank, same) = after_identify_formats (c ∷ d) _ m in
      let e : c ∷ d ≡ dev = cc in (ap ok e, rw (← e) blank, cc, cc, λ z. cc)

  -- A format call names the selected device, on which no filesystem was found, with the configured
  -- type and label.
  pub prepare_formats_blank :
      In (mkfs dev fs label) (prepare v o).2
      → (select_device v.prober o ≡ ok dev)
        × (identify_info v.prober (trim_prefix dev (codes "/dev/")) ≡ none)
        × (fs ≡ o.fs_type)
        × (label ≡ o.label)
        × (dev ≢ [])
  unfolding prepare
  prepare_formats_blank m = elim (Bool-cases (is_empty o.spec)) [
    | inl e ↦ absurd (rw e at m)
    | inr e ↦ selected-Formats (select_device v.prober o) (rw e at m)
  ]
