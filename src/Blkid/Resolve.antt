-- ===== src/Blkid/Resolve.antt =====
-- What resolving a specification and listing the blank devices give.
use k0smos.Base.{
  ◌≡◌, refl, sym, ◌∙◌, Bool, true, false, Option, none, some, List, [], ◌∷◌, ◌++◌, ◌⊎◌, inl, inr,
  arith, All, In, Bool-cases, Option-cases, ap, ◌↔◌, ◌||◌, ◌&&◌, if◌then◌else◌,
}
use mathlib.Core.Option
use mathlib.Core.Path.{subst}
use k0smos.Base.Text.{Text, codes, text_eq, to_upper, to_lower, equal_fold}
use k0smos.Base.Text.Laws.{Lacks, cut-append, text_eq_iff}
use k0smos.Base.Io.{Result, ok, err}
use k0smos.Blkid.{
  Prober, Info, Failure, list_devices, no_match, info_from, identify_info, ids_from, identify,
  by_uuid, is_match, or_no_match, find_device, scan_devices, resolve, is_virtual, blank_among,
}
use k0smos.Blkid.Probe.{Kind, Ids, probers}

abbrev pub ids_of : Info → Ids
ids_of i = (i.uuid, i.label)

ids_from-info_from :
    (p : Prober) (dev : Text) (ks : List Kind)
    → ids_from p dev ks ≡ Option.map ids_of (info_from p dev ks)
unfolding ids_from info_from
ids_from-info_from p dev [] = refl
ids_from-info_from p dev (k ∷ ks) = ground (arith, ids_from-info_from p dev ks)

-- The scan that resolves tags and the test for a blank device see the same filesystem on every
-- device.
pub identify-identify_info :
    (p : Prober) (dev : Text) → identify p dev ≡ Option.map ids_of (identify_info p dev)
unfolding identify identify_info
identify-identify_info p dev = ids_from-info_from p dev probers

-- The device carries a filesystem whose UUID is the wanted one, in any case of letters, or, where a
-- label is looked for, whose label is exactly the wanted one.
abbrev pub Carries : Prober → Bool → Text → Text → Type 0
Carries p true want dev =
    (i : Info) × (identify_info p dev ≡ some i) × (to_lower i.uuid ≡ to_lower want)
Carries p false want dev = (i : Info) × (identify_info p dev ≡ some i) × (i.label ≡ want)

equal_fold_iff : (s t : Text) → (equal_fold s t ≡ true) ↔ (to_lower s ≡ to_lower t)
unfolding equal_fold
equal_fold_iff s t = text_eq_iff (to_lower s) (to_lower t)

is_match-Carries :
    (p : Prober) (uuid : Bool) (want dev : Text)
    → is_match p uuid want dev ≡ true
    → Carries p uuid want dev
unfolding is_match
is_match-Carries p uuid want dev h =
    let same = identify-identify_info p dev in
    elim (Option-cases (identify_info p dev)) [
      | inl n ↦ cc (rw (is_match, same, n) at h)
      | inr (i, e) ↦ by_kind uuid i e (rw (is_match, same, e) at h)
    ]
  where
    by_kind :
        (b : Bool) (i : Info)
        → identify_info p dev ≡ some i
        → (let got = if b then i.uuid else i.label in
            text_eq got want || (b && equal_fold got want))
          ≡ true
        → Carries p b want dev
    by_kind false i e k = (i, e, (text_eq_iff i.label want).0 (ground arith))
    by_kind true i e k = elim (Bool-cases (text_eq i.uuid want)) [
      | inl f ↦ (i, e, ap to_lower ((text_eq_iff i.uuid want).0 f))
      | inr f ↦ (i, e, (equal_fold_iff i.uuid want).0 (rw f at k))
    ]

Carries-is_match :
    (p : Prober) (uuid : Bool) (want dev : Text)
    → Carries p uuid want dev
    → is_match p uuid want dev ≡ true
unfolding is_match
Carries-is_match p false want dev (i, e, f) =
    rw (is_match, identify-identify_info p dev, e, (text_eq_iff i.label want).1 f) refl
Carries-is_match p true want dev (i, e, f) =
    rw (is_match, identify-identify_info p dev, e, (equal_fold_iff i.uuid want).1 f) (ground arith)

not_match :
    (p : Prober) (uuid : Bool) (want dev : Text)
    → is_match p uuid want dev ≡ false
    → Carries p uuid want dev
    → ⊥
not_match p uuid want dev h k = cc (Carries-is_match p uuid want dev k)

-- The devices before the one that is found do not carry what is wanted, and it does.
pub data FirstMatch (p : Prober) (uuid : Bool) (want : Text) (devs : List Text) (dev : Text)
    : Type 0 where
  first :
      (before after : List Text)
      → devs ≡ before ++ dev ∷ after
      → All (λ d. Carries p uuid want d → ⊥) before
      → Carries p uuid want dev
      → FirstMatch p uuid want devs dev

module _ (p : Prober) (uuid : Bool) (want : Text) where
  FirstMatch-cons :
      (d : Text) {devs : List Text} {dev : Text}
      → (Carries p uuid want d → ⊥)
      → FirstMatch p uuid want devs dev
      → FirstMatch p uuid want (d ∷ devs) dev
  FirstMatch-cons d h (first before after e hb ht) =
      first (d ∷ before) after (ap (λ l. d ∷ l) e) (h, hb) ht

  -- What the scan says: the path of the first device that matches, or that none does.
  abbrev pub Found : List Text → Option Text → Type 0
  Found devs none = All (λ d. Carries p uuid want d → ⊥) devs
  Found devs (some path) =
      (dev : Text) × (path ≡ codes "/dev/" ++ dev) × FirstMatch p uuid want devs dev

  Found-cons :
      (d : Text) (devs : List Text) (r : Option Text)
      → (Carries p uuid want d → ⊥)
      → Found devs r
      → Found (d ∷ devs) r
  Found-cons d devs none h f = (h, f)
  Found-cons d devs (some path) h (dev, e, m) = (dev, e, FirstMatch-cons d h m)

  find_device-Found : (devs : List Text) → Found devs (find_device p uuid want devs)
  unfolding find_device
  find_device-Found [] = tt
  find_device-Found (d ∷ devs) = elim (Bool-cases (is_match p uuid want d)) [
    | inl e ↦
        rw (e, find_device) (d, refl, first [] devs refl tt (is_match-Carries p uuid want d e))
    | inr e ↦
        rw (e, find_device)
          (Found-cons d devs _ (not_match p uuid want d e) (find_device-Found devs))
  ]

  -- The outcome of a scan, as the caller sees it.
  abbrev pub Outcome : Text → List Text → Result Failure Text → Type 0
  Outcome spec devs r =
      ((dev : Text) × (r ≡ ok (codes "/dev/" ++ dev)) × FirstMatch p uuid want devs dev)
      ⊎ (r ≡ err (no_match spec)) × All (λ d. Carries p uuid want d → ⊥) devs

  Found-Outcome :
      (spec : Text) (devs : List Text) (r : Option Text)
      → Found devs r
      → Outcome spec devs (or_no_match spec r)
  Found-Outcome spec devs none h = inr (refl, h)
  Found-Outcome spec devs (some path) (dev, e, m) = inl (dev, ap ok e, m)

  scan_devices-Outcome :
      (spec : Text) (devs : List Text) (r : Result Text (List Text))
      → r ≡ ok devs
      → Outcome spec devs (scan_devices p uuid want spec r)
  unfolding scan_devices
  scan_devices-Outcome spec devs r e =
      subst (λ x. Outcome spec devs (scan_devices p uuid want spec x)) (sym e)
        (Found-Outcome spec devs (find_device p uuid want devs) (find_device-Found devs))

scan_devices_failed :
    (p : Prober) (uuid : Bool) (want spec e : Text)
    → scan_devices p uuid want spec (err e) ≡ err (list_devices e)
unfolding scan_devices
scan_devices_failed p uuid want spec e = refl

-- What a specification calls the one and the other.
abbrev pub tag_name : Bool → Text
tag_name true = codes "UUID"
tag_name false = codes "LABEL"

tag_name-by_uuid :
    (kind : Text) (uuid : Bool) → to_upper kind ≡ tag_name uuid → by_uuid kind ≡ some uuid
unfolding by_uuid text_eq
tag_name-by_uuid kind true h = rw h refl
tag_name-by_uuid kind false h = rw h refl

resolve-scan :
    (p : Prober) (kind want : Text) (uuid : Bool)
    → Lacks b'=' kind
    → to_upper kind ≡ tag_name uuid
    → resolve p (kind ++ b'=' ∷ want)
      ≡ scan_devices p uuid want (kind ++ b'=' ∷ want) p.block_devices
unfolding resolve
resolve-scan p kind want uuid hk hu =
    ground (arith, cut-append kind want b'=' hk, tag_name-by_uuid kind uuid hu)

-- What resolving a tag gives, by what listing the devices gives.
abbrev pub TagOutcome : Prober → Bool → Text → Text → Result Text (List Text) → Type 0
TagOutcome p uuid want spec (err e) = resolve p spec ≡ err (list_devices e)
TagOutcome p uuid want spec (ok devs) = Outcome p uuid want spec devs (resolve p spec)

-- Resolving `kind=want`, where the kind is "UUID" or "LABEL" in any case of letters: with the
-- devices listed, the result is the path of the first device that carries a filesystem with that
-- UUID, in any case of letters, or with exactly that label, or else an error, and then no device
-- carries one; if they cannot be listed, the result is that error.
pub resolve_tagged :
    (p : Prober) (kind want : Text) (uuid : Bool)
    → Lacks b'=' kind
    → to_upper kind ≡ tag_name uuid
    → TagOutcome p uuid want (kind ++ b'=' ∷ want) p.block_devices
resolve_tagged p kind want uuid hk hu = by_list p.block_devices refl
  where
    by_list :
        (r : Result Text (List Text))
        → p.block_devices ≡ r
        → TagOutcome p uuid want (kind ++ b'=' ∷ want) r
    by_list (err e) h =
        resolve-scan p kind want uuid hk hu
        ∙ ap (scan_devices p uuid want (kind ++ b'=' ∷ want)) h
        ∙ scan_devices_failed p uuid want (kind ++ b'=' ∷ want) e
    by_list (ok devs) h =
        rw (resolve-scan p kind want uuid hk hu)
          (scan_devices-Outcome p uuid want (kind ++ b'=' ∷ want) devs p.block_devices h)

abbrev pub IsBlank : Prober → Text → Type 0
IsBlank p dev = (is_virtual dev ≡ false) × (identify_info p dev ≡ none)

-- Among listed devices, exactly those are blank that are no kernel pseudo-device and on which no
-- filesystem is found.
pub In-blank_among :
    (p : Prober) (dev : Text) (devs : List Text)
    → In dev (blank_among p devs) ↔ (In dev devs × IsBlank p dev)
unfolding blank_among
In-blank_among p dev [] = (λ m. elim m [ ], λ m. m.0)
In-blank_among p dev (d ∷ devs) =
    let ih = In-blank_among p dev devs in (λ m. ground (arith, ih.0), λ m. ground (arith, ih.1))
