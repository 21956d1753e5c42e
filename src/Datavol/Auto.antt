-- ===== src/Datavol/Auto.antt =====
-- The search for a device when none is named.
use mathlib.Core.Path.{subst}
use k0smos.Base.{
  ◌≡◌, ◌≢◌, refl, sym, ◌∙◌, false, none, some, List, [], ◌∷◌, ◌++◌, inl, inr, arith, In, All,
}
use k0smos.Base.Text.{Text, codes, trim_prefix, to_upper}
use k0smos.Base.Text.Laws.{trim_prefix-append, text_eq_refl}
use k0smos.Base.Io.{Result, ok, err}
use k0smos.Blkid.{Prober, Failure, identify_info, resolve, blank, blank_of}
use k0smos.Blkid.Resolve.{Outcome, TagOutcome, Carries, tag_name, first, resolve_tagged}
use k0smos.Datavol.{
  mkfs, Volume, Options, ambiguous, no_report, pick_blank, or_blank, select_device, prepare,
}
use k0smos.Datavol.Safety.{prepare_formats_blank}

label_found :
    (p : Prober) (label d : Text) (devs : List Text)
    → resolve p (codes "LABEL=" ++ label) ≡ ok d
    → Outcome p false label (codes "LABEL=" ++ label) devs (resolve p (codes "LABEL=" ++ label))
    → identify_info p (trim_prefix d (codes "/dev/")) ≢ none
label_found p label d devs h (inl (dev, e, first _ _ _ _ (i, has, _))) =
    let same : d ≡ codes "/dev/" ++ dev = cc in
    rw (same, trim_prefix-append (codes "/dev/") dev) (λ bare. cc has)
label_found p label d devs h (inr (e, _)) = λ _. cc

label_kind : to_upper (codes "LABEL") ≡ tag_name false
unfolding to_upper
label_kind = refl

-- A device that a label resolves to carries a filesystem.
resolved_label_has_fs :
    (p : Prober) (label d : Text)
    → resolve p (codes "LABEL=" ++ label) ≡ ok d
    → identify_info p (trim_prefix d (codes "/dev/")) ≢ none
resolved_label_has_fs p label d h =
    by_list p.block_devices (resolve_tagged p (codes "LABEL") label false (omega arith) label_kind)
  where
    by_list :
        (r : Result Text (List Text))
        → TagOutcome p false label (codes "LABEL=" ++ label) r
        → identify_info p (trim_prefix d (codes "/dev/")) ≢ none
    by_list (err e) failed = λ _. cc
    by_list (ok devs) found = label_found p label d devs h found

pick_single :
    (b : Result Failure (List Text)) (dev : Text)
    → pick_blank b ≡ ok dev
    → dev ≢ []
    → (c : Text) × (dev ≡ codes "/dev/" ++ c) × (b ≡ ok (c ∷ []))
unfolding pick_blank
pick_single (err e) dev h z = cc
pick_single (ok []) dev h z = absurd (z cc)
pick_single (ok (c ∷ [])) dev h z = (c, cc, refl)
pick_single (ok (c ∷ d ∷ cs)) dev h z = cc

-- The devices could be listed, and none of them carries a filesystem with this label.
abbrev pub Unlabelled : Prober → Text → Type 0
Unlabelled p label =
    (devs : List Text) × (p.block_devices ≡ ok devs) × All (λ d. Carries p false label d → ⊥) devs

listed_blank :
    (p : Prober) (r : Result Text (List Text)) (cs : List Text)
    → blank_of p r ≡ ok cs
    → (devs : List Text) × (r ≡ ok devs)
unfolding blank_of
listed_blank p (ok devs) cs h = (devs, refl)
listed_blank p (err e) cs h = cc

not_found :
    (p : Prober) (label : Text) (e : Failure) (devs : List Text)
    → resolve p (codes "LABEL=" ++ label) ≡ err e
    → Outcome p false label (codes "LABEL=" ++ label) devs (resolve p (codes "LABEL=" ++ label))
    → All (λ d. Carries p false label d → ⊥) devs
not_found p label e devs h (inl (dev, f, _)) = cc
not_found p label e devs h (inr (_, none_has)) = none_has

label_missing :
    (p : Prober) (label : Text) (e : Failure) (cs : List Text)
    → resolve p (codes "LABEL=" ++ label) ≡ err e
    → blank p ≡ ok cs
    → Unlabelled p label
unfolding blank
label_missing p label e cs h b =
    let (devs, listed) = listed_blank p p.block_devices cs b in
    (
      devs,
      listed,
      not_found p label e devs h (
          subst (TagOutcome p false label (codes "LABEL=" ++ label)) listed
            (resolve_tagged p (codes "LABEL") label false (omega arith) label_kind)),
    )

auto_choice :
    (p : Prober) (label dev : Text) (r : Result Failure Text)
    → resolve p (codes "LABEL=" ++ label) ≡ r
    → or_blank p r ≡ ok dev
    → identify_info p (trim_prefix dev (codes "/dev/")) ≡ none
    → dev ≢ []
    → (c : Text) × (dev ≡ codes "/dev/" ++ c) × (blank p ≡ ok (c ∷ [])) × Unlabelled p label
auto_choice p label dev (ok d) h e none_found z =
    absurd (resolved_label_has_fs p label dev (h ∙ e') none_found)
  where
    e' : ◌≡◌ {A = Result Failure Text} (ok d) (ok dev)
    e' = cc
auto_choice p label dev (err x) h e _ z =
    let (c, named, single) = pick_single (blank p) dev e z in
    (c, named, single, label_missing p label x (c ∷ []) h single)

select-auto :
    (p : Prober) (o : Options)
    → o.spec ≡ codes "auto"
    → select_device p o ≡ or_blank p (resolve p (codes "LABEL=" ++ o.label))
unfolding select_device
select-auto p o h = ground (arith, text_eq_refl (codes "auto"))

-- With "auto", a device is formatted only if it is the one blank device, the list of blank devices
-- having just it, and if none of the devices listed carries a filesystem with the wanted label.
pub auto_formats_single_blank :
    (v : Volume) (o : Options) (dev fs label : Text)
    → o.spec ≡ codes "auto"
    → In (mkfs dev fs label) (prepare v o).2
    → (c : Text) × (dev ≡ codes "/dev/" ++ c)
      × (blank v.prober ≡ ok (c ∷ []))
      × Unlabelled v.prober o.label
auto_formats_single_blank v o dev fs label h m =
    let (selected, bare, _, _, named) = prepare_formats_blank v o dev fs label m in
    auto_choice v.prober o.label dev (resolve v.prober (codes "LABEL=" ++ o.label)) refl
      (sym (select-auto v.prober o h) ∙ selected) bare named

-- With "auto", no device with the wanted label and more than one blank device, the run is refused
-- with the list of them, and nothing is formatted or mounted.
pub auto_ambiguous :
    (v : Volume) (o : Options) (e : Failure) (c d : Text) (cs : List Text)
    → o.spec ≡ codes "auto"
    → resolve v.prober (codes "LABEL=" ++ o.label) ≡ err e
    → blank v.prober ≡ ok (c ∷ d ∷ cs)
    → prepare v o ≡ (no_report, some (ambiguous (c ∷ d ∷ cs)), [])
unfolding prepare pick_blank
auto_ambiguous v o e c d cs h hl hb = ground (arith, select-auto v.prober o h)
