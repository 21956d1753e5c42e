-- ===== src/Datavol/Calls.antt =====
-- The calls of a run, and devices that cannot be read.
use k0smos.Base.{
  ◌≡◌, refl, sym, ◌∙◌, Bool, true, false, Option, none, some, List, [], ◌∷◌, ◌++◌, arith, ap, ℕ,
  append_assoc,
}
use k0smos.Base.Text.{Text, codes, text_eq, is_empty, trim_prefix}
use k0smos.Base.Text.Laws.{trim_prefix-append, has_prefix-append}
use k0smos.Base.Io.{ok}
use k0smos.Blkid.{Prober, Info, identify_info, info_from, probe_device}
use k0smos.Blkid.Probe.{Kind, probers}
use k0smos.Datavol.{
  Op, mkfs, mkdir, mount, Volume, Options, Outcome, Report, select_device, attach, prepare, mkfs_op,
  after_mkfs, after_mkdir, after_mount, mount_op, after_identify,
}

abbrev pub was_blank : Option Info → Bool
was_blank none = true
was_blank (some i) = false

abbrev pub format_calls : Options → Text → Option Info → List Op
format_calls o dev none = mkfs dev o.fs_type o.label ∷ []
format_calls o dev (some i) = []

auto_is_no_path : (name : Text) → text_eq (codes "/dev/" ++ name) (codes "auto") ≡ false
unfolding text_eq
auto_is_no_path name = refl

select-path :
    (p : Prober) (o : Options) (name : Text)
    → o.spec ≡ codes "/dev/" ++ name
    → select_device p o ≡ ok (codes "/dev/" ++ name)
unfolding select_device
select-path p o name h =
    ground (arith, auto_is_no_path name, has_prefix-append (codes "/dev/") name)

module _ (v : Volume) (o : Options) where
  mount_success :
      (res : Report) (dev : Text) (x : Option Text) (t : List Op)
      → (after_mount res dev o.mount_point x t).1 ≡ none
      → after_mount res dev o.mount_point x t ≡ (res, none, t)
  mount_success res dev none t h = refl
  mount_success res dev (some e) t h = cc

  mkdir_success :
      (res : Report) (dev : Text) (x : Option Text) (t : List Op)
      → (after_mkdir v o res dev x t).1 ≡ none
      → after_mkdir v o res dev x t ≡ (res, none, t ++ mount_op v o dev ∷ [])
  mkdir_success res dev none t h = mount_success res dev _ (t ++ mount_op v o dev ∷ []) h
  mkdir_success res dev (some e) t h = cc

  attach_success :
      (res : Report) (dev : Text) (t : List Op)
      → (attach v o res dev t).1 ≡ none
      → attach v o res dev t ≡ (res, none, t ++ (mkdir o.mount_point 0o700 ∷ mount_op v o dev ∷ []))
  unfolding attach
  attach_success res dev t h =
      mkdir_success res dev (v.fails t (mkdir o.mount_point 0o700))
        (t ++ mkdir o.mount_point 0o700 ∷ []) h
      ∙ rw append_assoc

  after_mkfs_success :
      (dev : Text) (x : Option Text)
      → (after_mkfs v o dev x (mkfs_op v o dev ∷ [])).1 ≡ none
      → after_mkfs v o dev x (mkfs_op v o dev ∷ []) ≡ (
        record { device = dev; formatted = true },
        none,
        mkfs_op v o dev ∷ mkdir o.mount_point 0o700 ∷ mount_op v o dev ∷ [],
      )
  after_mkfs_success dev none h = attach_success _ dev (mkfs_op v o dev ∷ []) h
  after_mkfs_success dev (some e) h = cc

  after_identify_success :
      (dev : Text) (i : Option Info)
      → (after_identify v o dev i).1 ≡ none
      → after_identify v o dev i ≡ (
        record { device = dev; formatted = was_blank i },
        none,
        format_calls o dev i ++ (mkdir o.mount_point 0o700 ∷ mount_op v o dev ∷ []),
      )
  after_identify_success dev none h = after_mkfs_success dev _ h
  after_identify_success dev (some i) h = attach_success _ dev [] h

  -- A run that selects a device and returns no error reports that device and makes these calls:
  -- it formats the device exactly if no filesystem was found on it, creates the mount point, and
  -- mounts the device there with the configured type.
  pub prepare_success :
      (dev : Text)
      → is_empty o.spec ≡ false
      → select_device v.prober o ≡ ok dev
      → is_empty dev ≡ false
      → (prepare v o).1 ≡ none
      → (let i = identify_info v.prober (trim_prefix dev (codes "/dev/")) in
          prepare v o ≡ (
            record { device = dev; formatted = was_blank i },
            none,
            format_calls o dev i
                ++ (mkdir o.mount_point 0o700 ∷ mount dev o.mount_point o.fs_type 0 [] ∷ []),
          ))
  prepare_success dev hs hd hn h =
      selected ∙ after_identify_success dev _ (ap (λ (x : Outcome). x.1) (sym selected) ∙ h)
    where
      selected :
          prepare v o
          ≡ after_identify v o dev (identify_info v.prober (trim_prefix dev (codes "/dev/")))
      selected = unfold prepare in rw (hs, hd, hn)

  mount_prefix :
      (op : Op) (res : Report) (dev : Text) (x : Option Text) (r : List Op)
      → (rest : List Op) × ((after_mount res dev o.mount_point x (op ∷ r)).2 ≡ op ∷ rest)
  mount_prefix op res dev none r = (r, refl)
  mount_prefix op res dev (some e) r = (r, refl)

  mkdir_prefix :
      (op : Op) (res : Report) (dev : Text) (x : Option Text) (r : List Op)
      → (rest : List Op) × ((after_mkdir v o res dev x (op ∷ r)).2 ≡ op ∷ rest)
  mkdir_prefix op res dev none r = mount_prefix op res dev _ (r ++ mount_op v o dev ∷ [])
  mkdir_prefix op res dev (some e) r = (r, refl)

  after_mkfs_prefix :
      (dev : Text) (x : Option Text)
      → (rest : List Op) × ((after_mkfs v o dev x (mkfs_op v o dev ∷ [])).2
          ≡ mkfs_op v o dev ∷ rest)
  unfolding attach
  after_mkfs_prefix dev none =
      mkdir_prefix (mkfs_op v o dev) (record { device = dev; formatted = true }) dev
        (v.fails (mkfs_op v o dev ∷ []) (mkdir o.mount_point 0o700))
        (mkdir o.mount_point 0o700 ∷ [])
  after_mkfs_prefix dev (some e) = ([], refl)

  -- Reads of the device never succeed.
  abbrev pub Unreadable : Text → Type 0
  Unreadable name = (len off : ℕ) → v.prober.read_at name len off ≡ none

  Unreadable-is_bare :
      (name : Text) (ks : List Kind) → Unreadable name → info_from v.prober name ks ≡ none
  unfolding info_from probe_device
  Unreadable-is_bare name [] h = refl
  Unreadable-is_bare name (k ∷ ks) h =
      rw (h, probe_device, info_from) (Unreadable-is_bare name ks h)

  Unreadable-identify : (name : Text) → Unreadable name → identify_info v.prober name ≡ none
  unfolding identify_info
  Unreadable-identify name h = Unreadable-is_bare name probers h

  -- A device whose every read fails is taken for a blank one: named by its path, it is formatted
  -- first, whatever is on it.
  pub Unreadable-is_formatted :
      (name : Text)
      → o.spec ≡ codes "/dev/" ++ name
      → Unreadable name
      → (rest : List Op) × ((prepare v o).2 ≡ mkfs (codes "/dev/" ++ name) o.fs_type o.label ∷ rest)
  unfolding prepare
  Unreadable-is_formatted name hs h = rw selected (after_mkfs_prefix _ _)
    where
      selected : prepare v o ≡ after_identify v o (codes "/dev/" ++ name) none
      selected = ground (
        arith,
        select-path v.prober o name hs,
        trim_prefix-append (codes "/dev/") name,
        Unreadable-identify name h,
      )
