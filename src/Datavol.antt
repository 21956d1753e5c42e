-- ===== src/Datavol.antt =====
-- internal/datavol/datavol.go: finding, formatting and mounting the data volume.
-- Devices are read before the first call that changes one, so one `Prober` answers every read.
pub mod Safety
pub mod Auto
pub mod Calls
use k0smos.Base.{ℕ, Bool, true, false, not, Option, none, some, List, [], ◌∷◌, ◌++◌, if◌then◌else◌}
use k0smos.Base.Text.{Text, codes, text_eq, is_empty, has_prefix, trim_prefix}
use k0smos.Base.Io.{Result, ok, err, Env}
use k0smos.Blkid
use k0smos.Blkid.{Prober, Info, identify_info, resolve, blank}

pub data Op : Type 0 where
  mkfs : Text → Text → Text → Op
  mkdir : Text → ℕ → Op
  mount : Text → Text → Text → ℕ → Text → Op

pub record Volume : Type 0 where
  pub prober : Prober
  pub fails : Env Op Text

pub record Options : Type 0 where
  pub spec : Text
  pub label : Text
  pub fs_type : Text
  pub mount_point : Text

-- What happened, the struct `Result` of the source.
pub record Report : Type 0 where
  pub device : Text
  pub formatted : Bool

pub data Failure : Type 0 where
  scan : Blkid.Failure → Failure
  ambiguous : List Text → Failure
  format_failed mkdir_failed mount_failed : Text → Text → Failure

abbrev pub no_report : Report
no_report = record { device = []; formatted = false }

-- The switch on the number of blank devices.
unfoldable pub pick_blank : Result Blkid.Failure (List Text) → Result Failure Text
pick_blank (err e) = err (scan e)
pick_blank (ok []) = ok []
pick_blank (ok (c ∷ [])) = ok (codes "/dev/" ++ c)
pick_blank (ok (c ∷ d ∷ cs)) = err (ambiguous (c ∷ d ∷ cs))

-- A label or UUID that does not resolve is no candidate, and no error.
abbrev pub or_nothing : Result Blkid.Failure Text → Result Failure Text
or_nothing (ok dev) = ok dev
or_nothing (err e) = ok []

abbrev pub or_blank : Prober → Result Blkid.Failure Text → Result Failure Text
or_blank p (ok dev) = ok dev
or_blank p (err e) = pick_blank (blank p)

-- selectDevice(v, o)
unfoldable pub select_device : Prober → Options → Result Failure Text
select_device p o =
    if not (text_eq o.spec (codes "auto"))
    then (if has_prefix o.spec (codes "/dev/") then ok o.spec else or_nothing (resolve p o.spec))
    else or_blank p (resolve p (codes "LABEL=" ++ o.label))

-- What a run gives: the report, the error if there is one, and the calls made.
abbrev pub Outcome : Type 0
Outcome = Report × Option Failure × List Op

abbrev pub after_mount : Report → Text → Text → Option Text → List Op → Outcome
after_mount res dev at none t = (res, none, t)
after_mount res dev at (some e) t = (res, some (mount_failed dev e), t)

module _ (v : Volume) (o : Options) where
  abbrev pub mount_op : Text → Op
  mount_op dev = mount dev o.mount_point o.fs_type 0 []

  abbrev pub after_mkdir : Report → Text → Option Text → List Op → Outcome
  after_mkdir res dev (some e) t = (res, some (mkdir_failed o.mount_point e), t)
  after_mkdir res dev none t =
      after_mount res dev o.mount_point (v.fails t (mount_op dev)) (t ++ mount_op dev ∷ [])

  -- Mkdir and Mount, behind the formatting.
  unfoldable pub attach : Report → Text → List Op → Outcome
  attach res dev t =
      after_mkdir res dev (v.fails t (mkdir o.mount_point 0o700))
        (t ++ mkdir o.mount_point 0o700 ∷ [])

  abbrev pub after_mkfs : Text → Option Text → List Op → Outcome
  after_mkfs dev (some e) t = (no_report, some (format_failed dev e), t)
  after_mkfs dev none t = attach (record { device = dev; formatted = true }) dev t

  abbrev pub mkfs_op : Text → Op
  mkfs_op dev = mkfs dev o.fs_type o.label

  -- A device with no filesystem is formatted first.
  abbrev pub after_identify : Text → Option Info → Outcome
  after_identify dev none = after_mkfs dev (v.fails [] (mkfs_op dev)) (mkfs_op dev ∷ [])
  after_identify dev (some i) = attach (record { device = dev; formatted = false }) dev []

  abbrev pub prepare_selected : Result Failure Text → Outcome
  prepare_selected (err e) = (no_report, some e, [])
  prepare_selected (ok dev) =
      if is_empty dev
      then (no_report, none, [])
      else after_identify dev (identify_info v.prober (trim_prefix dev (codes "/dev/")))

  -- Prepare(v, o)
  unfoldable pub prepare : Outcome
  prepare =
      if is_empty o.spec then (no_report, none, []) else prepare_selected (select_device v.prober o)
