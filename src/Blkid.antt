-- ===== src/Blkid.antt =====
-- internal/blkid/blkid.go: resolving UUID= and LABEL= to a device, and telling blank devices.
pub mod Probe
pub mod Resolve
pub mod Wait
use k0smos.Base.{
  ℕ, zero, suc, ◌+◌, Bool, true, false, not, ◌&&◌, ◌||◌, Option, none, some, List, [], ◌∷◌, ◌++◌,
  if◌then◌else◌,
}
use k0smos.Base.Text.{Text, codes, text_eq, has_prefix, cut, to_upper, equal_fold}
use k0smos.Base.Io.{Result, ok, err}
use Probe.{Bytes, Ids, Kind, ext4, erofs, iso9660, vfat, offset, read_length, probe, probers}

-- The block devices that the kernel knows, and what a read of one gives: `none` is an error, and a
-- read that succeeds fills the buffer.
pub record Prober : Type 0 where
  pub block_devices : Result Text (List Text)
  pub read_at : Text → ℕ → ℕ → Option Bytes

pub record Info : Type 0 where
  pub fs_type : Text
  pub uuid : Text
  pub label : Text

pub data Failure : Type 0 where
  list_devices : Text → Failure
  no_match : Text → Failure

unfoldable pub name_of : Kind → Text
name_of ext4 = codes "ext4"
name_of erofs = codes "erofs"
name_of iso9660 = codes "iso9660"
name_of vfat = codes "vfat"

-- One round of the loops below: a read that fails, like a superblock that is not recognised, goes
-- on to the next prober.
unfoldable pub probe_device : Prober → Text → Kind → Option Ids
probe_device p dev k = elim (p.read_at dev (read_length k) (offset k)) [
  | none ↦ none
  | some buf ↦ probe k buf
]

unfoldable pub info_from : Prober → Text → List Kind → Option Info
info_from p dev [] = none
info_from p dev (k ∷ ks) =
    let rest = info_from p dev ks in
    elim (probe_device p dev k) [
      | none ↦ rest
      | some (u, l) ↦ some (record { fs_type = name_of k; uuid = u; label = l })
    ]

-- Identify(p, dev)
unfoldable pub identify_info : Prober → Text → Option Info
identify_info p dev = info_from p dev probers

unfoldable pub ids_from : Prober → Text → List Kind → Option Ids
ids_from p dev [] = none
ids_from p dev (k ∷ ks) =
    let rest = ids_from p dev ks in
    elim (probe_device p dev k) [ none ↦ rest | some ids ↦ some ids ]

-- identify(p, dev)
unfoldable pub identify : Prober → Text → Option Ids
identify p dev = ids_from p dev probers

-- Whether a specification's kind names a UUID (true) or a label (false).
unfoldable pub by_uuid : Text → Option Bool
by_uuid kind =
    if text_eq (to_upper kind) (codes "UUID")
    then some true
    else if text_eq (to_upper kind) (codes "LABEL")
    then some false
    else none

-- The comparison in the loop of `Resolve`.
unfoldable pub is_match : Prober → Bool → Text → Text → Bool
is_match p uuid want dev = elim (identify p dev) [
  | none ↦ false
  | some (u, l) ↦
      let got = if uuid then u else l in text_eq got want || (uuid && equal_fold got want)
]

unfoldable pub find_device : Prober → Bool → Text → List Text → Option Text
find_device p uuid want [] = none
find_device p uuid want (dev ∷ devs) =
    let rest = find_device p uuid want devs in
    if is_match p uuid want dev then some (codes "/dev/" ++ dev) else rest

abbrev pub or_no_match : Text → Option Text → Result Failure Text
or_no_match spec none = err (no_match spec)
or_no_match spec (some path) = ok path

unfoldable pub scan_devices :
    Prober → Bool → Text → Text → Result Text (List Text) → Result Failure Text
scan_devices p uuid want spec (err e) = err (list_devices e)
scan_devices p uuid want spec (ok devs) = or_no_match spec (find_device p uuid want devs)

-- Resolve(p, spec)
unfoldable pub resolve : Prober → Text → Result Failure Text
resolve p spec =
    let (kind, want, found) = cut spec b'=' in
    if found
    then elim (by_uuid kind) [
      | none ↦ ok spec
      | some uuid ↦ scan_devices p uuid want spec p.block_devices
    ]
    else ok spec

abbrev nil_or : Option Failure → Result Failure Text
nil_or none = ok []
nil_or (some e) = err e

-- The loop of `ResolveWait`: the devices may change with each pause, `view i` are those after `i`
-- of them. Gives the result and the number of pauses.
unfoldable pub wait_from : (ℕ → Prober) → Text → ℕ → ℕ → Option Failure → Result Failure Text × ℕ
wait_from view spec zero i last = (nil_or last, i)
wait_from view spec (suc attempts) i last = elim (resolve (view i) spec) [
  | ok dev ↦ (ok dev, i)
  | err e ↦ wait_from view spec attempts (suc i) (some e)
]

unfoldable pub resolve_wait : (ℕ → Prober) → Text → ℕ → Result Failure Text × ℕ
resolve_wait view spec attempts = wait_from view spec attempts 0 none

abbrev pub virtual_prefixes : List Text
virtual_prefixes =
    codes "loop"
    ∷ codes "ram"
    ∷ codes "zram"
    ∷ codes "dm-"
    ∷ codes "md"
    ∷ codes "nbd"
    ∷ codes "fd"
    ∷ codes "sr"
    ∷ []

unfoldable pub starts_with_any : Text → List Text → Bool
starts_with_any dev [] = false
starts_with_any dev (p ∷ ps) = has_prefix dev p || starts_with_any dev ps

unfoldable pub is_virtual : Text → Bool
is_virtual dev = starts_with_any dev virtual_prefixes

unfoldable pub blank_among : Prober → List Text → List Text
blank_among p [] = []
blank_among p (dev ∷ devs) =
    let rest = blank_among p devs in
    if is_virtual dev
    then rest
    else elim (identify_info p dev) [ none ↦ dev ∷ rest | some i ↦ rest ]

unfoldable pub blank_of : Prober → Result Text (List Text) → Result Failure (List Text)
blank_of p (err e) = err (list_devices e)
blank_of p (ok devs) = ok (blank_among p devs)

-- Blank(p)
unfoldable pub blank : Prober → Result Failure (List Text)
blank p = blank_of p p.block_devices
