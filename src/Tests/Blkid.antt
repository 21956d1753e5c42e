-- ===== src/Tests/Blkid.antt =====
-- Runs of the device lookup (internal/blkid).
use k0smos.Base.{
  ℕ, zero, suc, ◌≤◌, ◌≡◌, refl, Bool, true, false, Option, none, some, List, [], ◌∷◌, ◌++◌,
  replicate, if◌then◌else◌, ◌==◌, arith, In, ◌↔◌, length, ◌-◌,
}
use k0smos.Base.Text.{Text, codes, text_eq, cut, has_prefix}
use k0smos.Base.Io.{ok, err}
use k0smos.Blkid.{
  Prober, Failure, no_match, resolve, resolve_wait, by_uuid, identify, identify_info, is_match,
  find_device, scan_devices, ids_from, info_from, probe_device, blank, blank_of, blank_among,
  is_virtual, starts_with_any,
}
use k0smos.Blkid.Probe.{Bytes, probe_ext4, probe, read_length, offset}
use k0smos.Blkid.Resolve.{TagOutcome, resolve_tagged}
use k0smos.Blkid.Wait.{resolve_wait_success}

-- An ext4 superblock with the label "k0smos-data".
abbrev pub superblock : Bytes
superblock =
    replicate 56 0 ++ (0x53 ∷ 0xEF ∷ (replicate 62 0 ++ (codes "k0smos-data" ++ replicate 125 0)))

-- One disk with that superblock, and one that cannot be read.
abbrev pub disks : Prober
disks = record {
  block_devices = ok (codes "loop0" ∷ codes "vda" ∷ codes "vdb" ∷ []);
  read_at = λ dev len off.
      if text_eq dev (codes "vda") then (if len == 256 then some superblock else none) else none;
}

abbrev pub label : Text
label = codes "k0smos-data"

resolves : resolve disks (codes "label=k0smos-data") ≡ ok (codes "/dev/vda")
unfolding resolve by_uuid k0smos.Base.Text.to_upper cut text_eq scan_devices find_device is_match
    identify ids_from probe_device probe probe_ext4 read_length offset
resolves = refl

blanks : blank disks ≡ ok (codes "vdb" ∷ [])
unfolding blank blank_of blank_among is_virtual starts_with_any has_prefix identify_info info_from
    text_eq probe_device probe probe_ext4 read_length offset
blanks = refl

resolve_tagged_example :
    TagOutcome disks false label (codes "Label=k0smos-data") disks.block_devices
unfolding k0smos.Base.Text.to_upper
resolve_tagged_example = resolve_tagged disks (codes "Label") label false (omega arith) refl

-- The disks appear at the second attempt.
abbrev no_disks : Prober
no_disks = record { block_devices = ok []; read_at = λ dev len off. none }

abbrev appearing : ℕ → Prober
appearing i = if i == 0 then no_disks else disks

not_yet : resolve no_disks (codes "LABEL=k0smos-data") ≡ err (no_match (codes "LABEL=k0smos-data"))
unfolding resolve by_uuid k0smos.Base.Text.to_upper cut text_eq scan_devices find_device
not_yet = refl

early_failure :
    (j : ℕ)
    → suc j ≤ 1
    → (e : Failure) × (resolve (appearing j) (codes "LABEL=k0smos-data") ≡ err e)
early_failure zero h = (no_match (codes "LABEL=k0smos-data"), not_yet)
early_failure (suc j) h = absurd (omega arith)

then_found : resolve (appearing 1) (codes "LABEL=k0smos-data") ≡ ok (codes "/dev/vda")
unfolding resolve by_uuid k0smos.Base.Text.to_upper cut text_eq scan_devices find_device is_match
    identify ids_from probe_device probe probe_ext4 read_length offset
then_found = refl

resolve_wait_success_example :
    resolve_wait appearing (codes "LABEL=k0smos-data") 30 ≡ (ok (codes "/dev/vda"), 1)
resolve_wait_success_example =
    resolve_wait_success appearing (codes "LABEL=k0smos-data") (codes "/dev/vda") 30 1 (omega arith)
      early_failure then_found
