-- ===== src/Tests/Datavol.antt =====
-- Runs of the data volume's preparation (internal/datavol).
use k0smos.Base.{
  ℕ, zero, suc, ◌≤◌, ◌≡◌, ◌≢◌, refl, Bool, true, false, Option, none, some, List, [], ◌∷◌, ◌++◌,
  inl, if◌then◌else◌, arith, In,
}
use k0smos.Base.Text.{Text, codes, text_eq, cut, has_prefix, trim_prefix, is_empty}
use k0smos.Base.Io.{ok, err}
use k0smos.Blkid.{
  no_match, resolve, by_uuid, identify, identify_info, is_match, find_device, scan_devices,
  ids_from, info_from, probe_device, blank, blank_of, blank_among, is_virtual, starts_with_any,
}
use k0smos.Datavol.{
  Op, mkfs, mkdir, mount, Volume, Options, select_device, pick_blank, attach, prepare,
}
use k0smos.Datavol.Safety.{prepare_formats_blank}
use k0smos.Datavol.Auto.{Unlabelled, auto_formats_single_blank}
use k0smos.Datavol.Calls.{prepare_success, Unreadable-is_formatted}

abbrev with_disks : List Text → Volume
with_disks names = record {
  prober = record { block_devices = ok names; read_at = λ dev len off. none };
  fails = λ t op. none;
}

abbrev options : Options
options = record {
  spec = codes "auto";
  label = codes "k0smos-data";
  fs_type = codes "ext4";
  mount_point = codes "/var";
}

abbrev one_disk : Volume
one_disk = with_disks (codes "loop0" ∷ codes "vdb" ∷ [])

abbrev calls : List Op
calls =
    mkfs (codes "/dev/vdb") (codes "ext4") (codes "k0smos-data")
    ∷ mkdir (codes "/var") 0o700
    ∷ mount (codes "/dev/vdb") (codes "/var") (codes "ext4") 0 []
    ∷ []

first_boot :
    prepare one_disk options ≡ (record { device = codes "/dev/vdb"; formatted = true }, none, calls)
unfolding prepare select_device pick_blank attach resolve by_uuid k0smos.Base.Text.to_upper cut
    text_eq scan_devices find_device is_match identify ids_from blank blank_of blank_among
    is_virtual starts_with_any has_prefix identify_info info_from probe_device trim_prefix
first_boot = refl

formats_vdb :
    In (mkfs (codes "/dev/vdb") (codes "ext4") (codes "k0smos-data")) (prepare one_disk options).2
unfolding prepare select_device pick_blank attach resolve by_uuid k0smos.Base.Text.to_upper cut
    text_eq scan_devices find_device is_match identify ids_from blank blank_of blank_among
    is_virtual starts_with_any has_prefix identify_info info_from probe_device trim_prefix
formats_vdb = inl refl

prepare_formats_blank_example :
    (select_device one_disk.prober options ≡ ok (codes "/dev/vdb"))
    × (identify_info one_disk.prober (trim_prefix (codes "/dev/vdb") (codes "/dev/")) ≡ none)
    × (codes "ext4" ≡ options.fs_type)
    × (codes "k0smos-data" ≡ options.label)
    × (codes "/dev/vdb" ≢ [])
prepare_formats_blank_example =
    prepare_formats_blank one_disk options (codes "/dev/vdb") (codes "ext4") (codes "k0smos-data")
      formats_vdb

auto_formats_single_blank_example :
    (c : Text) × (codes "/dev/vdb" ≡ codes "/dev/" ++ c)
    × (blank one_disk.prober ≡ ok (c ∷ []))
    × Unlabelled one_disk.prober (codes "k0smos-data")
auto_formats_single_blank_example =
    auto_formats_single_blank one_disk options (codes "/dev/vdb") (codes "ext4")
      (codes "k0smos-data") refl formats_vdb

abbrev two_disks : Volume
two_disks = with_disks (codes "vda" ∷ codes "vdb" ∷ [])

no_label :
    resolve two_disks.prober (codes "LABEL=k0smos-data")
    ≡ err (no_match (codes "LABEL=k0smos-data"))
unfolding resolve by_uuid k0smos.Base.Text.to_upper cut text_eq scan_devices find_device is_match
    identify ids_from probe_device
no_label = refl

both_blank : blank two_disks.prober ≡ ok (codes "vda" ∷ codes "vdb" ∷ [])
unfolding blank blank_of blank_among is_virtual starts_with_any has_prefix identify_info info_from
    probe_device
both_blank = refl

abbrev by_path : Options
by_path = record options { spec = codes "/dev/vdb" }

picks_path : select_device one_disk.prober by_path ≡ ok (codes "/dev/vdb")
unfolding select_device text_eq has_prefix
picks_path = refl

no_error : (prepare one_disk by_path).1 ≡ none
unfolding prepare select_device text_eq has_prefix attach identify_info info_from probe_device
no_error = refl

prepare_success_example :
    prepare one_disk by_path ≡ (record { device = codes "/dev/vdb"; formatted = true }, none, calls)
unfolding identify_info info_from probe_device
prepare_success_example =
    prepare_success one_disk by_path (codes "/dev/vdb") refl picks_path refl no_error

Unreadable-is_formatted_example :
    (rest : List Op) × ((prepare one_disk by_path).2
      ≡ mkfs (codes "/dev/vdb") (codes "ext4") (codes "k0smos-data") ∷ rest)
Unreadable-is_formatted_example =
    Unreadable-is_formatted one_disk by_path (codes "vdb") refl (λ len off. refl)
