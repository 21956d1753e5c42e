-- ===== src/Tests/MountInfo.antt =====
-- A line of the mount table (internal/sys).
use k0smos.Base.{◌≡◌, refl, [], ◌∷◌, ◌++◌}
use k0smos.Base.Text.{codes, fields, has_prefix}
use k0smos.Base.Scan.{scan_lines, scan_from, drop_cr, scan_fails, scan_fails_from}
use k0smos.Base.Io.{ok}
use k0smos.MountInfo.{cut_separator, parse_lines, parse_mount_info}

root_line :
    parse_mount_info (codes "22 1 8:2 / /var rw shared:1 - ext4 /dev/vda2 rw\n")
    ≡ ok (record { source = codes "/dev/vda2"; target = codes "/var"; fs_type = codes "ext4" } ∷ [])
unfolding parse_mount_info parse_lines cut_separator scan_lines scan_from scan_fails scan_fails_from
    drop_cr fields has_prefix k0smos.Base.Text.is_space
root_line = refl
