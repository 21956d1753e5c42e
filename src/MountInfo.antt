-- ===== src/MountInfo.antt =====
-- internal/sys/mountinfo.go: the mount table of /proc/self/mountinfo.
use k0smos.Base.{Bool, Option, none, some, List, [], ◌∷◌, map, if◌then◌else◌}
use k0smos.Base.Text.{Text, codes, is_empty, has_prefix, drop_text, fields}
use k0smos.Base.Scan.{scan_lines, scan_fails}
use k0smos.Base.Io.{Result, ok, err}

pub record MountPoint : Type 0 where
  pub source : Text
  pub target : Text
  pub fs_type : Text

pub data Failure : Type 0 where
  no_separator : Text → Failure
  short_line : Text → Failure
  too_long : Failure

-- What is before and behind the first " - ".
unfoldable pub cut_separator : Text → Option (Text × Text)
cut_separator [] = none
cut_separator (c ∷ s) =
    let rest = cut_separator s in
    if has_prefix (c ∷ s) (codes " - ")
    then some ([], drop_text (c ∷ s) (codes " - "))
    else elim rest [ none ↦ none | some (l, r) ↦ some (c ∷ l, r) ]

-- The fifth field on the left, and the first two on the right.
abbrev pub mount_point : Text → List Text → List Text → Result Failure MountPoint
mount_point line (a ∷ b ∷ c ∷ d ∷ target ∷ ls) (fs_type ∷ source ∷ rs) =
    ok (record { source = source; target = target; fs_type = fs_type })
mount_point line ls rs = err (short_line line)

abbrev pub line_of : Text → Option (Text × Text) → Result Failure MountPoint
line_of line none = err (no_separator line)
line_of line (some (left, right)) = mount_point line (fields left) (fields right)

abbrev pub cons_point :
    Result Failure MountPoint → Result Failure (List MountPoint) → Result Failure (List MountPoint)
cons_point (err e) rest = err e
cons_point (ok m) (err e) = err e
cons_point (ok m) (ok ms) = ok (m ∷ ms)

-- The loop over the lines, behind which `end` is the scanner's error.
unfoldable pub parse_lines : Bool → List Text → Result Failure (List MountPoint)
parse_lines end [] = if end then err too_long else ok []
parse_lines end (l ∷ ls) =
    let rest = parse_lines end ls in
    if is_empty l then rest else cons_point (line_of l (cut_separator l)) rest

-- parseMountInfo(data); what is returned beside an error is left out
unfoldable pub parse_mount_info : Text → Result Failure (List MountPoint)
parse_mount_info text = parse_lines (scan_fails text) (scan_lines text)

-- targetsOf(mps), of internal/sys/targets.go
unfoldable pub targets_of : List MountPoint → List Text
targets_of mps = map (λ m. m.target) mps
