-- ===== src/Iso9660/Image.antt =====
-- internal/iso9660/write.go: the image that holds some files at its root.
use k0smos.Base.{
  ℕ, zero, suc, ◌+◌, ◌-◌, ◌*◌, ◌/◌, ◌%◌, ◌^◌, Bool, true, false, not, ◌&&◌, ◌||◌, Option, none,
  some, List, [], ◌∷◌, ◌++◌, if◌then◌else◌, ltb, ◌==◌, take, length, replicate, map,
}
use k0smos.Base.Text.{Text, codes, text_eq, is_empty}
use k0smos.Base.Io.{Result, ok, err}
use k0smos.Base.Paths.{path_clean}
use k0smos.Iso9660.Records.{
  Bytes, sector_len, flag_directory, dir_record, susp, extension_reference, rock_ridge_nm, iso_name,
  both32, both16, le32_bytes, be32_bytes, le16_bytes, be16_bytes,
}

pub record File : Type 0 where
  pub name : Text
  pub content : Bytes

pub data Refusal : Type 0 where
  no_files too_many empty_name subdirectory too_long not_plain changed_size : Refusal

abbrev pub max_files : ℕ
max_files = 64

-- Sector assignments.
abbrev pub sector_pvd : ℕ
sector_pvd = 16

abbrev pub sector_root_dir : ℕ
sector_root_dir = 20

-- a < b, for Go strings
unfoldable pub text_lt : Text → Text → Bool
text_lt s [] = false
text_lt [] (d ∷ t) = true
text_lt (c ∷ s) (d ∷ t) = ltb c d || (c == d && text_lt s t)

unfoldable pub insert_file : File → List File → List File
insert_file f [] = f ∷ []
insert_file f (g ∷ fs) =
    let later = insert_file f fs in if text_lt g.name f.name then g ∷ later else f ∷ g ∷ fs

-- sort.Slice by name; the order of files with one name is not fixed there, and is theirs here
unfoldable pub sort_files : List File → List File
sort_files [] = []
sort_files (f ∷ fs) = insert_file f (sort_files fs)

-- strings.ContainsAny(name, "/\\")
unfoldable pub has_slash : Text → Bool
has_slash [] = false
has_slash (c ∷ s) = c == b'/' || c == b'\\' || has_slash s

-- checkName(name)
unfoldable pub check_name : Text → Option Refusal
check_name name =
    if is_empty name
    then some empty_name
    else if has_slash name
    then some subdirectory
    else if ltb 200 (length name)
    then some too_long
    else if not (text_eq name (path_clean name))
    then some not_plain
    else none

abbrev pub or_check : Option Refusal → Option Refusal → Option Refusal
or_check none rest = rest
or_check (some e) rest = some e

unfoldable pub check_names : List File → Option Refusal
check_names [] = none
check_names (f ∷ fs) = or_check (check_name f.name) (check_names fs)

-- sectors(n)
unfoldable pub sectors : ℕ → ℕ
sectors n = if n == 0 then 1 else (n + sector_len - 1) / sector_len

-- Zeros up to a whole number of sectors, behind this many bytes.
abbrev pub sector_pad : ℕ → Bytes
sector_pad n = if n % sector_len == 0 then [] else replicate (sector_len - n % sector_len) 0

-- Where a record of this length would straddle a sector, the padding before it.
abbrev pub record_pad : ℕ → ℕ → Bytes
record_pad n len =
    if ltb sector_len (n % sector_len + len) then replicate (sector_len - n % sector_len) 0 else []

abbrev pub file_record : File → ℕ → Bytes
file_record f extent =
    dir_record (iso_name f.name) extent (length f.content) 0 (rock_ridge_nm f.name)

-- The loop of `buildRootDirWithExtents` over the files and their extents.
unfoldable pub append_records : Bytes → List File → List ℕ → Bytes
append_records out [] extents = out
append_records out (f ∷ fs) [] = out
append_records out (f ∷ fs) (x ∷ xs) =
    append_records (out ++ (record_pad (length out) (length (file_record f x)) ++ file_record f x))
      fs xs

-- The records for the directory itself and for its parent.
unfoldable pub dot_records : ℕ → Bytes
dot_records root_sectors =
    dir_record (0 ∷ []) sector_root_dir (root_sectors * sector_len) flag_directory
      (susp ++ extension_reference)
    ++ dir_record (1 ∷ []) sector_root_dir (root_sectors * sector_len) flag_directory []

-- buildRootDirWithExtents(files, extents, rootSectors)
unfoldable pub build_root_dir_with_extents : List File → List ℕ → ℕ → Bytes
build_root_dir_with_extents files extents root_sectors =
    let out = append_records (dot_records root_sectors) files extents in
    out ++ sector_pad (length out)

-- buildRootDir(files, rootSectors)
unfoldable pub build_root_dir : List File → ℕ → Bytes
build_root_dir files root_sectors =
    build_root_dir_with_extents files (map (λ f. 0) files) root_sectors

-- The extents of the files, the first at this sector.
unfoldable pub extents_from : ℕ → List File → List ℕ
extents_from next [] = []
extents_from next (f ∷ fs) = next ∷ extents_from (next + sectors (length f.content)) fs

unfoldable pub sectors_after : ℕ → List File → ℕ
sectors_after next [] = next
sectors_after next (f ∷ fs) = sectors_after (next + sectors (length f.content)) fs

-- copy(p[off:], src)
unfoldable pub write_at : Bytes → ℕ → Bytes → Bytes
write_at [] off src = []
write_at (b ∷ p) (suc off) src = b ∷ write_at p off src
write_at (b ∷ p) zero [] = b ∷ p
write_at (b ∷ p) zero (s ∷ src) = s ∷ write_at p zero src

-- padText on a field of this width
unfoldable pub pad_text : ℕ → Text → Bytes
pad_text width s = take width (s ++ replicate (width - length s) b' ')

abbrev pub write_all : Bytes → List (ℕ × Bytes) → Bytes
write_all p [] = p
write_all p ((off, src) ∷ ws) = write_all (write_at p off src) ws

-- The writes of `writePVD`, in order.
unfoldable pub pvd_writes : Text → ℕ → ℕ → List (ℕ × Bytes)
pvd_writes label total root_sectors =
    (0, 1 ∷ [])
    ∷ (1, codes "CD001")
    ∷ (6, 1 ∷ [])
    ∷ (8, pad_text 32 [])
    ∷ (40, pad_text 32 label)
    ∷ (80, both32 (total % 2 ^ 32))
    ∷ (120, both16 1)
    ∷ (124, both16 1)
    ∷ (128, both16 sector_len)
    ∷ (132, both32 10)
    ∷ (140, le32_bytes 18)
    ∷ (148, be32_bytes 19)
    ∷ (156, dir_record (0 ∷ []) sector_root_dir (root_sectors * sector_len) flag_directory [])
    ∷ (190, pad_text 128 [])
    ∷ (318, pad_text 128 [])
    ∷ (446, pad_text 128 [])
    ∷ (574, pad_text 128 [])
    ∷ (702, pad_text 37 [])
    ∷ (739, pad_text 37 [])
    ∷ (776, pad_text 37 [])
    ∷ (813, replicate 16 b'0' ++ 0 ∷ [])
    ∷ (830, replicate 16 b'0' ++ 0 ∷ [])
    ∷ (847, replicate 16 b'0' ++ 0 ∷ [])
    ∷ (864, replicate 16 b'0' ++ 0 ∷ [])
    ∷ (881, 1 ∷ [])
    ∷ []

-- The same at an offset into the image.
abbrev pub at_offset : ℕ → List (ℕ × Bytes) → List (ℕ × Bytes)
at_offset base [] = []
at_offset base ((off, src) ∷ ws) = (base + off, src) ∷ at_offset base ws

-- writeTerminator and writePathTables, by their offsets into the image
abbrev pub table_writes : List (ℕ × Bytes)
table_writes =
    (17 * sector_len, 0xff ∷ [])
    ∷ (17 * sector_len + 1, codes "CD001")
    ∷ (17 * sector_len + 6, 1 ∷ [])
    ∷ (18 * sector_len, 1 ∷ 0 ∷ (le32_bytes sector_root_dir ++ (le16_bytes 1 ++ 0 ∷ [])))
    ∷ (19 * sector_len, 1 ∷ 0 ∷ (be32_bytes sector_root_dir ++ (be16_bytes 1 ++ 0 ∷ [])))
    ∷ []

unfoldable pub file_writes : List File → List ℕ → List (ℕ × Bytes)
file_writes [] extents = []
file_writes (f ∷ fs) [] = []
file_writes (f ∷ fs) (x ∷ xs) = (x * sector_len, f.content) ∷ file_writes fs xs

abbrev pub root_sectors_of : List File → ℕ
root_sectors_of files = sectors (length (build_root_dir files 0))

-- The image, behind the checks.
unfoldable pub image_of : Text → List File → Bytes → ℕ → List ℕ → Bytes
image_of label files root root_sectors extents =
    let total = sectors_after (sector_root_dir + root_sectors) files in
    write_all (replicate (total * sector_len) 0) (
      at_offset (sector_pvd * sector_len) (pvd_writes label total root_sectors)
      ++ (table_writes ++ ((sector_root_dir * sector_len, root) ∷ file_writes files extents)))

abbrev pub lay_out : Text → List File → Result Refusal Bytes
lay_out label files =
    let root_sectors = root_sectors_of files in
    let extents = extents_from (sector_root_dir + root_sectors) files in
    let root = build_root_dir_with_extents files extents root_sectors in
    if sectors (length root) == root_sectors
    then ok (image_of label files root root_sectors extents)
    else err changed_size

abbrev pub unless_refused : Option Refusal → Result Refusal Bytes → Result Refusal Bytes
unless_refused none r = r
unless_refused (some e) r = err e

-- Write(w, label, files): what is written to w
unfoldable pub write_image : Text → List File → Result Refusal Bytes
write_image label [] = err no_files
write_image label (f ∷ fs) =
    let sorted = sort_files (f ∷ fs) in
    if ltb max_files (length (f ∷ fs))
    then err too_many
    else unless_refused (check_names sorted) (lay_out label sorted)
