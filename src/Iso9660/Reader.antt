-- ===== src/Iso9660/Reader.antt =====
-- internal/iso9660/iso9660.go: opening an image and reading a file by its path.
use k0smos.Base.{
  ℕ, zero, suc, ◌+◌, ◌*◌, ◌/◌, ◌%◌, ◌^◌, Bool, true, false, not, ◌||◌, List, [], ◌∷◌, if◌then◌else◌,
  ltb, leb, ◌==◌, take, drop, length, get_or,
}
use mathlib.Core.List.{reverse}
use k0smos.Base.Text.{Text, codes, text_eq, split}
use k0smos.Base.Io.{Result, ok, err}
use k0smos.Iso9660.Records.{
  Bytes, sector_len, rec_name_off, Entry, named, unnamed, crashes, entry_name,
}

-- (ra ReaderAt) ReadAt, for a buffer of this length at this offset
abbrev pub ReadAt : Type 0
ReadAt = ℕ → ℕ → Result Text Bytes

pub data Failure : Type 0 where
  read_failed : Text → Failure
  not_iso implausible truncated interleaved extended not_exist wrong_kind too_large : Failure
  panicked : Failure

pub record Reader : Type 0 where
  pub read_at : ReadAt
  pub block_size : ℕ
  pub root_lba : ℕ
  pub root_size : ℕ

abbrev pub le16_at : Bytes → ℕ → ℕ
le16_at b i = get_or b i 0 + 2 ^ 8 * get_or b (i + 1) 0

abbrev pub le32_at : Bytes → ℕ → ℕ
le32_at b i = le16_at b i + 2 ^ 16 * le16_at b (i + 2)

abbrev pub block_size_of : Bytes → ℕ
block_size_of pvd = if le16_at pvd 128 == 0 then sector_len else le16_at pvd 128

abbrev pub reader_of : ReadAt → Bytes → Reader
reader_of ra pvd = record {
  read_at = ra;
  block_size = block_size_of pvd;
  root_lba = le32_at pvd 158;
  root_size = le32_at pvd 166;
}

abbrev pub open_pvd : ReadAt → Result Text Bytes → Result Failure Reader
open_pvd ra (err e) = err (read_failed e)
open_pvd ra (ok pvd) =
    if not (get_or pvd 0 0 == 1) || not (text_eq (take 5 (drop 1 pvd)) (codes "CD001"))
    then err not_iso
    else ok (reader_of ra pvd)

-- Open(ra)
unfoldable pub open_image : ReadAt → Result Failure Reader
open_image ra = open_pvd ra (ra sector_len 32768)

-- The struct `record` of the source.
pub record Extent : Type 0 where
  pub lba : ℕ
  pub size : ℕ
  pub flags : ℕ

abbrev pub extent_of : Bytes → Extent
extent_of rec = record { lba = le32_at rec 2; size = le32_at rec 10; flags = get_or rec 25 0 }

-- A record that has the wanted name.
abbrev pub use_record : Bytes → Result Failure Extent
use_record rec =
    if not (get_or rec 26 0 == 0) || not (get_or rec 27 0 == 0)
    then err interleaved
    else if not (get_or rec 1 0 == 0)
    then err extended
    else ok (extent_of rec)

-- The record is the wanted one, or the search goes on behind it.
abbrev pub match_record : Text → Bytes → Entry → Result Failure Extent → Result Failure Extent
match_record want rec crashes rest = err panicked
match_record want rec unnamed rest = rest
match_record want rec (named name) rest = if text_eq name want then use_record rec else rest

abbrev pub max_records : ℕ
max_records = 4096

-- The loop of `find`, for so many more records, from `off` on.
unfoldable pub find_from : ℕ → ℕ → Text → Bytes → ℕ → Result Failure Extent
find_from zero bs want dir off = err not_exist
find_from (suc n) bs want dir off =
    let len = get_or dir off 0 in
    let next = (off / bs + 1) * bs in
    let rec = take len (drop off dir) in
    let padded = if leb (length dir) next then err not_exist else find_from n bs want dir next in
    let found = match_record want rec (entry_name rec) (find_from n bs want dir (off + len)) in
    if leb (length dir) off
    then err not_exist
    else if len == 0
    then padded
    else if ltb (length dir) (off + len) || ltb len rec_name_off
    then err truncated
    else found

abbrev pub find_in : ℕ → Text → Result Text Bytes → Result Failure Extent
find_in bs want (err e) = err (read_failed e)
find_in bs want (ok dir) = find_from max_records bs want dir 0

-- (r *Reader) find(lba, size, want)
unfoldable pub find : Reader → ℕ → ℕ → Text → Result Failure Extent
find r lba size want =
    if size == 0 || ltb (max_records * r.block_size) size
    then err implausible
    else find_in r.block_size want (r.read_at size (lba * r.block_size))

-- flags&flagDirectory != 0
abbrev pub is_directory : ℕ → Bool
is_directory flags = flags / 2 % 2 == 1

-- strings.Trim(name, "/")
abbrev pub skip_slashes : Text → Text
skip_slashes [] = []
skip_slashes (c ∷ s) = if c == b'/' then skip_slashes s else c ∷ s

abbrev pub trim_slashes : Text → Text
trim_slashes s = reverse (skip_slashes (reverse (skip_slashes s)))

abbrev pub is_last : List Text → Bool
is_last [] = true
is_last (p ∷ ps) = false

-- 8 << 20
abbrev pub max_file_size : ℕ
max_file_size = 8 * 2 ^ 20

abbrev pub read_result : Result Text Bytes → Result Failure Bytes
read_result (ok b) = ok b
read_result (err e) = err (read_failed e)

-- The contents of a file that has been found.
unfoldable pub read_extent : Reader → ℕ → ℕ → Result Failure Bytes
read_extent r lba size =
    if ltb max_file_size size
    then err too_large
    else if size == 0
    then ok []
    else read_result (r.read_at size (lba * r.block_size))

-- A part of the path that has been found, and the walk from it.
abbrev pub step_into :
    Bool → Result Failure Extent → (ℕ → ℕ → Result Failure Bytes) → Result Failure Bytes
step_into last (err e) walk = err e
step_into last (ok x) walk =
    if is_directory x.flags
    then (if last then err wrong_kind else walk x.lba x.size)
    else (if last then walk x.lba x.size else err wrong_kind)

-- The loop of `ReadFile` over the parts of the path.
unfoldable pub walk_path : Reader → List Text → ℕ → ℕ → Result Failure Bytes
walk_path r [] lba size = read_extent r lba size
walk_path r (part ∷ parts) lba size =
    step_into (is_last parts) (find r lba size part) (walk_path r parts)

-- (r *Reader) ReadFile(name)
unfoldable pub read_file : Reader → Text → Result Failure Bytes
read_file r name = walk_path r (split (trim_slashes name) b'/') r.root_lba r.root_size
