-- ===== src/Tests/Iso9660.antt =====
-- Runs on directory records (internal/iso9660).
use k0smos.Base.{◌≤◌, ◌≡◌, ◌↔◌, refl, none, List, [], ◌∷◌, arith, length, get_or, replicate}
use k0smos.Base.Text.{Text, codes, text_eq, to_upper, split, join, has_prefix}
use k0smos.Base.Io.{ok}
use k0smos.Base.Paths.{path_clean}
use k0smos.Iso9660.Records.{
  Bytes, dir_record, record_body, iso_name, iso_char, rock_ridge_nm, rock_ridge_name,
  rock_ridge_from, entry_name, named,
}
use k0smos.Iso9660.Image.{
  File, check_name, has_slash, build_root_dir_with_extents, append_records, dot_records, sort_files,
  insert_file, text_lt,
}
use k0smos.Iso9660.Reader.{find_from}
use k0smos.Iso9660.Names.{entry_name_back}
use k0smos.Iso9660.Limits.{length_byte_right}

abbrev user_data : Text
user_data = codes "user-data"

iso_form : iso_name user_data ≡ codes "USER_DATA;1"
unfolding iso_name iso_char to_upper
iso_form = refl

entry_name_back_example :
    entry_name (dir_record (iso_name user_data) 21 5 0 (rock_ridge_nm user_data)) ≡ named user_data
entry_name_back_example = entry_name_back b'u' (codes "ser-data") 21 5 0 (omega arith)

abbrev long_name : Text
long_name = replicate 108 b'a'

long_is_checked : check_name long_name ≡ none
unfolding check_name has_slash path_clean split join text_eq has_prefix
long_is_checked = refl

length_byte_right_example :
    (get_or (dir_record (iso_name long_name) 21 5 0 (rock_ridge_nm long_name)) 0 0
      ≡ length (dir_record (iso_name long_name) 21 5 0 (rock_ridge_nm long_name)))
    ↔ (length long_name ≤ 107)
length_byte_right_example = length_byte_right long_name 21 5 long_is_checked

-- The root directory of an image with two files, and what is found in it.
abbrev files : List File
files =
    record { name = codes "user-data"; content = codes "#cloud-config" }
    ∷ record { name = codes "meta-data"; content = [] }
    ∷ []

abbrev root : Bytes
root = build_root_dir_with_extents (sort_files files) (21 ∷ 22 ∷ []) 1

finds_user_data : find_from 8 2048 user_data root 0 ≡ ok (record { lba = 22; size = 13; flags = 0 })
unfolding find_from build_root_dir_with_extents append_records dot_records sort_files insert_file
    text_lt dir_record record_body rock_ridge_nm iso_name iso_char to_upper entry_name
    rock_ridge_name rock_ridge_from text_eq
finds_user_data = refl
