-- ===== src/Iso9660/Limits.antt =====
-- The limits of what reads back: long names, and short name entries.
use k0smos.Base.{ℕ, ◌+◌, ◌%◌, ◌≤◌, ◌≡◌, ◌↔◌, refl, none, length, get_or, arith}
use k0smos.Base.Text.{Text}
use k0smos.Iso9660.Records.{Bytes, rock_ridge_nm, iso_name, dir_record}
use k0smos.Iso9660.Image.{check_name}
use k0smos.Iso9660.Names.{length-dir_record, length-iso_name}

length_byte :
    (id : Bytes) (extent size flags : ℕ) (su : Bytes)
    → get_or (dir_record id extent size flags su) 0 0
      ≡ length (dir_record id extent size flags su) % 256
unfolding dir_record
length_byte id extent size flags su = refl

length-rock_ridge_nm : (name : Text) → length (rock_ridge_nm name) ≡ length name + 5
unfolding rock_ridge_nm
length-rock_ridge_nm name = omega arith

checked_length : (name : Text) → check_name name ≡ none → length name ≤ 200
unfolding check_name
checked_length name h = ground arith

-- For a name in ASCII that the writer's check admits (it admits names of up to 200 bytes), the length
-- byte of the record, by which a reader finds the end of the record and the start of the next one,
-- is right exactly if the name has at most 107 bytes.
pub length_byte_right :
    (name : Text) (extent size : ℕ)
    → check_name name ≡ none
    → (get_or (dir_record (iso_name name) extent size 0 (rock_ridge_nm name)) 0 0
        ≡ length (dir_record (iso_name name) extent size 0 (rock_ridge_nm name)))
      ↔ (length name ≤ 107)
length_byte_right name extent size h =
    let total = length-dir_record (iso_name name) extent size 0 (rock_ridge_nm name) in
    let id = length-iso_name name in
    let nm = length-rock_ridge_nm name in
    let byte = length_byte (iso_name name) extent size 0 (rock_ridge_nm name) in
    let most = checked_length name h in
    (
      λ e. omega (arith, e, total, id, nm, byte, most),
      λ l. omega (arith, l, total, id, nm, byte, most),
    )
