-- ===== src/Iso9660/Records.antt =====
-- internal/iso9660: the names in directory records, as they are written and as they are read.
use k0smos.Base.{
  ℕ, zero, suc, ◌+◌, ◌/◌, ◌%◌, ◌^◌, Bool, false, ◌&&◌, ◌||◌, List, [], ◌∷◌, ◌++◌, if◌then◌else◌,
  ltb, leb, ◌==◌, take, drop, length, get_or,
}
use k0smos.Base.Text.{Text, codes, text_eq, cut, trim_suffix, to_upper}

abbrev pub Bytes : Type 0
Bytes = List ℕ

abbrev pub sector_len : ℕ
sector_len = 2048

-- Offsets within a directory record.
abbrev pub rec_name_off : ℕ
rec_name_off = 33

abbrev pub flag_directory : ℕ
flag_directory = 2

-- putLE32, putBE32 and putBoth32, and the same for 16 bits
abbrev pub le32_bytes : ℕ → Bytes
le32_bytes v = (v % 256) ∷ (v / 2 ^ 8 % 256) ∷ (v / 2 ^ 16 % 256) ∷ (v / 2 ^ 24 % 256) ∷ []

abbrev pub be32_bytes : ℕ → Bytes
be32_bytes v = (v / 2 ^ 24 % 256) ∷ (v / 2 ^ 16 % 256) ∷ (v / 2 ^ 8 % 256) ∷ (v % 256) ∷ []

abbrev pub both32 : ℕ → Bytes
both32 v = le32_bytes v ++ be32_bytes v

abbrev pub le16_bytes : ℕ → Bytes
le16_bytes v = (v % 256) ∷ (v / 2 ^ 8 % 256) ∷ []

abbrev pub be16_bytes : ℕ → Bytes
be16_bytes v = (v / 2 ^ 8 % 256) ∷ (v % 256) ∷ []

abbrev pub both16 : ℕ → Bytes
both16 v = le16_bytes v ++ be16_bytes v

-- fixedTimestamp
abbrev pub timestamp : Bytes
timestamp = 100 ∷ 1 ∷ 1 ∷ 0 ∷ 0 ∷ 0 ∷ 0 ∷ []

-- Whether the system use area needs a byte of padding before it.
abbrev pub name_pad : Bytes → Bytes
name_pad id = if (rec_name_off + length id) % 2 == 1 then 0 ∷ [] else []

-- The record behind its length byte.
unfoldable pub record_body : Bytes → ℕ → ℕ → ℕ → Bytes → Bytes
record_body id extent size flags system_use =
    0
    ∷ (both32 (extent % 2 ^ 32)
        ++ (both32 (size % 2 ^ 32)
            ++ (timestamp
                ++ (flags
                    ∷ 0
                    ∷ 0
                    ∷ (both16 1 ++ ((length id % 256) ∷ (id ++ (name_pad id ++ system_use))))))))

-- dirRecord(id, extent, size, flags, systemUse): the length byte keeps the length modulo 256
unfoldable pub dir_record : Bytes → ℕ → ℕ → ℕ → Bytes → Bytes
dir_record id extent size flags system_use =
    let body = record_body id extent size flags system_use in (suc (length body) % 256) ∷ body

-- susp()
abbrev pub susp : Bytes
susp = b'S' ∷ b'P' ∷ 7 ∷ 1 ∷ 0xbe ∷ 0xef ∷ 0 ∷ []

-- extensionReference()
abbrev pub extension_reference : Bytes
extension_reference = b'E' ∷ b'R' ∷ 18 ∷ 1 ∷ 10 ∷ 0 ∷ 0 ∷ 1 ∷ codes "RRIP_1991A"

-- rockRidgeNM(name)
unfoldable pub rock_ridge_nm : Text → Bytes
rock_ridge_nm name = b'N' ∷ b'M' ∷ ((5 + length name) % 256) ∷ 1 ∷ 0 ∷ name

-- The case of one rune of `isoName`; names are ASCII.
unfoldable pub iso_char : ℕ → ℕ
iso_char c =
    if (leb b'A' c && leb c b'Z') || (leb b'0' c && leb c b'9') || c == b'.' then c else b'_'

abbrev pub iso_chars : Text → Text
iso_chars [] = []
iso_chars (c ∷ s) = iso_char c ∷ iso_chars s

-- isoName(name), for a name in ASCII: a rune is a byte there.
unfoldable pub iso_name : Text → Text
iso_name name = iso_chars (to_upper name) ++ codes ";1"

-- What the scan of a system use area ends with: the name so far, or a slice out of range, which is
-- a panic in Go.
pub data Scan : Type 0 where
  ended : Text → Scan
  panics : Scan

-- One entry of the area, of this length.
abbrev pub nm_text : ℕ → Bytes → Bytes
nm_text len su = drop 5 (take len su)

-- The loop of `rockRidgeName`; `su` is the area from `off` on.
unfoldable pub rock_ridge_from : ℕ → Bytes → Text → Scan
rock_ridge_from zero su name = ended name
rock_ridge_from (suc fuel) su name =
    let len = get_or su 2 0 in
    let skip = rock_ridge_from fuel (drop len su) name in
    let grown = rock_ridge_from fuel (drop len su) (name ++ nm_text len su) in
    if ltb (length su) 4
    then ended name
    else if ltb len 4 || ltb (length su) len
    then ended name
    else if text_eq (take 2 su) (codes "NM")
    then (if len == 4 then panics else grown)
    else if text_eq (take 2 su) (codes "ST")
    then ended name
    else skip

-- rockRidgeName(su): no name is an empty one
unfoldable pub rock_ridge_name : Bytes → Scan
rock_ridge_name su = rock_ridge_from (length su) su []

-- normaliseName(s)
unfoldable pub normalise_name : Text → Text
normalise_name s = trim_suffix (cut s b';').0 (codes ".")

pub data Entry : Type 0 where
  named : Text → Entry
  unnamed : Entry
  crashes : Entry

abbrev pub or_normalised : Text → Scan → Entry
or_normalised raw panics = crashes
or_normalised raw (ended []) = named (normalise_name raw)
or_normalised raw (ended (c ∷ name)) = named (c ∷ name)

abbrev pub is_dot : Bytes → Bool
is_dot [] = false
is_dot (c ∷ []) = c == 0 || c == 1
is_dot (c ∷ d ∷ s) = false

-- Behind the name and its padding, if anything is there.
abbrev pub system_use_of : ℕ → Bytes → Bytes
system_use_of name_len rec = drop (rec_name_off + name_len + (rec_name_off + name_len) % 2) rec

-- entryName(rec)
unfoldable pub entry_name : Bytes → Entry
entry_name rec =
    let name_len = get_or rec 32 0 in
    let raw = take name_len (drop rec_name_off rec) in
    if name_len == 0 || ltb (length rec) (rec_name_off + name_len)
    then unnamed
    else if is_dot raw
    then unnamed
    else or_normalised raw (rock_ridge_name (system_use_of name_len rec))
