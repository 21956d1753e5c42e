-- ===== src/Blkid/Probe.antt =====
-- internal/blkid/probe.go: the superblocks of the filesystems that are recognised.
-- A buffer is a list of bytes; `b[lo:hi]` is `slice b lo hi`.
use Prim.Native.Nat.{◌*◌, ◌/◌, ◌%◌}
use k0smos.Base.{
  ℕ, ◌+◌, ◌-◌, Bool, not, ◌||◌, Option, none, some, List, [], ◌∷◌, ◌++◌, if◌then◌else◌, ltb, ◌==◌,
  take, drop, get_or, length,
}
use k0smos.Base.Text.{Text, codes, text_eq, has_prefix, trim_right}

abbrev pub Bytes : Type 0
Bytes = List ℕ

unfoldable pub slice : Bytes → ℕ → ℕ → Bytes
slice b lo hi = take (hi - lo) (drop lo b)

-- b[i], where the caller has checked the length
unfoldable pub byte_at : Bytes → ℕ → ℕ
byte_at b i = get_or b i 0

-- binary.LittleEndian.Uint16(b[off:]) and Uint32
unfoldable pub le16 : Bytes → ℕ → ℕ
unfolding byte_at
le16 b off = byte_at b off + 256 * byte_at b (off + 1)

unfoldable pub le32 : Bytes → ℕ → ℕ
unfolding le16
le32 b off = le16 b off + 65536 * le16 b (off + 2)

abbrev pub hex_digit : ℕ → ℕ → ℕ
hex_digit ten d = if ltb d 10 then b'0' + d else ten + (d - 10)

-- %x of bytes
unfoldable pub hex : Bytes → Text
hex [] = []
hex (b ∷ bs) = hex_digit b'a' (b / 16) ∷ hex_digit b'a' (b % 16) ∷ hex bs

-- %04X of a number below 2 ^ 16
unfoldable pub hex4 : ℕ → Text
hex4 n =
    hex_digit b'A' (n / 4096)
    ∷ hex_digit b'A' (n / 256 % 16)
    ∷ hex_digit b'A' (n / 16 % 16)
    ∷ hex_digit b'A' (n % 16)
    ∷ []

abbrev dash : ℕ
dash = b'-'

unfoldable pub format_uuid : Bytes → Text
unfolding hex slice
format_uuid b =
    hex (slice b 0 4)
    ++ (dash
        ∷ (hex (slice b 4 6)
            ++ (dash
                ∷ (hex (slice b 6 8)
                    ++ (dash ∷ (hex (slice b 8 10) ++ (dash ∷ hex (slice b 10 16))))))))

unfoldable pub trim_nul : Bytes → Bytes
trim_nul [] = []
trim_nul (c ∷ b) = let rest = trim_nul b in if c == 0 then [] else c ∷ rest

-- A trailing space or NUL of a padded label.
abbrev pub is_padding : ℕ → Bool
is_padding c = c == 32 || c == 0

-- uuid and label
abbrev pub Ids : Type 0
Ids = Text × Text

pub data Kind : Type 0 where
  ext4 erofs iso9660 vfat : Kind

unfoldable pub probe_ext4 : Bytes → Option Ids
unfolding slice le16 format_uuid trim_nul
probe_ext4 b =
    if ltb (length b) 136
    then none
    else if not (le16 b 0x38 == 0xEF53)
    then none
    else some (format_uuid (slice b 0x68 0x78), trim_nul (slice b 0x78 0x88))

abbrev iso_pvd_offset : ℕ
iso_pvd_offset = 32768

unfoldable pub probe_iso9660 : Bytes → Option Ids
unfolding slice byte_at
probe_iso9660 b =
    if ltb (length b) (iso_pvd_offset + 72)
    then none
    else (let pvd = drop iso_pvd_offset b in
        if not (byte_at pvd 0 == 1) || not (text_eq (slice pvd 1 6) (codes "CD001"))
        then none
        else some ([], trim_right is_padding (slice pvd 40 72)))

fat_ids : Bytes → ℕ → ℕ → Ids
unfolding le32 slice hex4
fat_ids b label_off serial_off =
    let serial = le32 b serial_off in
    (
      hex4 (serial / 65536) ++ (dash ∷ hex4 (serial % 65536)),
      trim_right is_padding (slice b label_off (label_off + 11)),
    )

unfoldable pub probe_fat : Bytes → Option Ids
unfolding byte_at slice fat_ids
probe_fat b =
    if ltb (length b) 512 || not (byte_at b 510 == 0x55) || not (byte_at b 511 == 0xaa)
    then none
    else if has_prefix (slice b 0x52 0x57) (codes "FAT32")
    then some (fat_ids b 0x47 0x43)
    else if has_prefix (slice b 0x36 0x39) (codes "FAT")
    then some (fat_ids b 0x2b 0x27)
    else none

unfoldable pub probe_erofs : Bytes → Option Ids
unfolding le32 slice format_uuid
probe_erofs b =
    if ltb (length b) 80
    then none
    else if not (le32 b 0 == 0xE0F5E1E2)
    then none
    else some (format_uuid (slice b 48 64), trim_right is_padding (slice b 64 80))

-- A row of the table of probers: where to read, how much, and how to interpret it.
unfoldable pub offset : Kind → ℕ
offset ext4 = 1024
offset erofs = 1024
offset iso9660 = 0
offset vfat = 0

unfoldable pub read_length : Kind → ℕ
read_length ext4 = 256
read_length erofs = 128
read_length iso9660 = iso_pvd_offset + 2048
read_length vfat = 1024

unfoldable pub probe : Kind → Bytes → Option Ids
probe ext4 b = probe_ext4 b
probe erofs b = probe_erofs b
probe iso9660 b = probe_iso9660 b
probe vfat b = probe_fat b

-- The order in which a device is probed.
abbrev pub probers : List Kind
probers = ext4 ∷ erofs ∷ iso9660 ∷ vfat ∷ []
