-- ===== src/Init/Drive.antt =====
-- `loadMetadata` and `openMetadata` of cmd/k0smos/init_linux.go: a cloud-init drive is found, read in
-- user space where it is ISO 9660, and its files are written.
use k0smos.Base.{ℕ, Bool, true, false, ◌||◌, Option, none, some, List, [], ◌∷◌, ◌++◌, if◌then◌else◌}
use k0smos.Base.Text.{Text, codes, text_eq, trim_prefix}
use k0smos.Base.Io.{Result, ok, err, Env}
use k0smos.Blkid.{Prober, Info, resolve, identify_info}
use k0smos.Iso9660.Records.{Bytes}
use k0smos.Iso9660.Reader
use k0smos.Iso9660.Reader.{ReadAt, Reader, open_image, read_file, not_exist, panicked}
use k0smos.Metadata.Document.{UserData, MetaData, Codecs, no_user_data, no_meta_data}
use k0smos.Metadata.Source.{
  Files, Reading, content, missing, failed, Loaded, load, user_data_paths, meta_data_paths,
}

pub data Op : Type 0 where
  mkdir : Text → ℕ → Op
  mount : Text → Text → Text → ℕ → Op
  unmount : Text → Op
  apply : UserData → Op

-- The devices, what calls answer, the files of a drive that is mounted, and the codings.
pub record Drives : Type 0 where
  pub prober : Prober
  pub fails : Env Op Text
  pub mounted : Files
  pub codecs : Codecs

-- metadata.Labels
abbrev pub labels : List Text
labels = codes "cidata" ∷ codes "config-2" ∷ []

-- The loop over the labels: the device of the first that resolves.
unfoldable pub find_drive : Prober → List Text → Option Text
find_drive p [] = none
find_drive p (l ∷ ls) = elim (resolve p (codes "LABEL=" ++ l)) [
  | ok dev ↦ some dev
  | err e ↦ find_drive p ls
]

-- iso9660.OnDevice(s, name)
abbrev pub read_or_fail : Option Bytes → Result Text Bytes
read_or_fail none = err (codes "read failed")
read_or_fail (some b) = ok b

abbrev pub on_device : Prober → Text → ReadAt
on_device p name len off = read_or_fail (p.read_at name off len)

-- The error of a reader as `readFirst` takes it: only fs.ErrNotExist is a file that is missing. The
-- texts of the others are one here.
abbrev pub reading_of : Result k0smos.Iso9660.Reader.Failure Bytes → Reading
reading_of (ok b) = content b
reading_of (err not_exist) = missing
reading_of (err e) = failed (codes "not readable")

abbrev pub iso_files : Reader → Files
iso_files r name = reading_of (read_file r name)

abbrev pub is_panic : Result k0smos.Iso9660.Reader.Failure Bytes → Bool
is_panic (err panicked) = true
is_panic r = false

-- Whether a candidate that `readFirst` asks the reader for makes it panic.
unfoldable pub asks_panic : Reader → List Text → Bool
asks_panic r [] = false
asks_panic r (n ∷ ns) =
    let rest = asks_panic r ns in
    elim (read_file r n) [ ok b ↦ false | err e ↦ is_panic (err e) || rest ]

-- What `loadMetadata` returns, `none` where the reader panics, and its calls.
abbrev pub Outcome : Type 0
Outcome = Option (UserData × MetaData) × List Op

abbrev pub nothing : List Op → Outcome
nothing t = (some (no_user_data, no_meta_data), t)

abbrev pub metadata_mount : Text
metadata_mount = codes "/run/k0smos/metadata"

-- write_files are applied if there are any; errors are only logged.
abbrev pub apply_calls : UserData → List Op
apply_calls u = elim u.write_files [ [] ↦ [] | f ∷ fs ↦ apply u ∷ [] ]

-- What is made of the drive's files, with the calls of the cleanup behind.
abbrev pub use_loaded : Loaded → List Op → List Op → Outcome
use_loaded (u, m, none) cleanup t = (some (u, m), t ++ (apply_calls u ++ cleanup))
use_loaded (u, m, some e) cleanup t = nothing (t ++ cleanup)

module _ (d : Drives) where
  abbrev pub use_reader : Result k0smos.Iso9660.Reader.Failure Reader → Outcome
  use_reader (err e) = nothing []
  use_reader (ok r) =
      if asks_panic r user_data_paths || asks_panic r meta_data_paths
      then (none, [])
      else use_loaded (load d.codecs (iso_files r)) [] []

  abbrev pub mount_drive : Text → Text → Op
  mount_drive dev fs_type = mount dev metadata_mount fs_type 1

  -- The loop over the file system types that are tried.
  unfoldable pub try_mounts : Text → List Text → List Op → Outcome
  try_mounts dev [] t = nothing t
  try_mounts dev (fs_type ∷ rest) t =
      let op = mount_drive dev fs_type in
      let later = try_mounts dev rest (t ++ op ∷ []) in
      elim (d.fails t op) [
        | none ↦ use_loaded (load d.codecs d.mounted) (unmount metadata_mount ∷ []) (t ++ op ∷ [])
        | some e ↦ later
      ]

  abbrev pub after_mkdir_mount : Text → Option Text → List Op → Outcome
  after_mkdir_mount dev (some e) t = nothing t
  after_mkdir_mount dev none t = try_mounts dev (codes "vfat" ∷ codes "ext4" ∷ []) t

  abbrev pub mount_and_load : Text → Outcome
  mount_and_load dev =
      after_mkdir_mount dev (d.fails [] (mkdir metadata_mount 0o755))
        (mkdir metadata_mount 0o755 ∷ [])

  abbrev pub is_iso : Option Info → Bool
  is_iso none = false
  is_iso (some info) = text_eq info.fs_type (codes "iso9660")

  abbrev pub load_from : Option Text → Outcome
  load_from none = nothing []
  load_from (some dev) =
      let name = trim_prefix dev (codes "/dev/") in
      if is_iso (identify_info d.prober name)
      then use_reader (open_image (on_device d.prober name))
      else mount_and_load dev

  -- loadMetadata(s)
  unfoldable pub load_metadata : Outcome
  load_metadata = load_from (find_drive d.prober labels)
