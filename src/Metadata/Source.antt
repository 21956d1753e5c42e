-- ===== src/Metadata/Source.antt =====
-- internal/metadata/source.go: user-data and meta-data are found on a drive, and the files written.
pub mod Written
pub mod Warned
use k0smos.Base.{Bool, true, false, List, [], ◌∷◌, ◌++◌, ℕ, if◌then◌else◌, Option, none, some}
use k0smos.Base.Text.{Text, codes, is_empty}
use k0smos.Base.Paths.{path_dir}
use k0smos.Base.Io.{Result, ok, err, Env, Io, pure, attempt, ◌>>=◌, ◌>>◌}
use k0smos.Metadata.Document.{
  WriteFile, UserData, MetaData, Warning, unreadable, Codecs, mode, no_user_data, no_meta_data,
  parse_user_data, parse_meta_data,
}

-- What a drive answers for a name: `missing` is an error that wraps fs.ErrNotExist.
pub data Reading : Type 0 where
  content : Text → Reading
  missing : Reading
  failed : Text → Reading

abbrev pub Files : Type 0
Files = Text → Reading

abbrev pub user_data_paths : List Text
user_data_paths = codes "user-data" ∷ codes "openstack/latest/user_data" ∷ []

abbrev pub meta_data_paths : List Text
meta_data_paths = codes "meta-data" ∷ codes "openstack/latest/meta_data.json" ∷ []

-- readFirst(f, names), with the warnings of the names before these
unfoldable pub read_from : Files → List Warning → List Text → Text × List Warning
read_from files warnings [] = ([], warnings)
read_from files warnings (n ∷ ns) = elim (files n) [
  | content b ↦ (b, warnings)
  | missing ↦ read_from files warnings ns
  | failed e ↦ read_from files (warnings ++ unreadable e ∷ []) ns
]

unfoldable pub read_first : Files → List Text → Text × List Warning
unfolding read_from
read_first files names = read_from files [] names

-- `Load` returns its two results beside its error.
pub data LoadFailure : Type 0 where
  bad_user_data : Text → LoadFailure
  bad_meta_data : Text → LoadFailure

abbrev pub Loaded : Type 0
Loaded = UserData × MetaData × Option LoadFailure

abbrev pub loaded : UserData → Result Text MetaData → Loaded
loaded u (err e) = (u, no_meta_data, some (bad_meta_data e))
loaded u (ok m) = (u, m, none)

abbrev pub with_warnings : Result Text UserData → List Warning → Result Text MetaData → Loaded
with_warnings (err e) warnings m = (no_user_data, no_meta_data, some (bad_user_data e))
with_warnings (ok u) warnings m = loaded (record u { warnings = u.warnings ++ warnings }) m

-- Load(f)
unfoldable pub load : Codecs → Files → Loaded
load codecs files =
    let (user, user_warn) = read_first files user_data_paths in
    let (meta, meta_warn) = read_first files meta_data_paths in
    with_warnings (parse_user_data codecs user) (user_warn ++ meta_warn)
      (parse_meta_data codecs meta)

pub data Op : Type 0 where
  mkdir_all : Text → ℕ → Op
  write_file : Text → Text → ℕ → Op

pub data Failure : Type 0 where
  mkdir_failed : Text → Text → Failure
  write_failed : Text → Text → Failure

module _ (fails : Env Op Text) where
  abbrev pub apply_file : WriteFile → Io Op Failure Unit
  apply_file f =
      if is_empty f.path
      then pure tt
      else attempt fails (mkdir_all (path_dir f.path) 0o755) (mkdir_failed f.path)
        >> attempt fails (write_file f.path f.content (mode f)) (write_failed f.path)

  unfoldable pub apply_each : List WriteFile → Io Op Failure Unit
  apply_each [] = pure tt
  apply_each (f ∷ fs) = apply_file f >> apply_each fs

  -- Apply(u, mkdirAll, writeFile)
  unfoldable pub apply : UserData → Io Op Failure Unit
  unfolding apply_each
  apply u = apply_each u.write_files
