-- ===== src/Init/Gentle.antt =====
-- How drives are mounted while the metadata is read.
use k0smos.Base.{
  ◌≡◌, refl, ◌||◌, Bool, true, false, Option, none, some, List, [], ◌∷◌, All, All-append,
  Option-cases, Bool-cases, inl, inr, if◌then◌else◌,
}
use k0smos.Base.Text.{Text, codes, trim_prefix}
use k0smos.Base.Io.{Result, ok, err}
use k0smos.Blkid.{identify_info}
use k0smos.Iso9660.Reader.{Reader, open_image}
use k0smos.Iso9660.Reader
use k0smos.Metadata.Document.{UserData}
use k0smos.Metadata.Source.{Loaded, load, user_data_paths, meta_data_paths}
use k0smos.Init.Drive.{
  Op, mkdir, mount, unmount, apply, Drives, use_loaded, apply_calls, use_reader, try_mounts,
  load_from, mount_and_load, iso_files, find_drive, labels, load_metadata, is_iso, asks_panic,
  metadata_mount,
}

-- A mount is read-only.
abbrev pub IsGentle : Op → Type 0
IsGentle (mkdir p m) = Unit
IsGentle (mount dev at fs flags) = flags ≡ 1
IsGentle (unmount p) = Unit
IsGentle (apply u) = Unit

apply_calls-IsGentle : (u : UserData) → All IsGentle (apply_calls u)
apply_calls-IsGentle u = by_files u.write_files
  where
    by_files :
        (fs : List k0smos.Metadata.Document.WriteFile)
        → All IsGentle (elim fs [ [] ↦ [] | f ∷ gs ↦ apply u ∷ [] ])
    by_files [] = tt
    by_files (f ∷ gs) = (tt, tt)

use_loaded-IsGentle :
    (l : Loaded) (cleanup t : List Op)
    → All IsGentle cleanup
    → All IsGentle t
    → All IsGentle (use_loaded l cleanup t).1
use_loaded-IsGentle (u, m, none) cleanup t c h =
    All-append IsGentle t _ h
      (All-append IsGentle (apply_calls u) cleanup (apply_calls-IsGentle u) c)
use_loaded-IsGentle (u, m, some e) cleanup t c h = All-append IsGentle t cleanup h c

module _ (d : Drives) where
  try_mounts-IsGentle :
      (dev : Text) (types : List Text) (t : List Op)
      → All IsGentle t
      → All IsGentle (try_mounts d dev types t).1
  unfolding try_mounts
  try_mounts-IsGentle dev [] t h = h
  try_mounts-IsGentle dev (f ∷ fs) t h =
      elim (Option-cases (d.fails t (mount dev metadata_mount f 1))) [
        | inl n ↦
            rw (n, try_mounts)
              (use_loaded-IsGentle (load d.codecs d.mounted) (unmount metadata_mount ∷ []) _
                (tt, tt) (All-append IsGentle t _ h (refl, tt)))
        | inr (x, e) ↦
            rw (e, try_mounts) (try_mounts-IsGentle dev fs _ (All-append IsGentle t _ h (refl, tt)))
      ]

  mount_and_load-IsGentle : (dev : Text) → All IsGentle (mount_and_load d dev).1
  mount_and_load-IsGentle dev = elim (Option-cases (d.fails [] (mkdir metadata_mount 0o755))) [
    | inl n ↦ rw n (try_mounts-IsGentle dev _ _ (tt, tt))
    | inr (x, e) ↦ rw e (tt, tt)
  ]

  use_reader-IsGentle :
      (r : Result k0smos.Iso9660.Reader.Failure Reader) → All IsGentle (use_reader d r).1
  use_reader-IsGentle (err e) = tt
  use_reader-IsGentle (ok r) =
      by_panic (asks_panic r user_data_paths || asks_panic r meta_data_paths)
    where
      by_panic :
          (b : Bool)
          → All IsGentle
              (if b then (none, []) else use_loaded (load d.codecs (iso_files r)) [] []).1
      by_panic true = tt
      by_panic false = use_loaded-IsGentle (load d.codecs (iso_files r)) [] [] tt tt

  load_from-IsGentle : (o : Option Text) → All IsGentle (load_from d o).1
  load_from-IsGentle none = tt
  load_from-IsGentle (some dev) =
      elim (Bool-cases (is_iso d (identify_info d.prober (trim_prefix dev (codes "/dev/"))))) [
        | inl e ↦ rw e (use_reader-IsGentle _)
        | inr e ↦ rw e (mount_and_load-IsGentle dev)
      ]

  -- Whatever the drives hold and whatever fails, loading the metadata mounts nothing but read-only.
  pub load_metadata-IsGentle : All IsGentle (load_metadata d).1
  unfolding load_metadata
  load_metadata-IsGentle = load_from-IsGentle (find_drive d.prober labels)
