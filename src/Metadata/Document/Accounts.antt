-- ===== src/Metadata/Document/Accounts.antt =====
-- What becomes of the entries of a document.
use mathlib.Core.Path.{subst}
use k0smos.Base.{
  ◌≡◌, refl, sym, ◌∙◌, inl, true, false, List, [], ◌∷◌, All, In, In-append_left, In-append_right,
}
use k0smos.Base.Text.{Text, codes, is_empty, trim_space, has_prefix}
use k0smos.Base.Io.{Result, ok, err}
use k0smos.Metadata.Document.{
  UserData, CloudConfig, RawFile, file_skipped, Decoding, Codecs, add_entries, add_decoded,
  add_files, decode_content, parse_user_data, no_user_data,
}
use k0smos.Metadata.Document.Commands.{
  FromEntry, Answered, Extends, Extends-refl, Extends-trans, warn-Extends, add_entries-FromEntry,
  add_entries-Extends, add_entries-Answered,
}

module _ (codecs : Codecs) where
  -- What became of an entry of write_files: a file with its decoded content, or a warning.
  abbrev pub Stored : UserData → RawFile → Result Decoding Text → Type 0
  Stored u f (ok c) =
      In (record { path = f.path; content = c; permissions = f.permissions }) u.write_files
  Stored u f (err e) = In (file_skipped f.path e) u.warnings

  abbrev pub FileAnswered : UserData → RawFile → Type 0
  FileAnswered u f = Stored u f (decode_content codecs f.encoding f.content)

  add_decoded-Extends :
      (u : UserData) (f : RawFile) (r : Result Decoding Text) → Extends u (add_decoded codecs u f r)
  add_decoded-Extends u f (err e) = warn-Extends u (file_skipped f.path e)
  add_decoded-Extends u f (ok c) = record {
    warnings = λ w m. m;
    run_cmd = λ x m. m;
    write_files = λ g m. In-append_left g u.write_files _ m;
  }

  Stored-Extends :
      (u v : UserData) (f : RawFile) (r : Result Decoding Text)
      → Extends u v
      → Stored u f r
      → Stored v f r
  Stored-Extends u v f (ok c) x m = x.write_files _ m
  Stored-Extends u v f (err e) x m = x.warnings _ m

  add_decoded-Stored :
      (u : UserData) (f : RawFile) (r : Result Decoding Text)
      → Stored (add_decoded codecs u f r) f r
  add_decoded-Stored u f (ok c) = In-append_right _ u.write_files _ (inl refl)
  add_decoded-Stored u f (err e) = In-append_right _ u.warnings _ (inl refl)

  add_files-run_cmd :
      (fs : List RawFile) (u : UserData) → (add_files codecs u fs).run_cmd ≡ u.run_cmd
  unfolding add_files
  add_files-run_cmd [] u = refl
  add_files-run_cmd (f ∷ fs) u =
      add_files-run_cmd fs (add_decoded codecs u f (decode_content codecs f.encoding f.content))
      ∙ add_decoded-run_cmd u f (decode_content codecs f.encoding f.content)
    where
      add_decoded-run_cmd :
          (v : UserData) (g : RawFile) (r : Result Decoding Text)
          → (add_decoded codecs v g r).run_cmd ≡ v.run_cmd
      add_decoded-run_cmd v g (ok c) = refl
      add_decoded-run_cmd v g (err e) = refl

  add_files-Extends : (fs : List RawFile) (u : UserData) → Extends u (add_files codecs u fs)
  unfolding add_files
  add_files-Extends [] u = Extends-refl u
  add_files-Extends (f ∷ fs) u =
      let r = decode_content codecs f.encoding f.content in
      Extends-trans u (add_decoded codecs u f r) _ (add_decoded-Extends u f r)
        (add_files-Extends fs (add_decoded codecs u f r))

  add_files-Answered :
      (fs : List RawFile) (u v : UserData)
      → Extends (add_files codecs u fs) v
      → All (FileAnswered v) fs
  unfolding add_files
  add_files-Answered [] u v x = tt
  add_files-Answered (f ∷ fs) u v x =
      let r = decode_content codecs f.encoding f.content in
      let next = add_decoded codecs u f r in
      (
        Stored-Extends next v f r (Extends-trans next _ v (add_files-Extends fs next) x)
            (add_decoded-Stored u f r),
        add_files-Answered fs next v x,
      )

  is_document : (s : Text) → has_prefix s (codes "#cloud-config") ≡ true → is_empty s ≡ false
  unfolding has_prefix
  is_document [] h = cc
  is_document (c ∷ s) h = refl

  -- For a text that starts with #cloud-config behind white space, and that the YAML package parses:
  -- every entry of write_files is a file of the user-data with its decoded content, or a warning
  -- with the reason; every entry of runcmd is a command, or a warning, or has no word; and every
  -- command is the words of a string without a shell character, or the items of a list.
  pub parse_user_data-accounts :
      (b : Text) (cc : CloudConfig)
      → has_prefix (trim_space b) (codes "#cloud-config") ≡ true
      → codecs.unmarshal b ≡ ok cc
      → (u : UserData) × (parse_user_data codecs b ≡ ok u)
        × All (FileAnswered u) cc.write_files
        × All (Answered u) cc.run_cmd
        × All (FromEntry cc.run_cmd) u.run_cmd
  unfolding parse_user_data
  parse_user_data-accounts b cc h e =
      let start = record no_user_data { machine = cc.k0smos } in
      let files = add_files codecs start cc.write_files in
      (
        add_entries files cc.run_cmd,
        rw (is_document (trim_space b) h, h, e) refl,
        add_files-Answered cc.write_files start _ (add_entries-Extends cc.run_cmd files),
        add_entries-Answered cc.run_cmd files,
        add_entries-FromEntry cc.run_cmd cc.run_cmd files (λ x m. m)
            (subst (All (FromEntry cc.run_cmd)) (sym (add_files-run_cmd cc.write_files start)) tt),
      )
