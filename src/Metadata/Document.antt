-- ===== src/Metadata/Document.antt =====
-- internal/metadata/metadata.go: a cloud-config document becomes files, commands and settings.
-- The YAML package, base64 and gzip are parameters; what the YAML package gives is the structure
-- that it fills.
pub mod Commands
pub mod Accounts
use k0smos.Base.{
  ℕ, Bool, true, false, not, ◌||◌, Option, none, some, List, [], ◌∷◌, ◌++◌, map, if◌then◌else◌,
}
use k0smos.Base.Text.{
  Text, codes, text_eq, is_empty, has_prefix, trim_prefix, trim_space, to_lower, fields,
  contains_any,
}
use k0smos.Base.Io.{Result, ok, err}
use k0smos.Base.Decimal.{parse_uint}

pub record MachineConfig : Type 0 where
  pub ip : Text
  pub iface : Text
  pub gateway : Text
  pub dns : Text

pub record WriteFile : Type 0 where
  pub path : Text
  pub content : Text
  pub permissions : Text

pub data Decoding : Type 0 where
  bad_base64 : Decoding
  bad_gzip : Text → Decoding
  unsupported : Text → Decoding

pub data Warning : Type 0 where
  not_cloud_config : Warning
  file_skipped : Text → Decoding → Warning
  needs_shell : Text → Warning
  unexpected_type : Text → Warning
  -- could not read
  unreadable : Text → Warning

pub record UserData : Type 0 where
  pub write_files : List WriteFile
  pub run_cmd : List (List Text)
  pub machine : MachineConfig
  pub warnings : List Warning

-- An entry of write_files, as the document has it.
pub record RawFile : Type 0 where
  pub path : Text
  pub content : Text
  pub encoding : Text
  pub permissions : Text

-- A word of a runcmd entry that is a list: a string, or a value with what fmt.Sprint makes of it.
pub data Item : Type 0 where
  word : Text → Item
  value : Text → Item

-- An entry of runcmd: a string, a list, or a value of another type, by that type's name.
pub data Entry : Type 0 where
  line : Text → Entry
  argv : List Item → Entry
  other : Text → Entry

pub record CloudConfig : Type 0 where
  pub write_files : List RawFile
  pub run_cmd : List Entry
  pub k0smos : MachineConfig

pub record RawMetaData : Type 0 where
  pub instance_id : Text
  pub local_hostname : Text
  pub hostname : Text
  pub uuid : Text
  pub name : Text

pub record MetaData : Type 0 where
  pub instance_id : Text
  pub hostname : Text

-- yaml.Unmarshal into the two structures, base64's DecodeString, and gzip with io.ReadAll.
pub record Codecs : Type 0 where
  pub unmarshal : Text → Result Text CloudConfig
  pub unmarshal_meta : Text → Result Text RawMetaData
  pub base64 : Text → Option Text
  pub gunzip : Text → Result Text Text

abbrev or_0644 : Option ℕ → ℕ
or_0644 none = 0o644
or_0644 (some n) = n

-- w.Mode()
unfoldable pub mode : WriteFile → ℕ
mode w =
    if is_empty w.permissions
    then 0o644
    else or_0644 (parse_uint 8 32 (trim_prefix w.permissions (codes "0o")))

abbrev pub shell_meta : Text
shell_meta = codes "|&;<>$`*?()[]{}!~"

abbrev pub no_machine : MachineConfig
no_machine = record { ip = []; iface = []; gateway = []; dns = [] }

abbrev pub no_user_data : UserData
no_user_data = record { write_files = []; run_cmd = []; machine = no_machine; warnings = [] }

abbrev pub no_meta_data : MetaData
no_meta_data = record { instance_id = []; hostname = [] }

abbrev pub warn : UserData → Warning → UserData
warn u w = record u { warnings = u.warnings ++ w ∷ [] }

unfoldable pub is_one_of : List Text → Text → Bool
is_one_of [] s = false
is_one_of (t ∷ ts) s = text_eq t s || is_one_of ts s

abbrev pub item_text : Item → Text
item_text (word s) = s
item_text (value s) = s

-- A command is added unless it is empty.
abbrev pub add_command : UserData → List Text → UserData
add_command u [] = u
add_command u (a ∷ args) = record u { run_cmd = u.run_cmd ++ (a ∷ args) ∷ [] }

-- One round of the loop over runcmd.
unfoldable pub add_entry : UserData → Entry → UserData
add_entry u (line s) =
    if contains_any s shell_meta then warn u (needs_shell s) else add_command u (fields s)
add_entry u (argv items) = add_command u (map item_text items)
add_entry u (other type) = warn u (unexpected_type type)

unfoldable pub add_entries : UserData → List Entry → UserData
add_entries u [] = u
add_entries u (e ∷ es) = add_entries (add_entry u e) es

module _ (codecs : Codecs) where
  abbrev pub or_bad_base64 : Option Text → Result Decoding Text
  or_bad_base64 none = err bad_base64
  or_bad_base64 (some raw) = ok raw

  abbrev pub or_bad_gzip : Result Text Text → Result Decoding Text
  or_bad_gzip (err e) = err (bad_gzip e)
  or_bad_gzip (ok out) = ok out

  abbrev pub then_gunzip : Option Text → Result Decoding Text
  then_gunzip none = err bad_base64
  then_gunzip (some raw) = or_bad_gzip (codecs.gunzip raw)

  -- decodeContent(encoding, content)
  unfoldable pub decode_content : Text → Text → Result Decoding Text
  unfolding is_one_of
  decode_content encoding content =
      let e = to_lower (trim_space encoding) in
      if is_one_of (codes "" ∷ codes "text/plain" ∷ []) e
      then ok content
      else if is_one_of (codes "b64" ∷ codes "base64" ∷ []) e
      then or_bad_base64 (codecs.base64 (trim_space content))
      else if is_one_of
          (codes "gz+base64" ∷ codes "gzip+base64" ∷ codes "gz+b64" ∷ codes "gzip+b64" ∷ []) e
      then then_gunzip (codecs.base64 (trim_space content))
      else err (unsupported encoding)

  abbrev pub add_decoded : UserData → RawFile → Result Decoding Text → UserData
  add_decoded u f (err e) = warn u (file_skipped f.path e)
  add_decoded u f (ok content) = record u {
    write_files =
        u.write_files
        ++ record { path = f.path; content = content; permissions = f.permissions } ∷ [];
  }

  -- The loop over write_files.
  unfoldable pub add_files : UserData → List RawFile → UserData
  add_files u [] = u
  add_files u (f ∷ fs) = add_files (add_decoded u f (decode_content f.encoding f.content)) fs

  abbrev pub user_data_of : Result Text CloudConfig → Result Text UserData
  user_data_of (err e) = err e
  user_data_of (ok cc) = ok (
      add_entries (add_files (record no_user_data { machine = cc.k0smos }) cc.write_files)
        cc.run_cmd)

  -- ParseUserData(b)
  unfoldable pub parse_user_data : Text → Result Text UserData
  parse_user_data b =
      if is_empty (trim_space b)
      then ok no_user_data
      else if not (has_prefix (trim_space b) (codes "#cloud-config"))
      then ok (warn no_user_data not_cloud_config)
      else user_data_of (codecs.unmarshal b)

  abbrev pub or_else : Text → Text → Text
  or_else s t = if is_empty s then t else s

  abbrev pub meta_data_of : Result Text RawMetaData → Result Text MetaData
  meta_data_of (err e) = err e
  meta_data_of (ok raw) = ok (record {
    instance_id = or_else raw.instance_id raw.uuid;
    hostname = or_else (or_else raw.local_hostname raw.hostname) raw.name;
  })

  -- ParseMetaData(b)
  unfoldable pub parse_meta_data : Text → Result Text MetaData
  parse_meta_data b =
      if is_empty (trim_space b) then ok no_meta_data else meta_data_of (codecs.unmarshal_meta b)
