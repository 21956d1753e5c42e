-- ===== src/Tests/Document.antt =====
-- A small cloud-config document on a drive (internal/metadata).
use k0smos.Base.{
  ℕ, ◌≡◌, ◌⊎◌, ◌||◌, ◌&&◌, ◌==◌, inl, inr, refl, Bool, true, false, not, Option, none, some, List,
  [], ◌∷◌, ◌++◌, map, All, In, if◌then◌else◌, arith,
}
use k0smos.Base.Text.{
  Text, codes, text_eq, is_empty, fields, has_prefix, trim_space, to_lower, contains_any,
  trim_right,
}
use k0smos.Base.Io.{ok, err, Env}
use k0smos.Base.Decimal.{parse_uint}
use k0smos.Metadata.Document.{
  UserData, CloudConfig, RawFile, WriteFile, line, argv, other, word, value, Codecs,
  parse_user_data, no_machine, decode_content, mode, no_user_data, unreadable, is_one_of,
}
use k0smos.Metadata.Document.Commands.{FromEntry, Answered}
use k0smos.Metadata.Document.Accounts.{FileAnswered, parse_user_data-accounts}
use k0smos.Metadata.Source.{
  Files, content, missing, failed, load, read_first, Op, mkdir_all, write_file, user_data_paths,
}
use k0smos.Metadata.Source.Warned.{load_warns}

abbrev token_file : RawFile
token_file = record {
  path = codes "/etc/k0s/token";
  content = codes "abc";
  encoding = codes " B64 ";
  permissions = codes "0o600";
}

abbrev odd_file : RawFile
odd_file = record {
  path = codes "/x";
  content = codes "abc";
  encoding = codes "gz";
  permissions = [];
}

abbrev config : CloudConfig
config = record {
  write_files = token_file ∷ odd_file ∷ [];
  run_cmd =
      line (codes "k0s worker")
      ∷ line (codes "a | b")
      ∷ argv (word (codes "k0s") ∷ value (codes "7") ∷ [])
      ∷ other (codes "bool")
      ∷ [];
  k0smos = no_machine;
}

-- A YAML package that knows one document, and codings that change nothing.
abbrev codecs : Codecs
codecs = record {
  unmarshal = λ b. ok config;
  unmarshal_meta = λ b. err (codes "no mapping");
  base64 = λ s. some s;
  gunzip = λ s. ok s;
}

abbrev document : Text
document = codes "\n#cloud-config\nruncmd: []"

-- What the document comes to.
abbrev stored : WriteFile
stored = record {
  path = codes "/etc/k0s/token";
  content = codes "abc";
  permissions = codes "0o600";
}

starts : has_prefix (trim_space document) (codes "#cloud-config") ≡ true
unfolding has_prefix trim_space
starts = refl

parse_user_data-accounts_example :
    (u : UserData) × (parse_user_data codecs document ≡ ok u)
    × All (FileAnswered codecs u) config.write_files
    × All (Answered u) config.run_cmd
    × All (FromEntry config.run_cmd) u.run_cmd
parse_user_data-accounts_example = parse_user_data-accounts codecs document config starts refl

decoded : decode_content codecs token_file.encoding token_file.content ≡ ok (codes "abc")
unfolding decode_content to_lower trim_space is_one_of text_eq
decoded = refl

private_mode : mode stored ≡ 0o600
unfolding mode parse_uint k0smos.Base.Text.trim_prefix k0smos.Base.Decimal.parse_digits
private_mode = refl

-- A drive whose user-data is empty, and whose meta-data cannot be read.
abbrev drive : Files
drive n =
    if text_eq n (codes "user-data")
    then content []
    else if text_eq n (codes "meta-data")
    then failed (codes "bad sector")
    else missing

unread : drive (codes "meta-data") ≡ failed (codes "bad sector")
unfolding text_eq
unread = refl

empty_user : parse_user_data codecs (read_first drive user_data_paths).0 ≡ ok no_user_data
unfolding parse_user_data read_first trim_space text_eq
empty_user = refl

load_warns_example : In (unreadable (codes "bad sector")) (load codecs drive).0.warnings
load_warns_example =
    load_warns codecs drive no_user_data (codes "meta-data") (codes "bad sector") empty_user unread
      (inr (inl refl))

abbrev read_only : Env Op Text
read_only t (mkdir_all p m) = none
read_only t (write_file p c m) = some (codes "read-only file system")
