-- ===== src/Config/Settings.antt =====
-- What the command line sets.
use k0smos.Base.{◌≡◌, refl, true, false, List, [], ◌∷◌, ◌++◌, arith}
use k0smos.Base.Text.{Text, trim_prefix, codes, cut, fields, is_empty}
use k0smos.Base.Text.Laws.{
  Lacks, NoSpace, cut-append, has_prefix-append, trim_prefix-append, fields-append, fields-NoSpace,
}
use k0smos.Config.{
  Config, default_config, head_named, keep_or, apply_setting, apply_token, apply_tokens, parse,
}

apply_tokens-append :
    (c : Config) (s t : List Text) → apply_tokens c (s ++ t) ≡ apply_tokens (apply_tokens c s) t
unfolding apply_tokens
apply_tokens-append c [] t = refl
apply_tokens-append c (x ∷ s) t = apply_tokens-append (apply_token c x) s t

-- `k0smos.<key>=<value>` as a word of the command line.
abbrev pub setting : Text → Text → Text
setting k v = codes "k0smos." ++ (k ++ b'=' ∷ v)

prefix-Lacks : (k : Text) → Lacks b'=' k → Lacks b'=' (codes "k0smos." ++ k)
prefix-Lacks k h = ground arith

apply_token-setting :
    (c : Config) (k v : Text) → Lacks b'=' k → apply_token c (setting k v) ≡ apply_setting c k v
unfolding apply_token
apply_token-setting c k v h = rw (
  cut-append (codes "k0smos." ++ k) v b'=' (prefix-Lacks k h),
  has_prefix-append (codes "k0smos.") k,
  trim_prefix-append (codes "k0smos.") k,
)

-- A setting at the end of the command line is applied to what the rest of the line gives, whatever
-- that line holds, for a key with no '=' and a key and a value with no white space.
pub parse-append-setting :
    (cmdline k v : Text)
    → Lacks b'=' k
    → NoSpace (setting k v)
    → parse (cmdline ++ 32 ∷ setting k v) ≡ apply_setting (parse cmdline) k v
unfolding parse
parse-append-setting cmdline k v hk hs =
    rw
      (
        fields-append cmdline (setting k v),
        fields-NoSpace b'k' _ hs,
        apply_tokens-append default_config (fields cmdline) (setting k v ∷ []),
      )
      (unfold apply_tokens in apply_token-setting _ k v hk)

-- What PID 1 reads from a configuration without checking it.
pub record IsBootable (c : Config) : Type 0 where
  pub hostname : is_empty c.hostname ≡ false
  pub exec : head_named c.exec ≡ true
  pub iface : is_empty c.iface ≡ false
  pub root_fs_type : is_empty c.root_fs_type ≡ false
  pub data_label : is_empty c.data_label ≡ false
  pub data_fs_type : is_empty c.data_fs_type ≡ false
  pub data_dir : is_empty c.data_dir ≡ false
  pub path : is_empty c.path ≡ false

keep_or-nonempty : (old v : Text) → is_empty old ≡ false → is_empty (keep_or old v) ≡ false
keep_or-nonempty old [] h = h
keep_or-nonempty old (c ∷ v) h = refl

default_config-IsBootable : IsBootable default_config
unfolding default_config
default_config-IsBootable = ground arith

-- A setting leaves a field that it must not empty, one lemma for each such field.
module _ (c : Config) (k v : Text) where
  hostname-apply_setting :
      is_empty c.hostname ≡ false → is_empty (apply_setting c k v).hostname ≡ false
  unfolding apply_setting
  hostname-apply_setting h = ground (arith, keep_or-nonempty c.hostname v)

  iface-apply_setting : is_empty c.iface ≡ false → is_empty (apply_setting c k v).iface ≡ false
  unfolding apply_setting
  iface-apply_setting h = ground (arith, keep_or-nonempty c.iface v)

  root_fs_type-apply_setting :
      is_empty c.root_fs_type ≡ false → is_empty (apply_setting c k v).root_fs_type ≡ false
  unfolding apply_setting
  root_fs_type-apply_setting h = ground (arith, keep_or-nonempty c.root_fs_type v)

  data_label-apply_setting :
      is_empty c.data_label ≡ false → is_empty (apply_setting c k v).data_label ≡ false
  unfolding apply_setting
  data_label-apply_setting h = ground (arith, keep_or-nonempty c.data_label v)

  data_fs_type-apply_setting :
      is_empty c.data_fs_type ≡ false → is_empty (apply_setting c k v).data_fs_type ≡ false
  unfolding apply_setting
  data_fs_type-apply_setting h = ground (arith, keep_or-nonempty c.data_fs_type v)

  data_dir-apply_setting :
      is_empty c.data_dir ≡ false → is_empty (apply_setting c k v).data_dir ≡ false
  unfolding apply_setting
  data_dir-apply_setting h = ground (arith, keep_or-nonempty c.data_dir v)

  path-apply_setting : is_empty c.path ≡ false → is_empty (apply_setting c k v).path ≡ false
  unfolding apply_setting
  path-apply_setting h = ground (arith, keep_or-nonempty c.path v)

  exec-apply_setting : head_named c.exec ≡ true → head_named (apply_setting c k v).exec ≡ true
  unfolding apply_setting
  exec-apply_setting h = ground arith

  apply_setting-IsBootable : IsBootable c → IsBootable (apply_setting c k v)
  apply_setting-IsBootable h = record {
    hostname = hostname-apply_setting h.hostname;
    exec = exec-apply_setting h.exec;
    iface = iface-apply_setting h.iface;
    root_fs_type = root_fs_type-apply_setting h.root_fs_type;
    data_label = data_label-apply_setting h.data_label;
    data_fs_type = data_fs_type-apply_setting h.data_fs_type;
    data_dir = data_dir-apply_setting h.data_dir;
    path = path-apply_setting h.path;
  }

apply_token-IsBootable : (c : Config) (tok : Text) → IsBootable c → IsBootable (apply_token c tok)
unfolding apply_token
apply_token-IsBootable c tok h = ground (
  arith,
  apply_setting-IsBootable c (trim_prefix (cut tok b'=').0 (codes "k0smos.")) (cut tok b'=').1 h,
)

apply_tokens-IsBootable :
    (c : Config) (toks : List Text) → IsBootable c → IsBootable (apply_tokens c toks)
unfolding apply_tokens
apply_tokens-IsBootable c [] h = h
apply_tokens-IsBootable c (t ∷ toks) h =
    apply_tokens-IsBootable (apply_token c t) toks (apply_token-IsBootable c t h)

-- Whatever the command line, the host name, the workload, the interface, both filesystem types, the
-- data label and directory and the search path are never empty.
pub parse-IsBootable : (cmdline : Text) → IsBootable (parse cmdline)
unfolding parse
parse-IsBootable cmdline =
    apply_tokens-IsBootable default_config (fields cmdline) default_config-IsBootable
