-- ===== src/Config.antt =====
-- internal/config/config.go: the knobs of the kernel command line and the interfaces they name.
-- A slice is a list; `Modules` is nil, empty or a list, so it is an `Option` of a list.
pub mod Settings
pub mod Nics
use k0smos.Base.{
  ℕ, ◌≡◌, Bool, true, false, not, ◌&&◌, ◌||◌, Option, none, some, List, [], ◌∷◌, if◌then◌else◌,
}
use k0smos.Base.Text.{
  Text, codes, text_eq, is_empty, has_prefix, trim_prefix, cut, split, fields, contains,
}

pub record Config : Type 0 where
  pub hostname : Text
  pub exec : List Text
  pub modules : Option (List Text)
  pub iface : Text
  pub ip : Text
  pub gateway : Text
  pub dns : Text
  pub root : Text
  pub root_fs_type : Text
  pub root_flags : Text
  pub data_volume : Text
  pub data_label : Text
  pub data_fs_type : Text
  pub data_dir : Text
  pub path : Text

abbrev pub default_exec : List Text
default_exec = codes "/usr/local/bin/k0s" ∷ codes "controller" ∷ codes "--single" ∷ []

abbrev pub default_path : Text
default_path = codes "/var/lib/k0s/bin:/usr/local/bin:/usr/local/sbin:/usr/bin:/usr/sbin:/bin:/sbin"

unfoldable pub default_config : Config
default_config = record {
  hostname = codes "k0smos";
  exec = default_exec;
  modules = none;
  iface = codes "eth0";
  ip = [];
  gateway = [];
  dns = [];
  root = [];
  root_fs_type = codes "ext4";
  root_flags = [];
  data_volume = [];
  data_label = codes "k0smos-data";
  data_fs_type = codes "ext4";
  data_dir = codes "/var";
  path = default_path;
}

-- parts[0] != ""; `strings.Split` always returns a part
abbrev pub head_named : List Text → Bool
head_named [] = false
head_named (p ∷ ps) = not (is_empty p)

-- `if v != "" { field = v }`
abbrev pub keep_or : Text → Text → Text
keep_or old [] = old
keep_or old (c ∷ v) = c ∷ v

-- The switch on the key behind "k0smos.".
unfoldable pub apply_setting : Config → Text → Text → Config
apply_setting c k v =
    if text_eq k (codes "hostname")
    then record c { hostname = keep_or c.hostname v }
    else if text_eq k (codes "exec")
    then (let parts = split v b',' in if head_named parts then record c { exec = parts } else c)
    else if text_eq k (codes "path")
    then record c { path = keep_or c.path v }
    else if text_eq k (codes "root")
    then record c { root = v }
    else if text_eq k (codes "rootfstype")
    then record c { root_fs_type = keep_or c.root_fs_type v }
    else if text_eq k (codes "rootflags")
    then record c { root_flags = v }
    else if text_eq k (codes "data")
    then record c { data_volume = v }
    else if text_eq k (codes "datalabel")
    then record c { data_label = keep_or c.data_label v }
    else if text_eq k (codes "datafstype")
    then record c { data_fs_type = keep_or c.data_fs_type v }
    else if text_eq k (codes "datadir")
    then record c { data_dir = keep_or c.data_dir v }
    else if text_eq k (codes "iface")
    then record c { iface = keep_or c.iface v }
    else if text_eq k (codes "ip")
    then record c { ip = v }
    else if text_eq k (codes "gw")
    then record c { gateway = v }
    else if text_eq k (codes "dns")
    then record c { dns = v }
    else if text_eq k (codes "modules")
    then (if text_eq v (codes "none")
        then record c { modules = some [] }
        else (let parts = split v b',' in
            if head_named parts then record c { modules = some parts } else c))
    else c

-- One round of the loop over the fields of the command line.
unfoldable pub apply_token : Config → Text → Config
apply_token c tok =
    let (k, v, ok) = cut tok b'=' in
    if not ok || not (has_prefix k (codes "k0smos."))
    then c
    else apply_setting c (trim_prefix k (codes "k0smos.")) v

unfoldable pub apply_tokens : Config → List Text → Config
apply_tokens c [] = c
apply_tokens c (tok ∷ toks) = apply_tokens (apply_token c tok) toks

unfoldable pub parse : Text → Config
parse cmdline = apply_tokens default_config (fields cmdline)

pub record Nic : Type 0 where
  pub name : Text
  pub addr : Text
  pub gateway : Text

-- (n NIC) DHCP()
unfoldable pub is_dhcp : Nic → Bool
is_dhcp n = text_eq n.addr (codes "dhcp")

-- One entry of the per-interface list; `none` is a malformed entry, which is skipped.
unfoldable pub nic_of : Config → Text → Option Nic
nic_of c spec =
    let (name, addr, ok) = cut spec b':' in
    if not ok || is_empty name || is_empty addr
    then none
    else some (record {
      name = name;
      addr = addr;
      gateway = if text_eq name c.iface then c.gateway else [];
    })

unfoldable pub nics_of : Config → List Text → List Nic
nics_of c [] = []
nics_of c (spec ∷ specs) =
    let rest = nics_of c specs in elim (nic_of c spec) [ none ↦ rest | some nic ↦ nic ∷ rest ]

-- (c Config) NICs()
unfoldable pub nics : Config → List Nic
nics c =
    if is_empty c.ip
    then []
    else if not (contains c.ip (codes ":")) || contains c.ip (codes "::")
    then record { name = c.iface; addr = c.ip; gateway = c.gateway } ∷ []
    else nics_of c (split c.ip b',')
