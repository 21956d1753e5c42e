-- ===== src/Tests/Config.antt =====
-- Runs of the command line parser (internal/config).
use k0smos.Base.{◌≡◌, refl, Bool, false, Option, none, some, List, [], ◌∷◌, ◌++◌, All, arith, map}
use k0smos.Base.Text.{
  Text, codes, text_eq, cut, has_prefix, trim_prefix, split, fields, is_empty, contains, join,
}
use k0smos.Config.{
  Config, Nic, default_config, apply_setting, apply_token, apply_tokens, parse, nic_of, nics_of,
  nics,
}
use k0smos.Config.Settings.{setting, parse-append-setting, IsBootable, parse-IsBootable}
use k0smos.Config.Nics.{nic_for, nics-list_setting}

abbrev cmdline : Text
cmdline =
    codes
      "quiet k0smos.exec=/bin/k0s,worker k0smos.ip=eth0:dhcp,eth1:10.10.0.11/24 k0smos.iface=eth1"

parse_exec : (parse cmdline).exec ≡ codes "/bin/k0s" ∷ codes "worker" ∷ []
unfolding parse default_config apply_tokens apply_token apply_setting fields cut has_prefix
    trim_prefix split text_eq
parse_exec = refl

nics_two : map (λ (n : Nic). n.name) (nics (parse cmdline)) ≡ codes "eth0" ∷ codes "eth1" ∷ []
unfolding parse nics nics_of nic_of contains default_config apply_tokens apply_token apply_setting
    fields cut has_prefix trim_prefix split text_eq
nics_two = refl

parse-append-setting_example :
    parse (cmdline ++ 32 ∷ setting (codes "hostname") (codes "n1"))
    ≡ apply_setting (parse cmdline) (codes "hostname") (codes "n1")
unfolding k0smos.Base.Text.is_space
parse-append-setting_example =
    parse-append-setting cmdline (codes "hostname") (codes "n1") (omega arith) (ground arith)

parse-IsBootable_example : IsBootable (parse cmdline)
parse-IsBootable_example = parse-IsBootable cmdline

abbrev two_homed : Config
two_homed = record (parse cmdline) {
  ip = codes "eth0:dhcp,eth1:10.0.0.2/24";
  iface = codes "eth1";
  gateway = codes "10.0.0.1";
}

abbrev eth0 : Text × Text
eth0 = (codes "eth0", codes "dhcp")

abbrev eth1 : Text × Text
eth1 = (codes "eth1", codes "10.0.0.2/24")

nics-list_setting_example : nics two_homed ≡ map (nic_for two_homed) (eth0 ∷ eth1 ∷ [])
unfolding join contains has_prefix
nics-list_setting_example = nics-list_setting two_homed eth0 (eth1 ∷ []) refl refl (ground arith)
