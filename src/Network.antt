-- ===== src/Network.antt =====
-- internal/net/net.go: the loopback, and the static configuration of an interface.
-- net.ParseCIDR and net.ParseIP are parameters; an address is its bytes, four for IPv4 in the form
-- of To4.
pub mod Order
use k0smos.Base.{ℕ, Option, none, some, List, [], ◌∷◌, ◌++◌, if◌then◌else◌}
use k0smos.Base.Text.{Text, codes, is_empty}
use k0smos.Base.Io.{Result, ok, err, Env, Io, pure, raise, attempt, ◌>>=◌, ◌>>◌}

abbrev pub Address : Type 0
Address = List ℕ

pub data Op : Type 0 where
  link_up : Text → Op
  set_addr : Text → Address → Address → Op
  add_default_route : Address → Op

pub data Failure : Type 0 where
  loopback_failed : Text → Failure
  bad_address : Text → Text → Failure
  not_ipv4 : Text → Failure
  address_failed : Text → Text → Text → Failure
  link_failed : Text → Text → Failure
  bad_gateway : Text → Failure
  route_failed : Text → Text → Failure

-- What package net makes of a text: an address with its mask, and the IPv4 form of an address.
pub record Parsers : Type 0 where
  pub parse_cidr : Text → Result Text (Address × Address)
  pub parse_ip : Text → Option Address
  pub to4 : Address → Option Address

abbrev pub and_to4 : Parsers → Option Address → Option Address
and_to4 p none = none
and_to4 p (some ip) = p.to4 ip

module _ (fails : Env Op Text) where
  -- Up(l)
  unfoldable pub up : Io Op Failure Unit
  up = attempt fails (link_up (codes "lo")) loopback_failed

  abbrev pub add_route : Text → Option Address → Io Op Failure Unit
  add_route gw none = raise (bad_gateway gw)
  add_route gw (some ip) = attempt fails (add_default_route ip) (route_failed gw)

  -- The gateway is looked at only once the link is up.
  abbrev pub route_via : Parsers → Text → Io Op Failure Unit
  route_via p gw = if is_empty gw then pure tt else add_route gw (and_to4 p (p.parse_ip gw))

  abbrev pub with_ip : Parsers → Text → Text → Text → Address → Option Address → Io Op Failure Unit
  with_ip p iface cidr gw mask none = raise (not_ipv4 cidr)
  with_ip p iface cidr gw mask (some ip) =
      attempt fails (set_addr iface ip mask) (address_failed iface cidr)
      >> attempt fails (link_up iface) (link_failed iface)
      >> route_via p gw

  abbrev pub with_cidr :
      Parsers → Text → Text → Text → Result Text (Address × Address) → Io Op Failure Unit
  with_cidr p iface cidr gw (err e) = raise (bad_address cidr e)
  with_cidr p iface cidr gw (ok (ip, mask)) = with_ip p iface cidr gw mask (p.to4 ip)

  -- Configure(c, iface, cidr, gw)
  unfoldable pub configure : Parsers → Text → Text → Text → Io Op Failure Unit
  configure p iface cidr gw = with_cidr p iface cidr gw (p.parse_cidr cidr)
