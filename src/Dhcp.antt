-- ===== src/Dhcp.antt =====
-- internal/dhcp/dhcp.go: the packets of the DHCPv4 client.
-- A packet is a list of bytes; an address is its bytes, and a nil one is `none`.
pub mod Client
pub mod Options
pub mod Build
pub mod Accept
use k0smos.Base.{
  ℕ, zero, suc, ◌+◌, ◌-◌, ◌*◌, ◌/◌, ◌%◌, ◌^◌, Bool, true, false, not, ◌&&◌, ◌||◌, Option, none,
  some, List, [], ◌∷◌, ◌++◌, if◌then◌else◌, ltb, leb, ◌==◌, take, drop, replicate, get_or, length,
}
use k0smos.Base.Text.{Text, text_eq, has_prefix, is_empty}

abbrev pub Bytes : Type 0
Bytes = List ℕ

abbrev pub min_packet_len : ℕ
min_packet_len = 240

abbrev pub magic_cookie : ℕ
magic_cookie = 0x63825363

abbrev pub msg_discover : ℕ
msg_discover = 1

abbrev pub msg_offer : ℕ
msg_offer = 2

abbrev pub msg_request : ℕ
msg_request = 3

abbrev pub msg_ack : ℕ
msg_ack = 5

abbrev pub msg_nak : ℕ
msg_nak = 6

abbrev pub opt_end : ℕ
opt_end = 255

-- copy(p[off:], src), which stops at the end of `p`
unfoldable pub write_at : Bytes → ℕ → Bytes → Bytes
write_at [] off src = []
write_at (b ∷ p) zero [] = b ∷ p
write_at (b ∷ p) zero (s ∷ src) = s ∷ write_at p zero src
write_at (b ∷ p) (suc off) src = b ∷ write_at p off src

-- binary.BigEndian.PutUint32
unfoldable pub be32_bytes : ℕ → Bytes
be32_bytes n = (n / 16777216 % 256) ∷ (n / 65536 % 256) ∷ (n / 256 % 256) ∷ (n % 256) ∷ []

-- binary.BigEndian.Uint32(p[off:])
unfoldable pub be32 : Bytes → ℕ → ℕ
be32 p off =
    16777216 * get_or p off 0
    + 65536 * get_or p (off + 1) 0
    + 256 * get_or p (off + 2) 0
    + get_or p (off + 3) 0

unfoldable pub slice : Bytes → ℕ → ℕ → Bytes
slice p lo hi = take (hi - lo) (drop lo p)

-- (ip net.IP) To4(): the four bytes of an IPv4 address in either of its forms
unfoldable pub to4 : Bytes → Bytes
to4 ip =
    if length ip == 4
    then ip
    else if length ip == 16 && text_eq (take 12 ip) (replicate 10 0 ++ 255 ∷ 255 ∷ [])
    then drop 12 ip
    else []

-- The fixed BOOTP fields and the cookie.
unfoldable pub header : ℕ → Bytes → Bytes
unfolding write_at be32_bytes
header xid mac =
    let p0 = write_at (replicate min_packet_len 0) 0 (1 ∷ 1 ∷ (length mac % 256) ∷ []) in
    let p1 = write_at p0 4 (be32_bytes xid) in
    let p2 = write_at p1 10 (0x80 ∷ 0 ∷ []) in
    let p3 = write_at p2 28 (take 16 mac) in write_at p3 236 (be32_bytes magic_cookie)

abbrev pub address_option : ℕ → Option Bytes → Bytes
address_option code none = []
address_option code (some ip) = code ∷ 4 ∷ to4 ip

abbrev pub hostname_option : Text → Bytes
hostname_option [] = []
hostname_option (c ∷ name) = 12 ∷ (length (c ∷ name) % 256) ∷ c ∷ name

-- The options of a packet from this client, the end mark last.
unfoldable pub client_options : ℕ → Text → Option Bytes → Option Bytes → Bytes
client_options msg_type hostname requested server =
    (53 ∷ 1 ∷ msg_type ∷ [])
    ++ (address_option 50 requested
        ++ (address_option 54 server
            ++ (hostname_option hostname ++ (55 ∷ 4 ∷ 1 ∷ 3 ∷ 6 ∷ 51 ∷ opt_end ∷ []))))

-- `for len(p) < 300 { p = append(p, 0) }`
unfoldable pub pad : Bytes → Bytes
pad p = p ++ replicate (300 - length p) 0

unfoldable pub build : ℕ → ℕ → Bytes → Text → Option Bytes → Option Bytes → Bytes
build msg_type xid mac hostname requested server =
    pad (header xid mac ++ client_options msg_type hostname requested server)

unfoldable pub build_discover : ℕ → Bytes → Text → Bytes
build_discover xid mac hostname = build msg_discover xid mac hostname none none

unfoldable pub build_request : ℕ → Bytes → Text → Option Bytes → Option Bytes → Bytes
build_request xid mac hostname requested server =
    build msg_request xid mac hostname requested server

unfoldable pub build_renew : ℕ → Bytes → Text → Bytes → Bytes
build_renew xid mac hostname current =
    write_at (build msg_request xid mac hostname none none) 12 (take 4 (to4 current))

-- The loop of `findOption` over the bytes behind the fixed fields; each round reads at least one.
unfoldable pub scan_options : ℕ → Bytes → ℕ → Option Bytes
scan_options zero rest code = none
scan_options (suc fuel) [] code = none
scan_options (suc fuel) (c ∷ []) code =
    let next = scan_options fuel [] code in
    if c == opt_end then none else if c == 0 then next else none
scan_options (suc fuel) (c ∷ len ∷ rest) code =
    let padded = scan_options fuel (len ∷ rest) code in
    let next = scan_options fuel (drop len rest) code in
    if c == opt_end
    then none
    else if c == 0
    then padded
    else if ltb (length rest) len
    then none
    else if c == code
    then some (take len rest)
    else next

-- findOption(p, code)
unfoldable pub find_option : Bytes → ℕ → Option Bytes
find_option p code =
    let rest = drop min_packet_len p in
    if leb (length p) min_packet_len then none else scan_options (length rest) rest code

-- time.Second, in nanoseconds
abbrev pub second : ℕ
second = 10 ^ 9

pub record Lease : Type 0 where
  pub ip : Bytes
  pub mask : Bytes
  pub router : Bytes
  pub dns : List Bytes
  pub server : Bytes
  pub lease_time : ℕ
  pub t1 : ℕ
  pub t2 : ℕ

pub data Refusal : Type 0 where
  too_short not_reply bad_cookie other_xid other_mac no_message_type : Refusal

pub data Parsed : Type 0 where
  accepted : Lease → ℕ → Parsed
  refused : Refusal → Parsed

-- An option that must have exactly four bytes; nil if it is absent or of another length.
abbrev pub four_bytes : Option Bytes → Bytes
four_bytes none = []
four_bytes (some v) = if length v == 4 then v else []

abbrev pub first_router : Option Bytes → Bytes
first_router none = []
first_router (some v) = if leb 4 (length v) then take 4 v else []

-- Groups of four bytes; a rest of fewer is dropped.
unfoldable pub groups_of_four : Bytes → List Bytes
groups_of_four (a ∷ b ∷ c ∷ d ∷ rest) = (a ∷ b ∷ c ∷ d ∷ []) ∷ groups_of_four rest
groups_of_four _ = []

abbrev pub dns_servers : Option Bytes → List Bytes
dns_servers none = []
dns_servers (some v) = groups_of_four v

-- A time option, or the default where it is absent or malformed.
abbrev pub time_or : Option Bytes → ℕ → ℕ
time_or none default = default
time_or (some v) default = if length v == 4 then be32 v 0 * second else default

unfoldable pub lease_of : Bytes → Lease
unfolding be32
lease_of p =
    let total = time_or (find_option p 51) 0 in
    record {
      ip = slice p 16 20;
      mask = four_bytes (find_option p 1);
      router = first_router (find_option p 3);
      dns = dns_servers (find_option p 6);
      server = four_bytes (find_option p 54);
      lease_time = total;
      t1 = time_or (find_option p 58) (total / 2);
      t2 = time_or (find_option p 59) (total / 8 * 7);
    }

abbrev pub accept_type : Bytes → Option Bytes → Parsed
accept_type p none = refused no_message_type
accept_type p (some []) = refused no_message_type
accept_type p (some (t ∷ [])) = accepted (lease_of p) t
accept_type p (some (t ∷ u ∷ v)) = refused no_message_type

-- Parse(p, xid, mac)
unfoldable pub parse : Bytes → ℕ → Bytes → Parsed
parse p xid mac =
    if ltb (length p) min_packet_len
    then refused too_short
    else if not (get_or p 0 0 == 2)
    then refused not_reply
    else if not (be32 p 236 == magic_cookie)
    then refused bad_cookie
    else if not (be32 p 4 == xid)
    then refused other_xid
    else if not (text_eq (slice p 28 (28 + length mac)) mac)
    then refused other_mac
    else accept_type p (find_option p 53)
