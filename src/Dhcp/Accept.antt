-- ===== src/Dhcp/Accept.antt =====
-- What a reply must be to be accepted, and the times of a lease.
use k0smos.Base.{
  ℕ, ◌+◌, ◌≤◌, ◌<◌, ◌^◌, ◌≡◌, ◌↔◌, refl, Option, none, some, [], ◌∷◌, arith, get_or, length, All,
}
use k0smos.Base.Text.Laws.{text_eq_iff}
use k0smos.Dhcp.{
  Bytes, Lease, accepted, min_packet_len, magic_cookie, be32, slice, find_option, lease_of,
  accept_type, parse, time_or,
}

-- What a well-formed reply to a transaction of this client is.
pub record IsReply (p : Bytes) (xid : ℕ) (mac : Bytes) (l : Lease) (msg_type : ℕ) : Type 0 where
  pub long_enough : min_packet_len ≤ length p
  pub reply : get_or p 0 0 ≡ 2
  pub cookie : be32 p 236 ≡ magic_cookie
  pub ours : be32 p 4 ≡ xid
  pub to_us : slice p 28 (28 + length mac) ≡ mac
  pub typed : find_option p 53 ≡ some (msg_type ∷ [])
  pub lease : l ≡ lease_of p

accept_type_sound :
    (p : Bytes) (o : Option Bytes) (l : Lease) (t : ℕ)
    → accept_type p o ≡ accepted l t
    → (o ≡ some (t ∷ [])) × (l ≡ lease_of p)
accept_type_sound p none l t h = cc
accept_type_sound p (some []) l t h = cc
accept_type_sound p (some (x ∷ [])) l t h = (cc, cc)
accept_type_sound p (some (x ∷ y ∷ v)) l t h = cc

-- A packet is accepted exactly if it is a BOOTP reply of full length with the cookie, to this
-- transaction and this MAC, with a message type option of one byte; the type and the lease are then
-- those that its options give.
pub parse-accepted :
    (p : Bytes) (xid : ℕ) (mac : Bytes) (l : Lease) (t : ℕ)
    → (parse p xid mac ≡ accepted l t) ↔ IsReply p xid mac l t
unfolding parse
parse-accepted p xid mac l t = (
  λ h. ground (
    arith,
    accept_type_sound p (find_option p 53) l t,
    text_eq_iff (slice p 28 (28 + length mac)) mac,
  ),
  λ r. ground (arith, text_eq_iff (slice p 28 (28 + length mac)) mac),
)

abbrev pub IsByte : ℕ → Type 0
IsByte b = b < 256

be32_bound : (v : Bytes) → All IsByte v → length v ≡ 4 → be32 v 0 < 2 ^ 32
unfolding be32
be32_bound [] h e = absurd (omega arith)
be32_bound (a ∷ []) h e = absurd (omega arith)
be32_bound (a ∷ b ∷ []) h e = absurd (omega arith)
be32_bound (a ∷ b ∷ c ∷ []) h e = absurd (omega arith)
be32_bound (a ∷ b ∷ c ∷ d ∷ []) h e = omega arith
be32_bound (a ∷ b ∷ c ∷ d ∷ x ∷ v) h e = absurd (omega arith)

-- A time that an option gives fits in a `time.Duration`: seconds below 2 ^ 32 are nanoseconds below
-- 2 ^ 63.
time_or_bound :
    (o : Option Bytes) (default : ℕ)
    → ((v : Bytes) → o ≡ some v → All IsByte v)
    → default < 2 ^ 63
    → time_or o default < 2 ^ 63
time_or_bound none default h hd = hd
time_or_bound (some v) default h hd = ground (arith, be32_bound v (h v refl))

abbrev pub ByteOption : Bytes → ℕ → Type 0
ByteOption p code = (v : Bytes) → find_option p code ≡ some v → All IsByte v

-- For a packet of bytes, no time of the lease overflows a `time.Duration`.
pub lease_times :
    (p : Bytes)
    → ByteOption p 51
    → ByteOption p 58
    → ByteOption p 59
    → ((lease_of p).lease_time < 2 ^ 63) × ((lease_of p).t1 < 2 ^ 63) × ((lease_of p).t2 < 2 ^ 63)
unfolding lease_of
lease_times p h51 h58 h59 =
    let total : time_or (find_option p 51) 0 < 2 ^ 63 =
      time_or_bound (find_option p 51) 0 h51 (omega arith) in
    (
      total,
      time_or_bound (find_option p 58) _ h58 (omega arith),
      time_or_bound (find_option p 59) _ h59 (omega arith),
    )
