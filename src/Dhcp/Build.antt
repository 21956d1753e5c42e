-- ===== src/Dhcp/Build.antt =====
-- What the packets of this client say.
use k0smos.Base.{
  ℕ, zero, suc, ◌-◌, ◌%◌, ◌≤◌, ◌<◌, ◌≡◌, ◌≢◌, refl, sym, true, false, Option, none, some, List, [],
  ◌∷◌, ◌++◌, arith, leb, drop, replicate, length, length-append, length-replicate, drop-append, All,
  All-append, ap, ◌∙◌, append_assoc, append-nil,
}
use k0smos.Base.Text.{Text}
use k0smos.Dhcp.{
  Bytes, opt_end, write_at, header, address_option, hostname_option, client_options, to4, pad,
  build, find_option, scan_options,
}
use k0smos.Dhcp.Options.{Tlv, IsTlv, encode, value_of, scan-encode}

length-write_at : (p : Bytes) (off : ℕ) (src : Bytes) → length (write_at p off src) ≡ length p
unfolding write_at
length-write_at [] off src = refl
length-write_at (b ∷ p) zero [] = refl
length-write_at (b ∷ p) zero (s ∷ src) = ap suc (length-write_at p zero src)
length-write_at (b ∷ p) (suc off) src = ap suc (length-write_at p off src)

length-header : (xid : ℕ) (mac : Bytes) → length (header xid mac) ≡ 240
unfolding header
length-header xid mac = simp length-write_at (length-replicate {A = ℕ} 240 0)

abbrev pub address_tlv : ℕ → Option Bytes → List Tlv
address_tlv code none = []
address_tlv code (some ip) = (code, to4 ip) ∷ []

abbrev pub hostname_tlv : Text → List Tlv
hostname_tlv [] = []
hostname_tlv (c ∷ name) = (12, c ∷ name) ∷ []

-- What the client says: its message type, the address that it asks for, the server that it answers,
-- its host name, and the parameters that it wants.
abbrev pub said : ℕ → Text → Option Bytes → Option Bytes → List Tlv
said msg_type hostname requested server =
    (53, msg_type ∷ [])
    ∷ (address_tlv 50 requested
        ++ (address_tlv 54 server ++ (hostname_tlv hostname ++ (55, 1 ∷ 3 ∷ 6 ∷ 51 ∷ []) ∷ [])))

-- An address that is sent has an IPv4 form.
abbrev pub HasV4 : Option Bytes → Type 0
HasV4 none = Unit
HasV4 (some ip) = length (to4 ip) ≡ 4

encode-append : (l k : List Tlv) → encode (l ++ k) ≡ encode l ++ encode k
encode-append [] k = refl
encode-append ((c, v) ∷ l) k =
    ap (λ t. c ∷ length v ∷ t) (ap (λ t. v ++ t) (encode-append l k) ∙ sym (append_assoc v _ _))

encode-address :
    (code : ℕ) (a : Option Bytes) → HasV4 a → address_option code a ≡ encode (address_tlv code a)
encode-address code none h = refl
encode-address code (some ip) h = rw (h, append-nil)

encode-hostname :
    (name : Text) → length name < 256 → hostname_option name ≡ encode (hostname_tlv name)
encode-hostname [] h = refl
encode-hostname (c ∷ name) h =
    let e : length (c ∷ name) % 256 ≡ length (c ∷ name) = omega arith in rw (e, append-nil)

client_options-encode :
    (msg_type : ℕ) (hostname : Text) (requested server : Option Bytes)
    → length hostname < 256
    → HasV4 requested
    → HasV4 server
    → client_options msg_type hostname requested server
      ≡ encode (said msg_type hostname requested server) ++ opt_end ∷ []
unfolding client_options
client_options-encode msg_type hostname requested server hn hr hs =
    rw (encode-address 50 requested hr, encode-address 54 server hs, encode-hostname hostname hn)
      (simp (encode-append, append_assoc))

IsTlv-address :
    (code : ℕ) (a : Option Bytes) → code ≢ 0 → code ≢ 255 → All IsTlv (address_tlv code a)
IsTlv-address code none h k = tt
IsTlv-address code (some ip) h k = ((h, k), tt)

IsTlv-hostname : (name : Text) → All IsTlv (hostname_tlv name)
IsTlv-hostname [] = tt
IsTlv-hostname (c ∷ name) = omega arith

IsTlv-said :
    (msg_type : ℕ) (hostname : Text) (requested server : Option Bytes)
    → All IsTlv (said msg_type hostname requested server)
IsTlv-said msg_type hostname requested server = (
  omega arith,
  All-append IsTlv (address_tlv 50 requested) _
      (IsTlv-address 50 requested (omega arith) (omega arith))
      (All-append IsTlv (address_tlv 54 server) _
        (IsTlv-address 54 server (omega arith) (omega arith))
        (All-append IsTlv (hostname_tlv hostname) _ (IsTlv-hostname hostname) (omega arith))),
)

le→leb : (a b : ℕ) → a ≤ b → leb a b ≡ true
le→leb a b h = ground arith

lt→leb : (a b : ℕ) → b < a → leb a b ≡ false
lt→leb a b h = ground arith

drop_at : (n : ℕ) (xs ys : Bytes) → length xs ≡ n → drop n (xs ++ ys) ≡ ys
drop_at n xs ys h = rw (← h) (drop-append xs ys)

length-pad : (p : Bytes) → 300 ≤ length (pad p)
unfolding pad
length-pad p = omega (
  arith,
  length-append p (replicate (300 - length p) 0),
  length-replicate {A = ℕ} (300 - length p) 0,
)

scan_nothing : (code : ℕ) → scan_options 0 [] code ≡ none
unfolding scan_options
scan_nothing code = refl

find_option-behind :
    (h rest : Bytes) (code : ℕ)
    → length h ≡ 240
    → find_option (h ++ rest) code ≡ scan_options (length rest) rest code
unfolding find_option
find_option-behind h [] code hh =
    rw (le→leb (length (h ++ [])) 240 (omega (arith, length-append h []))) (sym (scan_nothing code))
find_option-behind h (r ∷ rest) code hh = rw (
  lt→leb (length (h ++ r ∷ rest)) 240 (omega (arith, length-append h (r ∷ rest))),
  drop_at 240 h (r ∷ rest) hh,
)

find_option-pad :
    (h : Bytes) (l : List Tlv) (code : ℕ)
    → length h ≡ 240
    → All IsTlv l
    → find_option (pad (h ++ (encode l ++ opt_end ∷ []))) code ≡ value_of code l
unfolding pad
find_option-pad h l code hh hl =
    let zeros = replicate {A = ℕ} (300 - length (h ++ (encode l ++ opt_end ∷ []))) 0 in
    ap (λ p. find_option p code)
      (append_assoc h (encode l ++ opt_end ∷ []) zeros
        ∙ ap (λ t. h ++ t) (append_assoc (encode l) (opt_end ∷ []) zeros))
    ∙ find_option-behind h (encode l ++ opt_end ∷ zeros) code hh
    ∙ scan-encode (length (encode l ++ opt_end ∷ zeros)) l zeros code hl (omega arith)

-- A packet that the client builds has no less than the BOOTP minimum of 300 bytes, and its options
-- read back as what the client says, and nothing else, for a host name of fewer than 256 bytes and
-- addresses that have an IPv4 form.
pub find_option-build :
    (msg_type xid : ℕ) (mac : Bytes) (hostname : Text) (requested server : Option Bytes) (code : ℕ)
    → length hostname < 256
    → HasV4 requested
    → HasV4 server
    → (300 ≤ length (build msg_type xid mac hostname requested server))
      × (find_option (build msg_type xid mac hostname requested server) code
          ≡ value_of code (said msg_type hostname requested server))
unfolding build
find_option-build msg_type xid mac hostname requested server code hn hr hs =
    rw (client_options-encode msg_type hostname requested server hn hr hs) (
      length-pad _,
      find_option-pad (header xid mac) (said msg_type hostname requested server) code
          (length-header xid mac) (IsTlv-said msg_type hostname requested server),
    )
