-- ===== src/Tests/Dhcp.antt =====
-- Runs of the DHCP packets (internal/dhcp).
use k0smos.Base.{
  ◌*◌, ◌≤◌, ◌^◌, ◌↔◌, ◌≡◌, refl, none, some, [], ◌∷◌, ◌++◌, replicate, arith, length, All,
}
use mathlib.Core.Path.{subst}
use k0smos.Base.Text.{codes, text_eq}
use k0smos.Dhcp.{
  Bytes, build, be32, to4, find_option, scan_options, slice, parse, accepted, lease_of,
}
use k0smos.Dhcp.Options.{value_of}
use k0smos.Dhcp.Build.{said, find_option-build}
use k0smos.Dhcp.Accept.{IsReply, parse-accepted, ByteOption, IsByte}

abbrev mac : Bytes
mac = 0x52 ∷ 0x54 ∷ 0 ∷ 0x12 ∷ 0x34 ∷ 0x56 ∷ []

abbrev address : Bytes
address = 10 ∷ 0 ∷ 2 ∷ 15 ∷ []

find_option-build_example :
    (300 ≤ length (build 3 7 mac (codes "n1") (some address) none))
    × (find_option (build 3 7 mac (codes "n1") (some address) none) 50
        ≡ value_of 50 (said 3 (codes "n1") (some address) none))
unfolding to4
find_option-build_example =
    find_option-build 3 7 mac (codes "n1") (some address) none 50 (omega arith) (omega arith) tt

-- An acknowledgement with a mask and a lease of an hour.
abbrev ack : Bytes
ack =
    2
    ∷ 1
    ∷ 6
    ∷ 0
    ∷ 0
    ∷ 0
    ∷ 0
    ∷ 7
    ∷ (replicate 8 0
        ++ (address
            ++ (replicate 8 0
                ++ (mac
                    ++ (replicate 202 0
                        ++ (0x63 ∷ 0x82 ∷ 0x53 ∷ 0x63 ∷ 53 ∷ 1 ∷ 5 ∷ 1 ∷ 4 ∷ 255 ∷ 255 ∷ 255 ∷ 0
                            ∷ 51 ∷ 4 ∷ 0 ∷ 0 ∷ 14 ∷ 16 ∷ 255 ∷ []))))))

accepts_ack : parse ack 7 mac ≡ accepted (lease_of ack) 5
unfolding parse be32 slice text_eq find_option scan_options
accepts_ack = refl

one_hour : (lease_of ack).lease_time ≡ 3600 * 10 ^ 9
unfolding lease_of find_option scan_options
one_hour = refl

parse-accepted_example :
    (parse ack 7 mac ≡ accepted (lease_of ack) 5) ↔ IsReply ack 7 mac (lease_of ack) 5
parse-accepted_example = parse-accepted ack 7 mac (lease_of ack) 5

hour_bytes : ByteOption ack 51
unfolding find_option scan_options
hour_bytes v e =
    let hour : Bytes = 0 ∷ 0 ∷ 14 ∷ 16 ∷ [] in
    let same : hour ≡ v = cc in subst (All IsByte) same (omega arith)
