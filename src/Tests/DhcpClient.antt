-- ===== src/Tests/DhcpClient.antt =====
-- Runs of the DHCP client (internal/dhcp/client.go).
use k0smos.Base.{
  ◌*◌, ◌^◌, ℕ, zero, suc, ◌≡◌, ◌<◌, ◌⊎◌, refl, none, some, List, [], ◌∷◌, ◌++◌, arith, length,
  replicate,
}
use k0smos.Base.Text.{Text, codes, text_eq}
use k0smos.Base.Io.{Result, ok, err}
use k0smos.Dhcp.{
  Bytes, Lease, parse, lease_of, build_discover, build_request, build_renew, be32, to4, find_option,
  scan_options, slice,
}
use k0smos.Dhcp.Client.{
  Op, send, recv, sleep, World, Client, await, once, acquire, acquire_from, next_lease, renew_once,
  parse_reply, broadcast,
}
use k0smos.Dhcp.Client.Exchange.{Acknowledged, acquire-Acknowledged}
use k0smos.Dhcp.Client.Renewal.{waited, await_first, Renewed, next_lease_sound}

abbrev mac : Bytes
mac = 0x52 ∷ 0x54 ∷ 0 ∷ 0x12 ∷ 0x34 ∷ 0x56 ∷ []

-- A reply to transaction 7 with this message type, from the server 10.0.2.2.
abbrev reply : ℕ → Bytes
reply msg_type =
    2
    ∷ 1
    ∷ 6
    ∷ 0
    ∷ 0
    ∷ 0
    ∷ 0
    ∷ 7
    ∷ (replicate 8 0
        ++ (10 ∷ 0 ∷ 2 ∷ 15 ∷ [])
        ++ replicate 8 0
        ++ mac
        ++ replicate 202 0
        ++ (0x63 ∷ 0x82 ∷ 0x53 ∷ 0x63 ∷ 53 ∷ 1 ∷ msg_type ∷ 54 ∷ 4 ∷ 10 ∷ 0 ∷ 2 ∷ 2 ∷ 255 ∷ []))

abbrev client : Client
client = record { mac = mac; hostname = []; max_attempts = 0; timeout = 0 }

-- A stray packet comes in first, then the offer, then the acknowledgement.
abbrev answer_after : ℕ → Result Text Bytes
answer_after zero = err (codes "closed")
answer_after (suc zero) = ok []
answer_after (suc (suc zero)) = ok (reply 2)
answer_after (suc (suc (suc n))) = ok (reply 5)

abbrev link : World
link = record {
  fails = λ t op. none;
  receive = λ t. answer_after (length t);
  random = λ t. 7;
  context = λ t. none;
}

abbrev lease : Lease
lease = lease_of (reply 5)

abbrev calls_made : List Op
calls_made =
    send (build_discover 7 mac []) broadcast
    ∷ recv (4 * 10 ^ 9)
    ∷ recv (4 * 10 ^ 9)
    ∷ send (build_request 7 mac [] (some (10 ∷ 0 ∷ 2 ∷ 15 ∷ [])) (some (10 ∷ 0 ∷ 2 ∷ 2 ∷ [])))
        broadcast
    ∷ recv (4 * 10 ^ 9)
    ∷ []

acquires : acquire link client 3 [] ≡ some (ok lease, calls_made)
unfolding acquire acquire_from once await parse be32 to4 find_option scan_options slice text_eq
    lease_of
acquires = refl

acquire-Acknowledged_example : Acknowledged link client [] calls_made lease
acquire-Acknowledged_example = acquire-Acknowledged link client 3 [] lease calls_made acquires

stray : parse_reply link client 7 (link.receive (recv 0 ∷ [])) ≡ ok none
unfolding parse
stray = refl

offer_parsed : parse_reply link client 7 (ok (reply 2)) ≡ ok (some (lease_of (reply 2), 2))
unfolding parse be32 to4 find_option scan_options slice text_eq lease_of
offer_parsed = refl

only_stray :
    (j : ℕ)
    → j < 1
    → parse_reply link client 7 (link.receive (waited link client (recv 0 ∷ []) j)) ≡ ok none
only_stray zero l = stray
only_stray (suc j) l = absurd (omega (arith, l))

await_first_example :
    await link client 2 7 (recv 0 ∷ [])
    ≡ some (ok (lease_of (reply 2), 2), waited link client (recv 0 ∷ []) 2)
await_first_example =
    await_first link client 1 2 7 (recv 0 ∷ []) (lease_of (reply 2), 2) only_stray offer_parsed
      (omega arith)

-- Two calls before, so that the next packet is an acknowledgement.
abbrev earlier : List Op
earlier = sleep 0 ∷ sleep 0 ∷ []

abbrev renewing : List Op
renewing =
    sleep 0 ∷ sleep 0 ∷ send (build_renew 7 mac [] lease.ip) lease.server ∷ recv (4 * 10 ^ 9) ∷ []

renews : next_lease link client 1 lease earlier ≡ some (ok lease, renewing)
unfolding next_lease renew_once await parse be32 to4 find_option scan_options slice text_eq lease_of
renews = refl

next_lease_sound_example :
    Renewed link client lease.server lease earlier renewing lease
    ⊎ Renewed link client broadcast lease earlier renewing lease
    ⊎ Acknowledged link client earlier renewing lease
next_lease_sound_example = next_lease_sound link client 1 lease earlier lease renewing renews
