-- ===== src/Packet/Http/Claims.antt =====
-- What the headers of a frame make of the bounds of its payload.
use anti.Base.{
  ℕ, ◌+◌, ◌-◌, ◌*◌, ◌/◌, ◌%◌, ◌^◌, ◌≤◌, ◌<◌, ◌≡◌, ◌⊎◌, refl, List, length, some, success, ok, arith,
}
use anti.Packet.{Packet, byte_at, ntohs_at, proto_udp}
use anti.Packet.Parser.{parse_ipv4, parse_ip, parse_udp}
use anti.Packet.Http.{Libc, parse_transport, packet_parse}
use anti.Packet.Http.Laws.{AllBytes, ntohs_at-lt, framed, packet_parse-parts}

-- What `parse_ip` takes from the two lengths of an IPv4 header.
record Spans (first tot_len : ℕ) (ip : Packet) : Type 0 where
  protocol : ip.protocol ≡ proto_udp
  header : ip.ip_len ≡ 4 * (first % 16)
  transport : ip.transport_header ≡ some (14 + ip.ip_len)
  rest :
      ((ip.ip_len ≤ tot_len) × (ip.transport_len + ip.ip_len ≡ tot_len))
      ⊎ ((tot_len < ip.ip_len) × (2 ^ 32 - 60 ≤ ip.transport_len))
  width : ip.transport_len < 2 ^ 32
  empty : ip.payload_len ≡ 0

parse_ip-Spans :
    (pkt ip : Packet) (first tot_len : ℕ)
    → first / 16 % 16 ≡ 4
    → byte_at pkt.bytes (some (pkt.eth_len)) 0 ≡ ok first
    → byte_at pkt.bytes (some (pkt.eth_len)) 9 ≡ ok proto_udp
    → ntohs_at pkt.bytes (some (pkt.eth_len)) 2 ≡ ok tot_len
    → tot_len < 2 ^ 16
    → pkt.eth_len ≡ 14
    → pkt.payload_len ≡ 0
    → parse_ip pkt ≡ ok (success, ip)
    → Spans first tot_len ip
unfolding parse_ip parse_ipv4
parse_ip-Spans pkt ip first tot_len version b p t small eth empty e = ground arith

parse_transport-Spans :
    (libc : Libc) (first tot_len : ℕ) (ip r : Packet)
    → Spans first tot_len ip
    → 0 < r.payload_len
    → parse_transport libc ip ≡ ok r
    → (r.payload ≡ some (14 + ip.ip_len + 8)) × (8 + r.payload_len ≡ ip.transport_len)
unfolding parse_transport parse_udp
parse_transport-Spans libc first tot_len ip r s some_left e =
    let protocol = s.protocol in
    let width = s.width in
    let transport = s.transport in let empty = s.empty in let rest = s.rest in ground arith

-- A captured UDP frame over IPv4 that is parsed and has a payload: the payload begins behind an IP header
-- of four times its IHL bytes and the eight bytes of UDP, and ends where the total length of the IP
-- header says, however many bytes were captured; or, where the total length is smaller than the IP header,
-- its length is a number near 2 ^ 32.
pub packet_parse-Claimed :
    (libc : Libc) (pkt r : Packet) (bytes : List ℕ) (timestamp first tot_len : ℕ)
    → first / 16 % 16 ≡ 4
    → byte_at bytes (some 14) 0 ≡ ok first
    → byte_at bytes (some 14) 9 ≡ ok proto_udp
    → ntohs_at bytes (some 14) 2 ≡ ok tot_len
    → AllBytes bytes
    → pkt.payload_len ≡ 0
    → 0 < r.payload_len
    → packet_parse libc pkt bytes (length bytes) timestamp ≡ ok (success, r)
    → (r.payload ≡ some (14 + 4 * (first % 16) + 8))
      × (((4 * (first % 16) + 8 ≤ tot_len)
            × (14 + 4 * (first % 16) + 8 + r.payload_len ≡ 14 + tot_len))
          ⊎ ((tot_len < 4 * (first % 16)) × (2 ^ 32 - 68 ≤ r.payload_len)))
packet_parse-Claimed libc pkt r bytes timestamp first tot_len version b p t all empty some_left e =
    let (ip, parsed, done) = packet_parse-parts libc pkt r bytes timestamp e in
    let small = ntohs_at-lt bytes 14 2 all t in
    let s =
      parse_ip-Spans (framed pkt bytes timestamp) ip first tot_len version b p t small refl empty
        parsed in
    let (start, ends) = parse_transport-Spans libc first tot_len ip r s some_left done in
    let header = s.header in let rest = s.rest in ground arith
