-- ===== src/Tests/Parser.antt =====
-- A captured UDP frame, for the theorems on src/packet/parser.c.
use anti.Base.{
  ℕ, ◌≡◌, ◌≤◌, ◌<◌, ◌+◌, ◌-◌, ◌^◌, ◌⊎◌, refl, true, false, List, [], ◌∷◌, ◌++◌, none, some,
  replicate, ok, success, inl, arith,
}
use anti.Addr.{inet}
use anti.Packet.{Packet, byte_at, ntohs_at}
use anti.Packet.Reads.{IsReadable}
use anti.Packet.Parser.{parse_ethernet, parse_ip, parse_ipv4, ntohl_at, parse_udp}
use anti.Packet.Http.Claims.{packet_parse-Claimed}
use anti.Packet.Http.{Libc, packet_parse, parse_transport}
use anti.Packet.Http.Laws.{IsUdpFrame, packet_parse-IsReadable}
use anti.Tests.Bytes.{all_bytes-lt}

-- From 10.0.0.1:4000 to 10.0.0.2:80, with three bytes of payload.
abbrev pub frame : List ℕ
frame =
    replicate 12 0
    ++ (8 ∷ 0 ∷ 0x45 ∷ 0 ∷ 0 ∷ 31 ∷ 0 ∷ 0 ∷ 0 ∷ 0 ∷ 64 ∷ 17 ∷ 0 ∷ 0 ∷ 10 ∷ 0 ∷ 0 ∷ 1 ∷ 10 ∷ 0 ∷ 0
        ∷ 2 ∷ [])
    ++ (15 ∷ 160 ∷ 0 ∷ 80 ∷ 0 ∷ 11 ∷ 0 ∷ 0 ∷ 65 ∷ 66 ∷ 67 ∷ [])

abbrev pub libc : Libc
libc = record { strdup = λ t. some t; atoi = λ t. 0 }

abbrev blank : Packet
blank = record {
  bytes = [];
  len = 0;
  timestamp = 0;
  eth_header = none;
  ip_header = none;
  transport_header = none;
  payload = none;
  eth_len = 0;
  ip_len = 0;
  transport_len = 0;
  payload_len = 0;
  is_ipv4 = false;
  is_ipv6 = false;
  protocol = 0;
  src_ip = inet 0;
  dst_ip = inet 0;
  src_port = 0;
  dst_port = 0;
  tcp_flags = 0;
  tcp_seq = 0;
  tcp_ack = 0;
  is_http = false;
  http_method = none;
  http_uri = none;
  http_user_agent = none;
  http_content_length = 0;
}

abbrev pub framed : Packet
framed = record blank { bytes = frame; len = 45; timestamp = 7; eth_header = some 0; eth_len = 14 }

abbrev addressed : Packet
addressed = record framed {
  ip_header = some 14;
  is_ipv4 = true;
  protocol = 17;
  ip_len = 20;
  src_ip = inet 0x0a000001;
  dst_ip = inet 0x0a000002;
  transport_header = some 34;
  transport_len = 11;
}

abbrev pub parsed : Packet
parsed = record addressed { src_port = 4000; dst_port = 80; payload = some 42; payload_len = 3 }

ip_run : parse_ip framed ≡ ok (success, addressed)
unfolding parse_ip parse_ipv4 ntohl_at ntohs_at byte_at
ip_run = refl

udp_run : parse_udp addressed ≡ ok (success, parsed)
unfolding parse_udp ntohs_at byte_at
udp_run = refl

frame_run : packet_parse libc blank frame 45 7 ≡ ok (success, parsed)
unfolding packet_parse parse_ethernet parse_ip parse_ipv4 ntohl_at ntohs_at byte_at parse_transport
    parse_udp
frame_run = refl

frame-IsUdpFrame : IsUdpFrame frame
unfolding byte_at
frame-IsUdpFrame = record { first = 0x45; version_byte = refl; protocol = inl (refl, refl) }

packet_parse-Claimed_example :
    (parsed.payload ≡ some 42)
    × (((28 ≤ 31) × (42 + parsed.payload_len ≡ 14 + 31))
        ⊎ ((31 < 20) × (2 ^ 32 - 68 ≤ parsed.payload_len)))
unfolding ntohs_at byte_at
packet_parse-Claimed_example =
    packet_parse-Claimed libc blank parsed frame 7 0x45 31 refl refl refl refl
      (all_bytes-lt frame refl) refl (omega arith) frame_run

packet_parse-IsReadable_example : IsReadable parsed
packet_parse-IsReadable_example =
    packet_parse-IsReadable libc blank parsed frame 7 (all_bytes-lt frame refl) frame-IsUdpFrame
      refl frame_run (omega arith)
