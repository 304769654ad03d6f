-- ===== src/Packet/Http/Laws.antt =====
-- From the captured bytes to a packet that the UDP protection can read.
use anti.Base.{
  ℕ, ◌+◌, ◌*◌, ◌/◌, ◌%◌, ◌^◌, ◌≤◌, ◌<◌, ◌≡◌, ◌⊎◌, refl, ap, sym, true, List, length, some,
  get_elem?, get_elem?_of_lt, success, ok, arith, inl, inr, is_zero, Run-cases, Option-cases, ℤ,
  pos, negsuc,
}
use anti.Packet.{Packet, byte_at, ntohs_at, proto_udp}
use anti.Packet.Reads.{Readable, IsReadable}
use anti.Packet.Parser.{parse_ethernet, parse_ipv4, parse_ipv6, parse_ip, parse_udp}
use anti.Packet.Http.{Libc, parse_transport, packet_parse}

-- What a parsed UDP packet says of its parts.
record UdpParts (bytes : List ℕ) (r : Packet) : Type 0 where
  same_bytes : r.bytes ≡ bytes
  header : r.ip_header ≡ some 14
  ethernet : r.eth_len ≡ 14
  room : 34 ≤ length bytes
  body :
      (r.payload_len ≡ 0)
      ⊎ ((r.payload ≡ some (14 + r.ip_len + 8)) × (8 + r.payload_len ≡ r.transport_len))

-- The frame is a packet of the UDP protocol, over IPv4 or over IPv6.
pub record IsUdpFrame (bytes : List ℕ) : Type 0 where
  pub first : ℕ
  pub version_byte : byte_at bytes (some 14) 0 ≡ ok first
  pub protocol :
      ((first / 16 % 16 ≡ 4) × (byte_at bytes (some 14) 9 ≡ ok proto_udp))
      ⊎ ((first / 16 % 16 ≡ 6) × (byte_at bytes (some 14) 6 ≡ ok proto_udp))

-- What `parse_ip` leaves of such a frame.
record Ip (bytes : List ℕ) (ip : Packet) : Type 0 where
  same_bytes : ip.bytes ≡ bytes
  header : ip.ip_header ≡ some 14
  protocol : ip.protocol ≡ proto_udp
  transport : ip.transport_header ≡ some (14 + ip.ip_len)
  ethernet : ip.eth_len ≡ 14
  room : 34 ≤ length bytes
  empty : ip.payload_len ≡ 0
  width : ip.transport_len < 2 ^ 32

-- Cells of a buffer are bytes.
abbrev pub AllBytes : List ℕ → Type 0
AllBytes bytes = (i b : ℕ) → get_elem? bytes i ≡ some b → b < 256

byte_at-lt :
    (bytes : List ℕ) (base i : ℕ) {b : ℕ}
    → AllBytes bytes
    → byte_at bytes (some base) i ≡ ok b
    → b < 256
unfolding byte_at
byte_at-lt bytes base i {b} all e = elim (Option-cases (get_elem? bytes (base + i))) [
  | inl outside ↦ absurd (ground arith)
  | inr (c, here) ↦ let same : c ≡ b = ground arith in rw (sym same) (all (base + i) c here)
]

pub ntohs_at-lt :
    (bytes : List ℕ) (base i : ℕ) {n : ℕ}
    → AllBytes bytes
    → ntohs_at bytes (some base) i ≡ ok n
    → n < 2 ^ 16
unfolding ntohs_at
ntohs_at-lt bytes base i {n} all e = elim (Run-cases (byte_at bytes (some base) i)) [
  | inl f ↦ absurd (ground arith)
  | inr (hi, e₁) ↦ elim (Run-cases (byte_at bytes (some base) (i + 1))) [
    | inl f ↦ absurd (ground arith)
    | inr (lo, e₂) ↦
        let high = byte_at-lt bytes base i all e₁ in
        let low = byte_at-lt bytes base (i + 1) all e₂ in
        let sum : hi * 256 + lo ≡ n = ground arith in omega (arith, sum, high, low)
  ]
]

parse_ip-Ip :
    (pkt ip : Packet)
    → AllBytes pkt.bytes
    → IsUdpFrame pkt.bytes
    → pkt.len ≡ length pkt.bytes
    → pkt.eth_len ≡ 14
    → pkt.payload_len ≡ 0
    → parse_ip pkt ≡ ok (success, ip)
    → Ip pkt.bytes ip
unfolding parse_ip parse_ipv4 parse_ipv6
parse_ip-Ip pkt ip bytes f all eth empty e =
    let first : byte_at pkt.bytes (some (pkt.eth_len)) 0 ≡ ok (f.first) = rw eth (f.version_byte) in
    elim f.protocol [
      | inl (version, protocol) ↦
          let udp : byte_at pkt.bytes (some (pkt.eth_len)) 9 ≡ ok proto_udp = rw eth protocol in
          ground arith
      | inr (version, protocol) ↦
          let udp : byte_at pkt.bytes (some (pkt.eth_len)) 6 ≡ ok proto_udp = rw eth protocol in
          elim (Run-cases (ntohs_at pkt.bytes (some (pkt.eth_len)) 4)) [
            | inl f ↦ absurd (ground arith)
            | inr (plen, read) ↦
                let small = ntohs_at-lt pkt.bytes pkt.eth_len 4 bytes read in ground arith
          ]
    ]

parse_transport-UdpParts :
    (libc : Libc) (bytes : List ℕ) (ip r : Packet)
    → Ip bytes ip
    → parse_transport libc ip ≡ ok r
    → UdpParts bytes r
unfolding parse_transport parse_udp
parse_transport-UdpParts libc bytes ip r v e =
    let same = v.same_bytes in
    let header = v.header in
    let protocol = v.protocol in
    let transport = v.transport in
    let ethernet = v.ethernet in
    let room = v.room in let empty = v.empty in let width = v.width in ground arith

is_success : (z : ℤ) → is_zero z ≡ true → z ≡ success
is_success (pos n) h = ap pos (ground arith)
is_success (negsuc n) h = cc

-- The packet behind its Ethernet header.
abbrev pub framed : Packet → List ℕ → ℕ → Packet
framed pkt bytes timestamp = record pkt {
  bytes = bytes;
  len = length bytes;
  timestamp = timestamp;
  eth_header = some 0;
  eth_len = 14;
}

pub packet_parse-parts :
    (libc : Libc) (pkt r : Packet) (bytes : List ℕ) (timestamp : ℕ)
    → packet_parse libc pkt bytes (length bytes) timestamp ≡ ok (success, r)
    → (ip : Packet) × (parse_ip (framed pkt bytes timestamp) ≡ ok (success, ip))
      × (parse_transport libc ip ≡ ok r)
unfolding packet_parse parse_ethernet
packet_parse-parts libc pkt r bytes timestamp e =
    elim (Run-cases (parse_ip (framed pkt bytes timestamp))) [
      | inl faulted ↦ absurd (ground arith)
      | inr ((ret, ip), parsed) ↦ elim (Run-cases (parse_transport libc ip)) [
        | inl faulted ↦ absurd (ground arith)
        | inr (t, done) ↦
            let good : ret ≡ success = is_success ret (ground arith) in
            let same : t ≡ r = ground arith in (ip, rw good at parsed, rw same at done)
      ]
    ]

packet_parse-UdpParts :
    (libc : Libc) (pkt r : Packet) (bytes : List ℕ) (timestamp : ℕ)
    → AllBytes bytes
    → IsUdpFrame bytes
    → pkt.payload_len ≡ 0
    → packet_parse libc pkt bytes (length bytes) timestamp ≡ ok (success, r)
    → UdpParts bytes r
packet_parse-UdpParts libc pkt r bytes timestamp all f empty e =
    let (ip, parsed, done) = packet_parse-parts libc pkt r bytes timestamp e in
    parse_transport-UdpParts libc bytes ip r
      (parse_ip-Ip (framed pkt bytes timestamp) ip all f refl refl empty parsed) done

Readable-of_length :
    (bytes : List ℕ) (base n : ℕ)
    → AllBytes bytes
    → base + n ≤ length bytes
    → Readable bytes (some base) n
unfolding byte_at
Readable-of_length bytes base n all le = λ i lt.
    let (b, e) = get_elem?_of_lt bytes (base + i) (omega arith) in (b, rw e, all (base + i) b e)

-- A captured UDP frame, over IPv4 or IPv6, whose headers do not claim more bytes than were captured is
-- readable for the detectors once it has been parsed.
pub packet_parse-IsReadable :
    (libc : Libc) (pkt r : Packet) (bytes : List ℕ) (timestamp : ℕ)
    → AllBytes bytes
    → IsUdpFrame bytes
    → pkt.payload_len ≡ 0
    → packet_parse libc pkt bytes (length bytes) timestamp ≡ ok (success, r)
    → r.eth_len + r.ip_len + r.transport_len ≤ length bytes
    → IsReadable r
packet_parse-IsReadable libc pkt r bytes timestamp all f empty e claim =
    let v = packet_parse-UdpParts libc pkt r bytes timestamp all f empty e in
    rw (v.same_bytes, v.header)
      (record {
        header = Readable-of_length bytes 14 20 all v.room;
        body = elim v.body [
          | inl none_left ↦ λ i lt. absurd (omega (arith, none_left))
          | inr (start, ends) ↦ rw start (
              Readable-of_length bytes (14 + r.ip_len + 8) r.payload_len all
                (omega (arith, ends, v.ethernet)))
        ];
      })
