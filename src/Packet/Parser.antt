-- ===== src/Packet/Parser.antt =====
-- src/packet/parser.c, but for HTTP: the headers of a captured frame. The captured bytes are
-- `bytes`; the C code trusts the lengths in the headers, so a read past them is a fault here.
use anti.Base.{
  ℕ, ◌+◌, ◌*◌, ◌/◌, ◌%◌, ◌^◌, true, false, List, Option, some, ltb, ◌==◌, if◌then◌else◌, sub32, ℤ,
  success, failure, Run, ok, deref, ◌>>=◌,
}
use anti.Addr.{inet, inet6}
use anti.Packet.{Packet, byte_at, ntohs_at, bytes_at, ethhdr_size, iphdr_size}

abbrev pub Parsed : Type 0
Parsed = ℤ × Packet

unfoldable pub parse_ethernet : Packet → Parsed
parse_ethernet pkt =
    if ltb pkt.len ethhdr_size
    then (failure, pkt)
    else (success, record pkt { eth_header = some 0; eth_len = ethhdr_size })

-- `ntohl` of the four bytes from `base + i`.
unfoldable pub ntohl_at : List ℕ → Option ℕ → ℕ → Run ℕ
ntohl_at bytes base i = do
  hi ← ntohs_at bytes base i
  lo ← ntohs_at bytes base (i + 2)
  ok (hi * 2 ^ 16 + lo)

abbrev pub ip6_hdr_size : ℕ
ip6_hdr_size = 40

-- The branch of version 4, with `ip` the offset of the header.
unfoldable pub parse_ipv4 : Packet → ℕ → Run Parsed
unfolding ntohl_at
parse_ipv4 pkt ip = do
  protocol ← byte_at pkt.bytes (some ip) 9
  ihl ← byte_at pkt.bytes (some ip) 0
  let ip_len = ihl % 16 * 4
  saddr ← ntohl_at pkt.bytes (some ip) 12
  daddr ← ntohl_at pkt.bytes (some ip) 16
  tot_len ← ntohs_at pkt.bytes (some ip) 2
  ok (
    success,
    record pkt {
      ip_header = some ip;
      is_ipv4 = true;
      is_ipv6 = false;
      protocol = protocol;
      ip_len = ip_len;
      src_ip = inet saddr;
      dst_ip = inet daddr;
      transport_header = some (ip + ip_len);
      transport_len = sub32 tot_len ip_len;
    },
  )

-- The branch of version 6.
unfoldable pub parse_ipv6 : Packet → ℕ → Run Parsed
parse_ipv6 pkt ip = do
  protocol ← byte_at pkt.bytes (some ip) 6
  saddr ← bytes_at pkt.bytes (some ip) 8 16
  daddr ← bytes_at pkt.bytes (some ip) 24 16
  plen ← ntohs_at pkt.bytes (some ip) 4
  ok (
    success,
    record pkt {
      ip_header = some ip;
      is_ipv4 = false;
      is_ipv6 = true;
      protocol = protocol;
      ip_len = ip6_hdr_size;
      src_ip = inet6 saddr;
      dst_ip = inet6 daddr;
      transport_header = some (ip + ip6_hdr_size);
      transport_len = plen;
    },
  )

unfoldable pub parse_ip : Packet → Run Parsed
parse_ip pkt =
    let ip = pkt.eth_len in
    if ltb pkt.len (pkt.eth_len + iphdr_size) then ok (failure, pkt) else (do
      first ← byte_at pkt.bytes (some ip) 0
      let version = first / 16 % 16
      if version == 4
          then parse_ipv4 pkt ip
          else if version == 6
          then parse_ipv6 pkt ip
          else ok (failure, record pkt { ip_header = some ip }))

abbrev pub tcphdr_size : ℕ
tcphdr_size = 20

abbrev pub udphdr_size : ℕ
udphdr_size = 8

abbrev pub icmphdr_size : ℕ
icmphdr_size = 8

-- The six flags keep their bits; the two above them are not read.
unfoldable pub parse_tcp : Packet → Run Parsed
unfolding ntohl_at
parse_tcp pkt = if ltb pkt.transport_len tcphdr_size then ok (failure, pkt) else (do
  let tcp = pkt.transport_header
  source ← ntohs_at pkt.bytes tcp 0
  dest ← ntohs_at pkt.bytes tcp 2
  seq ← ntohl_at pkt.bytes tcp 4
  ack_seq ← ntohl_at pkt.bytes tcp 8
  flags ← byte_at pkt.bytes tcp 13
  offset ← byte_at pkt.bytes tcp 12
  base ← deref tcp
  let tcp_header_len = offset / 16 * 4
  let read : Packet = record pkt {
    src_port = source;
    dst_port = dest;
    tcp_seq = seq;
    tcp_ack = ack_seq;
    tcp_flags = flags % 64;
  }
  if ltb pkt.transport_len tcp_header_len
      then ok (failure, read)
      else ok (
        success,
        record read {
          payload = some (base + tcp_header_len);
          payload_len = sub32 pkt.transport_len tcp_header_len;
        },
      ))

unfoldable pub parse_udp : Packet → Run Parsed
parse_udp pkt = if ltb pkt.transport_len udphdr_size then ok (failure, pkt) else (do
  source ← ntohs_at pkt.bytes pkt.transport_header 0
  dest ← ntohs_at pkt.bytes pkt.transport_header 2
  base ← deref (pkt.transport_header)
  ok (
    success,
    record pkt {
      src_port = source;
      dst_port = dest;
      payload = some (base + udphdr_size);
      payload_len = sub32 pkt.transport_len udphdr_size;
    },
  ))

-- The ports are the type and the code.
unfoldable pub parse_icmp : Packet → Run Parsed
parse_icmp pkt = if ltb pkt.transport_len icmphdr_size then ok (failure, pkt) else (do
  kind ← byte_at pkt.bytes pkt.transport_header 0
  code ← byte_at pkt.bytes pkt.transport_header 1
  base ← deref (pkt.transport_header)
  ok (
    success,
    record pkt {
      src_port = kind;
      dst_port = code;
      payload = some (base + icmphdr_size);
      payload_len = sub32 pkt.transport_len icmphdr_size;
    },
  ))
