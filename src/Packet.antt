-- ===== src/Packet.antt =====
-- `packet_t` of include/common.h and the filters of src/packet/capture.c. The captured bytes are
-- a list, and a pointer into them is an offset; `none` is NULL. A read outside them is a fault.
pub mod Reads
pub mod Parser
pub mod Http
use anti.Base.{
  ℕ, zero, suc, ◌+◌, ◌*◌, ◌≡◌, ◌<◌, bit_and, Bool, true, false, not, ◌||◌, List, [], ◌∷◌, Option,
  ltb, ◌==◌, if◌then◌else◌, get_elem?, u32, sub32, Run, ok, ◌>>=◌, deref,
}
use anti.Addr.{IpAddr}

pub record Packet : Type 0 where
  pub bytes : List ℕ
  pub len : ℕ
  pub timestamp : ℕ
  pub eth_header : Option ℕ
  pub ip_header : Option ℕ
  pub transport_header : Option ℕ
  pub payload : Option ℕ
  pub eth_len : ℕ
  pub ip_len : ℕ
  pub transport_len : ℕ
  pub payload_len : ℕ
  pub is_ipv4 : Bool
  pub is_ipv6 : Bool
  pub protocol : ℕ
  pub src_ip : IpAddr
  pub dst_ip : IpAddr
  pub src_port : ℕ
  pub dst_port : ℕ
  pub tcp_flags : ℕ
  pub tcp_seq : ℕ
  pub tcp_ack : ℕ
  pub is_http : Bool
  pub http_method : Option (List ℕ)
  pub http_uri : Option (List ℕ)
  pub http_user_agent : Option (List ℕ)
  pub http_content_length : ℕ

abbrev pub proto_icmp : ℕ
proto_icmp = 1

abbrev pub proto_tcp : ℕ
proto_tcp = 6

abbrev pub proto_udp : ℕ
proto_udp = 17

-- `base[i]` through a pointer.
unfoldable pub byte_at : List ℕ → Option ℕ → ℕ → Run ℕ
byte_at bytes base i = do o ← deref base; deref (get_elem? bytes (o + i))

-- `ntohs` of the two bytes from `base + i`.
unfoldable pub ntohs_at : List ℕ → Option ℕ → ℕ → Run ℕ
unfolding byte_at
ntohs_at bytes base i = do
  hi ← byte_at bytes base i
  lo ← byte_at bytes base (i + 1)
  ok (hi * 256 + lo)

-- The `n` bytes from `base + i`, as `memcmp` reads them.
unfoldable pub bytes_at : List ℕ → Option ℕ → ℕ → ℕ → Run (List ℕ)
unfolding byte_at
bytes_at bytes base i zero = ok []
bytes_at bytes base i (suc n) = do
  b ← byte_at bytes base i
  bs ← bytes_at bytes base (i + 1) n
  ok (b ∷ bs)

-- The sizes of `struct ethhdr` and `struct iphdr`.
abbrev pub ethhdr_size : ℕ
ethhdr_size = 14

abbrev pub iphdr_size : ℕ
iphdr_size = 20

unfoldable pub packet_is_fragment : Packet → Run Bool
unfolding ntohs_at
packet_is_fragment pkt = elim pkt.ip_header [
  | Option.none ↦ ok false
  | Option.some h ↦
      let frag_off = ntohs_at pkt.bytes pkt.ip_header 6 in
      let test : ℕ → Run Bool =
        λ off. ok (not (bit_and off 0x1fff == 0) || not (bit_and off 0x2000 == 0)) in
      if pkt.is_ipv4 then frag_off >>= test else ok false
]

unfoldable pub packet_is_malformed : Packet → Run Bool
unfolding ntohs_at
packet_is_malformed pkt =
    let check : ℕ → Run Bool = λ tot_len.
      ok (if ltb tot_len iphdr_size then true else ltb (sub32 pkt.len pkt.eth_len) tot_len) in
    if ltb pkt.len ethhdr_size
    then ok true
    else if pkt.is_ipv4
    then (if ltb pkt.ip_len iphdr_size
        then ok true
        else (ntohs_at pkt.bytes pkt.ip_header 2 >>= check))
    else ok false
