-- ===== src/Addr/Text.antt =====
-- The text of addresses, of src/core/logger.c, and the names of the attacks of include/common.h. The C
-- library's `inet_pton` and `inet_ntop` are parameters: what they read and write. A text is the list
-- of its bytes up to the NUL.
use Prim.Native.Char.{code}
use Prim.Native.String.{String}
use anti.Base.{ℕ, List, [], ◌∷◌, Option, none, some, Run}
use anti.Addr.{IpAddr, inet, inet6}
use anti.Types.{
  Attack, attack_none, udp_flood, udp_fragmentation, dns_amplification, ntp_amplification,
  ssdp_reflection, memcached_amplification, tcp_syn_flood, tcp_ack_flood, tcp_rst_flood,
  tcp_fin_flood, tcp_psh_ack_flood, slowloris, sockstress, icmp_flood, icmp_fragmentation,
  ping_of_death, smurf, http_get_flood, http_post_flood, slow_post, http_header_anomaly,
}

-- The bytes of a literal.
abbrev pub ascii : String → List ℕ
ascii String.[] = []
ascii (String.◌∷◌ c s) = code c ∷ ascii s

-- `inet_pton` for AF_INET and AF_INET6, where it returns 1, and `inet_ntop` into a buffer that has
-- room for every address. `unended` is what the two families make of a buffer that these bytes fill up
-- to its last one, which nothing has set: a fault where `inet_pton` reads that one.
pub record Inet : Type 0 where
  pub pton4 : List ℕ → Option ℕ
  pub pton6 : List ℕ → Option (List ℕ)
  pub ntop : IpAddr → List ℕ
  pub unended : List ℕ → Run (Option IpAddr)

module _ (net : Inet) where
  -- The text that `buf` holds afterwards.
  unfoldable pub ip_addr_to_string : IpAddr → List ℕ
  ip_addr_to_string ip = net.ntop ip

  -- `none` is the result -1.
  unfoldable pub string_to_ip_addr : List ℕ → Option IpAddr
  string_to_ip_addr text = elim (net.pton4 text) [
    | Option.some a ↦ some (inet a)
    | Option.none ↦ elim (net.pton6 text) [
      | Option.some bytes ↦ some (inet6 bytes)
      | Option.none ↦ none
    ]
  ]

unfoldable pub attack_type_to_string : Attack → String
attack_type_to_string attack_none = "None"
attack_type_to_string udp_flood = "UDP Flood"
attack_type_to_string udp_fragmentation = "UDP Fragmentation"
attack_type_to_string dns_amplification = "DNS Amplification"
attack_type_to_string ntp_amplification = "NTP Amplification"
attack_type_to_string ssdp_reflection = "SSDP Reflection"
attack_type_to_string memcached_amplification = "Memcached Amplification"
attack_type_to_string tcp_syn_flood = "TCP SYN Flood"
attack_type_to_string tcp_ack_flood = "TCP ACK Flood"
attack_type_to_string tcp_rst_flood = "TCP RST Flood"
attack_type_to_string tcp_fin_flood = "TCP FIN Flood"
attack_type_to_string tcp_psh_ack_flood = "TCP PSH+ACK Flood"
attack_type_to_string slowloris = "Slowloris"
attack_type_to_string sockstress = "Sockstress"
attack_type_to_string icmp_flood = "ICMP Flood"
attack_type_to_string icmp_fragmentation = "ICMP Fragmentation"
attack_type_to_string ping_of_death = "Ping of Death"
attack_type_to_string smurf = "Smurf Attack"
attack_type_to_string http_get_flood = "HTTP GET Flood"
attack_type_to_string http_post_flood = "HTTP POST Flood"
attack_type_to_string slow_post = "Slow POST"
attack_type_to_string http_header_anomaly = "HTTP Header Anomaly"
