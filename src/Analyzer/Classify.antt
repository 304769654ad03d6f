-- ===== src/Analyzer/Classify.antt =====
-- `analyzer_ml_classify` of src/detection/analyzer.c.
use anti.Base.{ℕ, bit_and, not, Option, none, some, ltb, ◌==◌, if◌then◌else◌, Run, ok, ◌>>=◌}
use anti.Types.{
  Attack, attack_none, udp_flood, dns_amplification, ntp_amplification, ssdp_reflection,
  memcached_amplification, tcp_syn_flood, tcp_ack_flood, tcp_rst_flood, icmp_flood, ping_of_death,
  http_get_flood, http_post_flood,
}
use anti.Packet.{Packet, proto_icmp, proto_tcp, proto_udp}
use anti.Protect.Udp.{
  is_dns_amplification, is_ntp_amplification, is_ssdp_reflection, is_memcached_amplification,
}
use anti.Protect.Http.{method_is}
use anti.Packet.Http.{get_text, post_text}

-- The TCP rules, for the flags.
abbrev classify_flags : ℕ → Option Attack
classify_flags flags =
    if flags == 0x02
    then some tcp_syn_flood
    else if flags == 0x10
    then some tcp_ack_flood
    else if not (bit_and flags 0x04 == 0)
    then some tcp_rst_flood
    else none

-- The HTTP rules, which the packets come to that no rule above has classified.
unfoldable pub classify_http : Packet → Attack
unfolding method_is
classify_http pkt =
    if pkt.is_http
    then (if method_is pkt get_text
        then http_get_flood
        else if method_is pkt post_text
        then http_post_flood
        else attack_none)
    else attack_none

unfoldable pub classify_udp : Packet → Run Attack
unfolding classify_http
classify_udp pkt = do
  dns ← is_dns_amplification pkt
  if dns then ok dns_amplification else do
    ntp ← is_ntp_amplification pkt
    if ntp then ok ntp_amplification else do
      ssdp ← is_ssdp_reflection pkt
      if ssdp then ok ssdp_reflection else do
        memcached ← is_memcached_amplification pkt
        ok (
            if memcached
            then memcached_amplification
            else if ltb 1400 pkt.payload_len
            then udp_flood
            else classify_http pkt)

unfoldable pub analyzer_ml_classify : Packet → Run Attack
unfolding classify_udp classify_http
analyzer_ml_classify pkt =
    if pkt.protocol == proto_udp
    then classify_udp pkt
    else if pkt.protocol == proto_tcp
    then ok (elim (classify_flags pkt.tcp_flags) [
      | Option.none ↦ classify_http pkt
      | Option.some a ↦ a
    ])
    else if pkt.protocol == proto_icmp
    then ok (if ltb 1500 pkt.len then ping_of_death else icmp_flood)
    else ok (classify_http pkt)
