-- ===== src/Protect/Udp.antt =====
-- src/detection/udp_protect.c.
pub mod Laws
pub mod Floods
use anti.Base.{
  ℕ, ◌+◌, bit_and, Bool, true, false, not, ◌&&◌, ◌||◌, List, [], ◌∷◌, Option, none, some, ltb, leb,
  ◌==◌, if◌then◌else◌, u64, is_zero, Run, ok, deref, ◌>>=◌,
}
use anti.Addr.{memcmp}
use anti.Types.{
  Verdict, accept, drop, Attack, attack_none, dns_amplification, ntp_amplification, ssdp_reflection,
  memcached_amplification, udp_flood, udp_fragmentation, IpStats, Config, index,
}
use anti.Packet.{Packet, proto_udp, byte_at, bytes_at, packet_is_fragment, packet_is_malformed}
use anti.Protect.Watch.{Watch, report}

abbrev pub dns_port : ℕ
dns_port = 53

abbrev pub ntp_port : ℕ
ntp_port = 123

abbrev pub ssdp_port : ℕ
ssdp_port = 1900

abbrev pub memcached_port : ℕ
memcached_port = 11211

pub record UdpProtectCtx : Type 0 where
  pub total_udp_packets : ℕ
  pub dropped_packets : ℕ
  pub last_update : ℕ

-- `udp_protect_init`: `granted` is the success of `calloc`, and `none` the -1 of the function.
unfoldable pub udp_protect_init : Bool → ℕ → Option UdpProtectCtx
udp_protect_init granted now =
    if granted
    then some (record { total_udp_packets = 0; dropped_packets = 0; last_update = now })
    else none

-- `udp_protect_cleanup`: the counters are freed, and the pointer is NULL.
unfoldable pub udp_protect_cleanup : Option UdpProtectCtx → Option UdpProtectCtx
udp_protect_cleanup ctx = none

unfoldable pub is_dns_amplification : Packet → Run Bool
is_dns_amplification pkt =
    let flag : Run Bool = (do
      b ← byte_at pkt.bytes pkt.payload 2
      ok (not (bit_and b 0x80 == 0))) in
    if not (pkt.protocol == proto_udp)
    then ok false
    else if pkt.src_port == dns_port && ltb 512 pkt.payload_len
    then (if leb 3 pkt.payload_len then flag else ok false)
    else ok false

unfoldable pub is_ntp_amplification : Packet → Run Bool
is_ntp_amplification pkt =
    let mode : Run Bool = (do b ← byte_at pkt.bytes pkt.payload 0; ok (bit_and b 0x07 == 6)) in
    if not (pkt.protocol == proto_udp)
    then ok false
    else if pkt.src_port == ntp_port && ltb 400 pkt.payload_len
    then (if leb 1 pkt.payload_len then mode else ok false)
    else ok false

-- `memcmp(payload, text, n) == 0`.
unfoldable pub payload_is : Packet → ℕ → List ℕ → Run Bool
unfolding memcmp
payload_is pkt n text = do bs ← bytes_at pkt.bytes pkt.payload 0 n; ok (is_zero (memcmp n bs text))

-- "HTTP/1.1 200", "VALUE" and "STAT".
abbrev pub http_ok : List ℕ
http_ok = b'H' ∷ b'T' ∷ b'T' ∷ b'P' ∷ b'/' ∷ b'1' ∷ b'.' ∷ b'1' ∷ b' ' ∷ b'2' ∷ b'0' ∷ b'0' ∷ []

abbrev pub value_text : List ℕ
value_text = b'V' ∷ b'A' ∷ b'L' ∷ b'U' ∷ b'E' ∷ []

abbrev pub stat_text : List ℕ
stat_text = b'S' ∷ b'T' ∷ b'A' ∷ b'T' ∷ []

unfoldable pub is_ssdp_reflection : Packet → Run Bool
is_ssdp_reflection pkt =
    if not (pkt.protocol == proto_udp)
    then ok false
    else if pkt.src_port == ssdp_port && ltb 200 pkt.payload_len
    then (if leb 12 pkt.payload_len then payload_is pkt 12 http_ok else ok false)
    else ok false

unfoldable pub is_memcached_amplification : Packet → Run Bool
is_memcached_amplification pkt =
    let reply : Run Bool = (do
      value ← payload_is pkt 5 value_text
      if value then ok true else payload_is pkt 4 stat_text) in
    if not (pkt.protocol == proto_udp)
    then ok false
    else if pkt.src_port == memcached_port && ltb 1000 pkt.payload_len
    then (if leb 5 pkt.payload_len then reply else ok false)
    else ok false

-- The `else if` chain that picks `attack_type`.
unfoldable pub amplification : Packet → Run Attack
amplification pkt = do
  dns ← is_dns_amplification pkt
  if dns then ok dns_amplification else do
    ntp ← is_ntp_amplification pkt
    if ntp then ok ntp_amplification else do
      ssdp ← is_ssdp_reflection pkt
      if ssdp then ok ssdp_reflection else do
        memcached ← is_memcached_amplification pkt
        ok (if memcached then memcached_amplification else attack_none)

abbrev pub count_drop : Watch UdpProtectCtx → Watch UdpProtectCtx
count_drop w = record w {
  ctx = record (w.ctx) { dropped_packets = u64 (w.ctx.dropped_packets + 1) };
}

-- The fragment and the malformation checks.
unfoldable pub check_shape : Packet → Watch UdpProtectCtx → Run (Verdict × Watch UdpProtectCtx)
unfolding report
check_shape pkt w = do
  fragment ← packet_is_fragment pkt
  if fragment && ltb pkt.payload_len 8
      then ok (drop, count_drop (report udp_fragmentation w))
      else do
        malformed ← packet_is_malformed pkt
        ok (if malformed then (drop, count_drop w) else (accept, w))

-- The flood check: the counter is compared and reset once a second has passed.
unfoldable pub check_flood :
    Config → ℕ → Packet → Watch UdpProtectCtx → Run (Verdict × Watch UdpProtectCtx)
unfolding report
check_flood cfg now pkt w₀ =
    let stats : IpStats = record (w₀.stats) { udp_pps = u64 (w₀.stats.udp_pps + 1) } in
    let w : Watch UdpProtectCtx = record w₀ { stats = stats } in
    let reset : Watch UdpProtectCtx = record w₀ {
      stats = record stats { udp_pps = 0; last_update = now };
    } in
    if leb (stats.last_update + 1) now
    then (if ltb cfg.udp_pps_threshold stats.udp_pps
        then ok (drop, count_drop (report udp_flood w))
        else check_shape pkt reset)
    else check_shape pkt w

-- `udp_protect_analyze` behind its first counter.
unfoldable pub analyze_counted :
    Config → ℕ → Packet → Watch UdpProtectCtx → Run (Verdict × Watch UdpProtectCtx)
unfolding report
analyze_counted cfg now pkt w = do
  attack ← amplification pkt
  if index attack == index attack_none
      then check_flood cfg now pkt w
      else ok (drop, count_drop (report attack w))

-- The global pointer may be NULL, if the initialisation failed.
unfoldable pub udp_protect_analyze :
    Config
    → ℕ
    → Packet
    → Watch (Option UdpProtectCtx)
    → Run (Verdict × Watch (Option UdpProtectCtx))
udp_protect_analyze cfg now pkt w =
    if pkt.protocol == proto_udp
    then (do
      c ← deref (w.ctx)
      (v, r) ← analyze_counted cfg now pkt (record {
        ctx = record c { total_udp_packets = u64 (c.total_udp_packets + 1) };
        global = w.global;
        stats = w.stats;
      })
      ok (v, record { ctx = some (r.ctx); global = r.global; stats = r.stats }))
    else ok (accept, w)
