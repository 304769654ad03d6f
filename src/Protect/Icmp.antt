-- ===== src/Protect/Icmp.antt =====
-- src/detection/icmp_protect.c.
pub mod Laws
use anti.Base.{
  ℕ, ◌+◌, ◌/◌, ◌%◌, bit_and, Bool, true, false, not, ◌&&◌, ◌||◌, Option, none, some, ltb, leb, ◌==◌,
  if◌then◌else◌, u64, Run, ok, deref, ◌>>=◌,
}
use anti.Addr.{IpAddr, inet, inet6}
use anti.Types.{
  Verdict, accept, drop, rate_limit, Attack, icmp_flood, ping_of_death, icmp_fragmentation, smurf,
  IpStats, Config,
}
use anti.Packet.{Packet, proto_icmp, byte_at, packet_is_fragment}
use anti.Protect.Watch.{Watch, report}

-- `ICMP_REDIRECT`, `ICMP_ECHOREPLY` and `ICMP_ECHO`.
abbrev pub icmp_redirect : ℕ
icmp_redirect = 5

abbrev pub icmp_echoreply : ℕ
icmp_echoreply = 0

abbrev pub icmp_echo : ℕ
icmp_echo = 8

pub record IcmpProtectCtx : Type 0 where
  pub total_icmp_packets : ℕ
  pub dropped_packets : ℕ
  pub last_update : ℕ

-- `icmp_protect_init`: `granted` is the success of `calloc`, and `none` the -1 of the function.
unfoldable pub icmp_protect_init : Bool → ℕ → Option IcmpProtectCtx
icmp_protect_init granted now =
    if granted
    then some (record { total_icmp_packets = 0; dropped_packets = 0; last_update = now })
    else none

-- `icmp_protect_cleanup`: the counters are freed, and the pointer is NULL.
unfoldable pub icmp_protect_cleanup : Option IcmpProtectCtx → Option IcmpProtectCtx
icmp_protect_cleanup ctx = none

abbrev pub count_drop : Watch IcmpProtectCtx → Watch IcmpProtectCtx
count_drop w = record w {
  ctx = record (w.ctx) { dropped_packets = u64 (w.ctx.dropped_packets + 1) };
}

-- The broadcast test of a destination.
unfoldable pub is_broadcast : IpAddr → Bool
is_broadcast (inet dst) = bit_and dst 0xff == 0xff || dst == 0xffffffff
is_broadcast (inet6 bs) = false

-- What the packet's type decides.
unfoldable pub check_type :
    Config → ℕ → Packet → Watch IcmpProtectCtx → Verdict × Watch IcmpProtectCtx
unfolding report is_broadcast
check_type cfg kind pkt w =
    if kind == icmp_redirect
    then (drop, count_drop w)
    else if kind == icmp_echoreply && is_broadcast pkt.dst_ip
    then (drop, count_drop (report smurf w))
    else if not (kind == icmp_echo)
        && not (kind == icmp_echoreply)
        && ltb (cfg.icmp_pps_threshold / 10) w.stats.icmp_pps
    then (rate_limit, count_drop w)
    else (accept, w)

-- Size, fragments and type.
unfoldable pub check_shape :
    Config → Packet → Watch IcmpProtectCtx → Run (Verdict × Watch IcmpProtectCtx)
unfolding report
check_shape cfg pkt w =
    if ltb 65535 pkt.len || ltb 65500 pkt.payload_len
    then ok (drop, count_drop (report ping_of_death w))
    else (do
      fragment ← packet_is_fragment pkt
      if fragment
          then ok (drop, count_drop (report icmp_fragmentation w))
          else (do kind ← byte_at pkt.bytes pkt.transport_header 0; ok (check_type cfg kind pkt w)))

-- `icmp_protect_analyze` behind its first counter.
unfoldable pub analyze_counted :
    Config → ℕ → Packet → Watch IcmpProtectCtx → Run (Verdict × Watch IcmpProtectCtx)
unfolding report
analyze_counted cfg now pkt w₀ =
    let stats : IpStats = record (w₀.stats) { icmp_pps = u64 (w₀.stats.icmp_pps + 1) } in
    let w : Watch IcmpProtectCtx = record w₀ { stats = stats } in
    let reset : Watch IcmpProtectCtx = record w₀ {
      stats = record stats { icmp_pps = 0; last_update = now };
    } in
    if leb (stats.last_update + 1) now
    then (if ltb cfg.icmp_pps_threshold stats.icmp_pps
        then ok (drop, count_drop (report icmp_flood w))
        else check_shape cfg pkt reset)
    else check_shape cfg pkt w

-- The global pointer may be NULL, if the initialisation failed.
unfoldable pub icmp_protect_analyze :
    Config
    → ℕ
    → Packet
    → Watch (Option IcmpProtectCtx)
    → Run (Verdict × Watch (Option IcmpProtectCtx))
icmp_protect_analyze cfg now pkt w =
    if pkt.protocol == proto_icmp
    then (do
      c ← deref (w.ctx)
      (v, r) ← analyze_counted cfg now pkt (record {
        ctx = record c { total_icmp_packets = u64 (c.total_icmp_packets + 1) };
        global = w.global;
        stats = w.stats;
      })
      ok (v, record { ctx = some (r.ctx); global = r.global; stats = r.stats }))
    else ok (accept, w)
