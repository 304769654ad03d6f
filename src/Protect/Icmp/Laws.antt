-- ===== src/Protect/Icmp/Laws.antt =====
-- Which ICMP packets are dropped or slowed, and what is booked for them.
use anti.Base.{ℕ, ◌+◌, ◌/◌, ◌≤◌, ◌<◌, ◌≡◌, ◌≢◌, ◌⊎◌, ◌↔◌, Bool, true, Option, some, u64, ok, arith}
use anti.Types.{Verdict, drop, rate_limit, Config, IpStats}
use anti.Packet.{Packet, proto_icmp, byte_at, packet_is_fragment}
use anti.Protect.Watch.{Watch}
use anti.Protect.Icmp.{
  IcmpProtectCtx, is_broadcast, check_type, check_shape, analyze_counted, icmp_protect_analyze,
}

-- More packets than the threshold since the last reset, and a second has passed.
abbrev pub IsFlood : Config → ℕ → IpStats → Type 0
IsFlood cfg now stats =
    (stats.last_update < now) × (cfg.icmp_pps_threshold < u64 (stats.icmp_pps + 1))

-- Where the analysis ends, an ICMP packet is dropped exactly for a flood, an oversized or fragmented packet, a redirect,
-- or an echo reply to a broadcast address.
pub icmp_protect_analyze-drop_iff :
    (cfg : Config) (now : ℕ) (pkt : Packet) (w : Watch (Option IcmpProtectCtx)) (kind : ℕ)
    {fragment : Bool} {v : Verdict} {r : Watch (Option IcmpProtectCtx)}
    → pkt.protocol ≡ proto_icmp
    → packet_is_fragment pkt ≡ ok fragment
    → byte_at pkt.bytes pkt.transport_header 0 ≡ ok kind
    → icmp_protect_analyze cfg now pkt w ≡ ok (v, r)
    → (v ≡ drop) ↔ (
        IsFlood cfg now w.stats
        ⊎ ((65535 < pkt.len)
            ⊎ ((65500 < pkt.payload_len)
                ⊎ ((fragment ≡ true)
                    ⊎ ((kind ≡ 5) ⊎ ((kind ≡ 0) × (is_broadcast pkt.dst_ip ≡ true)))))))
unfolding icmp_protect_analyze analyze_counted check_shape check_type
icmp_protect_analyze-drop_iff cfg now pkt w kind p q s h = ground arith

-- What an ICMP packet is slowed for: it is neither an echo nor its reply, and more than a tenth
-- of the threshold came within the second. Its counters are those of a drop.
pub icmp_protect_analyze-rate_limit :
    (cfg : Config) (now : ℕ) (pkt : Packet) (w : Watch (Option IcmpProtectCtx)) (kind : ℕ)
    (c c' : IcmpProtectCtx) {r : Watch (Option IcmpProtectCtx)}
    → byte_at pkt.bytes pkt.transport_header 0 ≡ ok kind
    → w.ctx ≡ some c
    → r.ctx ≡ some c'
    → icmp_protect_analyze cfg now pkt w ≡ ok (rate_limit, r)
    → (kind ≢ 0)
      × (kind ≢ 8)
      × (now ≤ w.stats.last_update)
      × (cfg.icmp_pps_threshold / 10 < r.stats.icmp_pps)
      × (c'.dropped_packets ≡ u64 (c.dropped_packets + 1))
unfolding icmp_protect_analyze analyze_counted check_shape check_type
icmp_protect_analyze-rate_limit cfg now pkt w kind c c' q e f h = ground arith
