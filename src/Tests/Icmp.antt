-- ===== src/Tests/Icmp.antt =====
-- ICMP packets, for the theorems on src/detection/icmp_protect.c.
use anti.Base.{
  ℕ, zero, ◌≡◌, ◌<◌, ◌⊎◌, ◌↔◌, refl, true, false, ◌∷◌, ◌++◌, Option, some, replicate, ok,
}
use anti.Addr.{inet}
use anti.Types.{drop, rate_limit}
use anti.Packet.{Packet, byte_at, ntohs_at, packet_is_fragment}
use anti.Protect.Watch.{Watch}
use anti.Protect.Icmp.{
  IcmpProtectCtx, icmp_protect_analyze, analyze_counted, check_shape, check_type, is_broadcast,
}
use anti.Protect.Icmp.Laws.{IsFlood, icmp_protect_analyze-drop_iff}
use anti.Tests.Udp.{flow, totals, settings, datagram}

-- An echo reply to 10.0.0.255, and a timestamp request.
abbrev reply : Packet
reply = record datagram {
  protocol = 1;
  dst_ip = inet 0x0a0000ff;
  bytes = replicate 14 0 ++ (0x45 ∷ replicate 32 0);
}

abbrev timestamp : ℕ
timestamp = 13

abbrev request : Packet
request = record reply {
  bytes = replicate 14 0 ++ (0x45 ∷ (replicate 19 0 ++ (timestamp ∷ replicate 8 0)));
}

abbrev fresh : IcmpProtectCtx
fresh = record { total_icmp_packets = 0; dropped_packets = 0; last_update = 0 }

abbrev watch : Watch (Option IcmpProtectCtx)
watch = record { ctx = some fresh; global = totals; stats = flow }

reply_run :
    (r : Watch (Option IcmpProtectCtx)) × (icmp_protect_analyze settings 10 reply watch
      ≡ ok (drop, r))
unfolding icmp_protect_analyze analyze_counted check_shape check_type is_broadcast
    packet_is_fragment ntohs_at byte_at
reply_run = (_, refl)

icmp_protect_analyze-drop_iff_example : (drop ≡ drop) ↔ (
    IsFlood settings 10 flow
    ⊎ ((65535 < 51)
        ⊎ ((65500 < 9)
            ⊎ ((false ≡ true)
                ⊎ ((zero ≡ 5) ⊎ ((zero ≡ 0) × (is_broadcast (inet 0x0a0000ff) ≡ true)))))))
unfolding packet_is_fragment ntohs_at byte_at
icmp_protect_analyze-drop_iff_example =
    icmp_protect_analyze-drop_iff settings 10 reply watch 0 refl refl refl reply_run.1

abbrev slowed : Watch (Option IcmpProtectCtx)
slowed = record {
  ctx = some (record { total_icmp_packets = 1; dropped_packets = 1; last_update = 0 });
  global = totals;
  stats = record flow { icmp_pps = 1 };
}

request_run : icmp_protect_analyze settings 10 request watch ≡ ok (rate_limit, slowed)
unfolding icmp_protect_analyze analyze_counted check_shape check_type is_broadcast
    packet_is_fragment ntohs_at byte_at
request_run = refl
