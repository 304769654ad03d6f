-- ===== src/Tests/Udp.antt =====
-- UDP packets, for the theorems on src/detection/udp_protect.c.
use anti.Base.{
  ℕ, ◌++◌, ◌≡◌, refl, true, false, List, [], ◌∷◌, Option, none, some, u64, length, ok, replicate,
  arith,
}
use anti.Addr.{inet}
use anti.Types.{Verdict, drop, Attack, udp_flood, bump, Counters, IpStats, GlobalStats, Config}
use anti.Packet.{Packet}
use anti.Packet.Reads.{IsReadable}
use anti.Tests.Bytes.{Readable-of_bytes}
use anti.Protect.Watch.{Watch, report}
use anti.Protect.Udp.{
  UdpProtectCtx, udp_protect_analyze, amplification, analyze_counted, check_flood,
  is_dns_amplification, is_ntp_amplification, is_ssdp_reflection, is_memcached_amplification,
}
use anti.Protect.Udp.Laws.{Booked, udp_protect_analyze-Booked}
use anti.Protect.Udp.Floods.{AllDropped, stream, stream-AllDropped}

-- An IPv4 header of 20 bytes, an UDP header and a payload of 9 bytes; the lengths agree.
abbrev udp_bytes : List ℕ
udp_bytes =
    replicate 14 0 ++ (0x45 ∷ 0 ∷ 0 ∷ 37 ∷ 0 ∷ 0 ∷ 0 ∷ 0 ∷ []) ++ replicate 20 0 ++ replicate 9 0x41

abbrev pub counters : Counters
counters a = 0

abbrev pub flow : IpStats
flow = record {
  ip = inet 1;
  packets = counters;
  bytes = counters;
  udp_pps = 5;
  tcp_syn_pps = 0;
  tcp_ack_pps = 0;
  icmp_pps = 0;
  http_rps = 0;
  last_update = 10;
  first_seen = 0;
  reputation_score = 50;
  is_blacklisted = false;
  is_whitelisted = false;
  blacklist_expires = 0;
}

abbrev pub totals : GlobalStats
totals = record {
  total_packets = 0;
  total_bytes = 0;
  dropped_packets = 0;
  rate_limited_packets = 0;
  attacks_detected = counters;
  current_connections = 0;
  start_time = 0;
}

abbrev pub settings : Config
settings = record {
  udp_pps_threshold = 3;
  tcp_syn_pps_threshold = 3;
  tcp_ack_pps_threshold = 3;
  icmp_pps_threshold = 3;
  http_rps_threshold = 3;
  auto_blacklist = false;
  blacklist_duration = 60;
  enable_http_protection = true;
  enable_js_challenge = false;
  enable_captcha = false;
}

abbrev counted : UdpProtectCtx
counted = record { total_udp_packets = 0; dropped_packets = 0; last_update = 0 }

abbrev pub datagram : Packet
datagram = record {
  bytes = udp_bytes;
  len = 51;
  timestamp = 0;
  eth_header = some 0;
  ip_header = some 14;
  transport_header = some 34;
  payload = some 42;
  eth_len = 14;
  ip_len = 20;
  transport_len = 17;
  payload_len = 9;
  is_ipv4 = true;
  is_ipv6 = false;
  protocol = 17;
  src_ip = inet 1;
  dst_ip = inet 2;
  src_port = 4000;
  dst_port = 80;
  tcp_flags = 0;
  tcp_seq = 0;
  tcp_ack = 0;
  is_http = false;
  http_method = none;
  http_uri = none;
  http_user_agent = none;
  http_content_length = 0;
}

abbrev watch : Watch (Option UdpProtectCtx)
watch = record { ctx = some counted; global = totals; stats = flow }

pub datagram-IsReadable : IsReadable datagram
datagram-IsReadable = record {
  header = Readable-of_bytes udp_bytes 14 20 refl (omega arith);
  body = Readable-of_bytes udp_bytes 42 9 refl (omega arith);
}

udp_protect_analyze-Booked_example :
    (v : Verdict) × (r : Watch UdpProtectCtx) × (a : Attack) × (udp_protect_analyze settings 11
        datagram watch
      ≡ ok (v, record { ctx = some (r.ctx); global = r.global; stats = r.stats }))
    × Booked
        (record {
          ctx = record counted { total_udp_packets = u64 1 };
          global = totals;
          stats = flow;
        })
        v
        r
        a
udp_protect_analyze-Booked_example =
    udp_protect_analyze-Booked settings 11 datagram watch counted datagram-IsReadable refl refl

abbrev flooded : Watch (Option UdpProtectCtx)
flooded = record {
  ctx = some (record { total_udp_packets = 1; dropped_packets = 1; last_update = 0 });
  global = record totals { attacks_detected = bump counters udp_flood };
  stats = record flow { udp_pps = 6; packets = bump counters udp_flood };
}

flood_run : udp_protect_analyze settings 11 datagram watch ≡ ok (drop, flooded)
unfolding udp_protect_analyze analyze_counted amplification check_flood report is_dns_amplification
    is_ntp_amplification is_ssdp_reflection is_memcached_amplification
flood_run = refl

abbrev burst : List (ℕ × Packet)
burst = (11, datagram) ∷ (20, datagram) ∷ []

burst_run :
    (vs : List Verdict) × (r : Watch (Option UdpProtectCtx)) × (stream settings burst watch
      ≡ ok (vs, r))
unfolding stream udp_protect_analyze analyze_counted amplification check_flood report
    is_dns_amplification is_ntp_amplification is_ssdp_reflection is_memcached_amplification
burst_run = (_, _, refl)

stream-AllDropped_example :
    AllDropped (burst_run.0) × (length (burst_run.0) ≡ 2) × (burst_run.1.stats.last_update ≡ 10)
stream-AllDropped_example =
    stream-AllDropped settings burst watch (omega arith) (omega arith)
      (refl, omega arith, (refl, omega arith, tt)) burst_run.2
