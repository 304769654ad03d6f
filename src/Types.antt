-- ===== src/Types.antt =====
-- The shared types of include/common.h: attacks, verdicts, the statistics of one address, the
-- global statistics and the settings that the detection reads. Strings, locks and the fields
-- that no modelled function reads (`country_code`, `asn`, the paths of the settings) are left out.
use anti.Base.{ℕ, ◌+◌, ◌==◌, Bool, if◌then◌else◌, u64}
use anti.Addr.{IpAddr}

pub data Verdict : Type 0 where
  accept drop rate_limit challenge : Verdict

pub data Attack : Type 0 where
  attack_none udp_flood udp_fragmentation dns_amplification ntp_amplification ssdp_reflection
        memcached_amplification tcp_syn_flood tcp_ack_flood tcp_rst_flood tcp_fin_flood
        tcp_psh_ack_flood slowloris sockstress icmp_flood icmp_fragmentation ping_of_death smurf
        http_get_flood http_post_flood slow_post http_header_anomaly :
      Attack

-- The value of the enumerator.
abbrev pub index : Attack → ℕ
index attack_none = 0
index udp_flood = 1
index udp_fragmentation = 2
index dns_amplification = 3
index ntp_amplification = 4
index ssdp_reflection = 5
index memcached_amplification = 6
index tcp_syn_flood = 7
index tcp_ack_flood = 8
index tcp_rst_flood = 9
index tcp_fin_flood = 10
index tcp_psh_ack_flood = 11
index slowloris = 12
index sockstress = 13
index icmp_flood = 14
index icmp_fragmentation = 15
index ping_of_death = 16
index smurf = 17
index http_get_flood = 18
index http_post_flood = 19
index slow_post = 20
index http_header_anomaly = 21

-- An array `uint64_t [ATTACK_MAX]`, and `counters[a]++`.
abbrev pub Counters : Type 0
Counters = Attack → ℕ

unfoldable pub bump : Counters → Attack → Counters
bump f a b = if index a == index b then u64 (f b + 1) else f b

pub record IpStats : Type 0 where
  pub ip : IpAddr
  pub packets : Counters
  pub bytes : Counters
  pub udp_pps : ℕ
  pub tcp_syn_pps : ℕ
  pub tcp_ack_pps : ℕ
  pub icmp_pps : ℕ
  pub http_rps : ℕ
  pub last_update : ℕ
  pub first_seen : ℕ
  pub reputation_score : ℕ
  pub is_blacklisted : Bool
  pub is_whitelisted : Bool
  pub blacklist_expires : ℕ

pub record GlobalStats : Type 0 where
  pub total_packets : ℕ
  pub total_bytes : ℕ
  pub dropped_packets : ℕ
  pub rate_limited_packets : ℕ
  pub attacks_detected : Counters
  pub current_connections : ℕ
  pub start_time : ℕ

pub record Config : Type 0 where
  pub udp_pps_threshold : ℕ
  pub tcp_syn_pps_threshold : ℕ
  pub tcp_ack_pps_threshold : ℕ
  pub icmp_pps_threshold : ℕ
  pub http_rps_threshold : ℕ
  pub auto_blacklist : Bool
  pub blacklist_duration : ℕ
  pub enable_http_protection : Bool
  pub enable_js_challenge : Bool
  pub enable_captcha : Bool
