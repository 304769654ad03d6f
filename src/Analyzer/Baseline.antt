-- ===== src/Analyzer/Baseline.antt =====
-- The analyzer of src/detection/analyzer.c as a whole: its creation and its end, the entropy, the baseline
-- and the test against it. Numbers of type `double` are a parameter with the operations that the code
-- uses. The loops over a bucket never move on: they take fuel, and `none` means that they still run.
pub mod Laws
use anti.Base.{
  ℕ, zero, suc, ◌+◌, ◌%◌, Bool, true, false, ◌&&◌, ◌||◌, not, List, [], ◌∷◌, Option, none, some,
  ltb, ◌==◌, if◌then◌else◌, update, u32, u64, ℤ, success, failure, Run, ok, fault, ◌>>=◌,
}
use anti.Types.{
  IpStats, Attack, index, attack_none, udp_flood, udp_fragmentation, dns_amplification,
  ntp_amplification, ssdp_reflection, memcached_amplification, tcp_syn_flood, tcp_ack_flood,
  tcp_rst_flood, tcp_fin_flood, tcp_psh_ack_flood, slowloris, sockstress, icmp_flood,
  icmp_fragmentation, ping_of_death, smurf, http_get_flood, http_post_flood, slow_post,
  http_header_anomaly,
}
use anti.Ipset.{Ipset, create}
use anti.Analyzer.{IpTable, ip_stats_table_size, initial}

-- `double`: the literals of the code, the conversion of an integer, and the operations.
pub record Doubles (D : Type 0) : Type 0 where
  pub zero_d : D
  pub two : D
  pub five : D
  pub fifth : D
  pub from_integer : ℕ → D
  pub minus : D → D → D
  pub times : D → D → D
  pub over : D → D → D
  pub log2 : D → D
  pub fabs : D → D
  pub greater : D → D → Bool

pub record TrafficPattern (D : Type 0) : Type 0 where
  pub entropy : D
  pub packet_size_avg : D
  pub packet_size_stddev : D
  pub inter_arrival_time_avg : D
  pub syn_ack_ratio : ℕ
  pub udp_tcp_ratio : ℕ
  pub unique_src_ips : ℕ
  pub unique_dst_ports : ℕ

pub record TrafficAnalyzer (D : Type 0) : Type 0 where
  pub ip_table : IpTable
  pub baseline : TrafficPattern D
  pub blacklist : Option Ipset
  pub whitelist : Option Ipset
  pub baseline_updated : ℕ

-- The enumerators below `ATTACK_MAX`, in the order of their values.
abbrev pub attacks : List Attack
attacks =
    attack_none ∷ udp_flood ∷ udp_fragmentation ∷ dns_amplification ∷ ntp_amplification
    ∷ ssdp_reflection ∷ memcached_amplification ∷ tcp_syn_flood ∷ tcp_ack_flood ∷ tcp_rst_flood
    ∷ tcp_fin_flood ∷ tcp_psh_ack_flood ∷ slowloris ∷ sockstress ∷ icmp_flood ∷ icmp_fragmentation
    ∷ ping_of_death ∷ smurf ∷ http_get_flood ∷ http_post_flood ∷ slow_post ∷ http_header_anomaly
    ∷ []

-- `while (stats) { body; stats = stats; }`.
unfoldable pub spin : {T : Type 0} → (IpStats → T → T) → ℕ → Option IpStats → T → Option T
spin body fuel none t = some t
spin body zero (some stats) t = none
spin body (suc fuel) (some stats) t = spin body fuel (some stats) (body stats t)

-- The loop over the buckets from `i`, with `left` of them to go.
unfoldable pub spin_from : {T : Type 0} → (IpStats → T → T) → ℕ → ℕ → ℕ → IpTable → T → Option T
unfolding spin
spin_from body fuel zero i table t = some t
spin_from body fuel (suc left) i table t = elim (spin body fuel (table i) t) [
  | Option.none ↦ none
  | Option.some u ↦ spin_from body fuel left (i + 1) table u
]

-- `total_packets` and `counts` of the entropy.
pub record Histogram : Type 0 where
  pub total_packets : ℕ
  pub counts : ℕ → ℕ

unfoldable pub count_packets : List Attack → IpStats → Histogram → Histogram
count_packets [] stats t = t
count_packets (j ∷ js) stats t =
    let cell = index j % 256 in
    count_packets js stats (record {
      total_packets = u64 (t.total_packets + stats.packets j);
      counts = update t.counts cell (u64 (t.counts cell + stats.packets j));
    })

-- `total_packets`, `total_bytes` and `unique_ips` of the baseline.
pub record Totals : Type 0 where
  pub total_packets : ℕ
  pub total_bytes : ℕ
  pub unique_ips : ℕ

unfoldable pub add_totals : List Attack → IpStats → Totals → Totals
add_totals [] stats t = record t { unique_ips = u32 (t.unique_ips + 1) }
add_totals (j ∷ js) stats t = add_totals js stats (record t {
  total_packets = u64 (t.total_packets + stats.packets j);
  total_bytes = u64 (t.total_bytes + stats.bytes j);
})

-- The loop of `analyzer_cleanup` over a bucket frees its entry again in the second round.
unfoldable pub free_entries : ℕ → ℕ → IpTable → Run (Unit {0})
free_entries zero i table = ok tt
free_entries (suc left) i table = elim (table i) [
  | Option.none ↦ free_entries left (i + 1) table
  | Option.some stats ↦ fault
]

unfoldable pub analyzer_cleanup : {D : Type 0} → Option (TrafficAnalyzer D) → Run (Unit {0})
unfolding free_entries
analyzer_cleanup none = ok tt
analyzer_cleanup (some a) = free_entries ip_stats_table_size 0 a.ip_table

module _ {D : Type 0} (d : Doubles D) where
  open d use {zero_d, two, five, fifth, from_integer, minus, times, over, log2, fabs, greater}

  -- What `calloc` leaves of the baseline.
  abbrev pub no_pattern : TrafficPattern D
  no_pattern = record {
    entropy = zero_d;
    packet_size_avg = zero_d;
    packet_size_stddev = zero_d;
    inter_arrival_time_avg = zero_d;
    syn_ack_ratio = 0;
    udp_tcp_ratio = 0;
    unique_src_ips = 0;
    unique_dst_ports = 0;
  }

  -- The successes of the three allocations, and whether both allocations of each set succeed.
  unfoldable pub analyzer_init : Bool → Bool → Bool → Bool → Bool → ℕ → Option (TrafficAnalyzer D)
  unfolding create
  analyzer_init granted table_granted locks_granted black_granted white_granted now =
      if granted && table_granted && locks_granted
      then some (record {
        ip_table = initial;
        baseline = no_pattern;
        blacklist = create 100000 black_granted black_granted;
        whitelist = create 10000 white_granted white_granted;
        baseline_updated = now;
      })
      else none

  -- "Calculate Shannon entropy", from cell `i` on.
  unfoldable pub entropy_from : ℕ → ℕ → Histogram → D → D
  entropy_from zero i t entropy = entropy
  entropy_from (suc left) i t entropy =
      let p = over (from_integer (t.counts i)) (from_integer (t.total_packets)) in
      entropy_from left (i + 1) t
        (if ltb 0 (t.counts i) then minus entropy (times p (log2 p)) else entropy)

  unfoldable pub analyzer_calculate_entropy : ℕ → TrafficAnalyzer D → Option D
  unfolding spin_from count_packets entropy_from
  analyzer_calculate_entropy fuel a =
      let start : Histogram = record { total_packets = 0; counts = λ i. 0 } in
      elim (spin_from (count_packets attacks) fuel ip_stats_table_size 0 a.ip_table start) [
        | Option.none ↦ none
        | Option.some t ↦
            some (if t.total_packets == 0 then zero_d else entropy_from 256 0 t zero_d)
      ]

  -- The metrics after the entropy.
  unfoldable pub update_metrics : ℕ → ℕ → D → TrafficAnalyzer D → Option (ℤ × TrafficAnalyzer D)
  unfolding spin_from add_totals
  update_metrics fuel now entropy a =
      let start : Totals = record { total_packets = 0; total_bytes = 0; unique_ips = 0 } in
      elim (spin_from (add_totals attacks) fuel ip_stats_table_size 0 a.ip_table start) [
        | Option.none ↦ none
        | Option.some t ↦
            let average = over (from_integer (t.total_bytes)) (from_integer (t.total_packets)) in
            let measured = record (a.baseline) {
              entropy = entropy;
              packet_size_avg =
                  if ltb 0 t.total_packets then average else a.baseline.packet_size_avg;
              unique_src_ips = t.unique_ips;
            } in
            some (success, record a { baseline = measured; baseline_updated = now })
      ]

  -- `now` is what `time(NULL)` returns.
  unfoldable pub analyzer_update_baseline :
      ℕ → ℕ → TrafficAnalyzer D → Option (ℤ × TrafficAnalyzer D)
  unfolding analyzer_calculate_entropy update_metrics
  analyzer_update_baseline fuel now a = elim (analyzer_calculate_entropy fuel a) [
    | Option.none ↦ none
    | Option.some entropy ↦ update_metrics fuel now entropy a
  ]

  unfoldable pub analyzer_ml_train : ℕ → ℕ → TrafficAnalyzer D → Option (ℤ × TrafficAnalyzer D)
  unfolding analyzer_update_baseline
  analyzer_ml_train fuel now a = analyzer_update_baseline fuel now a

  unfoldable pub analyzer_is_anomaly : TrafficAnalyzer D → TrafficPattern D → Bool
  analyzer_is_anomaly a pattern =
      let base = a.baseline in
      let size_ratio = over pattern.packet_size_avg base.packet_size_avg in
      if greater (fabs (minus pattern.entropy base.entropy)) two
      then true
      else if greater pattern.packet_size_avg zero_d && greater base.packet_size_avg zero_d
      then greater size_ratio five || greater fifth size_ratio
      else false
