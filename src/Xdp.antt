-- ===== src/Xdp.antt =====
-- ebpf/xdp_filter.c: the program at the network driver. A frame is the bytes from `data` to
-- `data_end`, and a pointer into it an offset; a read outside it is a fault. Two of the BPF maps
-- are lookups that the user side fills, the third is the array of counters.
pub mod Safety
pub mod Verdicts
use anti.Base.{
  ℕ, suc, ◌+◌, ◌*◌, ◌-◌, ◌^◌, ◌%◌, bit_and, Bool, true, false, not, ◌&&◌, ◌||◌, List, Option, none,
  some, length, ltb, ◌==◌, if◌then◌else◌, update, u16, u64, ℤ, success, failure, is_zero, Run, ok,
  ◌>>=◌,
}
use anti.Packet.{byte_at, ntohs_at, ethhdr_size, iphdr_size}

-- `blacklist` and `whitelist` by the source address as it stands in memory, and `stats`.
pub record Maps : Type 0 where
  pub blacklist : ℕ → Option ℕ
  pub whitelist : ℕ → Option ℕ
  pub stats : ℕ → ℕ

pub data Action : Type 0 where
  xdp_pass xdp_drop : Action

abbrev pub max_entries : ℕ
max_entries = 256

abbrev pub stat_total_packets : ℕ
stat_total_packets = 0

abbrev pub stat_dropped_packets : ℕ
stat_dropped_packets = 1

abbrev pub stat_passed_packets : ℕ
stat_passed_packets = 2

abbrev pub stat_syn_packets : ℕ
stat_syn_packets = 3

abbrev pub stat_udp_packets : ℕ
stat_udp_packets = 4

abbrev pub stat_icmp_packets : ℕ
stat_icmp_packets = 5

-- The lookup in an array map gives NULL for a key out of range only.
unfoldable pub update_stat : ℕ → ℕ → (ℕ → ℕ) → ℕ → ℕ
update_stat key delta stats =
    if ltb key max_entries then update stats key (u64 (stats key + delta)) else stats

-- `*eth` is offset 0.
unfoldable pub parse_eth : List ℕ → ℤ
parse_eth frame = if ltb (length frame) ethhdr_size then failure else success

-- `*iph` is the offset behind the Ethernet header, whatever the result.
abbrev pub iph : ℕ
iph = ethhdr_size

-- The bit field `ihl` of a little-endian host.
unfoldable pub parse_ipv4 : List ℕ → Run ℤ
parse_ipv4 frame =
    if ltb (length frame) (iph + iphdr_size)
    then ok failure
    else (do b ← byte_at frame (some iph) 0; ok (if ltb (b % 16) 5 then failure else success))

abbrev pub has : ℕ → ℕ → Bool
has flags bit = not (bit_and flags bit == 0)

-- The cases of the switch: whether the frame goes to `drop`, and the counters.
unfoldable pub tcp_case : List ℕ → ℕ → (ℕ → ℕ) → Run (Bool × (ℕ → ℕ))
unfolding update_stat
tcp_case frame tcp stats = if ltb (length frame) (tcp + 20) then ok (true, stats) else (do
  flags ← byte_at frame (some tcp) 13
  let syn = has flags 2
  let counted = if syn && not (has flags 16) then update_stat stat_syn_packets 1 stats else stats
  let none_set =
      not syn
      && not (has flags 16)
      && not (has flags 1)
      && not (has flags 4)
      && not (has flags 8)
      && not (has flags 32)
  ok (if syn && has flags 1 then true else if syn && has flags 4 then true else none_set, counted))

unfoldable pub udp_case : List ℕ → ℕ → (ℕ → ℕ) → Run (Bool × (ℕ → ℕ))
unfolding update_stat
udp_case frame udp stats = if ltb (length frame) (udp + 8) then ok (true, stats) else (do
  sport ← ntohs_at frame (some udp) 0
  let counted = update_stat stat_udp_packets 1 stats
  if sport == 53 || sport == 123 || sport == 1900 || sport == 11211
      then (do
        len ← ntohs_at frame (some udp) 4
        let payload_len = u16 (len + 2 ^ 16 - 8)
        ok (ltb 512 payload_len, counted))
      else ok (false, counted))

abbrev pub icmp_redirect : ℕ
icmp_redirect = 5

unfoldable pub icmp_case : List ℕ → ℕ → (ℕ → ℕ) → Run (Bool × (ℕ → ℕ))
unfolding update_stat
icmp_case frame icmp stats = if ltb (length frame) (icmp + 8) then ok (true, stats) else (do
  kind ← byte_at frame (some icmp) 0
  let counted = update_stat stat_icmp_packets 1 stats
  if kind == icmp_redirect
      then ok (true, counted)
      else (do tot_len ← ntohs_at frame (some iph) 2; ok (ltb 1500 tot_len, counted)))

-- `switch (iph->protocol)`; the check of fragments behind it does nothing.
unfoldable pub protocol_case : List ℕ → (ℕ → ℕ) → Run (Bool × (ℕ → ℕ))
protocol_case frame stats = do
  b ← byte_at frame (some iph) 0
  protocol ← byte_at frame (some iph) 9
  let transport = iph + b % 16 * 4
  if protocol == 6
      then tcp_case frame transport stats
      else if protocol == 17
      then udp_case frame transport stats
      else if protocol == 1
      then icmp_case frame transport stats
      else ok (false, stats)

-- The labels `pass` and `drop`.
unfoldable pub finish : Bool → (ℕ → ℕ) → Action × (ℕ → ℕ)
unfolding update_stat
finish dropping stats =
    if dropping
    then (xdp_drop, update_stat stat_dropped_packets 1 stats)
    else (xdp_pass, update_stat stat_passed_packets 1 stats)

-- `iph->saddr`, four bytes of a little-endian host.
unfoldable pub saddr : List ℕ → Run ℕ
saddr frame = do
  a ← byte_at frame (some iph) 12
  b ← byte_at frame (some iph) 13
  c ← byte_at frame (some iph) 14
  d ← byte_at frame (some iph) 15
  ok (a + b * 2 ^ 8 + c * 2 ^ 16 + d * 2 ^ 24)

-- From the header that `parse_ipv4` accepted.
unfoldable pub judge : Maps → List ℕ → (ℕ → ℕ) → Run (Action × (ℕ → ℕ))
unfolding update_stat
judge maps frame stats = do
  src_ip ← saddr frame
  elim (maps.whitelist src_ip) [
    | Option.some mark ↦ ok (finish false stats)
    | Option.none ↦ elim (maps.blacklist src_ip) [
      | Option.some blocked_time ↦ ok (finish true (update_stat stat_dropped_packets 1 stats))
      | Option.none ↦ do
        (dropping, counted) ← protocol_case frame stats
        ok (finish dropping counted)
    ]
  ]

-- The action, and `stats` after it.
unfoldable pub xdp_ddos_filter : Maps → List ℕ → Run (Action × (ℕ → ℕ))
unfolding update_stat parse_eth
xdp_ddos_filter maps frame =
    let stats = update_stat stat_total_packets 1 maps.stats in
    let ipv4 : Run (Action × (ℕ → ℕ)) = (do
      ret ← parse_ipv4 frame
      if is_zero ret then judge maps frame stats else ok (finish true stats)) in
    if is_zero (parse_eth frame)
    then (do
      h_proto ← ntohs_at frame (some 0) 12
      if h_proto == 0x0800 then ipv4 else ok (finish false stats))
    else ok (finish false stats)
