-- ===== src/Xdp/Safety.antt =====
-- The filter reads inside the frame only.
use anti.Base.{
  ℕ, ◌+◌, ◌*◌, ◌≤◌, ◌<◌, ◌≡◌, Bool, true, List, some, arith, length, ok, Run-total, get_elem?_of_lt,
  ◌%◌, ◌^◌, is_zero, ℤ,
}
use anti.Packet.{byte_at, ntohs_at}
use anti.Xdp.{
  Maps, Action, parse_eth, parse_ipv4, tcp_case, udp_case, icmp_case, protocol_case, saddr, judge,
  xdp_ddos_filter, iph, update_stat, stat_total_packets,
}

module _ (frame : List ℕ) where
  byte_at-returns :
      (base i : ℕ) → base + i < length frame → (b : ℕ) × (byte_at frame (some base) i ≡ ok b)
  unfolding byte_at
  byte_at-returns base i h = let (b, e) = get_elem?_of_lt frame (base + i) h in (b, rw e)

  ntohs_at-returns_base :
      (base i : ℕ) → base + i + 1 < length frame → (w : ℕ) × (ntohs_at frame (some base) i ≡ ok w)
  unfolding ntohs_at
  ntohs_at-returns_base base i h =
      let (hi, e) = byte_at-returns base i (omega arith) in
      let (lo, f) = byte_at-returns base (i + 1) (omega arith) in (hi * 256 + lo, rw (e, f))

  tcp_case-returns :
      (tcp : ℕ) (stats : ℕ → ℕ) → (o : Bool × (ℕ → ℕ)) × (tcp_case frame tcp stats ≡ ok o)
  unfolding tcp_case
  tcp_case-returns tcp stats =
      Run-total (tcp_case frame tcp stats) (λ e. ground (arith, byte_at-returns tcp 13))

  udp_case-returns :
      (udp : ℕ) (stats : ℕ → ℕ) → (o : Bool × (ℕ → ℕ)) × (udp_case frame udp stats ≡ ok o)
  unfolding udp_case
  udp_case-returns udp stats =
      Run-total (udp_case frame udp stats)
        (λ e. ground (arith, ntohs_at-returns_base udp 0, ntohs_at-returns_base udp 4))

  icmp_case-returns :
      (icmp : ℕ) (stats : ℕ → ℕ)
      → iph + 20 ≤ length frame
      → (o : Bool × (ℕ → ℕ)) × (icmp_case frame icmp stats ≡ ok o)
  unfolding icmp_case
  icmp_case-returns icmp stats h =
      Run-total (icmp_case frame icmp stats)
        (λ e. ground (arith, byte_at-returns icmp 0, ntohs_at-returns_base iph 2))

  module _ (h : iph + 20 ≤ length frame) (stats : ℕ → ℕ) where
    protocol_case-returns : (o : Bool × (ℕ → ℕ)) × (protocol_case frame stats ≡ ok o)
    unfolding protocol_case
    protocol_case-returns =
        let (b, p) = byte_at-returns iph 0 (omega arith) in
        let (protocol, q) = byte_at-returns iph 9 (omega arith) in
        let t = iph + b % 16 * 4 in
        let (o₁, r₁) = tcp_case-returns t stats in
        let (o₂, r₂) = udp_case-returns t stats in
        let (o₃, r₃) = icmp_case-returns t stats h in
        Run-total (protocol_case frame stats) (λ e. ground arith)

    saddr-returns : (a : ℕ) × (saddr frame ≡ ok a)
    unfolding saddr
    saddr-returns =
        let (a, p) = byte_at-returns iph 12 (omega arith) in
        let (b, q) = byte_at-returns iph 13 (omega arith) in
        let (c, r) = byte_at-returns iph 14 (omega arith) in
        let (d, s) = byte_at-returns iph 15 (omega arith) in
        (a + b * 2 ^ 8 + c * 2 ^ 16 + d * 2 ^ 24, rw (p, q, r, s))

    judge-returns : (maps : Maps) → (o : Action × (ℕ → ℕ)) × (judge maps frame stats ≡ ok o)
    unfolding judge
    judge-returns maps =
        let (a, p) = saddr-returns in
        let (o, q) = protocol_case-returns in Run-total (judge maps frame stats) (λ e. ground arith)

  parse_ipv4-returns : (ret : ℤ) × (parse_ipv4 frame ≡ ok ret)
  unfolding parse_ipv4
  parse_ipv4-returns = Run-total (parse_ipv4 frame) (λ e. ground (arith, byte_at-returns iph 0))

  parse_ipv4-length :
      {ret : ℤ} → parse_ipv4 frame ≡ ok ret → is_zero ret ≡ true → iph + 20 ≤ length frame
  unfolding parse_ipv4
  parse_ipv4-length e z = ground arith

-- Whatever the frame and the maps hold, the filter ends in an action: no read leaves the frame.
pub xdp_ddos_filter-returns :
    (maps : Maps) (frame : List ℕ) → (o : Action × (ℕ → ℕ)) × (xdp_ddos_filter maps frame ≡ ok o)
unfolding xdp_ddos_filter parse_eth
xdp_ddos_filter-returns maps frame =
    let (ret, p) = parse_ipv4-returns frame in
    Run-total (xdp_ddos_filter maps frame) (λ e. ground (
      arith,
      ntohs_at-returns_base frame 0 12,
      λ (z : is_zero ret ≡ true).
          judge-returns frame (parse_ipv4-length frame p z)
            (update_stat stat_total_packets 1 maps.stats) maps,
    ))
