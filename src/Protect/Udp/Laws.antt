-- ===== src/Protect/Udp/Laws.antt =====
-- What a verdict of the UDP protection books, and when it can be given.
use anti.Base.{
  ℕ, ◌+◌, ◌≤◌, ◌≡◌, ◌⊎◌, inl, inr, Bool, true, ◌&&◌, Option, some, ltb, leb, ◌==◌, if◌then◌else◌,
  u64, ok, arith, Bool-cases, Run-cases, Run-total, List, is_zero,
}
use anti.Addr.{memcmp}
use anti.Types.{
  Verdict, accept, drop, Attack, attack_none, udp_flood, udp_fragmentation, Config, index, bump,
  Counters,
}
use anti.Packet.{Packet, proto_udp, packet_is_fragment}
use anti.Packet.Reads.{IsReadable, fragment-returns, malformed-returns, bytes_at-returns}
use anti.Protect.Watch.{Watch}
use anti.Protect.Udp.{
  UdpProtectCtx, is_dns_amplification, is_ntp_amplification, is_ssdp_reflection,
  is_memcached_amplification, payload_is, http_ok, value_text, stat_text, amplification,
  check_shape, check_flood, analyze_counted, udp_protect_analyze,
}

-- The counters after a report of `a`; `attack_none` stands for no report.
abbrev pub booked : Counters → Attack → Counters
booked f a = if index a == index attack_none then f else bump f a

-- How the watch `r` after the verdict `v` comes from the watch `w` before it, where the attack
-- `a` was reported: both attack counters get `a`, a drop is counted, and a report is a drop.
pub record Booked (w : Watch UdpProtectCtx) (v : Verdict) (r : Watch UdpProtectCtx) (a : Attack)
    : Type 0 where
  pub detected : r.global.attacks_detected ≡ booked w.global.attacks_detected a
  pub attributed : r.stats.packets ≡ booked w.stats.packets a
  pub verdict :
      ((v ≡ drop) × (r.ctx.dropped_packets ≡ u64 (w.ctx.dropped_packets + 1)))
      ⊎ ((v ≡ accept) × (a ≡ attack_none) × (r.ctx.dropped_packets ≡ w.ctx.dropped_packets))
  pub total : r.ctx.total_udp_packets ≡ w.ctx.total_udp_packets
  pub reputation : r.stats.reputation_score ≡ w.stats.reputation_score

check_shape-Booked :
    (pkt : Packet) (w : Watch UdpProtectCtx) {v : Verdict} {r : Watch UdpProtectCtx}
    → check_shape pkt w ≡ ok (v, r)
    → (a : Attack) × Booked w v r a
unfolding check_shape
check_shape-Booked pkt w h = elim (Run-cases (packet_is_fragment pkt)) [
  | inl e ↦ absurd (ground arith)
  | inr (f, e) ↦ elim (Bool-cases (f && ltb pkt.payload_len 8)) [
    | inl tiny ↦ (udp_fragmentation, ground arith)
    | inr other ↦ (attack_none, ground arith)
  ]
]

check_flood-Booked :
    (cfg : Config) (now : ℕ) (pkt : Packet) (w : Watch UdpProtectCtx) {v : Verdict}
    {r : Watch UdpProtectCtx}
    → check_flood cfg now pkt w ≡ ok (v, r)
    → (a : Attack) × Booked w v r a
unfolding check_flood
check_flood-Booked cfg now pkt w h =
    let pps = u64 (w.stats.udp_pps + 1) in
    elim (Bool-cases (leb (w.stats.last_update + 1) now)) [
      | inl due ↦ elim (Bool-cases (ltb cfg.udp_pps_threshold pps)) [
        | inl flood ↦ (udp_flood, ground arith)
        | inr calm ↦
            let (a, b) = check_shape-Booked pkt _ (rw (due, calm, check_flood) at h) in
            (
              a,
              record {
                detected = b.detected;
                attributed = b.attributed;
                verdict = b.verdict;
                total = b.total;
                reputation = b.reputation;
              },
            )
      ]
      | inr early ↦
          let (a, b) = check_shape-Booked pkt _ (rw (early, check_flood) at h) in
          (
            a,
            record {
              detected = b.detected;
              attributed = b.attributed;
              verdict = b.verdict;
              total = b.total;
              reputation = b.reputation;
            },
          )
    ]

analyze_counted-Booked :
    (cfg : Config) (now : ℕ) (pkt : Packet) (w : Watch UdpProtectCtx) {v : Verdict}
    {r : Watch UdpProtectCtx}
    → analyze_counted cfg now pkt w ≡ ok (v, r)
    → (a : Attack) × Booked w v r a
unfolding analyze_counted
analyze_counted-Booked cfg now pkt w h = elim (Run-cases (amplification pkt)) [
  | inl e ↦ absurd (ground arith)
  | inr (a, e) ↦ elim (Bool-cases (index a == index attack_none)) [
    | inl quiet ↦ check_flood-Booked cfg now pkt w (ground arith)
    | inr loud ↦ (a, ground arith)
  ]
]

module _ {pkt : Packet} (readable : IsReadable pkt) where
  payload_is-returns :
      (n : ℕ) → n ≤ pkt.payload_len → (text : List ℕ) → (b : Bool) × (payload_is pkt n text ≡ ok b)
  unfolding payload_is
  payload_is-returns n h text =
      let (bs, e) =
        bytes_at-returns pkt.bytes pkt.payload pkt.payload_len 0 n readable.body (omega arith) in
      (is_zero (memcmp n bs text), rw e)

  dns-returns : (b : Bool) × (is_dns_amplification pkt ≡ ok b)
  unfolding is_dns_amplification
  dns-returns = Run-total (is_dns_amplification pkt) (λ e. ground (arith, readable.body 2))

  ntp-returns : (b : Bool) × (is_ntp_amplification pkt ≡ ok b)
  unfolding is_ntp_amplification
  ntp-returns = Run-total (is_ntp_amplification pkt) (λ e. ground (arith, readable.body 0))

  ssdp-returns : (b : Bool) × (is_ssdp_reflection pkt ≡ ok b)
  unfolding is_ssdp_reflection
  ssdp-returns =
      Run-total (is_ssdp_reflection pkt)
        (λ e. ground (arith, λ (h : 12 ≤ pkt.payload_len). payload_is-returns 12 h http_ok))

  memcached-returns : (b : Bool) × (is_memcached_amplification pkt ≡ ok b)
  unfolding is_memcached_amplification
  memcached-returns = Run-total (is_memcached_amplification pkt) (λ e. ground (
    arith,
    λ (h : 5 ≤ pkt.payload_len). payload_is-returns 5 h value_text,
    λ (h : 4 ≤ pkt.payload_len). payload_is-returns 4 h stat_text,
  ))

  amplification-returns : (a : Attack) × (amplification pkt ≡ ok a)
  unfolding amplification
  amplification-returns =
      let (dns, p) = dns-returns in
      let (ntp, q) = ntp-returns in
      let (ssdp, r) = ssdp-returns in
      let (memcached, s) = memcached-returns in Run-total (amplification pkt) (λ e. ground arith)

  analyze_counted-returns :
      (cfg : Config) (now : ℕ) (w : Watch UdpProtectCtx)
      → (o : Verdict × Watch UdpProtectCtx) × (analyze_counted cfg now pkt w ≡ ok o)
  unfolding analyze_counted check_flood check_shape
  analyze_counted-returns cfg now w =
      let (a, p) = amplification-returns in
      let (f, q) = fragment-returns readable in
      let (m, r) = malformed-returns readable in
      Run-total (analyze_counted cfg now pkt w) (λ e. ground arith)

-- On a UDP packet that can be read, with the module initialised, the analysis gives a verdict:
-- the packet is counted, a drop is counted, and an attack is booked once, under one kind, for
-- the source and globally, and only with a drop; the reputation is left alone.
pub udp_protect_analyze-Booked :
    (cfg : Config) (now : ℕ) (pkt : Packet) (w : Watch (Option UdpProtectCtx)) (c : UdpProtectCtx)
    → IsReadable pkt
    → pkt.protocol ≡ proto_udp
    → w.ctx ≡ some c
    → let counted : UdpProtectCtx = record c {
      total_udp_packets = u64 (c.total_udp_packets + 1);
    } in
      let start : Watch UdpProtectCtx = record {
        ctx = counted;
        global = w.global;
        stats = w.stats;
      } in
      (v : Verdict) × (r : Watch UdpProtectCtx) × (a : Attack) × (udp_protect_analyze cfg now pkt w
        ≡ ok (v, record { ctx = some (r.ctx); global = r.global; stats = r.stats }))
      × Booked start v r a
unfolding udp_protect_analyze
udp_protect_analyze-Booked cfg now pkt w c readable p e =
    let udp : (pkt.protocol == proto_udp) ≡ true = ground arith in
    let ((v, r), h) = analyze_counted-returns readable cfg now _ in
    let (a, b) = analyze_counted-Booked cfg now pkt _ h in (v, r, a, rw (udp, e, h), b)
