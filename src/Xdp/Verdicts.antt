-- ===== src/Xdp/Verdicts.antt =====
-- What the filter decides, and what it counts.
use anti.Base.{
  ℕ, ◌+◌, ◌*◌, ◌≤◌, ◌<◌, ◌≡◌, ◌⊎◌, ◌↔◌, ◌^◌, ◌%◌, inl, inr, refl, Bool, true, false, List, none,
  some, arith, length, ok, u64, Run-cases, Option-cases, success,
}
use anti.Packet.{byte_at, ntohs_at}
use anti.Xdp.{
  Maps, Action, xdp_pass, xdp_drop, parse_eth, parse_ipv4, tcp_case, udp_case, icmp_case,
  protocol_case, saddr, judge, finish, update_stat, xdp_ddos_filter, iph, has, stat_total_packets,
  stat_dropped_packets, stat_passed_packets,
}

-- A frame that the filter takes for IPv4: `h_proto` is `ETH_P_IP`, and the header is whole.
pub record IsIpv4 (frame : List ℕ) (src_ip : ℕ) : Type 0 where
  pub ethernet : parse_eth frame ≡ success
  pub h_proto : ntohs_at frame (some 0) 12 ≡ ok 0x0800
  pub header : parse_ipv4 frame ≡ ok success
  pub source : saddr frame ≡ ok src_ip

-- The counters of the verdict, which the protocol cases leave alone.
Keeps : (ℕ → ℕ) → (ℕ → ℕ) → Type 0
Keeps stats after =
    (after stat_total_packets ≡ stats stat_total_packets)
    × (after stat_dropped_packets ≡ stats stat_dropped_packets)
    × (after stat_passed_packets ≡ stats stat_passed_packets)

protocol_case-Keeps :
    (frame : List ℕ) (stats : ℕ → ℕ) {dropping : Bool} {after : ℕ → ℕ}
    → protocol_case frame stats ≡ ok (dropping, after)
    → Keeps stats after
unfolding protocol_case tcp_case udp_case icmp_case update_stat Keeps
protocol_case-Keeps frame stats e = ground arith

judge-whitelisted :
    (maps : Maps) (frame : List ℕ) (stats : ℕ → ℕ) (src_ip mark : ℕ)
    → saddr frame ≡ ok src_ip
    → maps.whitelist src_ip ≡ some mark
    → judge maps frame stats ≡ ok (finish false stats)
unfolding judge
judge-whitelisted maps frame stats src_ip mark e f = rw (e, f)

-- A frame of a whitelisted source passes, whatever its protocol part says and the blacklist holds.
pub xdp_ddos_filter-whitelisted :
    (maps : Maps) (frame : List ℕ) (src_ip mark : ℕ)
    → IsIpv4 frame src_ip
    → maps.whitelist src_ip ≡ some mark
    → (after : ℕ → ℕ) × (xdp_ddos_filter maps frame ≡ ok (xdp_pass, after))
      × (after stat_dropped_packets ≡ maps.stats stat_dropped_packets)
unfolding xdp_ddos_filter finish update_stat
xdp_ddos_filter-whitelisted maps frame src_ip mark v e =
    let start = update_stat stat_total_packets 1 maps.stats in
    (
      (finish false start).1,
      rw (
        v.ethernet,
        v.h_proto,
        v.header,
        judge-whitelisted maps frame start src_ip mark v.source e,
      ),
      refl,
    )

-- A frame of a source that is blacklisted and not whitelisted is dropped, and counted twice
-- among the dropped packets.
pub xdp_ddos_filter-blacklisted :
    (maps : Maps) (frame : List ℕ) (src_ip blocked_time : ℕ)
    → IsIpv4 frame src_ip
    → maps.whitelist src_ip ≡ none
    → maps.blacklist src_ip ≡ some blocked_time
    → maps.stats stat_dropped_packets + 2 < 2 ^ 64
    → (after : ℕ → ℕ) × (xdp_ddos_filter maps frame ≡ ok (xdp_drop, after))
      × (after stat_dropped_packets ≡ maps.stats stat_dropped_packets + 2)
unfolding xdp_ddos_filter judge finish update_stat
xdp_ddos_filter-blacklisted maps frame src_ip blocked_time v e f room =
    let start = update_stat stat_total_packets 1 maps.stats in
    (
      (finish true (update_stat stat_dropped_packets 1 start)).1,
      rw (v.ethernet, v.h_proto, v.header, v.source, e, f),
      omega arith,
    )

-- What one frame adds: it is counted once in total, and once as passed or as dropped; only a
-- blacklisted source adds two to the dropped packets.
pub record Counted (before after : ℕ → ℕ) (action : Action) (twice : Type 0) : Type 0 where
  pub total : after stat_total_packets ≡ u64 (before stat_total_packets + 1)
  pub verdict :
      ((action ≡ xdp_pass)
        × (after stat_passed_packets ≡ u64 (before stat_passed_packets + 1))
        × (after stat_dropped_packets ≡ before stat_dropped_packets))
      ⊎ ((action ≡ xdp_drop)
          × (after stat_passed_packets ≡ before stat_passed_packets)
          × ((after stat_dropped_packets ≡ u64 (before stat_dropped_packets + 1))
              ⊎ (twice
                  × (after stat_dropped_packets
                      ≡ u64 (u64 (before stat_dropped_packets + 1) + 1)))))

-- The source of the frame is on the blacklist.
abbrev pub Blacklisted : Maps → List ℕ → Type 0
Blacklisted maps frame =
    (src_ip : ℕ) × (saddr frame ≡ ok src_ip)
    × (blocked_time : ℕ) × (maps.blacklist src_ip ≡ some blocked_time)

judge-Counted :
    (maps : Maps) (frame : List ℕ) {action : Action} {after : ℕ → ℕ}
    → judge maps frame (update_stat stat_total_packets 1 maps.stats) ≡ ok (action, after)
    → Counted maps.stats after action (Blacklisted maps frame)
unfolding judge finish update_stat
judge-Counted maps frame h =
    let start = update_stat stat_total_packets 1 maps.stats in
    elim (Run-cases (saddr frame)) [
      | inl e ↦ absurd (ground arith)
      | inr (src_ip, e) ↦ elim (Option-cases (maps.whitelist src_ip)) [
        | inr (mark, f) ↦ ground arith
        | inl f ↦ elim (Option-cases (maps.blacklist src_ip)) [
          | inr (t, g) ↦ let twice : Blacklisted maps frame = (src_ip, e, t, g) in ground arith
          | inl g ↦ elim (Run-cases (protocol_case frame start)) [
            | inl p ↦ absurd (ground arith)
            | inr ((dropping, counted), p) ↦
                let keeps = protocol_case-Keeps frame start p in unfold Keeps in ground arith
          ]
        ]
      ]
    ]

-- Each run of the filter counts its frame once in total, and once as passed or as dropped, by its
-- action; only a frame of a blacklisted source can count twice among the dropped.
pub xdp_ddos_filter-Counted :
    (maps : Maps) (frame : List ℕ) {action : Action} {after : ℕ → ℕ}
    → xdp_ddos_filter maps frame ≡ ok (action, after)
    → Counted maps.stats after action (Blacklisted maps frame)
unfolding xdp_ddos_filter finish update_stat
xdp_ddos_filter-Counted maps frame {action} {after} h =
    ground (arith, judge-Counted maps frame {action = action} {after = after})

-- The source is on neither list.
abbrev pub Unlisted : Maps → ℕ → Type 0
Unlisted maps src_ip = (maps.whitelist src_ip ≡ none) × (maps.blacklist src_ip ≡ none)

-- A whole TCP header of an unlisted source is dropped exactly for SYN with FIN, SYN with RST, or
-- none of the six flags.
pub xdp_ddos_filter-tcp_iff :
    (maps : Maps) (frame : List ℕ) (src_ip b flags : ℕ) {action : Action} {after : ℕ → ℕ}
    → IsIpv4 frame src_ip
    → Unlisted maps src_ip
    → byte_at frame (some iph) 0 ≡ ok b
    → byte_at frame (some iph) 9 ≡ ok 6
    → iph + b % 16 * 4 + 20 ≤ length frame
    → byte_at frame (some (iph + b % 16 * 4)) 13 ≡ ok flags
    → xdp_ddos_filter maps frame ≡ ok (action, after)
    → (action ≡ xdp_drop) ↔ (
        ((has flags 2 ≡ true) × (has flags 1 ≡ true))
        ⊎ (((has flags 2 ≡ true) × (has flags 4 ≡ true))
            ⊎ ((has flags 1 ≡ false)
                × (has flags 2 ≡ false)
                × (has flags 4 ≡ false)
                × (has flags 8 ≡ false)
                × (has flags 16 ≡ false)
                × (has flags 32 ≡ false))))
unfolding xdp_ddos_filter judge finish protocol_case tcp_case
xdp_ddos_filter-tcp_iff maps frame src_ip b flags v unlisted p q h r e =
    let eth = v.ethernet in
    let proto = v.h_proto in let header = v.header in let source = v.source in ground arith
