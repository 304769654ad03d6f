-- ===== src/Tests/Xdp.antt =====
-- Frames, for the theorems on ebpf/xdp_filter.c.
use anti.Base.{ℕ, ◌≡◌, refl, List, [], ◌∷◌, ◌++◌, none, some, replicate, ok, Run}
use anti.Packet.{byte_at, ntohs_at}
use anti.Xdp.{
  Maps, Action, xdp_drop, xdp_ddos_filter, parse_eth, parse_ipv4, saddr, judge, protocol_case,
  tcp_case, finish, update_stat,
}
use anti.Xdp.Safety.{xdp_ddos_filter-returns}
use anti.Xdp.Verdicts.{IsIpv4, Counted, Blacklisted, xdp_ddos_filter-Counted}

-- An Ethernet header, an IPv4 header of the source 10.0.0.1, and a TCP header with SYN and FIN.
abbrev syn_fin : List ℕ
syn_fin =
    replicate 12 0
    ++ (8 ∷ 0 ∷ 0x45 ∷ 0 ∷ 0 ∷ 40 ∷ 0 ∷ 0 ∷ 0 ∷ 0 ∷ 64 ∷ 6 ∷ 0 ∷ 0 ∷ 10 ∷ 0 ∷ 0 ∷ 1 ∷ [])
    ++ (replicate 4 0 ++ (replicate 13 0 ++ (3 ∷ replicate 6 0)))

abbrev no_lists : Maps
no_lists = record { blacklist = λ a. none; whitelist = λ a. none; stats = λ k. 0 }

abbrev trusting : Maps
trusting = record no_lists { whitelist = λ a. some 1; blacklist = λ a. some 7 }

abbrev blocking : Maps
blocking = record no_lists { blacklist = λ a. some 7 }

abbrev source : ℕ
source = 0x0100000a

syn_fin-IsIpv4 : IsIpv4 syn_fin source
unfolding parse_eth ntohs_at byte_at parse_ipv4 saddr
syn_fin-IsIpv4 = record { ethernet = refl; h_proto = refl; header = refl; source = refl }

xdp_ddos_filter-returns_example : (o : Action × (ℕ → ℕ)) × (xdp_ddos_filter blocking syn_fin ≡ ok o)
xdp_ddos_filter-returns_example = xdp_ddos_filter-returns blocking syn_fin

abbrev ran : Run (Action × (ℕ → ℕ))
ran = xdp_ddos_filter no_lists syn_fin

syn_fin_dropped : (after : ℕ → ℕ) × (ran ≡ ok (xdp_drop, after))
unfolding xdp_ddos_filter judge finish update_stat protocol_case tcp_case parse_eth parse_ipv4 saddr
    ntohs_at byte_at
syn_fin_dropped = (_, refl)

xdp_ddos_filter-Counted_example :
    Counted (λ k. 0) syn_fin_dropped.0 xdp_drop (Blacklisted no_lists syn_fin)
xdp_ddos_filter-Counted_example = xdp_ddos_filter-Counted no_lists syn_fin syn_fin_dropped.1
