-- ===== src/Protect/Udp/Floods.antt =====
-- Which packets the UDP protection drops, and what a flood does to the packets that follow it.
use anti.Base.{
  ℕ, ◌+◌, ◌≤◌, ◌<◌, ◌^◌, ◌≡◌, ◌≢◌, ◌⊎◌, ◌↔◌, inl, inr, refl, Bool, true, List, [], ◌∷◌, Option, u64,
  Run, ok, ◌>>=◌, arith, length, Run-cases, sym, ◌∙◌,
}
use mathlib.Core.Path.{subst}
use anti.Types.{Verdict, drop, Attack, attack_none, Config, IpStats}
use anti.Packet.{Packet, proto_udp, packet_is_fragment, packet_is_malformed}
use anti.Protect.Watch.{Watch}
use anti.Protect.Udp.{
  UdpProtectCtx, amplification, check_shape, check_flood, analyze_counted, udp_protect_analyze,
}

-- More packets than the threshold since the last reset, and a second has passed.
abbrev pub IsFlood : Config → ℕ → IpStats → Type 0
IsFlood cfg now stats =
    (stats.last_update < now) × (cfg.udp_pps_threshold < u64 (stats.udp_pps + 1))

-- Where the analysis ends, a UDP packet is dropped exactly for an amplification reply, a flood, a fragment with less than
-- eight bytes of payload, or a malformed header.
pub udp_protect_analyze-drop_iff :
    (cfg : Config) (now : ℕ) (pkt : Packet) (w : Watch (Option UdpProtectCtx)) {a : Attack}
    {fragment malformed : Bool} {v : Verdict} {r : Watch (Option UdpProtectCtx)}
    → pkt.protocol ≡ proto_udp
    → amplification pkt ≡ ok a
    → packet_is_fragment pkt ≡ ok fragment
    → packet_is_malformed pkt ≡ ok malformed
    → udp_protect_analyze cfg now pkt w ≡ ok (v, r)
    → (v ≡ drop) ↔ (
        (a ≢ attack_none)
        ⊎ (IsFlood cfg now w.stats
            ⊎ (((fragment ≡ true) × (pkt.payload_len < 8)) ⊎ (malformed ≡ true))))
unfolding udp_protect_analyze analyze_counted check_flood check_shape
udp_protect_analyze-drop_iff cfg now pkt w p q s t h = ground arith

-- UDP packets of one source in the order of their arrival, each with its time, with none of another
-- protocol between them.
unfoldable pub stream :
    Config
    → List (ℕ × Packet)
    → Watch (Option UdpProtectCtx)
    → Run (List Verdict × Watch (Option UdpProtectCtx))
stream cfg [] w = ok ([], w)
stream cfg ((now, pkt) ∷ rest) w = do
  (v, w') ← udp_protect_analyze cfg now pkt w
  (vs, r) ← stream cfg rest w'
  ok (v ∷ vs, r)

-- UDP packets that come later than `t`.
abbrev pub AllAfter : ℕ → List (ℕ × Packet) → Type 0
AllAfter t [] = Unit
AllAfter t (x ∷ xs) = (x.1.protocol ≡ proto_udp) × (t < x.0) × AllAfter t xs

abbrev pub AllDropped : List Verdict → Type 0
AllDropped [] = Unit
AllDropped (v ∷ vs) = (v ≡ drop) × AllDropped vs

latch_step :
    (cfg : Config) (now : ℕ) (pkt : Packet) (w : Watch (Option UdpProtectCtx)) {v : Verdict}
    {r : Watch (Option UdpProtectCtx)}
    → pkt.protocol ≡ proto_udp
    → w.stats.last_update < now
    → cfg.udp_pps_threshold < w.stats.udp_pps
    → w.stats.udp_pps + 1 < 2 ^ 64
    → udp_protect_analyze cfg now pkt w ≡ ok (v, r)
    → (v ≡ drop)
      × (r.stats.last_update ≡ w.stats.last_update)
      × (w.stats.udp_pps ≤ r.stats.udp_pps)
      × (r.stats.udp_pps ≤ w.stats.udp_pps + 1)
unfolding udp_protect_analyze analyze_counted check_flood
latch_step cfg now pkt w p late over room h = ground arith

-- Once the UDP counter of a source is over the threshold and a second has passed since its last reset, a
-- run of UDP packets from the source, with no packet of another protocol between them, does not reset it:
-- each of them that comes in a later second than that reset is dropped, at whatever rate they come, as long
-- as the counter does not wrap.
pub stream-AllDropped :
    (cfg : Config) (xs : List (ℕ × Packet)) (w : Watch (Option UdpProtectCtx)) {vs : List Verdict}
    {r : Watch (Option UdpProtectCtx)}
    → cfg.udp_pps_threshold < w.stats.udp_pps
    → w.stats.udp_pps + length xs < 2 ^ 64
    → AllAfter w.stats.last_update xs
    → stream cfg xs w ≡ ok (vs, r)
    → AllDropped vs × (length vs ≡ length xs) × (r.stats.last_update ≡ w.stats.last_update)
unfolding stream
stream-AllDropped cfg [] w {vs} {r} over room after h =
    let none_left : vs ≡ [] = cc in rw none_left (tt, refl, ground arith)
stream-AllDropped cfg ((now, pkt) ∷ xs) w {vs} {r} over room after h =
    elim (Run-cases (udp_protect_analyze cfg now pkt w)) [
      | inl e ↦ absurd (ground arith)
      | inr ((v, w'), e) ↦
          let (p, late, rest) = after in
          let (dropped, kept, lower, upper) =
            latch_step cfg now pkt w p late over (omega arith) e in
          elim (Run-cases (stream cfg xs w')) [
            | inl f ↦ absurd (ground arith)
            | inr ((ws, r'), f) ↦
                let ih =
                  stream-AllDropped cfg xs w' (omega arith) (omega arith)
                    (subst (λ t. AllAfter t xs) (sym kept) rest) f in
                let all : vs ≡ v ∷ ws = ground arith in
                let last : r ≡ r' = ground arith in
                rw (all, last) ((dropped, ih.0), omega (arith, ih.1), ih.2 ∙ kept)
          ]
    ]
