-- ===== src/Protect/Tcp/Verdicts.antt =====
-- The verdicts of src/detection/tcp_protect.c on a connection, and what they book.
use anti.Base.{
  ℕ, ◌+◌, ◌≡◌, ◌⊎◌, inl, inr, refl, ap, ◌∙◌, Bool, true, false, ◌&&◌, ◌||◌, ltb, ◌==◌, u64, ok,
  arith, Bool-cases,
}
use anti.Types.{Verdict, accept, drop, Config}
use anti.Packet.{Packet, packet_is_malformed}
use anti.Packet.Reads.{IsReadable, malformed-returns}
use anti.Conn.Heap.{TcpState}
use anti.Lru.{LruCache}
use anti.Protect.Watch.{Watch}
use anti.Protect.Tcp.{
  TcpProtectCtx, Noted, count_drop, on_syn, on_ack, on_rst, on_fin, tally, check_psh_ack,
  check_flags, has_illegal_flags, nearly_full, syn_flag, check_rest,
}

-- What a branch on the flags books: a drop is counted.
abbrev pub IsBooked : Watch TcpProtectCtx → Noted → Type 0
IsBooked w n =
    ((n.2 ≡ true) × (n.1.ctx.dropped_packets ≡ u64 (w.ctx.dropped_packets + 1)))
    ⊎ ((n.2 ≡ false) × (n.1.ctx.dropped_packets ≡ w.ctx.dropped_packets))

on_syn-IsBooked : (cfg : Config) (now : ℕ) (w : Watch TcpProtectCtx) → IsBooked w (on_syn cfg now w)
unfolding on_syn
on_syn-IsBooked cfg now w = ground arith

on_ack-IsBooked :
    (cfg : Config) (now flags : ℕ) (state : TcpState) (w : Watch TcpProtectCtx)
    → IsBooked w (on_ack cfg now flags state w)
unfolding on_ack check_psh_ack
on_ack-IsBooked cfg now flags state w = ground arith

on_rst-IsBooked : (w : Watch TcpProtectCtx) → IsBooked w (on_rst w)
unfolding on_rst tally
on_rst-IsBooked w = ground arith

on_fin-IsBooked : (state : TcpState) (w : Watch TcpProtectCtx) → IsBooked w (on_fin state w)
unfolding on_fin tally
on_fin-IsBooked state w = ground arith

pub check_flags-IsBooked :
    (cfg : Config) (now flags : ℕ) (state : TcpState) (w : Watch TcpProtectCtx)
    → IsBooked w (check_flags cfg now flags state w)
unfolding check_flags
check_flags-IsBooked cfg now flags state w = ground (
  arith,
  on_syn-IsBooked cfg now w,
  on_ack-IsBooked cfg now flags state w,
  on_rst-IsBooked w,
  on_fin-IsBooked state w,
)

-- A verdict on a packet: a drop, which is counted, or the acceptance of a well-formed packet with
-- legal flags.
abbrev pub IsJudged : Packet → Watch TcpProtectCtx → Verdict → Watch TcpProtectCtx → Type 0
IsJudged pkt w v r =
    ((v ≡ drop) × (r.ctx.dropped_packets ≡ u64 (w.ctx.dropped_packets + 1)))
    ⊎ ((v ≡ accept)
        × (r.ctx.dropped_packets ≡ w.ctx.dropped_packets)
        × (packet_is_malformed pkt ≡ ok false)
        × (has_illegal_flags pkt.tcp_flags ≡ false))

or_false : (a b : Bool) → (a || b) ≡ false → (a ≡ false) × (b ≡ false)
or_false a b h = ground arith

pub check_rest-IsJudged :
    (cache : LruCache) (pkt : Packet) (w : Watch TcpProtectCtx)
    → IsReadable pkt
    → (v : Verdict) × (r : Watch TcpProtectCtx) × (check_rest cache pkt w ≡ ok (v, r))
      × IsJudged pkt w v r
unfolding check_rest
check_rest-IsJudged cache pkt w readable =
    let (bad, e) = malformed-returns readable in
    elim (Bool-cases
      (nearly_full cache && (pkt.tcp_flags == syn_flag && ltb w.stats.reputation_score 50))) [
        | inl exhausted ↦ (drop, count_drop w, rw (exhausted, check_rest) refl, inl (refl, refl))
        | inr other ↦ elim (Bool-cases (bad || has_illegal_flags pkt.tcp_flags)) [
          | inl refused ↦
              (drop, count_drop w, rw (other, e, refused, check_rest) refl, inl (refl, refl))
          | inr legal ↦ (
            accept,
            w,
            rw (other, e, legal, check_rest) refl,
            inr (refl, refl, e ∙ ap ok (or_false bad _ legal).0, (or_false bad _ legal).1),
          )
        ]
      ]
