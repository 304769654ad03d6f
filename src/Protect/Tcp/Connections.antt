-- ===== src/Protect/Tcp/Connections.antt =====
-- `tcp_protect_analyze` of src/detection/tcp_protect.c on a valid cache of connections.
use anti.Base.{
  ℕ, ◌+◌, ◌≡◌, refl, sym, ap, ◌∙◌, ◌⊎◌, inl, inr, true, false, some, List, ◌∷◌, u64, if◌then◌else◌,
}
use anti.Types.{Verdict, drop, Config}
use anti.Packet.{Packet}
use anti.Packet.Reads.{IsReadable}
use anti.Conn.Heap.{TcpState, ConnEntry, Heap, done, wild, after}
use anti.Conn.Reason.{Returns}
use anti.Conn.Table.{hashtable_lookup}
use anti.Lru.{LruCache}
use anti.Lru.DoubleFree.{lru_cache_remove_wild}
use anti.Lru.Valid.{IsValid}
use anti.Lru.Valid.Hit.{IsFront}
use anti.Lru.Valid.Written.{SameLinks, written, written-IsValid, listed_here}
use anti.Protect.Watch.{Watch}
use anti.Protect.Tcp.{TcpProtectCtx, Noted, is_slowloris_attack}
use anti.Protect.Tcp.Analyze.{tuple_of, counted, set_state, check_connection, analyze_connection}
use anti.Protect.Tcp.Steps.{written_here, noted, is_slow, updated, analyze_connection_steps}
use anti.Protect.Tcp.Verdicts.{IsJudged, check_rest-IsJudged, check_flags-IsBooked}

IsJudged-from :
    (pkt : Packet) (w w₁ r : Watch TcpProtectCtx) (v : Verdict)
    → w₁.ctx.dropped_packets ≡ w.ctx.dropped_packets
    → IsJudged pkt w₁ v r
    → IsJudged pkt w v r
IsJudged-from pkt w w₁ r v e (inl (x, d)) = inl (x, d ∙ ap (λ n. u64 (n + 1)) e)
IsJudged-from pkt w w₁ r v e (inr (x, d, good, legal)) = inr (x, d ∙ e, good, legal)

module _ {cache c : LruCache} {k : Heap} {others : List ℕ} {start : ConnEntry} {now p : ℕ}
    (cfg : Config) (pkt : Packet) (w : Watch TcpProtectCtx)
    (f : IsFront cache (tuple_of pkt) now p others start c k) where
  abbrev n : Noted
  n = noted cfg now pkt start w

  slow_entry :
      (state : TcpState)
      → is_slowloris_attack now (set_state state (counted now pkt f.entry))
        ≡ is_slowloris_attack now (set_state state (counted now pkt start))
  unfolding is_slowloris_attack
  slow_entry state = rw (f.activity.first_seen, f.activity.packets, f.activity.bytes) refl

  IsValid-after : (state : TcpState) → IsValid c (updated now pkt p state f.entry k) (p ∷ others)
  IsValid-after state =
      let d = counted now pkt f.entry in
      let same : SameLinks d f.entry = record {
        tuple = refl;
        next = refl;
        lru_prev = refl;
        lru_next = refl;
      } in
      let again : SameLinks (set_state state d) d = record {
        tuple = refl;
        next = refl;
        lru_prev = refl;
        lru_next = refl;
      } in
      written-IsValid p d (set_state state d) (written_here k p d) again
        (written-IsValid p f.entry d f.here same f.valid)

  steps : analyze_connection cfg now pkt c p w k ≡ (
      if (noted cfg now pkt start w).2
      then done
          (drop, c, (noted cfg now pkt start w).1)
          (updated now pkt p (noted cfg now pkt start w).0 f.entry k)
      else check_connection now pkt c
          (set_state (noted cfg now pkt start w).0 (counted now pkt f.entry))
          (noted cfg now pkt start w).1
          (updated now pkt p (noted cfg now pkt start w).0 f.entry k))
  steps = rw⁻¹ (f.activity.state) (analyze_connection_steps cfg now pkt c p w k f.entry f.here)

  pub closes_slow :
      (noted cfg now pkt start w).2 ≡ false
      → is_slow cfg now pkt start w ≡ true
      → analyze_connection cfg now pkt c p w k ≡ wild
  unfolding check_connection
  closes_slow kept slow =
      let d = counted now pkt f.entry in
      let k₂ = updated now pkt p n.0 f.entry k in
      let here = written_here (written k p d) p (set_state n.0 d) in
      let key : hashtable_lookup c.table (tuple_of pkt) k₂ ≡ done (some p) k₂ =
        rw⁻¹ (f.tuple) (listed_here (IsValid-after n.0) (inl refl) here) in
      let removed = lru_cache_remove_wild c (tuple_of pkt) p k₂ key in
      let test = slow_entry n.0 ∙ slow in
      steps ∙ rw (kept, test, check_connection, after, removed) refl

  pub goes_on :
      IsReadable pkt
      → ((noted cfg now pkt start w).2 ≡ true) ⊎ (is_slow cfg now pkt start w ≡ false)
      → Returns
          (λ x l. IsJudged pkt w x.0 x.2 × IsValid x.1 l (p ∷ others))
          (analyze_connection cfg now pkt c p w k)
  unfolding check_connection
  goes_on readable calm =
      rw steps (elim (check_flags-IsBooked cfg now pkt.tcp_flags start.state w) [
        | inl (dropped, booked) ↦ rw dropped (inl (refl, booked), IsValid-after n.0)
        | inr (kept, booked) ↦
            let fast : is_slow cfg now pkt start w ≡ false = elim calm [
              | inl dropped ↦ absurd (cc (sym dropped ∙ kept))
              | inr other ↦ other
            ] in
            let test = slow_entry n.0 ∙ fast in
            let (v, r, e, judged) = check_rest-IsJudged c pkt n.1 readable in
            rw (kept, test, check_connection, e)
              (IsJudged-from pkt w n.1 r v booked judged, IsValid-after n.0)
      ])
