-- ===== src/Protect/Tcp/Analysis.antt =====
-- `tcp_protect_analyze` of src/detection/tcp_protect.c on every valid cache of connections.
use anti.Base.{
  ℕ, ◌+◌, ◌<◌, ◌≡◌, refl, sym, ap, ◌∙◌, ◌⊎◌, inl, inr, true, false, Option, some, none, List, ◌∷◌,
  ◌++◌, u64, ok, arith, Bool-cases, ==_refl, ◌==◌, deref,
}
use anti.Types.{accept, drop, Config}
use anti.Packet.{Packet, proto_tcp, packet_is_malformed}
use anti.Packet.Reads.{IsReadable}
use anti.Conn.{ConnTuple}
use anti.Conn.Laws.{IsConnTuple}
use anti.Conn.Heap.{ConnEntry, Heap, done, wild, after, zeroed}
use anti.Conn.Reason.{Returns, Returns-after, Risks-of_Returns, wild-after}
use anti.Conn.Table.{hashtable_lookup}
use anti.Lru.{LruCache, opened, lru_cache_get}
use anti.Lru.Calm.{same_entry}
use anti.Lru.Links.{Returns-weaken}
use anti.Lru.Valid.{IsValid}
use anti.Lru.Valid.Hit.{IsFront}
use anti.Lru.Valid.Outcomes.{hit, admitted, denied, full, lru_cache_get_lem}
use anti.Protect.Watch.{Watch}
use anti.Protect.Tcp.{TcpProtectCtx, has_illegal_flags}
use anti.Protect.Tcp.Analyze.{
  tuple_of, Result, analyze_connection, analyze_counted, tcp_protect_analyze,
}
use anti.Protect.Tcp.Steps.{noted, is_slow}
use anti.Protect.Tcp.Verdicts.{IsJudged}
use anti.Protect.Tcp.Connections.{closes_slow, goes_on}

-- The connection that the packet belongs to: one of the cache, or a new one for which it has room.
abbrev pub Starts : LruCache → Heap → ConnTuple → ℕ → ConnEntry → Type 0
Starts cache h key now start =
    ((p : ℕ) × (hashtable_lookup cache.table key h ≡ done (some p) h) × (h.cell p ≡ some start))
    ⊎ ((hashtable_lookup cache.table key h ≡ done none h)
        × (cache.current_size < cache.max_size)
        × (start ≡ opened key now zeroed))

-- The entry that `lru_cache_get` returns.
abbrev Fetched : LruCache → ConnTuple → ℕ → ConnEntry → Option ℕ × LruCache → Heap → Type 0
Fetched cache key now start r k =
    (p : ℕ) × (others : List ℕ) × (r.0 ≡ some p) × IsFront cache key now p others start r.1 k

get_start :
    (cache : LruCache) (h : Heap) (order : List ℕ) (key : ConnTuple) (now : ℕ) (start : ConnEntry)
    → IsValid cache h order
    → IsConnTuple key
    → Starts cache h key now start
    → Returns (Fetched cache key now start) (lru_cache_get cache key now true h)
get_start cache h order key now start v t s =
    elim (lru_cache_get_lem cache h order key now true v t) [
      | hit ps p qs e eq found here r ↦ elim s [
        | inl (q, found_q, here_q) ↦
            let same : p ≡ q = cc (sym found ∙ found_q) in
            let one : e ≡ start = same_entry h.cell here (ap (λ i. h.cell i) same ∙ here_q) in
            Returns-weaken _ (Fetched cache key now start) _
              (λ x k f. (p, ps ++ qs, f.0, rw one at f.1)) r
        | inr (missing, room, fresh) ↦ absurd (cc (sym found ∙ missing))
      ]
      | admitted missing granted room r ↦ elim s [
        | inl (q, found_q, here_q) ↦ absurd (cc (sym missing ∙ found_q))
        | inr (none_there, free, eq) ↦
            Returns-weaken _ (Fetched cache key now start) _
              (λ x k f. (h.fresh, order, f.0, rw eq f.1)) r
      ]
      | denied missing refused e ↦ absurd (cc refused)
      | full missing granted at_limit e ↦ elim s [
        | inl (q, found_q, here_q) ↦ absurd (cc (sym missing ∙ found_q))
        | inr (none_there, free, eq) ↦ absurd (omega (arith, at_limit, free))
      ]
    ]

-- The watch of the detector, with the packet counted.
abbrev pub watch_of : TcpProtectCtx → Watch (Option TcpProtectCtx) → Watch TcpProtectCtx
watch_of ctx w = record {
  ctx = record ctx { total_tcp_packets = u64 (ctx.total_tcp_packets + 1) };
  global = w.global;
  stats = w.stats;
}

-- The analysis returns a verdict and a valid cache.
abbrev pub IsAnalyzed : Packet → TcpProtectCtx → Result (Option TcpProtectCtx) → Heap → Type 0
IsAnalyzed pkt ctx x k =
    ((order : List ℕ) × IsValid x.1 k order)
    × ((c : TcpProtectCtx) × (x.2.ctx ≡ some c)
        × (((x.0 ≡ drop) × (c.dropped_packets ≡ u64 (ctx.dropped_packets + 1)))
            ⊎ ((x.0 ≡ accept)
                × (c.dropped_packets ≡ ctx.dropped_packets)
                × (packet_is_malformed pkt ≡ ok false)
                × (has_illegal_flags pkt.tcp_flags ≡ false))))

module _ (cfg : Config) (now : ℕ) (pkt : Packet) {cache : LruCache} {h : Heap} {order : List ℕ}
    {start : ConnEntry} (v : IsValid cache h order) (t : IsConnTuple (tuple_of pkt))
    (s : Starts cache h (tuple_of pkt) now start) (w₁ : Watch TcpProtectCtx) where
  counted_slow :
      (noted cfg now pkt start w₁).2 ≡ false
      → is_slow cfg now pkt start w₁ ≡ true
      → analyze_counted cfg now true pkt cache w₁ h ≡ wild
  unfolding analyze_counted
  counted_slow kept slow =
      wild-after (Fetched cache (tuple_of pkt) now start)
        (lru_cache_get cache (tuple_of pkt) now true h) _
        (Risks-of_Returns (Fetched cache (tuple_of pkt) now start) _
          (get_start cache h order (tuple_of pkt) now start v t s))
        λ r k (p, others, at_p, f). rw at_p (closes_slow cfg pkt w₁ f kept slow)

  counted-Returns :
      IsReadable pkt
      → ((noted cfg now pkt start w₁).2 ≡ true) ⊎ (is_slow cfg now pkt start w₁ ≡ false)
      → Returns
          (λ x l. IsJudged pkt w₁ x.0 x.2 × ((o : List ℕ) × IsValid x.1 l o))
          (analyze_counted cfg now true pkt cache w₁ h)
  unfolding analyze_counted
  counted-Returns readable calm =
      Returns-after (Fetched cache (tuple_of pkt) now start) _
        (lru_cache_get cache (tuple_of pkt) now true h) _
        (get_start cache h order (tuple_of pkt) now start v t s)
        λ r k (p, others, at_p, f). rw at_p (
          Returns-weaken _ _ (analyze_connection cfg now pkt r.1 p w₁ k)
            (λ x l a. (a.0, (p ∷ others, a.1))) (goes_on cfg pkt w₁ f readable calm))

abbrev wrapped : Result TcpProtectCtx → Result (Option TcpProtectCtx)
wrapped x = (x.0, x.1, record { ctx = some (x.2.ctx); global = x.2.global; stats = x.2.stats })

analysis_steps :
    (cfg : Config) (now : ℕ) (pkt : Packet) (cache : LruCache) (h : Heap) (ctx : TcpProtectCtx)
    (w : Watch (Option TcpProtectCtx))
    → pkt.protocol ≡ proto_tcp
    → w.ctx ≡ some ctx
    → tcp_protect_analyze cfg now true pkt cache w h
      ≡ after
          (analyze_counted cfg now true pkt cache (watch_of ctx w) h)
          (λ x k. done (wrapped x) k)
unfolding tcp_protect_analyze
analysis_steps cfg now pkt cache h ctx w tcp running =
    let is_tcp : (pkt.protocol == proto_tcp) ≡ true =
      ap (λ x. x == proto_tcp) tcp ∙ ==_refl proto_tcp in
    let set : deref (w.ctx) ≡ ok ctx = ap deref running in
    rw (is_tcp, tcp_protect_analyze, set) refl

-- On a valid cache of connections, with the detector initialised, a readable TCP packet with
-- well-formed addresses, of a known connection, or of a new one for which there is room and memory,
-- is analysed to the end: the cache stays valid, and the verdict is a drop, which is counted, or
-- the acceptance of a packet that is not malformed and has legal flags. The exception is a
-- connection that the Slowloris test catches, when no flood was reported before: its removal goes
-- wild.
pub tcp_protect_analyze_lem :
    (cfg : Config) (now : ℕ) (pkt : Packet) (cache : LruCache) (h : Heap) (order : List ℕ)
    (start : ConnEntry) (ctx : TcpProtectCtx) (w : Watch (Option TcpProtectCtx))
    → IsValid cache h order
    → IsConnTuple (tuple_of pkt)
    → IsReadable pkt
    → pkt.protocol ≡ proto_tcp
    → w.ctx ≡ some ctx
    → Starts cache h (tuple_of pkt) now start
    → (((noted cfg now pkt start (watch_of ctx w)).2 ≡ false)
        × (is_slow cfg now pkt start (watch_of ctx w) ≡ true)
        × (tcp_protect_analyze cfg now true pkt cache w h ≡ wild))
      ⊎ ((((noted cfg now pkt start (watch_of ctx w)).2 ≡ true)
            ⊎ (is_slow cfg now pkt start (watch_of ctx w) ≡ false))
          × Returns (IsAnalyzed pkt ctx) (tcp_protect_analyze cfg now true pkt cache w h))
tcp_protect_analyze_lem cfg now pkt cache h order start ctx w v t readable tcp running s =
    let steps = analysis_steps cfg now pkt cache h ctx w tcp running in
    let w₁ = watch_of ctx w in
    let returns : ((noted cfg now pkt start w₁).2 ≡ true) ⊎ (is_slow cfg now pkt start w₁ ≡ false)
        → Returns (IsAnalyzed pkt ctx) (tcp_protect_analyze cfg now true pkt cache w h) =
      λ calm. rw steps (
        Returns-after _ (IsAnalyzed pkt ctx) (analyze_counted cfg now true pkt cache w₁ h) _
          (counted-Returns cfg now pkt v t s w₁ readable calm)
          λ x k a. (a.1, (x.2.ctx, refl, a.0))) in
    elim (Bool-cases (noted cfg now pkt start w₁).2) [
      | inl dropped ↦ inr (inl dropped, returns (inl dropped))
      | inr kept ↦ elim (Bool-cases (is_slow cfg now pkt start w₁)) [
        | inl slow ↦
            inl (kept, slow, steps ∙ rw (counted_slow cfg now pkt v t s w₁ kept slow, after) refl)
        | inr fast ↦ inr (inr fast, returns (inr fast))
      ]
    ]
