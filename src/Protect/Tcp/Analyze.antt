-- ===== src/Protect/Tcp/Analyze.antt =====
-- `tcp_protect_analyze` of src/detection/tcp_protect.c over the connections of
-- src/storage/lru_cache.c. The calls of `time(NULL)` in one analysis return the same `now`.
use anti.Base.{ℕ, ◌+◌, Bool, Option, some, ◌==◌, if◌then◌else◌, u64, deref}
use anti.Types.{Verdict, accept, drop, slowloris, Config}
use anti.Packet.{Packet, proto_tcp}
use anti.Conn.{ConnTuple}
use anti.Conn.Heap.{TcpState, ConnEntry, M, pure, ◌>>=◌, ◌>>◌, lift, load, modify}
use anti.Lru.{LruCache, lru_cache_get, lru_cache_remove}
use anti.Protect.Watch.{Watch, report}
use anti.Protect.Tcp.{TcpProtectCtx, is_slowloris_attack, count_drop, check_flags, check_rest}

abbrev pub tuple_of : Packet → ConnTuple
tuple_of pkt = record {
  src_ip = pkt.src_ip;
  dst_ip = pkt.dst_ip;
  src_port = pkt.src_port;
  dst_port = pkt.dst_port;
  protocol = proto_tcp;
}

-- "Update connection".
abbrev pub counted : ℕ → Packet → ConnEntry → ConnEntry
counted now pkt conn = record conn {
  packets = u64 (conn.packets + 1);
  bytes = u64 (conn.bytes + pkt.len);
  last_seen = now;
}

abbrev pub set_state : TcpState → ConnEntry → ConnEntry
set_state state conn = record conn { state = state }

abbrev pub Result : Type 0 → Type 0
Result C = Verdict × LruCache × Watch C

-- From "Slowloris detection" on.
unfoldable pub check_connection :
    ℕ → Packet → LruCache → ConnEntry → Watch TcpProtectCtx → M (Result TcpProtectCtx)
unfolding report
check_connection now pkt cache conn w =
    let close : M (Result TcpProtectCtx) = (do
      (ret, c) ← lru_cache_remove cache (tuple_of pkt)
      pure (drop, c, count_drop (report slowloris w))) in
    let rest : M (Result TcpProtectCtx) = (do
      (v, r) ← lift (check_rest cache pkt w)
      pure (v, cache, r)) in
    if is_slowloris_attack now conn then close else rest

-- From "Update connection" on.
unfoldable pub analyze_connection :
    Config → ℕ → Packet → LruCache → ℕ → Watch TcpProtectCtx → M (Result TcpProtectCtx)
unfolding load modify check_connection
analyze_connection cfg now pkt cache p w = do
  modify p (counted now pkt)
  conn ← load p
  let noted = check_flags cfg now pkt.tcp_flags conn.state w
  modify p (set_state noted.0)
  e ← load p
  if noted.2 then pure (drop, cache, noted.1) else check_connection now pkt cache e noted.1

-- `tcp_protect_analyze` behind its first counter. `granted` is the success of the allocation of a
-- connection.
unfoldable pub analyze_counted :
    Config → ℕ → Bool → Packet → LruCache → Watch TcpProtectCtx → M (Result TcpProtectCtx)
unfolding analyze_connection
analyze_counted cfg now granted pkt cache w = do
  (conn, c) ← lru_cache_get cache (tuple_of pkt) now granted
  elim conn [
    | Option.none ↦ pure (accept, c, w)
    | Option.some p ↦ analyze_connection cfg now pkt c p w
  ]

-- The global pointer may be NULL, if the initialisation failed.
unfoldable pub tcp_protect_analyze :
    Config
    → ℕ
    → Bool
    → Packet
    → LruCache
    → Watch (Option TcpProtectCtx)
    → M (Result (Option TcpProtectCtx))
unfolding analyze_counted
tcp_protect_analyze cfg now granted pkt cache w =
    let run : M (Result (Option TcpProtectCtx)) = (do
      ctx ← lift (deref (w.ctx))
      (v, c, r) ← analyze_counted cfg now granted pkt cache (record {
        ctx = record ctx { total_tcp_packets = u64 (ctx.total_tcp_packets + 1) };
        global = w.global;
        stats = w.stats;
      })
      pure (v, c, record { ctx = some (r.ctx); global = r.global; stats = r.stats })) in
    if pkt.protocol == proto_tcp then run else pure (accept, cache, w)
