-- ===== src/Protect/Tcp.antt =====
-- src/detection/tcp_protect.c: what it makes of a segment. `Protect/Tcp/Analyze` is the analysis over
-- the connections of src/storage/lru_cache.c.
pub mod Analyze
pub mod Verdicts
pub mod Steps
pub mod Connections
pub mod Analysis
use anti.Base.{
  ℕ, ◌+◌, bit_and, Bool, true, false, not, ◌&&◌, ◌||◌, Option, none, some, ltb, leb, ◌==◌,
  if◌then◌else◌, u64, Run, ok, ◌>>=◌,
}
use anti.Types.{
  Verdict, accept, drop, Attack, tcp_syn_flood, tcp_ack_flood, tcp_psh_ack_flood, tcp_rst_flood,
  tcp_fin_flood, slowloris, bump, IpStats, Config,
}
use anti.Packet.{Packet, proto_tcp, packet_is_malformed}
use anti.Conn.Heap.{
  TcpState, syn_sent, syn_received, established, fin_wait, close_wait, closed, ConnEntry,
}
use anti.Lru.{LruCache, lru_cache_size}
use anti.Protect.Watch.{Watch, report}

-- `TCP_FLAG_SYN`, `TCP_FLAG_ACK`, and `TCP_FLAG_ACK | TCP_FLAG_PSH`.
abbrev pub syn_flag : ℕ
syn_flag = 0x02

abbrev pub ack_flag : ℕ
ack_flag = 0x10

abbrev pub psh_ack_flags : ℕ
psh_ack_flags = 0x18

pub record TcpProtectCtx : Type 0 where
  pub total_tcp_packets : ℕ
  pub syn_packets : ℕ
  pub ack_packets : ℕ
  pub rst_packets : ℕ
  pub fin_packets : ℕ
  pub dropped_packets : ℕ
  pub last_update : ℕ

-- `tcp_protect_init`: `granted` is the success of `calloc`, and `none` the -1 of the function.
unfoldable pub tcp_protect_init : Bool → ℕ → Option TcpProtectCtx
tcp_protect_init granted now =
    if granted
    then some (record {
      total_tcp_packets = 0;
      syn_packets = 0;
      ack_packets = 0;
      rst_packets = 0;
      fin_packets = 0;
      dropped_packets = 0;
      last_update = now;
    })
    else none

-- `tcp_protect_cleanup`: the counters are freed, and the pointer is NULL.
unfoldable pub tcp_protect_cleanup : Option TcpProtectCtx → Option TcpProtectCtx
tcp_protect_cleanup ctx = none

abbrev pub is_open : TcpState → Bool
is_open syn_sent = false
is_open syn_received = true
is_open established = true
is_open fin_wait = false
is_open close_wait = false
is_open closed = false

unfoldable pub is_slowloris_attack : ℕ → ConnEntry → Bool
is_slowloris_attack now conn =
    is_open conn.state
    && ((ltb (conn.first_seen + 60) now && ltb conn.packets 10)
        || (ltb (conn.first_seen + 30) now && ltb conn.bytes 100))

abbrev pub count_drop : Watch TcpProtectCtx → Watch TcpProtectCtx
count_drop w = record w {
  ctx = record (w.ctx) { dropped_packets = u64 (w.ctx.dropped_packets + 1) };
}

-- The state of the connection and the watch after a branch, and whether it returned a drop.
abbrev pub Noted : Type 0
Noted = TcpState × Watch TcpProtectCtx × Bool

-- A segment with SYN alone.
unfoldable pub on_syn : Config → ℕ → Watch TcpProtectCtx → Noted
unfolding report
on_syn cfg now w₀ =
    let stats : IpStats = record (w₀.stats) { tcp_syn_pps = u64 (w₀.stats.tcp_syn_pps + 1) } in
    let w : Watch TcpProtectCtx = record w₀ {
      ctx = record (w₀.ctx) { syn_packets = u64 (w₀.ctx.syn_packets + 1) };
      stats = stats;
    } in
    let reset : Watch TcpProtectCtx = record w {
      stats = record stats { tcp_syn_pps = 0; last_update = now };
    } in
    if leb (stats.last_update + 1) now
    then (if ltb cfg.tcp_syn_pps_threshold stats.tcp_syn_pps
        then (syn_sent, count_drop (report tcp_syn_flood w), true)
        else (syn_sent, reset, false))
    else (syn_sent, w, false)

abbrev pub after_syn_ack : TcpState → TcpState
after_syn_ack syn_sent = syn_received
after_syn_ack syn_received = syn_received
after_syn_ack established = established
after_syn_ack fin_wait = fin_wait
after_syn_ack close_wait = close_wait
after_syn_ack closed = closed

abbrev pub after_ack : TcpState → TcpState
after_ack syn_sent = syn_sent
after_ack syn_received = established
after_ack established = established
after_ack fin_wait = fin_wait
after_ack close_wait = close_wait
after_ack closed = closed

abbrev pub after_fin : TcpState → TcpState
after_fin syn_sent = syn_sent
after_fin syn_received = syn_received
after_fin established = fin_wait
after_fin fin_wait = fin_wait
after_fin close_wait = close_wait
after_fin closed = closed

-- "Detect PSH+ACK flood".
unfoldable pub check_psh_ack : ℕ → TcpState → Watch TcpProtectCtx → Noted
unfolding report
check_psh_ack flags state w =
    if flags == psh_ack_flags && ltb 1000 (w.stats.packets tcp_psh_ack_flood)
    then (state, count_drop (report tcp_psh_ack_flood w), true)
    else (state, w, false)

-- A segment with ACK, or PSH and ACK.
unfoldable pub on_ack : Config → ℕ → ℕ → TcpState → Watch TcpProtectCtx → Noted
unfolding report check_psh_ack
on_ack cfg now flags state w₀ =
    let stats : IpStats = record (w₀.stats) { tcp_ack_pps = u64 (w₀.stats.tcp_ack_pps + 1) } in
    let w : Watch TcpProtectCtx = record w₀ {
      ctx = record (w₀.ctx) { ack_packets = u64 (w₀.ctx.ack_packets + 1) };
      stats = stats;
    } in
    let reset : Watch TcpProtectCtx = record w { stats = record stats { tcp_ack_pps = 0 } } in
    if leb (stats.last_update + 1) now
    then (if ltb cfg.tcp_ack_pps_threshold stats.tcp_ack_pps
        then (after_ack state, count_drop (report tcp_ack_flood w), true)
        else check_psh_ack flags (after_ack state) reset)
    else check_psh_ack flags (after_ack state) w

-- `stats->packets[a]++`, and the report of the attack above 5000.
unfoldable pub tally : Attack → TcpState → Watch TcpProtectCtx → Noted
tally a state w₀ =
    let w : Watch TcpProtectCtx = record w₀ {
      stats = record (w₀.stats) { packets = bump (w₀.stats.packets) a };
    } in
    let reported : Watch TcpProtectCtx = record w {
      global = record (w.global) { attacks_detected = bump (w.global.attacks_detected) a };
    } in
    if ltb 5000 (w.stats.packets a) then (state, count_drop reported, true) else (state, w, false)

unfoldable pub on_rst : Watch TcpProtectCtx → Noted
unfolding tally
on_rst w =
    tally tcp_rst_flood closed
      (record w { ctx = record (w.ctx) { rst_packets = u64 (w.ctx.rst_packets + 1) } })

unfoldable pub on_fin : TcpState → Watch TcpProtectCtx → Noted
unfolding tally
on_fin state w =
    tally tcp_fin_flood (after_fin state)
      (record w { ctx = record (w.ctx) { fin_packets = u64 (w.ctx.fin_packets + 1) } })

-- "Analyze TCP flags".
unfoldable pub check_flags : Config → ℕ → ℕ → TcpState → Watch TcpProtectCtx → Noted
unfolding on_syn on_ack on_rst on_fin
check_flags cfg now flags state w =
    if flags == syn_flag
    then on_syn cfg now w
    else if bit_and flags 0x12 == 0x12
    then (after_syn_ack state, w, false)
    else if flags == ack_flag || flags == psh_ack_flags
    then on_ack cfg now flags state w
    else if not (bit_and flags 0x04 == 0)
    then on_rst w
    else if not (bit_and flags 0x01 == 0)
    then on_fin state w
    else (state, w, false)

-- SYN and FIN, SYN and RST, no flag, or FIN, PSH and URG.
unfoldable pub has_illegal_flags : ℕ → Bool
has_illegal_flags flags =
    bit_and flags 0x03 == 0x03
    || (bit_and flags 0x06 == 0x06 || (flags == 0 || bit_and flags 0x29 == 0x29))

-- `conn_count > LRU_CACHE_SIZE * 0.9`, which is 471859.2.
abbrev pub nearly_full : LruCache → Bool
nearly_full cache = ltb 471859 (lru_cache_size (some cache))

-- From the connection exhaustion check on.
unfoldable pub check_rest :
    LruCache → Packet → Watch TcpProtectCtx → Run (Verdict × Watch TcpProtectCtx)
unfolding has_illegal_flags lru_cache_size
check_rest cache pkt w =
    let flags = pkt.tcp_flags in
    let malformed = packet_is_malformed pkt in
    let test : Bool → Run (Verdict × Watch TcpProtectCtx) =
      λ bad. if bad || has_illegal_flags flags then ok (drop, count_drop w) else ok (accept, w) in
    if nearly_full cache && (flags == syn_flag && ltb w.stats.reputation_score 50)
    then ok (drop, count_drop w)
    else (malformed >>= test)
