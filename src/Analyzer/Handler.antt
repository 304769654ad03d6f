-- ===== src/Analyzer/Handler.antt =====
-- `packet_handler` of src/core/main.c: what a worker does with a captured packet.
use anti.Base.{ℕ, ◌+◌, Bool, if◌then◌else◌, u64}
use anti.Types.{Verdict, accept, drop, rate_limit, challenge, GlobalStats, Config}
use anti.Packet.{Packet}
use anti.Conn.Heap.{M, pure, ◌>>=◌}
use anti.Firewall.{Firewall, firewall_block_ip}
use anti.Analyzer.Process.{Engine, Grants, analyzer_process_packet}

-- `g_shutdown`, `worker_data_t` with what it reaches, and the firewall.
pub record Worker : Type 0 where
  pub shutdown : Bool
  pub packets_processed : ℕ
  pub engine : Engine
  pub firewall : Firewall

-- What the surroundings of a call answer: the time, the allocations, the command of the firewall,
-- and the allocation of its entry.
pub record Surroundings : Type 0 where
  pub now : ℕ
  pub grants : Grants
  pub ran : Bool
  pub granted : Bool

-- The global statistics with the packet counted.
abbrev pub counted : Packet → GlobalStats → GlobalStats
counted pkt g = record g {
  total_packets = u64 (g.total_packets + 1);
  total_bytes = u64 (g.total_bytes + pkt.len);
}

abbrev pub set_global : (GlobalStats → GlobalStats) → Worker → Worker
set_global f w = record w { engine = record (w.engine) { global = f w.engine.global } }

-- "Apply verdict".
unfoldable pub apply_verdict : Config → Surroundings → Packet → Verdict → Worker → Worker
unfolding firewall_block_ip
apply_verdict cfg s pkt drop w₀ =
    let w = set_global (λ g. record g { dropped_packets = u64 (g.dropped_packets + 1) }) w₀ in
    let blocked =
      (firewall_block_ip w.firewall pkt.src_ip cfg.blacklist_duration s.now s.ran s.granted).1 in
    if cfg.auto_blacklist then record w { firewall = blocked } else w
apply_verdict cfg s pkt rate_limit w =
    set_global (λ g. record g { rate_limited_packets = u64 (g.rate_limited_packets + 1) }) w
apply_verdict cfg s pkt challenge w = w
apply_verdict cfg s pkt accept w = w

unfoldable pub packet_handler : Config → Surroundings → Packet → Worker → M Worker
unfolding analyzer_process_packet apply_verdict
packet_handler cfg s pkt w₀ =
    let w =
      set_global (counted pkt) (record w₀ { packets_processed = u64 (w₀.packets_processed + 1) }) in
    let handle : M Worker = (do
      (v, e) ← analyzer_process_packet cfg s.now s.grants pkt w.engine
      pure (apply_verdict cfg s pkt v (record w { engine = e }))) in
    if w₀.shutdown then pure w₀ else handle
