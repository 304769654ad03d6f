-- ===== src/Protect/Watch.antt =====
-- src/detection: what the protection modules share. A module works on its own counters (the
-- structure behind `g_udp_ctx` and its kin), the global statistics and the statistics of the
-- packet's source. Locks and log lines are left out; `now` is what `time(NULL)` returns.
use anti.Types.{Attack, bump, IpStats, GlobalStats}

pub record Watch (C : Type 0) : Type 0 where
  pub ctx : C
  pub global : GlobalStats
  pub stats : IpStats

module _ {C : Type 0} where
  -- `stats->packets[a]++` and `ctx->stats->attacks_detected[a]++`.
  unfoldable pub report : Attack → Watch C → Watch C
  report a w = record w {
    stats = record (w.stats) { packets = bump (w.stats.packets) a };
    global = record (w.global) { attacks_detected = bump (w.global.attacks_detected) a };
  }
