-- ===== src/Tests/Handler.antt =====
-- A worker with its engine, for the theorems on src/detection/analyzer.c and src/core/main.c.
use anti.Base.{true, false, none, []}
use anti.Lru.Valid.Sequence.{created}
use anti.Firewall.{iptables}
use anti.Analyzer.{initial}
use anti.Analyzer.Process.{Engine, Grants}
use anti.Analyzer.Handler.{Worker, Surroundings}
use anti.Tests.Udp.{totals}

abbrev engine : Engine
engine = record {
  table = initial;
  whitelist = none;
  blacklist = none;
  global = totals;
  cache = created 2;
  udp = none;
  tcp = none;
  icmp = none;
  http = none;
}

abbrev granted : Grants
granted = record { stats = true; connection = true; listing = true }

abbrev pub at_noon : Surroundings
at_noon = record { now = 43200; grants = granted; ran = true; granted = true }

abbrev pub worker : Worker
worker = record {
  shutdown = false;
  packets_processed = 0;
  engine = engine;
  firewall = record { backend = iptables; blocked = none; commands = [] };
}
