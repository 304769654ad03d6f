-- ===== src/Tests/Main.antt =====
-- A start of the whole program, for the theorems on src/core/main.c.
use anti.Base.{
  ℕ, arith, if◌then◌else◌, ◌≡◌, ◌||◌, ◌++◌, refl, true, false, Bool, Option, [], ◌∷◌, some, none,
  success,
}
use anti.Addr.Text.{ascii}
use anti.Conn.Heap.{done}
use anti.Conn.Reason.{Returns}
use anti.Lru.Valid.Sequence.{no_entries}
use anti.Settings.{Key, level, Jansson, Settings, zeroed, config_validate}
use anti.Settings.Parse.{config_load, parse_config_json, read_all}
use anti.Firewall.{Firewall, iptables, setup, firewall_init}
use anti.Ipset.{Ipset, create}
use anti.Analyzer.{initial}
use anti.Logger.{logger_init, log_message, log_by}
use anti.Analyzer.Baseline.{TrafficAnalyzer, no_pattern, analyzer_init}
use anti.Capture.{PacketCapture}
use anti.Main.{arrives, cleans, reports, signals}
use anti.Logger.{info}
use anti.Main.State.{Process, freed, live, exited, exit_failure, ended, World}
use anti.Main.Idle.{has_termination}
use anti.Main.Destroyed.{all_granted}
use anti.Main.Ends.{Finishes}
use anti.Main.Program.{main, logging, open_capture}
use anti.Main.Started.{Starts, main-no_capture, main-Finishes}
use anti.Tests.Parser.{libc}
use anti.Tests.Capture.{arrival, arrival-parsed}
use anti.Tests.Baseline.{whole}

-- The root of a file, `true`, whose sections hold one text and the number 4 for every key, but for the
-- level of the log.
abbrev member : Bool → Key → Option Bool
member true k = some false
member false level = some true
member false k = some false

abbrev pub sections : Jansson Bool
sections = record {
  object_get = member;
  is_true = λ v. false;
  integer = λ v. some 4;
  text = λ v. some (if v then ascii "warn" else ascii "eth0");
}

abbrev loaded : Settings
loaded = read_all sections libc.strdup true zeroed

abbrev pub world : World Bool
world = record {
  root = some true;
  config_granted = true;
  files = record { renamed = true; opened = true; granted = true };
  logger = record {
    open_file = false;
    log_file = none;
    level = 1;
    use_syslog = false;
    locked = false;
    bytes_written = 0;
    lines = [];
  };
  signals_set = true;
  now = 100;
  context_grants = all_granted;
  set_granted = true;
  buckets_granted = true;
  udp_granted = true;
  tcp_granted = true;
  icmp_granted = true;
  http_granted = true;
  analyzer_granted = true;
  ip_table_granted = true;
  locks_granted = true;
  blacklist_granted = true;
  whitelist_granted = true;
  geoip_granted = true;
  xdp_granted = true;
  api_granted = true;
  api_created = true;
  websocket_granted = true;
  websocket_created = true;
  capture_granted = true;
  opened = true;
  datalink = 1;
  events =
      arrives arrival []
      ∷ cleans 130 []
      ∷ reports (ascii "[INFO] Stats: packets=1, bytes=60, dropped=0, conns=0")
      ∷ signals 15 (ascii "[INFO] Received signal 15, shutting down...")
      ∷ [];
  loop_end = ended success;
  closing = (info, ascii "[INFO] Packet capture stopped") ∷ [];
  later = false;
}

-- The same, on an interface that is not opened.
abbrev shut_world : World Bool
shut_world = record world { opened = false }

abbrev pub no_rules : Firewall
no_rules = record { backend = iptables; blocked = none; commands = [] }

abbrev new_set : ℕ → Ipset
new_set size = record { buckets = λ i. []; bucket_count = 4096; entry_count = 0; max_size = size }

abbrev pub ruled : Firewall
ruled = record {
  backend = iptables;
  blocked = some (new_set 100000);
  commands = setup iptables ++ [];
}

abbrev pub analyzer : TrafficAnalyzer ℕ
analyzer = record {
  ip_table = initial;
  baseline = no_pattern whole;
  blacklist = some (new_set 100000);
  whitelist = some (new_set 10000);
  baseline_updated = 100;
}

shut_world-Starts : Starts whole sections libc shut_world loaded no_rules ruled analyzer
unfolding config_load parse_config_json config_validate logging logger_init log_message log_by
    firewall_init create analyzer_init
shut_world-Starts = record {
  loaded = refl;
  valid = refl;
  logs = refl;
  signals = refl;
  contexts = refl;
  walled = refl;
  analyzes = refl;
}

world-Starts : Starts whole sections libc world loaded no_rules ruled analyzer
unfolding config_load parse_config_json config_validate logging logger_init log_message log_by
    firewall_init create analyzer_init
world-Starts = record {
  loaded = refl;
  valid = refl;
  logs = refl;
  signals = refl;
  contexts = refl;
  walled = refl;
  analyzes = refl;
}

shut : open_capture whole sections libc shut_world loaded ≡ none
unfolding open_capture
shut = refl

abbrev pub handle : PacketCapture
handle = record {
  handle = true;
  interface = loaded.interface;
  promiscuous = loaded.promiscuous_mode;
  snaplen = loaded.snaplen;
  running = false;
}

opened : open_capture whole sections libc world loaded ≡ some handle
unfolding open_capture
opened = refl

main-no_capture_example :
    (q : Process ℕ) × (main whole sections libc shut_world no_rules no_entries
      ≡ done (exited exit_failure q) no_entries)
    × (q.context ≡ freed)
    × (q.stats_thread ≡ true)
    × (q.cleanup_thread ≡ true)
    × (q.firewall.commands ≡ setup iptables ++ [])
    × (q.analyzer ≡ live analyzer)
main-no_capture_example =
    main-no_capture whole sections libc shut_world loaded no_rules ruled analyzer shut_world-Starts
      no_entries shut

level_lem : loaded.log_level ≡ 2
unfolding read_all
level_lem = refl

main-Finishes_example :
    Returns
      (λ e k. (k ≡ no_entries) × Finishes (has_termination world.events || world.later) e)
      (main whole sections libc world no_rules no_entries)
main-Finishes_example =
    main-Finishes whole sections libc world loaded no_rules ruled analyzer world-Starts no_entries
      opened (omega (arith, level_lem)) refl (λ e. cc (arrival-parsed, e), tt)
