-- ===== src/Main/Work.antt =====
-- What `main` of src/core/main.c starts, how it works, and how it ends.
use anti.Base.{Bool, true, false, ◌||◌, [], ◌++◌, Option, none, if◌then◌else◌}
use anti.Packet.Http.{Libc}
use anti.Conn.Heap.{M, pure, ◌>>=◌, ◌>>◌, lift}
use anti.Settings.{Settings, detection}
use anti.Firewall.{firewall_cleanup}
use anti.Protect.Udp.{udp_protect_init, udp_protect_cleanup}
use anti.Protect.Tcp.{tcp_protect_init, tcp_protect_cleanup}
use anti.Protect.Icmp.{icmp_protect_init, icmp_protect_cleanup}
use anti.Protect.Http.{http_protect_init, http_protect_cleanup}
use anti.Analyzer.Baseline.{Doubles, TrafficAnalyzer, analyzer_init, analyzer_cleanup}
use anti.Analyzer.Handler.{Worker}
use anti.Geoip.{GeoipDb, geoip_init}
use anti.Ebpf.{EbpfProgram, ebpf_load_program, ebpf_unload_program}
use anti.Server.{
  ApiServer, api_server_init, api_server_start, api_server_stop, api_server_cleanup,
  WebsocketServer, websocket_server_init, websocket_server_start, websocket_server_stop,
  websocket_server_cleanup,
}
use anti.Capture.{packet_capture_cleanup}
use anti.Logger.{Logger, Outcome, logger_init}
use anti.Logger.Jam.{log_all}
use anti.Main.{Context, Progress, going, stuck, capture}
use anti.Main.State.{
  live, of_option, to_option, text_or, release, Process, Exit, endless, exit_success, LoopEnd,
  ended, goes_on, World, quit,
}

-- "Initialize protection modules", and "Initialize traffic analyzer".
unfoldable pub protect : {D V : Type 0} → Doubles D → World V → Process D → Process D
unfolding udp_protect_init tcp_protect_init icmp_protect_init http_protect_init analyzer_init
protect d w p = record p {
  udp = of_option (udp_protect_init w.udp_granted w.now);
  tcp = of_option (tcp_protect_init w.tcp_granted w.now);
  icmp = of_option (icmp_protect_init w.icmp_granted w.now);
  http = of_option (http_protect_init w.http_granted [] w.now);
  analyzer = of_option (
      analyzer_init d w.analyzer_granted w.ip_table_granted w.locks_granted w.blacklist_granted
        w.whitelist_granted w.now);
}

-- A server that was created is started, whatever comes of it.
abbrev pub api_of : {V : Type 0} → World V → Settings → Option ApiServer
api_of w cfg =
    (api_server_start
      (api_server_init cfg.api_bind_address cfg.api_port cfg.api_auth_token w.api_granted true)
      w.api_created).1

abbrev pub websocket_of : {V : Type 0} → World V → Settings → Option WebsocketServer
websocket_of w cfg =
    (websocket_server_start (websocket_server_init cfg.dashboard_port w.websocket_granted)
      w.websocket_created).1

abbrev pub geoip_of : {V : Type 0} → World V → Settings → Option GeoipDb
geoip_of w cfg =
    if cfg.enable_geoip then geoip_init cfg.geoip_db_path w.geoip_granted true else none

-- The interface is there, as `config_validate` has seen.
abbrev pub xdp_of : {V : Type 0} → World V → Settings → Option EbpfProgram
xdp_of w cfg = elim cfg.xdp_program_path [
  | Option.none ↦ none
  | Option.some path ↦
      if cfg.enable_xdp
      then ebpf_load_program path (text_or cfg.interface) w.xdp_granted true true
      else none
]

-- GeoIP, the XDP program, the two servers where they are enabled, and the two threads.
unfoldable pub serve : {D V : Type 0} → World V → Settings → Process D → Process D
unfolding geoip_init ebpf_load_program api_server_init api_server_start websocket_server_init
    websocket_server_start
serve w cfg p = record p {
  geoip = of_option (geoip_of w cfg);
  xdp = of_option (xdp_of w cfg);
  api = of_option (if cfg.enable_api then api_of w cfg else none);
  websocket = of_option (if cfg.enable_dashboard then websocket_of w cfg else none);
  stats_thread = true;
  cleanup_thread = true;
}

-- The worker with all that it reaches.
abbrev pub worker_of : {D : Type 0} → Process D → Context → TrafficAnalyzer D → Worker
worker_of p ctx a = record {
  shutdown = false;
  packets_processed = 0;
  engine = record {
    table = a.ip_table;
    whitelist = a.whitelist;
    blacklist = a.blacklist;
    global = ctx.stats;
    cache = ctx.lru_cache;
    udp = to_option p.udp;
    tcp = to_option p.tcp;
    icmp = to_option p.icmp;
    http = to_option p.http;
  };
  firewall = p.firewall;
}

-- The program after what the worker did.
abbrev pub worked : {D : Type 0} → Worker → Context → TrafficAnalyzer D → Process D → Process D
worked u ctx a p = record p {
  context = live (record ctx { stats = u.engine.global; lru_cache = u.engine.cache });
  analyzer = live (record a {
    ip_table = u.engine.table;
    whitelist = u.engine.whitelist;
    blacklist = u.engine.blacklist;
  });
  firewall = u.firewall;
  udp = of_option u.engine.udp;
  tcp = of_option u.engine.tcp;
  icmp = of_option u.engine.icmp;
  http = of_option u.engine.http;
}

-- What is left of the program by `ret = EXIT_SUCCESS`: each module is cleaned up, and the threads have
-- been waited for.
abbrev pub cleared : {D : Type 0} → Process D → Process D
cleared p = record p {
  capture = release (of_option (packet_capture_cleanup (to_option p.capture)));
  websocket =
      release
        (of_option (websocket_server_cleanup (websocket_server_stop (to_option p.websocket))));
  api = release (of_option (api_server_cleanup (api_server_stop (to_option p.api))));
  xdp = release p.xdp;
  xdp_commands = ebpf_unload_program (to_option p.xdp) ++ p.xdp_commands;
  geoip = release p.geoip;
  analyzer = release p.analyzer;
  udp = of_option (udp_protect_cleanup (to_option p.udp));
  tcp = of_option (tcp_protect_cleanup (to_option p.tcp));
  icmp = of_option (icmp_protect_cleanup (to_option p.icmp));
  http = of_option (http_protect_cleanup (to_option p.http));
  firewall = firewall_cleanup p.firewall;
  stats_thread = false;
  cleanup_thread = false;
}

-- "Wait for threads to finish", and "Cleanup".
unfoldable pub wind_down : {D : Type 0} → Process D → M (Exit D)
unfolding analyzer_cleanup quit firewall_cleanup udp_protect_cleanup tcp_protect_cleanup
    icmp_protect_cleanup http_protect_cleanup
wind_down p = do lift (analyzer_cleanup (to_option p.analyzer)); quit exit_success (cleared p)

-- What follows the loop of the capture: the threads end only once a signal to terminate has come.
unfoldable pub conclude : {D : Type 0} → LoopEnd → Bool → Process D → M (Exit D)
unfolding wind_down
conclude goes_on signalled p = pure (endless p)
conclude (ended ret) signalled p = if signalled then wind_down p else pure (endless p)

-- The log as `logger_init` leaves it. What `main` logs between that and the capture is left out: the
-- count of bytes starts at 0, and it takes more than 25,000 lines to fill the file.
abbrev pub log_of : {V : Type 0} → World V → Settings → Logger
log_of w cfg = elim (logger_init w.files cfg.log_file cfg.log_level cfg.syslog_enabled w.logger) [
  | Outcome.done ret g ↦ g
  | Outcome.blocked ↦ w.logger
  | Outcome.unfinished ↦ w.logger
]

-- What follows the capture, which the messages can block.
unfoldable pub leave :
    {D V : Type 0} → World V → Context → TrafficAnalyzer D → Process D → Progress → M (Exit D)
unfolding conclude log_all
leave w ctx a p (stuck u) = pure (endless (worked u ctx a p))
leave w ctx a p (going u g) = elim (log_all w.files w.closing g) [
  | Outcome.done ret g' ↦ conclude w.loop_end (u.shutdown || w.later) (worked u ctx a p)
  | Outcome.blocked ↦ pure (endless (worked u ctx a p))
  | Outcome.unfinished ↦ pure (endless (worked u ctx a p))
]

-- The capture, and what follows it.
unfoldable pub work :
    {D V : Type 0}
    → Libc
    → World V
    → Settings
    → Context
    → TrafficAnalyzer D
    → Process D
    → M (Exit D)
unfolding capture leave logger_init
work libc w cfg ctx a p = do
  progress ← capture (detection cfg) libc w.files w.events (worker_of p ctx a) (log_of w cfg)
  leave w ctx a p progress
