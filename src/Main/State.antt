-- ===== src/Main/State.antt =====
-- The objects of `main` of src/core/main.c, and the answers of the operating system and of the libraries.
use anti.Base.{ℕ, Bool, false, List, [], Option, none, some, ℤ}
use anti.Conn.Heap.{M, pure, ◌>>◌}
use anti.Settings.{Settings, Text}
use anti.Logger.{Logger, Files}
use anti.Firewall.{Firewall}
use anti.Protect.Udp.{UdpProtectCtx}
use anti.Protect.Tcp.{TcpProtectCtx}
use anti.Protect.Icmp.{IcmpProtectCtx}
use anti.Protect.Http.{HttpProtectCtx}
use anti.Analyzer.Baseline.{TrafficAnalyzer}
use anti.Geoip.{GeoipDb}
use anti.Ebpf.{EbpfProgram, EbpfCommand}
use anti.Server.{ApiServer, WebsocketServer}
use anti.Capture.{PacketCapture}
use anti.Main.{Context, ContextGrants, Event, Message, cleanup_context}

-- An object of the program: not there yet, in use, or freed.
pub data Memory (A : Type 0) : Type 0 where
  absent : Memory A
  live : A → Memory A
  freed : Memory A

abbrev pub text_or : Text → List ℕ
text_or none = []
text_or (some t) = t

-- The object of a call that may return NULL.
abbrev pub of_option : {A : Type 0} → Option A → Memory A
of_option none = absent
of_option (some a) = live a

abbrev pub to_option : {A : Type 0} → Memory A → Option A
to_option (live a) = some a
to_option absent = none
to_option freed = none

-- What an object becomes that is freed where it is there.
abbrev pub release : {A : Type 0} → Memory A → Memory A
release absent = absent
release (live a) = freed
release freed = freed

-- The program: its objects, its rules in the kernel, its commands for the XDP program, the last one first,
-- and its two threads.
pub record Process (D : Type 0) : Type 0 where
  pub config : Memory Settings
  pub context : Memory Context
  pub firewall : Firewall
  pub udp : Memory UdpProtectCtx
  pub tcp : Memory TcpProtectCtx
  pub icmp : Memory IcmpProtectCtx
  pub http : Memory HttpProtectCtx
  pub analyzer : Memory (TrafficAnalyzer D)
  pub geoip : Memory GeoipDb
  pub xdp : Memory EbpfProgram
  pub xdp_commands : List EbpfCommand
  pub api : Memory ApiServer
  pub websocket : Memory WebsocketServer
  pub capture : Memory PacketCapture
  pub stats_thread : Bool
  pub cleanup_thread : Bool

-- How `main` ends: with its exit code, or not.
pub data Exit (D : Type 0) : Type 0 where
  exited : ℕ → Process D → Exit D
  endless : Process D → Exit D

-- `EXIT_SUCCESS` and `EXIT_FAILURE`.
abbrev pub exit_success : ℕ
exit_success = 0

abbrev pub exit_failure : ℕ
exit_failure = 1

-- How `pcap_loop` ends, if it does: with its result.
pub data LoopEnd : Type 0 where
  ended : ℤ → LoopEnd
  goes_on : LoopEnd

-- What the surroundings answer, in the order in which they are asked. `closing` are the messages that
-- the program logs once the capture is over, and `later` is whether a signal to terminate comes while
-- `main` waits for its threads.
pub record World (V : Type 0) : Type 0 where
  pub root : Option V
  pub config_granted : Bool
  pub files : Files
  pub logger : Logger
  pub signals_set : Bool
  pub now : ℕ
  pub context_grants : ContextGrants
  pub set_granted : Bool
  pub buckets_granted : Bool
  pub udp_granted : Bool
  pub tcp_granted : Bool
  pub icmp_granted : Bool
  pub http_granted : Bool
  pub analyzer_granted : Bool
  pub ip_table_granted : Bool
  pub locks_granted : Bool
  pub blacklist_granted : Bool
  pub whitelist_granted : Bool
  pub geoip_granted : Bool
  pub xdp_granted : Bool
  pub api_granted : Bool
  pub api_created : Bool
  pub websocket_granted : Bool
  pub websocket_created : Bool
  pub capture_granted : Bool
  pub opened : Bool
  pub datalink : ℕ
  pub events : List Event
  pub loop_end : LoopEnd
  pub closing : List Message
  pub later : Bool

-- Before anything is there.
abbrev pub nothing : {D : Type 0} → Firewall → Process D
nothing fw = record {
  config = absent;
  context = absent;
  firewall = fw;
  udp = absent;
  tcp = absent;
  icmp = absent;
  http = absent;
  analyzer = absent;
  geoip = absent;
  xdp = absent;
  xdp_commands = [];
  api = absent;
  websocket = absent;
  capture = absent;
  stats_thread = false;
  cleanup_thread = false;
}

-- The label `cleanup`.
unfoldable pub quit : {D : Type 0} → ℕ → Process D → M (Exit D)
unfolding cleanup_context
quit ret p = do
  cleanup_context (to_option p.context)
  pure (exited ret (record p { context = release p.context; config = release p.config }))
