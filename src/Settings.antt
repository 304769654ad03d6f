-- ===== src/Settings.antt =====
-- src/core/config.c: the settings that a JSON file gives. The library jansson is a parameter: what it
-- makes of a value is a `Jansson`, and a key of the file is a `Key`. Where a value is not there,
-- jansson answers as for a value of another type.
pub mod Parse
pub mod Thresholds
use anti.Base.{
  ℕ, Bool, true, false, List, [], ◌∷◌, Option, none, some, ltb, ◌==◌, ◌||◌, if◌then◌else◌, u16, u32,
  ℤ, success, failure,
}
use anti.Types.{Config}
use anti.Protect.Http.{same_text}

pub data Key : Type 0 where
  network interface promiscuous snaplen workers cpu_affinity thresholds udp_pps tcp_syn_pps icmp_pps
        http_rps ratelimit enabled pps bps auto_blacklist duration geoip database xdp program
        http_protection js_challenge captcha logging file level syslog api bind_address port
        auth_token dashboard security chroot chroot_dir drop_user drop_group seccomp :
      Key

-- `json_object_get`, `json_is_true`, the integer of `json_is_integer` and `json_integer_value` as 64
-- bits, and the text of `json_is_string` and `json_string_value`.
pub record Jansson (V : Type 0) : Type 0 where
  pub object_get : V → Key → Option V
  pub is_true : V → Bool
  pub integer : V → Option ℕ
  pub text : V → Option (List ℕ)

abbrev pub Text : Type 0
Text = Option (List ℕ)

-- `config_t`, without the lists of addresses, countries and user agents, which this file leaves empty.
pub record Settings : Type 0 where
  pub interface : Text
  pub promiscuous_mode : Bool
  pub snaplen : ℕ
  pub num_workers : ℕ
  pub cpu_affinity : Bool
  pub udp_pps_threshold : ℕ
  pub tcp_syn_pps_threshold : ℕ
  pub tcp_ack_pps_threshold : ℕ
  pub icmp_pps_threshold : ℕ
  pub http_rps_threshold : ℕ
  pub enable_rate_limiting : Bool
  pub rate_limit_pps : ℕ
  pub rate_limit_bps : ℕ
  pub auto_blacklist : Bool
  pub blacklist_duration : ℕ
  pub enable_geoip : Bool
  pub geoip_db_path : Text
  pub enable_xdp : Bool
  pub xdp_program_path : Text
  pub enable_http_protection : Bool
  pub enable_js_challenge : Bool
  pub enable_captcha : Bool
  pub log_file : Text
  pub log_level : ℕ
  pub syslog_enabled : Bool
  pub enable_api : Bool
  pub api_bind_address : Text
  pub api_port : ℕ
  pub api_auth_token : Text
  pub enable_dashboard : Bool
  pub dashboard_port : ℕ
  pub enable_chroot : Bool
  pub chroot_dir : Text
  pub drop_user : Text
  pub drop_group : Text
  pub enable_seccomp : Bool

-- What `calloc` leaves.
abbrev pub zeroed : Settings
zeroed = record {
  interface = none;
  promiscuous_mode = false;
  snaplen = 0;
  num_workers = 0;
  cpu_affinity = false;
  udp_pps_threshold = 0;
  tcp_syn_pps_threshold = 0;
  tcp_ack_pps_threshold = 0;
  icmp_pps_threshold = 0;
  http_rps_threshold = 0;
  enable_rate_limiting = false;
  rate_limit_pps = 0;
  rate_limit_bps = 0;
  auto_blacklist = false;
  blacklist_duration = 0;
  enable_geoip = false;
  geoip_db_path = none;
  enable_xdp = false;
  xdp_program_path = none;
  enable_http_protection = false;
  enable_js_challenge = false;
  enable_captcha = false;
  log_file = none;
  log_level = 0;
  syslog_enabled = false;
  enable_api = false;
  api_bind_address = none;
  api_port = 0;
  api_auth_token = none;
  enable_dashboard = false;
  dashboard_port = 0;
  enable_chroot = false;
  chroot_dir = none;
  drop_user = none;
  drop_group = none;
  enable_seccomp = false;
}

-- The part that detection reads.
abbrev pub detection : Settings → Config
detection s = record {
  udp_pps_threshold = s.udp_pps_threshold;
  tcp_syn_pps_threshold = s.tcp_syn_pps_threshold;
  tcp_ack_pps_threshold = s.tcp_ack_pps_threshold;
  icmp_pps_threshold = s.icmp_pps_threshold;
  http_rps_threshold = s.http_rps_threshold;
  auto_blacklist = s.auto_blacklist;
  blacklist_duration = s.blacklist_duration;
  enable_http_protection = s.enable_http_protection;
  enable_js_challenge = s.enable_js_challenge;
  enable_captcha = s.enable_captcha;
}

-- `MAX_WORKERS`.
abbrev pub max_workers : ℕ
max_workers = 64

-- A NULL configuration fails.
unfoldable pub config_validate : Option Settings → ℤ
config_validate none = failure
config_validate (some s) = elim s.interface [
  | Option.none ↦ failure
  | Option.some name ↦
      if s.num_workers == 0 || ltb max_workers s.num_workers then failure else success
]

-- The texts that it frees, in its order; `free` passes over NULL.
unfoldable pub config_free : Option Settings → List Text
config_free none = []
config_free (some s) =
    s.interface ∷ s.log_file ∷ s.geoip_db_path ∷ s.xdp_program_path ∷ s.api_bind_address
    ∷ s.api_auth_token ∷ s.chroot_dir ∷ s.drop_user ∷ s.drop_group ∷ []
