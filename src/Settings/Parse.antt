-- ===== src/Settings/Parse.antt =====
-- `parse_config_json`, `config_load` and `config_reload` of src/core/config.c.
use anti.Base.{
  ℕ, Bool, false, List, [], ◌∷◌, Option, none, some, if◌then◌else◌, u16, u32, ℤ, success, failure,
}
use anti.Protect.Http.{same_text}
use anti.Settings.{
  Key, network, interface, promiscuous, snaplen, workers, cpu_affinity, thresholds, udp_pps,
  tcp_syn_pps, icmp_pps, http_rps, ratelimit, enabled, pps, bps, auto_blacklist, duration, geoip,
  database, xdp, program, http_protection, js_challenge, captcha, logging, file, level, syslog, api,
  bind_address, port, auth_token, dashboard, security, chroot, chroot_dir, drop_user, drop_group,
  seccomp, Jansson, Text, Settings, zeroed,
}

-- "debug", "info", "warn" and "error", and the levels of include/logger.h.
abbrev log_level_of : List ℕ → ℕ
log_level_of text =
    if same_text text (100 ∷ 101 ∷ 98 ∷ 117 ∷ 103 ∷ [])
    then 0
    else if same_text text (105 ∷ 110 ∷ 102 ∷ 111 ∷ [])
    then 1
    else if same_text text (119 ∷ 97 ∷ 114 ∷ 110 ∷ [])
    then 2
    else if same_text text (101 ∷ 114 ∷ 114 ∷ 111 ∷ 114 ∷ [])
    then 3
    else 1

module _ {V : Type 0} (json : Jansson V) (strdup : List ℕ → Text) where
  -- `json_is_true(json_object_get(o, k))`.
  abbrev pub flag : V → Key → Bool
  flag o k = elim (json.object_get o k) [ Option.none ↦ false | Option.some v ↦ json.is_true v ]

  -- `json_is_integer(v) ? json_integer_value(v) : other`, of the value of the key.
  abbrev pub number : V → Key → ℕ → ℕ
  number o k other = elim (json.object_get o k) [
    | Option.none ↦ other
    | Option.some v ↦ elim (json.integer v) [ Option.none ↦ other | Option.some n ↦ n ]
  ]

  -- `strdup` of a string, or what the setting was before.
  abbrev pub string : V → Key → Text → Text
  string o k before = elim (json.object_get o k) [
    | Option.none ↦ before
    | Option.some v ↦ elim (json.text v) [ Option.none ↦ before | Option.some t ↦ strdup t ]
  ]

  -- `if (o) { … }` of a section of the file.
  unfoldable pub section : V → Key → (V → Settings → Settings) → Settings → Settings
  section root k read s = elim (json.object_get root k) [
    | Option.none ↦ s
    | Option.some o ↦ read o s
  ]

  unfoldable pub read_network : V → Settings → Settings
  read_network o s = record s {
    interface = string o interface s.interface;
    promiscuous_mode = flag o promiscuous;
    snaplen = u32 (number o snaplen 65535);
  }

  unfoldable pub read_workers : V → Settings → Settings
  read_workers root s = record s {
    num_workers = u32 (number root workers 4);
    cpu_affinity = flag root cpu_affinity;
  }

  unfoldable pub read_thresholds : V → Settings → Settings
  read_thresholds o s = record s {
    udp_pps_threshold = u32 (number o udp_pps 10000);
    tcp_syn_pps_threshold = u32 (number o tcp_syn_pps 5000);
    icmp_pps_threshold = u32 (number o icmp_pps 1000);
    http_rps_threshold = u32 (number o http_rps 100);
  }

  unfoldable pub read_ratelimit : V → Settings → Settings
  read_ratelimit o s = record s {
    enable_rate_limiting = flag o enabled;
    rate_limit_pps = u32 (number o pps 1000);
    rate_limit_bps = u32 (number o bps 10000000);
  }

  unfoldable pub read_blacklist : V → Settings → Settings
  read_blacklist o s = record s {
    auto_blacklist = flag o enabled;
    blacklist_duration = u32 (number o duration 3600);
  }

  unfoldable pub read_geoip : V → Settings → Settings
  read_geoip o s = record s {
    enable_geoip = flag o enabled;
    geoip_db_path = string o database s.geoip_db_path;
  }

  unfoldable pub read_xdp : V → Settings → Settings
  read_xdp o s = record s {
    enable_xdp = flag o enabled;
    xdp_program_path = string o program s.xdp_program_path;
  }

  unfoldable pub read_http : V → Settings → Settings
  read_http o s = record s {
    enable_http_protection = flag o enabled;
    enable_js_challenge = flag o js_challenge;
    enable_captcha = flag o captcha;
  }

  unfoldable pub level_number : V → ℕ → ℕ
  unfolding same_text
  level_number o before = elim (json.object_get o level) [
    | Option.none ↦ before
    | Option.some v ↦ elim (json.text v) [ Option.none ↦ before | Option.some t ↦ log_level_of t ]
  ]

  unfoldable pub read_logging : V → Settings → Settings
  unfolding level_number
  read_logging o s = record s {
    log_file = string o file s.log_file;
    log_level = level_number o s.log_level;
    syslog_enabled = flag o syslog;
  }

  unfoldable pub read_api : V → Settings → Settings
  read_api o s = record s {
    enable_api = flag o enabled;
    api_bind_address = string o bind_address s.api_bind_address;
    api_port = u16 (number o port 8080);
    api_auth_token = string o auth_token s.api_auth_token;
  }

  unfoldable pub read_dashboard : V → Settings → Settings
  read_dashboard o s = record s {
    enable_dashboard = flag o enabled;
    dashboard_port = u16 (number o port 8081);
  }

  unfoldable pub read_security : V → Settings → Settings
  read_security o s = record s {
    enable_chroot = flag o chroot;
    chroot_dir = string o chroot_dir s.chroot_dir;
    drop_user = string o drop_user s.drop_user;
    drop_group = string o drop_group s.drop_group;
    enable_seccomp = flag o seccomp;
  }

  -- The sections in the order of the code.
  unfoldable pub read_all : V → Settings → Settings
  unfolding section read_network read_workers read_thresholds read_ratelimit read_blacklist
      read_geoip read_xdp read_http read_logging read_api read_dashboard read_security
  read_all root s₀ =
      let s₁ = read_workers root (section root network read_network s₀) in
      let s₂ = section root ratelimit read_ratelimit (section root thresholds read_thresholds s₁) in
      let s₃ = section root geoip read_geoip (section root auto_blacklist read_blacklist s₂) in
      let s₄ = section root http_protection read_http (section root xdp read_xdp s₃) in
      let s₅ = section root api read_api (section root logging read_logging s₄) in
      section root security read_security (section root dashboard read_dashboard s₅)

  -- `granted` is the success of `calloc`.
  unfoldable pub parse_config_json : V → Bool → Option Settings
  unfolding read_all
  parse_config_json root granted = if granted then some (read_all root zeroed) else none

  -- `root` is what `json_load_file` returns.
  unfoldable pub config_load : Option V → Bool → Option Settings
  unfolding parse_config_json
  config_load none granted = none
  config_load (some root) granted = parse_config_json root granted

  -- The result, and the configuration after it.
  unfoldable pub config_reload : Option V → Bool → Settings → ℤ × Settings
  unfolding config_load
  config_reload root granted s = elim (config_load root granted) [
    | Option.none ↦ (failure, s)
    | Option.some new ↦ (success, new)
  ]
