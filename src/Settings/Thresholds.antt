-- ===== src/Settings/Thresholds.antt =====
-- The threshold of ACK segments, which src/core/config.c does not read, and what it makes of
-- src/detection/tcp_protect.c.
use anti.Base.{
  ℕ, ◌+◌, ◌<◌, ◌^◌, ◌≡◌, refl, ◌∙◌, Bool, true, List, Option, none, some, arith, Option-cases,
  Bool-cases, inl, inr,
}
use anti.Conn.Heap.{TcpState}
use anti.Protect.Watch.{Watch}
use anti.Protect.Tcp.{TcpProtectCtx, check_flags, on_ack, ack_flag}
use anti.Settings.{
  Key, network, thresholds, ratelimit, auto_blacklist, geoip, xdp, http_protection, logging, api,
  dashboard, security, Jansson, Text, Settings, zeroed, detection,
}
use anti.Settings.Parse.{
  section, read_network, read_workers, read_thresholds, read_ratelimit, read_blacklist, read_geoip,
  read_xdp, read_http, read_logging, read_api, read_dashboard, read_security, read_all,
  parse_config_json, config_load,
}

module _ {V : Type 0} (json : Jansson V) (strdup : List ℕ → Text) where
  -- A section that does not set the threshold.
  section_ack :
      (root : V) (k : Key) (read : V → Settings → Settings) (s : Settings)
      → ((o : V) (t : Settings) → (read o t).tcp_ack_pps_threshold ≡ t.tcp_ack_pps_threshold)
      → (section json strdup root k read s).tcp_ack_pps_threshold ≡ s.tcp_ack_pps_threshold
  unfolding section
  section_ack root k read s keeps = elim (Option-cases (json.object_get root k)) [
    | inl absent ↦ rw (absent, section) refl
    | inr (o, there) ↦ rw (there, section) (keeps o s)
  ]

  read_all_ack :
      (root : V) (s : Settings)
      → (read_all json strdup root s).tcp_ack_pps_threshold ≡ s.tcp_ack_pps_threshold
  unfolding read_all read_network read_workers read_thresholds read_ratelimit read_blacklist
      read_geoip read_xdp read_http read_logging read_api read_dashboard read_security
  read_all_ack root s =
      section_ack root security (read_security json strdup) _ (λ o t. refl)
      ∙ section_ack root dashboard (read_dashboard json strdup) _ (λ o t. refl)
      ∙ section_ack root api (read_api json strdup) _ (λ o t. refl)
      ∙ section_ack root logging (read_logging json strdup) _ (λ o t. refl)
      ∙ section_ack root http_protection (read_http json strdup) _ (λ o t. refl)
      ∙ section_ack root xdp (read_xdp json strdup) _ (λ o t. refl)
      ∙ section_ack root geoip (read_geoip json strdup) _ (λ o t. refl)
      ∙ section_ack root auto_blacklist (read_blacklist json strdup) _ (λ o t. refl)
      ∙ section_ack root ratelimit (read_ratelimit json strdup) _ (λ o t. refl)
      ∙ section_ack root thresholds (read_thresholds json strdup) _ (λ o t. refl)
      ∙ section_ack root network (read_network json strdup) _ (λ o t. refl)

  config_load_ack :
      (root : Option V) (granted : Bool) (s : Settings)
      → config_load json strdup root granted ≡ some s
      → s.tcp_ack_pps_threshold ≡ 0
  unfolding config_load parse_config_json
  config_load_ack none granted s e = absurd (cc e)
  config_load_ack (some root) granted s e = elim (Bool-cases granted) [
    | inl given ↦
        let same : read_all json strdup root zeroed ≡ s =
          cc (rw (given, config_load, parse_config_json) at e) in
        rw⁻¹ same (read_all_ack root zeroed)
    | inr denied ↦ absurd (cc (rw (denied, config_load, parse_config_json) at e))
  ]

-- Whatever the file says, and whatever the library for JSON makes of it, a configuration that loads
-- has the threshold 0 for ACK segments: in a later second than the last update of the source's
-- statistics, and while the count of ACK segments does not wrap, every segment with ACK alone is
-- reported as a flood.
pub check_flags-config_load :
    {V : Type 0} (json : Jansson V) (strdup : List ℕ → Text) (root : Option V) (granted : Bool)
    (s : Settings) (now : ℕ) (state : TcpState) (w : Watch TcpProtectCtx)
    → config_load json strdup root granted ≡ some s
    → w.stats.last_update < now
    → w.stats.tcp_ack_pps + 1 < 2 ^ 64
    → (s.tcp_ack_pps_threshold ≡ 0) × ((check_flags (detection s) now ack_flag state w).2 ≡ true)
unfolding check_flags on_ack
check_flags-config_load json strdup root granted s now state w e later fits =
    let z = config_load_ack json strdup root granted s e in (z, ground (arith, z))
