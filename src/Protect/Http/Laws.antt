-- ===== src/Protect/Http/Laws.antt =====
-- What an accepted request has passed, and what a missing User-Agent does to a bad reputation.
use anti.Base.{
  ℕ, ◌+◌, ◌-◌, ◌≤◌, ◌<◌, ◌^◌, ◌≡◌, ◌⊎◌, ◌↔◌, Bool, true, false, List, Option, none, some, u64, ok,
  arith,
}
use anti.Types.{Verdict, accept, attack_none, Config, IpStats}
use anti.Packet.{Packet}
use anti.Protect.Watch.{Watch}
use anti.Protect.Http.{
  HttpProtectCtx, is_user_agent_blacklisted, is_http_header_anomaly, is_slow_post_attack,
}
use anti.Protect.Http.Analyze.{
  lower_reputation, flood_attack, check_reputation, check_content, check_user_agent,
  analyze_counted, http_protect_analyze,
}

-- The request came below the rate, or nothing was due to be compared.
abbrev pub IsCalm : Config → ℕ → IpStats → Type 0
IsCalm cfg now stats =
    (now ≤ stats.last_update) ⊎ (u64 (stats.http_rps + 1) ≤ cfg.http_rps_threshold)

-- With the protection on and initialised, a request with a User-Agent, whose header check ends, is
-- accepted exactly when it is no counted flood, its agent is not
-- blacklisted, its headers and its body are in order, and the reputation is at least 20.
pub http_protect_analyze-accept_iff :
    (cfg : Config) (now : ℕ) (pkt : Packet) (w : Watch (Option HttpProtectCtx)) (c : HttpProtectCtx)
    (user_agent : List ℕ) {anomaly : Bool} {v : Verdict} {r : Watch (Option HttpProtectCtx)}
    → pkt.is_http ≡ true
    → cfg.enable_http_protection ≡ true
    → w.ctx ≡ some c
    → pkt.http_user_agent ≡ some user_agent
    → is_http_header_anomaly pkt ≡ ok anomaly
    → http_protect_analyze cfg now pkt w ≡ ok (v, r)
    → (v ≡ accept) ↔ (
        (IsCalm cfg now w.stats ⊎ (flood_attack pkt ≡ attack_none))
        × (is_user_agent_blacklisted c user_agent ≡ false)
        × (anomaly ≡ false)
        × (is_slow_post_attack pkt ≡ false)
        × (20 ≤ w.stats.reputation_score))
unfolding http_protect_analyze analyze_counted check_user_agent check_content check_reputation
    is_user_agent_blacklisted
http_protect_analyze-accept_iff cfg now pkt w c user_agent p q e a s h = ground arith

-- A request without a User-Agent, otherwise in order, from a source whose reputation is below 5:
-- the reputation wraps to almost 2 ^ 32, and the request is accepted.
pub http_protect_analyze-wraps :
    (cfg : Config) (now : ℕ) (pkt : Packet) (w : Watch (Option HttpProtectCtx)) (c : HttpProtectCtx)
    {v : Verdict} {r : Watch (Option HttpProtectCtx)}
    → pkt.is_http ≡ true
    → cfg.enable_http_protection ≡ true
    → w.ctx ≡ some c
    → pkt.http_user_agent ≡ none
    → is_http_header_anomaly pkt ≡ ok false
    → is_slow_post_attack pkt ≡ false
    → IsCalm cfg now w.stats
    → w.stats.reputation_score < 5
    → http_protect_analyze cfg now pkt w ≡ ok (v, r)
    → (v ≡ accept) × (r.stats.reputation_score ≡ w.stats.reputation_score + 2 ^ 32 - 5)
unfolding http_protect_analyze analyze_counted check_user_agent check_content check_reputation
    lower_reputation
http_protect_analyze-wraps cfg now pkt w c p q e a s slow calm low h = ground arith
