-- ===== src/Protect/Http/Analyze.antt =====
-- `http_protect_analyze` of src/detection/http_protect.c.
use anti.Base.{
  ℕ, ◌+◌, not, ◌&&◌, Option, some, ltb, leb, ◌==◌, if◌then◌else◌, u32, u64, sub32, Run, ok, deref,
  ◌>>=◌,
}
use anti.Types.{
  Verdict, accept, drop, challenge, Attack, attack_none, http_get_flood, http_post_flood, slow_post,
  http_header_anomaly, index, bump, IpStats, Config,
}
use anti.Packet.{Packet}
use anti.Packet.Http.{get_text, post_text}
use anti.Protect.Watch.{Watch, report}
use anti.Protect.Http.{
  HttpProtectCtx, is_user_agent_blacklisted, is_http_header_anomaly, method_is, is_slow_post_attack,
}

abbrev pub Result : Type 0
Result = Verdict × Watch HttpProtectCtx

abbrev pub count_drop : Watch HttpProtectCtx → Watch HttpProtectCtx
count_drop w = record w {
  ctx = record (w.ctx) { dropped_requests = u64 (w.ctx.dropped_requests + 1) };
}

abbrev pub set_reputation : ℕ → Watch HttpProtectCtx → Watch HttpProtectCtx
set_reputation score w = record w { stats = record (w.stats) { reputation_score = score } }

-- `MAX(0, stats->reputation_score - n)` on `uint32_t`: the difference wraps, and 0 is never larger.
unfoldable pub lower_reputation : ℕ → Watch HttpProtectCtx → Watch HttpProtectCtx
lower_reputation n w = set_reputation (sub32 w.stats.reputation_score n) w

unfoldable pub flood_attack : Packet → Attack
flood_attack pkt =
    if method_is pkt get_text
    then http_get_flood
    else if method_is pkt post_text
    then http_post_flood
    else attack_none

-- "Reputation-based filtering" and the rest.
unfoldable pub check_reputation : Config → Watch HttpProtectCtx → Result
check_reputation cfg w =
    let score = w.stats.reputation_score in
    if ltb score 20
    then (if cfg.enable_captcha then challenge else drop, w)
    else if ltb score 100
    then (accept, set_reputation (if ltb 100 (u32 (score + 1)) then 100 else u32 (score + 1)) w)
    else (accept, w)

-- The header and the slow POST checks.
unfoldable pub check_content : Config → Packet → Watch HttpProtectCtx → Run Result
unfolding report check_reputation
check_content cfg pkt w = do
  anomaly ← is_http_header_anomaly pkt
  if anomaly
      then ok (drop, count_drop (report http_header_anomaly w))
      else if is_slow_post_attack pkt
      then ok (drop, count_drop (report slow_post w))
      else ok (check_reputation cfg w)

-- `stats->packets[ATTACK_HTTP_GET_FLOOD]++` for a blacklisted User-Agent.
unfoldable pub attribute_bot : Watch HttpProtectCtx → Watch HttpProtectCtx
attribute_bot w = record w {
  stats = record (w.stats) { packets = bump w.stats.packets http_get_flood };
}

-- The User-Agent checks. A request without one is logged at level DEBUG with its pointer, NULL, for `%s`,
-- which the C library must print as some text: C itself leaves it undefined.
unfoldable pub check_user_agent : Config → Packet → Watch HttpProtectCtx → Run Result
unfolding lower_reputation attribute_bot
check_user_agent cfg pkt w = elim pkt.http_user_agent [
  | Option.none ↦ check_content cfg pkt (lower_reputation 5 w)
  | Option.some user_agent ↦
      if is_user_agent_blacklisted w.ctx user_agent
      then ok (drop, lower_reputation 10 (count_drop (attribute_bot w)))
      else check_content cfg pkt w
]

-- `http_protect_analyze` behind its first counter.
unfoldable pub analyze_counted : Config → ℕ → Packet → Watch HttpProtectCtx → Run Result
unfolding report flood_attack
analyze_counted cfg now pkt w₀ =
    let stats : IpStats = record (w₀.stats) { http_rps = u64 (w₀.stats.http_rps + 1) } in
    let w : Watch HttpProtectCtx = record w₀ { stats = stats } in
    let reset : Watch HttpProtectCtx = record w₀ {
      stats = record stats { http_rps = 0; last_update = now };
    } in
    let attack = flood_attack pkt in
    let flood =
      ltb cfg.http_rps_threshold stats.http_rps && not (index attack == index attack_none) in
    if leb (stats.last_update + 1) now
    then (if flood
        then ok (if cfg.enable_js_challenge then challenge else drop, count_drop (report attack w))
        else check_user_agent cfg pkt reset)
    else check_user_agent cfg pkt w

-- The global pointer may be NULL, if the initialisation failed.
unfoldable pub http_protect_analyze :
    Config
    → ℕ
    → Packet
    → Watch (Option HttpProtectCtx)
    → Run (Verdict × Watch (Option HttpProtectCtx))
http_protect_analyze cfg now pkt w =
    if pkt.is_http && cfg.enable_http_protection
    then (do
      c ← deref (w.ctx)
      (v, r) ← analyze_counted cfg now pkt (record {
        ctx = record c { total_http_requests = u64 (c.total_http_requests + 1) };
        global = w.global;
        stats = w.stats;
      })
      ok (v, record { ctx = some (r.ctx); global = r.global; stats = r.stats }))
    else ok (accept, w)
