-- ===== src/Tests/Http.antt =====
-- HTTP requests, for the theorems on src/detection/http_protect.c.
use anti.Base.{
  ℕ, ◌≡◌, ◌≤◌, ◌⊎◌, ◌↔◌, ◌+◌, ◌-◌, ◌^◌, inl, refl, true, false, List, [], ◌∷◌, ◌++◌, Option, some,
  replicate, ok, arith,
}
use anti.Types.{accept, attack_none}
use anti.Packet.{Packet, byte_at}
use anti.Packet.Http.{strstr, starts_with, get_text}
use anti.Protect.Watch.{Watch}
use anti.Protect.Http.{
  HttpProtectCtx, is_http_header_anomaly, payload_has, headers_long, has_nul, version_missing,
  is_slow_post_attack, method_is, same_text, is_user_agent_blacklisted, any_occurs, occurs_by,
  prefix_by,
}
use anti.Protect.Http.Analyze.{
  http_protect_analyze, analyze_counted, check_user_agent, check_content, check_reputation,
  lower_reputation, flood_attack,
}
use anti.Protect.Http.Overrun.{version, is_http_header_anomaly-NoNul}
use anti.Protect.Http.Laws.{IsCalm, http_protect_analyze-accept_iff, http_protect_analyze-wraps}
use anti.Tests.Udp.{flow, totals, settings, datagram}

-- "GET / HTTP/1.1", a Host header and an empty line; in the capture a NUL follows the payload.
abbrev request_text : List ℕ
request_text =
    71 ∷ 69 ∷ 84 ∷ 32 ∷ 47 ∷ 32 ∷ 72 ∷ 84 ∷ 84 ∷ 80 ∷ 47 ∷ 49 ∷ 46 ∷ 49 ∷ 13 ∷ 10 ∷ 72 ∷ 111 ∷ 115
    ∷ 116 ∷ 58 ∷ 97 ∷ 13 ∷ 10 ∷ 13 ∷ 10 ∷ []

abbrev silent : Packet
silent = record datagram {
  bytes = replicate 42 0 ++ (request_text ++ (0 ∷ []));
  protocol = 6;
  payload_len = 26;
  is_http = true;
  http_method = some get_text;
}

abbrev browser : List ℕ
browser = 77 ∷ 111 ∷ 122 ∷ []

abbrev spoken : Packet
spoken = record silent { http_user_agent = some browser }

abbrev guard : HttpProtectCtx
guard = record {
  total_http_requests = 0;
  dropped_requests = 0;
  user_agent_blacklist = [];
  last_update = 0;
}

abbrev trusted : Watch (Option HttpProtectCtx)
trusted = record { ctx = some guard; global = totals; stats = flow }

abbrev suspect : Watch (Option HttpProtectCtx)
suspect = record trusted { stats = record flow { reputation_score = 3 } }

spoken_run :
    (r : Watch (Option HttpProtectCtx)) × (http_protect_analyze settings 10 spoken trusted
      ≡ ok (accept, r))
unfolding http_protect_analyze analyze_counted check_user_agent check_content check_reputation
    is_http_header_anomaly payload_has headers_long has_nul version_missing strstr starts_with
    byte_at is_slow_post_attack method_is same_text is_user_agent_blacklisted any_occurs occurs_by
    prefix_by
spoken_run = (_, refl)

silent_run :
    (r : Watch (Option HttpProtectCtx)) × (http_protect_analyze settings 10 silent suspect
      ≡ ok (accept, r))
unfolding http_protect_analyze analyze_counted check_user_agent check_content check_reputation
    is_http_header_anomaly payload_has headers_long has_nul version_missing strstr starts_with
    byte_at is_slow_post_attack method_is same_text lower_reputation
silent_run = (_, refl)

http_protect_analyze-accept_iff_example : (accept ≡ accept) ↔ (
    (IsCalm settings 10 flow ⊎ (flood_attack spoken ≡ attack_none))
    × (is_user_agent_blacklisted guard browser ≡ false)
    × (false ≡ false)
    × (is_slow_post_attack spoken ≡ false)
    × (20 ≤ flow.reputation_score))
unfolding is_http_header_anomaly payload_has headers_long has_nul version_missing strstr starts_with
    byte_at
http_protect_analyze-accept_iff_example =
    http_protect_analyze-accept_iff settings 10 spoken trusted guard browser refl refl refl refl
      refl spoken_run.1

http_protect_analyze-wraps_example :
    (accept ≡ accept)
    × (silent_run.0.stats.reputation_score ≡ suspect.stats.reputation_score + 2 ^ 32 - 5)
unfolding is_http_header_anomaly payload_has headers_long has_nul version_missing strstr starts_with
    byte_at is_slow_post_attack method_is same_text
http_protect_analyze-wraps_example =
    http_protect_analyze-wraps settings 10 silent suspect guard refl refl refl refl refl refl
      (inl (omega arith)) (omega arith) silent_run.1

-- A capture that ends with the request.
abbrev unended : Packet
unended = record silent {
  bytes =
      replicate 42 0
      ++ (71 ∷ 69 ∷ 84 ∷ 32 ∷ 47 ∷ 32 ∷ 72 ∷ 84 ∷ 84 ∷ 80 ∷ 47 ∷ 49 ∷ 46 ∷ 48 ∷ 13 ∷ 10 ∷ 72 ∷ 111
          ∷ 115 ∷ 116 ∷ 58 ∷ 97 ∷ 13 ∷ 10 ∷ 13 ∷ 10 ∷ []);
}

is_http_header_anomaly-NoNul_example :
    ((false ≡ true) × (headers_long unended ≡ ok true))
    ⊎ ((false ≡ false) × (payload_has unended version ≡ ok true))
unfolding is_http_header_anomaly payload_has headers_long has_nul version_missing strstr starts_with
    byte_at
is_http_header_anomaly-NoNul_example =
    is_http_header_anomaly-NoNul unended 42 refl refl (ground arith) refl
