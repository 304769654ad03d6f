-- ===== src/Protect/Http.antt =====
-- src/detection/http_protect.c. A string that the parser made is the list of its characters; the
-- payload is text up to its NUL, read in the captured bytes.
pub mod Analyze
pub mod Laws
pub mod Overrun
use anti.Base.{
  ℕ, zero, suc, ◌+◌, ◌-◌, Bool, true, false, not, ◌&&◌, ◌||◌, List, [], ◌∷◌, Option, none, some,
  ltb, leb, ◌==◌, if◌then◌else◌, length, drop, get_elem?, u32, u64, sub32, Run, ok, deref, ◌>>=◌,
}
use anti.Types.{
  Verdict, accept, challenge, Attack, attack_none, http_get_flood, http_post_flood, slow_post,
  http_header_anomaly, index, bump, IpStats, Config,
}
use anti.Packet.{Packet, byte_at}
use anti.Packet.Http.{strstr, get_text, post_text}
use anti.Protect.Watch.{Watch, report}

pub record HttpProtectCtx : Type 0 where
  pub total_http_requests : ℕ
  pub dropped_requests : ℕ
  pub user_agent_blacklist : List (List ℕ)
  pub last_update : ℕ

-- `http_protect_init`: the list of the settings, empty where there is none.
unfoldable pub http_protect_init : Bool → List (List ℕ) → ℕ → Option HttpProtectCtx
http_protect_init granted blacklist now =
    if granted
    then some (record {
      total_http_requests = 0;
      dropped_requests = 0;
      user_agent_blacklist = blacklist;
      last_update = now;
    })
    else none

-- `http_protect_cleanup`: the counters are freed, and the pointer is NULL.
unfoldable pub http_protect_cleanup : Option HttpProtectCtx → Option HttpProtectCtx
http_protect_cleanup ctx = none

abbrev pub lower : ℕ → ℕ
lower c = if leb 65 c && leb c 90 then c + 32 else c

-- `strcmp(a, b) == 0`.
unfoldable pub same_text : List ℕ → List ℕ → Bool
same_text [] [] = true
same_text [] (y ∷ ys) = false
same_text (x ∷ xs) [] = false
same_text (x ∷ xs) (y ∷ ys) = x == y && same_text xs ys

-- The start of a text, under a map of its characters.
unfoldable pub prefix_by : (ℕ → ℕ) → List ℕ → List ℕ → Bool
prefix_by f text [] = true
prefix_by f [] (p ∷ ps) = false
prefix_by f (t ∷ ts) (p ∷ ps) = f t == f p && prefix_by f ts ps

-- `strstr` and `strcasestr` on whole strings, by the map.
unfoldable pub occurs_by : (ℕ → ℕ) → List ℕ → List ℕ → Bool
unfolding prefix_by
occurs_by f [] pattern = prefix_by f [] pattern
occurs_by f (t ∷ ts) pattern = prefix_by f (t ∷ ts) pattern || occurs_by f ts pattern

unfoldable pub any_occurs : (ℕ → ℕ) → List ℕ → List (List ℕ) → Bool
unfolding occurs_by
any_occurs f text [] = false
any_occurs f text (p ∷ ps) = occurs_by f text p || any_occurs f text ps

-- "bot", "crawler", "spider", "scraper", "python-requests", "curl", "wget".
abbrev pub bot_patterns : List (List ℕ)
bot_patterns =
    (b'b' ∷ b'o' ∷ b't' ∷ [])
    ∷ (b'c' ∷ b'r' ∷ b'a' ∷ b'w' ∷ b'l' ∷ b'e' ∷ b'r' ∷ [])
    ∷ (b's' ∷ b'p' ∷ b'i' ∷ b'd' ∷ b'e' ∷ b'r' ∷ [])
    ∷ (b's' ∷ b'c' ∷ b'r' ∷ b'a' ∷ b'p' ∷ b'e' ∷ b'r' ∷ [])
    ∷ (b'p' ∷ b'y' ∷ b't' ∷ b'h' ∷ b'o' ∷ b'n' ∷ b'-' ∷ b'r' ∷ b'e' ∷ b'q' ∷ b'u' ∷ b'e' ∷ b's'
        ∷ b't' ∷ b's' ∷ [])
    ∷ (b'c' ∷ b'u' ∷ b'r' ∷ b'l' ∷ [])
    ∷ (b'w' ∷ b'g' ∷ b'e' ∷ b't' ∷ [])
    ∷ []

unfoldable pub is_user_agent_blacklisted : HttpProtectCtx → List ℕ → Bool
unfolding any_occurs
is_user_agent_blacklisted c user_agent =
    any_occurs (λ t. t) user_agent c.user_agent_blacklist
    || any_occurs lower user_agent bot_patterns

abbrev pub host_text : List ℕ
host_text = b'H' ∷ b'o' ∷ b's' ∷ b't' ∷ b':' ∷ []

-- "HTTP/", which a version follows.
abbrev pub http_text : List ℕ → List ℕ
http_text version = b'H' ∷ b'T' ∷ b'T' ∷ b'P' ∷ b'/' ∷ version

-- The loop over the first 2048 characters from `i`, with `left` of them to go.
unfoldable pub has_nul : Packet → ℕ → ℕ → Run Bool
has_nul pkt zero i = ok false
has_nul pkt (suc left) i =
    let rest = has_nul pkt left (i + 1) in
    do c ← byte_at pkt.bytes pkt.payload i; if c == 0 then ok true else rest

-- `strstr(payload, pattern) != NULL`.
unfoldable pub payload_has : Packet → List ℕ → Run Bool
unfolding strstr
payload_has pkt pattern = do
  o ← deref (pkt.payload)
  found ← strstr (drop o pkt.bytes) pattern
  elim found [ Option.none ↦ ok false | Option.some t ↦ ok true ]

-- `header_end - payload > 8192`, where the headers end.
unfoldable pub headers_long : Packet → Run Bool
unfolding strstr
headers_long pkt = do
  o ← deref (pkt.payload)
  let payload = drop o pkt.bytes
  header_end ← strstr payload (13 ∷ 10 ∷ 13 ∷ 10 ∷ [])
  elim header_end [
    | Option.none ↦ ok false
    | Option.some t ↦ ok (ltb 8192 (length payload - length t))
  ]

-- None of the three versions occurs.
unfoldable pub version_missing : Packet → Run Bool
unfolding payload_has
version_missing pkt = do
  old ← payload_has pkt (http_text (b'1' ∷ b'.' ∷ b'0' ∷ []))
  if old then ok false else (do
    usual ← payload_has pkt (http_text (b'1' ∷ b'.' ∷ b'1' ∷ []))
    if usual then ok false else (do new ← payload_has pkt (http_text (b'2' ∷ [])); ok (not new)))

unfoldable pub is_http_header_anomaly : Packet → Run Bool
unfolding payload_has headers_long has_nul version_missing
is_http_header_anomaly pkt =
    let checked = if ltb pkt.payload_len 2048 then pkt.payload_len else 2048 in
    if pkt.is_http
    then (do
      host ← payload_has pkt host_text
      if host
          then (do
            long ← headers_long pkt
            if long
                then ok true
                else (do nul ← has_nul pkt checked 0; if nul then ok true else version_missing pkt))
          else ok true)
    else ok false

-- `http_method && strcmp(http_method, text) == 0`.
unfoldable pub method_is : Packet → List ℕ → Bool
unfolding same_text
method_is pkt text = elim pkt.http_method [ Option.none ↦ false | Option.some m ↦ same_text m text ]

unfoldable pub is_slow_post_attack : Packet → Bool
unfolding method_is
is_slow_post_attack pkt =
    pkt.is_http
    && method_is pkt post_text
    && ltb 10000 pkt.http_content_length
    && ltb pkt.payload_len 500
