-- ===== src/Tests/Rates.antt =====
-- Windows and limiters, for the theorems on src/filter/ratelimit.c.
use anti.Base.{zero, ◌≡◌, ◌+◌, ◌/◌, refl, true, [], ◌∷◌, some, leb, if◌then◌else◌, ok, fault, arith}
use anti.Addr.{IpAddr, inet, ip_addr_compare}
use anti.RateLimit.Window.{
  SlidingWindow, sliding_window_create, sliding_window_add, sliding_window_sum, advance, accumulate,
  store,
}
use anti.RateLimit.Window.History.{recent, sum_all}
use anti.RateLimit.Window.Sums.{Traced, created, added, sliding_window_sum-recent}
use anti.RateLimit.Limiter.{RateLimitEntry, RateLimiter, rate_limiter_allow, listed}
use anti.RateLimit.Limiter.Laws.{Alone, rate_limiter_allow-Alone, rate_limiter_allow-collision}

abbrev blank : SlidingWindow
blank = record { buckets = 0 ∷ 0 ∷ 0 ∷ []; size = 3; current_idx = 0; window_start = 100 }

-- 7 in second 100, then 5 in second 102.
abbrev first : SlidingWindow
first = record blank { buckets = 7 ∷ 0 ∷ 0 ∷ [] }

abbrev second : SlidingWindow
second = record { buckets = 7 ∷ 0 ∷ 5 ∷ []; size = 3; current_idx = 2; window_start = 102 }

blank-Traced : Traced 3 blank []
unfolding sliding_window_create
blank-Traced = created 100 blank refl

second-Traced : Traced 3 second ((102, 5) ∷ (100, 7) ∷ [])
unfolding sliding_window_add advance accumulate store sum_all
second-Traced =
    added first second ((100, 7) ∷ []) 5 102
      (added blank first [] 7 100 blank-Traced (omega arith) (omega arith) refl) (omega arith)
      (omega arith) refl

sliding_window_sum-recent_example :
    sliding_window_sum second 104
    ≡ ok (if leb (102 + 3) 104 then zero else recent ((102, 5) ∷ (100, 7) ∷ []) 102 3)
sliding_window_sum-recent_example =
    sliding_window_sum-recent 104 (omega arith) (omega arith) second-Traced

abbrev client : IpAddr
client = inet 5

abbrev entry : RateLimitEntry
entry = record {
  ip = client;
  bps_window = second;
  last_update = 102;
  total_packets = 2;
  total_bytes = 12;
}

abbrev limiter : RateLimiter
limiter = record { buckets = λ i. entry ∷ []; max_pps = 0; max_bps = 10; window_size = 3 }

entry-Alone : Alone limiter client entry ((102, 5) ∷ (100, 7) ∷ [])
unfolding ip_addr_compare
entry-Alone = record {
  only = refl;
  owner = refl;
  traced = second-Traced;
  positive = omega arith;
  fits = omega arith;
}

rate_limiter_allow-Alone_example :
    (f : RateLimitEntry) × (next : RateLimiter) × (rate_limiter_allow
        (some limiter)
        (some client)
        9
        103
        true
      ≡ ok (leb (recent ((103, 9) ∷ (102, 5) ∷ (100, 7) ∷ []) 103 3 / 3) 10, some next))
    × Alone next client f ((103, 9) ∷ (102, 5) ∷ (100, 7) ∷ [])
unfolding sum_all
rate_limiter_allow-Alone_example =
    rate_limiter_allow-Alone 9 103 true entry-Alone (omega arith) (omega arith)

rate_limiter_allow-collision_example :
    rate_limiter_allow (some limiter) (some (inet 65541)) 9 103 true ≡ fault
unfolding listed ip_addr_compare
rate_limiter_allow-collision_example =
    rate_limiter_allow-collision limiter (inet 65541) entry [] 9 103 refl refl
