-- ===== src/RateLimit/Limiter.antt =====
-- The rate limiter of src/filter/ratelimit.c. The chain of a bucket runs through the field
-- `pps_window` of its entries: what `get_or_create_entry` creates there is overwritten by the
-- pointer to the next entry. So the field is NULL in the last entry of a chain, and in any other
-- an entry taken for a window, whose use is a fault. A bucket is the list of its entries.
pub mod Laws
pub mod Destroy
use anti.Base.{
  ℕ, ◌+◌, ◌/◌, ◌%◌, Bool, true, false, ◌&&◌, List, [], ◌∷◌, Option, none, some, leb, ◌==◌,
  if◌then◌else◌, update, u32, u64, Run, ok, fault, ◌>>=◌,
}
use anti.Addr.{IpAddr, same_ip, ip_word}
use anti.RateLimit.Window.{
  SlidingWindow, sliding_window_create, sliding_window_add, sliding_window_sum,
}

pub record RateLimitEntry : Type 0 where
  pub ip : IpAddr
  pub bps_window : SlidingWindow
  pub last_update : ℕ
  pub total_packets : ℕ
  pub total_bytes : ℕ

abbrev pub Chain : Type 0
Chain = List RateLimitEntry

pub record RateLimiter : Type 0 where
  pub buckets : ℕ → Chain
  pub max_pps : ℕ
  pub max_bps : ℕ
  pub window_size : ℕ

abbrev pub rate_limit_buckets : ℕ
rate_limit_buckets = 65536

-- Three allocations: the limiter, its buckets and its locks.
unfoldable pub create : ℕ → ℕ → ℕ → Bool → Bool → Bool → Option RateLimiter
create max_pps max_bps window_size granted buckets_granted locks_granted =
    if granted && buckets_granted && locks_granted
    then some (record {
      buckets = λ i. [];
      max_pps = max_pps;
      max_bps = max_bps;
      window_size = window_size;
    })
    else none

-- The loop of `rate_limiter_destroy` sets `next` to the entry itself, which it has just freed.
unfoldable pub destroy_chain : Chain → Run (Unit {0})
destroy_chain [] = ok tt
destroy_chain (e ∷ c) = fault

unfoldable pub ip_hash_simple : IpAddr → ℕ
ip_hash_simple ip = u32 (ip_word ip) % rate_limit_buckets

unfoldable pub listed : IpAddr → Chain → Bool
listed ip [] = false
listed ip (e ∷ c) = if same_ip e.ip ip then true else listed ip c

-- `get_or_create_entry`: the chain in which the entry stands, or `none` for its NULL. `granted` is
-- the success of the allocations of the entry and its two windows.
unfoldable pub get_or_create_entry : RateLimiter → IpAddr → ℕ → ℕ → Bool → Option Chain
unfolding listed
get_or_create_entry rl ip bucket_idx now granted =
    let chain = rl.buckets bucket_idx in
    let created = sliding_window_create rl.window_size granted granted now in
    if listed ip chain then some chain else (elim created [
      | Option.none ↦ none
      | Option.some w ↦ some (
          record { ip = ip; bps_window = w; last_update = now; total_packets = 0; total_bytes = 0 }
          ∷ chain)
    ])

-- `/ rl->window_size`.
abbrev pub per_second : RateLimiter → ℕ → Run ℕ
per_second rl sum = if rl.window_size == 0 then fault else ok (sum / rl.window_size)

-- `sliding_window_add` and `sliding_window_sum` on `pps_window`, by the entries behind: NULL adds
-- nothing and sums to 0.
unfoldable pub pps_add : Chain → Run (Unit {0})
pps_add [] = ok tt
pps_add (e ∷ c) = fault

unfoldable pub pps_sum : Chain → Run ℕ
pps_sum [] = ok 0
pps_sum (e ∷ c) = fault

-- "Update counters" and "Check rate limits", on an entry and those behind it.
unfoldable pub charge : RateLimiter → ℕ → ℕ → RateLimitEntry → Chain → Run (RateLimitEntry × Bool)
unfolding pps_add pps_sum
charge rl packet_size now entry behind = do
  _ ← pps_add behind
  window ← sliding_window_add entry.bps_window packet_size now
  pps ← pps_sum behind
  current_pps ← per_second rl pps
  bps ← sliding_window_sum window now
  current_bps ← per_second rl bps
  ok (
    record {
      ip = entry.ip;
      bps_window = window;
      last_update = now;
      total_packets = u64 (entry.total_packets + 1);
      total_bytes = u64 (entry.total_bytes + packet_size);
    },
    leb current_pps rl.max_pps && leb current_bps rl.max_bps,
  )

-- The entry of the address is the first that compares equal.
unfoldable pub charge_in : RateLimiter → IpAddr → ℕ → ℕ → Chain → Run (Chain × Bool)
charge_in rl ip packet_size now [] = fault
charge_in rl ip packet_size now (e ∷ c) =
    let later : Run (Chain × Bool) = (do
      (rest, allowed) ← charge_in rl ip packet_size now c
      ok (e ∷ rest, allowed)) in
    if same_ip e.ip ip
    then (do (entry, allowed) ← charge rl packet_size now e c; ok (entry ∷ c, allowed))
    else later

unfoldable pub rate_limiter_allow :
    Option RateLimiter → Option IpAddr → ℕ → ℕ → Bool → Run (Bool × Option RateLimiter)
unfolding get_or_create_entry
rate_limiter_allow (some rl) (some ip) packet_size now granted =
    let bucket_idx = ip_hash_simple ip in
    elim (get_or_create_entry rl ip bucket_idx now granted) [
      | Option.none ↦ ok (true, some rl)
      | Option.some chain ↦ do
        (after, allowed) ← charge_in rl ip packet_size now chain
        ok (allowed, some (record rl { buckets = update rl.buckets bucket_idx after }))
    ]
rate_limiter_allow rl ip packet_size now granted = ok (true, rl)

-- The loop of `rate_limiter_get_pps`.
unfoldable pub pps_in : RateLimiter → IpAddr → Chain → Run ℕ
unfolding pps_sum
pps_in rl ip [] = ok 0
pps_in rl ip (e ∷ c) =
    let later = pps_in rl ip c in
    if same_ip e.ip ip then (do sum ← pps_sum c; per_second rl sum) else later

unfoldable pub rate_limiter_get_pps : Option RateLimiter → Option IpAddr → Run ℕ
unfolding pps_in
rate_limiter_get_pps (some rl) (some ip) = pps_in rl ip (rl.buckets (ip_hash_simple ip))
rate_limiter_get_pps rl ip = ok 0

-- The loop of `rate_limiter_get_bps`.
unfoldable pub bps_in : RateLimiter → IpAddr → ℕ → Chain → Run ℕ
bps_in rl ip now [] = ok 0
bps_in rl ip now (e ∷ c) =
    let later = bps_in rl ip now c in
    if same_ip e.ip ip
    then (do sum ← sliding_window_sum e.bps_window now; per_second rl sum)
    else later

unfoldable pub rate_limiter_get_bps : Option RateLimiter → Option IpAddr → ℕ → Run ℕ
unfolding bps_in
rate_limiter_get_bps (some rl) (some ip) now = bps_in rl ip now (rl.buckets (ip_hash_simple ip))
rate_limiter_get_bps rl ip now = ok 0

-- The loop of `rate_limiter_reset`. It destroys `pps_window`, which is the next entry.
unfoldable pub reset_in : IpAddr → Chain → Run Chain
reset_in ip [] = ok []
reset_in ip (e ∷ []) = if same_ip e.ip ip then ok [] else ok (e ∷ [])
reset_in ip (e ∷ f ∷ c) =
    let later = reset_in ip (f ∷ c) in
    if same_ip e.ip ip then fault else (later >>= (λ rest. ok (e ∷ rest)))

unfoldable pub rate_limiter_reset : Option RateLimiter → Option IpAddr → Run (Option RateLimiter)
unfolding reset_in
rate_limiter_reset (some rl) (some ip) = do
  let bucket_idx = ip_hash_simple ip
  after ← reset_in ip (rl.buckets bucket_idx)
  ok (some (record rl { buckets = update rl.buckets bucket_idx after }))
rate_limiter_reset rl ip = ok rl
