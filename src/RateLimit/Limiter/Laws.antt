-- ===== src/RateLimit/Limiter/Laws.antt =====
-- What the limiter decides for an address that is alone in its bucket, and what it does to two
-- addresses that share one.
use anti.Base.{
  ℕ, zero, ◌+◌, ◌/◌, ◌≤◌, ◌<◌, ◌^◌, ◌≡◌, refl, Bool, true, false, [], ◌∷◌, some, leb, ◌==◌, update,
  u64, ok, fault, arith, ==_refl,
}
use native.Mathlib.Nat.{zero-div}
use anti.Addr.{IpAddr, same_ip}
use anti.Addr.Laws.{same_ip_self}
use anti.RateLimit.Window.{sliding_window_create}
use anti.RateLimit.Window.History.{History, recent, sum_all}
use anti.RateLimit.Window.Sums.{
  Traced, added, sliding_window_add-returns, sliding_window_sum-recent,
}
use anti.RateLimit.Limiter.{
  RateLimitEntry, Chain, RateLimiter, ip_hash_simple, listed, get_or_create_entry, charge,
  charge_in, rate_limiter_allow, pps_add, pps_sum,
}

-- The address is alone in its bucket, and its byte window has seen `h`.
pub record Alone (rl : RateLimiter) (ip : IpAddr) (e : RateLimitEntry) (h : History) : Type 0 where
  pub only : rl.buckets (ip_hash_simple ip) ≡ e ∷ []
  pub owner : same_ip e.ip ip ≡ true
  pub traced : Traced rl.window_size e.bps_window h
  pub positive : 0 < rl.window_size
  pub fits : rl.window_size < 2 ^ 32

-- For an address alone in its bucket, with less than 2 ^ 64 bytes in all, a packet in the order of
-- time is allowed exactly when the bytes of the last `window_size` seconds, this packet's included, are within `max_bps` a second;
-- the number of packets is not limited, whatever `max_pps` is.
pub rate_limiter_allow-Alone :
    {rl : RateLimiter} {ip : IpAddr} {e : RateLimitEntry} {h : History} (packet_size now : ℕ)
    (granted : Bool)
    → Alone rl ip e h
    → e.bps_window.window_start ≤ now
    → sum_all h + packet_size < 2 ^ 64
    → let after = (now, packet_size) ∷ h in
      (f : RateLimitEntry) × (next : RateLimiter) × (rate_limiter_allow
          (some rl)
          (some ip)
          packet_size
          now
          granted
        ≡ ok (leb (recent after now rl.window_size / rl.window_size) rl.max_bps, some next))
      × Alone next ip f after
unfolding rate_limiter_allow get_or_create_entry listed charge_in charge pps_add pps_sum
rate_limiter_allow-Alone {rl} {ip} {e} {h} packet_size now granted v order room =
    let k = ip_hash_simple ip in
    let (w, p, start) =
      sliding_window_add-returns packet_size now v.positive v.fits v.traced order room in
    let t = added e.bps_window w h packet_size now v.traced order room p in
    let total = sliding_window_sum-recent now v.positive v.fits t in
    let current : leb (w.window_start + rl.window_size) now ≡ false = ground (arith, v.positive) in
    let nonzero : (rl.window_size == 0) ≡ false = ground (arith, v.positive) in
    let free : leb (zero / rl.window_size) rl.max_pps ≡ true =
      rw (zero-div rl.window_size) (ground arith) in
    let found : get_or_create_entry rl ip k now granted ≡ some (e ∷ []) =
      rw (v.only, v.owner, get_or_create_entry) refl in
    let f : RateLimitEntry = record {
      ip = e.ip;
      bps_window = w;
      last_update = now;
      total_packets = u64 (e.total_packets + 1);
      total_bytes = u64 (e.total_bytes + packet_size);
    } in
    (
      f,
      record rl { buckets = update rl.buckets k (f ∷ []) },
      rw (found, rate_limiter_allow)
          (rw (v.owner, charge_in) (rw (p, charge, nonzero, free, total, current, start) refl)),
      record {
        only = rw (==_refl k);
        owner = v.owner;
        traced = t;
        positive = v.positive;
        fits = v.fits;
      },
    )

-- The first packet of an address puts its entry in front of the bucket's chain; where the bucket
-- holds another address, the limiter then takes that one's entry for a window.
pub rate_limiter_allow-collision :
    (rl : RateLimiter) (ip : IpAddr) (e : RateLimitEntry) (c : Chain) (packet_size now : ℕ)
    → rl.buckets (ip_hash_simple ip) ≡ e ∷ c
    → listed ip (e ∷ c) ≡ false
    → rate_limiter_allow (some rl) (some ip) packet_size now true ≡ fault
unfolding rate_limiter_allow get_or_create_entry charge_in charge pps_add sliding_window_create
rate_limiter_allow-collision rl ip e c packet_size now p q =
    let absent : listed ip (rl.buckets (ip_hash_simple ip)) ≡ false = rw p q in
    rw (absent, rate_limiter_allow, get_or_create_entry) (rw (p, same_ip_self ip, charge_in) refl)
