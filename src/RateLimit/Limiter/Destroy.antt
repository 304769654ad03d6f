-- ===== src/RateLimit/Limiter/Destroy.antt =====
-- `rate_limiter_destroy` and `rate_limiter_update` of src/filter/ratelimit.c.
use anti.Base.{
  ℕ, zero, suc, ◌+◌, ◌≤◌, ◌<◌, ◌≡◌, refl, sym, [], ◌∷◌, Option, none, some, Run, ok, ◌>>=◌, arith,
  Bool-cases, inl, inr, ◌==◌,
}
use anti.RateLimit.Limiter.{Chain, RateLimiter, rate_limit_buckets, destroy_chain}

-- The loop over the buckets from `i`, with `left` of them to go.
unfoldable pub destroy_from : ℕ → ℕ → (ℕ → Chain) → Run (Unit {0})
unfolding destroy_chain
destroy_from zero i buckets = ok tt
destroy_from (suc left) i buckets = do
  u ← destroy_chain (buckets i)
  destroy_from left (i + 1) buckets

unfoldable pub rate_limiter_destroy : Option RateLimiter → Run (Unit {0})
unfolding destroy_from
rate_limiter_destroy none = ok tt
rate_limiter_destroy (some rl) = destroy_from rate_limit_buckets 0 rl.buckets

-- It does nothing.
unfoldable pub rate_limiter_update : Option RateLimiter → ℕ → Option RateLimiter
rate_limiter_update rl now = rl

first_empty :
    (c : Chain) (rest : Unit {0} → Run (Unit {0}))
    → (destroy_chain c >>= rest) ≡ ok tt
    → (c ≡ []) × (rest tt ≡ ok tt)
unfolding destroy_chain
first_empty [] rest e = (refl, e)
first_empty (x ∷ c) rest e = cc

destroy_from-ok :
    (left i : ℕ) (buckets : ℕ → Chain)
    → destroy_from left i buckets ≡ ok tt
    → (j : ℕ) → i ≤ j
    → j < i + left
    → buckets j ≡ []
unfolding destroy_from
destroy_from-ok zero i buckets e j low high = absurd (omega arith)
destroy_from-ok (suc left) i buckets e j low high =
    let (empty, later) = first_empty (buckets i) (λ u. destroy_from left (i + 1) buckets) e in
    elim (Bool-cases (i == j)) [
      | inl here ↦ let same : i ≡ j = ground arith in rw (sym same) empty
      | inr there ↦ destroy_from-ok left (i + 1) buckets later j (ground arith) (omega arith)
    ]

-- A limiter is destroyed without a fault only where no bucket has an entry.
pub rate_limiter_destroy-ok :
    (rl : RateLimiter)
    → rate_limiter_destroy (some rl) ≡ ok tt
    → (j : ℕ) → j < rate_limit_buckets
    → rl.buckets j ≡ []
unfolding rate_limiter_destroy
rate_limiter_destroy-ok rl e j high =
    destroy_from-ok rate_limit_buckets 0 rl.buckets e j (omega arith) (omega arith)
