-- ===== src/RateLimit.antt =====
-- src/filter/ratelimit.c.
pub mod Window
pub mod Limiter
