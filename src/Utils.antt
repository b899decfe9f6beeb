-- ===== src/Utils.antt =====
-- src/utils: the rate limiter, the tracker of running work and the retried write.
pub mod RateLimit
pub mod InFlight
pub mod RetryAsync
