-- ===== src/RateLimit.antt =====
-- src/rate_limit.rs: the limits on HTTP requests.
pub mod Limiter
mod Evict
mod Outcome
mod Bounds
mod Throttled
mod Sliding
mod History
pub mod Requests
mod Bearer
mod Clients
mod Forwarded
mod Runs
mod Tests
