-- ===== src/RateLimit.antt =====
-- core/ratelimit.py: the per-host token bucket, in process and as the Lua script run by Redis.
-- The floats are whole numbers here: time in nanoseconds, rates in 10^-9 tokens a second, and
-- amounts of tokens in 10^-18 tokens, so that `elapsed * rate` is exact.
pub mod Try
pub mod Level
pub mod Conformance
pub mod Acquire
pub mod Hosts
pub mod Redis
mod Tests
