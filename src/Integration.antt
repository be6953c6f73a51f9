-- ===== src/Integration.antt =====
-- packages/platform-modules/integration-runtime/src: what guards the calls of external systems.
pub mod Errors
pub mod Retry
pub mod RateLimiter
pub mod Concurrency
pub mod Breaker
pub mod Deadline
pub mod Executor
pub mod Webhook
mod Tests
