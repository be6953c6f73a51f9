-- ===== src/Eventing.antt =====
-- packages/platform-modules/eventing-outbox/src: the outbox, the inbox and the jobs.
pub mod Types
pub mod Store
pub mod Core
pub mod Publisher
mod Tests
