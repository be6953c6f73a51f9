-- ===== src/Authorization.antt =====
-- packages/platform-modules/authorization/src: who may do what, decided against a policy.
pub mod Types
pub mod Scope
pub mod Policy
pub mod Engine
pub mod Service
mod Tests
