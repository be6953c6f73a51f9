-- ===== src/Lib.antt =====
-- AI-CRM step 1: verification of the platform modules' core logic.
--
-- The program is a CRM platform in TypeScript. Its applications (apps/) compose platform modules
-- (packages/platform-modules/) that talk to each other through ports. These are
-- modelled:
--
-- * Authorization (packages/platform-modules/authorization/src) decides who may do what. A policy
--   snapshot is validated (policy.ts, here Authorization/Policy), a request is evaluated against it
--   (`evaluatePolicy` of engine.ts, here Authorization/Engine, with data scopes in
--   Authorization/Scope), and the service (`createAuthorizationService`, here Authorization/Service)
--   puts the policy store, the cache, the clock and the recorder around that evaluation.
--   Authorization/Engine/Spec describes authorization without the engine's data structures.
-- * Eventing (packages/platform-modules/eventing-outbox/src) is the outbox, the inbox and the jobs.
--   Eventing/Types has the records of types.ts, store.ts and errors.ts, Eventing/Store the in-memory
--   store (memory-store.ts), Eventing/Core the operations of service.ts and Eventing/Publisher the
--   loop of publisher.ts. `consume` calls the
--   store in a transaction, whose error restores the store.
-- * Integration (packages/platform-modules/integration-runtime/src) guards calls of external
--   systems: retry.ts in Integration/Retry, limits.ts in Integration/RateLimiter and
--   Integration/Concurrency, circuit-breaker.ts in Integration/Breaker, deadline.ts in
--   Integration/Deadline, webhook.ts in Integration/Webhook and executor.ts in
--   Integration/Executor. The executor's loop is recursion
--   on the attempts that its policy has left, which are enough because `shouldRetry` refuses after
--   the last one. Concurrent calls are step relations (Integration/Concurrency/System,
--   Integration/Breaker/Reach), in which every order of the calls' steps is a run.
-- * Organization (packages/platform-modules/organization/src) keeps the facts about people, their
--   employments and the units they work in, each with the interval in which it is in force.
--   Organization has the facts and the intervals (types.ts, validation.ts), Organization/Store the
--   in-memory store's `commit` with every kind of write (memory-store.ts, store.ts), and
--   Organization/Service the commands of service.ts that need no walk up the hierarchy.
--   Organization/Hierarchy the other commands, and the resolution of a person's context. A walk has
--   fuel for one step for each unit and one more.
-- * Business configuration (packages/platform-modules/business-configuration/src) keeps dictionaries,
--   which are drafted and released, and parameters, whose released values are activated for scopes.
--   Configuration has the types (types.ts, errors.ts), Configuration/Store the in-memory store
--   (memory-store.ts), in which a call is one of the writes behind its receipt, and
--   Configuration/Service the service with its authorizer and audit (service.ts).
-- * Browser sessions (apps/api/src/auth) hold the tokens of a signed-in user behind a credential that
--   every refresh replaces. Sessions has the records, Sessions/Redis what the store needs of the
--   server, Sessions/Store the Lua scripts and the operations over them (session-store.ts), and
--   Sessions/Service the logins, refreshes and logouts (session-service.ts).
-- * Task center (packages/platform-modules/task-center/src) projects the tasks of other systems and
--   completes them there once. Tasks has the types (types.ts, errors.ts), Tasks/Store the in-memory
--   store of projections and command leases (memory-store.ts), and Tasks/Service the service with
--   its authorization, audit, router and reader (service.ts).
--
-- Base has what they share: JavaScript maps as association lists in insertion order, results of
-- code that may throw, sorting, regular expressions over code points, and list lemmas.
--
-- State is passed explicitly; code that throws returns a `Result`. Dates are numbers of
-- milliseconds, of the years 1970 to 9999 where the code compares their canonical texts, and numbers that the code checks to be safe integers are natural numbers; the one
-- counter that can fall below zero is an integer. Ports (clock, id sources, policy store, cache,
-- recorder, handlers) are arguments: their answers, failures included, are given with a call. The
-- jitter ratio and the random value of a backoff are fractions with a common denominator, and
-- their products are exact, where the code rounds floating-point numbers. The order of terms by
-- `localeCompare` of their JSON texts and the digest of a cache key are parameters. All recursion
-- is structural, that of a walk up the hierarchy on its fuel.
--
-- Not modelled: policy publication, envelope validation, the other platform modules,
-- the PostgreSQL, Redis and RabbitMQ adapters, the applications, and telemetry, which changes no
-- result.
pub mod Authorization
pub mod Base
pub mod Configuration
pub mod Eventing
pub mod Integration
pub mod Organization
pub mod Sessions
pub mod Tasks
