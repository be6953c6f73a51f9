-- ===== src/Integration/Executor.antt =====
-- packages/platform-modules/integration-runtime/src/executor.ts
-- The rate limiter, the concurrency limiter, the breaker, the operation and the timers are ports:
-- what they answer in one round of the loop is an `Attempt`.
pub mod Loop
use ai_crm_step.Base.{
  ℕ, zero, suc, ◌+◌, Bool, true, false, not, ◌&&◌, ◌||◌, List, [], ◌∷◌, ◌++◌, Option, none, some,
  String, ltb, ◌==◌, if◌then◌else◌,
}
use ai_crm_step.Base.Result.{Result, ok, err, ◌>>=◌, ◌>>◌, throw_if}
use ai_crm_step.Integration.Errors.{Failure, runtime, cancelled, timeout, rate_limited, internal}
use ai_crm_step.Integration.Retry.{
  RetryPolicy, invalid, validate_retry_policy, calculate_backoff_ms, should_retry,
}
use ai_crm_step.Integration.Deadline.{
  DeadlineLimits, DeadlineBudget, Ending, max_deadline_ms, create_deadline_budget, remaining_ms,
  run_with_deadline,
}

pub data OperationSafety : Type 0 where
  idempotent_write non_idempotent_write read : OperationSafety

pub record IntegrationExecutionPolicy : Type 0 where
  pub deadlines : DeadlineLimits
  -- Whether the operation's id matches its regular expression.
  pub has_operation_id : Bool
  pub retry : RetryPolicy
  pub safety : OperationSafety

-- The signals at one moment: the budget's own, and the caller's.
pub record Signals : Type 0 where
  pub budget_aborted : Bool
  pub caller_aborted : Bool

pub record Attempt (A : Type 0) : Type 0 where
  pub at_start : Signals
  pub rate_allowed : Bool
  -- What the limiter or the breaker throws instead of letting the call in.
  pub refusal : Option Failure
  -- The time and the budget's signal when the operation is to be called, and how it ends.
  pub called_at : ℕ
  pub at_call : Bool
  pub ending : Ending A
  pub after_call : Signals
  -- When the error is caught by the loop.
  pub at_catch : Signals
  pub random : ℕ
  pub sleep : Result Failure (Unit {0})
  pub after_sleep : Signals

-- What an observer or a test double sees: a call of the operation, a record, a sleep.
pub data Event : Type 0 where
  calls limited succeeds : Event
  fails : Bool → Event
  sleeps : ℕ → Event

-- How one round of the loop ends.
pub data Round (A : Type 0) : Type 0 where
  returned : A → Round A
  thrown : Failure → Round A
  retries : Round A

abbrev pub classify_budget_expiry : Signals → Failure → Failure
classify_budget_expiry s e =
    if s.budget_aborted && not s.caller_aborted then runtime timeout true else e

abbrev pub classified : {A : Type 0} → Signals → Result Failure A → Result Failure A
classified s (ok a) = ok a
classified s (err e) = err (classify_budget_expiry s e)

-- The result of the operation, unless the budget has expired meanwhile.
abbrev pub in_time : {A : Type 0} → Signals → A → Result Failure A
in_time s a = if s.budget_aborted && not s.caller_aborted then err (runtime timeout true) else ok a

-- Whether `runWithDeadline` calls its operation.
abbrev pub is_called : ℕ → Bool → Bool
is_called remaining aborted = not (ltb remaining 1 || ltb max_deadline_ms remaining) && not aborted

-- The function that the breaker executes.
unfoldable pub guarded_call :
    {A : Type 0} → DeadlineBudget → Attempt A → Result Failure A × List Event
guarded_call budget a =
    if ltb (remaining_ms budget a.called_at) 1
    then (classified a.after_call (err (runtime timeout true)), [])
    else (
      classified a.after_call (
          run_with_deadline (remaining_ms budget a.called_at) a.at_call a.ending
          >>= in_time a.after_call),
      if is_called (remaining_ms budget a.called_at) a.at_call then calls ∷ [] else [],
    )

-- The call through the limiter and the breaker, which hand on how the function ends.
unfoldable pub limited_call :
    {A : Type 0} → DeadlineBudget → Attempt A → Result Failure A × List Event
limited_call budget a = elim a.refusal [ none ↦ guarded_call budget a | some e ↦ (err e, []) ]

abbrev pub is_once_only : OperationSafety → Bool
is_once_only non_idempotent_write = true
is_once_only idempotent_write = false
is_once_only read = false

-- The tests before the loop, and the budget.
unfoldable pub admit_policy : ℕ → IntegrationExecutionPolicy → ℕ → Result Failure DeadlineBudget
admit_policy unit p now = do
  throw_if (not p.has_operation_id) invalid
  validate_retry_policy unit p.retry
  throw_if
      (ltb p.deadlines.connect_ms 1
        || (ltb p.deadlines.response_ms 1 || ltb p.deadlines.total_ms 1))
      invalid
  throw_if (is_once_only p.safety && not (p.retry.max_attempts == 1)) invalid
  create_deadline_budget p.deadlines now

module _ (unit : ℕ) {A : Type 0} where
  -- The sleep before the next round.
  unfoldable pub back_off : RetryPolicy → ℕ → Attempt A → Round A × List Event
  back_off retry attempt a = elim (calculate_backoff_ms unit retry attempt a.random) [
    | err e ↦ (thrown (classify_budget_expiry a.after_sleep e), [])
    | ok ms ↦ (
      elim a.sleep [ ok slept ↦ retries | err e ↦ thrown (classify_budget_expiry a.after_sleep e) ],
      sleeps ms ∷ [],
    )
  ]

  -- The `catch` of the loop, for the classified error.
  unfoldable pub handle_failure : RetryPolicy → ℕ → Attempt A → Failure → Round A × List Event
  handle_failure retry attempt a e = elim (should_retry unit retry attempt e) [
    | err f ↦ (thrown f, [])
    | ok wanted ↦
        if wanted && not a.at_catch.budget_aborted
        then ((back_off retry attempt a).0, fails true ∷ (back_off retry attempt a).1)
        else (thrown e, fails false ∷ [])
  ]

  unfoldable pub finish_round :
      RetryPolicy → ℕ → Attempt A → Result Failure A → Round A × List Event
  finish_round retry attempt a (ok value) = (returned value, succeeds ∷ [])
  finish_round retry attempt a (err caught) =
      handle_failure retry attempt a (classify_budget_expiry a.at_catch caught)

  -- One round of the loop.
  unfoldable pub run_round : RetryPolicy → DeadlineBudget → ℕ → Attempt A → Round A × List Event
  run_round retry budget attempt a =
      if a.at_start.budget_aborted
      then (thrown (classify_budget_expiry a.at_start (runtime cancelled false)), [])
      else if not a.rate_allowed
      then (thrown (runtime rate_limited true), limited ∷ [])
      else let (outcome, called) = limited_call budget a in
        let (round, events) = finish_round retry attempt a outcome in (round, called ++ events)

  -- The loop: `left` rounds are left, and the next is number `attempt`.
  unfoldable pub run_rounds :
      RetryPolicy → DeadlineBudget → (ℕ → Attempt A) → ℕ → ℕ → Result Failure A × List Event
  run_rounds retry budget answers zero attempt = (err (runtime internal false), [])
  run_rounds retry budget answers (suc left) attempt =
      let rest = run_rounds retry budget answers left (attempt + 1) in
      let (round, events) = run_round retry budget attempt (answers attempt) in
      elim round [
        | returned value ↦ (ok value, events)
        | thrown e ↦ (err e, events)
        | retries ↦ (rest.0, events ++ rest.1)
      ]

  unfoldable pub execute :
      IntegrationExecutionPolicy → ℕ → (ℕ → Attempt A) → Result Failure A × List Event
  execute p now answers = elim (admit_policy unit p now) [
    | err e ↦ (err e, [])
    | ok budget ↦ run_rounds p.retry budget answers p.retry.max_attempts 1
  ]
