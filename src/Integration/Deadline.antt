-- ===== src/Integration/Deadline.antt =====
-- packages/platform-modules/integration-runtime/src/deadline.ts
-- What the timers and the signals do while a promise is awaited is an `Ending`.
use ai_crm_step.Base.{
  ℕ, ◌+◌, ◌-◌, ◌≤◌, ◌<◌, min, Bool, true, false, ◌≡◌, ◌||◌, ltb, ◌==◌, if◌then◌else◌, arith,
}
use ai_crm_step.Base.Result.{Result, ok, err, ◌>>◌, throw_if}
use ai_crm_step.Integration.Errors.{Failure, runtime, cancelled, timeout}
use ai_crm_step.Integration.Retry.{invalid}

pub data DeadlinePhase : Type 0 where
  connect response : DeadlinePhase

pub record DeadlineLimits : Type 0 where
  pub connect_ms : ℕ
  pub response_ms : ℕ
  pub total_ms : ℕ

-- The budget remembers its limits and the time at which it ends.
pub record DeadlineBudget : Type 0 where
  pub limits : DeadlineLimits
  pub deadline_at : ℕ

abbrev pub max_deadline_ms : ℕ
max_deadline_ms = 3_600_000

abbrev pub positive_integer : ℕ → Result Failure (Unit {0})
positive_integer value = throw_if (ltb value 1 || ltb max_deadline_ms value) invalid

-- How the race of an operation with its timer and its parent's signal ends: what the race gives,
-- and whether the timer has expired and the parent is aborted by then.
pub record Ending (A : Type 0) : Type 0 where
  pub outcome : Result Failure A
  pub expired : Bool
  pub parent_aborted : Bool

-- `parent_before` says that the parent is aborted at the call.
abbrev pub run_with_deadline : {A : Type 0} → ℕ → Bool → Ending A → Result Failure A
run_with_deadline timeout_ms parent_before ending = do
  positive_integer timeout_ms
  throw_if parent_before (runtime cancelled false)
  throw_if ending.expired (runtime timeout true)
  throw_if ending.parent_aborted (runtime cancelled false)
  ending.outcome

unfoldable pub create_deadline_budget : DeadlineLimits → ℕ → Result Failure DeadlineBudget
create_deadline_budget limits now = do
  positive_integer limits.connect_ms
  positive_integer limits.response_ms
  positive_integer limits.total_ms
  ok (record { limits = limits; deadline_at = now + limits.total_ms })

abbrev pub remaining_ms : DeadlineBudget → ℕ → ℕ
remaining_ms budget now = budget.deadline_at - now

abbrev pub phase_limit : DeadlinePhase → DeadlineLimits → ℕ
phase_limit connect limits = limits.connect_ms
phase_limit response limits = limits.response_ms

-- What the rest of a phase's `catch` throws.
abbrev pub phase_failure : Bool → Bool → Failure → Failure
phase_failure total_expired true e = e
phase_failure true false e = runtime timeout true
phase_failure false false e = e

-- The signals at the start of a phase: whether the total budget and the caller are aborted.
unfoldable pub run_phase :
    {A : Type 0}
    → DeadlineBudget
    → DeadlinePhase
    → ℕ
    → Bool
    → Bool
    → Ending A
    → Bool × Bool
    → Result Failure A
run_phase budget phase now total_aborted caller_aborted ending (total_expired, caller_after) =
    if (remaining_ms budget now == 0) || total_aborted
    then err (if caller_aborted then runtime cancelled false else runtime timeout true)
    else elim (run_with_deadline (min (phase_limit phase budget.limits) (remaining_ms budget now))
        total_aborted ending) [
          | ok a ↦ ok a
          | err e ↦ err (phase_failure total_expired caller_after e)
        ]

-- A budget that was created gives a phase that begins before its end a timeout that
-- `runWithDeadline` accepts, within the phase's own limit and the end of the budget.
pub phase_within_budget :
    (limits : DeadlineLimits) (start now : ℕ) (budget : DeadlineBudget) (phase : DeadlinePhase)
    → create_deadline_budget limits start ≡ ok budget
    → start ≤ now
    → now < budget.deadline_at
    → let t = min (phase_limit phase budget.limits) (remaining_ms budget now) in
      (positive_integer t ≡ ok tt)
      × ((t ≤ phase_limit phase limits) × (now + t ≤ budget.deadline_at))
unfolding create_deadline_budget
phase_within_budget limits start now budget connect created le lt = ground arith
phase_within_budget limits start now budget response created le lt = ground arith
