-- ===== src/Integration/Concurrency.antt =====
-- packages/platform-modules/integration-runtime/src/limits.ts, `createConcurrencyLimiter`.
-- A call of `run` is a number. Its promises resolve in separate turns, so that `run` is the steps
-- `acquire`, `release` and, on the abort of its signal, `cancel`.
pub mod System
use ai_crm_step.Base.{
  ℕ, ◌+◌, ◌-◌, Bool, true, false, ◌||◌, List, [], ◌∷◌, ◌++◌, Option, none, some, ltb, leb, ◌==◌,
  if◌then◌else◌, length, not,
}
use ai_crm_step.Base.Result.{Result, ok, ◌>>=◌, ◌>>◌, throw_if}
use ai_crm_step.Integration.Errors.{Failure, runtime, cancelled, concurrency_limited}
use ai_crm_step.Integration.Retry.{invalid}

pub record Limiter : Type 0 where
  pub limit : ℕ
  pub max_queue : ℕ
  pub active : ℕ
  pub queue : List ℕ

abbrev pub create_concurrency_limiter : ℕ → ℕ → Result Failure Limiter
create_concurrency_limiter limit max_queue = do
  throw_if (ltb limit 1) invalid
  ok (record { limit = limit; max_queue = max_queue; active = 0; queue = [] })

-- How `acquire` ends: with a slot, as a waiter, or with an error.
pub data Admission : Type 0 where
  admitted waiting : Admission
  refused : Failure → Admission

pub acquire : ℕ → Bool → Limiter → Admission × Limiter
acquire call aborted l =
    if aborted
    then (refused (runtime cancelled false), l)
    else if ltb l.active l.limit
    then (admitted, record l { active = l.active + 1 })
    else if leb l.max_queue (length l.queue)
    then (refused (runtime concurrency_limited true), l)
    else (waiting, record l { queue = l.queue ++ call ∷ [] })

-- The `while` loop of `release`: the first waiter whose signal is not aborted, and the queue
-- behind it.
pub next_waiter : (ℕ → Bool) → List ℕ → Option ℕ × List ℕ
next_waiter aborted [] = (none, [])
next_waiter aborted (call ∷ queue) =
    let rest = next_waiter aborted queue in if aborted call then rest else (some call, queue)

-- The call that gets the slot, if any, and the limiter.
pub release : (ℕ → Bool) → Limiter → Option ℕ × Limiter
release aborted l =
    let (next, queue) = next_waiter aborted l.queue in
    let active = l.active - 1 in
    (
      next,
      record l { active = elim next [ none ↦ active | some call ↦ active + 1 ]; queue = queue },
    )

-- `queue.splice(queue.indexOf(waiting), 1)`
pub remove : ℕ → List ℕ → List ℕ
remove call [] = []
remove call (c ∷ queue) = if c == call then queue else c ∷ remove call queue

-- The listener of the abort event.
abbrev pub cancel : ℕ → Limiter → Limiter
cancel call l = record l { queue = remove call l.queue }
