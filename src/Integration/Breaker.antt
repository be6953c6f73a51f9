-- ===== src/Integration/Breaker.antt =====
-- packages/platform-modules/integration-runtime/src/circuit-breaker.ts
-- `execute` waits for its operation, and other calls run meanwhile: it is the steps `begin`, and
-- then `succeed` or `fail`. The clock `now()` is an argument of each step that reads it.
pub mod Reach
pub mod Trip
pub mod Stale
use ai_crm_step.Base.{
  ℕ, ◌+◌, Bool, true, false, ◌&&◌, ◌||◌, List, [], ◌∷◌, Option, none, some, ltb, leb, if◌then◌else◌,
}
use ai_crm_step.Base.Int.{ℤ, pos, leb_ℤ, succ_ℤ, pred_ℤ}
use ai_crm_step.Base.Result.{Result, ok, ◌>>=◌, ◌>>◌, throw_if}
use ai_crm_step.Integration.Errors.{
  Category, Failure, runtime, foreign, includes, authentication, connection, invalid_response,
  rate_limited, timeout, upstream_unavailable,
}
use ai_crm_step.Integration.Retry.{invalid}

pub data CircuitState : Type 0 where
  closed half_open is_open : CircuitState

pub record CircuitBreakerOptions : Type 0 where
  pub failure_threshold : ℕ
  pub half_open_max_calls : ℕ
  pub open_ms : ℕ

-- The captured variables. The counter of probes may fall below zero, as in the source.
pub record Breaker : Type 0 where
  pub state : CircuitState
  pub failures : ℕ
  pub opened_at : Option ℕ
  pub half_open_active : ℤ

abbrev pub fresh : Breaker
fresh = record { state = closed; failures = 0; opened_at = none; half_open_active = pos 0 }

abbrev pub create_circuit_breaker : CircuitBreakerOptions → Result Failure Breaker
create_circuit_breaker o = do
  throw_if (ltb o.failure_threshold 1 || (ltb o.half_open_max_calls 1 || ltb o.open_ms 1)) invalid
  ok fresh

-- `DEFAULT_FAILURE_CATEGORIES`
abbrev pub default_failure_categories : List Category
default_failure_categories =
    authentication ∷ connection ∷ invalid_response ∷ rate_limited ∷ timeout ∷ upstream_unavailable
    ∷ []

abbrev pub default_failure_classifier : Failure → Bool
default_failure_classifier foreign = true
default_failure_classifier (runtime c retryable) = includes c default_failure_categories

-- How a call is let in: refused with `circuit_open`, as a probe or as an ordinary call.
pub data Entry : Type 0 where
  refused probe ordinary : Entry

-- The rest of `execute` after an operation that resolves.
pub succeed : Bool → Breaker → Breaker
succeed true b = record b {
  failures = 0;
  state = closed;
  opened_at = none;
  half_open_active = pos 0;
}
succeed false b = record b { failures = 0 }

-- Its `finally`.
leave : Bool → CircuitState → Breaker → Breaker
leave true half_open b = record b { half_open_active = pred_ℤ b.half_open_active }
leave _ _ b = b

module _ (o : CircuitBreakerOptions) where
  -- `state === "open" && openedAt !== undefined && now() >= openedAt + openMs`
  cooled : CircuitState → Option ℕ → ℕ → Bool
  cooled closed at now = false
  cooled half_open at now = false
  cooled is_open none now = false
  cooled is_open (some at) now = leb (at + o.open_ms) now

  unfoldable pub refresh : ℕ → Breaker → Breaker
  unfolding cooled
  refresh now b =
      if cooled b.state b.opened_at now
      then record b { state = half_open; half_open_active = pos 0 }
      else b

  pub open_circuit : ℕ → Breaker → Breaker
  open_circuit now b = record b { state = is_open; opened_at = some now; half_open_active = pos 0 }

  admit : CircuitState → Breaker → Entry × Breaker
  admit closed b = (ordinary, b)
  admit half_open b =
      if leb_ℤ (pos o.half_open_max_calls) b.half_open_active
      then (refused, b)
      else (probe, record b { half_open_active = succ_ℤ b.half_open_active })
  admit is_open b = (refused, b)

  -- `execute` up to the call of its operation.
  unfoldable pub begin : ℕ → Breaker → Entry × Breaker
  unfolding admit
  begin now b = let b' = refresh now b in admit b'.state b'

  -- The body of its `catch`; `counts` is the answer of `countsAsFailure`.
  count_failure : ℕ → Bool → Bool → Breaker → Breaker
  count_failure now was_probe false b = b
  count_failure now was_probe true b =
      let counted = record b { failures = b.failures + 1 } in
      if was_probe || leb o.failure_threshold (b.failures + 1)
      then open_circuit now counted
      else counted

  -- The rest of `execute` after an operation that rejects.
  pub fail : ℕ → Bool → Bool → Breaker → Breaker
  unfolding count_failure leave open_circuit
  fail now was_probe counts b =
      let b' = count_failure now was_probe counts b in leave was_probe b'.state b'

  -- The breaker that `snapshot` reports.
  abbrev pub snapshot : ℕ → Breaker → Breaker
  snapshot now b = refresh now b
