-- ===== src/Integration/Tests.antt =====
-- The theorems of the integration runtime at concrete inputs.
use ai_crm_step.Base.{
  ℕ, ◌-◌, ◌*◌, ◌≤◌, true, false, ◌≡◌, refl, ◌⊎◌, List, [], ◌∷◌, none, some, arith, leb,
  if◌then◌else◌,
}
use ai_crm_step.Base.Int.{pos, negsuc}
use ai_crm_step.Base.Result.{Result, ok, err}
use ai_crm_step.Integration.Errors.{Failure, connection, timeout, runtime, invalid_input, includes}
use ai_crm_step.Integration.Retry.{
  RetryPolicy, validate_retry_policy, max_backoff, calculate_backoff_ms, delay_at, should_retry,
  may_retry, jittered, has_duplicates,
}
use ai_crm_step.Integration.Retry.Laws.{IsValid, IsRetried, calculate_backoff_ms_total}
use ai_crm_step.Integration.Deadline.{DeadlineLimits, DeadlineBudget, create_deadline_budget}
use ai_crm_step.Integration.Executor.{
  Signals, Attempt, IntegrationExecutionPolicy, read, non_idempotent_write, admit_policy, execute,
  run_rounds, run_round, limited_call, guarded_call, finish_round, handle_failure, back_off,
}
use ai_crm_step.Integration.Executor.Loop.{count_calls, execute_once_only, execute-EndsIn, EndsIn}
use ai_crm_step.Integration.RateLimiter.{RateLimiter}
use ai_crm_step.Integration.Concurrency.System as Calls
use ai_crm_step.Integration.Breaker.{
  CircuitBreakerOptions, Breaker, fresh, is_open, half_open, begin, refresh, fail,
}
use ai_crm_step.Integration.Breaker.Reach as Runs
use ai_crm_step.Integration.Breaker.Trip.{failing_calls, failing_calls_trip}
use ai_crm_step.Integration.Breaker.Stale.{at_rest, stale_probe_underflow}

abbrev policy : RetryPolicy
policy = record {
  max_attempts = 3;
  backoff_ms = 100 ∷ 400 ∷ [];
  jitter_ratio = 20;
  retryable_categories = connection ∷ timeout ∷ [];
}

policy-IsValid : IsValid 100 policy
unfolding includes
policy-IsValid = record {
  some_attempt = ground arith;
  few_attempts = ground arith;
  every_delay = refl;
  short_delays = (ground arith, (ground arith, tt));
  jitter = ground arith;
  distinct = (refl, (refl, tt));
  safe = (refl, (refl, tt));
}

calculate_backoff_ms_example :
    (IsRetried policy 2
      × ((d : ℕ) × (calculate_backoff_ms 100 policy 2 70 ≡ ok d)
          × (d ≤ max_backoff)
          × (d ≤ 2 * delay_at policy.backoff_ms (2 - 1))))
    ⊎ ((¬ IsRetried policy 2)
        × (calculate_backoff_ms 100 policy 2 70 ≡ err (runtime invalid_input false)))
calculate_backoff_ms_example =
    calculate_backoff_ms_total 100 policy 2 70 (ground arith) policy-IsValid

abbrev limiter : RateLimiter
limiter = record { limit = 2; window_ms = 1000; window_start = 5000; used = 1 }

abbrev times : List ℕ
times = 5100 ∷ 5200 ∷ 5300 ∷ []

abbrev spent : RateLimiter
spent = record { limit = 2; window_ms = 1000; window_start = 5000; used = 2 }

abbrev idle : Calls.System
idle = record {
  limiter = record { limit = 1; max_queue = 1; active = 0; queue = [] };
  running = [];
  aborted = λ call. false;
}

idle-IsSound : Calls.IsSound idle
idle-IsSound = record {
  counted = refl;
  within = ground arith;
  short_queue = ground arith;
  busy = λ h. ground arith;
}

-- A call runs, a second one waits and is aborted.
limiter_run_example : Calls.IsSound (Calls.abort 2 (Calls.start 2 (Calls.start 1 idle)))
limiter_run_example = Calls.limiter_run-IsSound idle-IsSound (
    Calls.step
      (Calls.step (Calls.step Calls.here (Calls.started 1 idle))
        (Calls.started 2 (Calls.start 1 idle)))
      (Calls.aborts 2 (Calls.start 2 (Calls.start 1 idle))))

abbrev options : CircuitBreakerOptions
options = record { failure_threshold = 2; half_open_max_calls = 2; open_ms = 1000 }

fresh-IsSound : Runs.IsSound options fresh
fresh-IsSound = record {
  untimed = λ h. refl;
  timed = λ h. absurd (h refl);
  few_failures = λ h. ground arith;
  few_probes = ground arith;
}

abbrev untouched : Runs.System
untouched = record { breaker = fresh; now = 0; running = [] }

-- A call begins and its operation rejects.
breaker_run_example :
    Runs.IsSound options
      (fail options 0 false true (Runs.enter (begin options 0 fresh) untouched).breaker)
unfolding begin refresh
breaker_run_example = Runs.breaker_run-IsSound options (ground arith) fresh-IsSound (
    Runs.step (Runs.step Runs.here (Runs.begins untouched))
      (Runs.rejects [] [] false true (Runs.enter (begin options 0 fresh) untouched) refl))

failing_calls_example :
    (failing_calls options 7 1 fresh ≡ record fresh { failures = 1 })
    × (failing_calls options 7 2 fresh
        ≡ record { state = is_open; failures = 2; opened_at = some 7; half_open_active = pos 0 })
failing_calls_example = failing_calls_trip options 7 1 refl

abbrev tripped : Breaker
tripped = record { state = is_open; failures = 2; opened_at = some 7; half_open_active = pos 0 }

stale_probe_example :
    (s : Runs.System) × Runs.Reach options at_rest s
    × (s.breaker.state ≡ half_open)
    × (s.breaker.half_open_active ≡ negsuc 0)
    × (s.running ≡ [])
stale_probe_example = stale_probe_underflow options (ground arith) (ground arith)

abbrev deadlines : DeadlineLimits
deadlines = record { connect_ms = 300; response_ms = 500; total_ms = 2000 }

abbrev budget : DeadlineBudget
budget = record { limits = deadlines; deadline_at = 3000 }

abbrev calm : Signals
calm = record { budget_aborted = false; caller_aborted = false }

-- An attempt whose operation ends as given.
abbrev attempt_with : Result Failure ℕ → Attempt ℕ
attempt_with outcome = record {
  at_start = calm;
  rate_allowed = true;
  refusal = none;
  called_at = 1500;
  at_call = false;
  ending = record { outcome = outcome; expired = false; parent_aborted = false };
  after_call = calm;
  at_catch = calm;
  random = 50;
  sleep = ok tt;
  after_sleep = calm;
}

-- The first attempt times out and the second one answers.
abbrev answers : ℕ → Attempt ℕ
answers n = attempt_with (if leb n 1 then err (runtime timeout true) else ok 7)

abbrev reading : IntegrationExecutionPolicy
reading = record { deadlines = deadlines; has_operation_id = true; retry = policy; safety = read }

execute_once_only_example :
    count_calls (execute 100 (record reading { safety = non_idempotent_write }) 1000 answers).1 ≤ 1
execute_once_only_example =
    execute_once_only 100 (record reading { safety = non_idempotent_write }) 1000 answers refl

execute-EndsIn_example :
    (n : ℕ) × EndsIn 100 policy budget answers (execute 100 reading 1000 answers).0 n
unfolding admit_policy validate_retry_policy create_deadline_budget has_duplicates includes
execute-EndsIn_example = execute-EndsIn 100 reading 1000 answers budget refl

-- The retry is made, and its answer given.
execute_test : (execute 100 reading 1000 answers).0 ≡ ok 7
unfolding admit_policy validate_retry_policy create_deadline_budget has_duplicates includes execute
    run_rounds run_round limited_call guarded_call finish_round handle_failure back_off should_retry
    may_retry calculate_backoff_ms jittered
execute_test = refl
