-- ===== src/Integration/Executor/Loop.antt =====
-- executor.ts: how often the operation is called, and which round settles the result.
use ai_crm_step.Base.{
  ℕ, zero, suc, ◌+◌, ◌≤◌, ◌<◌, true, ◌≡◌, refl, ◌⊎◌, inl, inr, List, [], ◌∷◌, ◌++◌, arith,
}
use ai_crm_step.Base.Result.{Result, ok, err, Result-cases}
use ai_crm_step.Integration.Errors.{Failure, runtime, foreign}
use ai_crm_step.Integration.Retry.{RetryPolicy, should_retry, may_retry, validate_retry_policy}
use ai_crm_step.Integration.Deadline.{DeadlineBudget}
use ai_crm_step.Integration.Executor.{
  non_idempotent_write, IntegrationExecutionPolicy, Attempt, Event, calls, limited, succeeds, fails,
  sleeps, Round, returned, thrown, retries, guarded_call, limited_call, back_off, handle_failure,
  finish_round, run_round, run_rounds, admit_policy, execute, classify_budget_expiry,
}

-- How often the operation was called.
unfoldable pub count_calls : List Event → ℕ
count_calls [] = 0
count_calls (calls ∷ events) = suc (count_calls events)
count_calls (limited ∷ events) = count_calls events
count_calls (succeeds ∷ events) = count_calls events
count_calls (fails retrying ∷ events) = count_calls events
count_calls (sleeps ms ∷ events) = count_calls events

count_calls-append : (xs ys : List Event) → count_calls (xs ++ ys) ≡ count_calls xs + count_calls ys
unfolding count_calls
count_calls-append [] ys = omega arith
count_calls-append (calls ∷ xs) ys = omega (arith, count_calls-append xs ys)
count_calls-append (limited ∷ xs) ys = count_calls-append xs ys
count_calls-append (succeeds ∷ xs) ys = count_calls-append xs ys
count_calls-append (fails r ∷ xs) ys = count_calls-append xs ys
count_calls-append (sleeps ms ∷ xs) ys = count_calls-append xs ys

-- After the last attempt nothing is retried.
should_retry_early :
    (unit : ℕ) (retry : RetryPolicy) (attempt : ℕ) (e : Failure)
    → should_retry unit retry attempt e ≡ ok true
    → attempt < retry.max_attempts
unfolding should_retry may_retry
should_retry_early unit retry attempt foreign h = ground arith
should_retry_early unit retry attempt (runtime c b) h = ground arith

module _ (unit : ℕ) {A : Type 0} where
  back_off_calls :
      (retry : RetryPolicy) (attempt : ℕ) (a : Attempt A)
      → count_calls (back_off unit retry attempt a).1 ≡ 0
  unfolding back_off count_calls
  back_off_calls retry attempt a = ground arith

  finish_round_calls :
      (retry : RetryPolicy) (attempt : ℕ) (a : Attempt A) (outcome : Result Failure A)
      → count_calls (finish_round unit retry attempt a outcome).1 ≡ 0
  unfolding finish_round handle_failure count_calls
  finish_round_calls retry attempt a (ok v) = refl
  finish_round_calls retry attempt a (err e) = ground (arith, back_off_calls retry attempt a)

  limited_call_calls :
      (budget : DeadlineBudget) (a : Attempt A) → count_calls (limited_call budget a).1 ≤ 1
  unfolding limited_call guarded_call count_calls
  limited_call_calls budget a = ground arith

  run_round_calls :
      (retry : RetryPolicy) (budget : DeadlineBudget) (attempt : ℕ) (a : Attempt A)
      → count_calls (run_round unit retry budget attempt a).1 ≤ 1
  unfolding run_round count_calls
  run_round_calls retry budget attempt a =
      let outcome = (limited_call budget a).0 in
      let called = (limited_call budget a).1 in
      let ended = (finish_round unit retry attempt a outcome).1 in
      let joined : count_calls (called ++ ended) ≤ 1 = omega (
        arith,
        count_calls-append called ended,
        finish_round_calls retry attempt a outcome,
        limited_call_calls budget a,
      ) in
      ground (arith, joined)

  run_rounds_calls :
      (retry : RetryPolicy) (budget : DeadlineBudget) (answers : ℕ → Attempt A) (left attempt : ℕ)
      → count_calls (run_rounds unit retry budget answers left attempt).1 ≤ left
  unfolding run_rounds
  run_rounds_calls retry budget answers zero attempt = unfold count_calls in omega arith
  run_rounds_calls retry budget answers (suc left) attempt =
      let (round, events) = run_round unit retry budget attempt (answers attempt) in
      let one = run_round_calls retry budget attempt (answers attempt) in
      let rest = run_rounds unit retry budget answers left (attempt + 1) in
      ground (
        arith,
        one,
        count_calls-append events rest.1,
        run_rounds_calls retry budget answers left (attempt + 1),
      )

  -- However limiter, breaker, operation, clock and signals behave, the operation is called at most
  -- as often as the policy has attempts.
  pub execute_calls :
      (p : IntegrationExecutionPolicy) (now : ℕ) (answers : ℕ → Attempt A)
      → count_calls (execute unit p now answers).1 ≤ p.retry.max_attempts
  unfolding execute count_calls
  execute_calls p now answers = elim (Result-cases (admit_policy unit p now)) [
    | inr (e, bad) ↦ rw (execute, bad) (omega arith)
    | inl (budget, good) ↦
        rw (execute, good) (run_rounds_calls p.retry budget answers p.retry.max_attempts 1)
  ]

  -- A write that is not idempotent is called at most once.
  pub execute_once_only :
      (p : IntegrationExecutionPolicy) (now : ℕ) (answers : ℕ → Attempt A)
      → p.safety ≡ non_idempotent_write
      → count_calls (execute unit p now answers).1 ≤ 1
  unfolding execute count_calls
  execute_once_only p now answers h = elim (Result-cases (admit_policy unit p now)) [
    | inr (e, bad) ↦ rw (execute, bad) (omega arith)
    | inl (budget, good) ↦
        let single : p.retry.max_attempts ≤ 1 = unfold admit_policy in ground (arith, good, h) in
        rw (execute, good)
          (omega (arith, single, run_rounds_calls p.retry budget answers p.retry.max_attempts 1))
  ]

  finish_round_early :
      (retry : RetryPolicy) (attempt : ℕ) (a : Attempt A) (outcome : Result Failure A)
      → (finish_round unit retry attempt a outcome).0 ≡ retries
      → attempt < retry.max_attempts
  unfolding finish_round handle_failure
  finish_round_early retry attempt a (ok v) h = ground arith
  finish_round_early retry attempt a (err e) h =
      ground (arith, should_retry_early unit retry attempt (classify_budget_expiry a.at_catch e))

  run_round_early :
      (retry : RetryPolicy) (budget : DeadlineBudget) (attempt : ℕ) (a : Attempt A)
      → (run_round unit retry budget attempt a).0 ≡ retries
      → attempt < retry.max_attempts
  unfolding run_round
  run_round_early retry budget attempt a h =
      let early = finish_round_early retry attempt a (limited_call budget a).0 in
      ground (arith, early)

  -- The round in which the loop ends, and what it ends with.
  abbrev pub EndsIn : RetryPolicy → DeadlineBudget → (ℕ → Attempt A) → Result Failure A → ℕ → Type 0
  EndsIn retry budget answers outcome n =
      (1 ≤ n)
      × ((n ≤ retry.max_attempts)
          × (((v : A) × (((run_round unit retry budget n (answers n)).0 ≡ returned v)
                  × (outcome ≡ ok v)))
              ⊎ ((e : Failure) × (((run_round unit retry budget n (answers n)).0 ≡ thrown e)
                    × (outcome ≡ err e)))))

  Round-cases :
      (r : Round A)
      → ((v : A) × (r ≡ returned v)) ⊎ (((e : Failure) × (r ≡ thrown e)) ⊎ (r ≡ retries))
  Round-cases (returned v) = inl (v, refl)
  Round-cases (thrown e) = inr (inl (e, refl))
  Round-cases retries = inr (inr refl)

  run_rounds-EndsIn :
      (retry : RetryPolicy) (budget : DeadlineBudget) (answers : ℕ → Attempt A) (left attempt : ℕ)
      → 1 ≤ attempt
      → attempt + left ≡ retry.max_attempts + 1
      → 1 ≤ left
      → (n : ℕ) × EndsIn retry budget answers
          (run_rounds unit retry budget answers left attempt).0
          n
  unfolding run_rounds
  run_rounds-EndsIn retry budget answers zero attempt lo total some_left = ground arith
  run_rounds-EndsIn retry budget answers (suc left) attempt lo total some_left =
      elim (Round-cases (run_round unit retry budget attempt (answers attempt)).0) [
        | inl (v, r) ↦ (attempt, (lo, (omega arith, inl (v, (r, rw (run_rounds, r) refl)))))
        | inr (inl (e, r)) ↦ (attempt, (lo, (omega arith, inr (e, (r, rw (run_rounds, r) refl)))))
        | inr (inr r) ↦
            let early = run_round_early retry budget attempt (answers attempt) r in
            let (n, ends) =
              run_rounds-EndsIn retry budget answers left (attempt + 1) (omega arith) (omega arith)
                (omega arith) in
            (n, rw (run_rounds, r) ends)
      ]

  -- An execution whose policy is accepted never falls out of its loop: some round, among the
  -- attempts that the policy has, ends the loop, and the execution gives what that round gives.
  pub execute-EndsIn :
      (p : IntegrationExecutionPolicy) (now : ℕ) (answers : ℕ → Attempt A) (budget : DeadlineBudget)
      → admit_policy unit p now ≡ ok budget
      → (n : ℕ) × EndsIn p.retry budget answers (execute unit p now answers).0 n
  unfolding execute
  execute-EndsIn p now answers budget admitted =
      let some_attempt : 1 ≤ p.retry.max_attempts =
        unfold admit_policy validate_retry_policy in ground (arith, admitted) in
      rw (execute, admitted)
        (run_rounds-EndsIn p.retry budget answers p.retry.max_attempts 1 (omega arith) (omega arith)
          some_attempt)
