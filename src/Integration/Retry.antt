-- ===== src/Integration/Retry.antt =====
-- packages/platform-modules/integration-runtime/src/retry.ts
-- Numbers that the code checks to be safe integers are natural numbers here. The jitter ratio and
-- the random value are fractions with the denominator `unit`, and products are exact.
pub mod Laws
use ai_crm_step.Base.{
  ℕ, ◌+◌, ◌-◌, ◌*◌, ◌/◌, min, Bool, true, false, not, ◌&&◌, ◌||◌, List, [], ◌∷◌, Option, none, some,
  ltb, leb, ◌==◌, if◌then◌else◌, length, any, get_elem?,
}
use ai_crm_step.Base.Result.{Result, ok, err, ◌>>=◌, ◌>>◌, throw_if}
use ai_crm_step.Integration.Errors.{
  Category, Failure, runtime, foreign, same_category, includes, invalid_input, connection,
  rate_limited, timeout, upstream_unavailable,
}

pub record RetryPolicy : Type 0 where
  pub backoff_ms : List ℕ
  pub jitter_ratio : ℕ
  pub max_attempts : ℕ
  pub retryable_categories : List Category

-- The set `allowed` of `validateRetryPolicy`.
abbrev pub allowed : List Category
allowed = connection ∷ rate_limited ∷ timeout ∷ upstream_unavailable ∷ []

-- `new Set(cs).size !== cs.length`
unfoldable pub has_duplicates : List Category → Bool
unfolding includes
has_duplicates [] = false
has_duplicates (c ∷ cs) = includes c cs || has_duplicates cs

abbrev pub max_backoff : ℕ
max_backoff = 3_600_000

abbrev pub invalid : Failure
invalid = runtime invalid_input false

-- `policy.backoffMs[i] ?? 0`
abbrev pub delay_at : List ℕ → ℕ → ℕ
delay_at ds i = elim (get_elem? ds i) [ none ↦ 0 | some d ↦ d ]

module _ (unit : ℕ) where
  unfoldable pub validate_retry_policy : RetryPolicy → Result Failure (Unit {0})
  unfolding has_duplicates includes
  validate_retry_policy p = do
    throw_if (ltb p.max_attempts 1 || ltb 10 p.max_attempts) invalid
    throw_if (not (length p.backoff_ms == p.max_attempts - 1)) invalid
    throw_if (any (λ v. ltb max_backoff v) p.backoff_ms) invalid
    throw_if (ltb unit p.jitter_ratio) invalid
    throw_if
        (has_duplicates p.retryable_categories
          || any (λ c. not (includes c allowed)) p.retryable_categories)
        invalid

  -- `Math.round(base * factor)` for the factor `1 - jitter + 2 * jitter * random`.
  unfoldable pub jittered : ℕ → ℕ → ℕ → ℕ
  jittered base jitter random =
      (2 * (base * (unit * unit - jitter * unit + 2 * jitter * random)) + unit * unit)
      / (2 * (unit * unit))

  unfoldable pub calculate_backoff_ms : RetryPolicy → ℕ → ℕ → Result Failure ℕ
  unfolding validate_retry_policy jittered
  calculate_backoff_ms p attempt random = do
    validate_retry_policy p
    throw_if (ltb attempt 1 || leb p.max_attempts attempt) invalid
    ok (
        min max_backoff
          (jittered (delay_at p.backoff_ms (attempt - 1)) p.jitter_ratio (min unit random)))

  -- The part of `shouldRetry` after the validation.
  unfoldable pub may_retry : RetryPolicy → ℕ → Failure → Bool
  unfolding includes
  may_retry p attempt foreign = false
  may_retry p attempt (runtime c retryable) =
      ltb attempt p.max_attempts && (retryable && includes c p.retryable_categories)

  unfoldable pub should_retry : RetryPolicy → ℕ → Failure → Result Failure Bool
  unfolding validate_retry_policy may_retry
  should_retry p attempt e = do validate_retry_policy p; ok (may_retry p attempt e)
