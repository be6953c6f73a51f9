-- ===== src/Integration/Retry/Laws.antt =====
-- retry.ts: which policies are accepted, the bounds of a delay, and which failures are retried.
use ai_crm_step.Base.{
  ℕ, ◌+◌, ◌-◌, ◌*◌, ◌/◌, ◌≤◌, ◌<◌, min, Bool, true, false, not, ◌≡◌, refl, ◌↔◌, List, [], ◌∷◌, ltb,
  leb, ◌||◌, length, any, All, arith, ◌⊎◌, inl, inr, Bool-cases,
}
use native.Mathlib.Nat.{div-lt_iff_lt-mul, mul-le-mul_left, div-eq_of_lt-le}
use ai_crm_step.Base.Result.{ok, err}
use ai_crm_step.Integration.Errors.{Category, runtime, invalid_input, includes}
use ai_crm_step.Integration.Retry.{
  RetryPolicy, allowed, has_duplicates, max_backoff, validate_retry_policy, delay_at, jittered,
  calculate_backoff_ms, may_retry, should_retry,
}

-- No category stands twice in the list.
abbrev pub Distinct : List Category → Type 0
Distinct [] = Unit
Distinct (c ∷ cs) = (includes c cs ≡ false) × Distinct cs

pub record IsValid (unit : ℕ) (p : RetryPolicy) : Type 0 where
  pub some_attempt : 1 ≤ p.max_attempts
  pub few_attempts : p.max_attempts ≤ 10
  pub every_delay : length p.backoff_ms ≡ p.max_attempts - 1
  pub short_delays : All (λ d. d ≤ max_backoff) p.backoff_ms
  pub jitter : p.jitter_ratio ≤ unit
  pub distinct : Distinct p.retryable_categories
  pub safe : All (λ c. includes c allowed ≡ true) p.retryable_categories

any_too_long :
    (ds : List ℕ) → any (λ v. ltb max_backoff v) ds ≡ false → All (λ d. d ≤ max_backoff) ds
any_too_long [] h = tt
any_too_long (d ∷ ds) h = (ground arith, any_too_long ds (ground arith))

none_too_long :
    (ds : List ℕ) → All (λ d. d ≤ max_backoff) ds → any (λ v. ltb max_backoff v) ds ≡ false
none_too_long [] h = refl
none_too_long (d ∷ ds) (h, hs) = ground (arith, none_too_long ds hs)

has_duplicates-Distinct : (cs : List Category) → has_duplicates cs ≡ false → Distinct cs
unfolding has_duplicates
has_duplicates-Distinct [] h = tt
has_duplicates-Distinct (c ∷ cs) h = (ground arith, has_duplicates-Distinct cs (ground arith))

Distinct-has_duplicates : (cs : List Category) → Distinct cs → has_duplicates cs ≡ false
unfolding has_duplicates
Distinct-has_duplicates [] h = refl
Distinct-has_duplicates (c ∷ cs) (h, hs) = rw (h, Distinct-has_duplicates cs hs)

safe_of :
    (cs : List Category)
    → any (λ c. not (includes c allowed)) cs ≡ false
    → All (λ c. includes c allowed ≡ true) cs
safe_of [] h = tt
safe_of (c ∷ cs) h = (ground arith, safe_of cs (ground arith))

of_safe :
    (cs : List Category)
    → All (λ c. includes c allowed ≡ true) cs
    → any (λ c. not (includes c allowed)) cs ≡ false
of_safe [] h = refl
of_safe (c ∷ cs) (h, hs) = rw (h, of_safe cs hs)

module _ (unit : ℕ) (p : RetryPolicy) where
  validate_sound : validate_retry_policy unit p ≡ ok tt → IsValid unit p
  unfolding validate_retry_policy
  validate_sound h = record {
    some_attempt = ground arith;
    few_attempts = ground arith;
    every_delay = ground arith;
    short_delays = any_too_long p.backoff_ms (ground arith);
    jitter = ground arith;
    distinct = has_duplicates-Distinct p.retryable_categories (ground arith);
    safe = safe_of p.retryable_categories (ground arith);
  }

  validate_complete : IsValid unit p → validate_retry_policy unit p ≡ ok tt
  unfolding validate_retry_policy
  validate_complete v = ground (
    arith,
    none_too_long p.backoff_ms v.short_delays,
    Distinct-has_duplicates p.retryable_categories v.distinct,
    of_safe p.retryable_categories v.safe,
  )

-- `validateRetryPolicy` accepts exactly the policies with 1 to 10 attempts, a delay of at most an
-- hour for every retry, a jitter of at most one, and distinct categories from the safe ones.
pub validate_iff :
    (unit : ℕ) (p : RetryPolicy) → (validate_retry_policy unit p ≡ ok tt) ↔ IsValid unit p
validate_iff unit p = (validate_sound unit p, validate_complete unit p)

-- Rounding `b * f / n` for a factor of at most two.
round_le : (n b f : ℕ) → 0 < n → f ≤ 2 * n → (2 * (b * f) + n) / (2 * n) ≤ 2 * b
round_le n b f pos h =
    let product : b * f ≤ b * (2 * n) = mul-le-mul_left b h in
    let below : 2 * (b * f) + n < (2 * b + 1) * (2 * n) = grind arith in
    let quotient : (2 * (b * f) + n) / (2 * n) < 2 * b + 1 =
      (div-lt_iff_lt-mul (omega arith)).1 below in
    omega arith

jittered_le_double : (u b j r : ℕ) → j ≤ u → r ≤ u → 0 < u → jittered u b j r ≤ 2 * b
unfolding jittered
jittered_le_double u b j r hj hr pos =
    let left : j * r ≤ j * u = grind arith in
    let right : j * u ≤ u * u = grind arith in
    let positive : 0 < u * u = grind arith in
    round_le (u * u) b (u * u - j * u + 2 * j * r) positive (omega arith)

-- Without jitter a delay is the configured one.
jittered_zero : (u b r : ℕ) → 0 < u → jittered u b 0 r ≡ b
unfolding jittered
jittered_zero u b r pos =
    let positive : 0 < u * u = grind arith in
    let factor : u * u - 0 * u + 2 * 0 * r ≡ u * u = omega arith in
    rw factor (div-eq_of_lt-le (2 * (u * u)) (omega arith) (omega arith))

-- The attempts that a retry may follow.
abbrev pub IsRetried : RetryPolicy → ℕ → Type 0
IsRetried p n = (1 ≤ n) × (n < p.max_attempts)

-- For an accepted policy `calculateBackoffMs` gives a delay exactly for the attempts before the
-- last one, at most an hour and at most twice the configured one; for every other number it fails
-- with an error that is not to be retried.
pub calculate_backoff_ms_total :
    (u : ℕ) (p : RetryPolicy) (n r : ℕ)
    → 0 < u
    → IsValid u p
    → (IsRetried p n
        × ((d : ℕ) × (calculate_backoff_ms u p n r ≡ ok d)
            × (d ≤ max_backoff)
            × (d ≤ 2 * delay_at p.backoff_ms (n - 1))))
      ⊎ ((¬ IsRetried p n) × (calculate_backoff_ms u p n r ≡ err (runtime invalid_input false)))
unfolding calculate_backoff_ms
calculate_backoff_ms_total u p n r pos v = elim (Bool-cases (ltb n 1 || leb p.max_attempts n)) [
  | inl outside ↦
      inr (
        λ (lo, hi). ground (arith, outside),
        rw (validate_complete u p v) (ground (arith, outside)),
      )
  | inr inside ↦
      let double = jittered_le_double u (delay_at p.backoff_ms (n - 1)) p.jitter_ratio (min u r) in
      inl (
        (ground (arith, inside), ground (arith, inside)),
        (
          min max_backoff (jittered u (delay_at p.backoff_ms (n - 1)) p.jitter_ratio (min u r)),
          rw (validate_complete u p v) (ground (arith, inside)),
          omega arith,
          omega (arith, double v.jitter (omega arith) pos),
        ),
      )
]

-- `shouldRetry` says yes exactly before the last attempt, of a retryable error of this runtime
-- whose category the policy lists.
pub should_retry_iff :
    (u : ℕ) (p : RetryPolicy) (n : ℕ) (c : Category) (retryable : Bool)
    → IsValid u p
    → (should_retry u p n (runtime c retryable) ≡ ok true)
      ↔ ((n < p.max_attempts) × (retryable ≡ true) × (includes c p.retryable_categories ≡ true))
unfolding should_retry may_retry
should_retry_iff u p n c retryable v = rw (validate_complete u p v) (ground arith)
