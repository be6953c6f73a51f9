-- ===== src/Integration/RateLimiter.antt =====
-- packages/platform-modules/integration-runtime/src/limits.ts, `createFixedWindowRateLimiter`.
-- Times are milliseconds; `now()` is an argument.
use ai_crm_step.Base.{
  ℕ, ◌+◌, ◌-◌, ◌≤◌, ◌<◌, min, Bool, true, false, ◌≡◌, ◌↔◌, ◌||◌, List, [], ◌∷◌, ltb, leb,
  if◌then◌else◌, length, All, arith, Bool-cases, inl, inr,
}
use ai_crm_step.Base.Result.{Result, ok, ◌>>◌, throw_if}
use ai_crm_step.Integration.Errors.{Failure}
use ai_crm_step.Integration.Retry.{invalid}

-- The captured variables of the closure.
pub record RateLimiter : Type 0 where
  pub limit : ℕ
  pub window_ms : ℕ
  pub window_start : ℕ
  pub used : ℕ

pub record RateLimitDecision : Type 0 where
  pub allowed : Bool
  pub remaining : ℕ
  pub retry_after_ms : ℕ

abbrev pub create_rate_limiter : ℕ → ℕ → ℕ → Result Failure RateLimiter
create_rate_limiter limit window_ms now = do
  throw_if (ltb limit 1 || ltb window_ms 1) invalid
  ok (record { limit = limit; window_ms = window_ms; window_start = now; used = 0 })

-- A new window begins once the old one is over.
roll : ℕ → RateLimiter → RateLimiter
roll current l =
    if leb (l.window_start + l.window_ms) current
    then record l { window_start = current; used = 0 }
    else l

-- The rest of `check`.
spend : ℕ → RateLimiter → RateLimitDecision × RateLimiter
spend current l =
    if leb l.limit l.used
    then (
      record {
        allowed = false;
        remaining = 0;
        retry_after_ms = l.window_start + l.window_ms - current;
      },
      l,
    )
    else (
      record { allowed = true; remaining = l.limit - (l.used + 1); retry_after_ms = 0 },
      record l { used = l.used + 1 },
    )

unfoldable pub check : ℕ → RateLimiter → RateLimitDecision × RateLimiter
unfolding roll spend
check current l = spend current (roll current l)

-- A run of checks, and how many of them were allowed.
pub count_allowed : List ℕ → RateLimiter → ℕ
count_allowed [] l = 0
count_allowed (t ∷ ts) l =
    let (d, l') = check t l in (if d.allowed then 1 else 0) + count_allowed ts l'

in_window : (t : ℕ) (l : RateLimiter) → t < l.window_start + l.window_ms → check t l ≡ spend t l
unfolding check
in_window t l h = ground arith

-- Of the checks at times before the end of the current window exactly the first ones are allowed,
-- as many as the window has left: `min (number of checks) (limit - used)` in all.
pub count_allowed_in_window :
    (ts : List ℕ) (l : RateLimiter)
    → All (λ t. t < l.window_start + l.window_ms) ts
    → count_allowed ts l ≡ min (length ts) (l.limit - l.used)
unfolding count_allowed spend
count_allowed_in_window [] l h = omega arith
count_allowed_in_window (t ∷ ts) l (h, hs) = elim (Bool-cases (leb l.limit l.used)) [
  | inl full ↦ rw (in_window t l h, full) (ground (arith, count_allowed_in_window ts l hs))
  | inr free ↦
      rw (in_window t l h, free)
        (ground (arith, count_allowed_in_window ts (record l { used = l.used + 1 }) hs))
]

-- A check that is refused gives a positive time after which a check is allowed again: the next
-- check is allowed exactly if it comes at that time or later.
pub retry_after_lem :
    (t later : ℕ) (l : RateLimiter)
    → 1 ≤ l.limit
    → (check t l).0.allowed ≡ false
    → let (d, l') = check t l in
      (1 ≤ d.retry_after_ms)
      × (((check later l').0.allowed ≡ true) ↔ (t + d.retry_after_ms ≤ later))
unfolding check
retry_after_lem t later l pos refused = (ground arith, ground arith)

-- The number used never exceeds the limit, and the number left that an allowed check reports is
-- what the limiter then has left.
pub check_bounds :
    (t : ℕ) (l : RateLimiter)
    → l.used ≤ l.limit
    → let (d, l') = check t l in
      (l'.used ≤ l'.limit) × (l'.limit ≡ l.limit) × (d.remaining ≡ l'.limit - l'.used)
unfolding check
check_bounds t l h = (ground arith, ground arith, ground arith)
