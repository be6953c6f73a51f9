-- ===== src/Integration/Breaker/Trip.antt =====
-- When the circuit opens, what an open circuit refuses, and when it lets a probe in.
use ai_crm_step.Base.{
  ℕ, zero, suc, ◌+◌, ◌≤◌, ◌<◌, true, false, ◌≡◌, refl, some, arith, leb, if◌then◌else◌,
}
use ai_crm_step.Base.Int.{pos}
use ai_crm_step.Integration.Breaker.{
  half_open, is_open, CircuitBreakerOptions, Breaker, fresh, refused, probe, ordinary, refresh,
  begin, succeed, fail,
}

module _ (o : CircuitBreakerOptions) where
  -- One call of `execute` whose operation rejects with a counted error before another call begins.
  unfoldable pub failing_call : ℕ → Breaker → Breaker
  failing_call now b =
      let (e, b') = begin o now b in
      elim e [
        | refused ↦ b'
        | probe ↦ fail o now true true b'
        | ordinary ↦ fail o now false true b'
      ]

  unfoldable pub failing_calls : ℕ → ℕ → Breaker → Breaker
  unfolding failing_call
  failing_calls now zero b = b
  failing_calls now (suc n) b = failing_call now (failing_calls now n b)

  below_threshold :
      (now n : ℕ)
      → n < o.failure_threshold
      → failing_calls now n fresh ≡ record fresh { failures = n }
  unfolding failing_calls begin refresh fail
  below_threshold now zero h = refl
  below_threshold now (suc n) h = rw (below_threshold now n (omega arith)) (ground arith)

  -- From a fresh breaker, calls that fail one after the other leave the circuit closed until one
  -- is left to the threshold, and the one that reaches the threshold opens the circuit at its time.
  pub failing_calls_trip :
      (now n : ℕ)
      → suc n ≡ o.failure_threshold
      → (failing_calls now n fresh ≡ record fresh { failures = n })
        × (failing_calls now (suc n) fresh ≡ record {
          state = is_open;
          failures = suc n;
          opened_at = some now;
          half_open_active = pos 0;
        })
  unfolding failing_calls begin refresh fail
  failing_calls_trip now n e =
      (below_threshold now n (omega arith), rw (below_threshold now n (omega arith)) (ground arith))

  -- An open circuit refuses a call, and does not change, until the opening time plus `openMs`; from
  -- then on the first call is a probe of a half-open circuit.
  pub begin_open :
      (now at : ℕ) (b : Breaker)
      → b.state ≡ is_open
      → b.opened_at ≡ some at
      → 1 ≤ o.half_open_max_calls
      → begin o now b ≡ (
          if leb (at + o.open_ms) now
          then (probe, record b { state = half_open; half_open_active = pos 1 })
          else (refused, b))
  unfolding begin refresh
  begin_open now at b e f pos_max = ground arith

  -- A probe that succeeds closes the circuit and forgets the failures; one whose failure counts
  -- opens it again, at its time.
  pub probe_settles :
      (now : ℕ) (b : Breaker)
      → (succeed true b ≡ fresh)
        × (fail o now true true b ≡ record {
          state = is_open;
          failures = b.failures + 1;
          opened_at = some now;
          half_open_active = pos 0;
        })
  unfolding succeed fail
  probe_settles now b = (refl, refl)
