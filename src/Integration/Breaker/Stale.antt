-- ===== src/Integration/Breaker/Stale.antt =====
-- A probe that outlives the half-open period in which it began.
use ai_crm_step.Base.{
  ℕ, zero, suc, ◌+◌, ◌-◌, ◌≤◌, ◌<◌, Bool, true, false, ◌≡◌, refl, List, [], ◌∷◌, some, arith, subst,
}
use ai_crm_step.Base.Int.{pos, negsuc}
use ai_crm_step.Integration.Breaker.{
  half_open, is_open, CircuitBreakerOptions, fresh, refresh, begin, fail,
}
use ai_crm_step.Integration.Breaker.Reach.{
  System, Step, passes, looked, begins, rejects, Reach, here, step,
}

abbrev pub at_rest : System
at_rest = record { breaker = fresh; now = 0; running = [] }

module _ (o : CircuitBreakerOptions) where
  -- A step to a state that is written out.
  to : {s t u : System} → Step o s t → t ≡ u → Step o s u
  to {s} st e = subst (Step o s) e st

  count : ℕ → System
  count n = record at_rest { breaker = record fresh { failures = n } }

  -- The call that is running when the state is `count n`.
  called : ℕ → System
  called n = record { breaker = record fresh { failures = n }; now = 0; running = false ∷ [] }

  one_call : (n : ℕ) → Step o (count n) (called n)
  unfolding count called begin refresh
  one_call n = to (begins (record at_rest { breaker = record fresh { failures = n } })) refl

  one_failure : (n : ℕ) → suc n < o.failure_threshold → Step o (called n) (count (suc n))
  unfolding count called fail
  one_failure n h = to (rejects [] [] false true (called n) refl) (ground arith)

  failures : (n : ℕ) → n < o.failure_threshold → Reach o at_rest (count n)
  unfolding count
  failures zero h = here
  failures (suc n) h = step (step (failures n (omega arith)) (one_call n)) (one_failure n h)

  -- The circuit at a time, as the `n`-th failure left it, with the probes that run.
  opened : ℕ → ℕ → List Bool → ℕ → System
  opened n at probes now = record {
    breaker = record {
      state = is_open;
      failures = n;
      opened_at = some at;
      half_open_active = pos 0;
    };
    now = now;
    running = probes;
  }

  probing : ℕ → ℕ → ℕ → List Bool → System
  probing n at active probes = record {
    breaker = record {
      state = half_open;
      failures = n;
      opened_at = some at;
      half_open_active = pos active;
    };
    now = at + o.open_ms;
    running = probes;
  }

  trips : (n : ℕ) → suc n ≡ o.failure_threshold → Step o (called n) (opened (suc n) 0 [] 0)
  unfolding opened called fail
  trips n e = to (rejects [] [] false true (called n) refl) (ground arith)

  cools :
      (n at : ℕ) (probes : List Bool)
      → Step o (opened n at probes at) (opened n at probes (at + o.open_ms))
  unfolding opened
  cools n at probes = to (passes o.open_ms (opened n at probes at)) refl

  first_probe :
      (n at : ℕ)
      → 1 ≤ o.half_open_max_calls
      → Step o (opened n at [] (at + o.open_ms)) (probing n at 1 (true ∷ []))
  unfolding opened probing begin refresh
  first_probe n at h = to (begins (opened n at [] (at + o.open_ms))) (ground arith)

  second_probe :
      (n at : ℕ)
      → 2 ≤ o.half_open_max_calls
      → Step o (probing n at 1 (true ∷ [])) (probing n at 2 (true ∷ true ∷ []))
  unfolding probing begin refresh
  second_probe n at h = to (begins (probing n at 1 (true ∷ []))) (ground arith)

  reopens :
      (n at : ℕ)
      → Step o
          (probing n at 2 (true ∷ true ∷ []))
          (opened (n + 1) (at + o.open_ms) (true ∷ []) (at + o.open_ms))
  unfolding opened probing fail
  reopens n at = to (rejects [] (true ∷ []) true true (probing n at 2 (true ∷ true ∷ [])) refl) refl

  half_opens :
      (n at : ℕ) → Step o (opened n at (true ∷ []) (at + o.open_ms)) (probing n at 0 (true ∷ []))
  unfolding opened probing refresh
  half_opens n at = to (looked (opened n at (true ∷ []) (at + o.open_ms))) (ground arith)

  underflow : ℕ → ℕ → System
  underflow n at = record {
    breaker = record {
      state = half_open;
      failures = n;
      opened_at = some at;
      half_open_active = negsuc 0;
    };
    now = at + o.open_ms;
    running = [];
  }

  leaves : (n at : ℕ) → Step o (probing n at 0 (true ∷ [])) (underflow n at)
  unfolding probing underflow fail
  leaves n at = to (rejects [] [] true false (probing n at 0 (true ∷ [])) refl) refl

  two_periods :
      (n : ℕ)
      → suc n ≡ o.failure_threshold
      → 2 ≤ o.half_open_max_calls
      → Reach o at_rest (underflow (suc n + 1) (0 + o.open_ms))
  two_periods n e h =
      let fails = step (step (failures n (omega arith)) (one_call n)) (trips n e) in
      let probes =
        step (step (step fails (cools (suc n) 0 [])) (first_probe (suc n) 0 (omega arith)))
          (second_probe (suc n) 0 h) in
      let again =
        step (step probes (reopens (suc n) 0)) (cools (suc n + 1) (0 + o.open_ms) (true ∷ [])) in
      step (step again (half_opens (suc n + 1) (0 + o.open_ms)))
        (leaves (suc n + 1) (0 + o.open_ms))

-- With two or more probes allowed at once there is a run of calls, from a fresh breaker, to a
-- half-open circuit whose counter of active probes is -1 while no call runs.
pub stale_probe_underflow :
    (o : CircuitBreakerOptions)
    → 1 ≤ o.failure_threshold
    → 2 ≤ o.half_open_max_calls
    → (s : System) × Reach o at_rest s
      × (s.breaker.state ≡ half_open)
      × (s.breaker.half_open_active ≡ negsuc 0)
      × (s.running ≡ [])
unfolding underflow
stale_probe_underflow o h k =
    let n = o.failure_threshold - 1 in
    (underflow o (suc n + 1) (0 + o.open_ms), two_periods o n (omega arith) k, refl, refl, refl)
