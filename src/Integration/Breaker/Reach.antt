-- ===== src/Integration/Breaker/Reach.antt =====
-- The breaker under every interleaving of calls that begin and end: what always holds of it.
use ai_crm_step.Base.{
  ℕ, ◌+◌, ◌≤◌, ◌<◌, Bool, true, false, ◌≡◌, ◌≢◌, refl, List, ◌∷◌, ◌++◌, none, is_some, arith,
}
use ai_crm_step.Base.Int.{pos, ◌≤ℤ◌}
use ai_crm_step.Integration.Breaker.{
  closed, CircuitBreakerOptions, Breaker, Entry, refused, probe, ordinary, refresh, begin, succeed,
  fail, snapshot,
}

-- The breaker, the time, and the running calls: for each whether it began as a probe.
pub record System : Type 0 where
  pub breaker : Breaker
  pub now : ℕ
  pub running : List Bool

abbrev pub enter : Entry × Breaker → System → System
enter (refused, b) s = record s { breaker = b }
enter (probe, b) s = record s { breaker = b; running = true ∷ s.running }
enter (ordinary, b) s = record s { breaker = b; running = false ∷ s.running }

pub data Step (o : CircuitBreakerOptions) : System → System → Type 0 where
  passes : (ms : ℕ) (s : System) → Step o s (record s { now = s.now + ms })
  looked : (s : System) → Step o s (record s { breaker = snapshot o s.now s.breaker })
  begins : (s : System) → Step o s (enter (begin o s.now s.breaker) s)
  resolves :
      (before after : List Bool) (was_probe : Bool) (s : System)
      → s.running ≡ before ++ was_probe ∷ after
      → Step o s (record s { breaker = succeed was_probe s.breaker; running = before ++ after })
  rejects :
      (before after : List Bool) (was_probe counts : Bool) (s : System)
      → s.running ≡ before ++ was_probe ∷ after
      → Step o s (record s {
        breaker = fail o s.now was_probe counts s.breaker;
        running = before ++ after;
      })

pub data Reach (o : CircuitBreakerOptions) (s : System) : System → Type 0 where
  here : Reach o s s
  step : {t u : System} → Reach o s t → Step o t u → Reach o s u

enter-breaker : (e : Entry × Breaker) (s : System) → (enter e s).breaker ≡ e.1
enter-breaker (refused, b) s = refl
enter-breaker (probe, b) s = refl
enter-breaker (ordinary, b) s = refl

module _ (o : CircuitBreakerOptions) where
  -- The opening time is kept exactly while the circuit is not closed, a closed circuit has fewer
  -- failures than the threshold, and no more probes are counted than are allowed.
  pub record IsSound (b : Breaker) : Type 0 where
    pub untimed : b.state ≡ closed → b.opened_at ≡ none
    pub timed : b.state ≢ closed → is_some b.opened_at ≡ true
    pub few_failures : b.state ≡ closed → b.failures < o.failure_threshold
    pub few_probes : b.half_open_active ≤ℤ pos o.half_open_max_calls

  refresh-IsSound : (now : ℕ) (b : Breaker) → IsSound b → IsSound (refresh o now b)
  unfolding refresh
  refresh-IsSound now b v = ground arith

  begin-IsSound : (now : ℕ) (b : Breaker) → IsSound b → IsSound (begin o now b).1
  unfolding begin
  begin-IsSound now b v =
      let w : IsSound (refresh o now b) = refresh-IsSound now b v in ground arith

  succeed-IsSound :
      (p : Bool) (b : Breaker) → 1 ≤ o.failure_threshold → IsSound b → IsSound (succeed p b)
  unfolding succeed
  succeed-IsSound p b h v = ground arith

  fail-IsSound : (now : ℕ) (p c : Bool) (b : Breaker) → IsSound b → IsSound (fail o now p c b)
  unfolding fail
  fail-IsSound now p c b v = ground arith

  Step-IsSound :
      {s t : System} → 1 ≤ o.failure_threshold → Step o s t → IsSound s.breaker → IsSound t.breaker
  Step-IsSound h (passes ms s) v = v
  Step-IsSound h (looked s) v = refresh-IsSound s.now s.breaker v
  Step-IsSound h (begins s) v =
      rw (enter-breaker (begin o s.now s.breaker) s) (begin-IsSound s.now s.breaker v)
  Step-IsSound h (resolves before after p s e) v = succeed-IsSound p s.breaker h v
  Step-IsSound h (rejects before after p c s e) v = fail-IsSound s.now p c s.breaker v

  -- Whatever calls begin, resolve and reject, in whatever order and at whatever times: the opening
  -- time is kept exactly while the circuit is not closed, a closed circuit has counted fewer
  -- failures than the threshold, and no more probes are counted than are allowed at once.
  pub breaker_run-IsSound :
      {s t : System} → 1 ≤ o.failure_threshold → IsSound s.breaker → Reach o s t → IsSound t.breaker
  breaker_run-IsSound h v here = v
  breaker_run-IsSound h v (step r st) = Step-IsSound h st (breaker_run-IsSound h v r)
