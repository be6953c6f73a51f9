-- ===== src/Integration/Concurrency/System.antt =====
-- The limiter with its callers: who holds a slot, whose signal is aborted, and every order in
-- which calls start, end and are aborted.
use ai_crm_step.Base.{
  ℕ, ◌+◌, ◌≤◌, ◌<◌, Bool, true, ◌≡◌, refl, List, [], ◌∷◌, ◌++◌, none, some, ◌==◌, if◌then◌else◌,
  length, arith, ap,
}
use ai_crm_step.Integration.Concurrency.{
  Limiter, admitted, waiting, refused, acquire, next_waiter, release, remove, cancel,
}

pub record System : Type 0 where
  pub limiter : Limiter
  pub running : List ℕ
  pub aborted : ℕ → Bool

-- The call that `acquire` let in runs.
pub start : ℕ → System → System
start call s =
    let (a, l) = acquire call (s.aborted call) s.limiter in
    record s {
      limiter = l;
      running = elim a [
        | admitted ↦ call ∷ s.running
        | waiting ↦ s.running
        | refused e ↦ s.running
      ];
    }

-- A call that ends in `finally`, also one that throws; the call that gets its slot runs.
pub finish : List ℕ → System → System
finish others s =
    let (next, l) = release s.aborted s.limiter in
    record s { limiter = l; running = elim next [ none ↦ others | some call ↦ call ∷ others ] }

pub abort : ℕ → System → System
abort call s = record s {
  limiter = cancel call s.limiter;
  aborted = λ c. if c == call then true else s.aborted c;
}

pub data Step : System → System → Type 0 where
  started : (call : ℕ) (s : System) → Step s (start call s)
  finished :
      (before after : List ℕ) (call : ℕ) (s : System)
      → s.running ≡ before ++ call ∷ after
      → Step s (finish (before ++ after) s)
  aborts : (call : ℕ) (s : System) → Step s (abort call s)

pub data Reach (s : System) : System → Type 0 where
  here : Reach s s
  step : {t u : System} → Reach s t → Step t u → Reach s u

-- As many calls run as slots are taken, no more than the limit, and calls wait only while all
-- slots are taken.
pub record IsSound (s : System) : Type 0 where
  pub counted : s.limiter.active ≡ length s.running
  pub within : s.limiter.active ≤ s.limiter.limit
  pub short_queue : length s.limiter.queue ≤ s.limiter.max_queue
  pub busy : 0 < length s.limiter.queue → s.limiter.active ≡ s.limiter.limit

length-snoc : (xs : List ℕ) (x : ℕ) → length (xs ++ x ∷ []) ≡ length xs + 1
length-snoc [] x = omega arith
length-snoc (y ∷ xs) x = omega (arith, length-snoc xs x)

length-middle : (xs ys : List ℕ) (x : ℕ) → length (xs ++ x ∷ ys) ≡ length (xs ++ ys) + 1
length-middle [] ys x = omega arith
length-middle (y ∷ xs) ys x = omega (arith, length-middle xs ys x)

length-remove : (call : ℕ) (xs : List ℕ) → length (remove call xs) ≤ length xs
unfolding remove
length-remove call [] = omega arith
length-remove call (x ∷ xs) = ground (arith, length-remove call xs)

length-next_waiter :
    (aborted : ℕ → Bool) (xs : List ℕ)
    → let (next, rest) = next_waiter aborted xs in
      (length rest ≤ length xs) × (next ≡ none → rest ≡ [])
unfolding next_waiter
length-next_waiter aborted [] = (omega arith, λ e. refl)
length-next_waiter aborted (x ∷ xs) = ground (arith, length-next_waiter aborted xs)

start-IsSound : (call : ℕ) (s : System) → IsSound s → IsSound (start call s)
unfolding start acquire
start-IsSound call s v = ground (arith, length-snoc s.limiter.queue call)

abort-IsSound : (call : ℕ) (s : System) → IsSound s → IsSound (abort call s)
unfolding abort
abort-IsSound call s v = ground (arith, length-remove call s.limiter.queue)

finish-IsSound :
    (before after : List ℕ) (call : ℕ) (s : System)
    → s.running ≡ before ++ call ∷ after
    → IsSound s
    → IsSound (finish (before ++ after) s)
unfolding finish release
finish-IsSound before after call s e v = ground (
  arith,
  ap length e,
  length-middle before after call,
  length-next_waiter s.aborted s.limiter.queue,
)

pub Step-IsSound : {s t : System} → Step s t → IsSound s → IsSound t
Step-IsSound (started call s) v = start-IsSound call s v
Step-IsSound (finished before after call s e) v = finish-IsSound before after call s e v
Step-IsSound (aborts call s) v = abort-IsSound call s v

-- However calls start, end and are aborted, the limiter counts the running calls exactly, never
-- lets more of them run than its limit nor more wait than its queue holds, and no call waits
-- while a slot is free.
pub limiter_run-IsSound : {s t : System} → IsSound s → Reach s t → IsSound t
limiter_run-IsSound v here = v
limiter_run-IsSound v (step r st) = Step-IsSound st (limiter_run-IsSound v r)
