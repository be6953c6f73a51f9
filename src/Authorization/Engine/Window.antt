-- ===== src/Authorization/Engine/Window.antt =====
-- engine.ts: how long an evaluation stays what it is.
use ai_crm_step.Base.{
  ℕ, String, ◌+◌, ◌*◌, ◌≤◌, ◌<◌, min, Bool, ◌≡◌, refl, List, [], ◌∷◌, ◌++◌, some, ltb, All, filter,
  flat_map, arith, Option-cases, Bool-cases, inl, inr,
}
use ai_crm_step.Base.Eq.{string_key}
use ai_crm_step.Authorization.Types.{
  DataScopeTerm, ValidatedGrant, ValidatedPolicy, SubjectContext, PermissionRequest,
}
use ai_crm_step.Authorization.Engine.{
  permission_code, is_active, applicable_grant, grant_scopes, Question, evaluate_policy, boundaries,
  minimum, next_policy_boundary, cache_ttl,
}

-- No time of the list is later than `at` and not later than `later`.
abbrev Quiet : ℕ → ℕ → List ℕ → Type 0
Quiet at later ts = All (λ t. at < t → later < t) ts

minimum_lt :
    (later : ℕ) (ts : List ℕ)
    → ((m : ℕ) → minimum ts ≡ some m → later < m)
    → All (λ t. later < t) ts
unfolding minimum
minimum_lt later [] h = tt
minimum_lt later (t ∷ ts) h = elim (Option-cases (minimum ts)) [
  | inl last ↦ (h t (rw last), minimum_lt later ts (λ m e. cc (last, e)))
  | inr (u, more) ↦
      let both : later < min t u = h (min t u) (rw more) in
      (omega arith, minimum_lt later ts (λ m e. let same : u ≡ m = cc (more, e) in omega arith))
]

filter-Quiet :
    (at later : ℕ) (ts : List ℕ)
    → All (λ t. later < t) (filter (λ t. ltb at t) ts)
    → Quiet at later ts
filter-Quiet at later [] h = tt
filter-Quiet at later (t ∷ ts) h = elim (Bool-cases (ltb at t)) [
  | inl yet ↦ let (first, rest) = rw yet at h in ((λ lt. first), filter-Quiet at later ts rest)
  | inr past ↦ ((λ lt. ground arith), filter-Quiet at later ts (rw past at h))
]

Quiet-append :
    (at later : ℕ) (xs ys : List ℕ)
    → Quiet at later (xs ++ ys)
    → Quiet at later xs × Quiet at later ys
Quiet-append at later [] ys q = (tt, q)
Quiet-append at later (x ∷ xs) ys (h, q) = let (l, r) = Quiet-append at later xs ys q in ((h, l), r)

is_active-Quiet :
    (at later : ℕ) (g : ValidatedGrant)
    → at ≤ later
    → Quiet at later (boundaries g)
    → is_active g later ≡ is_active g at
unfolding is_active boundaries
is_active-Quiet at later g le q = ground arith

grant_scopes-Quiet :
    (policy : ValidatedPolicy) (s : SubjectContext) (code : String) (at later : ℕ)
    (gs : List ValidatedGrant)
    → at ≤ later
    → Quiet at later (flat_map boundaries gs)
    → flat_map (grant_scopes policy s code later) gs ≡ flat_map (grant_scopes policy s code at) gs
unfolding grant_scopes applicable_grant
grant_scopes-Quiet policy s code at later [] le q = refl
grant_scopes-Quiet policy s code at later (g ∷ gs) le q =
    let (here, rest) = Quiet-append at later (boundaries g) (flat_map boundaries gs) q in
    rw (is_active-Quiet at later g le here, grant_scopes-Quiet policy s code at later gs le rest)

next_policy_boundary-Quiet :
    (policy : ValidatedPolicy) (at later : ℕ)
    → ((b : ℕ) → next_policy_boundary policy at ≡ some b → later < b)
    → Quiet at later (flat_map boundaries policy.grants)
unfolding next_policy_boundary
next_policy_boundary-Quiet policy at later h =
    filter-Quiet at later (flat_map boundaries policy.grants)
      (minimum_lt later (filter (λ t. ltb at t) (flat_map boundaries policy.grants)) h)

-- Until the next policy boundary, if there is one, every evaluation gives the same result.
pub evaluate_before_boundary :
    (before : DataScopeTerm → DataScopeTerm → Bool) (policy : ValidatedPolicy) (s : SubjectContext)
    (r : PermissionRequest) (at later : ℕ) (q : Question)
    → at ≤ later
    → ((b : ℕ) → next_policy_boundary policy at ≡ some b → later < b)
    → evaluate_policy before policy s r later q ≡ evaluate_policy before policy s r at q
unfolding evaluate_policy
evaluate_before_boundary before policy s r at later q le h = rw (
    grant_scopes-Quiet policy s (permission_code r) at later policy.grants le
      (next_policy_boundary-Quiet policy at later h))

-- An evaluation that is cached for its lifetime, at least one second, is what a fresh evaluation
-- of the same policy gives at every moment of that lifetime.
pub evaluate_within_ttl :
    (before : DataScopeTerm → DataScopeTerm → Bool) (policy : ValidatedPolicy) (s : SubjectContext)
    (r : PermissionRequest) (at later seconds : ℕ) (q : Question)
    → at ≤ later
    → later < at + cache_ttl seconds policy at * 1000
    → evaluate_policy before policy s r later q ≡ evaluate_policy before policy s r at q
unfolding cache_ttl
evaluate_within_ttl before policy s r at later seconds q le lt =
    evaluate_before_boundary before policy s r at later q le
      (λ b e. let short = rw (e, cache_ttl) at lt in omega arith)
