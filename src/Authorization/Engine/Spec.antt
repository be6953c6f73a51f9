-- ===== src/Authorization/Engine/Spec.antt =====
-- engine.ts: when a request is allowed, stated without the code's lists of scopes, and the proof
-- that `evaluatePolicy` allows exactly those requests.
use ai_crm_step.Base.{
  ℕ, String, ◌≤◌, ◌<◌, Bool, true, ◌≡◌, refl, ◌↔◌, inl, inr, List, [], ◌∷◌, Option, none, some, any,
  any_iff, all_iff, any-flat_map, All, Any, flat_map, length, arith, eq_iff, Option-cases,
  Bool-cases, ◌===◌,
}
use ai_crm_step.Base.Eq.{string_key}
use ai_crm_step.Base.Dict.{Dict, lookup}
use ai_crm_step.Authorization.Types.{
  DataScopeTerm, all_data, matching, DataScope, PermissionDeclaration, GrantSubject, assignment,
  workforce_person, ValidatedGrant, ValidatedPolicy, SubjectContext, PermissionRequest,
}
use ai_crm_step.Authorization.Scope.{
  context_value, includes_text, term_matches, scope_matches, normalize_combined_scope,
  scope_matches-normalize_combined_scope,
}
use ai_crm_step.Authorization.Engine.{
  permission_code, is_active, names_subject, applicable_grant, resource_context_is_complete,
  binding_scope, grant_scopes, checks, resolves, context_problem, outside, conclude,
  evaluate_scopes, evaluate_policy,
}

-- The resource's value in each constrained dimension is one of the listed values.
abbrev pub TermAllows : Dict String String → DataScopeTerm → Type 0
TermAllows context all_data = Unit
TermAllows context (matching cs) =
    All (λ c. Any (λ v. v ≡ context_value context c.dimension) c.allowed_values) cs

abbrev pub Before : ℕ → Option ℕ → Type 0
Before at none = Unit
Before at (some end) = at < end

abbrev pub Selected : String → Option String → Type 0
Selected a none = ⊥
Selected a (some selected) = a ≡ selected

-- The grant is for this person, or for the assignment under which the person acts.
abbrev pub Names : GrantSubject → SubjectContext → Type 0
Names (workforce_person person) s = person ≡ s.workforce_person_id
Names (assignment a) s = Selected a s.selected_assignment_id

-- What a scope must cover: the resource of the request, if one is named.
abbrev pub Covers : Option (Dict String String) → DataScope → Type 0
Covers none scope = Unit
Covers (some context) scope = Any (TermAllows context) scope.terms

-- The grant is in force, is the subject's, and its role gives the permission for the resource.
abbrev pub Grants :
    ValidatedPolicy
    → SubjectContext
    → String
    → ℕ
    → Option (Dict String String)
    → ValidatedGrant
    → Type 0
Grants policy s code at context g =
    (g.valid_from ≤ at)
    × Before at g.valid_to
    × Names g.subject s
    × ((scope : DataScope) × (binding_scope policy code g ≡ some scope) × Covers context scope)

-- A check names its resource in exactly the permission's dimensions; a permission without
-- dimensions may be checked without a resource.
abbrev pub Fits : PermissionDeclaration → Option (Dict String String) → Type 0
Fits p none = length p.scope_dimensions ≡ 0
Fits p (some context) = resource_context_is_complete p context ≡ true

value_allowed : (v : String) (vs : List String) → (includes_text v vs ≡ true) ↔ Any (λ w. w ≡ v) vs
unfolding includes_text
value_allowed v vs = any_iff (λ w. w === v) (λ w. w ≡ v) (λ w. eq_iff w v) vs

term_matches_iff :
    (context : Dict String String) (t : DataScopeTerm)
    → (term_matches context t ≡ true) ↔ TermAllows context t
unfolding term_matches
term_matches_iff context all_data = (λ h. tt, λ h. refl)
term_matches_iff context (matching cs) =
    all_iff _ _ (λ c. value_allowed (context_value context c.dimension) c.allowed_values) cs

-- The Boolean form of `Covers`.
abbrev covers : Option (Dict String String) → DataScope → Bool
covers none scope = true
covers (some context) scope = any (term_matches context) scope.terms

covers_iff :
    (context : Option (Dict String String)) (d : DataScope)
    → (covers context d ≡ true) ↔ Covers context d
covers_iff none d = (λ h. tt, λ h. refl)
covers_iff (some context) d = any_iff _ _ (term_matches_iff context) d.terms

any-true : (ds : List DataScope) (d : DataScope) → any (λ e. true) (d ∷ ds) ≡ true
any-true ds d = refl

module _ (before : DataScopeTerm → DataScopeTerm → Bool) (policy : ValidatedPolicy) where
  conclude_iff :
      (context : Option (Dict String String)) (ds : List DataScope)
      → ((conclude before policy checks context ds).is_allowed ≡ true)
        ↔ (any (covers context) ds ≡ true)
  unfolding conclude
  conclude_iff context [] = ground arith
  conclude_iff none (d ∷ ds) = ground arith
  conclude_iff (some context) (d ∷ ds) = ground (
    arith,
    scope_matches-normalize_combined_scope before (flat_map (λ e. e.terms) (d ∷ ds)) context,
    any-flat_map (term_matches context) (λ e. e.terms) (d ∷ ds),
  )

names_subject_iff : (g : GrantSubject) (s : SubjectContext) → (names_subject g s ≡ true) ↔ Names g s
unfolding names_subject
names_subject_iff (workforce_person p) s = eq_iff p s.workforce_person_id
names_subject_iff (assignment a) s = elim (Option-cases s.selected_assignment_id) [
  | inl unselected ↦ rw (unselected) (ground arith)
  | inr (b, selected) ↦ rw (selected) (eq_iff a b)
]

is_active_iff :
    (g : ValidatedGrant) (at : ℕ)
    → (is_active g at ≡ true) ↔ ((g.valid_from ≤ at) × Before at g.valid_to)
unfolding is_active
is_active_iff g at = ground arith

applicable_grant_iff :
    (g : ValidatedGrant) (s : SubjectContext) (at : ℕ)
    → (applicable_grant g s at ≡ true)
      ↔ ((g.valid_from ≤ at) × Before at g.valid_to × Names g.subject s)
applicable_grant_iff g s at =
    unfold applicable_grant in ground (arith, is_active_iff g at, names_subject_iff g.subject s)

module _ (policy : ValidatedPolicy) (s : SubjectContext) (code : String) (at : ℕ) where
  any-grant_scopes :
      (context : Option (Dict String String)) (g : ValidatedGrant)
      → (any (covers context) (grant_scopes policy s code at g) ≡ true)
        ↔ Grants policy s code at context g
  unfolding grant_scopes
  any-grant_scopes context g = elim (Option-cases (binding_scope policy code g)) [
    | inl unbound ↦ ground (arith, unbound)
    | inr (d, bound) ↦ ground (arith, applicable_grant_iff g s at, covers_iff context d)
  ]

  any-all_scopes :
      (context : Option (Dict String String))
      → (any (covers context) (flat_map (grant_scopes policy s code at) policy.grants) ≡ true)
        ↔ Any (Grants policy s code at context) policy.grants
  any-all_scopes context =
      rw (any-flat_map (covers context) (grant_scopes policy s code at) policy.grants)
        (any_iff _ _ (any-grant_scopes context) policy.grants)

context_problem_iff :
    (p : PermissionDeclaration) (context : Option (Dict String String))
    → (context_problem checks p context ≡ none) ↔ Fits p context
unfolding context_problem
context_problem_iff p none = ground arith
context_problem_iff p (some context) = ground arith

-- What a check needs to be allowed.
abbrev pub IsAuthorized : ValidatedPolicy → SubjectContext → PermissionRequest → ℕ → Type 0
IsAuthorized policy s r at =
    (p : PermissionDeclaration) × (lookup (permission_code r) policy.permissions ≡ some p)
    × Fits p r.resource_context
    × Any (Grants policy s (permission_code r) at r.resource_context) policy.grants

module _ (before : DataScopeTerm → DataScopeTerm → Bool) (policy : ValidatedPolicy) where
  evaluate_known :
      (s : SubjectContext) (r : PermissionRequest) (at : ℕ) (p : PermissionDeclaration)
      → lookup (permission_code r) policy.permissions ≡ some p
      → ((evaluate_policy before policy s r at checks).is_allowed ≡ true) ↔ (
          Fits p r.resource_context
          × Any (Grants policy s (permission_code r) at r.resource_context) policy.grants)
  unfolding evaluate_policy evaluate_scopes
  evaluate_known s r at p known =
      elim (Option-cases (context_problem checks p r.resource_context)) [
        | inl fine ↦ ground (
          arith,
          context_problem_iff p r.resource_context,
          conclude_iff before policy r.resource_context
              (flat_map (grant_scopes policy s (permission_code r) at) policy.grants),
          any-all_scopes policy s (permission_code r) at r.resource_context,
        )
        | inr (reason, problem) ↦ ground (arith, context_problem_iff p r.resource_context)
      ]

-- A check is allowed exactly if the policy declares the permission, the request names its resource
-- in exactly the declared dimensions (or in none, if none is declared), and some grant that is in
-- force at the time and is for this person or the selected assignment has a role that binds the
-- permission with a scope covering that resource.
pub check_allowed_iff :
    (before : DataScopeTerm → DataScopeTerm → Bool) (policy : ValidatedPolicy) (s : SubjectContext)
    (r : PermissionRequest) (at : ℕ)
    → ((evaluate_policy before policy s r at checks).is_allowed ≡ true) ↔ IsAuthorized policy s r at
check_allowed_iff before policy s r at =
    elim (Option-cases (lookup (permission_code r) policy.permissions)) [
      | inl undeclared ↦ unfold evaluate_policy evaluate_scopes in ground arith
      | inr (p, known) ↦ (
        λ h.
            let (fits, granted) = (evaluate_known before policy s r at p known).0 h in
            (p, known, fits, granted),
        λ (q, declared, fits, granted).
            let same : p ≡ q = cc (known, declared) in
            (evaluate_known before policy s r at p known).1 (rw same fits, granted),
      )
    ]

module _ (before : DataScopeTerm → DataScopeTerm → Bool) (policy : ValidatedPolicy)
    (context : Dict String String) where
  conclude_resolved :
      (ds : List DataScope)
      → ((conclude before policy checks (some context) ds).is_allowed ≡ true) ↔ (
          (d : DataScope) × ((conclude before policy resolves none ds).scope ≡ some d)
          × (scope_matches d context ≡ true))
  unfolding conclude outside
  conclude_resolved [] = ((λ h. cc), λ (d, e, m). cc)
  conclude_resolved (d ∷ ds) =
      let combined = normalize_combined_scope before (flat_map (λ e. e.terms) (d ∷ ds)) in
      elim (Bool-cases (scope_matches combined context)) [
        | inl inside ↦ ((λ h. (combined, refl, inside)), λ (e, found, m). ground (arith, inside))
        | inr out ↦ ((λ h. ground (arith, out)), λ (e, found, m). ground (arith, out))
      ]

module _ (before : DataScopeTerm → DataScopeTerm → Bool) (policy : ValidatedPolicy)
    (s : SubjectContext) (r : PermissionRequest) (at : ℕ) (p : PermissionDeclaration)
    (known : lookup (permission_code r) policy.permissions ≡ some p) where
  scopes : List DataScope
  scopes = flat_map (grant_scopes policy s (permission_code r) at) policy.grants

  check_concludes :
      (context : Dict String String)
      → r.resource_context ≡ some context
      → resource_context_is_complete p context ≡ true
      → evaluate_policy before policy s r at checks
        ≡ conclude before policy checks (some context) scopes
  unfolding evaluate_policy evaluate_scopes context_problem scopes
  check_concludes context named complete = ground (arith, known, named, complete)

  resolve_concludes :
      evaluate_policy before policy s (record r { resource_context = none }) at resolves
      ≡ conclude before policy resolves none scopes
  unfolding evaluate_policy evaluate_scopes context_problem permission_code scopes
  resolve_concludes = ground (arith, known)

-- For a request that names a complete resource, a check is allowed exactly if the data scope that
-- is resolved for the same permission, without the resource, covers that resource.
pub resolved_scope_iff :
    (before : DataScopeTerm → DataScopeTerm → Bool) (policy : ValidatedPolicy) (s : SubjectContext)
    (r : PermissionRequest) (at : ℕ) (p : PermissionDeclaration) (context : Dict String String)
    → lookup (permission_code r) policy.permissions ≡ some p
    → r.resource_context ≡ some context
    → resource_context_is_complete p context ≡ true
    → ((evaluate_policy before policy s r at checks).is_allowed ≡ true) ↔ (
        (d : DataScope) × ((evaluate_policy before policy s
            (record r { resource_context = none })
            at
            resolves).scope
          ≡ some d)
        × (scope_matches d context ≡ true))
resolved_scope_iff before policy s r at p context known named complete =
    rw
      (
        check_concludes before policy s r at p known context named complete,
        resolve_concludes before policy s r at p known,
      )
      (conclude_resolved before policy context (scopes before policy s r at p known))
