-- ===== src/Authorization/Engine.antt =====
-- packages/platform-modules/authorization/src/engine.ts: the evaluation of one request.
pub mod Spec
pub mod Window
use ai_crm_step.Base.{
  ℕ, String, ◌-◌, ◌/◌, min, Bool, true, false, ◌&&◌, ◌||◌, not, List, [], ◌∷◌, Option, none, some,
  ◌===◌, ◌==◌, ltb, leb, if◌then◌else◌, any, all, find, filter, flat_map, length, is_some, map,
}
use ai_crm_step.Base.Eq.{string_key}
use ai_crm_step.Base.Dict.{Dict, lookup}
use ai_crm_step.Base.Sort.{sort}
use ai_crm_step.Base.Text.{append, text_leb}
use ai_crm_step.Authorization.Types.{
  DataScopeTerm, DataScope, PermissionDeclaration, RolePermissionBinding, RoleDefinition,
  GrantSubject, assignment, workforce_person, ValidatedGrant, ValidatedPolicy, SubjectContext,
  PermissionRequest, Reason, allowed, unknown_permission, no_applicable_grant, invalid_context,
  resource_context_required, scope_mismatch, Evaluation, same_texts,
}
use ai_crm_step.Authorization.Scope.{normalize_combined_scope, scope_matches}

-- `${resource}:${action}`
unfoldable pub permission_code : PermissionRequest → String
permission_code r = append r.resource (append ":" r.action)

unfoldable pub is_active : ValidatedGrant → ℕ → Bool
is_active g at =
    leb g.valid_from at && elim g.valid_to [ none ↦ true | some valid_to ↦ ltb at valid_to ]

unfoldable pub names_subject : GrantSubject → SubjectContext → Bool
names_subject (workforce_person person) s = person === s.workforce_person_id
names_subject (assignment a) s = elim s.selected_assignment_id [
  | none ↦ false
  | some selected ↦ a === selected
]

unfoldable pub applicable_grant : ValidatedGrant → SubjectContext → ℕ → Bool
unfolding is_active names_subject
applicable_grant g s at = is_active g at && names_subject g.subject s

-- `Object.keys(context)`
abbrev pub keys {ℓ} : {V : Type ℓ} → Dict String V → List String
keys [] = []
keys ((k, v) ∷ m) = k ∷ keys m

unfoldable pub resource_context_is_complete : PermissionDeclaration → Dict String String → Bool
unfolding same_texts sort text_leb
resource_context_is_complete p context =
    same_texts (sort text_leb p.scope_dimensions) (sort text_leb (keys context))

-- The scope that a grant gives for a permission, if its role binds the permission.
unfoldable pub binding_scope : ValidatedPolicy → String → ValidatedGrant → Option DataScope
unfolding lookup
binding_scope policy code g = elim (lookup g.role_id policy.roles) [
  | none ↦ none
  | some role ↦ elim (find (λ b. b.permission_code === code) role.permissions) [
    | none ↦ none
    | some b ↦ some b.scope
  ]
]

abbrev pub to_list {ℓ} : {A : Type ℓ} → Option A → List A
to_list none = []
to_list (some a) = a ∷ []

-- The body of the `flatMap` over the grants.
unfoldable pub grant_scopes :
    ValidatedPolicy → SubjectContext → String → ℕ → ValidatedGrant → List DataScope
grant_scopes policy s code at g =
    if applicable_grant g s at then to_list (binding_scope policy code g) else []

-- The two operations that `evaluatePolicy` tells apart.
pub data Question : Type 0 where
  checks resolves : Question

abbrev pub denied : ValidatedPolicy → Reason → Evaluation
denied policy reason = record {
  is_allowed = false;
  policy_version = policy.version;
  reason = reason;
  scope = none;
}

-- What `check` refuses before any grant is looked at.
unfoldable pub context_problem :
    Question → PermissionDeclaration → Option (Dict String String) → Option Reason
unfolding resource_context_is_complete
context_problem resolves p context = none
context_problem checks p none =
    if ltb 0 (length p.scope_dimensions) then some resource_context_required else none
context_problem checks p (some context) =
    if resource_context_is_complete p context then none else some invalid_context

-- Whether `check` finds its resource outside the combined scope.
unfoldable pub outside : Question → DataScope → Option (Dict String String) → Bool
unfolding scope_matches
outside resolves scope context = false
outside checks scope none = false
outside checks scope (some context) = not (scope_matches scope context)

module _ (before : DataScopeTerm → DataScopeTerm → Bool) where
  -- The end of `evaluatePolicy`, from the scopes of the applicable grants.
  unfoldable pub conclude :
      ValidatedPolicy → Question → Option (Dict String String) → List DataScope → Evaluation
  unfolding outside normalize_combined_scope
  conclude policy q context [] = denied policy no_applicable_grant
  conclude policy q context (d ∷ ds) =
      let scope = normalize_combined_scope before (flat_map (λ e. e.terms) (d ∷ ds)) in
      if outside q scope context then denied policy scope_mismatch else record {
        is_allowed = true;
        policy_version = policy.version;
        reason = allowed;
        scope = some scope;
      }

  -- `evaluatePolicy` for the scopes that its `flatMap` over the grants gives.
  unfoldable pub evaluate_scopes :
      ValidatedPolicy → PermissionRequest → Question → List DataScope → Evaluation
  evaluate_scopes policy request q scopes =
      elim (lookup (permission_code request) policy.permissions) [
        | none ↦ denied policy unknown_permission
        | some p ↦ elim (context_problem q p request.resource_context) [
          | some reason ↦ denied policy reason
          | none ↦ conclude policy q request.resource_context scopes
        ]
      ]

  unfoldable pub evaluate_policy :
      ValidatedPolicy → SubjectContext → PermissionRequest → ℕ → Question → Evaluation
  evaluate_policy policy s request at q =
      evaluate_scopes policy request q
        (flat_map (grant_scopes policy s (permission_code request) at) policy.grants)

-- The first change of the set of active grants after `at`.
abbrev earliest : ℕ → Option ℕ → Option ℕ
earliest t none = some t
earliest t (some u) = some (min t u)

-- `[grant.validFrom, ...(grant.validTo === undefined ? [] : [grant.validTo])]`
unfoldable pub boundaries : ValidatedGrant → List ℕ
boundaries g = g.valid_from ∷ to_list g.valid_to

unfoldable pub minimum : List ℕ → Option ℕ
minimum [] = none
minimum (t ∷ ts) = earliest t (minimum ts)

unfoldable pub next_policy_boundary : ValidatedPolicy → ℕ → Option ℕ
unfolding boundaries minimum
next_policy_boundary policy at =
    minimum (filter (λ t. ltb at t) (flat_map boundaries policy.grants))

-- The lifetime in seconds of a cached evaluation; none is cached for less than one second.
unfoldable pub cache_ttl : ℕ → ValidatedPolicy → ℕ → ℕ
unfolding next_policy_boundary
cache_ttl cache_ttl_seconds policy at = elim (next_policy_boundary policy at) [
  | none ↦ cache_ttl_seconds
  | some boundary ↦ min cache_ttl_seconds ((boundary - at) / 1000)
]
