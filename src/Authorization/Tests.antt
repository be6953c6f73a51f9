-- ===== src/Authorization/Tests.antt =====
-- The theorems of the authorization at concrete inputs.
use ai_crm_step.Base.{
  String, Bool, true, false, ◌≡◌, ◌↔◌, ◌⊎◌, refl, [], ◌∷◌, Option, none, some, arith, All, any,
}
use ai_crm_step.Base.Eq.{string_key}
use ai_crm_step.Base.Dict.{Dict, lookup, insert}
use ai_crm_step.Base.Result.{ok, err}
use ai_crm_step.Base.Sort.{sort}
use ai_crm_step.Base.Text.{text_leb}
use ai_crm_step.Base.Pattern.{
  is_uuid, is_trace_id, is_action, is_identifier, is_policy_version, is_value, lower_case,
}
use ai_crm_step.Authorization.Types.{
  DataScopeTerm, matching, DataScope, PermissionDeclaration, RoleDefinition, assignment,
  workforce_person, ValidatedGrant, ValidatedPolicy, SubjectContext, PermissionRequest, Decision,
  allowed, check, same_texts, same_term, same_constraints,
}
use ai_crm_step.Authorization.Scope.{
  includes_text, scope_matches, normalize_combined_scope, term_matches,
}
use ai_crm_step.Authorization.Scope.{scope_matches-normalize_combined_scope}
use ai_crm_step.Authorization.Policy.{
  PolicySnapshot, policy_version, validate_policy_snapshot, validate_permissions, add_permission,
  unique_strings, are_distinct, validate_roles, add_role, uuid, validate_bindings, normalize_scope,
  map_checked, normalize_constraint, normalize_subject, normalize_term, timestamp, validate_end,
  validate_grant, validate_grants,
}
use ai_crm_step.Authorization.Policy.Sound.{IsWellFormed, validate_policy_snapshot-IsWellFormed}
use ai_crm_step.Authorization.Engine.{
  Question, evaluate_scopes, context_problem, conclude, grant_scopes, applicable_grant,
  binding_scope, permission_code, checks, resolves, evaluate_policy, resource_context_is_complete,
  next_policy_boundary,
}
use ai_crm_step.Authorization.Engine.Spec.{IsAuthorized, check_allowed_iff, resolved_scope_iff}
use ai_crm_step.Authorization.Engine.Window.{evaluate_before_boundary}
use ai_crm_step.Authorization.Service.{
  Turn, AuthorizationServiceOptions, decide, finalize, identify, judge_turn, judge, load_policy,
  question, evaluate_turn, record_of, request_or_invalid, unavailable,
}
use ai_crm_step.Authorization.Service.Laws.{
  decide-recached, recached, RestsOn, decide_allowed, decide_recorded, IsIdentified, CanRecord,
  evaluate_turn-IsFresh, IsFresh,
}

abbrev in_order : DataScopeTerm → DataScopeTerm → Bool
in_order s t = true

abbrev reading : PermissionDeclaration
reading = record {
  action = "read";
  code = "crm.party:read";
  resource = "crm.party";
  scope_dimensions = "org.unit" ∷ [];
}

abbrev north : DataScope
north = record {
  terms = matching (record { dimension = "org.unit"; allowed_values = "north" ∷ [] } ∷ []) ∷ [];
}

abbrev reader : RoleDefinition
reader = record {
  permissions = record { permission_code = "crm.party:read"; scope = north } ∷ [];
  role_id = "20000000-0000-4000-8000-000000000000";
}

abbrev grant : ValidatedGrant
grant = record {
  grant_id = "10000000-0000-4000-8000-000000000000";
  role_id = reader.role_id;
  subject = assignment "a1";
  valid_from = 1000;
  valid_to = some 90000;
}

abbrev policy : ValidatedPolicy
policy = record {
  grants = grant ∷ [];
  permissions = ("crm.party:read", reading) ∷ [];
  roles = (reader.role_id, reader) ∷ [];
  version = "v1";
}

abbrev subject : SubjectContext
subject = record {
  active_assignment_ids = "a1" ∷ [];
  selected_assignment_id = some "a1";
  workforce_person_id = "p1";
}

abbrev place : Dict String String
place = ("org.unit", "north") ∷ []

abbrev request : PermissionRequest
request = record { action = "read"; resource = "crm.party"; resource_context = some place }

check_allowed_example :
    ((evaluate_policy in_order policy subject request 5000 checks).is_allowed ≡ true)
    ↔ IsAuthorized policy subject request 5000
check_allowed_example = check_allowed_iff in_order policy subject request 5000

scope_matches_example :
    scope_matches (normalize_combined_scope in_order (north.terms)) place
    ≡ any (term_matches place) north.terms
scope_matches_example = scope_matches-normalize_combined_scope in_order north.terms place

-- The request as it is allowed.
allowed_test : (evaluate_policy in_order policy subject request 5000 checks).is_allowed ≡ true
unfolding evaluate_policy evaluate_scopes lookup permission_code context_problem conclude
    grant_scopes applicable_grant binding_scope
allowed_test = refl

resolved_scope_example :
    ((evaluate_policy in_order policy subject request 5000 checks).is_allowed ≡ true) ↔ (
      (d : DataScope) × ((evaluate_policy in_order policy subject
          (record request { resource_context = none })
          5000
          resolves).scope
        ≡ some d)
      × (scope_matches d place ≡ true))
unfolding lookup permission_code resource_context_is_complete
resolved_scope_example =
    resolved_scope_iff in_order policy subject request 5000 reading place refl refl refl

evaluate_before_boundary_example :
    evaluate_policy in_order policy subject request 80000 checks
    ≡ evaluate_policy in_order policy subject request 5000 checks
unfolding next_policy_boundary
evaluate_before_boundary_example =
    evaluate_before_boundary in_order policy subject request 5000 80000 checks (ground arith)
      (λ b e. ground arith)

abbrev stored_snapshot : PolicySnapshot
stored_snapshot = record {
  grants =
      record {
        grant_id = grant.grant_id;
        role_id = grant.role_id;
        subject = workforce_person "30000000-0000-4000-8000-000000000000";
        valid_from = some 1000;
        valid_to = some (some 90000);
      }
      ∷ [];
  permissions = reading ∷ [];
  roles = reader ∷ [];
  version = "v1";
}

abbrev stored : ValidatedPolicy
stored = record policy {
  grants = record grant { subject = workforce_person "30000000-0000-4000-8000-000000000000" } ∷ [];
}

validate_policy_snapshot_example : IsWellFormed "v1" stored
unfolding validate_policy_snapshot is_policy_version validate_permissions add_permission
    is_identifier is_action lookup unique_strings are_distinct includes_text validate_roles add_role
    uuid is_uuid validate_bindings insert normalize_scope map_checked normalize_constraint
    normalize_subject normalize_term timestamp validate_end validate_grant validate_grants
    normalize_combined_scope same_constraints same_term same_texts is_value lower_case sort text_leb
validate_policy_snapshot_example =
    validate_policy_snapshot-IsWellFormed in_order stored_snapshot "v1" stored refl

abbrev person : SubjectContext
person = record {
  active_assignment_ids = [];
  selected_assignment_id = none;
  workforce_person_id = "30000000-0000-4000-8000-000000000000";
}

abbrev turn : Turn
turn = record {
  clock = some 5000;
  current_version = some "v1";
  load = λ version. some (some stored_snapshot);
  has_cache = true;
  cached = λ key. some none;
  cache_accepts = true;
  decision_id = some "40000000-0000-4000-8000-000000000000";
  trace_id = some "0123456789abcdef0123456789abcdef";
  recorder_accepts = true;
}

abbrev key_of : Question → String → SubjectContext → PermissionRequest → String
key_of q version s r = version

abbrev options : AuthorizationServiceOptions
options = record { cache_ttl_seconds = 60 }

abbrev decision : Decision
decision = record {
  is_allowed = true;
  decision_id = "40000000-0000-4000-8000-000000000000";
  evaluated_at = 5000;
  policy_version = "v1";
  reason = allowed;
}

decide_allowed_example : RestsOn in_order key_of options turn (some person) (some request) 5000
unfolding decide finalize identify is_trace_id judge_turn judge evaluate_turn load_policy
    policy_version evaluate_policy evaluate_scopes permission_code context_problem question conclude
    grant_scopes applicable_grant binding_scope validate_policy_snapshot is_policy_version
    validate_permissions add_permission is_identifier is_action lookup unique_strings are_distinct
    includes_text validate_roles add_role uuid is_uuid validate_bindings insert normalize_scope
    map_checked normalize_constraint normalize_subject normalize_term timestamp validate_end
    validate_grant validate_grants normalize_combined_scope same_constraints same_term same_texts
    is_value lower_case sort text_leb
decide_allowed_example =
    decide_allowed in_order key_of options turn (some person) (some request) true decision
      (some north) refl refl

decide-recached_example :
    ((decide in_order key_of options
        (recached turn false (λ key. none) false)
        (some person)
        (some request)
        true
        check).0
      ≡ (decide in_order key_of options turn (some person) (some request) true check).0)
    × ((decide in_order key_of options
          (recached turn false (λ key. none) false)
          (some person)
          (some request)
          true
          check).1.records
        ≡ (decide in_order key_of options turn (some person) (some request) true check).1.records)
decide-recached_example =
    decide-recached in_order key_of options turn false (λ key. none) false (some person)
      (some request) true check

evaluate_turn-IsFresh_example :
    All
      (IsFresh in_order key_of options turn person request 5000 checks 30000)
      (evaluate_turn in_order key_of options turn person request 5000 checks).2
evaluate_turn-IsFresh_example =
    evaluate_turn-IsFresh in_order key_of options turn person request 5000 checks 30000

-- A decision that the recorder refuses is not given.
abbrev unrecorded : Turn
unrecorded = record turn { recorder_accepts = false }

decide_recorded_example :
    ((d : Decision) × (scope : Option DataScope) × (trace : String) × ((decide in_order key_of
          options unrecorded
          (some person)
          (some request)
          true
          check).0
        ≡ ok (d, scope))
      × ((decide in_order key_of options unrecorded
            (some person)
            (some request)
            true
            check).1.records
          ≡ record_of d trace (request_or_invalid (some request)) (some person) check ∷ [])
      × (unrecorded.recorder_accepts ≡ true)
      × IsIdentified unrecorded d.decision_id trace)
    ⊎ (((decide in_order key_of options unrecorded (some person) (some request) true check).0
          ≡ err unavailable)
        × ((decide in_order key_of options unrecorded
              (some person)
              (some request)
              true
              check).1.records
            ≡ [])
        × ¬ CanRecord unrecorded)
decide_recorded_example =
    decide_recorded in_order key_of options unrecorded (some person) (some request) true check
