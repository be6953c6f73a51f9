-- ===== src/Authorization/Policy.antt =====
-- packages/platform-modules/authorization/src/policy.ts: what makes a stored policy valid.
-- A snapshot is given in its typed form; one of another shape is `none` where it is loaded. A
-- timestamp is the moment that its text denotes, or `none` if the text is not canonical.
pub mod Sound
use ai_crm_step.Base.{
  ℕ, String, Bool, true, false, ◌&&◌, ◌||◌, not, List, [], ◌∷◌, Option, none, some, ◌===◌, ◌==◌,
  ltb, leb, if◌then◌else◌, any, all, length, is_some, map,
}
use ai_crm_step.Base.Eq.{string_key}
use ai_crm_step.Base.Dict.{Dict, lookup, insert, has, values}
use ai_crm_step.Base.Sort.{sort}
use ai_crm_step.Base.Text.{append, text_leb}
use ai_crm_step.Base.Pattern.{
  is_uuid, is_action, is_identifier, is_policy_version, is_value, text_length, lower_case,
}
use ai_crm_step.Base.Result.{Result, ok, err, ◌>>=◌, ◌>>◌, throw_if}
use ai_crm_step.Authorization.Types.{
  ScopeConstraint, DataScopeTerm, all_data, matching, DataScope, PermissionDeclaration,
  RolePermissionBinding, RoleDefinition, GrantSubject, assignment, workforce_person, ValidatedGrant,
  ValidatedPolicy, SubjectContext, term_key,
}
use ai_crm_step.Authorization.Scope.{includes_text, normalize_combined_scope}

pub record GrantSnapshot : Type 0 where
  pub grant_id : String
  pub role_id : String
  pub subject : GrantSubject
  pub valid_from : Option ℕ
  -- The outer `none` stands for a grant without the key.
  pub valid_to : Option (Option ℕ)

pub record PolicySnapshot : Type 0 where
  pub grants : List GrantSnapshot
  pub permissions : List PermissionDeclaration
  pub roles : List RoleDefinition
  pub version : String

-- `PolicyValidationError`
pub data PolicyInvalid : Type 0 where
  policy_invalid : PolicyInvalid

abbrev pub Checked {ℓ} : Type ℓ → Type ℓ
Checked A = Result PolicyInvalid A

abbrev pub require : Bool → Checked (Unit {0})
require b = throw_if (not b) policy_invalid

-- `result.map(f)` for an `f` that may throw.
unfoldable pub map_checked : {A B : Type 0} → (A → Checked B) → List A → Checked (List B)
map_checked f [] = ok []
map_checked f (x ∷ xs) = do y ← f x; ys ← map_checked f xs; ok (y ∷ ys)

-- `new Set(xs).size === xs.length`
unfoldable pub are_distinct : List String → Bool
are_distinct [] = true
are_distinct (x ∷ xs) = not (includes_text x xs) && are_distinct xs

unfoldable pub unique_strings : (String → Bool) → ℕ → ℕ → List String → Checked (List String)
unique_strings pattern maximum_items maximum_length xs = do
  require (leb (length xs) maximum_items)
  require (all (λ x. leb (text_length x) maximum_length && pattern x) xs)
  require (are_distinct xs)
  ok (sort text_leb xs)

unfoldable pub uuid : String → Checked String
uuid s = do require (is_uuid s); ok (lower_case s)

unfoldable pub timestamp : Option ℕ → Checked ℕ
timestamp none = err policy_invalid
timestamp (some t) = ok t

abbrev dimension_before : ScopeConstraint → ScopeConstraint → Bool
dimension_before c d = text_leb c.dimension d.dimension

unfoldable pub normalize_constraint : List String → ScopeConstraint → Checked ScopeConstraint
normalize_constraint dimensions c = do
  require (is_identifier c.dimension && leb (text_length c.dimension) 128)
  require (includes_text c.dimension dimensions)
  vs ← unique_strings is_value 256 255 c.allowed_values
  require (not (length vs == 0))
  ok (record { dimension = c.dimension; allowed_values = vs })

abbrev pub dimensions_of : List ScopeConstraint → List String
dimensions_of [] = []
dimensions_of (c ∷ cs) = c.dimension ∷ dimensions_of cs

unfoldable pub normalize_term : List String → DataScopeTerm → Checked DataScopeTerm
normalize_term dimensions all_data = ok all_data
normalize_term dimensions (matching cs) = do
  require (not (length cs == 0) && leb (length cs) 32)
  normal ← map_checked (normalize_constraint dimensions) cs
  let sorted = sort dimension_before normal
  require (are_distinct (dimensions_of sorted) && (length sorted == length dimensions))
  ok (matching sorted)

-- One round of the loop over the permissions.
unfoldable pub add_permission :
    Dict String PermissionDeclaration
    → PermissionDeclaration
    → Checked (Dict String PermissionDeclaration)
add_permission permissions p = do
  require (is_identifier p.resource && leb (text_length p.resource) 128)
  require (is_action p.action && leb (text_length p.action) 64)
  require (p.code === append p.resource (append ":" p.action))
  require (not (has p.code permissions))
  dimensions ← unique_strings is_identifier 32 128 p.scope_dimensions
  ok (insert p.code (record p { scope_dimensions = dimensions }) permissions)

unfoldable pub validate_permissions :
    Dict String PermissionDeclaration
    → List PermissionDeclaration
    → Checked (Dict String PermissionDeclaration)
validate_permissions permissions [] = ok permissions
validate_permissions permissions (p ∷ ps) =
    add_permission permissions p >>= λ next. validate_permissions next ps

unfoldable pub normalize_subject : GrantSubject → Checked GrantSubject
normalize_subject (workforce_person p) = do ok (workforce_person (← uuid p))
normalize_subject (assignment a) = do ok (assignment (← uuid a))

unfoldable pub validate_end : ℕ → Option (Option ℕ) → Checked (Option ℕ)
validate_end valid_from none = ok none
validate_end valid_from (some t) = do
  valid_to ← timestamp t
  require (ltb valid_from valid_to)
  ok (some valid_to)

-- The `map` over the grants; `seen` are the grant ids so far.
unfoldable pub validate_grant :
    Dict String RoleDefinition → List String → GrantSnapshot → Checked ValidatedGrant
validate_grant roles seen g = do
  grant_id ← uuid g.grant_id
  role_id ← uuid g.role_id
  require (not (includes_text grant_id seen) && has role_id roles)
  subject ← normalize_subject g.subject
  valid_from ← timestamp g.valid_from
  valid_to ← validate_end valid_from g.valid_to
  ok (record {
    grant_id = grant_id;
    role_id = role_id;
    subject = subject;
    valid_from = valid_from;
    valid_to = valid_to;
  })

unfoldable pub validate_grants :
    Dict String RoleDefinition → List String → List GrantSnapshot → Checked (List ValidatedGrant)
validate_grants roles seen [] = ok []
validate_grants roles seen (g ∷ gs) = do
  grant ← validate_grant roles seen g
  rest ← validate_grants roles (grant.grant_id ∷ seen) gs
  ok (grant ∷ rest)

-- `before` is the order of the terms' JSON texts by code units.
module _ (before : DataScopeTerm → DataScopeTerm → Bool) where
  unfoldable pub normalize_scope : List String → DataScope → Checked DataScope
  normalize_scope dimensions scope = do
    require (not (length scope.terms == 0) && leb (length scope.terms) 128)
    terms ← map_checked (normalize_term dimensions) scope.terms
    ok (normalize_combined_scope before terms)

  -- The `map` over the bindings of a role; `seen` are the codes bound so far.
  unfoldable pub validate_bindings :
      Dict String PermissionDeclaration
      → List String
      → List RolePermissionBinding
      → Checked (List RolePermissionBinding)
  validate_bindings permissions seen [] = ok []
  validate_bindings permissions seen (b ∷ bs) = elim (lookup b.permission_code permissions) [
    | none ↦ err policy_invalid
    | some p ↦ do
      require (not (includes_text b.permission_code seen))
      scope ← normalize_scope p.scope_dimensions b.scope
      rest ← validate_bindings permissions (b.permission_code ∷ seen) bs
      ok (record b { scope = scope } ∷ rest)
  ]

  unfoldable pub add_role :
      Dict String PermissionDeclaration
      → Dict String RoleDefinition
      → RoleDefinition
      → Checked (Dict String RoleDefinition)
  add_role permissions roles r = do
    require (not (length r.permissions == 0) && leb (length r.permissions) 1000)
    role_id ← uuid r.role_id
    require (not (has role_id roles))
    bindings ← validate_bindings permissions [] r.permissions
    ok (insert role_id (record { permissions = bindings; role_id = role_id }) roles)

  unfoldable pub validate_roles :
      Dict String PermissionDeclaration
      → Dict String RoleDefinition
      → List RoleDefinition
      → Checked (Dict String RoleDefinition)
  validate_roles permissions roles [] = ok roles
  validate_roles permissions roles (r ∷ rs) =
      add_role permissions roles r >>= λ next. validate_roles permissions next rs

  unfoldable pub validate_policy_snapshot : Option PolicySnapshot → String → Checked ValidatedPolicy
  validate_policy_snapshot none expected_version = err policy_invalid
  validate_policy_snapshot (some snapshot) expected_version = do
    require (leb (length snapshot.permissions) 10000)
    require (leb (length snapshot.roles) 10000)
    require (leb (length snapshot.grants) 100000)
    require (is_policy_version snapshot.version)
    require (snapshot.version === expected_version)
    permissions ← validate_permissions [] snapshot.permissions
    roles ← validate_roles permissions [] snapshot.roles
    grants ← validate_grants roles [] snapshot.grants
    ok (record {
      grants = grants;
      permissions = permissions;
      roles = roles;
      version = snapshot.version;
    })

unfoldable pub policy_version : String → Checked String
policy_version v = do require (is_policy_version v); ok v

-- `validateSubjectContext`, for a value with texts in these places: the ids are made lower case,
-- the active assignments are distinct, and the selected one is among them.
unfoldable pub validate_subject_context :
    String → List String → Option String → Option SubjectContext
validate_subject_context person active selected =
    let ids = map lower_case active in
    let chosen : Option String = elim selected [ none ↦ none | some id ↦ some (lower_case id) ] in
    let misplaced : Bool = elim chosen [
      | none ↦ false
      | some id ↦ not (is_uuid id) || not (includes_text id ids)
    ] in
    if not (is_uuid person)
      || (ltb 128 (length ids)
          || (any (λ id. not (is_uuid id)) ids || (not (are_distinct ids) || misplaced)))
    then none
    else some (record {
      active_assignment_ids = sort text_leb ids;
      selected_assignment_id = chosen;
      workforce_person_id = lower_case person;
    })
