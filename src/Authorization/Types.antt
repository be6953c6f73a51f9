-- ===== src/Authorization/Types.antt =====
-- packages/platform-modules/authorization/src/types.ts, and the validated forms of policy.ts.
-- A `Date` is its number of milliseconds.
use ai_crm_step.Base.{
  ℕ, String, Bool, true, false, ◌≡◌, ◌↔◌, ◌&&◌, List, [], ◌∷◌, Option, ◌===◌, eq_iff, arith,
}
use ai_crm_step.Base.Eq.{Key}
use ai_crm_step.Base.Dict.{Dict}

pub record ScopeConstraint : Type 0 where
  pub dimension : String
  pub allowed_values : List String

pub data DataScopeTerm : Type 0 where
  all_data : DataScopeTerm
  matching : List ScopeConstraint → DataScopeTerm

pub record DataScope : Type 0 where
  pub terms : List DataScopeTerm

pub record PermissionDeclaration : Type 0 where
  pub action : String
  pub code : String
  pub resource : String
  pub scope_dimensions : List String

pub record RolePermissionBinding : Type 0 where
  pub permission_code : String
  pub scope : DataScope

pub record RoleDefinition : Type 0 where
  pub permissions : List RolePermissionBinding
  pub role_id : String

pub data GrantSubject : Type 0 where
  assignment workforce_person : String → GrantSubject

pub record ValidatedGrant : Type 0 where
  pub grant_id : String
  pub role_id : String
  pub subject : GrantSubject
  pub valid_from : ℕ
  pub valid_to : Option ℕ

pub record ValidatedPolicy : Type 0 where
  pub grants : List ValidatedGrant
  pub permissions : Dict String PermissionDeclaration
  pub roles : Dict String RoleDefinition
  pub version : String

pub record SubjectContext : Type 0 where
  pub active_assignment_ids : List String
  pub selected_assignment_id : Option String
  pub workforce_person_id : String

pub record PermissionRequest : Type 0 where
  pub action : String
  pub resource : String
  pub resource_context : Option (Dict String String)

pub data Reason : Type 0 where
  allowed unknown_permission no_applicable_grant invalid_context : Reason
  resource_context_required scope_mismatch policy_unavailable policy_invalid : Reason

pub record Evaluation : Type 0 where
  pub is_allowed : Bool
  pub policy_version : String
  pub reason : Reason
  pub scope : Option DataScope

pub record Decision : Type 0 where
  pub is_allowed : Bool
  pub decision_id : String
  pub evaluated_at : ℕ
  pub policy_version : String
  pub reason : Reason

pub data Operation : Type 0 where
  batch_check check resolve_data_scope : Operation

-- Equality of terms, as of their JSON texts.
unfoldable pub same_texts : List String → List String → Bool
same_texts [] [] = true
same_texts (x ∷ xs) (y ∷ ys) = (x === y) && same_texts xs ys
same_texts _ _ = false

unfoldable pub same_constraints : List ScopeConstraint → List ScopeConstraint → Bool
unfolding same_texts
same_constraints [] [] = true
same_constraints (c ∷ cs) (d ∷ ds) =
    ((c.dimension === d.dimension) && same_texts c.allowed_values d.allowed_values)
    && same_constraints cs ds
same_constraints _ _ = false

unfoldable pub same_term : DataScopeTerm → DataScopeTerm → Bool
unfolding same_constraints
same_term all_data all_data = true
same_term (matching cs) (matching ds) = same_constraints cs ds
same_term _ _ = false

same_texts_iff : (xs ys : List String) → (same_texts xs ys ≡ true) ↔ (xs ≡ ys)
unfolding same_texts
same_texts_iff [] [] = ground arith
same_texts_iff [] (y ∷ ys) = ground arith
same_texts_iff (x ∷ xs) [] = ground arith
same_texts_iff (x ∷ xs) (y ∷ ys) = ground (arith, eq_iff x y, same_texts_iff xs ys)

same_constraints_iff : (cs ds : List ScopeConstraint) → (same_constraints cs ds ≡ true) ↔ (cs ≡ ds)
unfolding same_constraints
same_constraints_iff [] [] = ground arith
same_constraints_iff [] (d ∷ ds) = ground arith
same_constraints_iff (c ∷ cs) [] = ground arith
same_constraints_iff (c ∷ cs) (d ∷ ds) = ground (
  arith,
  eq_iff c.dimension d.dimension,
  same_texts_iff c.allowed_values d.allowed_values,
  same_constraints_iff cs ds,
)

pub same_term_iff : (s t : DataScopeTerm) → (same_term s t ≡ true) ↔ (s ≡ t)
unfolding same_term
same_term_iff all_data all_data = ground arith
same_term_iff all_data (matching ds) = ground arith
same_term_iff (matching cs) all_data = ground arith
same_term_iff (matching cs) (matching ds) = ground (arith, same_constraints_iff cs ds)

instance abbrev pub term_key : Key DataScopeTerm
term_key = record { same = same_term; same_iff = same_term_iff }
