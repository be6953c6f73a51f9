-- ===== src/Organization/Tests.antt =====
-- The theorems of the organization store at concrete inputs.
use ai_crm_step.Base.{
  true, false, String, ◌≡◌, ◌≢◌, ◌↔◌, refl, List, [], ◌∷◌, Option, none, some, arith,
}
use ai_crm_step.Base.Eq.{string_key}
use ai_crm_step.Base.Dict.{lookup, insert}
use ai_crm_step.Base.Result.{ok, err}
use ai_crm_step.Organization.{
  organization_hierarchy_cycle, EffectiveInterval, OrganizationUnit, OrganizationUnitPlacement,
  is_active, Assignment, SubjectAssociation, interval_contains, require_interval,
}
use ai_crm_step.Organization.Hierarchy.{
  includes_id, assert_no_hierarchy_cycle_at, assert_valid_organization_path,
}
use ai_crm_step.Organization.Hierarchy.Walk.{Chain, walks_end, assert_no_hierarchy_cycle_at_iff}
use ai_crm_step.Organization.Service.{Request, assign, create_assignment_fact}
use ai_crm_step.Organization.Service.Integrity.{IsGrounded, create_assignment_fact-IsGrounded}
use ai_crm_step.Organization.Store.{
  list_active_placements, OrganizationStore, OrganizationCommit, create_subject_association, commit,
  apply_write, create_association,
}
use ai_crm_step.Organization.Store.Exclusive.{IsExclusive, commit-IsExclusive}

abbrev association : SubjectAssociation
association = record {
  issuer = "https://id";
  subject = "s1";
  association_id = "a1";
  workforce_person_id = "p1";
  interval = record { effective_from = 1000; effective_to = none };
}

abbrev empty : OrganizationStore
empty = record {
  assignments = [];
  associations = [];
  employments = [];
  operations = [];
  placements = [];
  positions = [];
  units = [];
  people = [];
}

abbrev command : OrganizationCommit
command = record {
  fingerprint = "f1";
  operation_id = "o1";
  write = create_subject_association association;
}

abbrev written : OrganizationStore
written = record empty { associations = ("a1", association) ∷ []; operations = ("o1", "f1") ∷ [] }

empty-IsExclusive : IsExclusive empty.associations
unfolding lookup
empty-IsExclusive j k a b fa fb ne = ground arith

commit-IsExclusive_example : IsExclusive written.associations
unfolding commit apply_write create_association lookup insert
commit-IsExclusive_example = commit-IsExclusive command empty written false refl empty-IsExclusive

abbrev always : EffectiveInterval
always = record { effective_from = 0; effective_to = none }

abbrev staffed : OrganizationStore
staffed = record empty {
  employments =
      ("e1", record { employment_id = "e1"; workforce_person_id = "p1"; interval = always }) ∷ [];
  units = ("u1", record { organization_unit_id = "u1"; interval = always }) ∷ [];
  positions =
      ("q1", record { organization_unit_id = "u1"; position_id = "q1"; interval = always }) ∷ [];
}

abbrev assignment : Assignment
assignment = record {
  assignment_id = "a1";
  employment_id = "e1";
  organization_unit_id = "u1";
  position_id = "q1";
  workforce_person_id = "p1";
  interval = record { effective_from = 5; effective_to = some 9 };
}

abbrev request : Request
request = record {
  texts_pass = true;
  references_pass = true;
  authorized = ok tt;
  operation_id = "o2";
  fingerprint = "f2";
}

abbrev assigned : OrganizationStore
assigned = record staffed { assignments = ("a1", assignment) ∷ []; operations = ("o2", "f2") ∷ [] }

create_assignment_fact-IsGrounded_example :
    IsGrounded assignment staffed × (request.authorized ≡ ok tt)
unfolding create_assignment_fact assign interval_contains require_interval commit apply_write lookup
    insert
create_assignment_fact-IsGrounded_example =
    create_assignment_fact-IsGrounded request assignment staffed assigned false refl

abbrev unit_of : String → OrganizationUnit
unit_of id = record { organization_unit_id = id; interval = always }

abbrev placed_under : String → Option String → OrganizationUnitPlacement
placed_under id parent = record {
  organization_unit_id = id;
  parent_organization_unit_id = parent;
  placement_id = id;
  interval = always;
}

-- "top" above "mid".
abbrev tree : OrganizationStore
tree = record empty {
  units = ("top", unit_of "top") ∷ ("mid", unit_of "mid") ∷ [];
  placements = ("top", placed_under "top" none) ∷ ("mid", placed_under "mid" (some "top")) ∷ [];
}

walks_end_example :
    (assert_no_hierarchy_cycle_at "top" "mid" 2000 tree ≢ err none)
    × (assert_valid_organization_path "top" 2000 tree ≢ err none)
walks_end_example = walks_end "top" "mid" 2000 tree

tree_cycle :
    (assert_no_hierarchy_cycle_at "top" "mid" 2000 tree ≡ err (some organization_hierarchy_cycle))
    × (assert_no_hierarchy_cycle_at "new" "mid" 2000 tree ≡ ok tt)
unfolding assert_no_hierarchy_cycle_at lookup list_active_placements is_active
tree_cycle = (refl, refl)

assert_no_hierarchy_cycle_at_iff_example :
    (assert_no_hierarchy_cycle_at "new" "mid" 2000 tree ≡ ok tt)
    ↔ ((ids : List String) × Chain 2000 tree "mid" ids × (includes_id "new" ids ≡ false))
assert_no_hierarchy_cycle_at_iff_example = assert_no_hierarchy_cycle_at_iff "new" "mid" 2000 tree
