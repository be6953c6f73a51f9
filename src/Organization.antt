-- ===== src/Organization.antt =====
-- packages/platform-modules/organization/src/validation.ts and types.ts: effective intervals and
-- the facts of the organization. A timestamp is its number of milliseconds; the texts that the code
-- accepts are canonical, so that equal texts are equal times.
pub mod Store
pub mod Service
pub mod Hierarchy
mod Tests
use ai_crm_step.Base.{
  ℕ, String, Bool, true, false, ◌&&◌, Option, none, some, ltb, leb, if◌then◌else◌,
}
use ai_crm_step.Base.Result.{Result, ok, throw_if}

pub data OrganizationError : Type 0 where
  idempotency_conflict conflicting_subject_association entity_not_found : OrganizationError
  effective_interval_invalid entity_conflict assignment_not_active : OrganizationError
  employment_not_active organization_hierarchy_cycle organization_path_invalid : OrganizationError
  subject_not_associated : OrganizationError

pub record EffectiveInterval : Type 0 where
  pub effective_from : ℕ
  pub effective_to : Option ℕ

pub record WorkforcePerson : Type 0 where
  pub workforce_person_id : String
  pub recorded_at : ℕ

pub record Employment : Type 0 where
  pub employment_id : String
  pub workforce_person_id : String
  pub interval : EffectiveInterval

pub record OrganizationUnit : Type 0 where
  pub organization_unit_id : String
  pub interval : EffectiveInterval

pub record OrganizationUnitPlacement : Type 0 where
  pub organization_unit_id : String
  pub parent_organization_unit_id : Option String
  pub placement_id : String
  pub interval : EffectiveInterval

pub record Position : Type 0 where
  pub organization_unit_id : String
  pub position_id : String
  pub interval : EffectiveInterval

pub record Assignment : Type 0 where
  pub assignment_id : String
  pub employment_id : String
  pub organization_unit_id : String
  pub position_id : String
  pub workforce_person_id : String
  pub interval : EffectiveInterval

pub record SubjectAssociation : Type 0 where
  pub issuer : String
  pub subject : String
  pub association_id : String
  pub workforce_person_id : String
  pub interval : EffectiveInterval

-- `at < end`, where a missing end is positive infinity.
abbrev pub before_end : ℕ → Option ℕ → Bool
before_end at none = true
before_end at (some end) = ltb at end

unfoldable pub is_active : EffectiveInterval → ℕ → Bool
is_active interval at = leb interval.effective_from at && before_end at interval.effective_to

unfoldable pub intervals_overlap : EffectiveInterval → EffectiveInterval → Bool
intervals_overlap left right =
    before_end left.effective_from right.effective_to
    && before_end right.effective_from left.effective_to

abbrev ends_within : Option ℕ → Option ℕ → Bool
ends_within none contained = true
ends_within (some end) none = false
ends_within (some end) (some contained) = leb contained end

unfoldable pub interval_contains : EffectiveInterval → EffectiveInterval → Bool
interval_contains container contained =
    leb container.effective_from contained.effective_from
    && ends_within container.effective_to contained.effective_to

unfoldable pub require_interval : EffectiveInterval → Result OrganizationError (Unit {0})
require_interval interval = elim interval.effective_to [
  | none ↦ ok tt
  | some end ↦ throw_if (leb end interval.effective_from) effective_interval_invalid
]
