-- ===== src/Organization/Service.antt =====
-- packages/platform-modules/organization/src/service.ts: the commands but those on the hierarchy.
-- A command is given with what its texts pass (ids, actor, reason, trace, issuer), the answer of
-- the authorizer, and its fingerprint, the digest of its write and metadata.
pub mod Integrity
use ai_crm_step.Base.{
  ℕ, String, Bool, true, false, not, ◌&&◌, ◌||◌, Option, none, some, ◌===◌, if◌then◌else◌, is_some,
}
use ai_crm_step.Base.Eq.{string_key}
use ai_crm_step.Base.Dict.{Dict, lookup, has}
use ai_crm_step.Base.Result.{Result, ok, err, ◌>>=◌, ◌>>◌, throw_if}
use ai_crm_step.Organization.{
  OrganizationError, entity_not_found, effective_interval_invalid, entity_conflict,
  EffectiveInterval, WorkforcePerson, Employment, OrganizationUnit, Position, Assignment,
  OrganizationUnitPlacement, SubjectAssociation, interval_contains, require_interval,
}
use ai_crm_step.Organization.Store.{
  OrganizationStore, OrganizationWrite, create_person, create_employment, create_position,
  create_assignment, create_subject_association, close_assignment, close_employment,
  close_organization_unit_placement, close_subject_association, can_end, commit,
}

pub record Request : Type 0 where
  -- Whether `#metadata` and `requireId` accept the metadata and the id of the fact.
  pub texts_pass : Bool
  -- Whether `requireId` and `#subject` accept the texts that are tested behind the interval.
  pub references_pass : Bool
  pub authorized : Result OrganizationError (Unit {0})
  pub operation_id : String
  pub fingerprint : String

abbrev pub Committed : Type 0
Committed = Result OrganizationError (Bool × OrganizationStore)

-- `#commit`
abbrev pub commit_write : Request → OrganizationWrite → OrganizationStore → Committed
commit_write r w st =
    commit (record { fingerprint = r.fingerprint; operation_id = r.operation_id; write = w }) st

abbrev pub require_texts : Request → Result OrganizationError (Unit {0})
require_texts r = throw_if (not r.texts_pass) entity_conflict

abbrev pub require_references : Request → Result OrganizationError (Unit {0})
require_references r = throw_if (not r.references_pass) entity_conflict

unfoldable pub create_workforce_person : Request → WorkforcePerson → OrganizationStore → Committed
create_workforce_person r p st = do
  require_texts r
  r.authorized
  commit_write r (create_person p) st

unfoldable pub create_employment_fact : Request → Employment → OrganizationStore → Committed
create_employment_fact r e st = do
  require_texts r
  require_interval e.interval
  require_references r
  r.authorized
  throw_if (not (has e.workforce_person_id st.people)) entity_not_found
  commit_write r (create_employment e) st

-- The tests of `createPosition` on the unit that it found.
unfoldable pub place_position :
    Request → Position → Option OrganizationUnit → OrganizationStore → Committed
place_position r p none st = err entity_not_found
place_position r p (some unit) st =
    if interval_contains unit.interval p.interval
    then commit_write r (create_position p) st
    else err effective_interval_invalid

unfoldable pub create_position_fact : Request → Position → OrganizationStore → Committed
create_position_fact r p st = do
  require_texts r
  require_interval p.interval
  require_references r
  r.authorized
  place_position r p (lookup p.organization_unit_id st.units) st

-- The tests of `createAssignment` on the facts that it found.
unfoldable pub assign :
    Request
    → Assignment
    → Option Employment
    → Option OrganizationUnit
    → Option Position
    → OrganizationStore
    → Committed
assign r a (some employment) (some unit) (some position) st =
    if not (employment.workforce_person_id === a.workforce_person_id)
      || not (position.organization_unit_id === a.organization_unit_id)
    then err entity_not_found
    else if interval_contains employment.interval a.interval
        && (interval_contains unit.interval a.interval
            && interval_contains position.interval a.interval)
    then commit_write r (create_assignment a) st
    else err effective_interval_invalid
assign r a none unit position st = err entity_not_found
assign r a (some employment) none position st = err entity_not_found
assign r a (some employment) (some unit) none st = err entity_not_found

unfoldable pub create_assignment_fact : Request → Assignment → OrganizationStore → Committed
create_assignment_fact r a st = do
  require_texts r
  require_interval a.interval
  require_references r
  r.authorized
  assign r a (lookup a.employment_id st.employments) (lookup a.organization_unit_id st.units)
      (lookup a.position_id st.positions) st

unfoldable pub associate_subject : Request → SubjectAssociation → OrganizationStore → Committed
associate_subject r a st = do
  require_texts r
  require_interval a.interval
  require_references r
  r.authorized
  throw_if (not (has a.workforce_person_id st.people)) entity_not_found
  commit_write r (create_subject_association a) st

-- The kinds of `#close`.
pub data Closing : Type 0 where
  assignment_kind employment_kind placement_kind association_kind : Closing

-- The interval of the fact to be closed.
unfoldable pub find_interval : Closing → String → OrganizationStore → Option EffectiveInterval
find_interval assignment_kind id st = elim (lookup id st.assignments) [
  | none ↦ none
  | some a ↦ some a.interval
]
find_interval employment_kind id st = elim (lookup id st.employments) [
  | none ↦ none
  | some e ↦ some e.interval
]
find_interval placement_kind id st = elim (lookup id st.placements) [
  | none ↦ none
  | some p ↦ some p.interval
]
find_interval association_kind id st = elim (lookup id st.associations) [
  | none ↦ none
  | some a ↦ some a.interval
]

abbrev pub closing_write : Closing → String → ℕ → OrganizationWrite
closing_write assignment_kind id end = close_assignment id end
closing_write employment_kind id end = close_employment id end
closing_write placement_kind id end = close_organization_unit_placement id end
closing_write association_kind id end = close_subject_association id end

-- The tests of `#close` on the fact that it found.
unfoldable pub close_found :
    Request → Closing → String → ℕ → Option EffectiveInterval → OrganizationStore → Committed
close_found r kind id end none st = err entity_not_found
close_found r kind id end (some interval) st =
    if can_end interval end
    then commit_write r (closing_write kind id end) st
    else err effective_interval_invalid

unfoldable pub close_fact : Request → Closing → String → ℕ → OrganizationStore → Committed
close_fact r kind id end st = do
  require_texts r
  r.authorized
  close_found r kind id end (find_interval kind id st) st
