-- ===== src/Organization/Store.antt =====
-- packages/platform-modules/organization/src/memory-store.ts, and the writes of store.ts.
-- A commit that throws has written nothing: it is the error alone.
pub mod Exclusive
use ai_crm_step.Base.{
  ℕ, String, Bool, true, false, not, ◌&&◌, ◌||◌, List, [], ◌∷◌, Option, none, some, ◌===◌, ◌==◌,
  leb, if◌then◌else◌, any, filter,
}
use ai_crm_step.Base.Eq.{string_key}
use ai_crm_step.Base.Dict.{Dict, lookup, insert, has, values}
use ai_crm_step.Base.Result.{Result, ok, err, ◌>>=◌, ◌>>◌, throw_if}
use ai_crm_step.Organization.{
  OrganizationError, idempotency_conflict, conflicting_subject_association, entity_not_found,
  effective_interval_invalid, entity_conflict, EffectiveInterval, WorkforcePerson, Employment,
  OrganizationUnit, OrganizationUnitPlacement, Position, Assignment, SubjectAssociation, is_active,
  intervals_overlap,
}

pub record OrganizationStore : Type 0 where
  pub assignments : Dict String Assignment
  pub associations : Dict String SubjectAssociation
  pub employments : Dict String Employment
  pub operations : Dict String String
  pub placements : Dict String OrganizationUnitPlacement
  pub positions : Dict String Position
  pub units : Dict String OrganizationUnit
  pub people : Dict String WorkforcePerson

pub data OrganizationWrite : Type 0 where
  create_person : WorkforcePerson → OrganizationWrite
  create_employment : Employment → OrganizationWrite
  create_organization_unit : OrganizationUnit → OrganizationUnitPlacement → OrganizationWrite
  create_organization_unit_placement : OrganizationUnitPlacement → OrganizationWrite
  create_position : Position → OrganizationWrite
  create_assignment : Assignment → OrganizationWrite
  create_subject_association : SubjectAssociation → OrganizationWrite
  close_assignment close_employment : String → ℕ → OrganizationWrite
  close_organization_unit_placement close_subject_association : String → ℕ → OrganizationWrite

pub record OrganizationCommit : Type 0 where
  pub fingerprint : String
  pub operation_id : String
  pub write : OrganizationWrite

-- `#insert`
abbrev pub insert_new :
    {T : Type 0} → String → T → Dict String T → Result OrganizationError (Dict String T)
insert_new id value records =
    if has id records then err entity_conflict else ok (insert id value records)

-- The test of `#close`: the end is after the start, and no other end is there.
abbrev pub can_end : EffectiveInterval → ℕ → Bool
can_end current end =
    not (leb end current.effective_from)
    && elim current.effective_to [ none ↦ true | some old ↦ old == end ]

abbrev pub ended : ℕ → EffectiveInterval → EffectiveInterval
ended end interval = record interval { effective_to = some end }

-- `#close`, for facts with the given interval and its update.
abbrev pub close :
    {T : Type 0}
    → (T → EffectiveInterval)
    → (EffectiveInterval → T → T)
    → String
    → ℕ
    → Dict String T
    → Result OrganizationError (Dict String T)
close interval_of with_interval id end records = elim (lookup id records) [
  | none ↦ err entity_not_found
  | some current ↦
      if can_end (interval_of current) end
      then ok (insert id (with_interval (ended end (interval_of current)) current) records)
      else err effective_interval_invalid
]

-- Two associations of one subject or of one person that are in force at a common time.
unfoldable pub conflicts : SubjectAssociation → SubjectAssociation → Bool
conflicts a b =
    (((a.issuer === b.issuer) && (a.subject === b.subject))
      || (a.workforce_person_id === b.workforce_person_id))
    && intervals_overlap a.interval b.interval

unfoldable pub create_association :
    SubjectAssociation
    → Dict String SubjectAssociation
    → Result OrganizationError (Dict String SubjectAssociation)
create_association a associations =
    if any (λ b. conflicts b a) (values associations)
    then err conflicting_subject_association
    else insert_new a.association_id a associations

unfoldable pub close_association :
    String
    → ℕ
    → Dict String SubjectAssociation
    → Result OrganizationError (Dict String SubjectAssociation)
close_association id end associations =
    close (λ (a : SubjectAssociation). a.interval)
      (λ i (a : SubjectAssociation). record a { interval = i }) id end associations

-- The chain of `if`s of `commit`.
unfoldable pub apply_write :
    OrganizationWrite → OrganizationStore → Result OrganizationError OrganizationStore
apply_write (create_person p) st = do
  people ← insert_new p.workforce_person_id p st.people
  ok (record st { people = people })
apply_write (create_employment e) st = do
  employments ← insert_new e.employment_id e st.employments
  ok (record st { employments = employments })
apply_write (create_organization_unit u p) st = do
  throw_if (has u.organization_unit_id st.units) entity_conflict
  throw_if (has p.placement_id st.placements) entity_conflict
  ok (record st {
    units = insert u.organization_unit_id u st.units;
    placements = insert p.placement_id p st.placements;
  })
apply_write (create_organization_unit_placement p) st = do
  placements ← insert_new p.placement_id p st.placements
  ok (record st { placements = placements })
apply_write (create_position p) st = do
  positions ← insert_new p.position_id p st.positions
  ok (record st { positions = positions })
apply_write (create_assignment a) st = do
  assignments ← insert_new a.assignment_id a st.assignments
  ok (record st { assignments = assignments })
apply_write (create_subject_association a) st = do
  associations ← create_association a st.associations
  ok (record st { associations = associations })
apply_write (close_assignment id end) st = do
  assignments ←
      close (λ (a : Assignment). a.interval) (λ i (a : Assignment). record a { interval = i }) id
        end st.assignments
  ok (record st { assignments = assignments })
apply_write (close_employment id end) st = do
  employments ←
      close (λ (e : Employment). e.interval) (λ i (e : Employment). record e { interval = i }) id
        end st.employments
  ok (record st { employments = employments })
apply_write (close_organization_unit_placement id end) st = do
  placements ←
      close (λ (p : OrganizationUnitPlacement). p.interval)
        (λ i (p : OrganizationUnitPlacement). record p { interval = i }) id end st.placements
  ok (record st { placements = placements })
apply_write (close_subject_association id end) st = do
  associations ← close_association id end st.associations
  ok (record st { associations = associations })

-- The answer says whether the command had been committed before.
unfoldable pub commit :
    OrganizationCommit → OrganizationStore → Result OrganizationError (Bool × OrganizationStore)
commit command st = elim (lookup command.operation_id st.operations) [
  | some prior ↦ if prior === command.fingerprint then ok (true, st) else err idempotency_conflict
  | none ↦ do
    st' ← apply_write command.write st
    ok (
      false,
      record st' { operations = insert command.operation_id command.fingerprint st'.operations },
    )
]

unfoldable pub list_active_subject_associations :
    String → String → ℕ → OrganizationStore → List SubjectAssociation
list_active_subject_associations issuer subject at st =
    filter (λ a. ((a.issuer === issuer) && (a.subject === subject)) && is_active a.interval at)
      (values st.associations)

unfoldable pub list_active_assignments : String → ℕ → OrganizationStore → List Assignment
list_active_assignments person at st =
    filter (λ a. (a.workforce_person_id === person) && is_active a.interval at)
      (values st.assignments)

unfoldable pub list_active_employments : String → ℕ → OrganizationStore → List Employment
list_active_employments person at st =
    filter (λ e. (e.workforce_person_id === person) && is_active e.interval at)
      (values st.employments)

unfoldable pub list_active_placements :
    String → ℕ → OrganizationStore → List OrganizationUnitPlacement
list_active_placements unit at st =
    filter (λ p. (p.organization_unit_id === unit) && is_active p.interval at)
      (values st.placements)
