-- ===== src/Organization/Service/Integrity.antt =====
-- service.ts: an assignment stands on facts that exist, belong together and last long enough.
use ai_crm_step.Base.{Bool, true, ◌≡◌, refl, Option, none, some, arith, eq_iff}
use ai_crm_step.Base.Eq.{string_key}
use ai_crm_step.Base.Dict.{lookup}
use ai_crm_step.Base.Result.{ok, >>=-eq-ok}
use ai_crm_step.Organization.{
  Employment, OrganizationUnit, Position, Assignment, interval_contains, require_interval,
}
use ai_crm_step.Organization.Store.{OrganizationStore}
use ai_crm_step.Organization.Service.{
  Request, require_texts, require_references, assign, create_assignment_fact,
}

-- Facts as they were found that belong to an assignment, and last as long as it.
abbrev pub Belong :
    Assignment → Option Employment → Option OrganizationUnit → Option Position → Type 0
Belong a employment unit position =
    (e : Employment) × (u : OrganizationUnit) × (p : Position) × (employment ≡ some e)
    × (unit ≡ some u)
    × (position ≡ some p)
    × (e.workforce_person_id ≡ a.workforce_person_id)
    × (p.organization_unit_id ≡ a.organization_unit_id)
    × (interval_contains e.interval a.interval ≡ true)
    × (interval_contains u.interval a.interval ≡ true)
    × (interval_contains p.interval a.interval ≡ true)

-- The facts that an assignment refers to, as the store has them.
abbrev pub IsGrounded : Assignment → OrganizationStore → Type 0
IsGrounded a st =
    Belong a (lookup a.employment_id st.employments) (lookup a.organization_unit_id st.units)
      (lookup a.position_id st.positions)

assign-Belong :
    (r : Request) (a : Assignment) (employment : Option Employment) (unit : Option OrganizationUnit)
    (position : Option Position) (st : OrganizationStore) (out : Bool × OrganizationStore)
    → assign r a employment unit position st ≡ ok out
    → Belong a employment unit position
unfolding assign
assign-Belong r a (some e) (some u) (some p) st out h = (
  e,
  u,
  p,
  refl,
  refl,
  refl,
  ground (arith, eq_iff e.workforce_person_id a.workforce_person_id),
  ground (arith, eq_iff p.organization_unit_id a.organization_unit_id),
  ground arith,
  ground arith,
  ground arith,
)
assign-Belong r a none unit position st out h = cc
assign-Belong r a (some e) none position st out h = cc
assign-Belong r a (some e) (some u) none st out h = cc

-- An assignment is created only after authorization, and only if its employment, unit and position
-- are in the store, the employment is that of the person and the position that of the unit, and
-- each of the three is in force during the whole assignment.
pub create_assignment_fact-IsGrounded :
    (r : Request) (a : Assignment) (st st' : OrganizationStore) (replayed : Bool)
    → create_assignment_fact r a st ≡ ok (replayed, st')
    → IsGrounded a st × (r.authorized ≡ ok tt)
unfolding create_assignment_fact
create_assignment_fact-IsGrounded r a st st' replayed h =
    let (x, e1, h1) = >>=-eq-ok (require_texts r) _ h in
    let (y, e2, h2) = >>=-eq-ok (require_interval a.interval) _ h1 in
    let (z, e4, h4) = >>=-eq-ok (require_references r) _ h2 in
    let (tt', e3, h3) = >>=-eq-ok r.authorized _ h4 in
    (
      assign-Belong r a (lookup a.employment_id st.employments)
          (lookup a.organization_unit_id st.units) (lookup a.position_id st.positions) st
          (replayed, st') h3,
      e3,
    )
