-- ===== src/Organization/Hierarchy.antt =====
-- packages/platform-modules/organization/src/service.ts: the commands on the hierarchy of units and
-- the resolution of a person's context; memory-store.ts: the times at which placements begin. A
-- loop up the hierarchy runs on fuel, one step for each unit of the store and one more; a loop that
-- would need more is the error `none`, which no thrown error is.
pub mod Walk
use ai_crm_step.Base.{
  ℕ, zero, suc, String, Bool, false, not, ◌&&◌, List, [], ◌∷◌, Option, none, some, ◌===◌, ◌==◌, ltb,
  leb, if◌then◌else◌, any, filter, map, length,
}
use ai_crm_step.Base.Eq.{string_key}
use ai_crm_step.Base.Dict.{lookup, values}
use ai_crm_step.Base.Sort.{sort}
use ai_crm_step.Base.Text.{text_leb}
use ai_crm_step.Base.Result.{Result, ok, err, ◌>>=◌, ◌>>◌, throw_if}
use ai_crm_step.Organization.{
  OrganizationError, entity_not_found, effective_interval_invalid, entity_conflict,
  conflicting_subject_association, assignment_not_active, employment_not_active,
  organization_hierarchy_cycle, organization_path_invalid, subject_not_associated,
  EffectiveInterval, Employment, OrganizationUnit, Position, Assignment, OrganizationUnitPlacement,
  SubjectAssociation, interval_contains, require_interval, is_active, before_end,
}
use ai_crm_step.Organization.Store.{
  OrganizationStore, create_organization_unit, create_organization_unit_placement,
  list_active_subject_associations, list_active_assignments, list_active_employments,
  list_active_placements,
}
use ai_crm_step.Organization.Service.{Request, commit_write, require_texts, require_references}

abbrev pub Fueled : Type 0 → Type 0
Fueled A = Result (Option OrganizationError) A

abbrev thrown : {A : Type 0} → Result OrganizationError A → Fueled A
thrown (ok a) = ok a
thrown (err e) = err (some e)

unfoldable pub includes_id : String → List String → Bool
includes_id id ids = any (λ other. other === id) ids

-- `[...new Set(times)]`, up to the order, which `sort` sets.
unfoldable distinct_times : List ℕ → List ℕ
distinct_times [] = []
distinct_times (t ∷ ts) =
    let rest = distinct_times ts in if any (λ s. s == t) ts then rest else t ∷ rest

unfoldable pub list_placement_change_times : ℕ → Option ℕ → OrganizationStore → List ℕ
unfolding distinct_times
list_placement_change_times from to st = sort leb (
    distinct_times (
      filter (λ t. ltb from t && before_end t to)
        (map (λ (p : OrganizationUnitPlacement). p.interval.effective_from)
          (values st.placements))))

-- The one placement of an active unit, as its parent.
unfoldable only_parent : List OrganizationUnitPlacement → Result OrganizationError (Option String)
only_parent [] = err organization_path_invalid
only_parent (p ∷ []) = ok p.parent_organization_unit_id
only_parent (p ∷ q ∷ ps) = err organization_path_invalid

unfoldable pub parent_at : String → ℕ → OrganizationStore → Result OrganizationError (Option String)
unfolding only_parent
parent_at id at st = elim (lookup id st.units) [
  | none ↦ err organization_path_invalid
  | some unit ↦
      if is_active unit.interval at
      then only_parent (list_active_placements id at st)
      else err organization_path_invalid
]

-- The `while (current)` of both walks.
unfoldable pub walk : ℕ → List String → Option String → ℕ → OrganizationStore → Fueled (Unit {0})
unfolding parent_at includes_id
walk fuel visited none at st = ok tt
walk zero visited (some id) at st = err none
walk (suc fuel) visited (some id) at st = do
  throw_if (includes_id id visited) (some organization_hierarchy_cycle)
  parent ← thrown (parent_at id at st)
  walk fuel (id ∷ visited) parent at st

abbrev walk_fuel : OrganizationStore → ℕ
walk_fuel st = suc (length (values st.units))

unfoldable pub assert_no_hierarchy_cycle_at :
    String → String → ℕ → OrganizationStore → Fueled (Unit {0})
unfolding walk
assert_no_hierarchy_cycle_at unit parent at st = walk (walk_fuel st) (unit ∷ []) (some parent) at st

unfoldable cycle_free_at : String → String → List ℕ → OrganizationStore → Fueled (Unit {0})
unfolding assert_no_hierarchy_cycle_at
cycle_free_at unit parent [] st = ok tt
cycle_free_at unit parent (at ∷ ats) st = do
  assert_no_hierarchy_cycle_at unit parent at st
  cycle_free_at unit parent ats st

unfoldable pub assert_no_hierarchy_cycle :
    String → String → EffectiveInterval → OrganizationStore → Fueled (Unit {0})
unfolding cycle_free_at list_placement_change_times
assert_no_hierarchy_cycle unit parent interval st =
    cycle_free_at unit parent
      (interval.effective_from
        ∷ list_placement_change_times interval.effective_from interval.effective_to st)
      st

unfoldable pub assert_valid_organization_path : String → ℕ → OrganizationStore → Fueled (Unit {0})
unfolding walk
assert_valid_organization_path unit at st = walk (walk_fuel st) [] (some unit) at st

-- A unit that is there for the whole interval.
unfoldable require_unit :
    String → EffectiveInterval → OrganizationStore → Result OrganizationError (Unit {0})
require_unit id interval st = elim (lookup id st.units) [
  | none ↦ err entity_not_found
  | some unit ↦ throw_if (not (interval_contains unit.interval interval)) effective_interval_invalid
]

-- The tests on the parent, whose id `requireId` accepts if the flag is set.
unfoldable require_parent :
    Bool → String → Option String → EffectiveInterval → OrganizationStore → Fueled (Unit {0})
unfolding require_unit assert_no_hierarchy_cycle
require_parent parent_passes unit none interval st = ok tt
require_parent parent_passes unit (some parent) interval st = do
  throw_if (not parent_passes) (some entity_conflict)
  thrown (require_unit parent interval st)
  assert_no_hierarchy_cycle unit parent interval st

unfoldable pub create_unit_fact :
    Request
    → Bool
    → OrganizationUnitPlacement
    → OrganizationStore
    → Fueled (Bool × OrganizationStore)
unfolding require_parent
create_unit_fact r parent_passes p st = do
  thrown (require_texts r)
  thrown (require_interval p.interval)
  thrown (require_references r)
  thrown r.authorized
  require_parent parent_passes p.organization_unit_id p.parent_organization_unit_id p.interval st
  thrown (
      commit_write r
        (create_organization_unit
          (record { organization_unit_id = p.organization_unit_id; interval = p.interval }) p)
        st)

unfoldable pub create_placement_fact :
    Request
    → Bool
    → OrganizationUnitPlacement
    → OrganizationStore
    → Fueled (Bool × OrganizationStore)
unfolding require_parent require_unit
create_placement_fact r parent_passes p st = do
  thrown (require_texts r)
  thrown (require_interval p.interval)
  thrown (require_references r)
  thrown r.authorized
  thrown (require_unit p.organization_unit_id p.interval st)
  require_parent parent_passes p.organization_unit_id p.parent_organization_unit_id p.interval st
  thrown (commit_write r (create_organization_unit_placement p) st)

pub record WorkforceAssignmentReference : Type 0 where
  pub assignment_id : String
  pub employment_id : String
  pub organization_unit_id : String
  pub position_id : String

abbrev assignment_reference : Assignment → WorkforceAssignmentReference
assignment_reference a = record {
  assignment_id = a.assignment_id;
  employment_id = a.employment_id;
  organization_unit_id = a.organization_unit_id;
  position_id = a.position_id;
}

pub record WorkforceContext : Type 0 where
  pub assignments : List WorkforceAssignmentReference
  pub employment_ids : List String
  pub resolved_at : ℕ
  pub issuer : String
  pub subject : String
  pub workforce_person_id : String

-- The one association that is in force.
unfoldable the_association : List SubjectAssociation → Result OrganizationError SubjectAssociation
the_association [] = err subject_not_associated
the_association (a ∷ []) = ok a
the_association (a ∷ b ∷ rest) = err conflicting_subject_association

-- The choice of an assignment: the flag says whether `requireId` accepts its id.
unfoldable select_assignments :
    Bool → Option String → List Assignment → Result OrganizationError (List Assignment)
select_assignments id_passes none assignments = ok assignments
select_assignments id_passes (some id) assignments = do
  throw_if (not id_passes) entity_conflict
  let chosen = filter (λ (a : Assignment). a.assignment_id === id) assignments
  throw_if (not (length chosen == 1)) assignment_not_active
  ok chosen

-- The unit and the position of an assignment, as they were found, are in force and fit.
unfoldable is_in_place : Assignment → ℕ → Option OrganizationUnit → Option Position → Bool
is_in_place a at (some unit) (some position) =
    (position.organization_unit_id === a.organization_unit_id)
    && (is_active unit.interval at && is_active position.interval at)
is_in_place a at none position = false
is_in_place a at (some unit) none = false

unfoldable check_paths : List Assignment → ℕ → OrganizationStore → Fueled (Unit {0})
unfolding is_in_place assert_valid_organization_path
check_paths [] at st = ok tt
check_paths (a ∷ rest) at st = do
  throw_if
      (not (
        is_in_place a at (lookup a.organization_unit_id st.units)
          (lookup a.position_id st.positions)))
      (some organization_path_invalid)
  assert_valid_organization_path a.organization_unit_id at st
  check_paths rest at st

-- The first flag says whether `#subject` accepts its texts. The ids of employments are the keys of
-- the store, so that a `Set` of them drops none.
unfoldable pub resolve_workforce_context :
    Bool → String → String → ℕ → Bool → Option String → OrganizationStore → Fueled WorkforceContext
unfolding the_association select_assignments check_paths includes_id
resolve_workforce_context texts_pass issuer subject at id_passes chosen st = do
  throw_if (not texts_pass) (some entity_conflict)
  association ← thrown (the_association (list_active_subject_associations issuer subject at st))
  let person = association.workforce_person_id
  let employment_ids =
      map (λ (e : Employment). e.employment_id) (list_active_employments person at st)
  throw_if (length employment_ids == 0) (some employment_not_active)
  let own =
      filter (λ (a : Assignment). includes_id a.employment_id employment_ids)
        (list_active_assignments person at st)
  assignments ← thrown (select_assignments id_passes chosen own)
  check_paths assignments at st
  ok (record {
    assignments = map assignment_reference assignments;
    employment_ids = sort text_leb employment_ids;
    resolved_at = at;
    issuer = issuer;
    subject = subject;
    workforce_person_id = person;
  })
