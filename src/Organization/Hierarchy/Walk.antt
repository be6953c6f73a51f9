-- ===== src/Organization/Hierarchy/Walk.antt =====
-- service.ts: what `#assertNoHierarchyCycleAt` and `#assertValidOrganizationPath` decide, and that
-- the fuel of their loop is enough.
use ai_crm_step.Base.{
  ℕ, zero, suc, ◌≤◌, ◌<◌, String, true, false, ◌≡◌, ◌≢◌, ◌↔◌, refl, sym, ap, subst, ◌∙◌, inl, inr,
  List, [], ◌∷◌, Option, none, some, ◌===◌, if◌then◌else◌, any, length, arith, eq_iff, Bool-cases,
  Option-cases,
}
use ai_crm_step.Base.Eq.{string_key}
use ai_crm_step.Base.Dict.{Dict, lookup, values}
use ai_crm_step.Base.Result.{ok, err, Result-cases}
use ai_crm_step.Organization.{OrganizationUnit}
use ai_crm_step.Organization.Store.{OrganizationStore}
use ai_crm_step.Organization.Hierarchy.{
  includes_id, parent_at, walk, walk_fuel, assert_no_hierarchy_cycle_at,
  assert_valid_organization_path,
}

-- The units of the store that a walk has not seen.
unseen : List String → Dict String OrganizationUnit → ℕ
unseen visited [] = 0
unseen visited ((id, u) ∷ m) =
    let rest = unseen visited m in if includes_id id visited then rest else suc rest

unseen-le-length :
    (visited : List String) (m : Dict String OrganizationUnit)
    → unseen visited m ≤ length (values m)
unfolding unseen
unseen-le-length visited [] = omega arith
unseen-le-length visited ((id, u) ∷ m) = ground (arith, unseen-le-length visited m)

unseen_less :
    (id : String) (visited : List String) (m : Dict String OrganizationUnit)
    → unseen (id ∷ visited) m ≤ unseen visited m
unfolding unseen includes_id
unseen_less id visited [] = omega arith
unseen_less id visited ((j, u) ∷ m) = ground (arith, unseen_less id visited m)

unseen-lt :
    (id : String) (visited : List String) (m : Dict String OrganizationUnit) (u : OrganizationUnit)
    → includes_id id visited ≡ false
    → lookup id m ≡ some u
    → unseen (id ∷ visited) m < unseen visited m
unfolding unseen includes_id lookup
unseen-lt id visited [] u new found = ground arith
unseen-lt id visited ((j, w) ∷ m) u new found = elim (Bool-cases (j === id)) [
  | inl here ↦
      let same : j ≡ id = (eq_iff j id).0 here in
      let old : includes_id j visited ≡ false = rw same new in
      ground (arith, here, old, eq_iff id j, unseen_less id visited m)
  | inr elsewhere ↦ ground (arith, elsewhere, eq_iff id j, eq_iff j id, unseen-lt id visited m u)
]

parent_at_found :
    (id : String) (at : ℕ) (st : OrganizationStore) {parent : Option String}
    → parent_at id at st ≡ ok parent
    → (u : OrganizationUnit) × (lookup id st.units ≡ some u)
unfolding parent_at
parent_at_found id at st h = elim (Option-cases (lookup id st.units)) [
  | inl missing ↦ ground (arith, missing)
  | inr found ↦ found
]

walk_fueled :
    (fuel : ℕ) (visited : List String) (current : Option String) (at : ℕ) (st : OrganizationStore)
    → unseen visited st.units < fuel
    → walk fuel visited current at st ≢ err none
unfolding walk
walk_fueled fuel visited none at st enough = ground arith
walk_fueled zero visited (some id) at st enough = elim enough [ ]
walk_fueled (suc fuel) visited (some id) at st enough = elim (Bool-cases (includes_id id visited)) [
  | inl seen ↦ ground (arith, seen)
  | inr new ↦ elim (Result-cases (parent_at id at st)) [
    | inr (e, failed) ↦ ground (arith, new, failed)
    | inl (parent, found) ↦
        let (u, held) = parent_at_found id at st found in
        ground (
          arith,
          new,
          found,
          unseen-lt id visited st.units u new held,
          walk_fueled fuel (id ∷ visited) parent at st,
        )
  ]
]

-- The units from the given one up to a root, each the one parent of the unit before it.
pub data Chain (at : ℕ) (st : OrganizationStore) : String → List String → Type 0 where
  root : {id : String} → parent_at id at st ≡ ok none → Chain at st id (id ∷ [])
  up :
      {id parent : String} {ids : List String}
      → parent_at id at st ≡ ok (some parent)
      → Chain at st parent ids
      → Chain at st id (id ∷ ids)

free_of_none : (ids : List String) → any (λ j. includes_id j []) ids ≡ false
unfolding includes_id
free_of_none [] = refl
free_of_none (j ∷ ids) = free_of_none ids

Free-cons :
    (id : String) (visited ids : List String)
    → (any (λ j. includes_id j (id ∷ visited)) ids ≡ false)
      ↔ ((includes_id id ids ≡ false) × (any (λ j. includes_id j visited) ids ≡ false))
unfolding includes_id
Free-cons id visited [] = ground arith
Free-cons id visited (j ∷ ids) = ground (arith, eq_iff id j, eq_iff j id, Free-cons id visited ids)

-- A loop that ends well has climbed to a root over units that it had not seen.
walk_climbs :
    (fuel : ℕ) (visited : List String) (id : String) (at : ℕ) (st : OrganizationStore)
    → walk fuel visited (some id) at st ≡ ok tt
    → (ids : List String) × Chain at st id ids × (any (λ j. includes_id j visited) ids ≡ false)
unfolding walk
walk_climbs zero visited id at st h = ground arith
walk_climbs (suc fuel) visited id at st h = elim (Bool-cases (includes_id id visited)) [
  | inl seen ↦ ground (arith, seen)
  | inr new ↦ elim (Result-cases (parent_at id at st)) [
    | inr (e, failed) ↦ ground (arith, new, failed)
    | inl (none, found) ↦ (id ∷ [], root found, ground (arith, new))
    | inl (some parent, found) ↦
        let climbed : walk fuel (id ∷ visited) (some parent) at st ≡ ok tt =
          ground (arith, new, found) in
        let (ids, chain, free) = walk_climbs fuel (id ∷ visited) parent at st climbed in
        (id ∷ ids, up found chain, ground (arith, new, (Free-cons id visited ids).0 free))
  ]
]

-- The parents of a unit are what they are: all its chains have one length.
Chain-unique :
    (at : ℕ) (st : OrganizationStore) {id j : String} {ids js : List String}
    → Chain at st id ids
    → Chain at st j js
    → id ≡ j
    → length ids ≡ length js
Chain-unique at st (root h) (root k) same = refl
Chain-unique at st (root {id} h) (up {id = j} {parent = parent} k c) same =
    let both : ok none ≡ ok (some parent) = sym h ∙ rw same k in ground (arith, both)
Chain-unique at st (up {id} {parent} h c) (root {id = j} k) same =
    let both : ok (some parent) ≡ ok none = sym h ∙ rw same k in ground (arith, both)
Chain-unique at st (up {id} {parent} h c) (up {id = j} {parent = q} k d) same =
    let both : ok (some parent) ≡ ok (some q) = sym h ∙ rw same k in
    ap suc (Chain-unique at st c d (ground (arith, both)))

-- From any unit of a chain there is a chain that is no longer.
Chain-from :
    (at : ℕ) (st : OrganizationStore) (x : String) {id : String} {ids : List String}
    → Chain at st id ids
    → includes_id x ids ≡ true
    → (ys : List String) × Chain at st x ys × (length ys ≤ length ids)
unfolding includes_id
Chain-from at st x (root {id} h) held =
    let same : id ≡ x = ground (arith, eq_iff id x) in
    (x ∷ [], subst (λ y. Chain at st y (y ∷ [])) same (root h), omega arith)
Chain-from at st x (up {id} {parent} {ids} h c) held = elim (Bool-cases (id === x)) [
  | inl here ↦
      let same : id ≡ x = (eq_iff id x).0 here in
      (x ∷ ids, subst (λ y. Chain at st y (y ∷ ids)) same (up h c), omega arith)
  | inr later ↦
      let above : includes_id x ids ≡ true = ground (arith, later) in
      let (ys, chain, shorter) = Chain-from at st x c above in (ys, chain, omega arith)
]

-- No unit is above itself.
Chain-new :
    (at : ℕ) (st : OrganizationStore) (id parent : String) (ids : List String)
    → parent_at id at st ≡ ok (some parent)
    → Chain at st parent ids
    → includes_id id ids ≡ false
Chain-new at st id parent ids h c = elim (Bool-cases (includes_id id ids)) [
  | inr new ↦ new
  | inl again ↦
      let (ys, chain, shorter) = Chain-from at st id c again in
      absurd (omega (arith, Chain-unique at st chain (up h c) refl))
]

-- The loop refuses no chain over units that it has not seen.
Chain-walks :
    (fuel : ℕ) (visited : List String) (at : ℕ) (st : OrganizationStore) {id : String}
    {ids : List String}
    → Chain at st id ids
    → any (λ j. includes_id j visited) ids ≡ false
    → walk fuel visited (some id) at st ≢ err none
    → walk fuel visited (some id) at st ≡ ok tt
unfolding walk
Chain-walks zero visited at st c free fueled = absurd (fueled refl)
Chain-walks (suc fuel) visited at st (root {id} h) free fueled = ground (arith, h)
Chain-walks (suc fuel) visited at st (up {id} {parent} {ids} h c) free fueled =
    let new : includes_id id visited ≡ false = ground arith in
    let same : walk (suc fuel) visited (some id) at st
        ≡ walk fuel (id ∷ visited) (some parent) at st =
      ground (arith, new, h) in
    let next : any (λ j. includes_id j (id ∷ visited)) ids ≡ false =
      (Free-cons id visited ids).1 (Chain-new at st id parent ids h c, ground arith) in
    same ∙ Chain-walks fuel (id ∷ visited) at st c next (λ e. fueled (same ∙ e))

walk_iff :
    (visited : List String) (id : String) (at : ℕ) (st : OrganizationStore)
    → (walk (walk_fuel st) visited (some id) at st ≡ ok tt)
      ↔ ((ids : List String) × Chain at st id ids × (any (λ j. includes_id j visited) ids ≡ false))
walk_iff visited id at st = (
  walk_climbs (walk_fuel st) visited id at st,
  λ (ids, chain, free). Chain-walks (walk_fuel st) visited at st chain free (
      walk_fueled (walk_fuel st) visited (some id) at st
        (omega (arith, unseen-le-length visited st.units))),
)

-- The walks up the hierarchy end within their fuel, whatever the store holds, also where its
-- placements form a cycle.
pub walks_end :
    (unit parent : String) (at : ℕ) (st : OrganizationStore)
    → (assert_no_hierarchy_cycle_at unit parent at st ≢ err none)
      × (assert_valid_organization_path unit at st ≢ err none)
unfolding assert_no_hierarchy_cycle_at assert_valid_organization_path
walks_end unit parent at st = (
  walk_fueled (walk_fuel st) (unit ∷ []) (some parent) at st
      (omega (arith, unseen-le-length (unit ∷ []) st.units)),
  walk_fueled (walk_fuel st) [] (some unit) at st (omega (arith, unseen-le-length [] st.units)),
)

-- The test for a cycle passes exactly if there is a chain of units from the parent up to a root, each
-- in force and with one placement in force at the time, and the unit is not in it.
pub assert_no_hierarchy_cycle_at_iff :
    (unit parent : String) (at : ℕ) (st : OrganizationStore)
    → (assert_no_hierarchy_cycle_at unit parent at st ≡ ok tt)
      ↔ ((ids : List String) × Chain at st parent ids × (includes_id unit ids ≡ false))
unfolding assert_no_hierarchy_cycle_at
assert_no_hierarchy_cycle_at_iff unit parent at st = (
  λ h.
      let (ids, chain, free) = (walk_iff (unit ∷ []) parent at st).0 h in
      (ids, chain, ((Free-cons unit [] ids).0 free).0),
  λ (ids, chain, new).
      (walk_iff (unit ∷ []) parent at st).1
        (ids, chain, (Free-cons unit [] ids).1 (new, free_of_none ids)),
)
