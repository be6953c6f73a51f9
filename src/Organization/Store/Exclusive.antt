-- ===== src/Organization/Store/Exclusive.antt =====
-- memory-store.ts: no subject and no person has two associations at one time, and a commit that is
-- repeated changes nothing.
use ai_crm_step.Base.{
  ℕ, String, Bool, true, false, ◌≡◌, ◌≢◌, refl, sym, ◌∙◌, subst, [], ◌∷◌, some, arith, any,
  Option-cases, Bool-cases, inl, inr, eq_iff, ◌===◌,
}
use mathlib.Core.Option.{some-injective}
use ai_crm_step.Base.Eq.{string_key}
use ai_crm_step.Base.Dict.{
  Dict, lookup, insert, has, values, lookup-insert, lookup-insert_self, lookup-insert_ne,
}
use ai_crm_step.Base.Result.{◌>>=◌, throw_if, Result, ok, Result-cases, ok_injective, >>=-eq-ok}
use ai_crm_step.Organization.{
  OrganizationError, entity_conflict, SubjectAssociation, intervals_overlap,
}
use ai_crm_step.Organization.Store.{
  OrganizationStore, OrganizationWrite, create_person, create_employment, create_organization_unit,
  create_organization_unit_placement, create_position, create_assignment,
  create_subject_association, close_assignment, close_employment, close_organization_unit_placement,
  close_subject_association, OrganizationCommit, can_end, ended, conflicts, create_association,
  close_association, apply_write, commit,
}

-- Associations under different keys do not conflict.
abbrev pub IsExclusive : Dict String SubjectAssociation → Type 0
IsExclusive m =
    (j k : String) (a b : SubjectAssociation)
    → lookup j m ≡ some a
    → lookup k m ≡ some b
    → j ≢ k
    → conflicts a b ≡ false

conflicts_comm : (a b : SubjectAssociation) → conflicts a b ≡ conflicts b a
unfolding conflicts intervals_overlap
conflicts_comm a b = ground (
  arith,
  eq_iff a.issuer b.issuer,
  eq_iff b.issuer a.issuer,
  eq_iff a.subject b.subject,
  eq_iff b.subject a.subject,
  eq_iff a.workforce_person_id b.workforce_person_id,
  eq_iff b.workforce_person_id a.workforce_person_id,
)

lookup-any :
    (p : SubjectAssociation → Bool) (m : Dict String SubjectAssociation) (k : String)
    (a : SubjectAssociation)
    → any p (values m) ≡ false
    → lookup k m ≡ some a
    → p a ≡ false
unfolding lookup
lookup-any p [] k a h found = ground arith
lookup-any p ((j, b) ∷ m) k a h found = ground (arith, lookup-any p m k a)

-- An association under a key that conflicts with none under another key.
insert-IsExclusive :
    (m : Dict String SubjectAssociation) (k : String) (a : SubjectAssociation)
    → IsExclusive m
    → ((j : String) (b : SubjectAssociation) → lookup j m ≡ some b → j ≢ k → conflicts b a ≡ false)
    → IsExclusive (insert k a m)
insert-IsExclusive m k a v free i j b c fb fc ne = elim (Bool-cases (k === i)) [
  | inl here ↦
      let same_i : k ≡ i = ground (arith, eq_iff k i) in
      let other : k ≢ j = λ e. ne (sym same_i ∙ e) in
      let is_a : a ≡ b = some-injective a b (sym (lookup-insert k i a m ∙ rw here refl) ∙ fb) in
      let later = sym (lookup-insert_ne k j a m other) ∙ fc in
      let apart : conflicts c a ≡ false = free j c later (λ e. other (sym e)) in
      rw (sym is_a) (conflicts_comm a c ∙ apart)
  | inr elsewhere ↦
      let not_i : k ≢ i = λ e. ground (arith, eq_iff k i) in
      let before = sym (lookup-insert_ne k i a m not_i) ∙ fb in
      elim (Bool-cases (k === j)) [
        | inl here ↦
            let is_a : a ≡ c =
              some-injective a c (sym (lookup-insert k j a m ∙ rw here refl) ∙ fc) in
            rw (sym is_a) (free i b before (λ e. not_i (sym e)))
        | inr neither ↦
            let not_j : k ≢ j = λ e. ground (arith, eq_iff k j) in
            v i j b c before (sym (lookup-insert_ne k j a m not_j) ∙ fc) ne
      ]
]

create_association-IsExclusive :
    (a : SubjectAssociation) (m m' : Dict String SubjectAssociation)
    → create_association a m ≡ ok m'
    → IsExclusive m
    → IsExclusive m'
unfolding create_association
create_association-IsExclusive a m m' h v =
    let free : any (λ b. conflicts b a) (values m) ≡ false = ground arith in
    let made : insert a.association_id a m ≡ m' = ground arith in
    subst IsExclusive made (
      insert-IsExclusive m a.association_id a v
        (λ j b found ne. lookup-any (λ b. conflicts b a) m j b free found))

-- An association that ends earlier conflicts with no more than before.
conflicts-ended :
    (b a : SubjectAssociation) (end : ℕ)
    → can_end a.interval end ≡ true
    → conflicts b a ≡ false
    → conflicts b (record a { interval = ended end a.interval }) ≡ false
unfolding conflicts intervals_overlap
conflicts-ended b a end h apart = ground arith

close_association-IsExclusive :
    (id : String) (end : ℕ) (m m' : Dict String SubjectAssociation)
    → close_association id end m ≡ ok m'
    → IsExclusive m
    → IsExclusive m'
unfolding close_association
close_association-IsExclusive id end m m' h v = elim (Option-cases (lookup id m)) [
  | inl missing ↦ ground (arith, missing)
  | inr (a, found) ↦
      let closed = record a { interval = ended end a.interval } in
      let can : can_end a.interval end ≡ true = ground (arith, found) in
      let made : insert id closed m ≡ m' = ground (arith, found) in
      subst IsExclusive made (
        insert-IsExclusive m id closed v
          (λ j b held ne. conflicts-ended b a end can (v j id b a held found ne)))
]

-- A write of other facts.
keeps-IsExclusive :
    {A : Type 0} (made : Result OrganizationError A) (next : A → OrganizationStore)
    (st st' : OrganizationStore)
    → ((a : A) → (next a).associations ≡ st.associations)
    → (made >>= λ a. ok (next a)) ≡ ok st'
    → IsExclusive st.associations
    → IsExclusive st'.associations
keeps-IsExclusive made next st st' same h v =
    let (a, e, done) = >>=-eq-ok made (λ a. ok (next a)) h in
    subst (λ (s : OrganizationStore). IsExclusive s.associations) (ok_injective done)
      (subst IsExclusive (sym (same a)) v)

apply_write-IsExclusive :
    (w : OrganizationWrite) (st st' : OrganizationStore)
    → apply_write w st ≡ ok st'
    → IsExclusive st.associations
    → IsExclusive st'.associations
unfolding apply_write
apply_write-IsExclusive (create_person p) st st' h v =
    keeps-IsExclusive _ (λ people. record st { people = people }) st st' (λ a. refl) h v
apply_write-IsExclusive (create_employment e) st st' h v =
    keeps-IsExclusive _ (λ es. record st { employments = es }) st st' (λ a. refl) h v
apply_write-IsExclusive (create_organization_unit u p) st st' h v =
    let (a, e1, h1) =
      >>=-eq-ok (throw_if (has u.organization_unit_id st.units) entity_conflict) _ h in
    let (b, e2, h2) =
      >>=-eq-ok (throw_if (has p.placement_id st.placements) entity_conflict) _ h1 in
    subst (λ (s : OrganizationStore). IsExclusive s.associations) (ok_injective h2) v
apply_write-IsExclusive (create_organization_unit_placement p) st st' h v =
    keeps-IsExclusive _ (λ ps. record st { placements = ps }) st st' (λ a. refl) h v
apply_write-IsExclusive (create_position p) st st' h v =
    keeps-IsExclusive _ (λ ps. record st { positions = ps }) st st' (λ a. refl) h v
apply_write-IsExclusive (create_assignment a) st st' h v =
    keeps-IsExclusive _ (λ xs. record st { assignments = xs }) st st' (λ a. refl) h v
apply_write-IsExclusive (create_subject_association a) st st' h v =
    let (m, e, done) = >>=-eq-ok (create_association a st.associations) _ h in
    subst (λ (s : OrganizationStore). IsExclusive s.associations) (ok_injective done)
      (create_association-IsExclusive a st.associations m e v)
apply_write-IsExclusive (close_assignment id end) st st' h v =
    keeps-IsExclusive _ (λ xs. record st { assignments = xs }) st st' (λ a. refl) h v
apply_write-IsExclusive (close_employment id end) st st' h v =
    keeps-IsExclusive _ (λ es. record st { employments = es }) st st' (λ a. refl) h v
apply_write-IsExclusive (close_organization_unit_placement id end) st st' h v =
    keeps-IsExclusive _ (λ ps. record st { placements = ps }) st st' (λ a. refl) h v
apply_write-IsExclusive (close_subject_association id end) st st' h v =
    let (m, e, done) = >>=-eq-ok (close_association id end st.associations) _ h in
    subst (λ (s : OrganizationStore). IsExclusive s.associations) (ok_injective done)
      (close_association-IsExclusive id end st.associations m e v)

-- However a commit changes the store: if before no subject and no person had two associations, under
-- different keys, in force at a common time, then none has after the commit.
pub commit-IsExclusive :
    (c : OrganizationCommit) (st st' : OrganizationStore) (replayed : Bool)
    → commit c st ≡ ok (replayed, st')
    → IsExclusive st.associations
    → IsExclusive st'.associations
unfolding commit
commit-IsExclusive c st st' replayed h v =
    elim (Option-cases (lookup c.operation_id st.operations)) [
      | inr (prior, found) ↦ ground (arith, found, v)
      | inl first ↦ elim (Result-cases (apply_write c.write st)) [
        | inr (e, failed) ↦ ground (arith, first, failed)
        | inl (st1, written) ↦
            let kept = apply_write-IsExclusive c.write st st1 written v in
            let same : st'.associations ≡ st1.associations = ground (arith, first, written) in
            rw same kept
      ]
    ]

commit-recorded :
    (c : OrganizationCommit) (st st' : OrganizationStore) (replayed : Bool)
    → commit c st ≡ ok (replayed, st')
    → lookup c.operation_id st'.operations ≡ some c.fingerprint
unfolding commit
commit-recorded c st st' replayed h = elim (Option-cases (lookup c.operation_id st.operations)) [
  | inr (prior, found) ↦ ground (arith, found, eq_iff prior c.fingerprint)
  | inl first ↦ elim (Result-cases (apply_write c.write st)) [
    | inr (e, failed) ↦ ground (arith, first, failed)
    | inl (st1, written) ↦
        let same : st'.operations ≡ insert c.operation_id c.fingerprint st1.operations =
          ground (arith, first, written) in
        rw same (lookup-insert_self c.operation_id c.fingerprint st1.operations)
  ]
]

-- A commit that succeeded, made again at once, is answered as a replay and changes nothing.
pub commit_again :
    (c : OrganizationCommit) (st st' : OrganizationStore) (replayed : Bool)
    → commit c st ≡ ok (replayed, st')
    → commit c st' ≡ ok (true, st')
unfolding commit
commit_again c st st' replayed h =
    rw (commit, commit-recorded c st st' replayed h)
      (ground (arith, eq_iff c.fingerprint c.fingerprint))
