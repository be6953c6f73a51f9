-- ===== src/Authorization/Policy/Sound.antt =====
-- policy.ts: what every accepted policy guarantees to the engine.
use ai_crm_step.Base.{
  ℕ, String, ◌<◌, Bool, true, false, not, ◌&&◌, ◌≡◌, refl, subst, List, [], ◌∷◌, Option, none, some,
  All, arith, length, ◌===◌, ◌==◌, leb, All-snoc, Option-cases, inl, inr, eq_iff,
}
use ai_crm_step.Base.Eq.{string_key}
use ai_crm_step.Base.Dict.{Dict, lookup, has, values, insert_absent}
use ai_crm_step.Base.Result.{ok, >>=-eq-ok, ok_injective}
use ai_crm_step.Authorization.Types.{
  DataScopeTerm, PermissionDeclaration, RolePermissionBinding, RoleDefinition, ValidatedGrant,
  ValidatedPolicy,
}
use ai_crm_step.Authorization.Scope.{includes_text}
use ai_crm_step.Authorization.Policy.{
  GrantSnapshot, PolicySnapshot, require, uuid, timestamp, normalize_subject, validate_end,
  validate_grant, validate_grants, validate_policy_snapshot, validate_permissions,
  validate_bindings, add_role, validate_roles, normalize_scope, are_distinct,
}
use ai_crm_step.Base.Pattern.{is_policy_version}

abbrev pub EndsAfter : ℕ → Option ℕ → Type 0
EndsAfter from none = Unit
EndsAfter from (some end) = from < end

abbrev pub grant_ids : List ValidatedGrant → List String
grant_ids [] = []
grant_ids (g ∷ gs) = g.grant_id ∷ grant_ids gs

-- A grant gives a role of the policy for a time that is not empty.
abbrev pub GrantFits : Dict String RoleDefinition → ValidatedGrant → Type 0
GrantFits roles g = (has g.role_id roles ≡ true) × EndsAfter g.valid_from g.valid_to

validate_end_sound :
    (from : ℕ) (t : Option (Option ℕ)) {end : Option ℕ}
    → validate_end from t ≡ ok end
    → EndsAfter from end
unfolding validate_end timestamp
validate_end_sound from none h = ground arith
validate_end_sound from (some none) h = cc
validate_end_sound from (some (some t)) h = ground arith

validate_grant_sound :
    (roles : Dict String RoleDefinition) (seen : List String) (g : GrantSnapshot)
    {x : ValidatedGrant}
    → validate_grant roles seen g ≡ ok x
    → GrantFits roles x × (includes_text x.grant_id seen ≡ false)
unfolding validate_grant
validate_grant_sound roles seen g h =
    let (grant_id, e1, h1) = >>=-eq-ok (uuid g.grant_id) _ h in
    let (role_id, e2, h2) = >>=-eq-ok (uuid g.role_id) _ h1 in
    let (checked, e3, h3) =
      >>=-eq-ok (require (not (includes_text grant_id seen) && has role_id roles)) _ h2 in
    let (subject, e4, h4) = >>=-eq-ok (normalize_subject g.subject) _ h3 in
    let (from, e5, h5) = >>=-eq-ok (timestamp g.valid_from) _ h4 in
    let (end, e6, h6) = >>=-eq-ok (validate_end from g.valid_to) _ h5 in
    let later = validate_end_sound from g.valid_to e6 in ground (arith, e3, h6, later)

-- What the loop over the grants has established of its results.
abbrev GrantsFit : Dict String RoleDefinition → List String → List ValidatedGrant → Type 0
GrantsFit roles seen xs =
    All (GrantFits roles) xs
    × (are_distinct (grant_ids xs) ≡ true)
    × All (λ x. includes_text x.grant_id seen ≡ false) xs

unseen :
    (g : String) (seen : List String) (xs : List ValidatedGrant)
    → All (λ x. includes_text x.grant_id (g ∷ seen) ≡ false) xs
    → (includes_text g (grant_ids xs) ≡ false) × All (λ x. includes_text x.grant_id seen ≡ false) xs
unfolding includes_text
unseen g seen [] h = (refl, tt)
unseen g seen (x ∷ xs) (h, hs) =
    ground (arith, unseen g seen xs hs, eq_iff g x.grant_id, eq_iff x.grant_id g)

validate_grants_sound :
    (roles : Dict String RoleDefinition) (seen : List String) (gs : List GrantSnapshot)
    {xs : List ValidatedGrant}
    → validate_grants roles seen gs ≡ ok xs
    → GrantsFit roles seen xs
unfolding validate_grants are_distinct
validate_grants_sound roles seen [] h = subst (GrantsFit roles seen) (ok_injective h) (tt, refl, tt)
validate_grants_sound roles seen (g ∷ gs) h =
    let (x, e1, h1) = >>=-eq-ok (validate_grant roles seen g) _ h in
    let (xs, e2, h2) = >>=-eq-ok (validate_grants roles (x.grant_id ∷ seen) gs) _ h1 in
    let (fits, new) = validate_grant_sound roles seen g e1 in
    let (all_fit, distinct, others) = validate_grants_sound roles (x.grant_id ∷ seen) gs e2 in
    let (absent, older) = unseen x.grant_id seen xs others in
    subst (GrantsFit roles seen) (ok_injective h2)
      ((fits, all_fit), rw (absent) distinct, (new, older))

abbrev pub binding_codes : List RolePermissionBinding → List String
binding_codes [] = []
binding_codes (b ∷ bs) = b.permission_code ∷ binding_codes bs

-- Every binding is of a declared permission, and no permission is bound twice.
abbrev pub BindingsFit : Dict String PermissionDeclaration → List RolePermissionBinding → Type 0
BindingsFit permissions bs =
    All (λ b. has b.permission_code permissions ≡ true) bs
    × (are_distinct (binding_codes bs) ≡ true)

abbrev pub RoleFits : Dict String PermissionDeclaration → RoleDefinition → Type 0
RoleFits permissions r = BindingsFit permissions r.permissions

abbrev BindingsNew :
    Dict String PermissionDeclaration → List String → List RolePermissionBinding → Type 0
BindingsNew permissions seen bs =
    BindingsFit permissions bs × All (λ b. includes_text b.permission_code seen ≡ false) bs

unbound :
    (c : String) (seen : List String) (bs : List RolePermissionBinding)
    → All (λ b. includes_text b.permission_code (c ∷ seen) ≡ false) bs
    → (includes_text c (binding_codes bs) ≡ false)
      × All (λ b. includes_text b.permission_code seen ≡ false) bs
unfolding includes_text
unbound c seen [] h = (refl, tt)
unbound c seen (b ∷ bs) (h, hs) =
    ground (arith, unbound c seen bs hs, eq_iff c b.permission_code, eq_iff b.permission_code c)

module _ (before : DataScopeTerm → DataScopeTerm → Bool)
    (permissions : Dict String PermissionDeclaration) where
  validate_bindings_sound :
      (seen : List String) (bs : List RolePermissionBinding) {xs : List RolePermissionBinding}
      → validate_bindings before permissions seen bs ≡ ok xs
      → BindingsNew permissions seen xs
  unfolding validate_bindings are_distinct
  validate_bindings_sound seen [] h =
      subst (BindingsNew permissions seen) (ok_injective h) ((tt, refl), tt)
  validate_bindings_sound seen (b ∷ bs) h =
      elim (Option-cases (lookup b.permission_code permissions)) [
        | inl undeclared ↦ ground (arith, undeclared)
        | inr (p, declared) ↦
            let h0 = rw (declared, validate_bindings) at h in
            let (checked, e1, h1) =
              >>=-eq-ok (require (not (includes_text b.permission_code seen))) _ h0 in
            let (scope, e2, h2) =
              >>=-eq-ok (normalize_scope before p.scope_dimensions b.scope) _ h1 in
            let (rest, e3, h3) =
              >>=-eq-ok (validate_bindings before permissions (b.permission_code ∷ seen) bs) _ h2 in
            let ((declared_rest, distinct), others) =
              validate_bindings_sound (b.permission_code ∷ seen) bs e3 in
            let (absent, older) = unbound b.permission_code seen rest others in
            subst (BindingsNew permissions seen) (ok_injective h3) (
              ((rw (declared, has) refl, declared_rest), rw absent distinct),
              (ground (arith, e1), older),
            )
      ]

  add_role_sound :
      (roles : Dict String RoleDefinition) (r : RoleDefinition) {next : Dict String RoleDefinition}
      → All (RoleFits permissions) (values roles)
      → add_role before permissions roles r ≡ ok next
      → All (RoleFits permissions) (values next)
  unfolding add_role
  add_role_sound roles r fit h =
      let (sized, e1, h1) =
        >>=-eq-ok (require (not (length r.permissions == 0) && leb (length r.permissions) 1000)) _
          h in
      let (role_id, e2, h2) = >>=-eq-ok (uuid r.role_id) _ h1 in
      let (fresh, e3, h3) = >>=-eq-ok (require (not (has role_id roles))) _ h2 in
      let (bindings, e4, h4) =
        >>=-eq-ok (validate_bindings before permissions [] r.permissions) _ h3 in
      let (bound, older) = validate_bindings_sound [] r.permissions e4 in
      let role : RoleDefinition = record { permissions = bindings; role_id = role_id } in
      let absent : lookup role_id roles ≡ none = ground (arith, e3) in
      subst (λ m. All (RoleFits permissions) (values m)) (ok_injective h4)
        (rw (insert_absent role_id role roles absent)
          (All-snoc (RoleFits permissions) (values roles) role fit bound))

  validate_roles_sound :
      (roles : Dict String RoleDefinition) (rs : List RoleDefinition)
      {next : Dict String RoleDefinition}
      → All (RoleFits permissions) (values roles)
      → validate_roles before permissions roles rs ≡ ok next
      → All (RoleFits permissions) (values next)
  unfolding validate_roles
  validate_roles_sound roles [] fit h =
      subst (λ m. All (RoleFits permissions) (values m)) (ok_injective h) fit
  validate_roles_sound roles (r ∷ rs) fit h =
      let (more, e1, h1) = >>=-eq-ok (add_role before permissions roles r) _ h in
      validate_roles_sound more rs (add_role_sound roles r fit e1) h1

-- What the engine may rely on.
pub record IsWellFormed (expected : String) (policy : ValidatedPolicy) : Type 0 where
  pub same_version : policy.version ≡ expected
  pub grants_fit : All (GrantFits policy.roles) policy.grants
  pub distinct_grants : are_distinct (grant_ids policy.grants) ≡ true
  pub roles_fit : All (RoleFits policy.permissions) (values policy.roles)

-- A policy that `validatePolicySnapshot` accepts has the expected version; each of its grants is
-- of a role of the policy, for a time that is not empty, and no grant id stands twice; each of its
-- roles binds only declared permissions, and none twice.
pub validate_policy_snapshot-IsWellFormed :
    (before : DataScopeTerm → DataScopeTerm → Bool) (snapshot : PolicySnapshot) (expected : String)
    (policy : ValidatedPolicy)
    → validate_policy_snapshot before (some snapshot) expected ≡ ok policy
    → IsWellFormed expected policy
unfolding validate_policy_snapshot
validate_policy_snapshot-IsWellFormed before snapshot expected policy h =
    let (a, e1, h1) = >>=-eq-ok (require (leb (length snapshot.permissions) 10000)) _ h in
    let (b, e2, h2) = >>=-eq-ok (require (leb (length snapshot.roles) 10000)) _ h1 in
    let (c, e3, h3) = >>=-eq-ok (require (leb (length snapshot.grants) 100000)) _ h2 in
    let (d, e4, h4) = >>=-eq-ok (require (is_policy_version snapshot.version)) _ h3 in
    let (e, e5, h5) = >>=-eq-ok (require (snapshot.version === expected)) _ h4 in
    let (permissions, e6, h6) = >>=-eq-ok (validate_permissions [] snapshot.permissions) _ h5 in
    let (roles, e7, h7) = >>=-eq-ok (validate_roles before permissions [] snapshot.roles) _ h6 in
    let (grants, e8, h8) = >>=-eq-ok (validate_grants roles [] snapshot.grants) _ h7 in
    let (fit, distinct, new) = validate_grants_sound roles [] snapshot.grants e8 in
    subst (IsWellFormed expected) (ok_injective h8) (record {
      same_version = ground (arith, e5, eq_iff snapshot.version expected);
      grants_fit = fit;
      distinct_grants = distinct;
      roles_fit = validate_roles_sound before permissions [] snapshot.roles tt e7;
    })
