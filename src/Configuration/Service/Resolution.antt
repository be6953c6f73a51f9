-- ===== src/Configuration/Service/Resolution.antt =====
-- service.ts: which value `resolveParameter` gives.
use ai_crm_step.Base.{
  ℕ, ◌≤◌, String, Bool, true, false, not, ◌||◌, ◌≡◌, refl, sym, ap, ◌∙◌, ◌⊎◌, inl, inr, List, [],
  ◌∷◌, Option, none, some, leb, ltb, length, any, All, arith, eq_iff, Bool-cases, Option-cases,
}
use ai_crm_step.Base.Eq.{string_key}
use ai_crm_step.Base.Dict.{lookup}
use ai_crm_step.Base.Sort.{sort, sort-IsFirst}
use ai_crm_step.Base.Result.{ok, Result-cases}
use ai_crm_step.Base.Call.{◌>>=◌}
use ai_crm_step.Configuration.{
  ParameterDefinition, ParameterValueRelease, ParameterScope, ParameterActivation,
}
use ai_crm_step.Configuration.Store.{
  ConfigurationStore, list_effective_activations, find_parameter_value,
}
use ai_crm_step.Configuration.Service.{
  read, Ports, Journal, authorize, authorize_read, find_definition, activation, ResolvedParameter,
  priority_rank, first, select_activation, resolve_default, resolve_selected, use_cached,
  distinct_types, resolve_parameter,
}

abbrev rank_in : ParameterDefinition → ParameterActivation → ℕ
rank_in definition a = priority_rank definition.allowed_scopes a.scope.scope_type

-- A listed activation whose scope has the highest priority.
pub record IsHighest (definition : ParameterDefinition) (a : ParameterActivation)
    (activations : List ParameterActivation) : Type 0 where
  pub listed : (p : ParameterActivation → Bool) → any p activations ≡ false → p a ≡ false
  pub highest :
      All
        (λ (b : ParameterActivation).
          priority_rank definition.allowed_scopes b.scope.scope_type
          ≤ priority_rank definition.allowed_scopes a.scope.scope_type)
        activations

weaken :
    (definition : ParameterDefinition) (a : ParameterActivation) (xs : List ParameterActivation)
    → All (λ b. leb (rank_in definition b) (rank_in definition a) ≡ true) xs
    → All (λ b. rank_in definition b ≤ rank_in definition a) xs
weaken definition a [] v = tt
weaken definition a (x ∷ xs) (one, v) = (ground arith, weaken definition a xs v)

select_cases :
    (definition : ParameterDefinition) (xs : List ParameterActivation)
    → ((xs ≡ []) × (select_activation definition xs ≡ none))
      ⊎ ((a : ParameterActivation) × (select_activation definition xs ≡ some a)
          × IsHighest definition a xs)
unfolding select_activation sort
select_cases definition [] = inl (refl, refl)
select_cases definition (x ∷ xs) =
    let before = λ (a b : ParameterActivation). leb (rank_in definition b) (rank_in definition a) in
    let (y, ys, sorted, (listed, least)) =
      sort-IsFirst before (λ a b h. ground arith) (λ a b c h k. ground arith) (λ a. ground arith) x
        xs in
    inr
      (y, ap first sorted, record { listed = listed; highest = weaken definition y (x ∷ xs) least })

-- What a resolution without the cache gives.
abbrev pub Resolves :
    String
    → ParameterDefinition
    → List ParameterActivation
    → ConfigurationStore
    → ResolvedParameter
    → Type 0
Resolves key definition effective st fresh =
    ((effective ≡ []) × (resolve_default key definition ≡ ok fresh))
    ⊎ ((a : ParameterActivation) × (release : ParameterValueRelease) × IsHighest definition a
          effective
        × (find_parameter_value key a.value_version st ≡ some release)
        × (fresh ≡ record { parameter_key = key; source = activation a; value = release.value }))

selected-Resolves :
    (key : String) (definition : ParameterDefinition) (effective : List ParameterActivation)
    (st : ConfigurationStore) (fresh : ResolvedParameter)
    → resolve_selected key definition (select_activation definition effective) st ≡ ok fresh
    → Resolves key definition effective st fresh
unfolding resolve_selected
selected-Resolves key definition effective st fresh h = elim (select_cases definition effective) [
  | inl (empty, nothing) ↦ inl (empty, ground (arith, nothing))
  | inr (a, chosen, highest) ↦ elim (Option-cases (find_parameter_value key a.value_version st)) [
    | inl missing ↦ ground (arith, chosen, missing)
    | inr (release, found) ↦ inr (a, release, highest, found, ground (arith, chosen, found))
  ]
]

use_cached-digest :
    (digest : ResolvedParameter → String) (cached : Option ResolvedParameter)
    (fresh : ResolvedParameter)
    → digest (use_cached digest cached fresh) ≡ digest fresh
unfolding use_cached
use_cached-digest digest none fresh = refl
use_cached-digest digest (some c) fresh = ground (arith, eq_iff (digest c) (digest fresh))

-- Where `resolveParameter` returns, the authorizer allowed the reading, the parameter is defined,
-- and the answer has the digest of what the store gives: the default, where the definition has one
-- for this case, if no activation for the scopes is in force, and else the released value of an
-- activation whose scope has the highest priority among those in force. The journal is as it was.
pub resolve_parameter-Resolves :
    (digest : ResolvedParameter → String) (ports : Ports) (cached : Option ResolvedParameter)
    (key : String) (scopes : List ParameterScope) (at : ℕ) (j j' : Journal) (r : ResolvedParameter)
    → resolve_parameter digest ports cached key scopes at j ≡ (ok r, j')
    → (definition : ParameterDefinition) × (fresh : ResolvedParameter) × (ports.authorizer
          (record { action = read; owner_module = none; resource_id = key })
        ≡ some true)
      × (lookup key j.store.definitions ≡ some definition)
      × (digest r ≡ digest fresh)
      × Resolves key definition (list_effective_activations key scopes at j.store) j.store fresh
      × (j' ≡ j)
unfolding resolve_parameter authorize_read authorize find_definition ◌>>=◌
resolve_parameter-Resolves digest ports cached key scopes at j j' r h =
    elim (Bool-cases (ltb 20 (length scopes) || not (distinct_types scopes))) [
      | inl bad ↦ ground (arith, bad)
      | inr fine ↦
          elim (Option-cases
            (ports.authorizer (record { action = read; owner_module = none; resource_id = key }))) [
              | inl lost ↦ ground (arith, fine, lost)
              | inr (false, refused) ↦ ground (arith, fine, refused)
              | inr (true, allowed) ↦ elim (Option-cases (lookup key j.store.definitions)) [
                | inl unknown ↦ ground (arith, fine, allowed, unknown)
                | inr (definition, found) ↦
                    let effective = list_effective_activations key scopes at j.store in
                    elim (Result-cases (
                      resolve_selected key definition (select_activation definition effective)
                        j.store)) [
                          | inr (e, failed) ↦ ground (arith, fine, allowed, found, failed)
                          | inl (fresh, resolved) ↦
                              let is_r : use_cached digest cached fresh ≡ r =
                                ground (arith, fine, allowed, found, resolved) in
                              (
                                definition,
                                fresh,
                                allowed,
                                found,
                                ap digest (sym is_r) ∙ use_cached-digest digest cached fresh,
                                selected-Resolves key definition effective j.store fresh resolved,
                                ground (arith, fine, allowed, found, resolved),
                              )
                        ]
              ]
            ]
    ]
