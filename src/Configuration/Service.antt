-- ===== src/Configuration/Service.antt =====
-- packages/platform-modules/business-configuration/src/service.ts. An input is given as parsed. The
-- authorizer and the audit answer each request, the store's lookups always answer, and a
-- fingerprint is the digest of a command's input.
pub mod Audited
pub mod Resolution
use ai_crm_step.Base.{
  ℕ, ◌+◌, String, Bool, true, false, not, ◌&&◌, ◌||◌, List, [], ◌∷◌, ◌++◌, Option, none, some,
  ◌===◌, ◌==◌, ltb, leb, length, any, if◌then◌else◌,
}
use ai_crm_step.Base.Eq.{string_key}
use ai_crm_step.Base.Dict.{lookup}
use ai_crm_step.Base.Sort.{sort}
use ai_crm_step.Base.Result.{Result, ok, err}
use ai_crm_step.Base.Call.{Call, ◌>>=◌, ◌>>◌, return, refuse_if}
use ai_crm_step.Configuration.{
  ConfigurationError, invalid_input, denied, missing, not_found, operation_conflict, unavailable,
  ConfigurationValue, DictionaryItem, DictionaryDraft, DictionaryRelease, ParameterScopeDefinition,
  MissingPolicy, fail_closed, use_default, ParameterDefinition, ParameterValueRelease,
  ParameterScope, ParameterActivation, ConfigurationInvalidationEvent,
}
use ai_crm_step.Configuration.Store.{
  Outcome, ConfigurationStore, Write, save_dictionary_draft, publish_dictionary, register_parameter,
  publish_parameter_value, activate, terminate_activation, commit_once, same_scope,
  list_effective_activations, find_dictionary_release, find_parameter_value,
}

pub data Action : Type 0 where
  manage publish_action activate_action read : Action

pub record AuthorizationRequest : Type 0 where
  pub action : Action
  pub owner_module : Option String
  pub resource_id : String

pub data AuditResult : Type 0 where
  attempted denied_result failed succeeded : AuditResult

-- What the authorizer decides, or `none` where it fails, and whether the audit takes a record.
pub record Ports : Type 0 where
  pub authorizer : AuthorizationRequest → Option Bool
  pub audit : AuditResult → Bool

-- The records that a call has left, and the store.
pub record Journal : Type 0 where
  pub audits : List AuditResult
  pub store : ConfigurationStore

abbrev pub ServiceCall : Type 0 → Type 0
ServiceCall A = Call ConfigurationError Journal A

abbrev pub throw : {A : Type 0} → ConfigurationError → ServiceCall A
throw e j = (err e, j)

abbrev pub required : {A : Type 0} → ConfigurationError → Option A → ServiceCall A
required e none = throw e
required e (some a) = return a

-- A lookup in the store.
abbrev pub reading : {A : Type 0} → (ConfigurationStore → A) → ServiceCall A
reading look j = (ok (look j.store), j)

-- The operations of a store, as `work` of `mutate`.
abbrev pub Work : Type 0
Work = ConfigurationStore → Result ConfigurationError (Outcome × Bool × ConfigurationStore)

module _ (ports : Ports) where
  unfoldable pub authorize : AuthorizationRequest → ServiceCall Bool
  authorize request = required unavailable (ports.authorizer request)

  -- `record`
  unfoldable pub record_audit : AuditResult → ServiceCall (Unit {0})
  record_audit result j =
      if ports.audit result
      then (ok tt, record j { audits = j.audits ++ result ∷ [] })
      else (err unavailable, j)

  unfoldable pub authorize_before_lookup : Action → String → ServiceCall (Unit {0})
  authorize_before_lookup action resource_id = do
    allowed ← authorize (record { action = action; owner_module = none; resource_id = resource_id })
    if allowed then return tt else (record_audit denied_result >> throw denied)

  -- What `mutate` does with the answer of its work.
  unfoldable pub settle :
      Result ConfigurationError (Outcome × Bool × ConfigurationStore) → ServiceCall (Outcome × Bool)
  settle (err e) j = (record_audit failed >> throw e) j
  settle (ok (outcome, replayed, st)) j =
      (record_audit succeeded >> return (outcome, replayed)) (record j { store = st })

  unfoldable pub mutate : Action → String → Option String → Work → ServiceCall (Outcome × Bool)
  mutate action resource_id owner_module work = do
    allowed ←
        authorize
          (record { action = action; owner_module = owner_module; resource_id = resource_id })
    if allowed
        then (record_audit attempted >> λ j. settle (work j.store) j)
        else (record_audit denied_result >> throw denied)

  unfoldable pub find_definition : String → ServiceCall ParameterDefinition
  find_definition key = do
    found ← reading (λ st. lookup key st.definitions)
    required not_found found

  -- What the code takes from elsewhere for a command: its id and fingerprint, and the digest.
  module _ (hash : List DictionaryItem → String) (operation_id fingerprint : String) where
    abbrev committing : Write → Work
    committing write = commit_once hash operation_id fingerprint write

    unfoldable pub is_owned_by : String → Option DictionaryDraft → Bool
    is_owned_by owner none = false
    is_owned_by owner (some draft) = draft.owner_module === owner

    -- The draft has the time of the clock; its revision is not read.
    unfoldable pub save_draft : DictionaryDraft → ℕ → ServiceCall (Outcome × Bool)
    unfolding is_owned_by
    save_draft draft expected_revision = do
      if expected_revision == 0 then return tt else (do
        authorize_before_lookup manage draft.dictionary_id
        current ← reading (λ st. lookup draft.dictionary_id st.drafts)
        refuse_if (not (is_owned_by draft.owner_module current)) operation_conflict)
      mutate manage draft.dictionary_id (some draft.owner_module)
          (committing (save_dictionary_draft draft expected_revision))

    unfoldable pub publish_draft :
        String → ℕ → ConfigurationInvalidationEvent → ℕ → ServiceCall (Outcome × Bool)
    publish_draft dictionary_id expected_revision event published_at = do
      authorize_before_lookup publish_action dictionary_id
      found ← reading (λ st. lookup dictionary_id st.drafts)
      draft ← required not_found found
      mutate publish_action dictionary_id (some draft.owner_module)
          (committing (publish_dictionary dictionary_id event expected_revision published_at))

    unfoldable pub register : ParameterDefinition → ServiceCall (Outcome × Bool)
    register definition =
        mutate manage definition.parameter_key (some definition.owner_module)
          (committing (register_parameter definition))

    -- `valid` is the test of a value's type and of the compiled schema.
    unfoldable pub publish_value :
        (ParameterDefinition → ConfigurationValue → Bool)
        → String
        → String
        → ConfigurationValue
        → ConfigurationInvalidationEvent
        → ℕ
        → ServiceCall (Outcome × Bool)
    publish_value valid parameter_key content_digest value event published_at = do
      authorize_before_lookup publish_action parameter_key
      definition ← find_definition parameter_key
      refuse_if (not (valid definition value)) invalid_input
      mutate publish_action parameter_key (some definition.owner_module) (
          committing
            (publish_parameter_value parameter_key content_digest value event published_at))

    unfoldable pub allows_scope : ParameterDefinition → ParameterScope → Bool
    allows_scope definition scope =
        any (λ (allowed : ParameterScopeDefinition). allowed.scope_type === scope.scope_type)
          definition.allowed_scopes

    abbrev ends_in_time : ParameterActivation → Bool
    ends_in_time a = elim a.effective_to [ none ↦ true | some end ↦ not (leb end a.effective_from) ]

    unfoldable pub activate_parameter :
        ParameterActivation → ConfigurationInvalidationEvent → ServiceCall (Outcome × Bool)
    unfolding allows_scope
    activate_parameter activation event = do
      authorize_before_lookup activate_action activation.parameter_key
      definition ← find_definition activation.parameter_key
      refuse_if (not (allows_scope definition activation.scope) || not (ends_in_time activation))
          invalid_input
      mutate activate_action activation.parameter_key (some definition.owner_module)
          (committing (activate activation event))

    unfoldable pub terminate_parameter_activation :
        String
        → String
        → String
        → ℕ
        → ℕ
        → ConfigurationInvalidationEvent
        → ServiceCall (Outcome × Bool)
    terminate_parameter_activation activation_id parameter_key termination_id effective_to now
          event =
        do
          authorize_before_lookup activate_action parameter_key
          definition ← find_definition parameter_key
          refuse_if (ltb effective_to now) invalid_input
          mutate activate_action parameter_key (some definition.owner_module) (
              committing (
                terminate_activation activation_id parameter_key termination_id effective_to now
                  event))

  -- The right to read, which leaves no record where it is denied.
  unfoldable pub authorize_read : String → ServiceCall (Unit {0})
  authorize_read resource_id = do
    allowed ← authorize (record { action = read; owner_module = none; resource_id = resource_id })
    refuse_if (not allowed) denied

  unfoldable pub get_dictionary_release : String → ℕ → ServiceCall DictionaryRelease
  get_dictionary_release dictionary_id version = do
    authorize_read dictionary_id
    found ← reading (find_dictionary_release dictionary_id version)
    required not_found found

-- The source of a resolved parameter: the default, or an activation with its scope and version.
pub data Source : Type 0 where
  default : Source
  activation : ParameterActivation → Source

pub record ResolvedParameter : Type 0 where
  pub parameter_key : String
  pub source : Source
  pub value : ConfigurationValue

-- `priorities.get(type) ?? -1`, one higher. The last entry of a type counts.
unfoldable pub priority_rank : List ParameterScopeDefinition → String → ℕ
priority_rank [] scope_type = 0
priority_rank (d ∷ ds) scope_type =
    let rest = priority_rank ds scope_type in
    if rest == 0 && d.scope_type === scope_type then d.priority + 1 else rest

abbrev pub first {ℓ} : {A : Type ℓ} → List A → Option A
first [] = none
first (x ∷ xs) = some x

-- The activation of the highest priority.
unfoldable pub select_activation :
    ParameterDefinition → List ParameterActivation → Option ParameterActivation
unfolding priority_rank
select_activation definition activations =
    let rank =
      λ (a : ParameterActivation). priority_rank definition.allowed_scopes a.scope.scope_type in
    first (sort (λ a b. leb (rank b) (rank a)) activations)

unfoldable pub resolve_default :
    String → ParameterDefinition → Result ConfigurationError ResolvedParameter
resolve_default key definition = elim definition.missing_policy [
  | fail_closed ↦ err missing
  | use_default ↦ elim definition.default_value [
    | none ↦ err missing
    | some value ↦ ok (record { parameter_key = key; source = default; value = value })
  ]
]

unfoldable pub resolve_selected :
    String
    → ParameterDefinition
    → Option ParameterActivation
    → ConfigurationStore
    → Result ConfigurationError ResolvedParameter
unfolding resolve_default
resolve_selected key definition none st = resolve_default key definition
resolve_selected key definition (some a) st = elim (find_parameter_value key a.value_version st) [
  | none ↦ err missing
  | some release ↦ ok (record { parameter_key = key; source = activation a; value = release.value })
]

unfoldable pub distinct_types : List ParameterScope → Bool
distinct_types [] = true
distinct_types (scope ∷ scopes) =
    not (any (λ (other : ParameterScope). other.scope_type === scope.scope_type) scopes)
    && distinct_types scopes

-- The answer of the cache as `cachedResolution` takes it, if the digests agree.
unfoldable pub use_cached :
    (ResolvedParameter → String) → Option ResolvedParameter → ResolvedParameter → ResolvedParameter
use_cached digest none result = result
use_cached digest (some cached) result = if digest cached === digest result then cached else result

unfoldable pub resolve_parameter :
    (ResolvedParameter → String)
    → Ports
    → Option ResolvedParameter
    → String
    → List ParameterScope
    → ℕ
    → ServiceCall ResolvedParameter
unfolding use_cached distinct_types
resolve_parameter digest ports cached key scopes at = do
  refuse_if (ltb 20 (length scopes) || not (distinct_types scopes)) invalid_input
  authorize_read ports key
  definition ← find_definition ports key
  activations ← reading (list_effective_activations key scopes at)
  result ←
      λ j. (resolve_selected key definition (select_activation definition activations) j.store, j)
  return (use_cached digest cached result)
