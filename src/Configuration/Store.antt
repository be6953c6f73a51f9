-- ===== src/Configuration/Store.antt =====
-- packages/platform-modules/business-configuration/src/memory-store.ts. An operation that throws
-- has written nothing: it is the error alone. What is stored under a key is never changed in place,
-- so that the copies of `structuredClone` are the values themselves.
pub mod Collision
pub mod Exclusive
pub mod Unambiguous
pub mod Releases
use ai_crm_step.Base.{
  ℕ, ◌+◌, String, Bool, true, false, not, ◌&&◌, ◌||◌, List, [], ◌∷◌, ◌++◌, Option, none, some,
  ◌===◌, ◌==◌, ltb, leb, length, any, all, filter, find, map, if◌then◌else◌,
}
use ai_crm_step.Base.Eq.{string_key}
use ai_crm_step.Base.Dict.{Dict, lookup, insert, has}
use ai_crm_step.Base.Result.{Result, ok, err, ◌>>=◌, ◌>>◌, throw_if}
use ai_crm_step.Configuration.{
  ConfigurationError, not_found, operation_conflict, overlap, ConfigurationValue, DictionaryItem,
  DictionaryDraft, DictionaryRelease, ParameterDefinition, ParameterValueRelease, ParameterScope,
  ParameterActivation, ParameterActivationTermination, ConfigurationInvalidationEvent,
}

-- What an operation returns, and what its receipt keeps.
pub data Outcome : Type 0 where
  draft_saved : DictionaryDraft → Outcome
  dictionary_released : DictionaryRelease → Outcome
  parameter_registered : ParameterDefinition → Outcome
  value_released : ParameterValueRelease → Outcome
  parameter_activated : Outcome
  activation_terminated : ParameterActivationTermination → Outcome

pub record ConfigurationStore : Type 0 where
  pub drafts : Dict String DictionaryDraft
  pub dictionaries : Dict String (List DictionaryRelease)
  pub definitions : Dict String ParameterDefinition
  pub values : Dict String (List ParameterValueRelease)
  pub activations : List ParameterActivation
  pub terminations : Dict String ParameterActivationTermination
  pub receipts : Dict String (String × Outcome)
  pub outbox : Dict String ConfigurationInvalidationEvent

abbrev pub Made : Type 0
Made = Result ConfigurationError (Outcome × ConfigurationStore)

-- `replay` before an operation and `save` after it. The answer says whether it was replayed.
unfoldable pub once :
    String
    → String
    → (ConfigurationStore → Made)
    → ConfigurationStore
    → Result ConfigurationError (Outcome × Bool × ConfigurationStore)
once operation_id fingerprint work st = elim (lookup operation_id st.receipts) [
  | some (prior, outcome) ↦
      if prior === fingerprint then ok (outcome, true, st) else err operation_conflict
  | none ↦ do
    made ← work st
    let written = made.1
    ok (
      made.0,
      false,
      record written { receipts = insert operation_id (fingerprint, made.0) written.receipts },
    )
]

abbrev pub list_of {ℓ} : {A : Type ℓ} → Option (List A) → List A
list_of none = []
list_of (some xs) = xs

abbrev revision_of : Option DictionaryDraft → ℕ
revision_of none = 0
revision_of (some draft) = draft.revision

abbrev is_of_other_owner : String → Option DictionaryDraft → Bool
is_of_other_owner owner none = false
is_of_other_owner owner (some draft) = not (draft.owner_module === owner)

-- `saveDictionaryDraft`; the revision of the given draft is not read.
unfoldable pub write_draft : DictionaryDraft → ℕ → ConfigurationStore → Made
write_draft input expected_revision st = do
  let current = lookup input.dictionary_id st.drafts
  throw_if
      (not (revision_of current == expected_revision)
        || is_of_other_owner input.owner_module current)
      operation_conflict
  let draft = record input { revision = expected_revision + 1 }
  ok (draft_saved draft, record st { drafts = insert draft.dictionary_id draft st.drafts })

unfoldable pub includes_code : List DictionaryItem → String → Bool
includes_code items code = any (λ (item : DictionaryItem). item.code === code) items

-- Every code of the release is one of the items'.
unfoldable pub keeps_codes : List DictionaryItem → DictionaryRelease → Bool
unfolding includes_code
keeps_codes items release =
    all (λ (item : DictionaryItem). includes_code items item.code) release.items

-- What `publishDictionary` makes of a draft; `hash` is the digest of the items.
unfoldable pub next_release :
    (List DictionaryItem → String)
    → DictionaryDraft
    → List DictionaryRelease
    → ℕ
    → DictionaryRelease
next_release hash draft releases published_at = record {
  dictionary_id = draft.dictionary_id;
  items = draft.items;
  owner_module = draft.owner_module;
  content_digest = hash draft.items;
  published_at = published_at;
  release_version = length releases + 1;
}

unfoldable pub add_release :
    String
    → List DictionaryRelease
    → DictionaryRelease
    → ConfigurationInvalidationEvent
    → ConfigurationStore
    → ConfigurationStore
add_release dictionary_id releases release event st = record st {
  dictionaries = insert dictionary_id (releases ++ release ∷ []) st.dictionaries;
  outbox = insert event.event_id (record event { version = release.release_version }) st.outbox;
}

unfoldable pub release_draft :
    (List DictionaryItem → String)
    → String
    → ConfigurationInvalidationEvent
    → ℕ
    → ℕ
    → Option DictionaryDraft
    → ConfigurationStore
    → Made
unfolding next_release keeps_codes add_release
release_draft hash dictionary_id event expected_revision published_at none st =
    err operation_conflict
release_draft hash dictionary_id event expected_revision published_at (some draft) st = do
  throw_if (not (draft.revision == expected_revision)) operation_conflict
  let releases = list_of (lookup dictionary_id st.dictionaries)
  throw_if (not (all (keeps_codes draft.items) releases)) operation_conflict
  let release = next_release hash draft releases published_at
  ok (dictionary_released release, add_release dictionary_id releases release event st)

-- `registerParameter`
unfoldable pub write_definition : ParameterDefinition → ConfigurationStore → Made
write_definition definition st = do
  throw_if (has definition.parameter_key st.definitions) operation_conflict
  ok (
    parameter_registered definition,
    record st { definitions = insert definition.parameter_key definition st.definitions },
  )

-- `publishParameterValue`
unfoldable pub release_value :
    String
    → String
    → ConfigurationValue
    → ConfigurationInvalidationEvent
    → ℕ
    → ConfigurationStore
    → Made
release_value parameter_key content_digest value event published_at st = do
  throw_if (not (has parameter_key st.definitions)) not_found
  let releases = list_of (lookup parameter_key st.values)
  let release : ParameterValueRelease = record {
    content_digest = content_digest;
    parameter_key = parameter_key;
    published_at = published_at;
    value = value;
    value_version = length releases + 1;
  }
  ok (
    value_released release,
    record st {
      values = insert parameter_key (releases ++ release ∷ []) st.values;
      outbox = insert event.event_id (record event { version = release.value_version }) st.outbox;
    },
  )

-- The earlier of two ends, where a missing end is none.
abbrev pub earlier_end : Option ℕ → Option ℕ → Option ℕ
earlier_end none terminated = terminated
earlier_end (some end) none = some end
earlier_end (some end) (some terminated) = if ltb terminated end then some terminated else some end

abbrev pub terminated_at : Option ParameterActivationTermination → Option ℕ
terminated_at none = none
terminated_at (some termination) = some termination.effective_to

-- `effectiveEnd`
unfoldable pub effective_end :
    Dict String ParameterActivationTermination → ParameterActivation → Option ℕ
effective_end terminations a =
    earlier_end a.effective_to (terminated_at (lookup a.activation_id terminations))

-- "9999-12-31T23:59:59.999Z"
abbrev pub end_of_time : ℕ
end_of_time = 253402300799999

abbrev pub end_or_last : Option ℕ → ℕ
end_or_last none = end_of_time
end_or_last (some end) = end

unfoldable pub same_scope : ParameterScope → ParameterScope → Bool
same_scope a b = (a.scope_type === b.scope_type) && (a.scope_reference === b.scope_reference)

-- The test of `activate` on a current activation.
unfoldable pub overlaps :
    Dict String ParameterActivationTermination → ParameterActivation → ParameterActivation → Bool
unfolding effective_end same_scope
overlaps terminations candidate current =
    (current.parameter_key === candidate.parameter_key)
    && (same_scope current.scope candidate.scope
        && (ltb current.effective_from (end_or_last candidate.effective_to)
            && ltb candidate.effective_from (end_or_last (effective_end terminations current))))

unfoldable pub has_version : ℕ → List ParameterValueRelease → Bool
has_version version releases =
    any (λ (release : ParameterValueRelease). release.value_version == version) releases

-- `activate`
unfoldable pub add_activation :
    ParameterActivation → ConfigurationInvalidationEvent → ConfigurationStore → Made
unfolding overlaps has_version
add_activation candidate event st = do
  throw_if
      (not (has candidate.parameter_key st.definitions)
        || not (
            has_version candidate.value_version
              (list_of (lookup candidate.parameter_key st.values))))
      not_found
  throw_if (any (overlaps st.terminations candidate) st.activations) overlap
  ok (
    parameter_activated,
    record st {
      activations = st.activations ++ candidate ∷ [];
      outbox = insert event.event_id event st.outbox;
    },
  )

-- The tests of `terminateActivation` on the activation that it found.
unfoldable pub can_terminate :
    Dict String ParameterActivationTermination → ℕ → ℕ → ParameterActivation → Bool
can_terminate terminations effective_to occurred_at a =
    not (has a.activation_id terminations)
    && (not (ltb effective_to occurred_at)
        && (not (leb effective_to a.effective_from)
            && elim a.effective_to [ none ↦ true | some end ↦ not (ltb end effective_to) ]))

unfoldable pub terminate_found :
    String
    → ℕ
    → ℕ
    → ConfigurationInvalidationEvent
    → Option ParameterActivation
    → ConfigurationStore
    → Made
unfolding can_terminate
terminate_found termination_id effective_to occurred_at event none st = err not_found
terminate_found termination_id effective_to occurred_at event (some a) st =
    let termination : ParameterActivationTermination = record {
      activation_id = a.activation_id;
      effective_to = effective_to;
      occurred_at = occurred_at;
      parameter_key = a.parameter_key;
      termination_id = termination_id;
    } in
    if can_terminate st.terminations effective_to occurred_at a
    then ok (
      activation_terminated termination,
      record st {
        terminations = insert a.activation_id termination st.terminations;
        outbox = insert event.event_id event st.outbox;
      },
    )
    else err operation_conflict

unfoldable pub find_activation :
    String → String → List ParameterActivation → Option ParameterActivation
find_activation activation_id parameter_key activations =
    find
      (λ (a : ParameterActivation).
        (a.activation_id === activation_id) && (a.parameter_key === parameter_key))
      activations

-- The operations that write, behind `replay` and `save`.
pub data Write : Type 0 where
  save_dictionary_draft : DictionaryDraft → ℕ → Write
  publish_dictionary : String → ConfigurationInvalidationEvent → ℕ → ℕ → Write
  register_parameter : ParameterDefinition → Write
  publish_parameter_value :
      String → String → ConfigurationValue → ConfigurationInvalidationEvent → ℕ → Write
  activate : ParameterActivation → ConfigurationInvalidationEvent → Write
  terminate_activation : String → String → String → ℕ → ℕ → ConfigurationInvalidationEvent → Write

unfoldable pub perform : (List DictionaryItem → String) → Write → ConfigurationStore → Made
unfolding write_draft release_draft write_definition release_value add_activation terminate_found
    find_activation
perform hash (save_dictionary_draft draft expected_revision) st =
    write_draft draft expected_revision st
perform hash (publish_dictionary dictionary_id event expected_revision published_at) st =
    release_draft hash dictionary_id event expected_revision published_at
      (lookup dictionary_id st.drafts) st
perform hash (register_parameter definition) st = write_definition definition st
perform hash (publish_parameter_value parameter_key content_digest value event published_at) st =
    release_value parameter_key content_digest value event published_at st
perform hash (activate activation event) st = add_activation activation event st
perform hash
      (terminate_activation activation_id parameter_key termination_id effective_to occurred_at
        event)
      st =
    terminate_found termination_id effective_to occurred_at event
      (find_activation activation_id parameter_key st.activations) st

unfoldable pub commit_once :
    (List DictionaryItem → String)
    → String
    → String
    → Write
    → ConfigurationStore
    → Result ConfigurationError (Outcome × Bool × ConfigurationStore)
unfolding once perform
commit_once hash operation_id fingerprint write st =
    once operation_id fingerprint (perform hash write) st

unfoldable pub is_effective :
    Dict String ParameterActivationTermination
    → String
    → List ParameterScope
    → ℕ
    → ParameterActivation
    → Bool
unfolding effective_end same_scope
is_effective terminations parameter_key scopes at a =
    (a.parameter_key === parameter_key)
    && (any (λ candidate. same_scope candidate a.scope) scopes
        && (leb a.effective_from at
            && elim (effective_end terminations a) [ none ↦ true | some end ↦ ltb at end ]))

-- `materialize`
unfoldable pub materialize :
    Dict String ParameterActivationTermination → ParameterActivation → ParameterActivation
unfolding effective_end
materialize terminations a = record a { effective_to = effective_end terminations a }

unfoldable pub list_effective_activations :
    String → List ParameterScope → ℕ → ConfigurationStore → List ParameterActivation
unfolding is_effective materialize
list_effective_activations parameter_key scopes at st =
    map (materialize st.terminations)
      (filter (is_effective st.terminations parameter_key scopes at) st.activations)

unfoldable pub find_dictionary_release : String → ℕ → ConfigurationStore → Option DictionaryRelease
find_dictionary_release dictionary_id version st =
    find (λ (release : DictionaryRelease). release.release_version == version)
      (list_of (lookup dictionary_id st.dictionaries))

unfoldable pub find_parameter_value : String → ℕ → ConfigurationStore → Option ParameterValueRelease
find_parameter_value parameter_key version st =
    find (λ (release : ParameterValueRelease). release.value_version == version)
      (list_of (lookup parameter_key st.values))
