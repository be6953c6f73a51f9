-- ===== src/Configuration/Store/Exclusive.antt =====
-- memory-store.ts: the calls of a store, and that they keep its activations apart.
use ai_crm_step.Base.{
  ℕ, ◌≤◌, String, Bool, true, false, ◌≡◌, subst, List, [], ◌∷◌, ◌++◌, Option, none, some, leb, any,
  All, arith, Option-cases, inl, inr,
}
use ai_crm_step.Base.Eq.{string_key}
use ai_crm_step.Base.Dict.{lookup, insert}
use ai_crm_step.Base.Result.{Result, ok, err, Result-cases}
use ai_crm_step.Configuration.{
  ConfigurationError, DictionaryItem, ParameterActivation, ParameterActivationTermination,
  ConfigurationInvalidationEvent,
}
use ai_crm_step.Configuration.Store.{
  Outcome, ConfigurationStore, once, write_draft, release_draft, write_definition, release_value,
  end_of_time, overlaps, add_activation, can_terminate, terminate_found, find_activation, Write,
  save_dictionary_draft, publish_dictionary, register_parameter, publish_parameter_value, activate,
  terminate_activation, perform, commit_once,
}
use ai_crm_step.Configuration.Store.Collision.{
  Terminations, AreApart, AreTimely, AreApart-snoc, AreApart-insert, AreTimely-insert,
}

-- The activations of a store do not collide, and its terminations lie before the end of time.
pub record IsExclusive (st : ConfigurationStore) : Type 0 where
  pub apart : AreApart st.terminations st.activations
  pub timely : AreTimely st.terminations

-- A termination ends an activation before the last time that its text can name.
unfoldable pub is_timely : Write → Bool
is_timely (terminate_activation a p t effective_to occurred_at e) = leb effective_to end_of_time
is_timely _ = true

-- A step that leaves the activations and their terminations alone.
Leaves : ConfigurationStore → ConfigurationStore → Type 0
Leaves st st' = (st'.activations ≡ st.activations) × (st'.terminations ≡ st.terminations)

Leaves-IsExclusive :
    (st st' : ConfigurationStore) → Leaves st st' → IsExclusive st → IsExclusive st'
unfolding Leaves
Leaves-IsExclusive st st' (same, ended) v = record {
  apart = rw (same, ended) v.apart;
  timely = rw ended v.timely;
}

add_activation-IsExclusive :
    (candidate : ParameterActivation) (event : ConfigurationInvalidationEvent)
    (st st' : ConfigurationStore) (o : Outcome)
    → add_activation candidate event st ≡ ok (o, st')
    → IsExclusive st
    → IsExclusive st'
unfolding add_activation
add_activation-IsExclusive candidate event st st' o h v =
    let free : any (overlaps st.terminations candidate) st.activations ≡ false = ground arith in
    let grown : st'.activations ≡ st.activations ++ candidate ∷ [] = ground arith in
    let same : st'.terminations ≡ st.terminations = ground arith in
    record {
      apart =
          rw (grown, same)
            (AreApart-snoc st.terminations st.activations candidate v.timely free v.apart);
      timely = rw same v.timely;
    }

is_new :
    (terminations : Terminations) (effective_to occurred_at : ℕ) (a : ParameterActivation)
    → can_terminate terminations effective_to occurred_at a ≡ true
    → lookup a.activation_id terminations ≡ none
unfolding can_terminate
is_new terminations effective_to occurred_at a h =
    elim (Option-cases (lookup a.activation_id terminations)) [
      | inl missing ↦ missing
      | inr (t, found) ↦ ground (arith, found)
    ]

terminate_found-IsExclusive :
    (termination_id : String) (effective_to occurred_at : ℕ)
    (event : ConfigurationInvalidationEvent) (found : Option ParameterActivation)
    (st st' : ConfigurationStore) (o : Outcome)
    → effective_to ≤ end_of_time
    → terminate_found termination_id effective_to occurred_at event found st ≡ ok (o, st')
    → IsExclusive st
    → IsExclusive st'
unfolding terminate_found
terminate_found-IsExclusive termination_id effective_to occurred_at event none st st' o early h v =
    ground arith
terminate_found-IsExclusive termination_id effective_to occurred_at event (some a) st st' o early h
      v =
    let t : ParameterActivationTermination = record {
      activation_id = a.activation_id;
      effective_to = effective_to;
      occurred_at = occurred_at;
      parameter_key = a.parameter_key;
      termination_id = termination_id;
    } in
    let can : can_terminate st.terminations effective_to occurred_at a ≡ true = ground arith in
    let new = is_new st.terminations effective_to occurred_at a can in
    let same : st'.activations ≡ st.activations = ground arith in
    let grown : st'.terminations ≡ insert a.activation_id t st.terminations = ground arith in
    record {
      apart =
          rw (same, grown)
            (AreApart-insert st.terminations a.activation_id t new early st.activations v.apart);
      timely = rw grown (AreTimely-insert st.terminations a.activation_id t new early v.timely);
    }

perform-IsExclusive :
    (hash : List DictionaryItem → String) (w : Write) (st st' : ConfigurationStore) (o : Outcome)
    → is_timely w ≡ true
    → perform hash w st ≡ ok (o, st')
    → IsExclusive st
    → IsExclusive st'
unfolding perform is_timely Leaves
perform-IsExclusive hash (save_dictionary_draft draft expected) st st' o early h v =
    Leaves-IsExclusive st st'
      (unfold write_draft in ground arith, unfold write_draft in ground arith) v
perform-IsExclusive hash (publish_dictionary id event expected at) st st' o early h v =
    elim (Option-cases (lookup id st.drafts)) [
      | inl missing ↦ unfold release_draft in ground (arith, missing)
      | inr (draft, found) ↦
          Leaves-IsExclusive st st'
            (
              unfold release_draft in ground (arith, found),
              unfold release_draft in ground (arith, found),
            )
            v
    ]
perform-IsExclusive hash (register_parameter definition) st st' o early h v =
    Leaves-IsExclusive st st'
      (unfold write_definition in ground arith, unfold write_definition in ground arith) v
perform-IsExclusive hash (publish_parameter_value key digest value event at) st st' o early h v =
    Leaves-IsExclusive st st'
      (unfold release_value in ground arith, unfold release_value in ground arith) v
perform-IsExclusive hash (activate a event) st st' o early h v =
    add_activation-IsExclusive a event st st' o h v
perform-IsExclusive hash (terminate_activation a p t effective_to occurred_at event) st st' o early
      h v =
    terminate_found-IsExclusive t effective_to occurred_at event
      (find_activation a p st.activations) st st' o (ground arith) h v

commit_once-IsExclusive_lem :
    (hash : List DictionaryItem → String) (id fingerprint : String) (w : Write)
    (st st' : ConfigurationStore) (o : Outcome) (replayed : Bool)
    → is_timely w ≡ true
    → commit_once hash id fingerprint w st ≡ ok (o, replayed, st')
    → IsExclusive st
    → IsExclusive st'
unfolding commit_once once
commit_once-IsExclusive_lem hash id fingerprint w st st' o replayed early h v =
    elim (Option-cases (lookup id st.receipts)) [
      | inr ((prior, outcome), found) ↦
          let same : st ≡ st' = ground (arith, found) in subst IsExclusive same v
      | inl first ↦ elim (Result-cases (perform hash w st)) [
        | inr (e, failed) ↦ ground (arith, first, failed)
        | inl ((made, written), done) ↦
            let kept = perform-IsExclusive hash w st written made early done v in
            Leaves-IsExclusive written st'
              (unfold Leaves in (ground (arith, first, done), ground (arith, first, done))) kept
      ]
    ]

-- A call of the store: its operation id, the fingerprint of its input, and what it writes.
abbrev pub Operation : Type 0
Operation = String × String × Write

abbrev pub empty_store : ConfigurationStore
empty_store = record {
  drafts = [];
  dictionaries = [];
  definitions = [];
  values = [];
  activations = [];
  terminations = [];
  receipts = [];
  outbox = [];
}

-- The store after a call, which a call that throws leaves as it was.
abbrev pub store_after :
    ConfigurationStore
    → Result ConfigurationError (Outcome × Bool × ConfigurationStore)
    → ConfigurationStore
store_after st (ok (o, replayed, st')) = st'
store_after st (err e) = st

unfoldable pub run :
    (List DictionaryItem → String) → List Operation → ConfigurationStore → ConfigurationStore
run hash [] st = st
run hash ((id, fingerprint, w) ∷ rest) st =
    run hash rest (store_after st (commit_once hash id fingerprint w st))

pub empty-IsExclusive : IsExclusive empty_store
unfolding lookup
empty-IsExclusive = record { apart = tt; timely = λ id t found. ground arith }

pub run-IsExclusive :
    (hash : List DictionaryItem → String) (operations : List Operation) (st : ConfigurationStore)
    → All (λ (operation : Operation). is_timely operation.2 ≡ true) operations
    → IsExclusive st
    → IsExclusive (run hash operations st)
unfolding run
run-IsExclusive hash [] st early v = v
run-IsExclusive hash ((id, fingerprint, w) ∷ rest) st (now, early) v =
    elim (Result-cases (commit_once hash id fingerprint w st)) [
      | inr (e, failed) ↦ rw failed (run-IsExclusive hash rest st early v)
      | inl ((o, replayed, st'), done) ↦ rw done (
          run-IsExclusive hash rest st' early
            (commit_once-IsExclusive_lem hash id fingerprint w st st' o replayed now done v))
    ]
