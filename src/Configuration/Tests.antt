-- ===== src/Configuration/Tests.antt =====
-- The theorems of the business configuration at concrete inputs.
use ai_crm_step.Base.{
  ℕ, ◌+◌, ◌≤◌, String, Bool, true, false, ◌≡◌, refl, ◌⊎◌, List, [], ◌∷◌, Option, none, some, length,
  arith,
}
use ai_crm_step.Base.Eq.{string_key}
use ai_crm_step.Base.Dict.{lookup, insert}
use ai_crm_step.Base.Sort.{sort}
use ai_crm_step.Base.Result.{ok}
use ai_crm_step.Base.Call.{◌>>=◌}
use ai_crm_step.Configuration.{
  DictionaryItem, DictionaryDraft, DictionaryRelease, number, use_default, integer_type,
  ParameterDefinition, ParameterScope, ParameterActivation, ConfigurationInvalidationEvent,
  activation_changed,
}
use ai_crm_step.Configuration.Store.{
  Outcome, ConfigurationStore, parameter_registered, keeps_codes, save_dictionary_draft,
  publish_dictionary, register_parameter, publish_parameter_value, activate, terminate_activation,
  commit_once, list_effective_activations, find_dictionary_release,
}
use ai_crm_step.Configuration.Store.Exclusive.{is_timely, Operation, empty_store, run}
use ai_crm_step.Configuration.Store.Unambiguous.{run_unambiguous}
use ai_crm_step.Configuration.Store.Releases.{run-keeps_codes}
use ai_crm_step.Configuration.Service.{
  manage, attempted, succeeded, Ports, Journal, Work, default, ResolvedParameter, record_audit,
  authorize, settle, mutate, authorize_read, find_definition, select_activation, resolve_selected,
  resolve_parameter,
}
use ai_crm_step.Configuration.Service.Audited.{mutate_authorized}
use ai_crm_step.Configuration.Service.Resolution.{Resolves, resolve_parameter-Resolves}

abbrev hash : List DictionaryItem → String
hash items = "h"

abbrev definition : ParameterDefinition
definition = record {
  allowed_scopes = record { priority = 1; scope_type = "unit" } ∷ [];
  default_value = some (number "5");
  missing_policy = use_default;
  owner_module = "crm";
  parameter_key = "limit";
  value_schema = "{}";
  value_type = integer_type;
}

abbrev event : ConfigurationInvalidationEvent
event = record {
  event_id = "e1";
  event_type = activation_changed;
  occurred_at = 1;
  resource_id = "limit";
  version = 0;
}

abbrev unit : ParameterScope
unit = record { scope_reference = "u1"; scope_type = "unit" }

abbrev activation_from : String → ℕ → ParameterActivation
activation_from id from = record {
  activation_id = id;
  effective_from = from;
  effective_to = none;
  parameter_key = "limit";
  scope = unit;
  value_version = 1;
}

abbrev operations : List Operation
operations =
    ("o1", "f1", register_parameter definition)
    ∷ ("o2", "f2", publish_parameter_value "limit" "d" (number "7") event 2)
    ∷ ("o3", "f3", activate (activation_from "a1" 10) event)
    ∷ ("o4", "f4", terminate_activation "a1" "limit" "t1" 20 5 event)
    ∷ ("o5", "f5", activate (activation_from "a2" 20) event)
    ∷ ("o6", "f6", activate (activation_from "a3" 15) event)
    ∷ []

-- The first activation is ended, the second follows it, and the third is refused.
length-run : length (run hash operations empty_store).activations ≡ 2
unfolding run commit_once lookup insert
length-run = refl

run_unambiguous_example :
    length (list_effective_activations "limit" (unit ∷ []) 25 (run hash operations empty_store)) ≤ 1
unfolding is_timely
run_unambiguous_example =
    run_unambiguous hash operations "limit" unit 25
      (refl, (refl, (refl, (refl, (refl, (refl, tt)))))) (omega arith)

abbrev item : String → DictionaryItem
item code = record { code = code; enabled = true; label = code; order = 1 }

abbrev draft_of : List DictionaryItem → DictionaryDraft
draft_of items = record {
  dictionary_id = "colors";
  items = items;
  owner_module = "crm";
  revision = 0;
  updated_at = 1;
}

abbrev publications : List Operation
publications =
    ("o1", "f1", save_dictionary_draft (draft_of (item "red" ∷ [])) 0)
    ∷ ("o2", "f2", publish_dictionary "colors" event 1 3)
    ∷ ("o3", "f3", save_dictionary_draft (draft_of (item "blue" ∷ item "red" ∷ [])) 1)
    ∷ ("o4", "f4", publish_dictionary "colors" event 2 4)
    ∷ []

abbrev release_of : ℕ → List DictionaryItem → DictionaryRelease
release_of version items = record {
  dictionary_id = "colors";
  items = items;
  owner_module = "crm";
  content_digest = "h";
  published_at = version + 2;
  release_version = version;
}

run-keeps_codes_example :
    keeps_codes (item "blue" ∷ item "red" ∷ []) (release_of 1 (item "red" ∷ [])) ≡ true
unfolding run commit_once lookup insert find_dictionary_release
run-keeps_codes_example =
    run-keeps_codes hash publications "colors" 1 2 (release_of 1 (item "red" ∷ []))
      (release_of 2 (item "blue" ∷ item "red" ∷ [])) (omega arith) refl refl

abbrev registered : ConfigurationStore
registered = record empty_store {
  definitions = ("limit", definition) ∷ [];
  receipts = ("o1", ("f1", parameter_registered definition)) ∷ [];
}

abbrev ports : Ports
ports = record { authorizer = λ request. some true; audit = λ result. true }

abbrev work : Work
work = commit_once hash "o1" "f1" (register_parameter definition)

abbrev journal : Journal
journal = record { audits = []; store = empty_store }

abbrev settled : Journal
settled = record { audits = attempted ∷ succeeded ∷ []; store = registered }

mutate_authorized_example :
    (registered ≡ empty_store)
    ⊎ ((◌≡◌ {A = Option Bool} (some true) (some true))
        × (◌≡◌ {A = Bool} true true)
        × ((o : Outcome) × (replayed : Bool) × (work empty_store ≡ ok (o, replayed, registered))))
unfolding mutate authorize record_audit settle ◌>>=◌ commit_once lookup insert
mutate_authorized_example =
    mutate_authorized ports manage "limit" (some "crm") work journal settled
      (ok (parameter_registered definition, false)) refl

abbrev defaulted : ResolvedParameter
defaulted = record { parameter_key = "limit"; source = default; value = number "5" }

resolve_parameter-Resolves_example :
    (d : ParameterDefinition) × (fresh : ResolvedParameter) × (◌≡◌ {A = Option Bool}
      (some true)
      (some true))
    × (lookup "limit" registered.definitions ≡ some d)
    × (◌≡◌ {A = String} "x" "x")
    × Resolves "limit" d
        (list_effective_activations "limit" (unit ∷ []) 25 registered)
        registered
        fresh
    × (settled ≡ settled)
unfolding resolve_parameter authorize_read authorize find_definition ◌>>=◌ lookup
    list_effective_activations select_activation sort resolve_selected
resolve_parameter-Resolves_example =
    resolve_parameter-Resolves (λ r. "x") ports none "limit" (unit ∷ []) 25 settled settled
      defaulted refl
