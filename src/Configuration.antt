-- ===== src/Configuration.antt =====
-- packages/platform-modules/business-configuration/src/types.ts and errors.ts: dictionaries and
-- parameters. A timestamp is its number of milliseconds, of the years 1970 to 9999: the code
-- compares canonical ISO texts, which are ordered as their times in those years. The texts of years
-- before 0 or after 9999, which `date` also accepts, are longer and not so ordered; they are left
-- out.
pub mod Store
pub mod Service
mod Tests
use ai_crm_step.Base.{ℕ, String, Bool, List, Option}

-- `BusinessConfigurationError`, by its code.
pub data ConfigurationError : Type 0 where
  invalid_input denied missing not_found : ConfigurationError
  operation_conflict overlap unavailable : ConfigurationError

-- A number is the text that `JSON.stringify` gives for it.
pub data ConfigurationValue : Type 0 where
  boolean : Bool → ConfigurationValue
  number string : String → ConfigurationValue

pub record DictionaryItem : Type 0 where
  pub code : String
  pub enabled : Bool
  pub label : String
  pub order : ℕ

pub record DictionaryDraft : Type 0 where
  pub dictionary_id : String
  pub items : List DictionaryItem
  pub owner_module : String
  pub revision : ℕ
  pub updated_at : ℕ

pub record DictionaryRelease : Type 0 where
  pub dictionary_id : String
  pub items : List DictionaryItem
  pub owner_module : String
  pub content_digest : String
  pub published_at : ℕ
  pub release_version : ℕ

pub record ParameterScopeDefinition : Type 0 where
  pub priority : ℕ
  pub scope_type : String

pub data MissingPolicy : Type 0 where
  fail_closed use_default : MissingPolicy

pub data ValueType : Type 0 where
  boolean_type integer_type number_type string_type : ValueType

-- The schema is its canonical text.
pub record ParameterDefinition : Type 0 where
  pub allowed_scopes : List ParameterScopeDefinition
  pub default_value : Option ConfigurationValue
  pub missing_policy : MissingPolicy
  pub owner_module : String
  pub parameter_key : String
  pub value_schema : String
  pub value_type : ValueType

pub record ParameterValueRelease : Type 0 where
  pub content_digest : String
  pub parameter_key : String
  pub published_at : ℕ
  pub value : ConfigurationValue
  pub value_version : ℕ

pub record ParameterScope : Type 0 where
  pub scope_reference : String
  pub scope_type : String

pub record ParameterActivation : Type 0 where
  pub activation_id : String
  pub effective_from : ℕ
  pub effective_to : Option ℕ
  pub parameter_key : String
  pub scope : ParameterScope
  pub value_version : ℕ

pub record ParameterActivationTermination : Type 0 where
  pub activation_id : String
  pub effective_to : ℕ
  pub occurred_at : ℕ
  pub parameter_key : String
  pub termination_id : String

pub data EventType : Type 0 where
  activation_changed dictionary_published parameter_published : EventType

pub record ConfigurationInvalidationEvent : Type 0 where
  pub event_id : String
  pub event_type : EventType
  pub occurred_at : ℕ
  pub resource_id : String
  pub version : ℕ
