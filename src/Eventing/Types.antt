-- ===== src/Eventing/Types.antt =====
-- packages/platform-modules/eventing-outbox/src/types.ts, store.ts and errors.ts.
-- A validated envelope is given in its typed form; a `Date` is its number of milliseconds.
use ai_crm_step.Base.{ℕ, String, Bool, true, false, Option, none, ◌==◌}

pub data ErrorCode : Type 0 where
  conflict invalid_input not_found operation_denied : ErrorCode
  storage_unavailable handler_timeout : ErrorCode

-- A thrown value: an `EventingError` with its code and `retryable` flag, or any other.
pub data Failure : Type 0 where
  eventing : ErrorCode → Bool → Failure
  foreign : Failure

pub data MessageKind : Type 0 where
  event job : MessageKind

-- What the outbox keeps of a message and never changes.
pub record Headers : Type 0 where
  pub message_kind : MessageKind
  pub message_type : String
  pub message_version : ℕ
  pub producer : String
  pub occurred_at : ℕ
  pub correlation_id : String
  pub causation_id : Option String
  pub traceparent : Option String
  pub tracestate : Option String

-- The part of a job's envelope that the core reads.
pub record JobEnvelope : Type 0 where
  pub job_id : String
  pub idempotency_key : String
  pub timeout_ms : ℕ

-- The digest is that of the serialized envelope.
pub record ValidatedMessage : Type 0 where
  pub headers : Headers
  pub message_id : String
  pub available_at : ℕ
  pub serialized : String
  pub payload_sha256 : String

pub data OutboxStatus : Type 0 where
  pending publishing published isolated : OutboxStatus

pub record OutboxRecord : Type 0 where
  pub message_id : String
  pub headers : Headers
  pub available_at : ℕ
  pub payload : String
  pub payload_sha256 : String
  pub attempt_count : ℕ
  pub status : OutboxStatus
  pub claim_token : Option String
  pub claimed_at : Option ℕ
  pub published_at : Option ℕ
  pub isolated_at : Option ℕ
  pub last_error_code : Option String

pub record InboxReceipt : Type 0 where
  pub message_id : String
  pub consumer : String
  pub payload_sha256 : String
  pub completed_at : ℕ

-- `rejected` is the source's `isolated`.
pub data JobStatus : Type 0 where
  queued processing cancelled completed rejected : JobStatus

pub record JobRecord : Type 0 where
  pub job_id : String
  pub idempotency_key : String
  pub fingerprint : String
  pub status : JobStatus
  pub cancel_reason : Option String

pub data IsolationReason : Type 0 where
  payload_conflict unsupported_message authoritative_state_rejected : IsolationReason

pub record IsolationRecord : Type 0 where
  pub isolation_id : String
  pub message_id : String
  pub consumer : String
  pub payload_sha256 : String
  pub reason : IsolationReason
  pub attempt : ℕ
  pub isolated_at : ℕ

-- `job_cancelled` is the reason of a skipped job that is finished already.
pub data ConsumptionResult : Type 0 where
  done duplicate job_cancelled state_rejected conflicting unsupported : ConsumptionResult

abbrev pub same_kind : MessageKind → MessageKind → Bool
same_kind event event = true
same_kind job job = true
same_kind _ _ = false

abbrev reason_index : IsolationReason → ℕ
reason_index payload_conflict = 0
reason_index unsupported_message = 1
reason_index authoritative_state_rejected = 2

abbrev pub same_reason : IsolationReason → IsolationReason → Bool
same_reason r s = reason_index r == reason_index s

-- `outboxRecord`
abbrev pub outbox_record : ValidatedMessage → OutboxRecord
outbox_record m = record {
  message_id = m.message_id;
  headers = m.headers;
  available_at = m.available_at;
  payload = m.serialized;
  payload_sha256 = m.payload_sha256;
  attempt_count = 0;
  status = pending;
  claim_token = none;
  claimed_at = none;
  published_at = none;
  isolated_at = none;
  last_error_code = none;
}
