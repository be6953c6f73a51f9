-- ===== src/Eventing/Core.antt =====
-- packages/platform-modules/eventing-outbox/src/service.ts, `createEventingCore`.
-- Messages are given as validated. The handler's answers are given with the call: what the recheck
-- of the authoritative state and what `handle` come to, each within the time allowed or not.
pub mod Receipts
pub mod Isolated
pub mod Once
pub mod Submit
use ai_crm_step.Base.{
  ℕ, String, Bool, true, false, ◌&&◌, ◌||◌, not, List, [], ◌∷◌, Option, none, some, ◌===◌, ◌==◌,
  ltb, leb, if◌then◌else◌,
}
use ai_crm_step.Base.Pattern.{is_lower_uuid, is_identifier, text_length}
use ai_crm_step.Base.Result.{Result, ok, err, ◌>>=◌, ◌>>◌, throw_if}
use ai_crm_step.Eventing.Types.{
  conflict, invalid_input, not_found, handler_timeout, Failure, eventing, foreign, MessageKind,
  event, job, Headers, JobEnvelope, ValidatedMessage, JobStatus, queued, processing, cancelled,
  completed, rejected, JobRecord, IsolationReason, payload_conflict, unsupported_message,
  authoritative_state_rejected, ConsumptionResult, done, duplicate, job_cancelled, state_rejected,
  conflicting, unsupported, same_kind, outbox_record,
}
use ai_crm_step.Eventing.Store.{
  Store, clash, transaction, append_outbox, get_outbox, find_inbox_receipt, create_inbox_receipt,
  create_isolation, find_job, find_job_by_idempotency_key, create_job, claim_job, cancel_queued_job,
  complete_job, isolate_job,
}

-- How a promise of the handler ends: with a value, with an error, or after the timeout.
pub data Work (A : Type 0) : Type 0 where
  finished : A → Work A
  failed : Failure → Work A
  expired : Work A

-- `withTimeout`
abbrev pub with_timeout : {A : Type 0} → Work A → Result Failure A
with_timeout (finished a) = ok a
with_timeout (failed e) = err e
with_timeout expired = err (eventing handler_timeout true)

pub record Handler : Type 0 where
  pub kind : MessageKind
  pub message_type : String
  pub message_version : ℕ
  -- `none` where the handler has no recheck.
  pub recheck : Option (Work Bool)
  pub handle : Work (Unit {0})

-- One call of `consume`: its request, the clock and the id source.
pub record Consumption : Type 0 where
  pub attempt : ℕ
  pub consumer : String
  pub message : ValidatedMessage
  pub timeout_ms : ℕ
  pub isolation_id : String
  pub now : ℕ

unfoldable pub matches : Handler → ValidatedMessage → Bool
matches h m =
    same_kind h.kind m.headers.message_kind
    && ((h.message_type === m.headers.message_type)
        && (h.message_version == m.headers.message_version))

abbrev pub isolation_result : IsolationReason → ConsumptionResult
isolation_result payload_conflict = conflicting
isolation_result unsupported_message = unsupported
isolation_result authoritative_state_rejected = state_rejected

unfoldable pub isolate :
    Consumption → IsolationReason → Store → Result Failure (ConsumptionResult × Store)
isolate c reason st =
    if is_lower_uuid c.isolation_id
    then ok (
      isolation_result reason,
      create_isolation
          (record {
            isolation_id = c.isolation_id;
            message_id = c.message.message_id;
            consumer = c.consumer;
            payload_sha256 = c.message.payload_sha256;
            reason = reason;
            attempt = c.attempt;
            isolated_at = c.now;
          })
          st,
    )
    else err (eventing invalid_input false)

abbrev pub receipt_result :
    Consumption → ConsumptionResult → Store → Result Failure (ConsumptionResult × Store)
receipt_result c result st = do
  (written, st') ←
      create_inbox_receipt
        (record {
          message_id = c.message.message_id;
          consumer = c.consumer;
          payload_sha256 = c.message.payload_sha256;
          completed_at = c.now;
        })
        st
  ok (result, st')

-- A job that cannot be claimed, by its status.
unfoldable pub unclaimed_as :
    Consumption → JobStatus → Store → Result Failure (ConsumptionResult × Store)
unclaimed_as c cancelled st = receipt_result c job_cancelled st
unclaimed_as c completed st = receipt_result c job_cancelled st
unclaimed_as c rejected st = receipt_result c state_rejected st
unclaimed_as c queued st = err (eventing conflict true)
unclaimed_as c processing st = err (eventing conflict true)

unfoldable pub unclaimed :
    Consumption → Option JobRecord → Store → Result Failure (ConsumptionResult × Store)
unclaimed c none st = err (eventing conflict true)
unclaimed c (some current) st = unclaimed_as c current.status st

-- The handler runs only if the recheck allows it.
abbrev pub handle_allowed : Handler → Bool → Result Failure Bool
handle_allowed h false = ok false
handle_allowed h true = do handled ← with_timeout h.handle; ok true

-- The recheck of the authoritative state and, if that allows it, the handler.
unfoldable pub authoritative : Handler → Result Failure Bool
authoritative h = elim h.recheck [
  | none ↦ ok false
  | some recheck ↦ do allowed ← with_timeout recheck; handle_allowed h allowed
]

-- The record of a job whose state was rejected, and its receipt.
unfoldable pub reject_job : Consumption → Store → Result Failure (ConsumptionResult × Store)
reject_job c st = do
  (result, st') ← isolate c authoritative_state_rejected st
  receipt_result c result st'

-- A claimed job whose authoritative state was asked.
unfoldable pub settle_job :
    Consumption → JobRecord → Bool → Store → Result Failure (ConsumptionResult × Store)
settle_job c row false st =
    let (isolated, st1) = isolate_job row.job_id st in
    if isolated then reject_job c st1 else err (eventing conflict true)
settle_job c row true st =
    let (finished_job, st1) = complete_job c.message.message_id st in
    if finished_job then receipt_result c done st1 else err (eventing conflict true)

-- The rest of a job's handling, by what `claimJob` came to.
unfoldable pub run_claimed :
    Consumption → Handler → Option JobRecord → Store → Result Failure (ConsumptionResult × Store)
run_claimed c h none st = unclaimed c (find_job c.message.message_id st) st
run_claimed c h (some row) st = do allowed ← authoritative h; settle_job c row allowed st

unfoldable pub run_job : Consumption → Handler → Store → Result Failure (ConsumptionResult × Store)
run_job c h st =
    let (claimed, st1) = claim_job c.message.message_id st in run_claimed c h claimed st1

-- The handler's part of the transaction, for a message that has no receipt.
unfoldable pub run_handler :
    Consumption → Handler → MessageKind → Store → Result Failure (ConsumptionResult × Store)
run_handler c h event st = do handled ← with_timeout h.handle; receipt_result c done st
run_handler c h job st = elim (find_job c.message.message_id st) [
  | none ↦ isolate c payload_conflict st
  | some existing ↦
      if existing.fingerprint === c.message.payload_sha256
      then run_job c h st
      else isolate c payload_conflict st
]

-- The body of `withInboxTransaction`.
unfoldable pub consume_in_transaction :
    Consumption → Handler → Store → Result Failure (ConsumptionResult × Store)
consume_in_transaction c h st = elim (find_inbox_receipt c.message.message_id c.consumer st) [
  | none ↦ run_handler c h h.kind st
  | some raced ↦
      if raced.payload_sha256 === c.message.payload_sha256
      then ok (duplicate, st)
      else isolate c payload_conflict st
]

unfoldable pub consume : Consumption → Handler → Store → Result Failure ConsumptionResult × Store
consume c h st =
    if not (is_identifier c.consumer && leb (text_length c.consumer) 128)
    then (err (eventing invalid_input false), st)
    else if ltb c.attempt 1 || ltb 1000 c.attempt
    then (err (eventing invalid_input false), st)
    else if ltb c.timeout_ms 100 || ltb 900_000 c.timeout_ms
    then (err (eventing invalid_input false), st)
    else if not (matches h c.message)
    then transaction (isolate c unsupported_message) st
    else elim (find_inbox_receipt c.message.message_id c.consumer st) [
      | none ↦ transaction (consume_in_transaction c h) st
      | some receipt ↦
          if receipt.payload_sha256 === c.message.payload_sha256
          then (ok duplicate, st)
          else transaction (isolate c payload_conflict) st
    ]

-- `appendEvent` answers with the message id; the status is always `pending`.
unfoldable pub append_event : ValidatedMessage → Store → Result Failure String × Store
append_event m st = elim (append_outbox (outbox_record m) st) [
  | ok (written, st') ↦ (ok m.message_id, st')
  | err e ↦ elim (get_outbox m.message_id st) [
    | none ↦ (err e, st)
    | some row ↦
        if row.payload_sha256 === m.payload_sha256 then (ok m.message_id, st) else (err e, st)
  ]
]

abbrev pub job_of : ValidatedMessage → JobEnvelope → JobRecord
job_of m envelope = record {
  job_id = envelope.job_id;
  idempotency_key = envelope.idempotency_key;
  fingerprint = m.payload_sha256;
  status = queued;
  cancel_reason = none;
}

-- The work of the transaction of `submitJob`.
unfoldable pub create_and_append :
    ValidatedMessage → JobEnvelope → Store → Result Failure (Unit {0} × Store)
create_and_append m envelope st = do
  (created, st1) ← create_job (job_of m envelope) st
  append_outbox (outbox_record m) st1

-- The `catch` of `submitJob`: another submission of the same job may have come first.
abbrev pub recovered :
    ValidatedMessage → Failure → Option JobRecord → Result Failure (String × JobStatus)
recovered m e none = err e
recovered m e (some raced) =
    if raced.fingerprint === m.payload_sha256 then ok (raced.job_id, raced.status) else err e

unfoldable pub submit_job :
    ValidatedMessage → JobEnvelope → Store → Result Failure (String × JobStatus) × Store
submit_job m envelope st = elim (find_job_by_idempotency_key envelope.idempotency_key st) [
  | some prior ↦
      if prior.fingerprint === m.payload_sha256
      then (ok (prior.job_id, prior.status), st)
      else (err clash, st)
  | none ↦ elim (create_and_append m envelope st) [
    | ok (written, st') ↦ (ok (envelope.job_id, queued), st')
    | err e ↦ (recovered m e (find_job_by_idempotency_key envelope.idempotency_key st), st)
  ]
]

unfoldable pub cancel_job : String → String → Store → Result Failure (String × JobStatus) × Store
cancel_job id reason st =
    let (row, st') = cancel_queued_job id reason st in
    elim row [
      | none ↦ (err (eventing not_found false), st')
      | some cancelled_row ↦ (ok (id, cancelled_row.status), st')
    ]
