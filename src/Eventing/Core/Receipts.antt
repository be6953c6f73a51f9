-- ===== src/Eventing/Core/Receipts.antt =====
-- service.ts, the steps of `consume`: which of them write a receipt, and that none loses one.
use ai_crm_step.Base.{
  String, Bool, true, false, ◌≡◌, refl, ◌∙◌, inl, inr, Option, none, some, arith, Option-cases,
  Bool-cases, ◌===◌,
}
use ai_crm_step.Base.Eq.{string_key, pair_key}
use ai_crm_step.Base.Dict.{lookup, insert, has, lookup-insert_self, lookup-insert_ne}
use ai_crm_step.Base.Result.{Result, ok, err, Result-cases}
use ai_crm_step.Base.Pattern.{is_lower_uuid}
use ai_crm_step.Eventing.Types.{
  queued, processing, cancelled, completed, rejected, Failure, MessageKind, event, job, JobStatus,
  IsolationRecord, InboxReceipt, JobRecord, ConsumptionResult, done, duplicate, job_cancelled,
  state_rejected, conflicting, unsupported, IsolationReason, payload_conflict,
}
use ai_crm_step.Eventing.Store.{
  Store, isolate_job, complete_job, claim_job, find_job, find_inbox_receipt, create_inbox_receipt,
  create_isolation,
}
use ai_crm_step.Eventing.Core.{
  Handler, Consumption, isolation_result, with_timeout, unclaimed_as, run_claimed, reject_job,
  isolate, receipt_result, unclaimed, authoritative, settle_job, run_job, run_handler,
  consume_in_transaction,
}

-- The receipt that the inbox holds for the message and the consumer of a call.
abbrev pub receipt_of : Consumption → Store → Option InboxReceipt
receipt_of c st = find_inbox_receipt c.message.message_id c.consumer st

-- The message has a receipt for this payload.
abbrev pub IsReceived : Consumption → Store → Type 0
IsReceived c st =
    (r : InboxReceipt) × (receipt_of c st ≡ some r) × (r.payload_sha256 ≡ c.message.payload_sha256)

-- The results of a call that is over for good: the message needs no further delivery.
abbrev pub is_settled : ConsumptionResult → Bool
is_settled done = true
is_settled job_cancelled = true
is_settled state_rejected = true
is_settled duplicate = false
is_settled conflicting = false
is_settled unsupported = false

-- Every receipt of the first store is one of the second.
abbrev pub Keeps : Store → Store → Type 0
Keeps st st' =
    (key : String × String) (r : InboxReceipt)
    → lookup key st.inbox ≡ some r
    → lookup key st'.inbox ≡ some r

-- Of work begun in the first store: what settles its message leaves the receipt for it, and no
-- receipt is lost.
abbrev pub Settles : Consumption → Store → Result Failure (ConsumptionResult × Store) → Type 0
Settles c st0 (err e) = Unit
Settles c st0 (ok (r, st)) = (is_settled r ≡ true → IsReceived c st) × Keeps st0 st

module _ (c : Consumption) (st0 : Store) where
  same_inbox : (st st' : Store) → st'.inbox ≡ st.inbox → Keeps st0 st → Keeps st0 st'
  same_inbox st st' h kept = λ key r found. rw h (kept key r found)

  claim_job-Keeps : (id : String) (st : Store) → Keeps st0 st → Keeps st0 (claim_job id st).1
  unfolding claim_job
  claim_job-Keeps id st = same_inbox st (claim_job id st).1 (ground arith)

  complete_job-Keeps : (id : String) (st : Store) → Keeps st0 st → Keeps st0 (complete_job id st).1
  unfolding complete_job
  complete_job-Keeps id st = same_inbox st (complete_job id st).1 (ground arith)

  isolate_job-Keeps : (id : String) (st : Store) → Keeps st0 st → Keeps st0 (isolate_job id st).1
  unfolding isolate_job
  isolate_job-Keeps id st = same_inbox st (isolate_job id st).1 (ground arith)

  create_isolation-Keeps :
      (row : IsolationRecord) (st : Store) → Keeps st0 st → Keeps st0 (create_isolation row st)
  unfolding create_isolation
  create_isolation-Keeps row st = same_inbox st (create_isolation row st) (ground arith)

  insert-Keeps :
      (key : String × String) (r : InboxReceipt) (st : Store)
      → lookup key st.inbox ≡ none
      → Keeps st0 st
      → Keeps st0 (record st { inbox = insert key r st.inbox })
  insert-Keeps key r st absent kept = λ other old found.
      let held = kept other old found in lookup-insert_ne key other r st.inbox (λ e. cc) ∙ held

  receipt_result-Settles :
      (r : ConsumptionResult) (st : Store) → Keeps st0 st → Settles c st0 (receipt_result c r st)
  unfolding create_inbox_receipt find_inbox_receipt
  receipt_result-Settles r st kept =
      elim (Option-cases (lookup (c.message.message_id, c.consumer) st.inbox)) [
        | inr (old, found) ↦ rw (found, has) tt
        | inl absent ↦
            let row : InboxReceipt = record {
              message_id = c.message.message_id;
              consumer = c.consumer;
              payload_sha256 = c.message.payload_sha256;
              completed_at = c.now;
            } in
            rw (absent, has)
              (
                (λ settled. (row, lookup-insert_self _ _ st.inbox, refl)),
                insert-Keeps (c.message.message_id, c.consumer) row st absent kept,
              )
      ]

  pub isolate-Settles :
      (reason : IsolationReason) (st : Store)
      → is_settled (isolation_result reason) ≡ false
      → Keeps st0 st
      → Settles c st0 (isolate c reason st)
  unfolding isolate
  isolate-Settles reason st h kept = elim (Bool-cases (is_lower_uuid c.isolation_id)) [
    | inl valid ↦ rw valid ((λ settled. cc), create_isolation-Keeps _ st kept)
    | inr invalid ↦ rw invalid tt
  ]

  unclaimed_as-Settles :
      (status : JobStatus) (st : Store) → Keeps st0 st → Settles c st0 (unclaimed_as c status st)
  unfolding unclaimed_as
  unclaimed_as-Settles cancelled st kept = receipt_result-Settles job_cancelled st kept
  unclaimed_as-Settles completed st kept = receipt_result-Settles job_cancelled st kept
  unclaimed_as-Settles rejected st kept = receipt_result-Settles state_rejected st kept
  unclaimed_as-Settles queued st kept = tt
  unclaimed_as-Settles processing st kept = tt

  reject_job-Settles : (st : Store) → Keeps st0 st → Settles c st0 (reject_job c st)
  unfolding reject_job isolate
  reject_job-Settles st kept = elim (Bool-cases (is_lower_uuid c.isolation_id)) [
    | inl valid ↦
        rw valid (receipt_result-Settles state_rejected _ (create_isolation-Keeps _ st kept))
    | inr invalid ↦ rw invalid tt
  ]

  settle_job-Settles :
      (row : JobRecord) (allowed : Bool) (st : Store)
      → Keeps st0 st
      → Settles c st0 (settle_job c row allowed st)
  unfolding settle_job
  settle_job-Settles row false st kept = elim (Bool-cases (isolate_job row.job_id st).0) [
    | inl changed ↦
        rw changed
          (reject_job-Settles (isolate_job row.job_id st).1 (isolate_job-Keeps row.job_id st kept))
    | inr lost ↦ rw lost tt
  ]
  settle_job-Settles row true st kept =
      let id = c.message.message_id in
      elim (Bool-cases (complete_job id st).0) [
        | inl changed ↦
            rw changed
              (receipt_result-Settles done (complete_job id st).1 (complete_job-Keeps id st kept))
        | inr lost ↦ rw lost tt
      ]

  run_claimed-Settles :
      (h : Handler) (claimed : Option JobRecord) (st : Store)
      → Keeps st0 st
      → Settles c st0 (run_claimed c h claimed st)
  unfolding run_claimed unclaimed
  run_claimed-Settles h none st kept = elim (Option-cases (find_job c.message.message_id st)) [
    | inl gone ↦ rw gone tt
    | inr (current, found) ↦ rw found (unclaimed_as-Settles current.status st kept)
  ]
  run_claimed-Settles h (some row) st kept = elim (Result-cases (authoritative h)) [
    | inl (allowed, e) ↦ rw e (settle_job-Settles row allowed st kept)
    | inr (f, e) ↦ rw e tt
  ]

  run_handler-Settles :
      (h : Handler) (kind : MessageKind) (st : Store)
      → Keeps st0 st
      → Settles c st0 (run_handler c h kind st)
  unfolding run_handler run_job
  run_handler-Settles h event st kept = elim (Result-cases (with_timeout h.handle)) [
    | inl (handled, e) ↦ rw e (receipt_result-Settles done st kept)
    | inr (f, e) ↦ rw e tt
  ]
  run_handler-Settles h job st kept =
      let id = c.message.message_id in
      elim (Option-cases (find_job id st)) [
        | inl missing ↦ rw (run_handler, missing) (isolate-Settles payload_conflict st refl kept)
        | inr (row, found) ↦ elim (Bool-cases (row.fingerprint === c.message.payload_sha256)) [
          | inl same ↦
              rw (run_handler, found, same)
                (run_claimed-Settles h (claim_job id st).0 (claim_job id st).1
                  (claim_job-Keeps id st kept))
          | inr other ↦
              rw (run_handler, found, other) (isolate-Settles payload_conflict st refl kept)
        ]
      ]

pub consume_in_transaction-Settles :
    (c : Consumption) (h : Handler) (st : Store) → Settles c st (consume_in_transaction c h st)
unfolding consume_in_transaction
consume_in_transaction-Settles c h st =
    let kept : Keeps st st = λ key r found. found in
    elim (Option-cases (receipt_of c st)) [
      | inl first ↦ rw (consume_in_transaction, first) (run_handler-Settles c st h h.kind st kept)
      | inr (raced, found) ↦ elim (Bool-cases (raced.payload_sha256 === c.message.payload_sha256)) [
        | inl same ↦ rw (consume_in_transaction, found, same) ((λ settled. cc), kept)
        | inr other ↦
            rw (consume_in_transaction, found, other)
              (isolate-Settles c st payload_conflict st refl kept)
      ]
    ]
