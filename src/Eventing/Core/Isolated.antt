-- ===== src/Eventing/Core/Isolated.antt =====
-- service.ts, `isolate` and the calls of it in `consume`: what an isolated message leaves.
use ai_crm_step.Base.{
  Bool, true, false, ◌≡◌, refl, inl, inr, [], ◌∷◌, Option, none, some, arith, Any, any_iff,
  Option-cases, Bool-cases, ◌===◌, eq_iff, any, ◌↔◌,
}
use ai_crm_step.Base.Eq.{Key, string_key}
use ai_crm_step.Base.Dict.{Dict, insert, values}
use ai_crm_step.Base.Result.{Result, ok, err, Result-cases}
use ai_crm_step.Base.Pattern.{is_lower_uuid}
use ai_crm_step.Eventing.Types.{
  Failure, queued, processing, cancelled, completed, rejected, event, job, MessageKind, JobStatus,
  IsolationRecord, JobRecord, ConsumptionResult, done, duplicate, job_cancelled, state_rejected,
  conflicting, unsupported, IsolationReason, payload_conflict, unsupported_message,
  authoritative_state_rejected, same_reason,
}
use ai_crm_step.Eventing.Store.{
  Store, create_isolation, same_isolation, create_inbox_receipt, find_job, claim_job, complete_job,
  isolate_job,
}
use ai_crm_step.Eventing.Core.{
  Handler, Consumption, isolate, isolation_result, with_timeout, receipt_result, unclaimed_as,
  unclaimed, reject_job, settle_job, authoritative, run_claimed, run_handler, run_job,
  consume_in_transaction,
}
use ai_crm_step.Eventing.Core.Receipts.{receipt_of, is_settled}

-- The outbox, the inbox and the jobs are those of another store.
abbrev pub SameRecords : Store → Store → Type 0
SameRecords st st' = (st'.outbox ≡ st.outbox) × ((st'.inbox ≡ st.inbox) × (st'.jobs ≡ st.jobs))

-- An isolation of this message for this consumer, with this payload and for this reason.
abbrev pub IsIsolation : Consumption → IsolationReason → IsolationRecord → Type 0
IsIsolation c reason item =
    (item.message_id ≡ c.message.message_id)
    × ((item.consumer ≡ c.consumer)
        × ((item.payload_sha256 ≡ c.message.payload_sha256) × (item.reason ≡ reason)))

-- The store keeps such an isolation.
abbrev pub IsIsolated : Consumption → IsolationReason → Store → Type 0
IsIsolated c reason st = Any (IsIsolation c reason) (values st.isolations)

Any-insert {ℓ} :
    {K : Type ℓ} ⦃e : Key K⦄ (P : IsolationRecord → Type 0) (k : K) (v : IsolationRecord)
    (m : Dict K IsolationRecord)
    → P v
    → Any P (values (insert k v m))
unfolding insert
Any-insert P k v [] h = inl h
Any-insert ⦃e⦄ P k v ((j, w) ∷ m) h = elim (Bool-cases (e.same j k)) [
  | inl same ↦ rw same (inl h)
  | inr other ↦ rw other (inr (Any-insert P k v m h))
]

same_reason_iff : (r s : IsolationReason) → (same_reason r s ≡ true) ↔ (r ≡ s)
same_reason_iff payload_conflict payload_conflict = ground arith
same_reason_iff payload_conflict unsupported_message = ground arith
same_reason_iff payload_conflict authoritative_state_rejected = ground arith
same_reason_iff unsupported_message payload_conflict = ground arith
same_reason_iff unsupported_message unsupported_message = ground arith
same_reason_iff unsupported_message authoritative_state_rejected = ground arith
same_reason_iff authoritative_state_rejected payload_conflict = ground arith
same_reason_iff authoritative_state_rejected unsupported_message = ground arith
same_reason_iff authoritative_state_rejected authoritative_state_rejected = ground arith

abbrev row_of : Consumption → IsolationReason → IsolationRecord
row_of c reason = record {
  isolation_id = c.isolation_id;
  message_id = c.message.message_id;
  consumer = c.consumer;
  payload_sha256 = c.message.payload_sha256;
  reason = reason;
  attempt = c.attempt;
  isolated_at = c.now;
}

same_isolation_iff :
    (c : Consumption) (reason : IsolationReason) (item : IsolationRecord)
    → (same_isolation item (row_of c reason) ≡ true) ↔ IsIsolation c reason item
same_isolation_iff c reason item = ground (
  arith,
  eq_iff item.message_id c.message.message_id,
  eq_iff item.consumer c.consumer,
  eq_iff item.payload_sha256 c.message.payload_sha256,
  same_reason_iff item.reason reason,
)

create_isolation-IsIsolated :
    (c : Consumption) (reason : IsolationReason) (st : Store)
    → IsIsolated c reason (create_isolation (row_of c reason) st)
      × SameRecords st (create_isolation (row_of c reason) st)
unfolding create_isolation
create_isolation-IsIsolated c reason st =
    let there = any (λ item. same_isolation item (row_of c reason)) (values st.isolations) in
    elim (Bool-cases there) [
      | inl known ↦
          rw (create_isolation, known)
            (
              (any_iff _ (IsIsolation c reason) (same_isolation_iff c reason)
                    (values st.isolations)).0
                  known,
              (refl, (refl, refl)),
            )
      | inr new ↦
          rw (create_isolation, new)
            (
              Any-insert (IsIsolation c reason) c.isolation_id (row_of c reason) st.isolations
                  (refl, (refl, (refl, refl))),
              (refl, (refl, refl)),
            )
    ]

-- Of work begun in the first store: what ends as conflicting or unsupported has isolated the
-- message for that reason, and nothing else.
abbrev pub Isolates : Consumption → Store → Result Failure (ConsumptionResult × Store) → Type 0
Isolates c st0 (err e) = Unit
Isolates c st0 (ok (conflicting, st)) = IsIsolated c payload_conflict st × SameRecords st0 st
Isolates c st0 (ok (unsupported, st)) = IsIsolated c unsupported_message st × SameRecords st0 st
Isolates c st0 (ok (done, st)) = Unit
Isolates c st0 (ok (duplicate, st)) = Unit
Isolates c st0 (ok (job_cancelled, st)) = Unit
Isolates c st0 (ok (state_rejected, st)) = Unit

pub Isolates_lem :
    (c : Consumption) (st0 : Store) (reason : IsolationReason) (st : Store)
    → is_settled (isolation_result reason) ≡ false
    → Isolates c st0 (ok (isolation_result reason, st))
    → IsIsolated c reason st × SameRecords st0 st
Isolates_lem c st0 payload_conflict st unsettled h = h
Isolates_lem c st0 unsupported_message st unsettled h = h
Isolates_lem c st0 authoritative_state_rejected st unsettled h = absurd cc

module _ (c : Consumption) where
  pub isolate-Isolates :
      (reason : IsolationReason) (st : Store) → Isolates c st (isolate c reason st)
  unfolding isolate
  isolate-Isolates reason st = elim (Bool-cases (is_lower_uuid c.isolation_id)) [
    | inr invalid ↦ rw invalid tt
    | inl valid ↦ rw valid (written reason)
  ]
    where
      written :
          (reason : IsolationReason)
          → Isolates c st (ok (isolation_result reason, create_isolation (row_of c reason) st))
      written payload_conflict = create_isolation-IsIsolated c payload_conflict st
      written unsupported_message = create_isolation-IsIsolated c unsupported_message st
      written authoritative_state_rejected = tt

  module _ (st0 : Store) where
    done-Isolates : (st : Store) → Isolates c st0 (receipt_result c done st)
    unfolding create_inbox_receipt
    done-Isolates st = ground arith

    cancelled-Isolates : (st : Store) → Isolates c st0 (receipt_result c job_cancelled st)
    unfolding create_inbox_receipt
    cancelled-Isolates st = ground arith

    rejected-Isolates : (st : Store) → Isolates c st0 (receipt_result c state_rejected st)
    unfolding create_inbox_receipt
    rejected-Isolates st = ground arith

    unclaimed_as-Isolates :
        (status : JobStatus) (st : Store) → Isolates c st0 (unclaimed_as c status st)
    unfolding unclaimed_as
    unclaimed_as-Isolates cancelled st = cancelled-Isolates st
    unclaimed_as-Isolates completed st = cancelled-Isolates st
    unclaimed_as-Isolates rejected st = rejected-Isolates st
    unclaimed_as-Isolates queued st = tt
    unclaimed_as-Isolates processing st = tt

    reject_job-Isolates : (st : Store) → Isolates c st0 (reject_job c st)
    unfolding reject_job isolate
    reject_job-Isolates st = elim (Bool-cases (is_lower_uuid c.isolation_id)) [
      | inl valid ↦ rw valid (rejected-Isolates _)
      | inr invalid ↦ rw invalid tt
    ]

    settle_job-Isolates :
        (row : JobRecord) (allowed : Bool) (st : Store)
        → Isolates c st0 (settle_job c row allowed st)
    unfolding settle_job
    settle_job-Isolates row false st = elim (Bool-cases (isolate_job row.job_id st).0) [
      | inl changed ↦ rw changed (reject_job-Isolates _)
      | inr lost ↦ rw lost tt
    ]
    settle_job-Isolates row true st = elim (Bool-cases (complete_job c.message.message_id st).0) [
      | inl changed ↦ rw changed (done-Isolates _)
      | inr lost ↦ rw lost tt
    ]

    run_claimed-Isolates :
        (h : Handler) (claimed : Option JobRecord) (st : Store)
        → Isolates c st0 (run_claimed c h claimed st)
    unfolding run_claimed unclaimed
    run_claimed-Isolates h none st = elim (Option-cases (find_job c.message.message_id st)) [
      | inl gone ↦ rw gone tt
      | inr (current, found) ↦ rw found (unclaimed_as-Isolates current.status st)
    ]
    run_claimed-Isolates h (some row) st = elim (Result-cases (authoritative h)) [
      | inl (allowed, e) ↦ rw e (settle_job-Isolates row allowed st)
      | inr (f, e) ↦ rw e tt
    ]

  run_handler-Isolates :
      (h : Handler) (kind : MessageKind) (st : Store) → Isolates c st (run_handler c h kind st)
  unfolding run_handler run_job
  run_handler-Isolates h event st = elim (Result-cases (with_timeout h.handle)) [
    | inl (handled, e) ↦ rw e (done-Isolates st st)
    | inr (f, e) ↦ rw e tt
  ]
  run_handler-Isolates h job st = elim (Option-cases (find_job c.message.message_id st)) [
    | inl missing ↦ rw (run_handler, missing) (isolate-Isolates payload_conflict st)
    | inr (row, found) ↦ elim (Bool-cases (row.fingerprint === c.message.payload_sha256)) [
      | inl same ↦
          rw (run_handler, found, same)
            (run_claimed-Isolates st h (claim_job c.message.message_id st).0
              (claim_job c.message.message_id st).1)
      | inr other ↦ rw (run_handler, found, other) (isolate-Isolates payload_conflict st)
    ]
  ]

  pub consume_in_transaction-Isolates :
      (h : Handler) (st : Store) → Isolates c st (consume_in_transaction c h st)
  unfolding consume_in_transaction
  consume_in_transaction-Isolates h st = elim (Option-cases (receipt_of c st)) [
    | inl first ↦ rw (consume_in_transaction, first) (run_handler-Isolates h h.kind st)
    | inr (raced, found) ↦ elim (Bool-cases (raced.payload_sha256 === c.message.payload_sha256)) [
      | inl same ↦ rw (consume_in_transaction, found, same) tt
      | inr other ↦ rw (consume_in_transaction, found, other) (isolate-Isolates payload_conflict st)
    ]
  ]
