-- ===== src/Eventing/Tests.antt =====
-- The theorems of the outbox, the inbox and the jobs at concrete inputs.
use ai_crm_step.Base.{ℕ, Any, ◌-◌, String, true, ◌≡◌, refl, List, [], ◌∷◌, none, some, arith, inl}
use ai_crm_step.Base.Eq.{string_key}
use ai_crm_step.Base.Dict.{lookup, insert}
use ai_crm_step.Base.Result.{ok, err}
use ai_crm_step.Eventing.Publisher.{PublisherOptions, PublishBatchResult, Delivery}
use ai_crm_step.Eventing.Types.{
  event, job, ValidatedMessage, JobEnvelope, InboxReceipt, OutboxRecord, foreign, JobStatus, done,
  duplicate, queued, publishing, outbox_record,
}
use ai_crm_step.Eventing.Store.{
  Store, create_job, append_outbox, claim_rows, create_inbox_receipt, find_inbox_receipt, claimable,
  claim_outbox, find_job_by_idempotency_key, mark_outbox_published, mark_outbox_failure,
}
use ai_crm_step.Eventing.Store.Claims.{Claim, run_claim, run_claims, claim_outbox_exclusive}
use ai_crm_step.Eventing.Store.Marks.{IsMarked, IsPublished, IsFailed, marks-IsMarked}
use ai_crm_step.Base.Sort.{sort}
use ai_crm_step.Base.Pattern.{is_identifier}
use ai_crm_step.Eventing.Core.{
  matches, create_and_append, consume_in_transaction, run_handler, Handler, finished, failed,
  Consumption, consume, submit_job, job_of,
}
use ai_crm_step.Eventing.Core.Once.{consume_all, consume_once}
use ai_crm_step.Eventing.Core.Submit.{submit_job_again}

abbrev empty : Store
empty = record { outbox = []; inbox = []; jobs = []; isolations = [] }

abbrev message_of : String → ValidatedMessage
message_of digest = record {
  headers = record {
    message_kind = event;
    message_type = "party.created";
    message_version = 1;
    producer = "party";
    occurred_at = 1000;
    correlation_id = "c";
    causation_id = none;
    traceparent = none;
    tracestate = none;
  };
  message_id = "m1";
  available_at = 1000;
  serialized = "{}";
  payload_sha256 = digest;
}

abbrev call_of : String → Consumption
call_of digest = record {
  attempt = 1;
  consumer = "mail.sender";
  message = message_of digest;
  timeout_ms = 500;
  isolation_id = "00000000-0000-4000-8000-000000000000";
  now = 2000;
}

abbrev handler : Handler
handler = record {
  kind = event;
  message_type = "party.created";
  message_version = 1;
  recheck = none;
  handle = finished tt;
}

-- The same handler on a bad day.
abbrev broken : Handler
broken = record {
  kind = event;
  message_type = "party.created";
  message_version = 1;
  recheck = none;
  handle = failed foreign;
}

abbrev between : List (Consumption × Handler)
between = (call_of "d2", handler) ∷ []

abbrev after_all : Store
after_all = consume_all between (consume (call_of "d1") handler empty).1

-- A message that was handled, and delivered with another payload, is a duplicate for a handler
-- that would fail.
consume_once_example : consume (call_of "d1") broken after_all ≡ (ok duplicate, after_all)
unfolding consume is_identifier matches find_inbox_receipt lookup consume_in_transaction run_handler
    create_inbox_receipt insert
consume_once_example =
    consume_once (call_of "d1") handler empty done between (call_of "d1") broken refl refl refl refl
      refl refl

-- The receipt that the first delivery wrote.
abbrev receipt : InboxReceipt
receipt = record {
  message_id = "m1";
  consumer = "mail.sender";
  payload_sha256 = "d1";
  completed_at = 2000;
}

abbrev received : Store
received = record empty { inbox = (("m1", "mail.sender"), receipt) ∷ [] }

abbrev job_message : ValidatedMessage
job_message = record (message_of "d1") {
  headers = record (message_of "d1").headers { message_kind = job };
}

abbrev envelope : JobEnvelope
envelope = record { job_id = "m1"; idempotency_key = "k1"; timeout_ms = 1000 }

abbrev first_answer : String × JobStatus
first_answer = ("m1", queued)

submit_job_again_example :
    submit_job job_message envelope (submit_job job_message envelope empty).1
    ≡ (ok ("m1", queued), (submit_job job_message envelope empty).1)
unfolding submit_job find_job_by_idempotency_key create_and_append create_job append_outbox lookup
    insert
submit_job_again_example = submit_job_again job_message envelope empty ("m1", queued) refl

-- Another job with the idempotency key of a first one.
abbrev other_message : ValidatedMessage
other_message = record job_message { message_id = "m2"; payload_sha256 = "d2" }

abbrev with_first_job : Store
with_first_job = record empty { jobs = ("m1", job_of job_message envelope) ∷ [] }

abbrev due : Store
due = record empty { outbox = ("m1", outbox_record (message_of "d1")) ∷ [] }

-- A claim at 5000, one at 5500 between, and one at 6000 with a lease that reaches back to 4000.
abbrev claim_at : ℕ → Claim
claim_at t = record { at = t; stale_before = t - 2000; limit = 10; token = λ n. "t" }

claim_outbox_exclusive_example :
    ¬ Any
      (λ row. row.message_id ≡ "m1")
      (run_claim
        (claim_at 6000)
        (run_claims (claim_at 5500 ∷ []) (run_claim (claim_at 5000) due).1)).0
unfolding claim_outbox claim_rows claimable sort lookup
claim_outbox_exclusive_example =
    claim_outbox_exclusive (claim_at 5000) due "m1" (claim_at 5500 ∷ []) (claim_at 6000)
      (refl, (refl, tt)) (inl refl) (ground arith, tt) (ground arith)

-- The row of a claim with the token "t1", and a mark by another token.
abbrev claimed : Store
claimed = record empty {
  outbox =
      (
        "m1",
        record (outbox_record (message_of "d1")) {
          status = publishing;
          claim_token = some "t1";
          claimed_at = some 5000;
        },
      )
      ∷ [];
}

marks_example :
    IsMarked "m1" "t2" (IsPublished 6000) claimed (mark_outbox_published "m1" "t2" 6000 claimed)
    × IsMarked "m1" "t2"
        (IsFailed 6000 7000 "publish_failed" true)
        claimed
        (mark_outbox_failure "m1" "t2" 6000 7000 "publish_failed" true claimed)
marks_example = marks-IsMarked "m1" "t2" 6000 7000 "publish_failed" true claimed

abbrev publishing_options : PublisherOptions
publishing_options = record {
  batch_size = 10;
  claim_lease_seconds = 1;
  max_attempts = 2;
  backoff_seconds = 5 ∷ [];
}

-- The transport refuses every message.
abbrev refusing : OutboxRecord → Delivery
refusing row = record { sent = err foreign; marked_at = 5001; due_from = 5002 }

abbrev report : PublishBatchResult
report = record { claimed = 1; published = 0; retained = 1; isolated = 0 }
