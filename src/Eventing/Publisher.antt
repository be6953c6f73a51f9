-- ===== src/Eventing/Publisher.antt =====
-- packages/platform-modules/eventing-outbox/src/publisher.ts, `createOutboxPublisher`.
-- For each claimed row the transport's answer is given, and the two times the clock shows.
pub mod Counts
use ai_crm_step.Base.{
  ℕ, zero, suc, String, ◌+◌, ◌-◌, ◌*◌, Bool, true, false, not, ◌||◌, List, [], ◌∷◌, Option, none,
  some, ◌==◌, ltb, leb, if◌then◌else◌, length, any, get_elem?,
}
use ai_crm_step.Base.Result.{Result, ok, err, ◌>>=◌, ◌>>◌, throw_if}
use ai_crm_step.Eventing.Types.{
  ErrorCode, conflict, invalid_input, not_found, operation_denied, storage_unavailable,
  handler_timeout, Failure, eventing, foreign, OutboxRecord,
}
use ai_crm_step.Eventing.Store.{Store, claim_outbox, mark_outbox_published, mark_outbox_failure}

pub record PublisherOptions : Type 0 where
  pub batch_size : ℕ
  pub claim_lease_seconds : ℕ
  pub max_attempts : ℕ
  pub backoff_seconds : List ℕ

pub record PublishBatchResult : Type 0 where
  pub claimed : ℕ
  pub published : ℕ
  pub retained : ℕ
  pub isolated : ℕ

-- What the transport does with one row, and the clock behind it.
pub record Delivery : Type 0 where
  pub sent : Result Failure (Unit {0})
  pub marked_at : ℕ
  pub due_from : ℕ

unfoldable pub create_outbox_publisher : PublisherOptions → Result Failure PublisherOptions
create_outbox_publisher o = do
  throw_if (ltb o.batch_size 1 || ltb 1000 o.batch_size) (eventing invalid_input false)
  throw_if (ltb o.claim_lease_seconds 1) (eventing invalid_input false)
  throw_if (ltb o.max_attempts 1 || ltb 16 o.max_attempts) (eventing invalid_input false)
  throw_if (not (length o.backoff_seconds == o.max_attempts - 1)) (eventing invalid_input false)
  throw_if (any (λ s. ltb s 1 || ltb 86_400 s) o.backoff_seconds) (eventing invalid_input false)
  ok o

abbrev pub code_text : Failure → String
code_text (eventing conflict retryable) = "eventing_conflict"
code_text (eventing invalid_input retryable) = "eventing_invalid_input"
code_text (eventing not_found retryable) = "eventing_not_found"
code_text (eventing operation_denied retryable) = "eventing_operation_denied"
code_text (eventing storage_unavailable retryable) = "eventing_storage_unavailable"
code_text (eventing handler_timeout retryable) = "eventing_handler_timeout"
code_text foreign = "publish_failed"

abbrev pub unavailable : Failure
unavailable = eventing storage_unavailable true

-- `options.backoffSeconds[row.attemptCount - 1] ?? 0`
abbrev pub delay_seconds : PublisherOptions → ℕ → ℕ
delay_seconds o zero = 0
delay_seconds o (suc n) = elim (get_elem? o.backoff_seconds n) [ none ↦ 0 | some s ↦ s ]

abbrev pub text_or_empty : Option String → String
text_or_empty none = ""
text_or_empty (some s) = s

-- How one row ends: published, retained for a retry, or isolated.
pub data RowEnd : Type 0 where
  published_row retained_row isolated_row : RowEnd

-- One round of the loop. The token of a claimed row is always there.
unfoldable pub publish_row :
    PublisherOptions → Delivery → OutboxRecord → Store → Result Failure RowEnd × Store
publish_row o d row st = elim d.sent [
  | ok confirmed ↦
      let (marked, st') =
        mark_outbox_published row.message_id (text_or_empty row.claim_token) d.marked_at st in
      (if marked then ok published_row else err unavailable, st')
  | err e ↦
      let exhausted = leb o.max_attempts row.attempt_count in
      let (marked, st') =
        mark_outbox_failure row.message_id (text_or_empty row.claim_token) d.marked_at
          (d.due_from + delay_seconds o row.attempt_count * 1000) (code_text e) exhausted st in
      (
        if marked then ok (if exhausted then isolated_row else retained_row) else err unavailable,
        st',
      )
]

abbrev pub count_row : RowEnd → PublishBatchResult → PublishBatchResult
count_row published_row r = record r { published = r.published + 1 }
count_row retained_row r = record r { retained = r.retained + 1 }
count_row isolated_row r = record r { isolated = r.isolated + 1 }

-- The loop over the claimed rows; `deliver` says how the delivery of each row goes.
unfoldable pub publish_rows :
    PublisherOptions
    → (OutboxRecord → Delivery)
    → List OutboxRecord
    → PublishBatchResult
    → Store
    → Result Failure PublishBatchResult × Store
publish_rows o deliver [] r st = (ok r, st)
publish_rows o deliver (row ∷ rows) r st =
    let (ended, st') = publish_row o (deliver row) row st in
    elim ended [ err e ↦ (err e, st') | ok e ↦ publish_rows o deliver rows (count_row e r) st' ]

-- The clock is past the first lease: before it the source's bound is negative, and here 0.
unfoldable pub publish_batch :
    PublisherOptions
    → ℕ
    → (ℕ → String)
    → (OutboxRecord → Delivery)
    → Store
    → Result Failure PublishBatchResult × Store
publish_batch o at token deliver st =
    let (rows, st') = claim_outbox at (at - o.claim_lease_seconds * 1000) o.batch_size token st in
    publish_rows o deliver rows
      (record { claimed = length rows; published = 0; retained = 0; isolated = 0 }) st'
