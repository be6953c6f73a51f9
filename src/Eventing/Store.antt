-- ===== src/Eventing/Store.antt =====
-- packages/platform-modules/eventing-outbox/src/memory-store.ts
-- An operation that rejects changes nothing: it is the error alone.
pub mod Claims
pub mod Marks
use ai_crm_step.Base.{
  ℕ, String, ◌+◌, Bool, true, false, ◌&&◌, ◌||◌, not, List, [], ◌∷◌, Option, none, some, ◌===◌,
  ◌==◌, ltb, leb, if◌then◌else◌, any, filter, find, take, is_some,
}
use ai_crm_step.Base.Eq.{string_key, pair_key}
use ai_crm_step.Base.Dict.{Dict, lookup, insert, has, values}
use ai_crm_step.Base.Sort.{sort}
use ai_crm_step.Base.Result.{Result, ok, err}
use ai_crm_step.Eventing.Types.{
  ErrorCode, conflict, storage_unavailable, Failure, eventing, OutboxStatus, pending, publishing,
  published, isolated, OutboxRecord, InboxReceipt, JobStatus, queued, processing, cancelled,
  completed, rejected, JobRecord, IsolationRecord, same_reason,
}

pub record Store : Type 0 where
  pub outbox : Dict String OutboxRecord
  -- Keyed by message and consumer; neither text holds the NUL by which the source joins them.
  pub inbox : Dict (String × String) InboxReceipt
  pub jobs : Dict String JobRecord
  pub isolations : Dict String IsolationRecord

abbrev pub clash : Failure
clash = eventing conflict false

-- `transaction`: what fails leaves the four maps as they were.
abbrev pub transaction {ℓ} :
    {A : Type ℓ} → (Store → Result Failure (A × Store)) → Store → Result Failure A × Store
transaction work st = elim (work st) [ ok (a, st') ↦ (ok a, st') | err e ↦ (err e, st) ]

unfoldable pub append_outbox : OutboxRecord → Store → Result Failure (Unit {0} × Store)
append_outbox row st =
    if has row.message_id st.outbox
    then err clash
    else ok (tt, record st { outbox = insert row.message_id row st.outbox })

unfoldable pub get_outbox : String → Store → Option OutboxRecord
get_outbox id st = lookup id st.outbox

abbrev pub at_or_before : Option ℕ → ℕ → Bool
at_or_before none t = false
at_or_before (some at) t = leb at t

abbrev pub claimable_as : OutboxStatus → ℕ → ℕ → OutboxRecord → Bool
claimable_as pending at stale_before row = leb row.available_at at
claimable_as publishing at stale_before row = at_or_before row.claimed_at stale_before
claimable_as published at stale_before row = false
claimable_as isolated at stale_before row = false

-- The test of `claimOutbox`: a pending row that is due, or a claim that is stale.
unfoldable pub claimable : ℕ → ℕ → OutboxRecord → Bool
claimable at stale_before row = claimable_as row.status at stale_before row

abbrev pub earlier : OutboxRecord → OutboxRecord → Bool
earlier r s = leb r.available_at s.available_at

abbrev pub claim_row : ℕ → String → OutboxRecord → OutboxRecord
claim_row at token row = record row {
  status = publishing;
  attempt_count = row.attempt_count + 1;
  claim_token = some token;
  claimed_at = some at;
}

-- The `map` of `claimOutbox`, which writes each claimed row; `token` numbers the tokens drawn.
unfoldable pub claim_rows :
    ℕ → (ℕ → String) → ℕ → List OutboxRecord → Store → List OutboxRecord × Store
claim_rows at token n [] st = ([], st)
claim_rows at token n (row ∷ rows) st =
    let next = claim_row at (token n) row in
    let (claimed, st') =
      claim_rows at token (n + 1) rows
        (record st { outbox = insert row.message_id next st.outbox }) in
    (next ∷ claimed, st')

unfoldable pub claim_outbox : ℕ → ℕ → ℕ → (ℕ → String) → Store → List OutboxRecord × Store
claim_outbox at stale_before limit token st =
    claim_rows at token 0
      (take limit (sort earlier (filter (claimable at stale_before) (values st.outbox)))) st

abbrev pub claimed_by : OutboxStatus → Option String → String → Bool
claimed_by publishing (some held) token = held === token
claimed_by publishing none token = false
claimed_by pending held token = false
claimed_by published held token = false
claimed_by isolated held token = false

-- A write to a row that this claim holds; `false` where it holds none.
abbrev pub with_claim : String → String → (OutboxRecord → OutboxRecord) → Store → Bool × Store
with_claim id token change st = elim (lookup id st.outbox) [
  | none ↦ (false, st)
  | some row ↦
      if claimed_by row.status row.claim_token token
      then (true, record st { outbox = insert id (change row) st.outbox })
      else (false, st)
]

unfoldable pub mark_outbox_published : String → String → ℕ → Store → Bool × Store
mark_outbox_published id token at st =
    with_claim id token
      (λ row. record row {
        claim_token = none;
        claimed_at = none;
        status = published;
        published_at = some at;
      })
      st

unfoldable pub mark_outbox_failure : String → String → ℕ → ℕ → String → Bool → Store → Bool × Store
mark_outbox_failure id token at available_at error_code isolate st =
    with_claim id token
      (λ row. record row {
        claim_token = none;
        claimed_at = none;
        status = if isolate then isolated else pending;
        available_at = available_at;
        last_error_code = some error_code;
        isolated_at = if isolate then some at else none;
      })
      st

abbrev pub is_isolated : OutboxStatus → Bool
is_isolated isolated = true
is_isolated pending = false
is_isolated publishing = false
is_isolated published = false

unfoldable pub replay_outbox : String → ℕ → Store → Bool × Store
replay_outbox id at st = elim (lookup id st.outbox) [
  | none ↦ (false, st)
  | some row ↦
      if is_isolated row.status
      then (
        true,
        record st {
          outbox =
              insert id
                (record row {
                  isolated_at = none;
                  last_error_code = none;
                  status = pending;
                  attempt_count = 0;
                  available_at = at;
                })
                st.outbox;
        },
      )
      else (false, st)
]

unfoldable pub find_inbox_receipt : String → String → Store → Option InboxReceipt
find_inbox_receipt id consumer st = lookup (id, consumer) st.inbox

unfoldable pub create_inbox_receipt : InboxReceipt → Store → Result Failure (Unit {0} × Store)
create_inbox_receipt row st =
    if has (row.message_id, row.consumer) st.inbox
    then err clash
    else ok (tt, record st { inbox = insert (row.message_id, row.consumer) row st.inbox })

abbrev pub same_isolation : IsolationRecord → IsolationRecord → Bool
same_isolation a b =
    ((a.message_id === b.message_id) && (a.consumer === b.consumer))
    && ((a.payload_sha256 === b.payload_sha256) && same_reason a.reason b.reason)

unfoldable pub create_isolation : IsolationRecord → Store → Store
create_isolation row st =
    if any (λ item. same_isolation item row) (values st.isolations)
    then st
    else record st { isolations = insert row.isolation_id row st.isolations }

unfoldable pub find_job : String → Store → Option JobRecord
find_job id st = lookup id st.jobs

unfoldable pub find_job_by_idempotency_key : String → Store → Option JobRecord
find_job_by_idempotency_key key st = find (λ j. j.idempotency_key === key) (values st.jobs)

unfoldable pub create_job : JobRecord → Store → Result Failure (Unit {0} × Store)
create_job row st =
    if has row.job_id st.jobs
      || any (λ item. item.idempotency_key === row.idempotency_key) (values st.jobs)
    then err clash
    else ok (tt, record st { jobs = insert row.job_id row st.jobs })

abbrev pub is_queued : JobStatus → Bool
is_queued queued = true
is_queued processing = false
is_queued cancelled = false
is_queued completed = false
is_queued rejected = false

abbrev pub is_processing : JobStatus → Bool
is_processing processing = true
is_processing queued = false
is_processing cancelled = false
is_processing completed = false
is_processing rejected = false

unfoldable pub claim_job : String → Store → Option JobRecord × Store
claim_job id st = elim (lookup id st.jobs) [
  | none ↦ (none, st)
  | some row ↦
      let next = record row { status = processing } in
      if is_queued row.status
      then (some next, record st { jobs = insert id next st.jobs })
      else (none, st)
]

unfoldable pub cancel_queued_job : String → String → Store → Option JobRecord × Store
cancel_queued_job id reason st = elim (lookup id st.jobs) [
  | none ↦ (none, st)
  | some row ↦
      let next = record row { status = cancelled; cancel_reason = some reason } in
      if is_queued row.status
      then (some next, record st { jobs = insert id next st.jobs })
      else (some row, st)
]

abbrev pub finish_job : JobStatus → String → Store → Bool × Store
finish_job status id st = elim (lookup id st.jobs) [
  | none ↦ (false, st)
  | some row ↦
      if is_processing row.status
      then (true, record st { jobs = insert id (record row { status = status }) st.jobs })
      else (false, st)
]

unfoldable pub complete_job : String → Store → Bool × Store
complete_job id st = finish_job completed id st

unfoldable pub isolate_job : String → Store → Bool × Store
isolate_job id st = finish_job rejected id st
