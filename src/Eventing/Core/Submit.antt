-- ===== src/Eventing/Core/Submit.antt =====
-- service.ts, `appendEvent` and `submitJob`: idempotence and atomicity.
use ai_crm_step.Base.{
  String, Bool, true, ◌≡◌, refl, sym, ◌∙◌, ap, List, [], ◌∷◌, ◌++◌, none, some, arith, Option-cases,
  Bool-cases, ◌===◌, eq_iff, find, inl, inr,
}
use ai_crm_step.Base.Eq.{string_key}
use ai_crm_step.Base.Dict.{lookup, insert, has, values, insert_absent, lookup-insert_self}
use ai_crm_step.Base.Result.{Result, ok, err, ok_injective, Result-cases}
use ai_crm_step.Eventing.Types.{
  Failure, ValidatedMessage, JobEnvelope, JobStatus, queued, outbox_record,
}
use ai_crm_step.Eventing.Store.{
  Store, clash, append_outbox, get_outbox, find_job, find_job_by_idempotency_key, create_job,
}
use ai_crm_step.Eventing.Core.{append_event, job_of, create_and_append, recovered, submit_job}

same_key : (k : String) → (k === k) ≡ true
same_key k = ground (arith, eq_iff k k)

find_last :
    {A : Type 0} (p : A → Bool) (x : A) (xs : List A)
    → find p xs ≡ none
    → p x ≡ true
    → find p (xs ++ x ∷ []) ≡ some x
find_last p x [] absent h = ground arith
find_last p x (y ∷ ys) absent h = ground (arith, find_last p x ys)

-- What the store is once a job is created and its message appended.
abbrev with_job : ValidatedMessage → JobEnvelope → Store → Store
with_job m envelope st = record st {
  jobs = insert envelope.job_id (job_of m envelope) st.jobs;
  outbox = insert m.message_id (outbox_record m) st.outbox;
}

create_and_append_ok :
    (m : ValidatedMessage) (envelope : JobEnvelope) (st : Store) (done : Unit {0} × Store)
    → create_and_append m envelope st ≡ ok done
    → (lookup envelope.job_id st.jobs ≡ none) × (done ≡ (tt, with_job m envelope st))
unfolding create_and_append create_job append_outbox
create_and_append_ok m envelope st done h = ground arith

-- A submission that fails leaves the outbox, the inbox, the jobs and the isolations as they were.
pub submit_job_failed :
    (m : ValidatedMessage) (envelope : JobEnvelope) (st : Store) (e : Failure)
    → (submit_job m envelope st).0 ≡ err e
    → (submit_job m envelope st).1 ≡ st
unfolding submit_job
submit_job_failed m envelope st e failed = ground arith

-- A submission whose idempotency key no job has, where it succeeds, leaves the job queued and the
-- message pending in the outbox.
pub submit_job_first :
    (m : ValidatedMessage) (envelope : JobEnvelope) (st : Store) (answer : String × JobStatus)
    → find_job_by_idempotency_key envelope.idempotency_key st ≡ none
    → (submit_job m envelope st).0 ≡ ok answer
    → let st' = (submit_job m envelope st).1 in
      (find_job envelope.job_id st' ≡ some (job_of m envelope))
      × ((find_job_by_idempotency_key envelope.idempotency_key st' ≡ some (job_of m envelope))
          × ((get_outbox m.message_id st' ≡ some (outbox_record m))
              × (answer ≡ (envelope.job_id, queued))))
unfolding submit_job find_job find_job_by_idempotency_key get_outbox
submit_job_first m envelope st answer first answered =
    elim (Result-cases (create_and_append m envelope st)) [
      | inr (e, failed) ↦
          let thrown : (submit_job m envelope st).0 ≡ err e =
            rw (submit_job, first, failed, recovered, first) refl in
          cc
      | inl (created, e) ↦
          let (absent, same) = create_and_append_ok m envelope st created e in
          let succeeded : (submit_job m envelope st).0 ≡ ok (envelope.job_id, queued) =
            rw (submit_job, first, e) refl in
          rw (submit_job, first, e, same)
            (
              lookup-insert_self envelope.job_id (job_of m envelope) st.jobs,
              (
                rw (insert_absent envelope.job_id (job_of m envelope) st.jobs absent)
                    (find_last _ _ (values st.jobs) first (same_key envelope.idempotency_key)),
                (
                  lookup-insert_self m.message_id (outbox_record m) st.outbox,
                  ok_injective (sym answered ∙ succeeded),
                ),
              ),
            )
    ]

unchanged_again :
    {A : Type 0} (call : Store → Result Failure A × Store) (st : Store) (a answer : A)
    → call st ≡ (ok a, st)
    → (call st).0 ≡ ok answer
    → call (call st).1 ≡ (ok answer, (call st).1)
unchanged_again call st a answer run answered =
    let same : a ≡ answer = ok_injective (sym (ap (λ o. o.0) run) ∙ answered) in
    rw (run, run, same) refl

-- A submission that succeeded is idempotent: made again at once, it gives the same answer and
-- changes nothing.
pub submit_job_again :
    (m : ValidatedMessage) (envelope : JobEnvelope) (st : Store) (answer : String × JobStatus)
    → (submit_job m envelope st).0 ≡ ok answer
    → let st' = (submit_job m envelope st).1 in submit_job m envelope st' ≡ (ok answer, st')
unfolding submit_job
submit_job_again m envelope st answer answered =
    elim (Option-cases (find_job_by_idempotency_key envelope.idempotency_key st)) [
      | inl first ↦
          let st' = (submit_job m envelope st).1 in
          let (job, (found, (message, answer_is))) =
            submit_job_first m envelope st answer first answered in
          rw (submit_job, found, same_key m.payload_sha256, answer_is) refl
      | inr (prior, found) ↦ elim (Bool-cases (prior.fingerprint === m.payload_sha256)) [
        | inl same ↦
            unchanged_again (submit_job m envelope) st (prior.job_id, prior.status) answer
              (rw (submit_job, found, same) refl) answered
        | inr other ↦
            let thrown : (submit_job m envelope st).0 ≡ err clash =
              rw (submit_job, found, other) refl in
            cc
      ]
    ]

-- An event appended once can be appended again: the answer is the same and nothing changes.
pub append_event_again :
    (m : ValidatedMessage) (st : Store) (id : String)
    → (append_event m st).0 ≡ ok id
    → let st' = (append_event m st).1 in append_event m st' ≡ (ok id, st')
unfolding append_event append_outbox get_outbox
append_event_again m st id appended = elim (Option-cases (lookup m.message_id st.outbox)) [
  | inl absent ↦
      let st' = record st { outbox = insert m.message_id (outbox_record m) st.outbox } in
      let held : lookup m.message_id st'.outbox ≡ some (outbox_record m) =
        lookup-insert_self m.message_id (outbox_record m) st.outbox in
      let run : append_event m st ≡ (ok m.message_id, st') = rw (append_event, absent, has) refl in
      let again : append_event m st' ≡ (ok m.message_id, st') =
        rw (append_event, held, has, get_outbox, held, same_key m.payload_sha256) refl in
      let same : m.message_id ≡ id = ok_injective (sym (ap (λ o. o.0) run) ∙ appended) in
      rw (run, again, same) refl
  | inr (row, found) ↦ elim (Bool-cases (row.payload_sha256 === m.payload_sha256)) [
    | inl same ↦
        unchanged_again (append_event m) st m.message_id id
          (rw (append_event, found, has, get_outbox, found, same) refl) appended
    | inr other ↦
        let thrown : (append_event m st).0 ≡ err clash =
          rw (append_event, found, has, get_outbox, found, other) refl in
        cc
  ]
]
