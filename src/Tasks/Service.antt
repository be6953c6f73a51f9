-- ===== src/Tasks/Service.antt =====
-- packages/platform-modules/task-center/src/service.ts. An input is given as parsed. Authorization,
-- audit, the router and the reader of sources answer with the call; the observer is left out.
pub mod Repeat
pub mod Complete
pub mod Listing
use ai_crm_step.Base.{
  ℕ, ◌+◌, String, Bool, true, false, not, ◌&&◌, ◌||◌, List, [], ◌∷◌, ◌++◌, Option, none, some,
  ◌===◌, ltb, leb, if◌then◌else◌,
}
use ai_crm_step.Base.Text.{append}
use ai_crm_step.Base.Result.{Result, ok, err}
use ai_crm_step.Base.Call.{Call, ◌>>=◌, ◌>>◌, return, refuse_if}
use ai_crm_step.Tasks.{
  TaskError, input_invalid, not_found, operation_denied, authorization_failed, audit_failed,
  command_in_progress, source_unavailable, storage_unavailable, TaskProjectionStatus, TaskOperation,
  task_complete, task_detail, task_list, task_reconcile, TaskActor, TaskProjectionKey,
  TaskProjection, TaskLifecycleEvent, TaskCommandResult, TaskCommandClaim, claimed, running,
  accepted, ApplyStatus, applied, duplicate, stale, ProjectionApplyResult, TaskPage,
}
use ai_crm_step.Tasks.Store as Store

pub data AuditPhase : Type 0 where
  attempted succeeded : AuditPhase
  failed : TaskError → AuditPhase

pub record AuditRecord : Type 0 where
  pub principal_id : String
  pub operation : TaskOperation
  pub phase : AuditPhase
  pub decision_id : String
  pub reference_id : String

pub record TaskAuthorizationDecision : Type 0 where
  pub allowed : Bool
  pub decision_id : String

-- What the authorization decides, `none` where it fails or gives a malformed id, and whether the
-- audit takes a record.
pub record Ports : Type 0 where
  pub authorization :
      TaskActor → TaskOperation → Option TaskProjectionKey → Option TaskAuthorizationDecision
  pub audit : AuditRecord → Bool

pub data ReconciliationStatus : Type 0 where
  reconciled current behind : ReconciliationStatus

-- The records that were taken, and the store.
pub record Journal : Type 0 where
  pub audits : List AuditRecord
  pub store : Store.TaskStore

abbrev pub ServiceCall : Type 0 → Type 0
ServiceCall A = Call TaskError Journal A

abbrev pub throw : {A : Type 0} → TaskError → ServiceCall A
throw e j = (err e, j)

abbrev pub required : {A : Type 0} → TaskError → Option A → ServiceCall A
required e none = throw e
required e (some a) = return a

abbrev pub answered : {A : Type 0} → Result TaskError A → ServiceCall A
answered answer j = (answer, j)

-- An operation of the store.
abbrev pub storing : {A : Type 0} → Store.StoreCall A → ServiceCall A
storing call j = let (answer, s) = call j.store in (answer, record j { store = s })

pub record Context : Type 0 where
  pub actor : TaskActor
  pub decision_id : String

abbrev pub reference_of : TaskProjectionKey → String
reference_of key = append key.source_type (append ":" key.source_task_id)

-- `key === undefined ? actor.principalId : ...`
abbrev pub reference_or_actor : TaskActor → Option TaskProjectionKey → String
reference_or_actor actor none = actor.principal_id
reference_or_actor actor (some key) = reference_of key

-- The record of an authorization.
abbrev pub authorization_entry :
    TaskActor → TaskOperation → Option TaskProjectionKey → String → AuditPhase → AuditRecord
authorization_entry actor operation key decision_id phase = record {
  principal_id = actor.principal_id;
  operation = operation;
  phase = phase;
  decision_id = decision_id;
  reference_id = reference_or_actor actor key;
}

abbrev is_denial : TaskError → Bool
is_denial operation_denied = true
is_denial _ = false

abbrev pub status_of : ApplyStatus → ReconciliationStatus
status_of applied = reconciled
status_of duplicate = current
status_of stale = behind

-- What a completion takes from elsewhere: the clock, unless it is not finite, a fresh token, if it is
-- well-formed, and the answer of the router, if it is one.
pub record CompleteTurn : Type 0 where
  pub now : Option ℕ
  pub lease_token : Option String
  pub routed : Option TaskCommandResult

module _ (ports : Ports) where
  unfoldable pub record_audit : AuditRecord → ServiceCall (Unit {0})
  record_audit entry j =
      if ports.audit entry
      then (ok tt, record j { audits = j.audits ++ entry ∷ [] })
      else (err audit_failed, j)

  unfoldable pub authorize :
      TaskActor → TaskOperation → Option TaskProjectionKey → ServiceCall Context
  unfolding record_audit
  authorize actor operation key = do
    decision ← required authorization_failed (ports.authorization actor operation key)
    if decision.allowed
        then (record_audit (authorization_entry actor operation key decision.decision_id attempted)
            >> return (record { actor = actor; decision_id = decision.decision_id }))
        else (record_audit (
              authorization_entry actor operation key decision.decision_id
                (failed operation_denied))
            >> throw operation_denied)

  unfoldable pub finish : Context → TaskOperation → String → AuditPhase → ServiceCall (Unit {0})
  unfolding record_audit
  finish context operation reference_id phase = record_audit (record {
    principal_id = context.actor.principal_id;
    operation = operation;
    phase = phase;
    decision_id = context.decision_id;
    reference_id = reference_id;
  })

  -- `try { body } catch (error) { await finish(..., failure); throw failure; }`
  unfoldable pub guarded :
      {A : Type 0} → Context → TaskOperation → String → ServiceCall A → ServiceCall A
  unfolding finish
  guarded context operation reference_id body j =
      let (answer, j') = body j in
      elim answer [
        | ok a ↦ (ok a, j')
        | err e ↦ (finish context operation reference_id (failed e) >> throw e) j'
      ]

  -- The body of the `try` of `getAuthorized`.
  unfoldable pub read_task :
      Context → TaskProjectionKey → TaskOperation → ServiceCall TaskProjection
  unfolding finish
  read_task context key operation = do
    found ← λ j. (ok (Store.get key j.store), j)
    projection ← required not_found found
    finish context operation (reference_of key) succeeded
    return projection

  unfoldable pub get_authorized :
      TaskActor → TaskProjectionKey → TaskOperation → ServiceCall TaskProjection
  unfolding authorize guarded read_task
  get_authorized actor key operation = do
    context ← authorize actor operation (some key)
    guarded context operation (reference_of key) (read_task context key operation)

  -- The answer of the router to a claim, and its acceptance.
  unfoldable pub accept_routed :
      Context
      → TaskProjectionKey
      → String
      → String
      → Option TaskCommandResult
      → ServiceCall TaskCommandResult
  unfolding finish
  accept_routed context key idempotency_key token none =
      storing (Store.release_command idempotency_key token) >> throw source_unavailable
  accept_routed context key idempotency_key token (some result) = do
    done ← storing (Store.accept_command idempotency_key token result)
    refuse_if (not done) command_in_progress
    finish context task_complete (reference_of key) succeeded
    return result

  unfoldable pub settle_claim :
      Context
      → TaskProjectionKey
      → String
      → Option TaskCommandResult
      → TaskCommandClaim
      → ServiceCall TaskCommandResult
  unfolding accept_routed finish
  settle_claim context key idempotency_key routed (accepted result) =
      finish context task_complete (reference_of key) succeeded >> return result
  settle_claim context key idempotency_key routed running = throw command_in_progress
  settle_claim context key idempotency_key routed (claimed token) =
      accept_routed context key idempotency_key token routed

  -- The body of the `try` of `complete`.
  unfoldable pub claim_and_settle :
      String
      → ℕ
      → CompleteTurn
      → Context
      → TaskProjectionKey
      → String
      → ServiceCall TaskCommandResult
  unfolding settle_claim
  claim_and_settle fingerprint command_lease_ms turn context key idempotency_key = do
    claimed_at ← required storage_unavailable turn.now
    token ← required input_invalid turn.lease_token
    claim ← storing (
        Store.claim_command idempotency_key fingerprint token claimed_at
          (claimed_at + command_lease_ms))
    settle_claim context key idempotency_key turn.routed claim

  -- `print` is the digest of the principal and the task of a command.
  unfoldable pub complete :
      (String → TaskProjectionKey → String)
      → ℕ
      → CompleteTurn
      → TaskActor
      → TaskProjectionKey
      → String
      → ServiceCall TaskCommandResult
  unfolding get_authorized authorize guarded claim_and_settle
  complete print command_lease_ms turn actor key idempotency_key = do
    seen ← get_authorized actor key task_detail
    context ← authorize actor task_complete (some key)
    guarded context task_complete (reference_of key) (
        claim_and_settle (print actor.principal_id key) command_lease_ms turn context key
          idempotency_key)

  -- One item of a page: it is left out where its detail is denied.
  unfoldable pub sees_item : TaskActor → TaskProjection → ServiceCall Bool
  unfolding authorize finish
  sees_item actor item j =
      let (answer, j') =
        (do
          context ← authorize actor task_detail (some item.key)
          finish context task_detail (reference_of item.key) succeeded)
          j in
      elim answer [
        | ok done ↦ (ok true, j')
        | err e ↦ if is_denial e then (ok false, j') else (err e, j')
      ]

  unfoldable pub visible_items : TaskActor → List TaskProjection → ServiceCall (List TaskProjection)
  unfolding sees_item
  visible_items actor [] = return []
  visible_items actor (item ∷ items) = do
    seen ← sees_item actor item
    rest ← visible_items actor items
    return (if seen then item ∷ rest else rest)

  -- The body of the `try` of `list`.
  unfoldable pub show_page :
      (String → String → Bool)
      → Context
      → TaskActor
      → Option TaskProjectionStatus
      → ℕ
      → Option String
      → ServiceCall TaskPage
  unfolding visible_items finish
  show_page compare context actor status limit cursor j =
      let page = Store.list_page compare status limit cursor j.store in
      (do
        items ← visible_items actor page.items
        finish context task_list actor.principal_id succeeded
        return (record page { items = items }))
        j

  unfoldable pub list_tasks :
      (String → String → Bool)
      → TaskActor
      → Option TaskProjectionStatus
      → ℕ
      → Option String
      → ServiceCall TaskPage
  unfolding authorize guarded show_page
  list_tasks compare actor status limit cursor = do
    context ← authorize actor task_list none
    refuse_if (ltb limit 1 || ltb 100 limit) input_invalid
    guarded context task_list actor.principal_id
        (show_page compare context actor status limit cursor)

  -- `source` is the validated answer of the reader, whose own failure is `source_unavailable`.
  unfoldable pub reconcile_task :
      (TaskLifecycleEvent → String)
      → (TaskProjection → String)
      → Result TaskError TaskLifecycleEvent
      → TaskActor
      → TaskProjectionKey
      → ServiceCall (ReconciliationStatus × TaskProjection)
  unfolding authorize guarded finish
  reconcile_task print_event print_projection source actor key = do
    context ← authorize actor task_reconcile (some key)
    guarded context task_reconcile (reference_of key) (do
      event ← answered source
      refuse_if
          (not (event.key.source_type === key.source_type)
            || not (event.key.source_task_id === key.source_task_id))
          source_unavailable
      done ← storing (Store.reconcile print_event print_projection event)
      finish context task_reconcile (reference_of key) succeeded
      return (status_of done.status, done.projection))
