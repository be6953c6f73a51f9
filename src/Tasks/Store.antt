-- ===== src/Tasks/Store.antt =====
-- packages/platform-modules/task-center/src/memory-store.ts. A fingerprint is the digest of a
-- serialized value: the two functions that make them are parameters, as is `localeCompare`.
pub mod Runs
pub mod Versions
pub mod Leases
pub mod Commands
use ai_crm_step.Base.{
  ℕ, String, Bool, true, false, not, List, [], ◌∷◌, Option, none, some, ◌===◌, ltb, leb, length,
  take, filter, if◌then◌else◌,
}
use ai_crm_step.Base.Eq.{string_key}
use ai_crm_step.Base.Dict.{Dict, lookup, insert, erase, values}
use ai_crm_step.Base.Sort.{sort}
use ai_crm_step.Base.Text.{append, text_leb}
use ai_crm_step.Base.Result.{Result, ok, err}
use ai_crm_step.Base.Call.{Call}
use ai_crm_step.Tasks.{
  TaskError, command_conflict, storage_unavailable, TaskProjectionStatus, cancelled, completed,
  open_task, TaskProjectionKey, TaskProjection, TaskLifecycleEvent, TaskCommandResult,
  TaskCommandClaim, claimed, running, accepted, ApplyStatus, applied, duplicate, stale,
  ProjectionApplyResult, TaskPage,
}

pub data CommandStatus : Type 0 where
  accepted_command running_command : CommandStatus

pub record CommandRow : Type 0 where
  pub fingerprint : String
  pub lease_expires_at : Option ℕ
  pub lease_token : Option String
  pub result : Option TaskCommandResult
  pub status : CommandStatus

pub record TaskStore : Type 0 where
  pub projections : Dict String TaskProjection
  pub events : Dict String String
  pub commands : Dict String CommandRow

abbrev pub StoreCall : Type 0 → Type 0
StoreCall A = Call TaskError TaskStore A

unfoldable pub key_of : TaskProjectionKey → String
key_of key = append key.source_type (append "\0" key.source_task_id)

unfoldable pub projection_of : TaskLifecycleEvent → String → String → TaskProjection
projection_of event projection_id created_at = record {
  key = event.key;
  projection_id = projection_id;
  source_version = event.source_version;
  status = event.status;
  deep_link = event.deep_link;
  created_at = created_at;
  updated_at = event.occurred_at;
  assignee_reference = event.assignee_reference;
  candidate_scope_reference = event.candidate_scope_reference;
  due_at = event.due_at;
}

-- `projectionOf(event, existing?.projectionId ?? event.eventId, existing?.createdAt ?? ...)`
unfoldable pub next_projection : TaskLifecycleEvent → Option TaskProjection → TaskProjection
unfolding projection_of
next_projection event none = projection_of event event.event_id event.occurred_at
next_projection event (some existing) =
    projection_of event existing.projection_id existing.created_at

abbrev pub answer_with : ApplyStatus → TaskProjection → Result TaskError ProjectionApplyResult
answer_with status projection = ok (record { status = status; projection = projection })

-- `this.events.set(event.eventId, ...)`
abbrev pub note_event : TaskLifecycleEvent → String → TaskStore → TaskStore
note_event event fingerprint s = record s { events = insert event.event_id fingerprint s.events }

abbrev pub put_projection : TaskLifecycleEvent → String → TaskProjection → TaskStore → TaskStore
put_projection event fingerprint projection s = record s {
  projections = insert (key_of event.key) projection s.projections;
  events = insert event.event_id fingerprint s.events;
}

-- The event is `existing.sourceVersion` or older.
abbrev pub is_behind : (ℕ → ℕ → Bool) → TaskLifecycleEvent → Option TaskProjection → Bool
is_behind before event none = false
is_behind before event (some existing) = before event.source_version existing.source_version

module _ (print_event : TaskLifecycleEvent → String) where
  unfoldable pub apply_seen :
      TaskLifecycleEvent → String → Option TaskProjection → StoreCall ProjectionApplyResult
  apply_seen event seen existing s =
      if not (seen === print_event event) then (err command_conflict, s) else elim existing [
        | none ↦ (err storage_unavailable, s)
        | some projection ↦ (answer_with duplicate projection, s)
      ]

  unfoldable pub apply_new :
      TaskLifecycleEvent → Option TaskProjection → StoreCall ProjectionApplyResult
  unfolding next_projection key_of
  apply_new event none s =
      let projection = next_projection event none in
      (answer_with applied projection, put_projection event (print_event event) projection s)
  apply_new event (some existing) s =
      let projection = next_projection event (some existing) in
      if leb event.source_version existing.source_version
      then (answer_with stale existing, note_event event (print_event event) s)
      else (answer_with applied projection, put_projection event (print_event event) projection s)

  -- The signal was not aborted.
  unfoldable pub apply : TaskLifecycleEvent → StoreCall ProjectionApplyResult
  unfolding apply_seen apply_new key_of
  apply event s =
      let existing = lookup (key_of event.key) s.projections in
      elim (lookup event.event_id s.events) [
        | none ↦ apply_new event existing s
        | some seen ↦ apply_seen event seen existing s
      ]

  -- Seen with another content.
  abbrev pub contradicts : TaskLifecycleEvent → Option String → Bool
  contradicts event none = false
  contradicts event (some seen) = not (seen === print_event event)

  module _ (print_projection : TaskProjection → String) where
    -- `fingerprint(existing) === fingerprint(projection)`
    abbrev pub is_current : TaskProjection → Option TaskProjection → Bool
    is_current projection none = false
    is_current projection (some existing) =
        print_projection existing === print_projection projection

    unfoldable pub reconcile_with :
        TaskLifecycleEvent → Option TaskProjection → StoreCall ProjectionApplyResult
    unfolding next_projection key_of
    reconcile_with event none s =
        let projection = next_projection event none in
        (answer_with applied projection, put_projection event (print_event event) projection s)
    reconcile_with event (some existing) s =
        let projection = next_projection event (some existing) in
        if ltb event.source_version existing.source_version
        then (answer_with stale existing, s)
        else (
          answer_with (if is_current projection (some existing) then duplicate else applied)
              projection,
          put_projection event (print_event event) projection s,
        )

    unfoldable pub reconcile : TaskLifecycleEvent → StoreCall ProjectionApplyResult
    unfolding reconcile_with key_of
    reconcile event s =
        if contradicts event (lookup event.event_id s.events)
        then (err command_conflict, s)
        else reconcile_with event (lookup (key_of event.key) s.projections) s

unfoldable pub get : TaskProjectionKey → TaskStore → Option TaskProjection
unfolding key_of
get key s = lookup (key_of key) s.projections

unfoldable pub same_status : TaskProjectionStatus → TaskProjectionStatus → Bool
same_status cancelled cancelled = true
same_status completed completed = true
same_status open_task open_task = true
same_status _ _ = false

unfoldable pub has_status : Option TaskProjectionStatus → TaskProjection → Bool
unfolding same_status
has_status none item = true
has_status (some status) item = same_status item.status status

unfoldable pub is_after : Option String → TaskProjection → Bool
unfolding key_of
is_after none item = true
is_after (some cursor) item = not (text_leb (key_of item.key) cursor)

-- `items.at(-1)`
abbrev pub last_of : List TaskProjection → Option TaskProjection
last_of [] = none
last_of (item ∷ []) = some item
last_of (item ∷ next ∷ items) = last_of (next ∷ items)

abbrev pub cursor_of : Option TaskProjection → Option String
cursor_of none = none
cursor_of (some item) = some (key_of item.key)

-- `compare` is `a.localeCompare(b) <= 0`.
unfoldable pub list_rows :
    (String → String → Bool)
    → Option TaskProjectionStatus
    → Option String
    → TaskStore
    → List TaskProjection
unfolding has_status is_after key_of
list_rows compare status cursor s = filter (is_after cursor) (
    sort (λ (a b : TaskProjection). compare (key_of a.key) (key_of b.key))
      (filter (has_status status) (values s.projections)))

unfoldable pub list_page :
    (String → String → Bool)
    → Option TaskProjectionStatus
    → ℕ
    → Option String
    → TaskStore
    → TaskPage
unfolding list_rows key_of
list_page compare status limit cursor s =
    let rows = list_rows compare status cursor s in
    let items = take limit rows in
    record {
      items = items;
      next_cursor = if ltb (length items) (length rows) then cursor_of (last_of items) else none;
    }

-- A claim that is answered without a write.
unfoldable pub claim_answer : ℕ → CommandRow → Option TaskCommandClaim
claim_answer now row = elim row.status [
  | accepted_command ↦ elim row.result [ none ↦ none | some result ↦ some (accepted result) ]
  | running_command ↦ elim row.lease_expires_at [
    | none ↦ none
    | some expires_at ↦ if ltb now expires_at then some running else none
  ]
]

unfoldable pub claim_row : String → String → String → ℕ → StoreCall TaskCommandClaim
claim_row key fingerprint token expires_at s = (
  ok (claimed token),
  record s {
    commands =
        insert key
          (record {
            fingerprint = fingerprint;
            lease_expires_at = some expires_at;
            lease_token = some token;
            result = none;
            status = running_command;
          })
          s.commands;
  },
)

-- `claimCommand`, on the row that is there.
unfoldable pub claim_found :
    String → String → String → ℕ → ℕ → Option CommandRow → StoreCall TaskCommandClaim
unfolding claim_row claim_answer
claim_found key fingerprint token now expires_at none s =
    claim_row key fingerprint token expires_at s
claim_found key fingerprint token now expires_at (some row) s =
    if not (row.fingerprint === fingerprint)
    then (err command_conflict, s)
    else elim (claim_answer now row) [
      | some answer ↦ (ok answer, s)
      | none ↦ claim_row key fingerprint token expires_at s
    ]

unfoldable pub claim_command : String → String → String → ℕ → ℕ → StoreCall TaskCommandClaim
unfolding claim_found
claim_command key fingerprint token now expires_at s =
    claim_found key fingerprint token now expires_at (lookup key s.commands) s

-- `row?.status === "running" && row.leaseToken === token`
unfoldable pub holds_lease : String → CommandRow → Bool
holds_lease token row = elim row.status [
  | accepted_command ↦ false
  | running_command ↦ elim row.lease_token [ none ↦ false | some held ↦ held === token ]
]

unfoldable pub accept_command : String → String → TaskCommandResult → StoreCall Bool
unfolding holds_lease
accept_command key token result s = elim (lookup key s.commands) [
  | none ↦ (ok false, s)
  | some row ↦
      if holds_lease token row
      then (
        ok true,
        record s {
          commands =
              insert key
                (record {
                  fingerprint = row.fingerprint;
                  lease_expires_at = none;
                  lease_token = none;
                  result = some result;
                  status = accepted_command;
                })
                s.commands;
        },
      )
      else (ok false, s)
]

unfoldable pub release_command : String → String → StoreCall (Unit {0})
unfolding holds_lease
release_command key token s = elim (lookup key s.commands) [
  | none ↦ (ok tt, s)
  | some row ↦
      if holds_lease token row
      then (ok tt, record s { commands = erase key s.commands })
      else (ok tt, s)
]
