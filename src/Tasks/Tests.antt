-- ===== src/Tasks/Tests.antt =====
-- The theorems of the task center at concrete inputs.
use ai_crm_step.Base.{
  ℕ, String, Bool, true, false, ◌≡◌, ◌≢◌, refl, List, [], ◌∷◌, Option, none, some, arith,
  if◌then◌else◌, ◌===◌,
}
use ai_crm_step.Base.Eq.{string_key}
use ai_crm_step.Base.Dict.{lookup, insert}
use ai_crm_step.Base.Sort.{sort}
use ai_crm_step.Base.Text.{text_leb}
use ai_crm_step.Base.Result.{ok, err}
use ai_crm_step.Base.Call.{◌>>=◌}
use ai_crm_step.Tasks.{
  command_conflict, open_task, TaskActor, TaskProjectionKey, TaskProjection, TaskLifecycleEvent,
  TaskCommandResult, running, accepted, TaskPage,
}
use ai_crm_step.Tasks.Store.{
  TaskStore, key_of, projection_of, apply, reconcile, get, list_page, claim_command, accept_command,
  release_command,
}
use ai_crm_step.Tasks.Store.Runs.{Write, apply_event, reconcile_event, releasing, claiming, run}
use ai_crm_step.Tasks.Store.Versions.{HasLaterForm, run-IsMonotone}
use ai_crm_step.Tasks.Store.Commands.{accept_command_final}
use ai_crm_step.Tasks.Store.Leases.{leased, claim_command_exclusive}
use ai_crm_step.Tasks.Service.{Ports, Journal, CompleteTurn, complete, list_tasks}
use ai_crm_step.Tasks.Service.Repeat.{Answers}
use ai_crm_step.Tasks.Service.Complete.{complete_again}
use ai_crm_step.Tasks.Service.Listing.{Shows, list_tasks-Shows}

abbrev print_event : TaskLifecycleEvent → String
print_event event = event.occurred_at

abbrev print_projection : TaskProjection → String
print_projection p = p.updated_at

abbrev key : TaskProjectionKey
key = record { source_type = "workflow"; source_task_id = "t1" }

abbrev event_of : String → ℕ → String → TaskLifecycleEvent
event_of id version at = record {
  key = key;
  event_id = id;
  source_version = version;
  occurred_at = at;
  status = open_task;
  deep_link = record { app_id = "crm"; route_id = "task" };
  assignee_reference = none;
  candidate_scope_reference = none;
  due_at = none;
}

abbrev first_projection : TaskProjection
first_projection = projection_of (event_of "e1" 2 "monday") "e1" "monday"

abbrev stored : TaskStore
stored = record {
  projections = (key_of key, first_projection) ∷ [];
  events = ("e1", "monday") ∷ [];
  commands = [];
}

abbrev events : List Write
events = apply_event (event_of "e2" 1 "sunday") ∷ reconcile_event (event_of "e3" 4 "tuesday") ∷ []

-- The late event is stale, and the reconciled one is newer.
lookup-run :
    lookup (key_of key) (run print_event print_projection events stored).projections
    ≡ some (projection_of (event_of "e3" 4 "tuesday") "e1" "monday")
unfolding run key_of projection_of lookup insert reconcile apply
lookup-run = refl

run-IsMonotone_example :
    HasLaterForm
      (key_of key)
      first_projection
      (run print_event print_projection events stored).projections
unfolding key_of projection_of lookup
run-IsMonotone_example =
    run-IsMonotone print_event print_projection events (key_of key) first_projection stored refl

abbrev result : TaskCommandResult
result = record { source_command_id = "c1" }

abbrev under_lease : TaskStore
under_lease = record stored { commands = ("k", leased "f" "token" 100) ∷ [] }

abbrev settled : TaskStore
unfolding accept_command lookup insert
settled = (accept_command "k" "token" result under_lease).1

abbrev attempts : List Write
attempts = releasing "k" "token" ∷ claiming "k" "f" "other" 500 600 ∷ []

accept_command_final_example :
    claim_command "k" "f" "late" 900 999 (run print_event print_projection attempts settled)
    ≡ (ok (accepted result), run print_event print_projection attempts settled)
unfolding accept_command lookup insert
accept_command_final_example =
    accept_command_final print_event print_projection "k" "token" result (leased "f" "token" 100)
      under_lease settled refl refl attempts "f" "late" 900 999

claim_command_exclusive_example :
    ((f other : String) (end : ℕ)
      → claim_command "k" f other 50 end under_lease
        ≡ (if "f" === f then ok running else err command_conflict, under_lease))
    × ((other : String)
        → "token" ≢ other
        → ((r : TaskCommandResult)
            → accept_command "k" other r under_lease ≡ (ok false, under_lease))
          × (release_command "k" other under_lease ≡ (ok tt, under_lease)))
unfolding claim_command lookup insert
claim_command_exclusive_example =
    claim_command_exclusive "k" "f" "token" "token" 10 100 stored under_lease refl 50 (omega arith)

abbrev actor : TaskActor
actor = record { active_assignment_ids = none; principal_id = "ann" }

abbrev ports : Ports
ports = record {
  authorization = λ who operation task. some (record { allowed = true; decision_id = "d" });
  audit = λ entry. true;
}

abbrev journal : Journal
journal = record { audits = []; store = stored }

abbrev turn_with : ℕ → String → Option TaskCommandResult → CompleteTurn
turn_with t token routed = record { now = some t; lease_token = some token; routed = routed }

abbrev print : String → TaskProjectionKey → String
print who task = who

abbrev after_completion : Journal
unfolding complete lookup insert ◌>>=◌ key_of projection_of
after_completion =
    (complete ports print 30000 (turn_with 10 "token" (some result)) actor key "k" journal).1

complete_again_example :
    Answers
      (complete ports print 30000 (turn_with 99999 "later" none) actor key "k")
      result
      after_completion
unfolding complete lookup insert ◌>>=◌ key_of projection_of run get claim_command accept_command
complete_again_example =
    complete_again ports print_event print_projection print actor key "k" 30000 30000
      (turn_with 10 "token" (some result)) (turn_with 99999 "later" none) result journal
      after_completion after_completion refl [] refl 99999 "later" refl refl

abbrev listed : TaskPage
listed = record { items = first_projection ∷ []; next_cursor = none }

list_tasks-Shows_example :
    Shows ports actor listed (list_page text_leb none 10 none stored)
    × (((list_tasks ports text_leb actor none 10 none journal).1).store ≡ stored)
unfolding list_tasks sort ◌>>=◌ key_of projection_of list_page
list_tasks-Shows_example =
    list_tasks-Shows ports actor text_leb none 10 none listed journal
      ((list_tasks ports text_leb actor none 10 none journal).1) refl

abbrev named : String → TaskProjection
named id = record first_projection {
  key = record { source_type = "workflow"; source_task_id = id };
}

-- `localeCompare` on the two tasks below: `a` comes before `B`.
abbrev by_locale : String → String → Bool
by_locale a b = elim (text_leb a b) [ true ↦ a === b | false ↦ true ]

abbrev mixed : TaskStore
mixed = record stored { projections = ("workflow\0B", named "B") ∷ ("workflow\0a", named "a") ∷ [] }

-- The first page shows `a` and its cursor stands behind it, where `B` no longer comes.
list_page-mixed :
    (list_page by_locale none 1 none mixed
      ≡ record { items = named "a" ∷ []; next_cursor = some "workflow\0a" })
    × (list_page by_locale none 1 (some "workflow\0a") mixed
        ≡ record { items = []; next_cursor = none })
unfolding list_page sort key_of projection_of text_leb
list_page-mixed = (refl, refl)
