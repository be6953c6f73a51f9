-- ===== src/Tasks/Store/Runs.antt =====
-- memory-store.ts: the operations that write, in any order and by any callers.
use ai_crm_step.Base.{ℕ, String, List, [], ◌∷◌}
use ai_crm_step.Tasks.{TaskProjection, TaskLifecycleEvent, TaskCommandResult}
use ai_crm_step.Tasks.Store.{
  TaskStore, apply, reconcile, claim_command, accept_command, release_command,
}

pub data Write : Type 0 where
  apply_event : TaskLifecycleEvent → Write
  reconcile_event : TaskLifecycleEvent → Write
  claiming : String → String → String → ℕ → ℕ → Write
  accepting : String → String → TaskCommandResult → Write
  releasing : String → String → Write

module _ (print_event : TaskLifecycleEvent → String)
    (print_projection : TaskProjection → String) where
  -- What an operation leaves, whatever it answers.
  unfoldable pub perform : Write → TaskStore → TaskStore
  perform (apply_event event) s = (apply print_event event s).1
  perform (reconcile_event event) s = (reconcile print_event print_projection event s).1
  perform (claiming key fingerprint token now expires_at) s =
      (claim_command key fingerprint token now expires_at s).1
  perform (accepting key token result) s = (accept_command key token result s).1
  perform (releasing key token) s = (release_command key token s).1

  unfoldable pub run : List Write → TaskStore → TaskStore
  unfolding perform
  run [] s = s
  run (w ∷ ws) s = run ws (perform w s)
