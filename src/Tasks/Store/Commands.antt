-- ===== src/Tasks/Store/Commands.antt =====
-- memory-store.ts: the results of commands that were accepted.
use ai_crm_step.Base.{
  ℕ, String, true, List, [], ◌∷◌, none, some, ◌≡◌, refl, inl, inr, ap, ◌∙◌, sym, arith, eq_iff,
  ◌===◌, if◌then◌else◌, Bool-cases, Option-cases,
}
use ai_crm_step.Base.Eq.{string_key}
use ai_crm_step.Base.Dict.{lookup, lookup-insert, lookup-insert_self, lookup-erase_ne}
use ai_crm_step.Base.Result.{ok, err}
use ai_crm_step.Tasks.{
  command_conflict, TaskLifecycleEvent, TaskProjection, TaskCommandResult, accepted,
}
use ai_crm_step.Tasks.Store.{
  TaskStore, CommandRow, accepted_command, apply, apply_seen, apply_new, reconcile, reconcile_with,
  contradicts, key_of, claim_command, claim_found, claim_row, claim_answer, holds_lease,
  accept_command, release_command,
}
use ai_crm_step.Tasks.Store.Leases.{leased}
use ai_crm_step.Tasks.Store.Runs.{
  Write, apply_event, reconcile_event, claiming, accepting, releasing, perform, run,
}

-- The row of a command whose result was accepted.
abbrev pub accepted_row : String → TaskCommandResult → CommandRow
accepted_row fingerprint result = record {
  fingerprint = fingerprint;
  lease_expires_at = none;
  lease_token = none;
  result = some result;
  status = accepted_command;
}

-- An accepted result is stored under the key.
abbrev pub IsAccepted : String → String → TaskCommandResult → TaskStore → Type 0
IsAccepted key fingerprint result s =
    (row : CommandRow) × (lookup key s.commands ≡ some row)
    × (row.fingerprint ≡ fingerprint)
    × (row.status ≡ accepted_command)
    × (row.result ≡ some result)

-- A row with an accepted result stays as it is.
module _ (key : String) (result : TaskCommandResult) (row : CommandRow)
    (settled : row.status ≡ accepted_command) (given : row.result ≡ some result) (s : TaskStore)
    (h : lookup key s.commands ≡ some row) where
  claim_keeps_row :
      (other f token : String) (now expires_at : ℕ)
      → lookup key ((claim_command other f token now expires_at s).1).commands ≡ some row
  unfolding claim_command claim_found claim_row claim_answer
  claim_keeps_row other f token now expires_at = elim (Bool-cases (other === key)) [
    | inl same ↦ ground (arith, h, settled, given, same, eq_iff other key)
    | inr different ↦ elim (Option-cases (lookup other s.commands)) [
      | inl missing ↦ ground (
        arith,
        h,
        missing,
        different,
        lookup-insert other key (leased f token expires_at) s.commands,
      )
      | inr (current, found) ↦ elim (Option-cases (claim_answer now current)) [
        | inr (answer, known) ↦ ground (arith, h, found, known)
        | inl free ↦ ground (
          arith,
          h,
          found,
          free,
          different,
          lookup-insert other key (leased f token expires_at) s.commands,
        )
      ]
    ]
  ]

  accept_keeps_row :
      (other token : String) (r : TaskCommandResult)
      → lookup key ((accept_command other token r s).1).commands ≡ some row
  unfolding accept_command holds_lease
  accept_keeps_row other token r = elim (Bool-cases (other === key)) [
    | inl same ↦ ground (arith, h, settled, given, same, eq_iff other key)
    | inr different ↦ elim (Option-cases (lookup other s.commands)) [
      | inl missing ↦ ground (arith, h, missing)
      | inr (current, found) ↦ ground (
        arith,
        h,
        found,
        different,
        lookup-insert other key (accepted_row current.fingerprint r) s.commands,
      )
    ]
  ]

  release_keeps_row :
      (other token : String) → lookup key ((release_command other token s).1).commands ≡ some row
  unfolding release_command holds_lease
  release_keeps_row other token = elim (Bool-cases (other === key)) [
    | inl same ↦ ground (arith, h, settled, given, same, eq_iff other key)
    | inr different ↦ elim (Option-cases (lookup other s.commands)) [
      | inl missing ↦ ground (arith, h, missing)
      | inr (current, found) ↦
          ground
            (arith, h, found, different, lookup-erase_ne other key s.commands, eq_iff other key)
    ]
  ]

pub claim_command-IsAccepted :
    (key fingerprint : String) (result : TaskCommandResult) (s : TaskStore)
    → IsAccepted key fingerprint result s
    → (f token : String) (now expires_at : ℕ)
    → claim_command key f token now expires_at s
      ≡ (if fingerprint === f then ok (accepted result) else err command_conflict, s)
unfolding claim_command claim_found claim_answer
claim_command-IsAccepted key fingerprint result s (row, found, same, settled, given) f token now
      expires_at =
    ground (arith, found, same, settled, given)

pub accept_command-IsAccepted :
    (key token : String) (result : TaskCommandResult) (row : CommandRow) (s s' : TaskStore)
    → lookup key s.commands ≡ some row
    → accept_command key token result s ≡ (ok true, s')
    → IsAccepted key row.fingerprint result s'
unfolding accept_command
accept_command-IsAccepted key token result row s s' found done = (
  accepted_row row.fingerprint result,
  ground
      (arith, found, done, lookup-insert_self key (accepted_row row.fingerprint result) s.commands),
  refl,
  refl,
  refl,
)

claim_answer-eq-accepted :
    (now : ℕ) (row : CommandRow) (result : TaskCommandResult)
    → claim_answer now row ≡ some (accepted result)
    → (row.status ≡ accepted_command) × (row.result ≡ some result)
unfolding claim_answer
claim_answer-eq-accepted now row result h = ground arith

-- A claim that answers with a result has found it.
pub claimed-IsAccepted :
    (key fingerprint token : String) (now expires_at : ℕ) (s s' : TaskStore)
    (result : TaskCommandResult)
    → claim_command key fingerprint token now expires_at s ≡ (ok (accepted result), s')
    → IsAccepted key fingerprint result s'
unfolding claim_command claim_found claim_answer claim_row
claimed-IsAccepted key fingerprint token now expires_at s s' result h =
    elim (Option-cases (lookup key s.commands)) [
      | inl missing ↦ ground (arith, missing)
      | inr (row, found) ↦ elim (Option-cases (claim_answer now row)) [
        | inl free ↦ ground (arith, found, free)
        | inr (answer, known) ↦
            let (same_answer, same_store, same) : (answer ≡ accepted result)
                × (s ≡ s')
                × (row.fingerprint ≡ fingerprint) =
              (
                ground (arith, found, known),
                ground (arith, found, known),
                ground (arith, found, known, eq_iff row.fingerprint fingerprint),
              ) in
            let (settled, given) =
              claim_answer-eq-accepted now row result (known ∙ ap some same_answer) in
            (row, ap (λ st. lookup key st.commands) (sym same_store) ∙ found, same, settled, given)
      ]
    ]

module _ (print_event : TaskLifecycleEvent → String)
    (print_projection : TaskProjection → String) where
  apply-commands :
      (event : TaskLifecycleEvent) (s : TaskStore)
      → ((apply print_event event s).1).commands ≡ s.commands
  unfolding apply apply_seen apply_new
  apply-commands event s = elim (Option-cases (lookup event.event_id s.events)) [
    | inr (seen, known) ↦ ground (arith, known)
    | inl new ↦ elim (Option-cases (lookup (key_of event.key) s.projections)) [
      | inl missing ↦ ground (arith, new, missing)
      | inr (e, found) ↦ ground (arith, new, found)
    ]
  ]

  reconcile-commands :
      (event : TaskLifecycleEvent) (s : TaskStore)
      → ((reconcile print_event print_projection event s).1).commands ≡ s.commands
  unfolding reconcile reconcile_with
  reconcile-commands event s =
      elim (Bool-cases (contradicts print_event event (lookup event.event_id s.events))) [
        | inl bad ↦ ground (arith, bad)
        | inr fine ↦ elim (Option-cases (lookup (key_of event.key) s.projections)) [
          | inl missing ↦ ground (arith, fine, missing)
          | inr (e, found) ↦ ground (arith, fine, found)
        ]
      ]

  perform_keeps_row :
      (w : Write) (key : String) (result : TaskCommandResult) (row : CommandRow)
      → row.status ≡ accepted_command
      → row.result ≡ some result
      → (s : TaskStore) → lookup key s.commands ≡ some row
      → lookup key (perform print_event print_projection w s).commands ≡ some row
  unfolding perform
  perform_keeps_row (apply_event event) key result row settled given s h =
      ap (lookup key) (apply-commands event s) ∙ h
  perform_keeps_row (reconcile_event event) key result row settled given s h =
      ap (lookup key) (reconcile-commands event s) ∙ h
  perform_keeps_row (claiming other f token now expires_at) key result row settled given s h =
      claim_keeps_row key result row settled given s h other f token now expires_at
  perform_keeps_row (accepting other token r) key result row settled given s h =
      accept_keeps_row key result row settled given s h other token r
  perform_keeps_row (releasing other token) key result row settled given s h =
      release_keeps_row key result row settled given s h other token

  pub run-IsAccepted :
      (ws : List Write) (key fingerprint : String) (result : TaskCommandResult) (s : TaskStore)
      → IsAccepted key fingerprint result s
      → IsAccepted key fingerprint result (run print_event print_projection ws s)
  unfolding run
  run-IsAccepted [] key fingerprint result s h = h
  run-IsAccepted (w ∷ ws) key fingerprint result s (row, found, same, settled, given) =
      run-IsAccepted ws key fingerprint result (perform print_event print_projection w s)
        (row, perform_keeps_row w key result row settled given s found, same, settled, given)

  -- A result that was accepted is final: whatever operations follow, in any order, a claim of the
  -- command answers with that result and changes nothing, or is refused if its fingerprint is another.
  pub accept_command_final :
      (key token : String) (result : TaskCommandResult) (row : CommandRow) (s s' : TaskStore)
      → lookup key s.commands ≡ some row
      → accept_command key token result s ≡ (ok true, s')
      → (ws : List Write) (f other : String) (now expires_at : ℕ)
      → claim_command key f other now expires_at (run print_event print_projection ws s') ≡ (
        if row.fingerprint === f then ok (accepted result) else err command_conflict,
        run print_event print_projection ws s',
      )
  accept_command_final key token result row s s' found done ws f other now expires_at =
      claim_command-IsAccepted key row.fingerprint result (run print_event print_projection ws s')
        (run-IsAccepted ws key row.fingerprint result s'
          (accept_command-IsAccepted key token result row s s' found done))
        f other now expires_at
