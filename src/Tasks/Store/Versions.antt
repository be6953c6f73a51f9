-- ===== src/Tasks/Store/Versions.antt =====
-- memory-store.ts: `apply` and `reconcile` never take a projection back to an older version.
use ai_crm_step.Base.{
  ℕ, ◌≤◌, String, List, [], ◌∷◌, none, some, ◌≡◌, refl, inl, inr, ap, ◌∙◌, arith, eq_iff, ltb, leb,
  ◌===◌, Bool-cases, Option-cases,
}
use ai_crm_step.Base.Eq.{string_key}
use ai_crm_step.Base.Dict.{Dict, lookup, insert, lookup-insert}
use ai_crm_step.Tasks.{TaskProjection, TaskLifecycleEvent, TaskCommandResult}
use ai_crm_step.Tasks.Store.{
  TaskStore, key_of, projection_of, next_projection, apply_seen, apply_new, apply, reconcile_with,
  reconcile, contradicts, claim_command, claim_found, claim_row, claim_answer, accept_command,
  release_command,
}
use ai_crm_step.Tasks.Store.Runs.{
  Write, apply_event, reconcile_event, claiming, accepting, releasing, perform, run,
}

-- A later form of a projection: no older version, under the same id and time of creation.
abbrev pub IsLaterForm : TaskProjection → TaskProjection → Type 0
IsLaterForm p q =
    (p.source_version ≤ q.source_version)
    × (q.projection_id ≡ p.projection_id)
    × (q.created_at ≡ p.created_at)

-- The entry under a key has become a later form of a projection.
abbrev pub HasLaterForm : String → TaskProjection → Dict String TaskProjection → Type 0
HasLaterForm k p m = (q : TaskProjection) × (lookup k m ≡ some q) × IsLaterForm p q

kept :
    (k : String) (p : TaskProjection) (m : Dict String TaskProjection)
    → lookup k m ≡ some p
    → HasLaterForm k p m
kept k p m h = (p, h, (ground arith, refl, refl))

-- A write of a first projection leaves the others.
put_first :
    (event : TaskLifecycleEvent) (k : String) (p : TaskProjection) (m : Dict String TaskProjection)
    → lookup (key_of event.key) m ≡ none
    → lookup k m ≡ some p
    → HasLaterForm k p (insert (key_of event.key) (next_projection event none) m)
put_first event k p m missing h = (
  p,
  ground (
    arith,
    lookup-insert (key_of event.key) k (next_projection event none) m,
    eq_iff (key_of event.key) k,
  ),
  (ground arith, refl, refl),
)

-- A write of a version that is not older than the one that is there.
put_next :
    (event : TaskLifecycleEvent) (e : TaskProjection) (k : String) (p : TaskProjection)
    (m : Dict String TaskProjection)
    → lookup (key_of event.key) m ≡ some e
    → e.source_version ≤ event.source_version
    → lookup k m ≡ some p
    → HasLaterForm k p (insert (key_of event.key) (next_projection event (some e)) m)
unfolding next_projection projection_of
put_next event e k p m found newer h =
    let looked = lookup-insert (key_of event.key) k (next_projection event (some e)) m in
    elim (Bool-cases (key_of event.key === k)) [
      | inr other ↦ (p, ground (arith, other, looked), (ground arith, refl, refl))
      | inl same ↦
          let here : e ≡ p = ground (arith, same, eq_iff (key_of event.key) k) in
          (
            next_projection event (some e),
            ground (arith, same, looked),
            (ground (arith, here), ap (λ q. q.projection_id) here, ap (λ q. q.created_at) here),
          )
    ]

module _ (print_event : TaskLifecycleEvent → String) (print_projection : TaskProjection → String)
    (k : String) (p : TaskProjection) (s : TaskStore) (h : lookup k s.projections ≡ some p) where
  apply-IsMonotone :
      (event : TaskLifecycleEvent) → HasLaterForm k p ((apply print_event event s).1).projections
  unfolding apply apply_new apply_seen
  apply-IsMonotone event = elim (Option-cases (lookup event.event_id s.events)) [
    | inr (seen, known) ↦ (p, ground (arith, known), (ground arith, refl, refl))
    | inl new ↦ elim (Option-cases (lookup (key_of event.key) s.projections)) [
      | inl missing ↦
          let (q, found, later) = put_first event k p s.projections missing h in
          (q, ground (arith, new, missing, found), later)
      | inr (e, found) ↦ elim (Bool-cases (leb event.source_version e.source_version)) [
        | inl behind ↦ (p, ground (arith, new, found, behind), (ground arith, refl, refl))
        | inr ahead ↦
            let (q, written, later) =
              put_next event e k p s.projections found (ground (arith, ahead)) h in
            (q, ground (arith, new, found, ahead, written), later)
      ]
    ]
  ]

  reconcile-IsMonotone :
      (event : TaskLifecycleEvent)
      → HasLaterForm k p ((reconcile print_event print_projection event s).1).projections
  unfolding reconcile reconcile_with
  reconcile-IsMonotone event =
      elim (Bool-cases (contradicts print_event event (lookup event.event_id s.events))) [
        | inl bad ↦ (p, ground (arith, bad), (ground arith, refl, refl))
        | inr fine ↦ elim (Option-cases (lookup (key_of event.key) s.projections)) [
          | inl missing ↦
              let (q, found, later) = put_first event k p s.projections missing h in
              (q, ground (arith, fine, missing, found), later)
          | inr (e, found) ↦ elim (Bool-cases (ltb event.source_version e.source_version)) [
            | inl behind ↦ (p, ground (arith, fine, found, behind), (ground arith, refl, refl))
            | inr ahead ↦
                let (q, written, later) =
                  put_next event e k p s.projections found (ground (arith, ahead)) h in
                (q, ground (arith, fine, found, ahead, written), later)
          ]
        ]
      ]

pub claim_keeps :
    (key fingerprint token : String) (now expires_at : ℕ) (s : TaskStore)
    → ((claim_command key fingerprint token now expires_at s).1).projections ≡ s.projections
unfolding claim_command claim_found claim_row
claim_keeps key fingerprint token now expires_at s = elim (Option-cases (lookup key s.commands)) [
  | inl missing ↦ ground (arith, missing)
  | inr (row, found) ↦ elim (Option-cases (claim_answer now row)) [
    | inl free ↦ ground (arith, found, free)
    | inr (answer, taken) ↦ ground (arith, found, taken)
  ]
]

pub accept_keeps :
    (key token : String) (result : TaskCommandResult) (s : TaskStore)
    → ((accept_command key token result s).1).projections ≡ s.projections
unfolding accept_command
accept_keeps key token result s = elim (Option-cases (lookup key s.commands)) [
  | inl missing ↦ ground (arith, missing)
  | inr (row, found) ↦ ground (arith, found)
]

module _ (print_event : TaskLifecycleEvent → String)
    (print_projection : TaskProjection → String) where
  perform-IsMonotone :
      (w : Write) (k : String) (p : TaskProjection) (s : TaskStore)
      → lookup k s.projections ≡ some p
      → HasLaterForm k p (perform print_event print_projection w s).projections
  unfolding perform accept_command release_command
  perform-IsMonotone (apply_event event) k p s h =
      apply-IsMonotone print_event print_projection k p s h event
  perform-IsMonotone (reconcile_event event) k p s h =
      reconcile-IsMonotone print_event print_projection k p s h event
  perform-IsMonotone (claiming key fingerprint token now expires_at) k p s h = (
    p,
    ground (arith, claim_keeps key fingerprint token now expires_at s),
    (ground arith, refl, refl),
  )
  perform-IsMonotone (accepting key token result) k p s h =
      (p, ground (arith, accept_keeps key token result s), (ground arith, refl, refl))
  perform-IsMonotone (releasing key token) k p s h = elim (Option-cases (lookup key s.commands)) [
    | inl missing ↦ (p, ground (arith, missing), (ground arith, refl, refl))
    | inr (row, found) ↦ (p, ground (arith, found), (ground arith, refl, refl))
  ]

  -- Whatever operations follow, in any order, a projection that the store has stays there in a later
  -- form: its source version does not go back, and its id and its time of creation do not change.
  pub run-IsMonotone :
      (ws : List Write) (k : String) (p : TaskProjection) (s : TaskStore)
      → lookup k s.projections ≡ some p
      → HasLaterForm k p (run print_event print_projection ws s).projections
  unfolding run
  run-IsMonotone [] k p s h = kept k p s.projections h
  run-IsMonotone (w ∷ ws) k p s h =
      let (q, found, (newer, same_id, same_time)) = perform-IsMonotone w k p s h in
      let (r, there, (newest, kept_id, kept_time)) =
        run-IsMonotone ws k q (perform print_event print_projection w s) found in
      (r, there, (ground arith, kept_id ∙ same_id, kept_time ∙ same_time))
