-- ===== src/Tasks/Service/Complete.antt =====
-- service.ts: a completion that was answered is answered again in the same way.
use ai_crm_step.Base.{
  ℕ, ◌+◌, String, not, true, List, Option, none, some, ◌≡◌, inl, inr, ap, ◌∙◌, sym, subst, arith,
  eq_iff, Option-cases,
}
use ai_crm_step.Base.Eq.{string_key}
use ai_crm_step.Base.Dict.{lookup}
use ai_crm_step.Base.Result.{ok, Result-cases}
use ai_crm_step.Base.Call.{◌>>=◌, >>=-eq-ok, refuse_if-eq-ok}
use ai_crm_step.Tasks.{
  TaskOperation, task_complete, task_detail, TaskActor, TaskProjectionKey, TaskProjection,
  TaskLifecycleEvent, TaskCommandResult, TaskCommandClaim, claimed, running, accepted,
  command_in_progress, input_invalid, storage_unavailable,
}
use ai_crm_step.Tasks.Store as Store
use ai_crm_step.Tasks.Store.Commands.{
  IsAccepted, claimed-IsAccepted, claim_command-IsAccepted, accept_command-IsAccepted,
  run-IsAccepted,
}
use ai_crm_step.Tasks.Store.Leases.{leased, claimed-leased}
use ai_crm_step.Tasks.Store.Runs.{Write, run}
use ai_crm_step.Tasks.Store.Versions.{claim_keeps, accept_keeps, run-IsMonotone}
use ai_crm_step.Tasks.Service.{
  succeeded, Ports, Journal, Context, reference_of, CompleteTurn, finish, get_authorized, read_task,
  claim_and_settle, accept_routed, settle_claim, complete,
}
use ai_crm_step.Tasks.Service.Repeat.{
  Answers, authorize_again, finish_again, guarded-eq-ok, guarded-Answers, chain-Answers,
  storing-eq-ok, return-eq-ok, required-eq-ok, same-IsAccepted,
}

module _ (ports : Ports) where
  read_task_again :
      (context : Context) (key : TaskProjectionKey) (operation : TaskOperation) (p : TaskProjection)
      (j j' : Journal)
      → read_task ports context key operation j ≡ (ok p, j')
      → (j'.store ≡ j.store)
        × (Store.get key j.store ≡ some p)
        × ((i : Journal) (q : TaskProjection)
            → Store.get key i.store ≡ some q
            → Answers (read_task ports context key operation) q i)
  unfolding read_task ◌>>=◌
  read_task_again context key operation p j j' h = elim (Option-cases (Store.get key j.store)) [
    | inl missing ↦ ground (arith, missing)
    | inr (r, found) ↦
        elim (Result-cases ((finish ports context operation (reference_of key) succeeded j).0)) [
          | inr (e, lost) ↦ ground (arith, found, lost)
          | inl (u, done) ↦
              let (same, again) =
                finish_again ports context operation (reference_of key) succeeded j
                  ((finish ports context operation (reference_of key) succeeded j).1)
                  (ap
                    (λ answer.
                      (answer, (finish ports context operation (reference_of key) succeeded j).1))
                    done) in
              (
                ground (arith, found, done, same),
                ground (arith, found, done),
                λ i q there. ((again i).0, ground (arith, there, (again i).1), (again i).2),
              )
        ]
  ]

  get_authorized_again :
      (actor : TaskActor) (key : TaskProjectionKey) (operation : TaskOperation) (p : TaskProjection)
      (j j' : Journal)
      → get_authorized ports actor key operation j ≡ (ok p, j')
      → (j'.store ≡ j.store)
        × (Store.get key j.store ≡ some p)
        × ((i : Journal) (q : TaskProjection)
            → Store.get key i.store ≡ some q
            → Answers (get_authorized ports actor key operation) q i)
  unfolding get_authorized
  get_authorized_again actor key operation p j j' h =
      let (context, j1, authorized, rest) = >>=-eq-ok _ _ j h in
      let (same1, again1) =
        authorize_again ports actor operation (some key) context j j1 authorized in
      let (same2, there, again2) = read_task_again context key operation p j1 j' (
        guarded-eq-ok ports context operation (reference_of key)
          (read_task ports context key operation) p j1 j' rest) in
      (
        same2 ∙ same1,
        ap (Store.get key) (sym same1) ∙ there,
        λ i q found. chain-Answers _ _ context q i (again1 i) (λ i' same.
            guarded-Answers ports context operation (reference_of key)
              (read_task ports context key operation) q i'
              (again2 i' q (ap (Store.get key) same ∙ found))),
      )

  accept_routed_again :
      (context : Context) (key : TaskProjectionKey) (idempotency_key token : String)
      (row : Store.CommandRow) (routed : Option TaskCommandResult) (r : TaskCommandResult)
      (j j' : Journal)
      → lookup idempotency_key j.store.commands ≡ some row
      → accept_routed ports context key idempotency_key token routed j ≡ (ok r, j')
      → IsAccepted idempotency_key row.fingerprint r j'.store
        × (j'.store.projections ≡ j.store.projections)
        × ((i : Journal)
            → Answers (finish ports context task_complete (reference_of key) succeeded) tt i)
  unfolding accept_routed
  accept_routed_again context key idempotency_key token row none r j j' found h =
      let (u, j1, released, rest) = >>=-eq-ok _ _ j h in ground arith
  accept_routed_again context key idempotency_key token row (some result) r j j' found h =
      let (done, j1, h1, k1) = >>=-eq-ok _ _ j h in
      let (u, j2, h2, k2) = >>=-eq-ok _ _ j1 k1 in
      let (v, j3, h3, k3) = >>=-eq-ok _ _ j2 k2 in
      let (good, same2) = refuse_if-eq-ok (not done) command_in_progress j1 j2 h2 in
      let (same3, again) =
        finish_again ports context task_complete (reference_of key) succeeded j2 j3 h3 in
      let (equal, same4) = return-eq-ok result r j3 j' k3 in
      let accepted_so : Store.accept_command idempotency_key token result j.store
          ≡ (ok true, j1.store) =
        storing-eq-ok (Store.accept_command idempotency_key token result) done j j1 h1
        ∙ ap (λ b. (ok b, j1.store)) (ground (arith, good)) in
      (
        same-IsAccepted idempotency_key row.fingerprint result r j1.store j'.store
            (accept_command-IsAccepted idempotency_key token result row j.store j1.store found
              accepted_so)
            equal (ap (λ i. i.store) same2 ∙ sym same3 ∙ ap (λ i. i.store) same4),
        ap (λ i. i.store.projections) (sym same4)
            ∙ ap (λ st. st.projections) same3
            ∙ ap (λ i. i.store.projections) (sym same2)
            ∙ (ap (λ x. (x.1).projections) (sym accepted_so)
                ∙ accept_keeps idempotency_key token result j.store),
        again,
      )

  settle_claim_again :
      (context : Context) (key : TaskProjectionKey) (idempotency_key fingerprint token : String)
      (now expires_at : ℕ) (routed : Option TaskCommandResult) (claim : TaskCommandClaim)
      (r : TaskCommandResult) (s : Store.TaskStore) (j j' : Journal)
      → Store.claim_command idempotency_key fingerprint token now expires_at s ≡ (ok claim, j.store)
      → settle_claim ports context key idempotency_key routed claim j ≡ (ok r, j')
      → IsAccepted idempotency_key fingerprint r j'.store
        × (j'.store.projections ≡ s.projections)
        × ((i : Journal)
            → Answers (finish ports context task_complete (reference_of key) succeeded) tt i)
  unfolding settle_claim
  settle_claim_again context key idempotency_key fingerprint token now expires_at routed running r s
        j j' claimed_so h =
      ground arith
  settle_claim_again context key idempotency_key fingerprint token now expires_at routed
        (accepted result) r s j j' claimed_so h =
      let (u, j1, finished, rest) = >>=-eq-ok _ _ j h in
      let (same, again) =
        finish_again ports context task_complete (reference_of key) succeeded j j1 finished in
      let stored =
        claimed-IsAccepted idempotency_key fingerprint token now expires_at s j.store result
          claimed_so in
      let claimed_keeps : j.store.projections ≡ s.projections =
        ap (λ x. (x.1).projections) (sym claimed_so)
        ∙ claim_keeps idempotency_key fingerprint token now expires_at s in
      let (equal, same4) = return-eq-ok result r j1 j' rest in
      (
        same-IsAccepted idempotency_key fingerprint result r j.store j'.store stored equal
            (sym same ∙ ap (λ i. i.store) same4),
        ap (λ i. i.store.projections) (sym same4) ∙ ap (λ st. st.projections) same ∙ claimed_keeps,
        again,
      )
  settle_claim_again context key idempotency_key fingerprint token now expires_at routed
        (claimed held) r s j j' claimed_so h =
      let (stored, same) =
        claimed-leased idempotency_key fingerprint token held now expires_at s j.store claimed_so in
      let claimed_keeps : j.store.projections ≡ s.projections =
        ap (λ x. (x.1).projections) (sym claimed_so)
        ∙ claim_keeps idempotency_key fingerprint token now expires_at s in
      let (row_so, kept, again) =
        accept_routed_again context key idempotency_key held (leased fingerprint held expires_at)
          routed r j j' stored h in
      (row_so, kept ∙ claimed_keeps, again)

  claim_and_settle_again :
      (context : Context) (key : TaskProjectionKey) (idempotency_key fingerprint : String)
      (lease_ms : ℕ) (turn : CompleteTurn) (r : TaskCommandResult) (j j' : Journal)
      → claim_and_settle ports fingerprint lease_ms turn context key idempotency_key j ≡ (ok r, j')
      → IsAccepted idempotency_key fingerprint r j'.store
        × (j'.store.projections ≡ j.store.projections)
        × ((i : Journal)
            → Answers (finish ports context task_complete (reference_of key) succeeded) tt i)
  unfolding claim_and_settle
  claim_and_settle_again context key idempotency_key fingerprint lease_ms turn r j j' h =
      let (claimed_at, j1, h1, k1) = >>=-eq-ok _ _ j h in
      let (token, j2, h2, k2) = >>=-eq-ok _ _ j1 k1 in
      let (claim, j3, h3, k3) = >>=-eq-ok _ _ j2 k2 in
      let (stored, kept, again) =
        settle_claim_again context key idempotency_key fingerprint token claimed_at
          (claimed_at + lease_ms) turn.routed claim r j2.store j3 j'
          (storing-eq-ok
            (Store.claim_command idempotency_key fingerprint token claimed_at
              (claimed_at + lease_ms))
            claim j2 j3 h3)
          k3 in
      (
        stored,
        kept
            ∙ (ap (λ i. i.store.projections)
                  (sym (required-eq-ok input_invalid turn.lease_token token j1 j2 h2))
                ∙ ap (λ i. i.store.projections)
                    (sym (required-eq-ok storage_unavailable turn.now claimed_at j j1 h1))),
        again,
      )

  -- A claim of a command whose result is stored gives that result.
  claim_and_settle-Answers :
      (context : Context) (key : TaskProjectionKey) (idempotency_key fingerprint : String)
      (lease_ms : ℕ) (turn : CompleteTurn) (r : TaskCommandResult) (t : ℕ) (token : String)
      (i : Journal)
      → turn.now ≡ some t
      → turn.lease_token ≡ some token
      → IsAccepted idempotency_key fingerprint r i.store
      → ((i' : Journal)
          → Answers (finish ports context task_complete (reference_of key) succeeded) tt i')
      → Answers (claim_and_settle ports fingerprint lease_ms turn context key idempotency_key) r i
  unfolding claim_and_settle settle_claim ◌>>=◌
  claim_and_settle-Answers context key idempotency_key fingerprint lease_ms turn r t token i clock
        fresh stored finished =
      let known : Store.claim_command idempotency_key fingerprint token t (t + lease_ms) i.store
          ≡ (ok (accepted r), i.store) =
        claim_command-IsAccepted idempotency_key fingerprint r i.store stored fingerprint token t
          (t + lease_ms)
        ∙ ground (arith, eq_iff fingerprint fingerprint) in
      let (i', done, same) = finished i in (i', ground (arith, clock, fresh, known, done), same)

  module _ (print_event : TaskLifecycleEvent → String) (print_projection : TaskProjection → String)
      (print : String → TaskProjectionKey → String) where
    -- A completion that returned a result is idempotent: whatever operations of the store follow, in
    -- any order, the same command of the same actor returns that result again and leaves the store
    -- alone, whatever the router would answer. The second call has a clock and a well-formed token,
    -- and the same authorization and audit.
    pub complete_again :
        (actor : TaskActor) (key : TaskProjectionKey) (idempotency_key : String)
        (lease_ms lease_ms' : ℕ) (turn turn' : CompleteTurn) (r : TaskCommandResult)
        (j j' i : Journal)
        → complete ports print lease_ms turn actor key idempotency_key j ≡ (ok r, j')
        → (ws : List Write) → i.store ≡ run print_event print_projection ws j'.store
        → (t : ℕ) (token : String) → turn'.now ≡ some t
        → turn'.lease_token ≡ some token
        → Answers (complete ports print lease_ms' turn' actor key idempotency_key) r i
    unfolding complete Store.get
    complete_again actor key idempotency_key lease_ms lease_ms' turn turn' r j j' i h ws reached t
          token clock fresh =
        let (p, j1, h1, k1) = >>=-eq-ok _ _ j h in
        let (same1, there, seen) = get_authorized_again actor key task_detail p j j1 h1 in
        let (context, j2, h2, k2) = >>=-eq-ok _ _ j1 k1 in
        let (same2, allowed) =
          authorize_again ports actor task_complete (some key) context j1 j2 h2 in
        let fingerprint = print actor.principal_id key in
        let (stored, kept, finished) =
          claim_and_settle_again context key idempotency_key fingerprint lease_ms turn r j2 j' (
            guarded-eq-ok ports context task_complete (reference_of key)
              (claim_and_settle ports fingerprint lease_ms turn context key idempotency_key) r j2 j'
              k2) in
        let before : Store.get key j'.store ≡ some p =
          ap (lookup (Store.key_of key))
            (kept ∙ ap (λ st. st.projections) same2 ∙ ap (λ st. st.projections) same1)
          ∙ there in
        let (q, later, form) =
          run-IsMonotone print_event print_projection ws (Store.key_of key) p j'.store before in
        let now_there : Store.get key i.store ≡ some q = ap (Store.get key) reached ∙ later in
        chain-Answers _ _ q r i (seen i q now_there) (λ i1 kept1.
          chain-Answers _ _ context r i1 (allowed i1) (λ i2 kept2.
            guarded-Answers ports context task_complete (reference_of key)
              (claim_and_settle ports fingerprint lease_ms' turn' context key idempotency_key) r i2
              (claim_and_settle-Answers context key idempotency_key fingerprint lease_ms' turn' r t
                token i2 clock fresh
                (subst (IsAccepted idempotency_key fingerprint r) (sym (kept2 ∙ kept1 ∙ reached)) (
                  run-IsAccepted print_event print_projection ws idempotency_key fingerprint r
                    j'.store stored))
                finished)))
