-- ===== src/Tasks/Service/Repeat.antt =====
-- service.ts: what was authorized and recorded once is authorized and recorded again.
use ai_crm_step.Base.{
  String, true, [], ◌∷◌, ◌++◌, Option, none, some, ◌≡◌, refl, inl, inr, ap, ◌∙◌, sym, arith,
  Bool-cases, Option-cases,
}
use ai_crm_step.Base.Eq.{string_key}
use ai_crm_step.Base.Dict.{lookup}
use ai_crm_step.Base.Result.{Result, ok, Result-cases}
use ai_crm_step.Base.Call.{◌>>=◌}
use ai_crm_step.Tasks.{
  TaskError, TaskOperation, TaskActor, TaskProjectionKey, TaskCommandResult, operation_denied,
}
use ai_crm_step.Tasks.Store as Store
use ai_crm_step.Tasks.Store.Commands.{IsAccepted}
use ai_crm_step.Tasks.Service.{
  AuditPhase, AuditRecord, attempted, failed, Ports, Journal, Context, ServiceCall,
  authorization_entry, required, record_audit, authorize, finish, guarded, storing,
}

-- A call answers with a value and leaves the store.
abbrev pub Answers : {A : Type 0} → ServiceCall A → A → Journal → Type 0
Answers call a i = (i' : Journal) × (call i ≡ (ok a, i')) × (i'.store ≡ i.store)

module _ (ports : Ports) where
  pub record_audit-Answers :
      (entry : AuditRecord) (i : Journal)
      → ports.audit entry ≡ true
      → Answers (record_audit ports entry) tt i
  unfolding record_audit
  record_audit-Answers entry i h =
      (record i { audits = i.audits ++ entry ∷ [] }, ground (arith, h), refl)

  -- A record that was taken once is taken again.
  pub record_audit_again :
      {u : Unit {0}} (entry : AuditRecord) (j j' : Journal)
      → record_audit ports entry j ≡ (ok u, j')
      → (ports.audit entry ≡ true) × (j'.store ≡ j.store)
  unfolding record_audit
  record_audit_again entry j j' h = elim (Bool-cases (ports.audit entry)) [
    | inl taken ↦ (taken, ground (arith, taken))
    | inr lost ↦ ground (arith, lost)
  ]

  -- An authorization that was given once is given again.
  pub authorize_again :
      (actor : TaskActor) (operation : TaskOperation) (key : Option TaskProjectionKey)
      (context : Context) (j j' : Journal)
      → authorize ports actor operation key j ≡ (ok context, j')
      → (j'.store ≡ j.store)
        × ((i : Journal) → Answers (authorize ports actor operation key) context i)
  unfolding authorize record_audit ◌>>=◌
  authorize_again actor operation key context j j' h =
      elim (Option-cases (ports.authorization actor operation key)) [
        | inl missing ↦ ground (arith, missing)
        | inr (decision, given) ↦ elim (Bool-cases decision.allowed) [
          | inr denied ↦
              elim (Bool-cases (
                ports.audit (
                  authorization_entry actor operation key decision.decision_id
                    (failed operation_denied)))) [
                      | inl taken ↦ ground (arith, given, denied, taken)
                      | inr lost ↦ ground (arith, given, denied, lost)
                    ]
          | inl allowed ↦
              let entry = authorization_entry actor operation key decision.decision_id attempted in
              elim (Bool-cases (ports.audit entry)) [
                | inr lost ↦ ground (arith, given, allowed, lost)
                | inl taken ↦ (
                  ground (arith, given, allowed, taken),
                  λ i. (
                    record i { audits = i.audits ++ entry ∷ [] },
                    ground (arith, given, allowed, taken),
                    refl,
                  ),
                )
              ]
        ]
      ]

  pub finish_again :
      {u : Unit {0}} (context : Context) (operation : TaskOperation) (reference_id : String)
      (phase : AuditPhase) (j j' : Journal)
      → finish ports context operation reference_id phase j ≡ (ok u, j')
      → (j'.store ≡ j.store)
        × ((i : Journal) → Answers (finish ports context operation reference_id phase) tt i)
  unfolding finish
  finish_again context operation reference_id phase j j' h =
      let (taken, same) =
        record_audit_again
          (record {
            principal_id = context.actor.principal_id;
            operation = operation;
            phase = phase;
            decision_id = context.decision_id;
            reference_id = reference_id;
          })
          j j' h in
      (
        same,
        λ i.
            record_audit-Answers
              (record {
                principal_id = context.actor.principal_id;
                operation = operation;
                phase = phase;
                decision_id = context.decision_id;
                reference_id = reference_id;
              })
              i taken,
      )

  module _ {A : Type 0} (context : Context) (operation : TaskOperation) (reference_id : String)
      (body : ServiceCall A) where
    -- What a guarded body returns, the body has returned.
    pub guarded-eq-ok :
        (a : A) (j j' : Journal)
        → guarded ports context operation reference_id body j ≡ (ok a, j')
        → body j ≡ (ok a, j')
    unfolding guarded ◌>>=◌
    guarded-eq-ok a j j' h = elim (Result-cases ((body j).0)) [
      | inl (b, good) ↦ ground (arith, good)
      | inr (e, bad) ↦
          elim (Result-cases
            ((finish ports context operation reference_id (failed e) ((body j).1)).0)) [
              | inl (u, done) ↦ ground (arith, bad, done)
              | inr (e', lost) ↦ ground (arith, bad, lost)
            ]
    ]

    pub guarded-Answers :
        (a : A) (i : Journal)
        → Answers body a i
        → Answers (guarded ports context operation reference_id body) a i
    unfolding guarded
    guarded-Answers a i (i', h, same) = (i', ground (arith, h), same)

-- The calls of a chain, one after the other.
pub chain-Answers :
    {A B : Type 0} (first : ServiceCall A) (next : A → ServiceCall B) (a : A) (b : B) (i : Journal)
    → Answers first a i
    → ((i' : Journal) → i'.store ≡ i.store → Answers (next a) b i')
    → Answers (first >>= next) b i
unfolding ◌>>=◌
chain-Answers first next a b i (i', h, same) rest =
    let (i'', h', same') = rest i' same in (i'', ground (arith, h, h'), same' ∙ same)

-- An operation of the store that answers.
pub storing-eq-ok :
    {A : Type 0} (call : Store.StoreCall A) (a : A) (j j' : Journal)
    → storing call j ≡ (ok a, j')
    → call j.store ≡ (ok a, j'.store)
storing-eq-ok call a j j' h = ground arith

pub return-eq-ok :
    {A : Type 0} (a b : A) (j j' : Journal)
    → ◌≡◌ {A = Result TaskError A × Journal} (ok a, j) (ok b, j')
    → (a ≡ b) × (j ≡ j')
return-eq-ok a b j j' h = (ground arith, ground arith)

pub required-eq-ok :
    {A : Type 0} (e : TaskError) (o : Option A) (a : A) (j j' : Journal)
    → required e o j ≡ (ok a, j')
    → j ≡ j'
required-eq-ok e none a j j' h = ground arith
required-eq-ok e (some b) a j j' h = ground arith

pub same-IsAccepted :
    (key fingerprint : String) (result r : TaskCommandResult) (s s' : Store.TaskStore)
    → IsAccepted key fingerprint result s
    → result ≡ r
    → s ≡ s'
    → IsAccepted key fingerprint r s'
same-IsAccepted key fingerprint result r s s' (row, found, same, settled, given) equal kept = (
  row,
  ap (λ st. lookup key st.commands) (sym kept) ∙ found,
  same,
  settled,
  given ∙ ap some equal,
)
