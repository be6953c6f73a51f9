-- ===== src/Configuration/Service/Audited.antt =====
-- service.ts: `mutate` changes the store only behind an authorization and a record of the attempt.
use ai_crm_step.Base.{
  Bool, true, false, String, ◌≡◌, ◌⊎◌, inl, inr, [], ◌∷◌, ◌++◌, Option, some, arith, Bool-cases,
  Option-cases,
}
use ai_crm_step.Base.Result.{Result, ok, Result-cases}
use ai_crm_step.Base.Call.{◌>>=◌}
use ai_crm_step.Configuration.{ConfigurationError}
use ai_crm_step.Configuration.Store.{Outcome}
use ai_crm_step.Configuration.Service.{
  Action, AuthorizationRequest, attempted, succeeded, Ports, Journal, Work, authorize, record_audit,
  settle, mutate,
}

module _ (ports : Ports) (action : Action) (resource_id : String) (owner_module : Option String)
    (work : Work) (j j' : Journal) where
  abbrev request : AuthorizationRequest
  request = record { action = action; owner_module = owner_module; resource_id = resource_id }

  -- Where `mutate` returns, the authorizer allowed the request, the store and the answer are those
  -- of the work, and exactly the attempt and the success have been recorded.
  pub mutate_recorded :
      (o : Outcome) (replayed : Bool)
      → mutate ports action resource_id owner_module work j ≡ (ok (o, replayed), j')
      → (ports.authorizer request ≡ some true)
        × (work j.store ≡ ok (o, replayed, j'.store))
        × (j'.audits ≡ (j.audits ++ attempted ∷ []) ++ succeeded ∷ [])
  unfolding mutate authorize record_audit settle ◌>>=◌
  mutate_recorded o replayed h = elim (Option-cases (ports.authorizer request)) [
    | inl missing ↦ ground (arith, missing)
    | inr (false, refused) ↦ ground (arith, refused)
    | inr (true, allowed) ↦ elim (Bool-cases (ports.audit attempted)) [
      | inr lost ↦ ground (arith, allowed, lost)
      | inl taken ↦ elim (Result-cases (work j.store)) [
        | inr (e, bad) ↦ ground (arith, allowed, taken, bad)
        | inl ((p, again, st), good) ↦
            (allowed, ground (arith, allowed, taken, good), ground (arith, allowed, taken, good))
      ]
    ]
  ]

  -- However `mutate` ends, the store is as it was, or the authorizer allowed the request, the attempt
  -- was recorded, and the store is the one that the work left.
  pub mutate_authorized :
      (answer : Result ConfigurationError (Outcome × Bool))
      → mutate ports action resource_id owner_module work j ≡ (answer, j')
      → (j'.store ≡ j.store)
        ⊎ ((ports.authorizer request ≡ some true)
            × (ports.audit attempted ≡ true)
            × ((o : Outcome) × (replayed : Bool) × (work j.store ≡ ok (o, replayed, j'.store))))
  unfolding mutate authorize record_audit settle ◌>>=◌
  mutate_authorized answer h = elim (Option-cases (ports.authorizer request)) [
    | inl missing ↦ inl (ground (arith, missing))
    | inr (false, refused) ↦ inl (ground (arith, refused))
    | inr (true, allowed) ↦ elim (Bool-cases (ports.audit attempted)) [
      | inr lost ↦ inl (ground (arith, allowed, lost))
      | inl taken ↦ elim (Result-cases (work j.store)) [
        | inr (e, bad) ↦ inl (ground (arith, allowed, taken, bad))
        | inl ((p, again, st), good) ↦
            inr (allowed, taken, (p, again, ground (arith, allowed, taken, good)))
      ]
    ]
  ]
