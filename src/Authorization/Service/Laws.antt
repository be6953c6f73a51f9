-- ===== src/Authorization/Service/Laws.antt =====
-- engine.ts, the service: the cache decides nothing, every decision is recorded, and all failures
-- deny.
use ai_crm_step.Base.{
  ℕ, String, ◌+◌, ◌*◌, ◌-◌, min, ◌≤◌, Bool, true, ◌&&◌, ◌≡◌, refl, ◌⊎◌, ◌↔◌, inl, inr, List, [],
  ◌∷◌, Option, none, some, arith, All, leb, Option-cases, Bool-cases, sym, ◌∙◌, ap, subst,
}
use mathlib.Core.Option.{some-injective}
use ai_crm_step.Base.Pattern.{is_uuid, is_trace_id}
use ai_crm_step.Base.Result.{Result, ok, err, Result-cases}
use ai_crm_step.Authorization.Types.{
  DataScopeTerm, DataScope, ValidatedPolicy, SubjectContext, PermissionRequest, Evaluation,
  Decision, Operation, check,
}
use ai_crm_step.Authorization.Engine.{Question, evaluate_policy}
use ai_crm_step.Authorization.Engine.Spec.{IsAuthorized, check_allowed_iff}
use ai_crm_step.Authorization.Engine.Window.{evaluate_within_ttl}
use ai_crm_step.Authorization.Service.{
  Turn, AuthorizationServiceOptions, ServiceError, unavailable, CacheStatus, miss, error,
  evaluation_equal, CacheWrite, DecisionRecord, question, load_policy, store_fresh, answer_cache,
  use_cache, write_of, evaluate_turn, identify, decision_of, record_of, finalize,
  request_or_invalid, judge, judge_turn, decide, check_permission, require_allowed,
}

-- The same turn with other answers of the cache.
abbrev pub recached : Turn → Bool → (String → Option (Option Evaluation)) → Bool → Turn
recached t has_cache cached accepts = record t {
  has_cache = has_cache;
  cached = cached;
  cache_accepts = accepts;
}

module _ (P : CacheWrite → Type 0) (t : Turn) (w : CacheWrite) (p : 1 ≤ w.ttl_seconds → P w) where
  store_fresh-All : (status : CacheStatus) → All P (store_fresh t status w).1
  unfolding store_fresh
  store_fresh-All status = elim (Bool-cases (leb 1 w.ttl_seconds)) [
    | inl lasting ↦ rw (lasting) (p (ground arith), tt)
    | inr short ↦ rw (short) tt
  ]

  answer_cache-All : (answer : Option Evaluation) → All P (answer_cache t w answer).1
  unfolding answer_cache
  answer_cache-All none = store_fresh-All miss
  answer_cache-All (some e) = elim (Bool-cases (evaluation_equal e w.evaluation)) [
    | inl same ↦ rw (same) tt
    | inr other ↦ rw (other) (store_fresh-All error)
  ]

  use_cache-All : All P (use_cache t w).1
  unfolding use_cache
  use_cache-All = elim (Bool-cases t.has_cache) [
    | inr absent ↦ rw (absent) tt
    | inl present ↦ elim (Option-cases (t.cached w.key)) [
      | inl failed ↦ rw (present, failed) tt
      | inr (answer, answers) ↦ rw (present, answers) (answer_cache-All answer)
    ]
  ]

-- The sources gave these two ids, and both are well formed.
abbrev pub IsIdentified : Turn → String → String → Type 0
IsIdentified t id trace =
    (t.decision_id ≡ some id)
    × (t.trace_id ≡ some trace)
    × (is_uuid id ≡ true)
    × (is_trace_id trace ≡ true)

-- Nothing stands in the way of a record: the ids are there, and the recorder takes it.
abbrev pub CanRecord : Turn → Type 0
CanRecord t =
    (t.recorder_accepts ≡ true) × ((id : String) × (trace : String) × IsIdentified t id trace)

identify_cases :
    (t : Turn)
    → ((id : String) × (trace : String) × (identify t ≡ some (id, trace)) × IsIdentified t id trace)
      ⊎ ((identify t ≡ none) × ¬ ((id : String) × (trace : String) × IsIdentified t id trace))
unfolding identify
identify_cases t = elim (Option-cases t.decision_id) [
  | inl absent ↦
      inr (
        ground (arith, absent),
        λ (i, tr, (given, given', one, two)). ground (arith, absent, given),
      )
  | inr (id, found) ↦ elim (Option-cases t.trace_id) [
    | inl absent ↦ inr (
      ground (arith, found, absent),
      λ (i, tr, (given, given', one, two)). ground (arith, absent, given'),
    )
    | inr (trace, traced) ↦ elim (Bool-cases (is_uuid id && is_trace_id trace)) [
      | inl good ↦ inl (
        id,
        trace,
        ground (arith, found, traced, good),
        (found, traced, ground (arith, good), ground (arith, good)),
      )
      | inr bad ↦ inr (
        ground (arith, found, traced, bad),
        λ (i, tr, (given, given', one, two)).
            let same : id ≡ i = some-injective id i (sym found ∙ given) in
            let same' : trace ≡ tr = some-injective trace tr (sym traced ∙ given') in
            let uuid : is_uuid id ≡ true = ap is_uuid same ∙ one in
            let traceable : is_trace_id trace ≡ true = ap is_trace_id same' ∙ two in
            ground (arith, bad, uuid, traceable),
      )
    ]
  ]
]

-- How `finalize` ends: with a recorded decision, or with an error.
abbrev Finalized :
    Turn
    → ℕ
    → Evaluation
    → PermissionRequest
    → Option SubjectContext
    → Operation
    → Result ServiceError (Decision × Option DataScope) × List DecisionRecord
    → Type 0
Finalized t at e r s operation (outcome, records) =
    ((id : String) × (trace : String) × (outcome ≡ ok (decision_of at e id, e.scope))
      × (records ≡ record_of (decision_of at e id) trace r s operation ∷ [])
      × (t.recorder_accepts ≡ true)
      × IsIdentified t id trace)
    ⊎ ((outcome ≡ err unavailable) × (records ≡ []) × ¬ CanRecord t)

finalize_cases :
    (t : Turn) (at : ℕ) (e : Evaluation) (r : PermissionRequest) (s : Option SubjectContext)
    (operation : Operation)
    → Finalized t at e r s operation (finalize t at e r s operation)
unfolding finalize
finalize_cases t at e r s operation = elim (identify_cases t) [
  | inr (unidentified, absent) ↦
      inr
        (ground (arith, unidentified), ground (arith, unidentified), λ (accepted, ids). absent ids)
  | inl (id, trace, identified, ids) ↦ elim (Bool-cases t.recorder_accepts) [
    | inl accepted ↦ inl (
      id,
      trace,
      ground (arith, identified, accepted),
      ground (arith, identified, accepted),
      accepted,
      ids,
    )
    | inr rejected ↦ inr (
      ground (arith, identified),
      ground (arith, identified),
      λ (accepted, others). ground (arith, rejected),
    )
  ]
]

finalize-recached :
    (t : Turn) (b : Bool) (f : String → Option (Option Evaluation)) (a : Bool) (at : ℕ)
    (e : Evaluation) (r : PermissionRequest) (s : Option SubjectContext) (operation : Operation)
    → finalize (recached t b f a) at e r s operation ≡ finalize t at e r s operation
unfolding finalize identify
finalize-recached t b f a at e r s operation = refl

module _ (before : DataScopeTerm → DataScopeTerm → Bool)
    (cache_key : Question → String → SubjectContext → PermissionRequest → String)
    (o : AuthorizationServiceOptions) where
  evaluate_turn-recached :
      (t : Turn) (b : Bool) (f : String → Option (Option Evaluation)) (a : Bool)
      (s : SubjectContext) (r : PermissionRequest) (at : ℕ) (q : Question)
      → (evaluate_turn before cache_key o (recached t b f a) s r at q).0
        ≡ (evaluate_turn before cache_key o t s r at q).0
  unfolding evaluate_turn load_policy
  evaluate_turn-recached t b f a s r at q = ground arith

  judge_turn-recached :
      (t : Turn) (b : Bool) (f : String → Option (Option Evaluation)) (a : Bool)
      (s : Option SubjectContext) (r : Option PermissionRequest) (has_context : Bool)
      (operation : Operation)
      → let (at, (e, status, writes)) = judge_turn before cache_key o t s r has_context operation in
        let (at', (e', status', writes')) =
          judge_turn before cache_key o (recached t b f a) s r has_context operation in
        (at' ≡ at) × (e' ≡ e)
  unfolding judge_turn judge
  judge_turn-recached t b f a none r has_context operation = ground arith
  judge_turn-recached t b f a (some s) none has_context operation = ground arith
  judge_turn-recached t b f a (some s) (some r) has_context operation =
      elim (Option-cases t.clock) [
        | inl stopped ↦ ground arith
        | inr (at, time) ↦
            ground (arith, evaluate_turn-recached t b f a s r at (question operation))
      ]

  -- Whatever the cache holds, and whether there is one, answers or fails, the outcome of a decision
  -- and what is recorded of it are the same.
  pub decide-recached :
      (t : Turn) (b : Bool) (f : String → Option (Option Evaluation)) (a : Bool)
      (s : Option SubjectContext) (r : Option PermissionRequest) (has_context : Bool)
      (operation : Operation)
      → let (outcome, effects) = decide before cache_key o t s r has_context operation in
        let (outcome', effects') =
          decide before cache_key o (recached t b f a) s r has_context operation in
        (outcome' ≡ outcome) × (effects'.records ≡ effects.records)
  unfolding decide
  decide-recached t b f a s r has_context operation =
      let (same_at, same_e) = judge_turn-recached t b f a s r has_context operation in
      rw
        (
          same_at,
          same_e,
          finalize-recached t b f a (judge_turn before cache_key o t s r has_context operation).0
              (judge_turn before cache_key o t s r has_context operation).1.0 (request_or_invalid r)
              s operation,
        )
        (refl, refl)

  -- A decision is given exactly if the id sources give a UUID and a trace id and the recorder takes
  -- the record: it carries that UUID, and the one record that is written holds the decision itself,
  -- that trace id and the operation. In every other case, a missing or malformed id included, the
  -- outcome is the error `AUTHORIZATION_UNAVAILABLE` and nothing is recorded.
  pub decide_recorded :
      (t : Turn) (s : Option SubjectContext) (r : Option PermissionRequest) (has_context : Bool)
      (operation : Operation)
      → let (outcome, effects) = decide before cache_key o t s r has_context operation in
        ((d : Decision) × (scope : Option DataScope) × (trace : String) × (outcome ≡ ok (d, scope))
          × (effects.records ≡ record_of d trace (request_or_invalid r) s operation ∷ [])
          × (t.recorder_accepts ≡ true)
          × IsIdentified t d.decision_id trace)
        ⊎ ((outcome ≡ err unavailable) × (effects.records ≡ []) × ¬ CanRecord t)
  unfolding decide
  decide_recorded t s r has_context operation =
      let (at, (e, status, writes)) = judge_turn before cache_key o t s r has_context operation in
      elim (finalize_cases t at e (request_or_invalid r) s operation) [
        | inl (id, trace, given, recorded, accepted, ids) ↦
            inl (decision_of at e id, e.scope, trace, given, recorded, accepted, ids)
        | inr failed ↦ inr failed
      ]

  -- What an allowed evaluation rests on.
  abbrev pub RestsOn : Turn → Option SubjectContext → Option PermissionRequest → ℕ → Type 0
  RestsOn t s r at =
      (subject : SubjectContext) × (request : PermissionRequest) × (version : String)
      × (policy : ValidatedPolicy) × (t.clock ≡ some at)
      × (s ≡ some subject)
      × (r ≡ some request)
      × (load_policy before t ≡ ok (version, policy))
      × IsAuthorized policy subject request at

  judge_allowed :
      (t : Turn) (s : Option SubjectContext) (r : Option PermissionRequest) (has_context : Bool)
      → (judge_turn before cache_key o t s r has_context check).1.0.is_allowed ≡ true
      → RestsOn t s r (judge_turn before cache_key o t s r has_context check).0
  unfolding judge_turn judge evaluate_turn question load_policy
  judge_allowed t none r has_context h = ground arith
  judge_allowed t (some s) none has_context h = ground arith
  judge_allowed t (some s) (some r) has_context h = elim (Option-cases t.clock) [
    | inl stopped ↦ ground arith
    | inr (at, time) ↦ elim (Result-cases (load_policy before t)) [
      | inr (reason, failed) ↦ ground (arith, failed)
      | inl ((version, policy), loaded) ↦ rw (time) (
        s,
        r,
        version,
        policy,
        refl,
        refl,
        refl,
        loaded,
        (check_allowed_iff before policy s r at).0 (ground (arith, loaded)),
      )
    ]
  ]

  -- An allowed check rests on a valid time, subject and request, on a valid policy in the version
  -- that is current in the store, and on the authorization of the request by that policy at that
  -- time: every failure of the clock, the store or the validation denies.
  pub decide_allowed :
      (t : Turn) (s : Option SubjectContext) (r : Option PermissionRequest) (has_context : Bool)
      (d : Decision) (scope : Option DataScope)
      → (decide before cache_key o t s r has_context check).0 ≡ ok (d, scope)
      → d.is_allowed ≡ true
      → RestsOn t s r d.evaluated_at
  unfolding decide
  decide_allowed t s r has_context d scope e allow =
      let judged = judge_turn before cache_key o t s r has_context check in
      elim (finalize_cases t judged.0 judged.1.0 (request_or_invalid r) s check) [
        | inl (id, trace, given, recorded, accepted, ids) ↦
            let same : decision_of judged.0 judged.1.0 id ≡ d = cc (given, e) in
            let granted : judged.1.0.is_allowed ≡ true =
              ap (λ (x : Decision). x.is_allowed) same ∙ allow in
            subst (λ x. RestsOn t s r x.evaluated_at) same (judge_allowed t s r has_context granted)
        | inr (failed, unrecorded, unable) ↦ cc (e, failed)
      ]

  -- A write to the cache that is right, also some milliseconds later while it lives.
  abbrev pub IsFresh :
      Turn → SubjectContext → PermissionRequest → ℕ → Question → ℕ → CacheWrite → Type 0
  IsFresh t s r at q ms w =
      (policy : ValidatedPolicy) × (load_policy before t ≡ ok (w.version, policy))
      × (w.key ≡ cache_key q w.version s r)
      × (1 ≤ w.ttl_seconds)
      × (w.evaluation ≡ evaluate_policy before policy s r at q)
      × (evaluate_policy before policy s r (at + min ms (w.ttl_seconds * 1000 - 1)) q
          ≡ w.evaluation)

  -- What a decision writes to the cache is the evaluation by the current policy, under the key of
  -- the question, for at least one second; and an evaluation by that policy any number of
  -- milliseconds later, while the write lives, gives the same.
  pub evaluate_turn-IsFresh :
      (t : Turn) (s : SubjectContext) (r : PermissionRequest) (at : ℕ) (q : Question) (ms : ℕ)
      → All (IsFresh t s r at q ms) (evaluate_turn before cache_key o t s r at q).2
  evaluate_turn-IsFresh t s r at q ms = elim (Result-cases (load_policy before t)) [
    | inr (reason, failed) ↦
        let none_written : (evaluate_turn before cache_key o t s r at q).2 ≡ [] =
          unfold evaluate_turn in ground (arith, failed) in
        subst (All (IsFresh t s r at q ms)) (sym none_written) tt
    | inl ((version, policy), loaded) ↦
        let w = write_of before cache_key o s r at q version policy in
        let written : (evaluate_turn before cache_key o t s r at q).2 ≡ (use_cache t w).1 =
          unfold evaluate_turn in ground (arith, loaded) in
        let stays = evaluate_within_ttl before policy s r at in
        subst (All (IsFresh t s r at q ms)) (sym written) (
          use_cache-All (IsFresh t s r at q ms) t w (λ lasting. (
            policy,
            loaded,
            refl,
            lasting,
            refl,
            stays (at + min ms (w.ttl_seconds * 1000 - 1)) o.cache_ttl_seconds q (omega arith)
                (omega arith),
          )))
  ]

  -- `requireAllowed` gives back a decision exactly if the check gives that decision and it allows.
  pub require_allowed_lem :
      (t : Turn) (s : Option SubjectContext) (r : Option PermissionRequest) (has_context : Bool)
      (d : Decision)
      → (require_allowed before cache_key o t s r has_context ≡ ok d)
        ↔ ((check_permission before cache_key o t s r has_context ≡ ok d) × (d.is_allowed ≡ true))
  unfolding require_allowed check_permission
  require_allowed_lem t s r has_context d = ground arith
