-- ===== src/Authorization/Service.antt =====
-- packages/platform-modules/authorization/src/engine.ts, `createAuthorizationService`.
-- What the clock, the policy store, the cache, the id sources and the recorder answer during one
-- decision is a `Turn`; what the decision writes to the cache and to the recorder is an effect.
-- `subject` and `request` are the results of `validateSubjectContext` and
-- `validatePermissionRequest`, `none` for what these refuse.
pub mod Laws
use ai_crm_step.Base.{
  ℕ, String, Bool, true, false, ◌&&◌, ◌||◌, not, List, [], ◌∷◌, ◌++◌, Option, none, some, ◌===◌,
  ◌==◌, ltb, leb, if◌then◌else◌, is_some, length,
}
use ai_crm_step.Base.Pattern.{is_uuid, is_trace_id}
use ai_crm_step.Base.Result.{Result, ok, err, ◌>>=◌, ◌>>◌}
use ai_crm_step.Authorization.Types.{
  DataScopeTerm, DataScope, ValidatedPolicy, SubjectContext, PermissionRequest, Reason, allowed,
  unknown_permission, no_applicable_grant, invalid_context, resource_context_required,
  scope_mismatch, policy_unavailable, policy_invalid, Evaluation, Decision, Operation, batch_check,
  check, resolve_data_scope, same_term,
}
use ai_crm_step.Authorization.Policy.{PolicySnapshot, policy_version, validate_policy_snapshot}
use ai_crm_step.Authorization.Engine.{
  permission_code, Question, checks, resolves, evaluate_policy, cache_ttl,
}

-- A port that rejects or throws answers `none`.
pub record Turn : Type 0 where
  pub clock : Option ℕ
  pub current_version : Option String
  -- The inner `none` is a snapshot that has not the shape of a policy.
  pub load : String → Option (Option PolicySnapshot)
  pub has_cache : Bool
  pub cached : String → Option (Option Evaluation)
  pub cache_accepts : Bool
  pub decision_id : Option String
  pub trace_id : Option String
  pub recorder_accepts : Bool

pub record AuthorizationServiceOptions : Type 0 where
  pub cache_ttl_seconds : ℕ

-- `new TypeError("AUTHORIZATION_INVALID_CONFIGURATION")`, and the errors of errors.ts.
pub data ServiceError : Type 0 where
  invalid_configuration batch_too_large unavailable : ServiceError
  access_denied : String → ServiceError

abbrev pub create_authorization_service : ℕ → Result ServiceError AuthorizationServiceOptions
create_authorization_service cache_ttl_seconds =
    if ltb cache_ttl_seconds 1 || ltb 86_400 cache_ttl_seconds
    then err invalid_configuration
    else ok (record { cache_ttl_seconds = cache_ttl_seconds })

pub data CacheStatus : Type 0 where
  error hit miss not_used : CacheStatus

pub record CacheWrite : Type 0 where
  pub key : String
  pub evaluation : Evaluation
  pub ttl_seconds : ℕ
  pub version : String

-- The decision record that is handed to the recorder.
pub record DecisionRecord : Type 0 where
  pub decision : Decision
  pub action : String
  pub resource : String
  pub code : String
  pub operation : Operation
  pub selected_assignment_id : Option String
  pub trace_id : String
  pub workforce_person_id : Option String

pub record Effects : Type 0 where
  pub cache_status : CacheStatus
  pub cache_writes : List CacheWrite
  pub records : List DecisionRecord

abbrev pub unavailable_evaluation : Reason → Evaluation
unavailable_evaluation reason = record {
  is_allowed = false;
  policy_version = "unavailable";
  reason = reason;
  scope = none;
}

unfoldable pub reason_index : Reason → ℕ
reason_index allowed = 0
reason_index unknown_permission = 1
reason_index no_applicable_grant = 2
reason_index invalid_context = 3
reason_index resource_context_required = 4
reason_index scope_mismatch = 5
reason_index policy_unavailable = 6
reason_index policy_invalid = 7

unfoldable pub same_terms : List DataScopeTerm → List DataScopeTerm → Bool
same_terms [] [] = true
same_terms (s ∷ ss) (t ∷ ts) = same_term s t && same_terms ss ts
same_terms _ _ = false

unfoldable pub same_scope : Option DataScope → Option DataScope → Bool
same_scope none none = true
same_scope (some d) (some e) = same_terms d.terms e.terms
same_scope _ _ = false

unfoldable pub same_bool : Bool → Bool → Bool
same_bool true b = b
same_bool false b = not b

-- `evaluationEqual`
unfoldable pub evaluation_equal : Evaluation → Evaluation → Bool
evaluation_equal e f =
    (same_bool e.is_allowed f.is_allowed && (e.policy_version === f.policy_version))
    && ((reason_index e.reason == reason_index f.reason) && same_scope e.scope f.scope)

-- `operation === "resolve_data_scope" ? operation : "check"`
unfoldable pub question : Operation → Question
question resolve_data_scope = resolves
question check = checks
question batch_check = checks

module _ (before : DataScopeTerm → DataScopeTerm → Bool) where
  -- The `try` around the policy store.
  unfoldable pub load_policy : Turn → Result Reason (String × ValidatedPolicy)
  load_policy t = elim t.current_version [
    | none ↦ err policy_unavailable
    | some raw ↦ elim (policy_version raw) [
      | err e ↦ err policy_invalid
      | ok version ↦ elim (t.load version) [
        | none ↦ err policy_unavailable
        | some snapshot ↦ elim (validate_policy_snapshot before snapshot version) [
          | err e ↦ err policy_invalid
          | ok policy ↦ ok (version, policy)
        ]
      ]
    ]
  ]

-- The writes of the `try` around the cache when nothing usable was cached.
unfoldable pub store_fresh : Turn → CacheStatus → CacheWrite → CacheStatus × List CacheWrite
store_fresh t status w =
    if leb 1 w.ttl_seconds
    then (if t.cache_accepts then status else error, w ∷ [])
    else (status, [])

-- What the answer of the cache leads to; `none` is a miss.
unfoldable pub answer_cache : Turn → CacheWrite → Option Evaluation → CacheStatus × List CacheWrite
answer_cache t w none = store_fresh t miss w
answer_cache t w (some e) =
    if evaluation_equal e w.evaluation then (hit, []) else store_fresh t error w

unfoldable pub use_cache : Turn → CacheWrite → CacheStatus × List CacheWrite
use_cache t w =
    if t.has_cache
    then elim (t.cached w.key) [ none ↦ (error, []) | some answer ↦ answer_cache t w answer ]
    else (not_used, [])

-- The ids that `finalize` takes from their sources, if both are well formed.
unfoldable pub identify : Turn → Option (String × String)
identify t = elim t.decision_id [
  | none ↦ none
  | some decision_id ↦ elim t.trace_id [
    | none ↦ none
    | some trace_id ↦
        if is_uuid decision_id && is_trace_id trace_id then some (decision_id, trace_id) else none
  ]
]

abbrev pub decision_of : ℕ → Evaluation → String → Decision
decision_of at e decision_id = record {
  is_allowed = e.is_allowed;
  decision_id = decision_id;
  evaluated_at = at;
  policy_version = e.policy_version;
  reason = e.reason;
}

abbrev pub record_of :
    Decision → String → PermissionRequest → Option SubjectContext → Operation → DecisionRecord
record_of decision trace_id r s operation = record {
  decision = decision;
  action = r.action;
  resource = r.resource;
  code = permission_code r;
  operation = operation;
  selected_assignment_id = elim s [ none ↦ none | some subject ↦ subject.selected_assignment_id ];
  trace_id = trace_id;
  workforce_person_id = elim s [ none ↦ none | some subject ↦ some subject.workforce_person_id ];
}

-- `finalize`: the decision is given only after it was recorded.
unfoldable pub finalize :
    Turn
    → ℕ
    → Evaluation
    → PermissionRequest
    → Option SubjectContext
    → Operation
    → Result ServiceError (Decision × Option DataScope) × List DecisionRecord
finalize t at e r s operation = elim (identify t) [
  | none ↦ (err unavailable, [])
  | some ids ↦
      let (decision_id, trace_id) = ids in
      let decision = decision_of at e decision_id in
      if t.recorder_accepts
      then (ok (decision, e.scope), record_of decision trace_id r s operation ∷ [])
      else (err unavailable, [])
]

-- `request ?? { action: "invalid", resource: "invalid.invalid" }`
abbrev pub request_or_invalid : Option PermissionRequest → PermissionRequest
request_or_invalid none = record {
  action = "invalid";
  resource = "invalid.invalid";
  resource_context = none;
}
request_or_invalid (some r) = r

-- `Object.prototype.hasOwnProperty.call(requestInput, "resourceContext")` matters to one operation.
abbrev pub context_forbidden : Operation → Bool → Bool
context_forbidden resolve_data_scope has_context = has_context
context_forbidden check has_context = false
context_forbidden batch_check has_context = false

-- `before` is the order of the terms' JSON texts, and `cache_key` the digest of the key
-- material.
module _ (before : DataScopeTerm → DataScopeTerm → Bool)
    (cache_key : Question → String → SubjectContext → PermissionRequest → String)
    (o : AuthorizationServiceOptions) where
  -- What `cache.set` is called with.
  abbrev pub write_of :
      SubjectContext → PermissionRequest → ℕ → Question → String → ValidatedPolicy → CacheWrite
  write_of s r at q version policy = record {
    key = cache_key q version s r;
    evaluation = evaluate_policy before policy s r at q;
    ttl_seconds = cache_ttl o.cache_ttl_seconds policy at;
    version = version;
  }

  -- The evaluation of a valid subject and request at a valid time, with the cache's part.
  unfoldable pub evaluate_turn :
      Turn
      → SubjectContext
      → PermissionRequest
      → ℕ
      → Question
      → Evaluation × CacheStatus × List CacheWrite
  evaluate_turn t s r at q = elim (load_policy before t) [
    | err reason ↦ (unavailable_evaluation reason, not_used, [])
    | ok loaded ↦
        let (version, policy) = loaded in
        let fresh = evaluate_policy before policy s r at q in
        let (status, writes) = use_cache t (write_of s r at q version policy) in
        (fresh, status, writes)
  ]

  -- The `if` of `decide` behind the test of the clock.
  unfoldable pub judge :
      Turn
      → ℕ
      → Option SubjectContext
      → Option PermissionRequest
      → Bool
      → Operation
      → Evaluation × CacheStatus × List CacheWrite
  judge t at none request has_context operation =
      (unavailable_evaluation invalid_context, not_used, [])
  judge t at (some s) none has_context operation =
      (unavailable_evaluation invalid_context, not_used, [])
  judge t at (some s) (some r) has_context operation =
      if context_forbidden operation has_context
      then (unavailable_evaluation invalid_context, not_used, [])
      else evaluate_turn t s r at (question operation)

  -- The time of the decision, what it is, and what the cache has to do with it.
  unfoldable pub judge_turn :
      Turn
      → Option SubjectContext
      → Option PermissionRequest
      → Bool
      → Operation
      → ℕ × (Evaluation × CacheStatus × List CacheWrite)
  judge_turn t subject request has_context operation = elim t.clock [
    | none ↦ (0, (unavailable_evaluation policy_unavailable, not_used, []))
    | some now ↦ (now, judge t now subject request has_context operation)
  ]

  unfoldable pub decide :
      Turn
      → Option SubjectContext
      → Option PermissionRequest
      → Bool
      → Operation
      → Result ServiceError (Decision × Option DataScope) × Effects
  decide t subject request has_context operation =
      let (at, (evaluation, status, writes)) = judge_turn t subject request has_context operation in
      let (outcome, records) =
        finalize t at evaluation (request_or_invalid request) subject operation in
      (outcome, record { cache_status = status; cache_writes = writes; records = records })

  pub check_permission :
      Turn → Option SubjectContext → Option PermissionRequest → Bool → Result ServiceError Decision
  check_permission t s r has_context = do
    (decision, scope) ← (decide t s r has_context check).0
    ok decision

  pub require_allowed :
      Turn → Option SubjectContext → Option PermissionRequest → Bool → Result ServiceError Decision
  require_allowed t s r has_context = do
    (decision, scope) ← (decide t s r has_context check).0
    if decision.is_allowed then ok decision else err (access_denied decision.decision_id)

  unfoldable pub resolve_scope :
      Turn
      → Option SubjectContext
      → Option PermissionRequest
      → Bool
      → Result ServiceError (Decision × Option DataScope)
  resolve_scope t s r has_context = (decide t s r has_context resolve_data_scope).0

  -- The loop of `batchCheck`; each request meets its own answers of the ports.
  unfoldable pub decide_each :
      Option SubjectContext
      → List (Turn × Option PermissionRequest)
      → Result ServiceError (List Decision)
  decide_each s [] = ok []
  decide_each s ((t, r) ∷ rest) = do
    (decision, scope) ← (decide t s r false batch_check).0
    decisions ← decide_each s rest
    ok (decision ∷ decisions)

  unfoldable pub batch_check_all :
      Option SubjectContext
      → List (Turn × Option PermissionRequest)
      → Result ServiceError (List Decision)
  batch_check_all s requests =
      if ltb 256 (length requests) then err batch_too_large else decide_each s requests
