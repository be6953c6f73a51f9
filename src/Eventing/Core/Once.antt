-- ===== src/Eventing/Core/Once.antt =====
-- service.ts, `consume`: a message is handled at most once, and a failure leaves no trace.
use ai_crm_step.Base.{
  Bool, true, false, ◌≡◌, ◌≢◌, refl, ◌∙◌, subst, inl, inr, List, [], ◌∷◌, none, some, arith,
  Option-cases, Bool-cases, ◌===◌, eq_iff, if◌then◌else◌, not, ◌&&◌, ◌||◌, ltb, leb,
}
use ai_crm_step.Base.Eq.{string_key, pair_key}
use ai_crm_step.Base.Result.{Result, ok, err, ok_injective, Result-cases}
use ai_crm_step.Base.Pattern.{is_lower_uuid, is_identifier, text_length}
use ai_crm_step.Eventing.Types.{
  Failure, eventing, invalid_input, unsupported_message, InboxReceipt, ConsumptionResult, duplicate,
  conflicting, IsolationReason, payload_conflict,
}
use ai_crm_step.Eventing.Store.{Store, transaction, find_inbox_receipt}
use ai_crm_step.Eventing.Core.{
  Handler, Consumption, matches, isolation_result, isolate, consume_in_transaction, consume,
}
use ai_crm_step.Eventing.Core.Isolated.{IsIsolated, SameRecords}
use ai_crm_step.Eventing.Core.Receipts.{
  receipt_of, IsReceived, is_settled, Keeps, Settles, consume_in_transaction-Settles,
  isolate-Settles,
}

transaction_failed :
    (work : Store → Result Failure (ConsumptionResult × Store)) (st : Store) (e : Failure)
    → (transaction work st).0 ≡ err e
    → (transaction work st).1 ≡ st
transaction_failed work st e h = ground arith

-- A call of `consume` that fails, for whatever reason, leaves the outbox, the inbox, the jobs and
-- the isolations as they were.
pub consume_failed :
    (c : Consumption) (h : Handler) (st : Store) (e : Failure)
    → (consume c h st).0 ≡ err e
    → (consume c h st).1 ≡ st
unfolding consume
consume_failed c h st e failed = ground arith

-- The same of a call with its answer.
abbrev pub Settled : Consumption → Store → Result Failure ConsumptionResult × Store → Type 0
Settled c st0 out =
    ((r : ConsumptionResult) → out.0 ≡ ok r → is_settled r ≡ true → IsReceived c out.1)
    × Keeps st0 out.1

transaction-Settled :
    (c : Consumption) (work : Store → Result Failure (ConsumptionResult × Store)) (st : Store)
    → Settles c st (work st)
    → Settled c st (transaction work st)
transaction-Settled c work st h = elim (Result-cases (work st)) [
  | inl ((r, st'), e) ↦
      let (received, kept) = subst (Settles c st) e h in
      rw (transaction, e) ((λ r' same settled. received (rw (ok_injective same) settled)), kept)
  | inr (f, e) ↦ rw (transaction, e) ((λ r' same. cc), λ key r found. found)
]

isolate-Settled :
    (c : Consumption) (reason : IsolationReason) (st : Store)
    → is_settled (isolation_result reason) ≡ false
    → Settled c st (transaction (isolate c reason) st)
isolate-Settled c reason st h =
    transaction-Settled c (isolate c reason) st
      (isolate-Settles c st reason st h (λ key r found. found))

-- The tests that `consume` makes of its request.
abbrev pub is_valid_call : Consumption → Bool
is_valid_call c =
    (is_identifier c.consumer && leb (text_length c.consumer) 128)
    && (not (ltb c.attempt 1 || ltb 1000 c.attempt)
        && not (ltb c.timeout_ms 100 || ltb 900_000 c.timeout_ms))

-- What `consume` does with a request that passes them.
abbrev deliver : Consumption → Handler → Store → Result Failure ConsumptionResult × Store
deliver c h st =
    if not (matches h c.message)
    then transaction (isolate c unsupported_message) st
    else elim (receipt_of c st) [
      | none ↦ transaction (consume_in_transaction c h) st
      | some receipt ↦
          if receipt.payload_sha256 === c.message.payload_sha256
          then (ok duplicate, st)
          else transaction (isolate c payload_conflict) st
    ]

early_returns {ℓ} :
    {A : Type ℓ} (a b d : Bool) (x y : A)
    → (if not a then x else if b then x else if d then x else y)
      ≡ (if a && (not b && not d) then y else x)
early_returns true true d x y = refl
early_returns true false true x y = refl
early_returns true false false x y = refl
early_returns false b d x y = refl

consume-deliver :
    (c : Consumption) (h : Handler) (st : Store)
    → consume c h st
      ≡ (if is_valid_call c then deliver c h st else (err (eventing invalid_input false), st))
unfolding consume
consume-deliver c h st =
    early_returns (is_identifier c.consumer && leb (text_length c.consumer) 128)
      (ltb c.attempt 1 || ltb 1000 c.attempt) (ltb c.timeout_ms 100 || ltb 900_000 c.timeout_ms)
      (err (eventing invalid_input false), st) (deliver c h st)

deliver-Settled : (c : Consumption) (h : Handler) (st : Store) → Settled c st (deliver c h st)
deliver-Settled c h st = elim (Bool-cases (matches h c.message)) [
  | inr unmatched ↦ rw (deliver, unmatched) (isolate-Settled c unsupported_message st refl)
  | inl matched ↦ elim (Option-cases (receipt_of c st)) [
    | inl first ↦
        rw (deliver, matched, first)
          (transaction-Settled c (consume_in_transaction c h) st
            (consume_in_transaction-Settles c h st))
    | inr (r, found) ↦ elim (Bool-cases (r.payload_sha256 === c.message.payload_sha256)) [
      | inl same ↦ rw (deliver, matched, found, same) ((λ r' e settled. cc), λ key old h. h)
      | inr other ↦ rw (deliver, matched, found, other) (isolate-Settled c payload_conflict st refl)
    ]
  ]
]

consume-Settled : (c : Consumption) (h : Handler) (st : Store) → Settled c st (consume c h st)
consume-Settled c h st = elim (Bool-cases (is_valid_call c)) [
  | inl valid ↦ rw (consume-deliver c h st, valid) (deliver-Settled c h st)
  | inr invalid ↦ rw (consume-deliver c h st, invalid) ((λ r' e settled. cc), λ key r found. found)
]

-- Deliveries one after the other, each with its handler.
unfoldable pub consume_all : List (Consumption × Handler) → Store → Store
consume_all [] st = st
consume_all ((c, h) ∷ calls) st = consume_all calls (consume c h st).1

consume_all-Keeps :
    (calls : List (Consumption × Handler)) (st : Store) → Keeps st (consume_all calls st)
unfolding consume_all
consume_all-Keeps [] st key r found = found
consume_all-Keeps ((c, h) ∷ calls) st key r found =
    consume_all-Keeps calls (consume c h st).1 key r ((consume-Settled c h st).1 key r found)

-- A valid delivery whose receipt is there for the same payload is a duplicate and changes nothing.
duplicate_lem :
    (c : Consumption) (h : Handler) (st : Store)
    → is_valid_call c ≡ true
    → matches h c.message ≡ true
    → IsReceived c st
    → consume c h st ≡ (ok duplicate, st)
duplicate_lem c h st valid matched (r, found, same) =
    consume-deliver c h st
    ∙ rw (valid, deliver, matched, found)
        (ground (arith, eq_iff r.payload_sha256 c.message.payload_sha256))

-- Once a delivery of a message to a consumer ends as completed or skipped, then after any further
-- deliveries, of whatever messages and with whatever handlers, each valid delivery of the same
-- message to the same consumer, whose handler is the one for its kind, type and version, ends as a
-- duplicate and changes nothing, whatever the handler would have answered.
pub consume_once :
    (c : Consumption) (h : Handler) (st : Store) (r : ConsumptionResult)
    (calls : List (Consumption × Handler)) (c' : Consumption) (h' : Handler)
    → (consume c h st).0 ≡ ok r
    → is_settled r ≡ true
    → c'.message ≡ c.message
    → c'.consumer ≡ c.consumer
    → is_valid_call c' ≡ true
    → matches h' c'.message ≡ true
    → let later = consume_all calls (consume c h st).1 in
      consume c' h' later ≡ (ok duplicate, later)
unfolding find_inbox_receipt
consume_once c h st r calls c' h' ended settled same_message same_consumer valid matched =
    let (row, found, same) = (consume-Settled c h st).0 r ended settled in
    duplicate_lem c' h' (consume_all calls (consume c h st).1) valid matched (
      row,
      rw (same_message, same_consumer)
          (consume_all-Keeps calls (consume c h st).1 (c.message.message_id, c.consumer) row found),
      rw same_message same,
    )

-- The same of a call with its answer: what ends as conflicting or unsupported is isolated.
abbrev Isolated : Consumption → Store → Result Failure ConsumptionResult × Store → Type 0
Isolated c st out =
    (reason : IsolationReason)
    → out.0 ≡ ok (isolation_result reason)
    → is_settled (isolation_result reason) ≡ false
    → IsIsolated c reason out.1 × SameRecords st out.1

-- A valid delivery of a message that has a receipt for another payload ends as conflicting.
consume_conflicting :
    (c : Consumption) (h : Handler) (st : Store) (r : InboxReceipt)
    → is_valid_call c ≡ true
    → matches h c.message ≡ true
    → receipt_of c st ≡ some r
    → r.payload_sha256 ≢ c.message.payload_sha256
    → is_lower_uuid c.isolation_id ≡ true
    → (consume c h st).0 ≡ ok conflicting
unfolding isolate
consume_conflicting c h st r valid matched found other uuid =
    rw (consume-deliver c h st, valid, deliver, matched, found)
      (ground (arith, eq_iff r.payload_sha256 c.message.payload_sha256))
