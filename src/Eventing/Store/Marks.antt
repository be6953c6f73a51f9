-- ===== src/Eventing/Store/Marks.antt =====
-- memory-store.ts, `markOutboxPublished` and `markOutboxFailure`: who may settle a claimed row.
use ai_crm_step.Base.{
  ℕ, String, ◌⊎◌, ◌↔◌, Bool, true, false, ◌≡◌, refl, sym, ◌∙◌, Option, none, some, arith,
  Option-cases, Bool-cases, eq_iff, if◌then◌else◌, inl, inr, ◌≢◌,
}
use mathlib.Core.Option.{some-injective}
use ai_crm_step.Base.Eq.{string_key}
use ai_crm_step.Base.Dict.{lookup, lookup-insert_self, lookup-insert_ne}
use ai_crm_step.Eventing.Types.{
  OutboxRecord, OutboxStatus, pending, publishing, published, isolated,
}
use ai_crm_step.Eventing.Store.{
  Store, claimed_by, with_claim, mark_outbox_published, mark_outbox_failure,
}

-- A claim holds the row of an identifier.
abbrev pub IsHeldBy : String → String → Store → Type 0
IsHeldBy token id st =
    (row : OutboxRecord) × ((lookup id st.outbox ≡ some row)
      × ((row.status ≡ publishing) × (row.claim_token ≡ some token)))

claimed_by_iff :
    (status : OutboxStatus) (held : Option String) (token : String)
    → (claimed_by status held token ≡ true) ↔ ((status ≡ publishing) × (held ≡ some token))
claimed_by_iff publishing (some h) token = ground (arith, eq_iff h token)
claimed_by_iff publishing none token = ground arith
claimed_by_iff pending h token = ground arith
claimed_by_iff published h token = ground arith
claimed_by_iff isolated h token = ground arith

-- What a mark keeps of a row, and that it ends the claim.
abbrev pub IsReleased : OutboxRecord → OutboxRecord → Type 0
IsReleased old new =
    (new.claim_token ≡ none)
    × ((new.claimed_at ≡ none)
        × ((new.message_id ≡ old.message_id)
            × ((new.payload_sha256 ≡ old.payload_sha256)
                × (new.attempt_count ≡ old.attempt_count))))

abbrev pub IsPublished : ℕ → OutboxRecord → OutboxRecord → Type 0
IsPublished at old new =
    IsReleased old new × ((new.status ≡ published) × (new.published_at ≡ some at))

-- A failed publication: the row is isolated now, or due again at the time given.
abbrev pub IsFailed : ℕ → ℕ → String → Bool → OutboxRecord → OutboxRecord → Type 0
IsFailed at available_at error_code isolate old new =
    IsReleased old new
    × ((new.status ≡ (if isolate then isolated else pending))
        × ((new.isolated_at ≡ (if isolate then some at else none))
            × ((new.available_at ≡ available_at) × (new.last_error_code ≡ some error_code))))

-- The stores differ in the row of one message at most.
abbrev pub DiffersAt : String → Store → Store → Type 0
DiffersAt id st st' =
    ((k : String) → id ≢ k → lookup k st'.outbox ≡ lookup k st.outbox)
    × ((st'.inbox ≡ st.inbox) × ((st'.jobs ≡ st.jobs) × (st'.isolations ≡ st.isolations)))

-- A mark by a claim: the claim does not hold the row, the answer is `false` and nothing is changed;
-- or the row is being published with this token, the answer is `true`, and that row alone is marked.
abbrev pub IsMarked :
    String → String → (OutboxRecord → OutboxRecord → Type 0) → Store → Bool × Store → Type 0
IsMarked id token Marked st out =
    ((out ≡ (false, st)) × ¬ IsHeldBy token id st)
    ⊎ ((old : OutboxRecord) × ((new : OutboxRecord) × ((out.0 ≡ true)
            × ((lookup id st.outbox ≡ some old)
                × ((old.status ≡ publishing)
                    × ((old.claim_token ≡ some token)
                        × ((lookup id out.1.outbox ≡ some new)
                            × (Marked old new × DiffersAt id st out.1))))))))

with_claim-IsMarked :
    (id token : String) (change : OutboxRecord → OutboxRecord)
    (Marked : OutboxRecord → OutboxRecord → Type 0) (st : Store)
    → ((row : OutboxRecord) → Marked row (change row))
    → IsMarked id token Marked st (with_claim id token change st)
with_claim-IsMarked id token change Marked st marks = elim (Option-cases (lookup id st.outbox)) [
  | inl absent ↦ inl (rw (with_claim, absent) refl, λ (row, (found, held)). cc)
  | inr (row, found) ↦ elim (Bool-cases (claimed_by row.status row.claim_token token)) [
    | inr other ↦ inl (
      rw (with_claim, found, other) refl,
      λ (row', (found', held')).
          let same : row ≡ row' = some-injective row row' (sym found ∙ found') in
          let now_held = (claimed_by_iff row.status row.claim_token token).1 (rw same held') in cc,
    )
    | inl held ↦
        let (status, holds) = (claimed_by_iff row.status row.claim_token token).0 held in
        rw (with_claim, found, held)
          (inr (
            row,
            (
              change row,
              (
                refl,
                (
                  refl,
                  (
                    status,
                    (
                      holds,
                      (
                        lookup-insert_self id (change row) st.outbox,
                        (
                          marks row,
                          (
                            λ k other. lookup-insert_ne id k (change row) st.outbox other,
                            (refl, (refl, refl)),
                          ),
                        ),
                      ),
                    ),
                  ),
                ),
              ),
            ),
          ))
  ]
]

-- Only the claim that holds a row can mark it. A mark, as published or as failed, of a row that is
-- absent, is not being published, or is claimed with another token answers `false` and changes
-- nothing. Else it answers `true`: the row, found again under its message id with the same payload
-- digest and attempts, is out of the claim, and it is published at the time given; or, of a failed
-- publication, isolated or pending again as asked, due at the time given and with the error's code.
-- Every other row, the inbox, the jobs and the isolations stay as they were.
pub marks-IsMarked :
    (id token : String) (at available_at : ℕ) (error_code : String) (isolate : Bool) (st : Store)
    → IsMarked id token (IsPublished at) st (mark_outbox_published id token at st)
      × IsMarked id token
          (IsFailed at available_at error_code isolate)
          st
          (mark_outbox_failure id token at available_at error_code isolate st)
unfolding mark_outbox_published mark_outbox_failure
marks-IsMarked id token at available_at error_code isolate st = (
  with_claim-IsMarked id token _ (IsPublished at) st
      (λ row. ((refl, (refl, (refl, (refl, refl)))), (refl, refl))),
  with_claim-IsMarked id token _ (IsFailed at available_at error_code isolate) st
      (λ row. ((refl, (refl, (refl, (refl, refl)))), (refl, (refl, (refl, refl))))),
)
