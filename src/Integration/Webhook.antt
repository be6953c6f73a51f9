-- ===== src/Integration/Webhook.antt =====
-- packages/platform-modules/integration-runtime/src/webhook.ts. The digests, the parser and the
-- printer of dates, and the answer of the verifier are given; the store of reservations is a
-- parameter. `now` is read before the verifier is awaited, so the time at which the store reserves
-- is given apart. Dates are from 1970 on; `clock` is `none` where there is none.
pub mod Replay
mod Tests
use ai_crm_step.Base.{
  ℕ, ◌+◌, ◌-◌, ◌*◌, String, Bool, true, false, not, ◌&&◌, ◌||◌, List, [], ◌∷◌, Option, none, some,
  ◌===◌, ltb, leb, any, all, length, if◌then◌else◌,
}
use ai_crm_step.Base.Pattern.{code_points, in_range, is_digit, is_policy_version}
use ai_crm_step.Base.Result.{Result, ok, err}
use ai_crm_step.Base.Call.{Call, ◌>>=◌, ◌>>◌, return, refuse_if}
use ai_crm_step.Integration.Errors.{
  Failure, runtime, invalid_input, signature_invalid, upstream_unavailable, replay_detected,
}

pub record WebhookEnvelope : Type 0 where
  pub event_id : String
  pub nonce : String
  pub raw_body : List ℕ
  pub received_at : String
  pub signature : String
  pub timestamp : String
  pub version : String

pub record WebhookReplayReservation : Type 0 where
  pub accepted : Bool
  pub reservation_id : Option String

-- `reserve` at a time, until a time, of fingerprints; `none` where it fails or is malformed.
pub record ReplayStore : Type 1 where
  pub State : Type 0
  pub reserve : ℕ → ℕ → List String → State → Option WebhookReplayReservation × State

pub record AcceptedWebhook : Type 0 where
  pub body_digest : String
  pub event_id : String
  pub protocol_version : String
  pub received_at : String
  pub reservation_id : String

pub record WebhookAcceptanceOptions : Type 0 where
  pub allowed_clock_skew_ms : ℕ
  pub max_body_bytes : ℕ
  pub replay_retention_ms : ℕ

-- The verifier's verdict, with the bytes as it leaves them.
pub record Verification : Type 0 where
  pub verified : Bool
  pub raw_body : List ℕ

pub record Digests : Type 0 where
  pub body_digest : List ℕ → String
  -- Of a kind, a version and a value.
  pub fingerprint : String → String → String → String
  -- `new Date(text).getTime()`, unless it is not a number.
  pub parse_date : String → Option ℕ
  pub to_iso_string : ℕ → String

-- The length in UTF-16 code units.
abbrev units : List ℕ → ℕ
units [] = 0
units (c ∷ cs) = (if leb 65536 c then 2 else 1) + units cs

abbrev pub text_units : String → ℕ
text_units s = units (code_points s)

abbrev is_safe_integer : ℕ → Bool
is_safe_integer n = leb n 9007199254740991

-- `/^v[1-9][0-9]*$/`
unfoldable pub is_version : String → Bool
is_version s = elim (code_points s) [
  | [] ↦ false
  | c ∷ cs ↦
      leb 118 c
      && leb c 118
      && elim cs [ [] ↦ false | d ∷ ds ↦ in_range b'1' b'9' d && all is_digit ds ]
]

-- The first `if`, on options and an envelope of the right types.
unfoldable pub is_malformed : WebhookAcceptanceOptions → WebhookEnvelope → Bool
unfolding is_version
is_malformed o e =
    any (λ bad. bad)
      (not (is_safe_integer o.allowed_clock_skew_ms)
        ∷ not (is_safe_integer o.replay_retention_ms)
        ∷ ltb o.replay_retention_ms 1
        ∷ ltb o.replay_retention_ms (o.allowed_clock_skew_ms * 2)
        ∷ not (is_safe_integer o.max_body_bytes)
        ∷ ltb o.max_body_bytes 1
        ∷ ltb o.max_body_bytes (length e.raw_body)
        ∷ ltb (text_units e.signature) 1
        ∷ ltb 8192 (text_units e.signature)
        ∷ ltb 64 (text_units e.timestamp)
        ∷ ltb 64 (text_units e.received_at)
        ∷ not (is_policy_version e.event_id)
        ∷ not (is_policy_version e.nonce)
        ∷ not (is_version e.version)
        ∷ [])

-- `Math.abs(a - b)`
abbrev pub distance : ℕ → ℕ → ℕ
distance a b = (a - b) + (b - a)

abbrev pub throw : {S A : Type 0} → Failure → Call Failure S A
throw e s = (err e, s)

abbrev pub required : {S A : Type 0} → Failure → Option A → Call Failure S A
required e none = throw e
required e (some a) = return a

abbrev pub invalid_signature : Failure
invalid_signature = runtime signature_invalid false

-- The checks of a reservation, and its id.
unfoldable pub settle_reservation : Option WebhookReplayReservation → Result Failure String
settle_reservation none = err (runtime upstream_unavailable true)
settle_reservation (some r) = elim r.reservation_id [
  | none ↦
      if r.accepted
      then err (runtime upstream_unavailable true)
      else err (runtime replay_detected false)
  | some id ↦
      if not (is_policy_version id) || not r.accepted
      then err (runtime upstream_unavailable true)
      else ok id
]

module _ (R : ReplayStore) (digests : Digests) (options : WebhookAcceptanceOptions) where
  open R use {State, reserve}

  abbrev pub fingerprints : WebhookEnvelope → List String
  fingerprints e =
      digests.fingerprint "event" e.version e.event_id
      ∷ digests.fingerprint "nonce" e.version e.nonce
      ∷ []

  -- At the store's time `t`; the expiry is that of `now`.
  unfoldable pub reserve_envelope : ℕ → ℕ → WebhookEnvelope → Call Failure State String
  unfolding settle_reservation
  reserve_envelope t now e s =
      let (candidate, s') = reserve t (now + options.replay_retention_ms) (fingerprints e) s in
      (settle_reservation candidate, s')

  unfoldable pub accept_verified_webhook :
      Option ℕ → Option Verification → ℕ → WebhookEnvelope → Call Failure State AcceptedWebhook
  unfolding is_malformed reserve_envelope
  accept_verified_webhook clock verification t e = do
    refuse_if (is_malformed options e) (runtime invalid_input false)
    now ← required invalid_signature clock
    refuse_if
        (not (is_safe_integer (now + options.replay_retention_ms))
          || ltb 8640000000000000 (now + options.replay_retention_ms))
        invalid_signature
    signed_at ← required invalid_signature (digests.parse_date e.timestamp)
    received_at ← required invalid_signature (digests.parse_date e.received_at)
    refuse_if (ltb options.allowed_clock_skew_ms (distance now signed_at)) invalid_signature
    verdict ← required invalid_signature verification
    refuse_if
        (not verdict.verified
          || not (digests.body_digest verdict.raw_body === digests.body_digest e.raw_body))
        invalid_signature
    reservation_id ← reserve_envelope t now e
    return (record {
      body_digest = digests.body_digest e.raw_body;
      event_id = e.event_id;
      protocol_version = e.version;
      received_at = digests.to_iso_string received_at;
      reservation_id = reservation_id;
    })
