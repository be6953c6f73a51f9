-- ===== src/Integration/Webhook/Tests.antt =====
-- The theorem on webhooks at a concrete input, with a store of reservations in memory.
use ai_crm_step.Base.{
  ℕ, ◌<◌, String, Bool, true, false, ◌&&◌, ◌||◌, List, [], ◌∷◌, Option, none, some, ◌≡◌, ◌≢◌, refl,
  ap, ◌∙◌, inl, inr, ◌===◌, leb, ltb, any, if◌then◌else◌, arith, eq_iff, Bool-cases,
}
use ai_crm_step.Base.Pattern.{is_policy_version}
use ai_crm_step.Base.Result.{ok}
use ai_crm_step.Base.Call.{◌>>=◌}
use ai_crm_step.Integration.Webhook.{
  WebhookEnvelope, ReplayStore, AcceptedWebhook, WebhookAcceptanceOptions, Verification, Digests,
  accept_verified_webhook,
}
use ai_crm_step.Integration.Webhook.Replay.{IsLawful, run_reserve, accept_verified_webhook_once}

abbrev Entries : Type 0
Entries = List (String × ℕ)

abbrev holds : String → ℕ → Entries → Bool
holds f t [] = false
holds f t ((g, end) ∷ entries) = (g === f && ltb t end) || holds f t entries

abbrev add : ℕ → List String → Entries → Entries
add expiry [] entries = entries
add expiry (f ∷ fs) entries = (f, expiry) ∷ add expiry fs entries

abbrev memory : ReplayStore
memory = record {
  State = Entries;
  reserve = λ t expiry fs entries.
      if any (λ f. holds f t entries) fs
      then (some (record { accepted = false; reservation_id = none }), entries)
      else (some (record { accepted = true; reservation_id = some "r1" }), add expiry fs entries);
}

-- A fingerprint is kept up to a time at least.
abbrev kept : String → ℕ → Entries → Bool
kept f end [] = false
kept f end ((g, expiry) ∷ entries) = (g === f && leb end expiry) || kept f end entries

holds-kept :
    (f : String) (t end : ℕ) (entries : Entries)
    → t < end
    → kept f end entries ≡ true
    → holds f t entries ≡ true
holds-kept f t end [] h held = held
holds-kept f t end ((g, expiry) ∷ entries) h held = ground (arith, holds-kept f t end entries h)

kept-add :
    (f : String) (end expiry : ℕ) (fs : List String) (entries : Entries)
    → kept f end entries ≡ true
    → kept f end (add expiry fs entries) ≡ true
kept-add f end expiry [] entries h = h
kept-add f end expiry (g ∷ fs) entries h = ground (arith, kept-add f end expiry fs entries h)

kept-add_listed :
    (f : String) (expiry : ℕ) (fs : List String) (entries : Entries)
    → any (λ g. g === f) fs ≡ true
    → kept f expiry (add expiry fs entries) ≡ true
kept-add_listed f expiry [] entries h = ground arith
kept-add_listed f expiry (g ∷ fs) entries h = ground (arith, kept-add_listed f expiry fs entries)

any-holds :
    (f : String) (t : ℕ) (fs : List String) (entries : Entries)
    → any (λ g. g === f) fs ≡ true
    → holds f t entries ≡ true
    → any (λ g. holds g t entries) fs ≡ true
any-holds f t [] entries h held = ground arith
any-holds f t (g ∷ fs) entries h held = elim (Bool-cases (g === f)) [
  | inl same ↦
      let found : holds g t entries ≡ true =
        ap (λ x. holds x t entries) ((eq_iff g f).0 same) ∙ held in
      ground (arith, found)
  | inr other ↦ ground (arith, other, any-holds f t fs entries)
]

memory-IsLawful : IsLawful memory
memory-IsLawful = record {
  Held = λ f end entries. kept f end entries ≡ true;
  reserve-Held = λ t expiry fs s r given accepted f listed.
      elim (Bool-cases (any (λ g. holds g t s) fs)) [
        | inl taken ↦ ground (arith, taken, given, accepted)
        | inr free ↦ ground (arith, free, kept-add_listed f expiry fs s listed)
      ];
  keeps_Held = λ t expiry fs s f end within held. elim (Bool-cases (any (λ g. holds g t s) fs)) [
    | inl taken ↦ ground (arith, taken, held)
    | inr free ↦ ground (arith, free, kept-add f end expiry fs s held)
  ];
  refuses_Held = λ t expiry fs s f end within held listed r given.
      ground (arith, any-holds f t fs s listed (holds-kept f t end s within held));
}

abbrev digests : Digests
digests = record {
  body_digest = λ bytes. "d";
  fingerprint = λ kind version value. value;
  parse_date = λ text. some 1000;
  to_iso_string = λ t. "date";
}

abbrev options : WebhookAcceptanceOptions
options = record { allowed_clock_skew_ms = 300; max_body_bytes = 10; replay_retention_ms = 700 }

abbrev envelope_of : String → WebhookEnvelope
envelope_of nonce = record {
  event_id = "e1";
  nonce = nonce;
  raw_body = 1 ∷ [];
  received_at = "date";
  signature = "s";
  timestamp = "date";
  version = "v1";
}

abbrev verification : Option Verification
verification = some (record { verified = true; raw_body = 1 ∷ [] })

abbrev accepted_webhook : AcceptedWebhook
accepted_webhook = record {
  body_digest = "d";
  event_id = "e1";
  protocol_version = "v1";
  received_at = "date";
  reservation_id = "r1";
}

abbrev reserved : Entries
reserved = ("e1", 1400) ∷ ("n1", 1400) ∷ []

-- The verifier of each call takes 50 milliseconds.
accept_verified_webhook_once_example :
    accept_verified_webhook memory digests options
      (some 1300)
      verification
      1350
      (envelope_of "n2")
      (run_reserve memory digests options ((900, 2000, "e9" ∷ []) ∷ []) reserved)
    ≢ (ok accepted_webhook, reserved)
unfolding accept_verified_webhook ◌>>=◌ is_policy_version
accept_verified_webhook_once_example =
    accept_verified_webhook_once memory digests options memory-IsLawful 700 750 1300 1350 50
      verification verification (envelope_of "n1") (envelope_of "n2") [] reserved accepted_webhook
      refl refl refl (inl refl) (omega arith) (omega arith) ((900, 2000, "e9" ∷ []) ∷ [])
      (omega arith, tt) accepted_webhook reserved

-- The shortest retention that is taken, twice the skew: a verifier that takes 100 milliseconds lets
-- the same webhook in again, since the reservation of the first call expires at 1300.
abbrev short : WebhookAcceptanceOptions
short = record { allowed_clock_skew_ms = 300; max_body_bytes = 10; replay_retention_ms = 600 }

abbrev first_state : Entries
first_state = ("e1", 1300) ∷ ("n1", 1300) ∷ []

slow_verifier_test :
    (accept_verified_webhook memory digests short (some 700) verification 700 (envelope_of "n1") []
      ≡ (ok accepted_webhook, first_state))
    × (accept_verified_webhook memory digests short
          (some 1300)
          verification
          1400
          (envelope_of "n1")
          first_state
        ≡ (ok accepted_webhook, ("e1", 1900) ∷ ("n1", 1900) ∷ first_state))
unfolding accept_verified_webhook ◌>>=◌ is_policy_version
slow_verifier_test = (refl, refl)
