-- ===== src/Integration/Webhook/Replay.antt =====
-- webhook.ts: a webhook is accepted once.
use ai_crm_step.Base.{
  ℕ, ◌+◌, ◌*◌, ◌≤◌, ◌<◌, String, true, false, List, [], ◌∷◌, Option, none, some, ◌≡◌, ◌≢◌, refl,
  sym, subst, ap, ◌∙◌, ◌===◌, ltb, any, All, ◌⊎◌, eq_iff, arith, inl, inr,
}
use ai_crm_step.Base.Result.{Result, ok}
use ai_crm_step.Base.Call.{>>=-eq-ok, refuse_if-eq-ok}
use ai_crm_step.Integration.Errors.{Failure}
use ai_crm_step.Integration.Webhook.{
  WebhookEnvelope, WebhookReplayReservation, ReplayStore, AcceptedWebhook, WebhookAcceptanceOptions,
  Verification, Digests, is_malformed, distance, required, invalid_signature, settle_reservation,
  fingerprints, reserve_envelope, accept_verified_webhook,
}

-- What a store of reservations promises: a fingerprint that it has reserved stays held as long as
-- the store's time is before its expiry, and nothing is reserved while it is held.
pub record IsLawful (R : ReplayStore) : Type 1 where
  pub Held : String → ℕ → R.State → Type 0
  pub reserve-Held :
      (t expiry : ℕ) (fs : List String) (s : R.State) (r : WebhookReplayReservation)
      → (R.reserve t expiry fs s).0 ≡ some r
      → r.accepted ≡ true
      → (f : String) → any (λ g. g === f) fs ≡ true
      → Held f expiry (R.reserve t expiry fs s).1
  pub keeps_Held :
      (t expiry : ℕ) (fs : List String) (s : R.State) (f : String) (end : ℕ)
      → t < end
      → Held f end s
      → Held f end (R.reserve t expiry fs s).1
  pub refuses_Held :
      (t expiry : ℕ) (fs : List String) (s : R.State) (f : String) (end : ℕ)
      → t < end
      → Held f end s
      → any (λ g. g === f) fs ≡ true
      → (r : WebhookReplayReservation) → (R.reserve t expiry fs s).0 ≡ some r
      → r.accepted ≡ false

required-eq-ok :
    {S A : Type 0} (e : Failure) (o : Option A) (a : A) (s s' : S)
    → required e o s ≡ (ok a, s')
    → (o ≡ some a) × (s ≡ s')
required-eq-ok e none a s s' h = ground arith
required-eq-ok e (some b) a s s' h = (ground arith, ground arith)

settle_reservation-eq-ok :
    (o : Option WebhookReplayReservation) (id : String)
    → settle_reservation o ≡ ok id
    → (r : WebhookReplayReservation) × (o ≡ some r) × (r.accepted ≡ true)
unfolding settle_reservation
settle_reservation-eq-ok none id h = ground arith
settle_reservation-eq-ok (some r) id h = (r, refl, ground arith)

some_injective : {A : Type 0} {a b : A} → some a ≡ some b → a ≡ b
some_injective h = cc

listed_first : (a b f : String) → a ≡ f → any (λ g. g === f) (a ∷ b ∷ []) ≡ true
listed_first a b f h = ground (arith, eq_iff a f)

listed_second : (a b f : String) → b ≡ f → any (λ g. g === f) (a ∷ b ∷ []) ≡ true
listed_second a b f h = ground (arith, eq_iff b f)

returned_state :
    {S A : Type 0} (a b : A) (s s' : S)
    → ◌≡◌ {A = Result Failure A × S} (ok a, s) (ok b, s')
    → s ≡ s'
returned_state a b s s' h = ground arith

module _ (R : ReplayStore) (digests : Digests) (options : WebhookAcceptanceOptions) where
  open R use {State, reserve}

  -- The store has reserved the fingerprints of an envelope, for the time of retention.
  abbrev IsReserved : ℕ → ℕ → WebhookEnvelope → State → State → Type 0
  IsReserved t now e s s' =
      (r : WebhookReplayReservation) × ((reserve t (now + options.replay_retention_ms)
          (fingerprints R digests options e) s).0
        ≡ some r)
      × (r.accepted ≡ true)
      × ((reserve t (now + options.replay_retention_ms) (fingerprints R digests options e) s).1
          ≡ s')

  -- A time within the skew of the envelope's.
  abbrev IsTimely : ℕ → WebhookEnvelope → Type 0
  IsTimely now e =
      (signed_at : ℕ) × (digests.parse_date e.timestamp ≡ some signed_at)
      × (distance now signed_at ≤ options.allowed_clock_skew_ms)

  reserve_envelope-IsReserved :
      (t now : ℕ) (e : WebhookEnvelope) (s s' : State) (id : String)
      → reserve_envelope R digests options t now e s ≡ (ok id, s')
      → IsReserved t now e s s'
  unfolding reserve_envelope
  reserve_envelope-IsReserved t now e s s' id h =
      let (r, given, accepted) =
        settle_reservation-eq-ok
          ((reserve t (now + options.replay_retention_ms) (fingerprints R digests options e) s).0)
          id (ground arith) in
      (r, given, accepted, ground arith)

  timely :
      (now signed_at : ℕ) (e : WebhookEnvelope)
      → digests.parse_date e.timestamp ≡ some signed_at
      → ltb options.allowed_clock_skew_ms (distance now signed_at) ≡ false
      → IsTimely now e
  timely now signed_at e signed near = (signed_at, signed, ground arith)

  accept_verified_webhook-eq-ok :
      (clock : Option ℕ) (v : Option Verification) (t : ℕ) (e : WebhookEnvelope) (s s' : State)
      (w : AcceptedWebhook)
      → accept_verified_webhook R digests options clock v t e s ≡ (ok w, s')
      → (now : ℕ) × (clock ≡ some now) × IsTimely now e × IsReserved t now e s s'
  unfolding accept_verified_webhook
  accept_verified_webhook-eq-ok clock v t e s s' w h =
      let (u1, s1, h1, k1) = >>=-eq-ok _ _ s h in
      let (now, s2, h2, k2) = >>=-eq-ok _ _ s1 k1 in
      let (u3, s3, h3, k3) = >>=-eq-ok _ _ s2 k2 in
      let (signed_at, s4, h4, k4) = >>=-eq-ok _ _ s3 k3 in
      let (received_at, s5, h5, k5) = >>=-eq-ok _ _ s4 k4 in
      let (u6, s6, h6, k6) = >>=-eq-ok _ _ s5 k5 in
      let (verdict, s7, h7, k7) = >>=-eq-ok _ _ s6 k6 in
      let (u8, s8, h8, k8) = >>=-eq-ok _ _ s7 k7 in
      let (id, s9, h9, k9) = >>=-eq-ok _ _ s8 k8 in
      let (fine, same1) = refuse_if-eq-ok (is_malformed options e) _ s s1 h1 in
      let (clocked, same2) = required-eq-ok invalid_signature clock now s1 s2 h2 in
      let (small, same3) = refuse_if-eq-ok _ _ s2 s3 h3 in
      let (signed, same4) =
        required-eq-ok invalid_signature (digests.parse_date e.timestamp) signed_at s3 s4 h4 in
      let (received, same5) =
        required-eq-ok invalid_signature (digests.parse_date e.received_at) received_at s4 s5 h5 in
      let (near, same6) =
        refuse_if-eq-ok (ltb options.allowed_clock_skew_ms (distance now signed_at)) _ s5 s6 h6 in
      let (seen, same7) = required-eq-ok invalid_signature v verdict s6 s7 h7 in
      let (good, same8) = refuse_if-eq-ok _ _ s7 s8 h8 in
      let same : s ≡ s8 = same1 ∙ same2 ∙ same3 ∙ same4 ∙ same5 ∙ same6 ∙ same7 ∙ same8 in
      (
        now,
        clocked,
        timely now signed_at e signed near,
        subst (λ st. IsReserved t now e st s') (sym same)
            (subst (IsReserved t now e s8) (returned_state _ w s9 s' k9)
              (reserve_envelope-IsReserved t now e s8 s9 id h9)),
      )

  -- The reservations of this and of other services: the time, the expiry and the fingerprints.
  abbrev pub run_reserve : List (ℕ × ℕ × List String) → State → State
  run_reserve [] s = s
  run_reserve ((t, expiry, fs) ∷ rs) s = run_reserve rs (reserve t expiry fs s).1

  -- A reservation for an envelope of one signed time that is made at most `delay` after its clock
  -- was read comes before the expiry of every reservation for that signed time.
  within_retention :
      (now now' t' delay : ℕ) (e e' : WebhookEnvelope)
      → e'.timestamp ≡ e.timestamp
      → IsTimely now e
      → IsTimely now' e'
      → t' ≤ now' + delay
      → options.allowed_clock_skew_ms * 2 + delay < options.replay_retention_ms
      → t' < now + options.replay_retention_ms
  within_retention now now' t' delay e e' same (a, signed, near) (b, signed', near') late retained =
      let one : a ≡ b = ground (arith, same, signed, signed') in omega arith

  module _ (lawful : IsLawful R) where
    open lawful use {Held, reserve-Held, keeps_Held, refuses_Held}

    run_reserve-Held :
        (rs : List (ℕ × ℕ × List String)) (f : String) (t' end : ℕ) (s : State)
        → All (λ r. r.0 ≤ t') rs
        → t' < end
        → Held f end s
        → Held f end (run_reserve rs s)
    run_reserve-Held [] f t' end s before within held = held
    run_reserve-Held ((t, expiry, fs) ∷ rs) f t' end s (one, before) within held =
        run_reserve-Held rs f t' end ((reserve t expiry fs s).1) before within
          (keeps_Held t expiry fs s f end (omega arith) held)

    -- Two envelopes that share a fingerprint are not both reserved before the first one expires.
    reserved_once :
        (t now t' now' : ℕ) (e e' : WebhookEnvelope) (s s1 s2 : State)
        → t' < now + options.replay_retention_ms
        → IsReserved t now e s s1
        → (rs : List (ℕ × ℕ × List String)) → All (λ (q : ℕ × ℕ × List String). q.0 ≤ t') rs
        → IsReserved t' now' e' (run_reserve rs s1) s2
        → (f : String) → any (λ g. g === f) (fingerprints R digests options e) ≡ true
        → any (λ g. g === f) (fingerprints R digests options e') ≡ true
        → ⊥
    reserved_once t now t' now' e e' s s1 s2 within (r, given, accepted, left) rs before
          (r', given', accepted', left') f one two =
        let end = now + options.replay_retention_ms in
        let held : Held f end s1 =
          subst (Held f end) left
            (reserve-Held t end (fingerprints R digests options e) s r given accepted f one) in
        let refused =
          refuses_Held t' (now' + options.replay_retention_ms) (fingerprints R digests options e')
            (run_reserve rs s1) f end within (run_reserve-Held rs f t' end s1 before within held)
            two r' given' in
        ground (arith, refused, accepted')

    -- A webhook is accepted once: after it was accepted, no other with its event id or its nonce, of
    -- the same protocol version and with the same signed time, is accepted at any time, whatever
    -- reservations the store made up to then, if the reservation of the other is made at most
    -- `delay` after the clock of its call was read, and the retention is more than twice the skew
    -- plus `delay`. The store need hold a reservation only while its time is before the expiry.
    pub accept_verified_webhook_once :
        (now t now' t' delay : ℕ) (v v' : Option Verification) (e e' : WebhookEnvelope)
        (s s1 : State) (w : AcceptedWebhook)
        → accept_verified_webhook R digests options (some now) v t e s ≡ (ok w, s1)
        → e'.version ≡ e.version
        → e'.timestamp ≡ e.timestamp
        → (e'.event_id ≡ e.event_id) ⊎ (e'.nonce ≡ e.nonce)
        → t' ≤ now' + delay
        → options.allowed_clock_skew_ms * 2 + delay < options.replay_retention_ms
        → (rs : List (ℕ × ℕ × List String)) → All (λ r. r.0 ≤ t') rs
        → (w' : AcceptedWebhook) (s2 : State)
        → accept_verified_webhook R digests options (some now') v' t' e' (run_reserve rs s1)
          ≢ (ok w', s2)
    accept_verified_webhook_once now t now' t' delay v v' e e' s s1 w h version timestamp shared
          late retained rs before w' s2 again =
        let (n, clock, timely1, reserved1) =
          accept_verified_webhook-eq-ok (some now) v t e s s1 w h in
        let (n', clock', timely2, reserved2) =
          accept_verified_webhook-eq-ok (some now') v' t' e' (run_reserve rs s1) s2 w' again in
        let late' : t' ≤ n' + delay = subst (λ m. t' ≤ m + delay) (some_injective clock') late in
        let within = within_retention n n' t' delay e e' timestamp timely1 timely2 late' retained in
        let refused = reserved_once t n t' n' e e' s s1 s2 within reserved1 rs before reserved2 in
        let event_of = λ (x : WebhookEnvelope). digests.fingerprint "event" x.version x.event_id in
        let nonce_of = λ (x : WebhookEnvelope). digests.fingerprint "nonce" x.version x.nonce in
        elim shared [
          | inl event ↦
              refused (event_of e) (listed_first (event_of e) (nonce_of e) (event_of e) refl) (
                listed_first (event_of e') (nonce_of e') (event_of e) (
                  ap (λ text. digests.fingerprint "event" text e'.event_id) version
                  ∙ ap (digests.fingerprint "event" e.version) event))
          | inr nonce ↦
              refused (nonce_of e) (listed_second (event_of e) (nonce_of e) (nonce_of e) refl) (
                listed_second (event_of e') (nonce_of e') (nonce_of e) (
                  ap (λ text. digests.fingerprint "nonce" text e'.nonce) version
                  ∙ ap (digests.fingerprint "nonce" e.version) nonce))
        ]
