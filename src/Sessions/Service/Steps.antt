-- ===== src/Sessions/Service/Steps.antt =====
-- session-service.ts: the steps of `refresh`, each by what it has done where it returns.
use ai_crm_step.Base.{
  ℕ, ◌-◌, min, String, Bool, true, false, not, ◌≡◌, refl, sym, ap, ◌∙◌, ◌===◌, ◌==◌, ◌||◌, ◌↔◌,
  eq_iff, arith, Option, none, some, Bool-cases, inl, inr,
}
use ai_crm_step.Base.Pattern.{is_random_id}
use ai_crm_step.Base.Result.{ok, Result-cases, ok_injective}
use ai_crm_step.Sessions.{
  SessionFailure, EncryptedSessionTokenSet, session_invalid, SessionTokenSet, StoredBrowserSession,
  Call, ◌>>=◌, >>=-eq-ok, refuse_if-eq-ok,
}
use ai_crm_step.Sessions.Redis.{
  Redis, IsLawful, RedisKey, session_key, family_key, refresh_key, same_key,
}
use ai_crm_step.Sessions.Store.{rotate_session, release_refresh_lease, is_text}
use ai_crm_step.Sessions.Store.Rotation.{IsAccepted}
use ai_crm_step.Sessions.Service.{
  SessionOptions, Ciphers, BrowserSessionView, session_view, finally, audit_or_undo,
  remaining_session_ttl, create_session_index, RefreshTurn, refreshed_session, rotate_and_audit,
  required,
}

pub finally-eq-ok :
    {S A B : Type 0} (cleanup : Call S B) (body : Call S A) (s s' : S) {a : A}
    → finally cleanup body s ≡ (ok a, s')
    → (s1 : S) × (body s ≡ (ok a, s1)) × ((cleanup s1).1 ≡ s')
unfolding finally
finally-eq-ok cleanup body s s' {a} h =
    let same : (body s).0 ≡ ok a = ap (λ p. p.0) h in
    ((body s).1, ap (λ answer. (answer, (body s).1)) same, ap (λ p. p.1) h)

audit_or_undo-eq-ok :
    {S A : Type 0} (audited : Bool) (undo : Call S A) (s s' : S) {u : Unit {0}}
    → audit_or_undo audited undo s ≡ (ok u, s')
    → s ≡ s'
unfolding audit_or_undo ◌>>=◌
audit_or_undo-eq-ok true undo s s' h = ap (λ p. p.1) h
audit_or_undo-eq-ok false undo s s' h = elim (Result-cases ((undo s).0)) [
  | inl (a, good) ↦ ground (arith, good)
  | inr (e, bad) ↦ ground (arith, bad)
]

pub required-eq-ok :
    {S A : Type 0} (e : SessionFailure) (found : Option A) (s s' : S) {a : A}
    → required e found s ≡ (ok a, s')
    → (found ≡ some a) × (s ≡ s')
required-eq-ok e none s s' h = ground arith
required-eq-ok e (some b) s s' h = (ap some (ok_injective (ap (λ p. p.0) h)), ap (λ p. p.1) h)

gather :
    {S : Type 0} (f : String → ℕ → Call S Bool) (b : Bool) {i j : String} {n m : ℕ} {s s1 s2 s' : S}
    → i ≡ j
    → n ≡ m
    → s ≡ s1
    → f j n s1 ≡ (ok b, s2)
    → not b ≡ false
    → s2 ≡ s'
    → f i m s ≡ (ok true, s')
gather f true ei en es h good es' = cc
gather f false ei en es h good es' = cc

pub unchanged :
    (current initial : StoredBrowserSession)
    → (not (current.id === initial.id) || not (current.revision == initial.revision)) ≡ false
    → (current.id ≡ initial.id) × (current.revision ≡ initial.revision)
unchanged current initial h = ground (arith, eq_iff current.id initial.id)

module _ (R : Redis) (options : SessionOptions) (ciphers : Ciphers) where
  open R use {Server, get}

  pub create_session_index-eq-ok :
      (credential : String) (s s' : Server) {index : String}
      → create_session_index R options ciphers credential s ≡ (ok index, s')
      → (ciphers.digest credential ≡ index) × (s ≡ s')
  unfolding create_session_index
  create_session_index-eq-ok credential s s' h = ground arith

  remaining_session_ttl-eq-ok :
      (r : StoredBrowserSession) (now idle : ℕ) (s s' : Server) {ttl : ℕ}
      → remaining_session_ttl r now idle s ≡ (ok ttl, s')
      → (ttl ≡ min (r.absolute_expires_at_ms - now) idle) × (s ≡ s')
  unfolding remaining_session_ttl
  remaining_session_ttl-eq-ok r now idle s s' h = ground arith

  module _ {P : Type 0} (turn : RefreshTurn P) where
    pub rotate_and_audit-eq-ok :
        (previous : String) (current : StoredBrowserSession) (tokens : SessionTokenSet)
        (s s' : Server) {answer : String × BrowserSessionView}
        → rotate_and_audit R options ciphers turn previous current tokens s ≡ (ok answer, s')
        → (sealed : EncryptedSessionTokenSet) × (ciphers.encrypt_session_tokens tokens current.id
            ≡ some sealed)
          × (answer ≡ (
            turn.next_credential,
            session_view (refreshed_session R options ciphers current sealed),
          ))
          × (rotate_session R turn.t3 previous
                (ciphers.digest turn.next_credential)
                current.revision
                (refreshed_session R options ciphers current sealed)
                (min (current.absolute_expires_at_ms - turn.now) options.idle_ttl_ms)
                s
              ≡ (ok true, s'))
    unfolding rotate_and_audit refreshed_session
    rotate_and_audit-eq-ok previous current tokens s s' {answer} h =
        let (next, s1, h1, k1) = >>=-eq-ok _ _ s h in
        let (e1, same1) = create_session_index-eq-ok turn.next_credential s s1 h1 in
        let (sealed, s2, h2, k2) = >>=-eq-ok _ _ s1 k1 in
        let (is_sealed, same2) = required-eq-ok session_invalid _ s1 s2 h2 in
        let (ttl, s3, h3, k3) = >>=-eq-ok _ _ s2 k2 in
        let (e3, same3) = remaining_session_ttl-eq-ok _ _ _ s2 s3 h3 in
        let (rotated, s4, h4, k4) = >>=-eq-ok _ _ s3 k3 in
        let (u, s5, h5, k5) = >>=-eq-ok _ _ s4 k4 in
        let (e5, same5) = refuse_if-eq-ok (not rotated) session_invalid s4 s5 h5 in
        let (v, s6, h6, k6) = >>=-eq-ok _ _ s5 k5 in
        let same6 = audit_or_undo-eq-ok _ _ s5 s6 h6 in
        (
          sealed,
          is_sealed,
          sym (ok_injective (ap (λ p. p.0) k6)),
          gather
              (λ i n st.
                rotate_session R turn.t3 previous i current.revision
                  (refreshed_session R options ciphers current sealed) n st)
              rotated e1 e3 (same1 ∙ same2 ∙ same3) h4 e5 (same5 ∙ same6 ∙ ap (λ p. p.1) k6),
        )

  get-released :
      (lawful : IsLawful R) (t later : ℕ) (id owner : String) (k : RedisKey) (s : Server)
      → same_key (refresh_key id) k ≡ false
      → get later k (release_refresh_lease R t id owner s).1 ≡ get later k s
  unfolding release_refresh_lease
  get-released lawful t later id owner k s apart = elim (Bool-cases (is_random_id owner)) [
    | inr bad ↦ ground (arith, bad)
    | inl good ↦ elim (Bool-cases (is_random_id id)) [
      | inr bad ↦ ground (arith, good, bad)
      | inl fine ↦ elim (Bool-cases (is_text R owner (get t (refresh_key id) s))) [
        | inr other ↦ ground (arith, good, fine, other)
        | inl own ↦ ground (arith, good, fine, own, lawful.get-del later (refresh_key id) k s)
      ]
    ]
  ]

  -- The lease of a refresh lies under a key of its own.
  pub released_lem :
      (lawful : IsLawful R) (t later now : ℕ) (id owner index : String) (s : Server)
      (r : StoredBrowserSession)
      → IsAccepted R later now index (release_refresh_lease R t id owner s).1 r
        ↔ IsAccepted R later now index s r
  unfolding same_key
  released_lem lawful t later now id owner index s r =
      let at_session = get-released lawful t later id owner (session_key index) s refl in
      let at_family = get-released lawful t later id owner (family_key r.id) s refl in
      (
        λ a. record {
          stored = sym at_session ∙ a.stored;
          named = sym at_family ∙ a.named;
          unexpired = a.unexpired;
        },
        λ a. record {
          stored = at_session ∙ a.stored;
          named = at_family ∙ a.named;
          unexpired = a.unexpired;
        },
      )
