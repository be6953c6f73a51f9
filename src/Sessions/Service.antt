-- ===== src/Sessions/Service.antt =====
-- apps/api/src/auth/session-service.ts. The identity provider, the token verifier, the audit and
-- the sources of credentials answer with the call; the ciphers and the keyed digest are parameters.
-- `t1`, `t2`, ... are the times of a call's commands, `now` the service's clock.
pub mod Steps
pub mod Refresh
pub mod Access
use ai_crm_step.Base.{
  ℕ, ◌+◌, ◌-◌, ◌*◌, String, Bool, true, false, not, ◌||◌, ◌===◌, ◌==◌, leb, ltb, min, Option, none,
  some, if◌then◌else◌,
}
use ai_crm_step.Base.Pattern.{is_random_id}
use ai_crm_step.Base.Result.{Result, ok, err}
use ai_crm_step.Sessions.{
  SessionFailure, callback_invalid, dependency_unavailable, refresh_in_progress, session_invalid,
  SessionTokenSet, EncryptedSessionTokenSet, StoredBrowserSession, LoginTransaction, Call, ◌>>=◌,
  ◌>>◌, return, refuse_if,
}
use ai_crm_step.Sessions.Redis.{Redis}
use ai_crm_step.Sessions.Store.{
  get_session, create_session, delete_session, rotate_session, revoke_session,
  acquire_refresh_lease, release_refresh_lease, store_login_transaction, consume_login_transaction,
}

pub record SessionOptions : Type 0 where
  pub login_ttl_ms : ℕ
  pub idle_ttl_ms : ℕ
  pub absolute_ttl_ms : ℕ
  pub refresh_lease_ttl_ms : ℕ

unfoldable pub seconds_to_milliseconds : ℕ → Result SessionFailure ℕ
seconds_to_milliseconds value =
    if value == 0 || ltb 31536000 value then err session_invalid else ok (value * 1000)

pub record Ciphers : Type 0 where
  -- The digest of `createSessionIndex`.
  pub digest : String → String
  -- `none` where a token or the text of all is too long; the initialization vector that the
  -- cipher draws is that of this function.
  pub encrypt_session_tokens : SessionTokenSet → String → Option EncryptedSessionTokenSet
  -- `none` stands for every failure.
  pub decrypt_session_tokens : EncryptedSessionTokenSet → String → Option SessionTokenSet

pub data Verdict (P : Type 0) : Type 0 where
  verified : P → Verdict P
  identity_provider_unavailable rejected : Verdict P

pub record OidcTokenResult : Type 0 where
  pub authenticated_at_ms : ℕ
  pub tokens : SessionTokenSet

pub record BrowserSessionView : Type 0 where
  pub authenticated_at : ℕ
  pub csrf_token : String
  pub expires_at : ℕ

unfoldable pub session_view : StoredBrowserSession → BrowserSessionView
session_view r = record {
  authenticated_at = r.authenticated_at_ms;
  csrf_token = r.csrf_token;
  expires_at = r.absolute_expires_at_ms;
}

abbrev pub throw : {S A : Type 0} → SessionFailure → Call S A
throw e s = (err e, s)

abbrev pub answered : {S A : Type 0} → Result SessionFailure A → Call S A
answered answer s = (answer, s)

-- A value that has to be there.
abbrev pub required : {S A : Type 0} → SessionFailure → Option A → Call S A
required e none = throw e
required e (some a) = return a

-- `try { body } finally { cleanup }`, where what the cleanup throws is dropped.
unfoldable pub finally : {S A B : Type 0} → Call S B → Call S A → Call S A
finally cleanup body s = let (answer, s') = body s in (answer, (cleanup s').1)

-- `auditOrFail`, and what is undone before its failure is thrown again.
unfoldable pub audit_or_undo : {S A : Type 0} → Bool → Call S A → Call S (Unit {0})
audit_or_undo true undo = return tt
audit_or_undo false undo = undo >> throw dependency_unavailable

unfoldable pub verify_issued_access_token : {S P : Type 0} → Verdict P → Call S (Unit {0})
verify_issued_access_token (verified p) = return tt
verify_issued_access_token identity_provider_unavailable = throw dependency_unavailable
verify_issued_access_token rejected = throw session_invalid

unfoldable pub remaining_session_ttl : {S : Type 0} → StoredBrowserSession → ℕ → ℕ → Call S ℕ
remaining_session_ttl r now idle =
    if leb r.absolute_expires_at_ms now
    then throw session_invalid
    else return (min (r.absolute_expires_at_ms - now) idle)

-- What a login brings with it: the new credential, the id of the session and its CSRF token.
pub record Credentials : Type 0 where
  pub credential : String
  pub session_reference : String
  pub csrf_token : String

-- What answers a refresh: the provider and the verifier, the new names, the audit, and the times.
pub record RefreshTurn (P : Type 0) : Type 0 where
  pub lease_owner : String
  pub next_credential : String
  pub refresh_tokens : SessionTokenSet → Result SessionFailure OidcTokenResult
  pub verify : String → Verdict P
  pub audited : Bool
  pub first_now : ℕ
  pub now : ℕ
  pub t1 : ℕ
  pub t2 : ℕ
  pub t3 : ℕ
  pub t4 : ℕ

module _ (R : Redis) (options : SessionOptions) (ciphers : Ciphers) where
  open R use {Server}

  -- `createSessionIndex`
  unfoldable pub create_session_index : String → Call Server String
  create_session_index credential =
      if is_random_id credential then return (ciphers.digest credential) else throw session_invalid

  unfoldable pub load_stored_session : ℕ → ℕ → String → Call Server StoredBrowserSession
  load_stored_session t now credential = do
    index ← create_session_index credential
    found ← get_session R t now index options.idle_ttl_ms
    session ← required session_invalid found
    refuse_if (leb session.absolute_expires_at_ms now) session_invalid
    return session

  -- The answer of the verifier to the stored access token; other failures drop the session.
  unfoldable pub accept_verdict :
      {P : Type 0}
      → ℕ
      → String
      → StoredBrowserSession
      → Verdict P
      → Call Server (P × StoredBrowserSession)
  accept_verdict t index session (verified p) = return (p, session)
  accept_verdict t index session identity_provider_unavailable = throw dependency_unavailable
  accept_verdict t index session rejected = delete_session R t index >> throw session_invalid

  -- The verdict on the tokens of a session.
  abbrev pub verdict_on : {P : Type 0} → (String → Verdict P) → Option SessionTokenSet → Verdict P
  verdict_on verify none = rejected
  verdict_on verify (some tokens) = verify tokens.access_token

  unfoldable pub load_verified_session :
      {P : Type 0}
      → ℕ
      → ℕ
      → ℕ
      → (String → Verdict P)
      → String
      → Call Server (P × StoredBrowserSession)
  unfolding accept_verdict
  load_verified_session t1 t2 now verify credential = do
    index ← create_session_index credential
    found ← get_session R t1 now index options.idle_ttl_ms
    session ← required session_invalid found
    refuse_if (leb session.absolute_expires_at_ms now) session_invalid
    accept_verdict t2 index session
        (verdict_on verify (ciphers.decrypt_session_tokens session.tokens session.id))

  unfoldable pub current_session :
      {P : Type 0} → ℕ → ℕ → ℕ → (String → Verdict P) → String → Call Server BrowserSessionView
  current_session t1 t2 now verify credential = do
    loaded ← load_verified_session t1 t2 now verify credential
    return (session_view loaded.1)

  unfoldable pub resolve_principal :
      {P : Type 0} → ℕ → ℕ → ℕ → (String → Verdict P) → String → Call Server P
  resolve_principal t1 t2 now verify credential = do
    loaded ← load_verified_session t1 t2 now verify credential
    return loaded.0

  unfoldable pub session_for_mutation : ℕ → ℕ → String → Call Server (BrowserSessionView × String)
  session_for_mutation t now credential = do
    session ← load_stored_session t now credential
    return (session_view session, session.id)

  unfoldable pub begin_login :
      ℕ → ℕ → Result SessionFailure (String × LoginTransaction) → Bool → Call Server String
  begin_login t1 t2 begun audited = do
    result ← answered begun
    let transaction = result.1
    index ← create_session_index transaction.state
    store_login_transaction R t1 index transaction options.login_ttl_ms
    audit_or_undo audited (consume_login_transaction R t2 index)
    return result.0

  unfoldable pub new_session :
      Credentials → ℕ → OidcTokenResult → EncryptedSessionTokenSet → StoredBrowserSession
  new_session c now result sealed = record {
    absolute_expires_at_ms = now + options.absolute_ttl_ms;
    authenticated_at_ms = result.authenticated_at_ms;
    created_at_ms = now;
    csrf_token = c.csrf_token;
    id = c.session_reference;
    revision = 0;
    tokens = sealed;
  }

  -- The index of a state, whose failure is that of the callback.
  abbrev state_index : Option String → Call Server String
  state_index none = throw callback_invalid
  state_index (some state) =
      if is_random_id state then return (ciphers.digest state) else throw callback_invalid

  unfoldable pub complete_login :
      {P : Type 0}
      → ℕ
      → ℕ
      → ℕ
      → ℕ
      → Option String
      → (LoginTransaction → Result SessionFailure OidcTokenResult)
      → (String → Verdict P)
      → Credentials
      → Bool
      → Call Server (String × String × BrowserSessionView)
  unfolding new_session
  complete_login t1 t2 t3 now state exchange verify c audited = do
    index ← state_index state
    consumed ← consume_login_transaction R t1 index
    transaction ← required callback_invalid consumed
    result ← answered (exchange transaction)
    verify_issued_access_token (verify result.tokens.access_token)
    session_index ← create_session_index c.credential
    sealed ←
        required session_invalid (ciphers.encrypt_session_tokens result.tokens c.session_reference)
    let session = new_session c now result sealed
    create_session R t2 session_index session options.idle_ttl_ms
    audit_or_undo audited (delete_session R t3 session_index)
    return (c.credential, transaction.return_to, session_view session)

  -- The id of the session that `logout` ends: the caller's, or that of the session found.
  unfoldable pub logout_reference : ℕ → ℕ → String → Option String → Call Server (Option String)
  logout_reference t now index (some expected) = return (some expected)
  logout_reference t now index none = do
    found ← get_session R t now index options.idle_ttl_ms
    return (elim found [ none ↦ none | some session ↦ some session.id ])

  unfoldable pub revoke_reference :
      ℕ → String → Bool → Option String → Option String → Call Server (Option String)
  revoke_reference t index audited end_session_url none = return none
  revoke_reference t index audited end_session_url (some reference) = do
    refuse_if (not audited) dependency_unavailable
    revoked ← revoke_session R t index reference
    return (elim revoked [ none ↦ none | some session ↦ end_session_url ])

  unfoldable pub logout :
      ℕ → ℕ → ℕ → Option String → Option String → Bool → Option String → Call Server (Option String)
  logout t1 t2 now none expected audited end_session_url = return none
  logout t1 t2 now (some credential) expected audited end_session_url = do
    index ← create_session_index credential
    reference ← logout_reference t1 now index expected
    revoke_reference t2 index audited end_session_url reference

  unfoldable pub refreshed_session :
      StoredBrowserSession → EncryptedSessionTokenSet → StoredBrowserSession
  refreshed_session r sealed = record r { revision = r.revision + 1; tokens = sealed }

  -- From the rotation on.
  unfoldable pub rotate_and_audit :
      {P : Type 0}
      → RefreshTurn P
      → String
      → StoredBrowserSession
      → SessionTokenSet
      → Call Server (String × BrowserSessionView)
  rotate_and_audit turn previous current tokens = do
    next ← create_session_index turn.next_credential
    sealed ← required session_invalid (ciphers.encrypt_session_tokens tokens current.id)
    let session = refreshed_session current sealed
    ttl ← remaining_session_ttl session turn.now options.idle_ttl_ms
    rotated ← rotate_session R turn.t3 previous next current.revision session ttl
    refuse_if (not rotated) session_invalid
    audit_or_undo turn.audited (delete_session R turn.t4 next)
    return (turn.next_credential, session_view session)

  -- The body of the `try`.
  unfoldable pub refresh_leased :
      {P : Type 0}
      → RefreshTurn P
      → String
      → StoredBrowserSession
      → Call Server (String × BrowserSessionView)
  refresh_leased turn previous initial = do
    found ← get_session R turn.t2 turn.now previous options.idle_ttl_ms
    current ← required session_invalid found
    refuse_if (not (current.id === initial.id) || not (current.revision == initial.revision))
        session_invalid
    tokens ← required session_invalid (ciphers.decrypt_session_tokens current.tokens current.id)
    refreshed ← answered (turn.refresh_tokens tokens)
    verify_issued_access_token (turn.verify refreshed.tokens.access_token)
    rotate_and_audit turn previous current refreshed.tokens

  unfoldable pub refresh_session :
      {P : Type 0} → RefreshTurn P → String → Call Server (String × BrowserSessionView)
  refresh_session turn credential = do
    previous ← create_session_index credential
    found ← get_session R turn.t1 turn.first_now previous options.idle_ttl_ms
    initial ← required session_invalid found
    leased ←
        acquire_refresh_lease R turn.t1 initial.id turn.lease_owner options.refresh_lease_ttl_ms
    refuse_if (not leased) refresh_in_progress
    finally (release_refresh_lease R turn.t4 initial.id turn.lease_owner)
        (refresh_leased turn previous initial)
