-- ===== src/Sessions/Store.antt =====
-- apps/api/src/auth/session-store.ts: the Lua scripts and the operations over them. `t` is the
-- server's time of a command, `now` the caller's. A command that does not reach the server is left
-- out: it throws `dependency_unavailable` and changes nothing.
pub mod Rotation
pub mod Revocation
pub mod Lease
use ai_crm_step.Base.{
  ℕ, ◌-◌, String, Bool, true, false, not, ◌&&◌, ◌||◌, ◌===◌, ◌==◌, ltb, leb, min, Option, none,
  some, is_some, if◌then◌else◌,
}
use ai_crm_step.Base.Pattern.{is_random_id}
use ai_crm_step.Base.Result.{Result, ok, err}
use ai_crm_step.Sessions.{
  SessionFailure, dependency_unavailable, session_invalid, StoredBrowserSession, LoginTransaction,
  Call, ◌>>=◌, ◌>>◌, return, refuse_if,
}
use ai_crm_step.Sessions.Redis.{
  Redis, RedisKey, login_key, session_key, family_key, refresh_key, Entry, login_entry,
  session_entry, text_entry,
}

-- `key`, `leaseKey`, `familyKey`
abbrev require_id : {S : Type 0} → String → Call S (Unit {0})
require_id id = refuse_if (not (is_random_id id)) session_invalid

-- `positiveMilliseconds`
abbrev require_ttl : {S : Type 0} → ℕ → Call S (Unit {0})
require_ttl ttl = refuse_if (ttl == 0 || ltb 31536000000 ttl) session_invalid

abbrev is_safe_integer : ℕ → Bool
is_safe_integer n = leb n 9007199254740991

-- The checks of `parseStoredSession` on a record of the right types. Its algorithm is the one that
-- the type has; the limit of 65,536 bytes on the record's text is left out.
unfoldable pub is_stored_session : StoredBrowserSession → Bool
is_stored_session r =
    (is_safe_integer r.absolute_expires_at_ms
      && (is_safe_integer r.authenticated_at_ms && is_safe_integer r.created_at_ms))
    && ((is_random_id r.csrf_token && is_random_id r.id)
        && (is_safe_integer r.revision && (r.tokens.version == 1 || r.tokens.version == 2)))

-- `parseStoredSession` of what a script answers.
unfoldable pub parse_stored_session :
    Result SessionFailure (Option StoredBrowserSession)
    → Result SessionFailure (Option StoredBrowserSession)
unfolding is_stored_session
parse_stored_session (err e) = err e
parse_stored_session (ok none) = ok none
parse_stored_session (ok (some r)) =
    if is_stored_session r then ok (some r) else err session_invalid

abbrev pub parsed :
    {S : Type 0} → Call S (Option StoredBrowserSession) → Call S (Option StoredBrowserSession)
parsed script s = let (answer, s') = script s in (parse_stored_session answer, s')

module _ (R : Redis) where
  open R use {Server, get, set_px, pexpire, del}

  -- A script on the record under a key: `missing` where there is none, and else `next`. It fails on
  -- an entry that is no record.
  abbrev pub decode :
      {A : Type 0}
      → Call Server A
      → (StoredBrowserSession → Call Server A)
      → Option Entry
      → Call Server A
  decode missing next none s = missing s
  decode missing next (some (session_entry r)) s = next r s
  decode missing next (some (login_entry l)) s = (err dependency_unavailable, s)
  decode missing next (some (text_entry i)) s = (err dependency_unavailable, s)

  -- `redis.call('GET', k) == text`, on what is there.
  abbrev pub is_text : String → Option Entry → Bool
  is_text text none = false
  is_text text (some (text_entry i)) = i === text
  is_text text (some (login_entry l)) = false
  is_text text (some (session_entry r)) = false

  -- `if redis.call('GET', k) == text then redis.call('DEL', k) end`
  abbrev pub del_if : ℕ → RedisKey → String → Server → Server
  del_if t k text s = if is_text text (get t k s) then del k s else s

  unfoldable pub touch :
      ℕ → ℕ → String → ℕ → StoredBrowserSession → Call Server (Option StoredBrowserSession)
  touch t now index idle r s =
      let ttl = min idle (r.absolute_expires_at_ms - now) in
      if leb r.absolute_expires_at_ms now
      then (ok none, del_if t (family_key r.id) index (del (session_key index) s))
      else if is_text index (get t (family_key r.id) s)
      then (ok (some r), pexpire t (family_key r.id) ttl (pexpire t (session_key index) ttl s))
      else (ok none, s)

  -- `touchScript`
  unfoldable pub touch_script : ℕ → ℕ → String → ℕ → Call Server (Option StoredBrowserSession)
  unfolding touch
  touch_script t now index idle s =
      decode (return none) (touch t now index idle) (get t (session_key index) s) s

  unfoldable pub get_session : ℕ → ℕ → String → ℕ → Call Server (Option StoredBrowserSession)
  unfolding touch_script parse_stored_session ◌>>=◌
  get_session t now index idle = do
    require_id index
    require_ttl idle
    parsed (touch_script t now index idle)

  -- `createScript`
  unfoldable pub create_script : ℕ → String → StoredBrowserSession → ℕ → Call Server Bool
  create_script t index r ttl s =
      if is_some (get t (session_key index) s) || is_some (get t (family_key r.id) s)
      then (ok false, s)
      else (
        ok true,
        set_px t (family_key r.id) (text_entry index) ttl
            (set_px t (session_key index) (session_entry r) ttl s),
      )

  unfoldable pub create_session : ℕ → String → StoredBrowserSession → ℕ → Call Server (Unit {0})
  unfolding create_script ◌>>=◌
  create_session t index r ttl = do
    require_id index
    require_id r.id
    require_ttl ttl
    done ← create_script t index r ttl
    refuse_if (not done) session_invalid

  -- `deleteScript`
  unfoldable pub delete_script : ℕ → String → Call Server (Option StoredBrowserSession)
  delete_script t index s =
      decode (return none)
        (λ r s. (ok (some r), del (session_key index) (del_if t (family_key r.id) index s)))
        (get t (session_key index) s) s

  unfoldable pub delete_session : ℕ → String → Call Server (Option StoredBrowserSession)
  unfolding delete_script parse_stored_session ◌>>=◌
  delete_session t index = do require_id index; parsed (delete_script t index)

  unfoldable pub rotate :
      ℕ → String → String → ℕ → StoredBrowserSession → ℕ → StoredBrowserSession → Call Server Bool
  rotate t previous next expected r ttl old s =
      if not (old.revision == expected)
        || (not (r.id === old.id) || not (is_text previous (get t (family_key old.id) s)))
      then (ok false, s)
      else (
        ok true,
        set_px t (family_key old.id) (text_entry next) ttl
            (set_px t (session_key next) (session_entry r) ttl (del (session_key previous) s)),
      )

  -- `rotateScript`. Its `SET ... NX` finds no key, as the script has tested.
  unfoldable pub rotate_script :
      ℕ → String → String → ℕ → StoredBrowserSession → ℕ → Call Server Bool
  unfolding rotate
  rotate_script t previous next expected r ttl s =
      if is_some (get t (session_key next) s)
      then (ok false, s)
      else decode (return false) (rotate t previous next expected r ttl)
          (get t (session_key previous) s) s

  unfoldable pub rotate_session :
      ℕ → String → String → ℕ → StoredBrowserSession → ℕ → Call Server Bool
  unfolding rotate_script ◌>>=◌
  rotate_session t previous next expected r ttl = do
    require_id previous
    require_id next
    require_ttl ttl
    rotate_script t previous next expected r ttl

  unfoldable pub revoke :
      String → String → StoredBrowserSession → Call Server (Option StoredBrowserSession)
  revoke current id r s =
      if r.id === id
      then (ok (some r), del (family_key id) (del (session_key current) s))
      else (ok none, s)

  -- `revokeScript`, on what the key of the family holds.
  unfoldable pub revoke_script :
      ℕ → String → Option Entry → Call Server (Option StoredBrowserSession)
  unfolding revoke
  revoke_script t id none s = (ok none, s)
  revoke_script t id (some (text_entry current)) s =
      decode (λ s. (ok none, del (family_key id) s)) (revoke current id)
        (get t (session_key current) s) s
  revoke_script t id (some (login_entry l)) s = (err dependency_unavailable, s)
  revoke_script t id (some (session_entry r)) s = (err dependency_unavailable, s)

  unfoldable pub revoke_session : ℕ → String → String → Call Server (Option StoredBrowserSession)
  unfolding revoke_script parse_stored_session ◌>>=◌
  revoke_session t index id = do
    require_id index
    require_id id
    parsed (λ s. revoke_script t id (get t (family_key id) s) s)

  unfoldable pub acquire_refresh_lease : ℕ → String → String → ℕ → Call Server Bool
  unfolding ◌>>=◌
  acquire_refresh_lease t id owner ttl = do
    require_id owner
    require_id id
    require_ttl ttl
    λ s.
        if is_some (get t (refresh_key id) s)
        then (ok false, s)
        else (ok true, set_px t (refresh_key id) (text_entry owner) ttl s)

  unfoldable pub release_refresh_lease : ℕ → String → String → Call Server (Unit {0})
  unfolding ◌>>=◌
  release_refresh_lease t id owner s =
      if is_random_id owner
      then (require_id id >> λ s. (ok tt, del_if t (refresh_key id) owner s)) s
      else (ok tt, s)

  unfoldable pub store_login_transaction :
      ℕ → String → LoginTransaction → ℕ → Call Server (Unit {0})
  unfolding ◌>>=◌
  store_login_transaction t index transaction ttl = do
    require_id index
    require_ttl ttl
    λ s.
        if is_some (get t (login_key index) s)
        then (err session_invalid, s)
        else (ok tt, set_px t (login_key index) (login_entry transaction) ttl s)

  -- The texts that `parseLoginTransaction` tests are given as tested.
  unfoldable pub consume_login_transaction : ℕ → String → Call Server (Option LoginTransaction)
  unfolding ◌>>=◌
  consume_login_transaction t index = do
    require_id index
    λ s. elim (get t (login_key index) s) [
      | none ↦ (ok none, s)
      | some e ↦ elim e [
        | login_entry l ↦ (ok (some l), del (login_key index) s)
        | session_entry r ↦ (err session_invalid, del (login_key index) s)
        | text_entry i ↦ (err session_invalid, del (login_key index) s)
      ]
    ]
