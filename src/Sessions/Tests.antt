-- ===== src/Sessions/Tests.antt =====
-- A server in memory, which meets what the store relies on, and the theorems of the sessions on it.
use ai_crm_step.Base.{
  ℕ, ◌+◌, ◌≤◌, ◌<◌, String, Bool, true, false, ◌≡◌, ◌≢◌, refl, Option, none, some, ltb,
  if◌then◌else◌, arith,
}
use ai_crm_step.Base.Pattern.{is_random_id}
use ai_crm_step.Base.Result.{ok}
use ai_crm_step.Sessions.{
  SessionTokenSet, EncryptedSessionTokenSet, StoredBrowserSession, LoginTransaction, ◌>>=◌,
}
use ai_crm_step.Sessions.Redis.{
  Redis, IsLawful, RedisKey, session_key, family_key, login_key, Entry, session_entry, text_entry,
  login_entry, same_key,
}
use ai_crm_step.Sessions.Store.{
  get_session, rotate_session, revoke_session, acquire_refresh_lease, release_refresh_lease,
  consume_login_transaction,
}
use ai_crm_step.Sessions.Store.Rotation.{IsAccepted, rotate_session-hands_on}
use ai_crm_step.Sessions.Store.Revocation.{get_session_unique, revoke_session-ends}
use ai_crm_step.Sessions.Store.Lease.{
  acquire_refresh_lease_exclusive, consume_login_transaction_once,
}
use ai_crm_step.Sessions.Service.{
  SessionOptions, Ciphers, Verdict, verified, RefreshTurn, refresh_session, load_verified_session,
  accept_verdict, create_session_index,
}
use ai_crm_step.Sessions.Service.Access.{load_verified_session-IsAccepted}

-- An entry with the time at which it is gone.
abbrev Memory : Type 0
Memory = RedisKey → Option (Entry × ℕ)

abbrev alive : ℕ → Option (Entry × ℕ) → Option Entry
alive t none = none
alive t (some (e, deadline)) = if ltb t deadline then some e else none

abbrev extended : ℕ → Option Entry → Option (Entry × ℕ)
extended deadline none = none
extended deadline (some e) = some (e, deadline)

abbrev memory : Redis
memory = record {
  Server = Memory;
  get = λ t k m. alive t (m k);
  set_px = λ t k e ttl m j. if same_key k j then some (e, t + ttl) else m j;
  pexpire = λ t k ttl m j. if same_key k j then extended (t + ttl) (alive t (m j)) else m j;
  del = λ k m j. if same_key k j then none else m j;
}

alive-extended :
    (t later ttl : ℕ) (e : Option Entry)
    → alive later (extended (t + ttl) e) ≡ (if ltb later (t + ttl) then e else none)
alive-extended t later ttl none = ground arith
alive-extended t later ttl (some e) = ground arith

alive_kept :
    (t later : ℕ) (held : Option (Entry × ℕ)) (e : Entry)
    → t ≤ later
    → alive later held ≡ some e
    → alive t held ≡ some e
alive_kept t later none e after h = ground arith
alive_kept t later (some (f, deadline)) e after h = ground arith

alive-if :
    (t later ttl : ℕ) (same : Bool) (e : Entry) (m : Option (Entry × ℕ))
    → alive later (if same then some (e, t + ttl) else m)
      ≡ (if same then if ltb later (t + ttl) then some e else none else alive later m)
alive-if t later ttl true e m = refl
alive-if t later ttl false e m = refl

alive-if_extended :
    (t later ttl : ℕ) (same : Bool) (m : Option (Entry × ℕ))
    → alive later (if same then extended (t + ttl) (alive t m) else m)
      ≡ (if same then if ltb later (t + ttl) then alive t m else none else alive later m)
alive-if_extended t later ttl true m = alive-extended t later ttl (alive t m)
alive-if_extended t later ttl false m = refl

alive-if_none :
    (t : ℕ) (same : Bool) (m : Option (Entry × ℕ))
    → alive t (if same then none else m) ≡ (if same then none else alive t m)
alive-if_none t true m = refl
alive-if_none t false m = refl

memory-IsLawful : IsLawful memory
memory-IsLawful = record {
  get-set_px = λ t later k j e ttl m after. alive-if t later ttl (same_key k j) e (m j);
  get-pexpire = λ t later k j ttl m after. alive-if_extended t later ttl (same_key k j) (m j);
  get-del = λ t k j m. alive-if_none t (same_key k j) (m j);
  get_kept = λ t later k m e after h. alive_kept t later (m k) e after h;
}

abbrev old_index : String
old_index = "AAAAAAAAAAAAAAAAAAAAAAAAAAAAAAAAAAAAAAAAAAA"

abbrev new_index : String
new_index = "BBBBBBBBBBBBBBBBBBBBBBBBBBBBBBBBBBBBBBBBBBB"

abbrev family : String
family = "CCCCCCCCCCCCCCCCCCCCCCCCCCCCCCCCCCCCCCCCCCC"

abbrev sealed : EncryptedSessionTokenSet
sealed = record {
  ciphertext = "c";
  initialization_vector = "i";
  key_id = "k";
  tag = "t";
  version = 2;
}

abbrev session : StoredBrowserSession
session = record {
  absolute_expires_at_ms = 9000;
  authenticated_at_ms = 10;
  created_at_ms = 20;
  csrf_token = family;
  id = family;
  revision = 4;
  tokens = sealed;
}

abbrev rotated_session : StoredBrowserSession
rotated_session = record session { revision = 5 }

abbrev first_server : Memory
first_server =
    memory.set_px 0 (family_key family) (text_entry old_index) 5000
      (memory.set_px 0 (session_key old_index) (session_entry session) 5000 (λ k. none))

abbrev after_rotation : Memory
after_rotation =
    (rotate_session memory 100 old_index new_index 4 rotated_session 3000 first_server).1

rotate_session-hands_on_example :
    ((q : StoredBrowserSession) → ¬ IsAccepted memory 200 200 old_index after_rotation q)
    × (200 < 100 + 3000
        → 200 < rotated_session.absolute_expires_at_ms
        → IsAccepted memory 200 200 new_index after_rotation rotated_session)
unfolding rotate_session is_random_id same_key
rotate_session-hands_on_example =
    rotate_session-hands_on memory memory-IsLawful 100 old_index new_index 4 rotated_session 3000
      first_server after_rotation refl 200 200 (omega arith)

get_session_unique_example : old_index ≡ old_index
unfolding get_session is_random_id same_key
get_session_unique_example =
    get_session_unique memory 100 100 old_index old_index 1000 first_server
      (get_session memory 100 100 old_index 1000 first_server).1
      (get_session memory 100 100 old_index 1000 first_server).1 session session refl refl refl

revoke_session-ends_example :
    ¬ IsAccepted memory 300 300 new_index
      (revoke_session memory 250 old_index family after_rotation).1
      rotated_session
unfolding rotate_session revoke_session is_random_id same_key
revoke_session-ends_example =
    revoke_session-ends memory memory-IsLawful 250 old_index family after_rotation
      (revoke_session memory 250 old_index family after_rotation).1 (some rotated_session) refl 300
      300 new_index rotated_session (omega arith) refl

abbrev leased : Memory
leased = (acquire_refresh_lease memory 100 family old_index 500 first_server).1

acquire_refresh_lease_exclusive_example :
    ((ttl' : ℕ) (s'' : Memory)
      → acquire_refresh_lease memory 300 family new_index ttl' leased ≢ (ok true, s''))
    × (old_index ≢ new_index
        → release_refresh_lease memory 300 family new_index leased ≡ (ok tt, leased))
unfolding acquire_refresh_lease is_random_id same_key
acquire_refresh_lease_exclusive_example =
    acquire_refresh_lease_exclusive memory memory-IsLawful 100 family old_index 500 first_server
      leased refl 300 new_index (omega arith) (omega arith)

abbrev login : LoginTransaction
login = record { code_verifier = "v"; nonce = "n"; return_to = "/"; state = family }

abbrev waiting : Memory
waiting = memory.set_px 0 (login_key old_index) (login_entry login) 600 (λ k. none)

consume_login_transaction_once_example :
    consume_login_transaction memory 200 old_index
      (consume_login_transaction memory 100 old_index waiting).1
    ≡ (ok none, (consume_login_transaction memory 100 old_index waiting).1)
unfolding consume_login_transaction is_random_id same_key
consume_login_transaction_once_example =
    consume_login_transaction_once memory memory-IsLawful 100 old_index waiting
      (consume_login_transaction memory 100 old_index waiting).1 login refl 200

abbrev options : SessionOptions
options = record {
  login_ttl_ms = 600;
  idle_ttl_ms = 1000;
  absolute_ttl_ms = 9000;
  refresh_lease_ttl_ms = 50;
}

abbrev plain : SessionTokenSet
plain = record { access_token = "a"; refresh_token = "r"; id_token = none }

abbrev ciphers : Ciphers
ciphers = record {
  digest = λ credential. credential;
  encrypt_session_tokens = λ tokens id. some sealed;
  decrypt_session_tokens = λ tokens id. some plain;
}

abbrev turn : RefreshTurn String
turn = record {
  lease_owner = family;
  next_credential = new_index;
  refresh_tokens = λ tokens. ok (record { authenticated_at_ms = 10; tokens = plain });
  verify = λ token. verified "p";
  audited = true;
  first_now = 100;
  now = 110;
  t1 = 100;
  t2 = 110;
  t3 = 120;
  t4 = 130;
}

abbrev refreshed : Memory
refreshed = (refresh_session memory options ciphers turn old_index first_server).1

abbrev touched : Memory
touched = (get_session memory 100 100 old_index 1000 first_server).1

load_verified_session-IsAccepted_example :
    IsAccepted memory 100 100 old_index first_server session
    × ((tokens : SessionTokenSet) × (some plain ≡ some tokens)
        × (◌≡◌ {A = Verdict String} (verified "p") (verified "p")))
unfolding load_verified_session accept_verdict create_session_index ◌>>=◌ get_session is_random_id
    same_key
load_verified_session-IsAccepted_example =
    load_verified_session-IsAccepted memory options ciphers 100 110 100 (λ token. verified "p")
      old_index first_server touched "p" session refl
