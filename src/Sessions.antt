-- ===== src/Sessions.antt =====
-- apps/api/src/auth: browser sessions. The records of session-store.ts, session-security.ts and
-- oidc.ts and the failures of errors.ts. A time is its number of milliseconds.
pub mod Redis
pub mod Store
pub mod Service
mod Tests
unfoldable pub use ai_crm_step.Base.Call.{◌>>=◌}
pub use ai_crm_step.Base.Call.{◌>>◌, return, refuse_if, >>=-eq-ok, refuse_if-eq-ok}
use ai_crm_step.Base.{ℕ, String, Option}
use ai_crm_step.Base.Call.{Call as Calls}

-- `BrowserSessionFailure`, by its code.
pub data SessionFailure : Type 0 where
  callback_invalid csrf_rejected dependency_unavailable : SessionFailure
  refresh_in_progress refresh_rejected session_invalid : SessionFailure

pub record SessionTokenSet : Type 0 where
  pub access_token : String
  pub refresh_token : String
  pub id_token : Option String

pub record EncryptedSessionTokenSet : Type 0 where
  pub ciphertext : String
  pub initialization_vector : String
  pub key_id : String
  pub tag : String
  pub version : ℕ

pub record StoredBrowserSession : Type 0 where
  pub absolute_expires_at_ms : ℕ
  pub authenticated_at_ms : ℕ
  pub created_at_ms : ℕ
  pub csrf_token : String
  pub id : String
  pub revision : ℕ
  pub tokens : EncryptedSessionTokenSet

pub record LoginTransaction : Type 0 where
  pub code_verifier : String
  pub nonce : String
  pub return_to : String
  pub state : String

-- A call of the sessions on a state.
abbrev pub Call : Type 0 → Type 0 → Type 0
Call S A = Calls SessionFailure S A
