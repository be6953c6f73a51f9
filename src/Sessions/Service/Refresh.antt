-- ===== src/Sessions/Service/Refresh.antt =====
-- session-service.ts: what `refresh` has done where it returns.
use ai_crm_step.Base.{◌+◌, String, ◌≡◌, some}
use ai_crm_step.Base.Result.{ok}
use ai_crm_step.Sessions.{SessionTokenSet, StoredBrowserSession}
use ai_crm_step.Sessions.Redis.{Redis, IsLawful}
use ai_crm_step.Sessions.Store.Rotation.{IsAccepted}
use ai_crm_step.Sessions.Service.{SessionOptions, Ciphers, RefreshTurn, OidcTokenResult}

module _ (R : Redis) (options : SessionOptions) (ciphers : Ciphers) where
  open R use {Server}

  module _ {P : Type 0} (turn : RefreshTurn P) (lawful : IsLawful R) where
    -- The session is still the one found first, and the provider gave these tokens for its own.
    abbrev pub IsCurrent :
        StoredBrowserSession → StoredBrowserSession → SessionTokenSet → OidcTokenResult → Type 0
    IsCurrent initial current tokens fresh =
        (current.id ≡ initial.id)
        × (current.revision ≡ initial.revision)
        × (ciphers.decrypt_session_tokens current.tokens current.id ≡ some tokens)
        × (turn.refresh_tokens tokens ≡ ok fresh)

    -- What a refresh hands on: the session `initial` that the old credential had, with the tokens
    -- that the provider gave for its own, under the same id and the next revision.
    abbrev pub IsRefreshed : String → Server → StoredBrowserSession → StoredBrowserSession → Type 0
    IsRefreshed credential s initial r =
        IsAccepted R turn.t1 turn.first_now (ciphers.digest credential) s initial
        × (r.id ≡ initial.id)
        × (r.revision ≡ initial.revision + 1)
        × ((old : StoredBrowserSession) × (tokens : SessionTokenSet) × (fresh : OidcTokenResult)
            × IsCurrent initial old tokens fresh
            × (ciphers.encrypt_session_tokens fresh.tokens r.id ≡ some r.tokens)
            × (r.csrf_token ≡ old.csrf_token)
            × (r.authenticated_at_ms ≡ old.authenticated_at_ms)
            × (r.absolute_expires_at_ms ≡ old.absolute_expires_at_ms))
