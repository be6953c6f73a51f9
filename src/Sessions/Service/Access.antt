-- ===== src/Sessions/Service/Access.antt =====
-- session-service.ts: on what an answer to a credential rests.
use ai_crm_step.Base.{ℕ, String, ◌≡◌, refl, ap, subst, ◌∙◌, Option, none, some, arith, inl, inr}
use ai_crm_step.Base.Result.{ok, Result-cases, ok_injective}
use ai_crm_step.Sessions.{session_invalid, SessionTokenSet, StoredBrowserSession, ◌>>=◌, >>=-eq-ok}
use ai_crm_step.Sessions.Redis.{Redis}
use ai_crm_step.Sessions.Store.{get_session, delete_session}
use ai_crm_step.Sessions.Store.Rotation.{IsAccepted, get_session-IsAccepted}
use ai_crm_step.Sessions.Service.{
  SessionOptions, Ciphers, Verdict, verified, identity_provider_unavailable, rejected, required,
  accept_verdict, verdict_on, load_verified_session,
}
use ai_crm_step.Sessions.Service.Steps.{create_session_index-eq-ok, required-eq-ok}

module _ (R : Redis) (options : SessionOptions) (ciphers : Ciphers) {P : Type 0} where
  open R use {Server}

  accept_verdict-eq-ok :
      (t : ℕ) (index : String) (session : StoredBrowserSession) (v : Verdict P) (s s' : Server)
      {p : P} {r : StoredBrowserSession}
      → accept_verdict R options ciphers t index session v s ≡ (ok (p, r), s')
      → (v ≡ verified p) × (session ≡ r)
  unfolding accept_verdict ◌>>=◌
  accept_verdict-eq-ok t index session (verified q) s s' h =
      let both = ok_injective (ap (λ a. a.0) h) in
      (ap (λ a. verified (a.0)) both, ap (λ a. a.1) both)
  accept_verdict-eq-ok t index session identity_provider_unavailable s s' h = ground arith
  accept_verdict-eq-ok t index session rejected s s' h =
      elim (Result-cases ((delete_session R t index s).0)) [
        | inl (a, good) ↦ ground (arith, good)
        | inr (e, bad) ↦ ground (arith, bad)
      ]

  verdict_on_lem :
      (verify : String → Verdict P) (tokens : Option SessionTokenSet) (p : P)
      → verdict_on R options ciphers verify tokens ≡ verified p
      → (t : SessionTokenSet) × (tokens ≡ some t) × (verify t.access_token ≡ verified p)
  verdict_on_lem verify none p h = ground arith
  verdict_on_lem verify (some t) p h = (t, refl, h)

  assemble :
      (t1 t2 now : ℕ) (verify : String → Verdict P) (digest index : String)
      (s s1 s2 s3 s4 s' : Server) (found : Option StoredBrowserSession)
      (session r : StoredBrowserSession) (p : P)
      → digest ≡ index
      → s ≡ s1
      → get_session R t1 now index options.idle_ttl_ms s1 ≡ (ok found, s2)
      → required session_invalid found s2 ≡ (ok session, s3)
      → accept_verdict R options ciphers t2 index session
          (verdict_on R options ciphers verify
            (ciphers.decrypt_session_tokens session.tokens session.id))
          s4
        ≡ (ok (p, r), s')
      → IsAccepted R t1 now digest s r
        × ((tokens : SessionTokenSet) × (ciphers.decrypt_session_tokens r.tokens r.id ≡ some tokens)
            × (verify tokens.access_token ≡ verified p))
  assemble t1 t2 now verify digest index s s1 s2 s3 s4 s' found session r p e1 same1 h2 h3 k4 =
      let (is_found, kept) = required-eq-ok session_invalid found s2 s3 h3 in
      let (good, is_r) = accept_verdict-eq-ok t2 index session _ s4 s' k4 in
      let accepted =
        get_session-IsAccepted R t1 now index options.idle_ttl_ms s1 s2 session
          (h2 ∙ ap (λ f. (ok f, s2)) is_found) in
      let (tokens, opened, taken) = verdict_on_lem verify _ p good in
      subst
        (λ (q : StoredBrowserSession).
          IsAccepted R t1 now digest s q
          × ((tokens : SessionTokenSet) × (ciphers.decrypt_session_tokens q.tokens q.id
                ≡ some tokens)
              × (verify tokens.access_token ≡ verified p)))
        is_r (rw (e1, same1) accepted, (tokens, opened, taken))

  -- A credential is answered with a principal and a session only if the session is accepted under
  -- the credential's index, its tokens can be decrypted for its id, and the verifier takes the
  -- access token for that principal.
  pub load_verified_session-IsAccepted :
      (t1 t2 now : ℕ) (verify : String → Verdict P) (credential : String) (s s' : Server) (p : P)
      (r : StoredBrowserSession)
      → load_verified_session R options ciphers t1 t2 now verify credential s ≡ (ok (p, r), s')
      → IsAccepted R t1 now (ciphers.digest credential) s r
        × ((tokens : SessionTokenSet) × (ciphers.decrypt_session_tokens r.tokens r.id ≡ some tokens)
            × (verify tokens.access_token ≡ verified p))
  unfolding load_verified_session
  load_verified_session-IsAccepted t1 t2 now verify credential s s' p r h =
      let (index, s1, h1, k1) = >>=-eq-ok _ _ s h in
      let (e1, same1) = create_session_index-eq-ok R options ciphers credential s s1 h1 in
      let (found, s2, h2, k2) = >>=-eq-ok _ _ s1 k1 in
      let (session, s3, h3, k3) = >>=-eq-ok _ _ s2 k2 in
      let (u, s4, h4, k4) = >>=-eq-ok _ _ s3 k3 in
      assemble t1 t2 now verify (ciphers.digest credential) index s s1 s2 s3 s4 s' found session r p
        e1 same1 h2 h3 k4
