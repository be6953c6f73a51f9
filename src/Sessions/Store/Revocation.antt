-- ===== src/Sessions/Store/Revocation.antt =====
-- session-store.ts: that a session has one credential at a time, and none after it was revoked.
use ai_crm_step.Base.{
  ℕ, ◌≤◌, String, ◌≡◌, ◌≢◌, sym, ap, ◌∙◌, inl, inr, Option, none, some, ◌===◌, eq_iff, arith,
  Bool-cases, Option-cases,
}
use ai_crm_step.Base.Result.{ok}
use ai_crm_step.Sessions.{StoredBrowserSession}
use ai_crm_step.Sessions.Redis.{
  Redis, IsLawful, session_key, family_key, session_entry, text_entry, same_key, login_entry, Entry,
}
use ai_crm_step.Sessions.Store.{
  get_session, parse_stored_session, revoke_session, revoke_script, revoke,
}
use ai_crm_step.Sessions.Store.Rotation.{IsAccepted, get_session-IsAccepted}

module _ (R : Redis) where
  open R use {Server, get}

  -- Two indices that `getSession` answers with one session, at one time on one server, are the same.
  pub get_session_unique :
      (t now : ℕ) (i j : String) (idle : ℕ) (s s1 s2 : Server) (q r : StoredBrowserSession)
      → get_session R t now i idle s ≡ (ok (some q), s1)
      → get_session R t now j idle s ≡ (ok (some r), s2)
      → q.id ≡ r.id
      → i ≡ j
  get_session_unique t now i j idle s s1 s2 q r hq hr same =
      let a = get_session-IsAccepted R t now i idle s s1 q hq in
      let b = get_session-IsAccepted R t now j idle s s2 r hr in
      let both : some (text_entry i) ≡ some (text_entry j) =
        sym a.named ∙ ap (λ id. get t (family_key id) s) same ∙ b.named in
      cc

  module _ (lawful : IsLawful R) where
    open lawful use {get-del, get_kept}

    -- A family whose key is gone accepts no index.
    unnamed :
        (t later now : ℕ) (id : String) (s : Server)
        → t ≤ later
        → get t (family_key id) s ≡ none
        → (i : String) (q : StoredBrowserSession) → q.id ≡ id
        → ¬ IsAccepted R later now i s q
    unnamed t later now id s after missing i q same a =
        let here = ap (λ j. get later (family_key j) s) (sym same) ∙ a.named in
        let before = get_kept t later (family_key id) s (text_entry i) after here in
        let both : ◌≡◌ {A = Option Entry} none (some (text_entry i)) = sym missing ∙ before in cc

    dropped :
        (later now : ℕ) (id : String) (s : Server) (i : String) (q : StoredBrowserSession)
        → q.id ≡ id
        → ¬ IsAccepted R later now i (R.del (family_key id) s) q
    unfolding same_key
    dropped later now id s i q same =
        unnamed later later now id (R.del (family_key id) s) (omega arith)
          (get-del later (family_key id) (family_key id) s ∙ ground (arith, eq_iff id id)) i q same

    -- A family whose index holds the record of another session accepts no index.
    estranged :
        (t later now : ℕ) (id current : String) (s : Server) (r : StoredBrowserSession)
        → t ≤ later
        → get t (family_key id) s ≡ some (text_entry current)
        → get t (session_key current) s ≡ some (session_entry r)
        → r.id ≢ id
        → (i : String) (q : StoredBrowserSession) → q.id ≡ id
        → ¬ IsAccepted R later now i s q
    estranged t later now id current s r after found held differs i q same a =
        let here = ap (λ j. get later (family_key j) s) (sym same) ∙ a.named in
        let before = get_kept t later (family_key id) s (text_entry i) after here in
        let text : ◌≡◌ {A = Option Entry} (some (text_entry current)) (some (text_entry i)) =
          sym found ∙ before in
        let one : current ≡ i = cc in
        let record_i = get_kept t later (session_key i) s (session_entry q) after a.stored in
        let both : ◌≡◌ {A = Option Entry} (some (session_entry r)) (some (session_entry q)) =
          sym held ∙ ap (λ j. get t (session_key j) s) one ∙ record_i in
        let is_q : r ≡ q = cc in differs (ap (λ (x : StoredBrowserSession). x.id) is_q ∙ same)

    -- After `revokeSession` of an index and a session, on every branch of its script, no index gives
    -- that session any more, whichever credential it had been handed on to.
    pub revoke_session-ends :
        (t : ℕ) (index id : String) (s s' : Server) (answer : Option StoredBrowserSession)
        → revoke_session R t index id s ≡ (ok answer, s')
        → (later now : ℕ) (i : String) (q : StoredBrowserSession) → t ≤ later
        → q.id ≡ id
        → ¬ IsAccepted R later now i s' q
    unfolding revoke_session revoke_script revoke parse_stored_session
    revoke_session-ends t index id s s' answer h later now i q after same =
        elim (Option-cases (get t (family_key id) s)) [
          | inl missing ↦
              let kept : s ≡ s' = ground (arith, missing) in
              rw (sym kept) (unnamed t later now id s after missing i q same)
          | inr (login_entry l, found) ↦ ground (arith, found)
          | inr (session_entry r, found) ↦ ground (arith, found)
          | inr (text_entry current, found) ↦ elim (Option-cases (get t (session_key current) s)) [
            | inl missing ↦
                let written : R.del (family_key id) s ≡ s' = ground (arith, found, missing) in
                rw (sym written) (dropped later now id s i q same)
            | inr (login_entry l, held) ↦ ground (arith, found, held)
            | inr (text_entry j, held) ↦ ground (arith, found, held)
            | inr (session_entry r, held) ↦ elim (Bool-cases (r.id === id)) [
              | inl own ↦
                  let written : R.del (family_key id) (R.del (session_key current) s) ≡ s' =
                    ground (arith, found, held, own) in
                  rw (sym written) (dropped later now id (R.del (session_key current) s) i q same)
              | inr other ↦
                  let kept : s ≡ s' = ground (arith, found, held, other) in
                  let differs : r.id ≢ id = λ e. ground (arith, eq_iff r.id id) in
                  rw (sym kept)
                    (estranged t later now id current s r after found held differs i q same)
            ]
          ]
        ]
