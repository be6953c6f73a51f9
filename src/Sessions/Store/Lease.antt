-- ===== src/Sessions/Store/Lease.antt =====
-- session-store.ts: the lease of a refresh has one owner, and a login transaction is used once.
use ai_crm_step.Base.{
  ℕ, ◌+◌, ◌≤◌, ◌<◌, String, true, ◌≡◌, ◌≢◌, sym, ◌∙◌, inl, inr, none, some, eq_iff, arith,
  Option-cases,
}
use ai_crm_step.Base.Pattern.{is_random_id}
use ai_crm_step.Base.Result.{ok}
use ai_crm_step.Sessions.{LoginTransaction}
use ai_crm_step.Sessions.Redis.{
  Redis, IsLawful, refresh_key, login_key, text_entry, login_entry, session_entry, same_key,
}
use ai_crm_step.Sessions.Store.{
  acquire_refresh_lease, release_refresh_lease, consume_login_transaction,
}

module _ (R : Redis) (lawful : IsLawful R) where
  open R use {Server, get, set_px, del}
  open lawful use {get-set_px, get-del}

  acquired :
      (t : ℕ) (id owner : String) (ttl : ℕ) (s s' : Server)
      → acquire_refresh_lease R t id owner ttl s ≡ (ok true, s')
      → (set_px t (refresh_key id) (text_entry owner) ttl s ≡ s') × (is_random_id id ≡ true)
  unfolding acquire_refresh_lease
  acquired t id owner ttl s s' h = ground arith

  -- While a lease of a session runs, no other owner gets it, and none but its owner gives it up: a
  -- release by another owner changes nothing.
  pub acquire_refresh_lease_exclusive :
      (t : ℕ) (id owner : String) (ttl : ℕ) (s s' : Server)
      → acquire_refresh_lease R t id owner ttl s ≡ (ok true, s')
      → (later : ℕ) (other : String) → t ≤ later
      → later < t + ttl
      → ((ttl' : ℕ) (s'' : Server)
          → acquire_refresh_lease R later id other ttl' s' ≢ (ok true, s''))
        × (owner ≢ other → release_refresh_lease R later id other s' ≡ (ok tt, s'))
  unfolding acquire_refresh_lease release_refresh_lease same_key
  acquire_refresh_lease_exclusive t id owner ttl s s' h later other after within =
      let (written, valid) = acquired t id owner ttl s s' h in
      let held : get later (refresh_key id) s' ≡ some (text_entry owner) = rw (sym written) (
        get-set_px t later (refresh_key id) (refresh_key id) (text_entry owner) ttl s after
        ∙ ground (arith, eq_iff id id)) in
      (
        λ ttl' s'' again. ground (arith, held),
        λ ne. ground (arith, held, valid, eq_iff owner other),
      )

  -- A login transaction that was consumed is gone: the same state index gives none afterwards.
  pub consume_login_transaction_once :
      (t : ℕ) (index : String) (s s' : Server) (l : LoginTransaction)
      → consume_login_transaction R t index s ≡ (ok (some l), s')
      → (later : ℕ) → consume_login_transaction R later index s' ≡ (ok none, s')
  unfolding consume_login_transaction same_key
  consume_login_transaction_once t index s s' l h later =
      elim (Option-cases (get t (login_key index) s)) [
        | inl missing ↦ ground (arith, missing)
        | inr (text_entry i, found) ↦ ground (arith, found)
        | inr (session_entry r, found) ↦ ground (arith, found)
        | inr (login_entry k, found) ↦
            let written : del (login_key index) s ≡ s' = ground (arith, found) in
            let valid : is_random_id index ≡ true = ground arith in
            let gone : get later (login_key index) s' ≡ none = rw (sym written) (
              get-del later (login_key index) (login_key index) s
              ∙ ground (arith, eq_iff index index)) in
            ground (arith, gone, valid)
      ]
