-- ===== src/Tasks/Store/Leases.antt =====
-- memory-store.ts: a command under a lease is its holder's.
use ai_crm_step.Base.{
  ℕ, ◌<◌, String, false, none, some, ◌≡◌, ◌≢◌, inl, inr, arith, eq_iff, ◌===◌, if◌then◌else◌,
  Option-cases,
}
use ai_crm_step.Base.Eq.{string_key}
use ai_crm_step.Base.Dict.{lookup, lookup-insert_self}
use ai_crm_step.Base.Result.{ok, err}
use ai_crm_step.Tasks.{command_conflict, TaskCommandResult, claimed, running}
use ai_crm_step.Tasks.Store.{
  TaskStore, CommandRow, running_command, claim_command, claim_found, claim_row, claim_answer,
  holds_lease, accept_command, release_command,
}

-- The row of a command under a lease.
abbrev pub leased : String → String → ℕ → CommandRow
leased fingerprint token expires_at = record {
  fingerprint = fingerprint;
  lease_expires_at = some expires_at;
  lease_token = some token;
  result = none;
  status = running_command;
}

-- What a claim that got a lease has written.
pub claimed-leased :
    (key fingerprint token held : String) (now expires_at : ℕ) (s s' : TaskStore)
    → claim_command key fingerprint token now expires_at s ≡ (ok (claimed held), s')
    → (lookup key s'.commands ≡ some (leased fingerprint held expires_at)) × (held ≡ token)
unfolding claim_command claim_found claim_answer claim_row
claimed-leased key fingerprint token held now expires_at s s' h =
    let written = lookup-insert_self key (leased fingerprint token expires_at) s.commands in
    elim (Option-cases (lookup key s.commands)) [
      | inl missing ↦ (ground (arith, missing, written), ground (arith, missing))
      | inr (row, found) ↦ (ground (arith, found, written), ground (arith, found))
    ]

-- While a lease runs, its token alone settles the command: another claim gets no lease, and with
-- another token nothing is accepted or released.
pub claim_command_exclusive :
    (key fingerprint token held : String) (now expires_at : ℕ) (s s' : TaskStore)
    → claim_command key fingerprint token now expires_at s ≡ (ok (claimed held), s')
    → (later : ℕ) → later < expires_at
    → ((f other : String) (end : ℕ)
        → claim_command key f other later end s'
          ≡ (if fingerprint === f then ok running else err command_conflict, s'))
      × ((other : String)
          → held ≢ other
          → ((result : TaskCommandResult) → accept_command key other result s' ≡ (ok false, s'))
            × (release_command key other s' ≡ (ok tt, s')))
unfolding claim_command claim_found claim_answer claim_row accept_command release_command
    holds_lease
claim_command_exclusive key fingerprint token held now expires_at s s' h later within =
    let (stored, same) = claimed-leased key fingerprint token held now expires_at s s' h in
    (
      λ f other end. ground (arith, stored),
      λ other ne. (
        λ result. ground (arith, stored, eq_iff held other),
        ground (arith, stored, eq_iff held other),
      ),
    )
