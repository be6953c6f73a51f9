-- ===== src/Sessions/Redis.antt =====
-- The Redis server behind session-store.ts: its commands on typed entries, with what the store
-- relies on. The server reads its own clock, whose time is given with a command.
use ai_crm_step.Base.{
  ℕ, ◌+◌, ◌≤◌, String, Bool, true, false, ◌≡◌, ◌↔◌, Option, none, some, ltb, ◌===◌, eq_iff,
  if◌then◌else◌, arith,
}
use ai_crm_step.Sessions.{StoredBrowserSession, LoginTransaction}

-- `ai-crm:auth:pc:<prefix>:<identifier>`; no identifier holds a colon.
pub data RedisKey : Type 0 where
  login_key session_key family_key refresh_key : String → RedisKey

pub data Entry : Type 0 where
  login_entry : LoginTransaction → Entry
  session_entry : StoredBrowserSession → Entry
  text_entry : String → Entry

unfoldable pub same_key : RedisKey → RedisKey → Bool
same_key (login_key a) (login_key b) = a === b
same_key (session_key a) (session_key b) = a === b
same_key (family_key a) (family_key b) = a === b
same_key (refresh_key a) (refresh_key b) = a === b
same_key _ _ = false

pub same_key_iff : (a b : RedisKey) → (same_key a b ≡ true) ↔ (a ≡ b)
unfolding same_key
same_key_iff (login_key a) (login_key b) = ground (arith, eq_iff a b)
same_key_iff (session_key a) (session_key b) = ground (arith, eq_iff a b)
same_key_iff (family_key a) (family_key b) = ground (arith, eq_iff a b)
same_key_iff (refresh_key a) (refresh_key b) = ground (arith, eq_iff a b)
same_key_iff (login_key a) (session_key b) = ground arith
same_key_iff (login_key a) (family_key b) = ground arith
same_key_iff (login_key a) (refresh_key b) = ground arith
same_key_iff (session_key a) (login_key b) = ground arith
same_key_iff (session_key a) (family_key b) = ground arith
same_key_iff (session_key a) (refresh_key b) = ground arith
same_key_iff (family_key a) (login_key b) = ground arith
same_key_iff (family_key a) (session_key b) = ground arith
same_key_iff (family_key a) (refresh_key b) = ground arith
same_key_iff (refresh_key a) (login_key b) = ground arith
same_key_iff (refresh_key a) (session_key b) = ground arith
same_key_iff (refresh_key a) (family_key b) = ground arith

pub record Redis : Type 1 where
  pub Server : Type 0
  -- `GET` at a time.
  pub get : ℕ → RedisKey → Server → Option Entry
  -- `SET key value PX ttl` at a time.
  pub set_px : ℕ → RedisKey → Entry → ℕ → Server → Server
  -- `PEXPIRE key ttl` at a time.
  pub pexpire : ℕ → RedisKey → ℕ → Server → Server
  -- `DEL`
  pub del : RedisKey → Server → Server

-- A key lives until its time is over, and a command touches no other key.
pub record IsLawful (R : Redis) : Type 0 where
  pub get-set_px :
      (t later : ℕ) (k j : RedisKey) (e : Entry) (ttl : ℕ) (s : R.Server)
      → t ≤ later
      → R.get later j (R.set_px t k e ttl s)
        ≡ (if same_key k j then if ltb later (t + ttl) then some e else none else R.get later j s)
  pub get-pexpire :
      (t later : ℕ) (k j : RedisKey) (ttl : ℕ) (s : R.Server)
      → t ≤ later
      → R.get later j (R.pexpire t k ttl s) ≡ (
          if same_key k j
          then if ltb later (t + ttl) then R.get t j s else none
          else R.get later j s)
  pub get-del :
      (t : ℕ) (k j : RedisKey) (s : R.Server)
      → R.get t j (R.del k s) ≡ (if same_key k j then none else R.get t j s)
  -- What is there now was there before, if no command came between.
  pub get_kept :
      (t later : ℕ) (k : RedisKey) (s : R.Server) (e : Entry)
      → t ≤ later
      → R.get later k s ≡ some e
      → R.get t k s ≡ some e
