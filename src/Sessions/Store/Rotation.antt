-- ===== src/Sessions/Store/Rotation.antt =====
-- session-store.ts: which credential of a session is accepted, as sessions are rotated and revoked.
use ai_crm_step.Base.{
  ℕ, ◌+◌, ◌≤◌, ◌<◌, String, true, ◌≡◌, ◌≢◌, sym, ap, ◌∙◌, subst, inl, inr, Option, none, some, ltb,
  leb, eq_iff, arith, Bool-cases, Option-cases, if◌then◌else◌,
}
use ai_crm_step.Base.Result.{ok}
use ai_crm_step.Sessions.{StoredBrowserSession}
use ai_crm_step.Sessions.Redis.{
  Redis, IsLawful, session_key, family_key, session_entry, text_entry, same_key, login_entry, Entry,
  RedisKey,
}
use ai_crm_step.Sessions.Store.{
  get_session, touch, touch_script, parse_stored_session, is_text, rotate_session, rotate_script,
  rotate,
}

none_ne_some : {e : Entry} → ¬ (◌≡◌ {A = Option Entry} none (some e))
none_ne_some same = cc

module _ (R : Redis) where
  open R use {Server, get}

  -- The session that a credential's index gives at a time, whose family names the index.
  pub record IsAccepted (t now : ℕ) (index : String) (s : Server) (r : StoredBrowserSession)
      : Type 0 where
    pub stored : get t (session_key index) s ≡ some (session_entry r)
    pub named : get t (family_key r.id) s ≡ some (text_entry index)
    pub unexpired : now < r.absolute_expires_at_ms

  is_text_lem :
      (text : String) (found : Option Entry)
      → is_text R text found ≡ true
      → found ≡ some (text_entry text)
  is_text_lem text none h = ground arith
  is_text_lem text (some (login_entry l)) h = ground arith
  is_text_lem text (some (session_entry r)) h = ground arith
  is_text_lem text (some (text_entry i)) h = ground (arith, eq_iff i text)

  touch-IsAccepted :
      (t now : ℕ) (index : String) (idle : ℕ) (s s' : Server) (old r : StoredBrowserSession)
      → get t (session_key index) s ≡ some (session_entry old)
      → touch R t now index idle old s ≡ (ok (some r), s')
      → IsAccepted t now index s r
  unfolding touch
  touch-IsAccepted t now index idle s s' old r found h =
      elim (Bool-cases (leb old.absolute_expires_at_ms now)) [
        | inl over ↦ ground (arith, over)
        | inr live ↦ elim (Bool-cases (is_text R index (get t (family_key old.id) s))) [
          | inr lost ↦ ground (arith, live, lost)
          | inl named ↦
              let same : some old ≡ some r = ground (arith, live, named) in
              let is_r : old ≡ r = cc in
              subst (IsAccepted t now index s) is_r (record {
                stored = found;
                named = is_text_lem index _ named;
                unexpired = ground (arith, live);
              })
        ]
      ]

  -- What `getSession` gives is accepted.
  pub get_session-IsAccepted :
      (t now : ℕ) (index : String) (idle : ℕ) (s s' : Server) (r : StoredBrowserSession)
      → get_session R t now index idle s ≡ (ok (some r), s')
      → IsAccepted t now index s r
  unfolding get_session touch_script parse_stored_session
  get_session-IsAccepted t now index idle s s' r h =
      elim (Option-cases (get t (session_key index) s)) [
        | inl missing ↦ ground (arith, missing)
        | inr (login_entry l, found) ↦ ground (arith, found)
        | inr (text_entry i, found) ↦ ground (arith, found)
        | inr (session_entry old, found) ↦
            touch-IsAccepted t now index idle s s' old r found (ground (arith, found))
      ]

  -- What a rotation writes.
  rotated : ℕ → String → String → StoredBrowserSession → ℕ → Server → Server
  rotated t previous next r ttl s =
      R.set_px t (family_key r.id) (text_entry next) ttl
        (R.set_px t (session_key next) (session_entry r) ttl (R.del (session_key previous) s))

  record Rotates (t : ℕ) (previous next : String) (expected : ℕ) (r : StoredBrowserSession)
      (ttl : ℕ) (s s' : Server) : Type 0 where
    old : StoredBrowserSession
    free : get t (session_key next) s ≡ none
    stored : get t (session_key previous) s ≡ some (session_entry old)
    unchanged : old.revision ≡ expected
    family : old.id ≡ r.id
    named : get t (family_key r.id) s ≡ some (text_entry previous)
    written : s' ≡ rotated t previous next r ttl s

  rotate-Rotates :
      (t : ℕ) (previous next : String) (expected : ℕ) (r : StoredBrowserSession) (ttl : ℕ)
      (s s' : Server) (old : StoredBrowserSession)
      → get t (session_key next) s ≡ none
      → get t (session_key previous) s ≡ some (session_entry old)
      → rotate R t previous next expected r ttl old s ≡ (ok true, s')
      → Rotates t previous next expected r ttl s s'
  unfolding rotate rotated
  rotate-Rotates t previous next expected r ttl s s' old free stored h =
      let same : r.id ≡ old.id = ground (arith, eq_iff r.id old.id) in
      let named : is_text R previous (get t (family_key old.id) s) ≡ true = ground arith in
      record {
        old = old;
        free = free;
        stored = stored;
        unchanged = ground arith;
        family = sym same;
        named = rw same (is_text_lem previous _ named);
        written = rw same (ground (arith, named, same));
      }

  rotate_session-Rotates :
      (t : ℕ) (previous next : String) (expected : ℕ) (r : StoredBrowserSession) (ttl : ℕ)
      (s s' : Server)
      → rotate_session R t previous next expected r ttl s ≡ (ok true, s')
      → Rotates t previous next expected r ttl s s'
  unfolding rotate_session rotate_script
  rotate_session-Rotates t previous next expected r ttl s s' h =
      elim (Option-cases (get t (session_key next) s)) [
        | inr (e, taken) ↦ ground (arith, taken)
        | inl free ↦ elim (Option-cases (get t (session_key previous) s)) [
          | inl missing ↦ ground (arith, free, missing)
          | inr (login_entry l, found) ↦ ground (arith, free, found)
          | inr (text_entry i, found) ↦ ground (arith, free, found)
          | inr (session_entry old, found) ↦
              rotate-Rotates t previous next expected r ttl s s' old free found
                (ground (arith, free, found))
        ]
      ]

  module _ (lawful : IsLawful R) where
    open lawful use {get-set_px, get-del, get_kept}

    -- What a key holds after a rotation.
    get-rotated :
        (t later : ℕ) (previous next : String) (r : StoredBrowserSession) (ttl : ℕ) (s : Server)
        (k : RedisKey)
        → t ≤ later
        → get later k (rotated t previous next r ttl s) ≡ (
            if same_key (family_key r.id) k
            then if ltb later (t + ttl) then some (text_entry next) else none
            else if same_key (session_key next) k
            then if ltb later (t + ttl) then some (session_entry r) else none
            else if same_key (session_key previous) k
            then none
            else get later k s)
    unfolding rotated
    get-rotated t later previous next r ttl s k h =
        let s1 = R.del (session_key previous) s in
        let s2 = R.set_px t (session_key next) (session_entry r) ttl s1 in
        get-set_px t later (family_key r.id) k (text_entry next) ttl s2 h
        ∙ rw (
          get-set_px t later (session_key next) k (session_entry r) ttl s1 h,
          get-del later (session_key previous) k s,
        )

    -- A rotation that succeeds hands the session on: from then on the old credential is refused,
    -- whatever the time, and for its time to live the new one gives the new record, until that
    -- expires.
    pub rotate_session-hands_on :
        (t : ℕ) (previous next : String) (expected : ℕ) (r : StoredBrowserSession) (ttl : ℕ)
        (s s' : Server)
        → rotate_session R t previous next expected r ttl s ≡ (ok true, s')
        → (later now : ℕ) → t ≤ later
        → ((q : StoredBrowserSession) → ¬ IsAccepted later now previous s' q)
          × (later < t + ttl → now < r.absolute_expires_at_ms → IsAccepted later now next s' r)
    unfolding same_key
    rotate_session-hands_on t previous next expected r ttl s s' h later now after =
        let w = rotate_session-Rotates t previous next expected r ttl s s' h in
        let on = λ (k : RedisKey). ap (get later k) w.written in
        let apart : next ≢ previous = λ e.
          absurd (none_ne_some (sym w.free ∙ ap (λ i. get t (session_key i) s) e ∙ w.stored)) in
        let gone : get later (session_key previous) s' ≡ none =
          on (session_key previous)
          ∙ get-rotated t later previous next r ttl s (session_key previous) after
          ∙ ground (arith, eq_iff next previous, eq_iff previous previous) in
        (
          λ q a. none_ne_some (sym gone ∙ a.stored),
          λ alive live. record {
            stored =
                on (session_key next)
                ∙ get-rotated t later previous next r ttl s (session_key next) after
                ∙ ground (arith, eq_iff next next);
            named =
                on (family_key r.id)
                ∙ get-rotated t later previous next r ttl s (family_key r.id) after
                ∙ ground (arith, eq_iff r.id r.id);
            unexpired = live;
          },
        )
