-- ===== src/Eventing/Store/Claims.antt =====
-- memory-store.ts, `claimOutbox`: which rows a claim takes, and how long it keeps them.
use ai_crm_step.Base.{
  ℕ, zero, suc, String, ◌+◌, Any, ◌⊎◌, ◌≤◌, ◌<◌, Bool, false, ◌≡◌, refl, sym, ◌∙◌, ap, List, [],
  ◌∷◌, none, some, arith, Bool-cases, ◌===◌, eq_iff, filter, take, length, inl, inr, any, any_iff,
  All, subst,
}
use mathlib.Core.Option.{some-injective}
use ai_crm_step.Base.Eq.{string_key}
use ai_crm_step.Base.Dict.{Dict, lookup, insert, values, lookup-insert, has}
use ai_crm_step.Base.Sort.{sort, any-sort}
use ai_crm_step.Eventing.Types.{OutboxRecord, publishing}
use ai_crm_step.Base.Result.{ok}
use ai_crm_step.Eventing.Store.{
  Store, earlier, claimable, claim_row, claim_rows, claim_outbox, append_outbox,
}

length-take : {A : Type 0} (n : ℕ) (xs : List A) → length (take n xs) ≤ n
length-take zero xs = ground arith
length-take (suc n) [] = ground arith
length-take (suc n) (x ∷ xs) = ground (arith, length-take n xs)

length-claim_rows :
    (at : ℕ) (token : ℕ → String) (n : ℕ) (rows : List OutboxRecord) (st : Store)
    → length (claim_rows at token n rows st).0 ≡ length rows
unfolding claim_rows
length-claim_rows at token n [] st = refl
length-claim_rows at token n (row ∷ rows) st = ap suc (length-claim_rows at token (n + 1) rows _)

-- A claim takes at most as many rows as its limit allows.
pub claim_outbox_limit :
    (at stale_before limit : ℕ) (token : ℕ → String) (st : Store)
    → length (claim_outbox at stale_before limit token st).0 ≤ limit
unfolding claim_outbox
claim_outbox_limit at stale_before limit token st =
    rw
      (length-claim_rows at token 0
        (take limit (sort earlier (filter (claimable at stale_before) (values st.outbox)))) st)
      (length-take limit (sort earlier (filter (claimable at stale_before) (values st.outbox))))

-- The row of an identifier is in the hands of a claim made at a time.
abbrev pub IsClaimedAt : ℕ → String → Store → Type 0
IsClaimedAt at id st =
    (row : OutboxRecord) × ((lookup id st.outbox ≡ some row)
      × ((row.status ≡ publishing) × (row.claimed_at ≡ some at)))

claim_row-IsClaimedAt :
    (at : ℕ) (token : String) (row : OutboxRecord) (id : String) (st : Store)
    → (row.message_id ≡ id) ⊎ IsClaimedAt at id st
    → IsClaimedAt at id
        (record st { outbox = insert row.message_id (claim_row at token row) st.outbox })
claim_row-IsClaimedAt at token row id st h = elim (Bool-cases (row.message_id === id)) [
  | inl same ↦ (
    claim_row at token row,
    (
      lookup-insert row.message_id id (claim_row at token row) st.outbox ∙ rw same refl,
      (refl, refl),
    ),
  )
  | inr other ↦ elim h [
    | inl e ↦ absurd (ground (arith, eq_iff row.message_id id))
    | inr (old, (found, held)) ↦ (
      old,
      (lookup-insert row.message_id id (claim_row at token row) st.outbox ∙ rw other found, held),
    )
  ]
]

claim_rows-IsClaimedAt :
    (at : ℕ) (token : ℕ → String) (n : ℕ) (rows : List OutboxRecord) (st : Store) (id : String)
    → Any (λ row. row.message_id ≡ id) (claim_rows at token n rows st).0 ⊎ IsClaimedAt at id st
    → IsClaimedAt at id (claim_rows at token n rows st).1
unfolding claim_rows
claim_rows-IsClaimedAt at token n [] st id (inl none_taken) = elim none_taken [ ]
claim_rows-IsClaimedAt at token n [] st id (inr held) = held
claim_rows-IsClaimedAt at token n (row ∷ rows) st id h =
    let st1 = record st { outbox = insert row.message_id (claim_row at (token n) row) st.outbox } in
    claim_rows-IsClaimedAt at token (n + 1) rows st1 id (elim h [
      | inl (inl same) ↦ inr (claim_row-IsClaimedAt at (token n) row id st (inl same))
      | inl (inr later) ↦ inl later
      | inr held ↦ inr (claim_row-IsClaimedAt at (token n) row id st (inr held))
    ])

-- The rows of the outbox stand under their message ids, each id once.
abbrev pub IsKeyed : Dict String OutboxRecord → Type 0
IsKeyed [] = Unit
IsKeyed ((k, row) ∷ m) = (row.message_id ≡ k) × ((lookup k m ≡ none) × IsKeyed m)

insert-IsKeyed :
    (row : OutboxRecord) (m : Dict String OutboxRecord)
    → IsKeyed m
    → IsKeyed (insert row.message_id row m)
unfolding insert lookup
insert-IsKeyed row [] h = (refl, (refl, tt))
insert-IsKeyed row ((k, old) ∷ m) (named, (once, rest)) = elim (Bool-cases (k === row.message_id)) [
  | inl same ↦ rw same (sym ((eq_iff k row.message_id).0 same), (once, rest))
  | inr other ↦
      let apart : (row.message_id === k) ≡ false =
        ground (arith, eq_iff k row.message_id, eq_iff row.message_id k) in
      let absent = lookup-insert row.message_id k row m ∙ rw (apart, once) refl in
      rw other (named, (absent, insert-IsKeyed row m rest))
]

-- What `appendOutbox` leaves is keyed.
append_outbox-IsKeyed :
    (row : OutboxRecord) (st st' : Store)
    → IsKeyed st.outbox
    → append_outbox row st ≡ ok (tt, st')
    → IsKeyed st'.outbox
unfolding append_outbox
append_outbox-IsKeyed row st st' h e = elim (Bool-cases (has row.message_id st.outbox)) [
  | inl known ↦ absurd (ground (arith, known, e))
  | inr new ↦
      let written : record st { outbox = insert row.message_id row st.outbox } ≡ st' =
        ground (arith, new, e) in
      subst (λ (x : Store). IsKeyed x.outbox) written (insert-IsKeyed row st.outbox h)
]

claim_rows-IsKeyed :
    (at : ℕ) (token : ℕ → String) (n : ℕ) (rows : List OutboxRecord) (st : Store)
    → IsKeyed st.outbox
    → IsKeyed (claim_rows at token n rows st).1.outbox
unfolding claim_rows
claim_rows-IsKeyed at token n [] st h = h
claim_rows-IsKeyed at token n (row ∷ rows) st h =
    claim_rows-IsKeyed at token (n + 1) rows
      (record st { outbox = insert row.message_id (claim_row at (token n) row) st.outbox })
      (insert-IsKeyed (claim_row at (token n) row) st.outbox h)

module _ (id : String) where
  names : OutboxRecord → Bool
  names row = row.message_id === id

  any-claim_rows :
      (at : ℕ) (token : ℕ → String) (n : ℕ) (rows : List OutboxRecord) (st : Store)
      → any names (claim_rows at token n rows st).0 ≡ any names rows
  unfolding claim_rows names
  any-claim_rows at token n [] st = refl
  any-claim_rows at token n (row ∷ rows) st = ground (
    arith,
    any-claim_rows at token (n + 1) rows
        (record st { outbox = insert row.message_id (claim_row at (token n) row) st.outbox }),
  )

  any-take :
      (n : ℕ) (rows : List OutboxRecord) → any names rows ≡ false → any names (take n rows) ≡ false
  any-take zero rows h = refl
  any-take (suc n) [] h = refl
  any-take (suc n) (row ∷ rows) h = ground (arith, any-take n rows)

  -- A key that is absent names no row; a row that is closed to a claim is not among its rows.
  any-absent :
      (p : OutboxRecord → Bool) (m : Dict String OutboxRecord)
      → IsKeyed m
      → lookup id m ≡ none
      → any names (filter p (values m)) ≡ false
  unfolding lookup names
  any-absent p [] h absent = refl
  any-absent p ((k, row) ∷ m) (named, (once, rest)) absent =
      ground (arith, named, absent, any-absent p m rest)

  any-closed :
      (p : OutboxRecord → Bool) (m : Dict String OutboxRecord) (row : OutboxRecord)
      → IsKeyed m
      → lookup id m ≡ some row
      → p row ≡ false
      → any names (filter p (values m)) ≡ false
  unfolding lookup names
  any-closed p [] row h found closed = absurd cc
  any-closed p ((k, old) ∷ m) row (named, (once, rest)) found closed =
      elim (Bool-cases (k === id)) [
        | inl same ↦
            let key : k ≡ id = (eq_iff k id).0 same in
            let held : old ≡ row = some-injective old row (ground (arith, found, same)) in
            let shut : p old ≡ false = ap p held ∙ closed in
            rw shut (any-absent p m rest (ap (λ j. lookup j m) (sym key) ∙ once))
        | inr other ↦
            ground
              (arith, named, other, any-closed p m row rest (ground (arith, found, other)) closed)
      ]

  -- The row is in the hands of a claim of that time, in a store whose rows are keyed.
  Stays : ℕ → Store → Type 0
  Stays at st = IsKeyed st.outbox × IsClaimedAt at id st

  claim_rows-others :
      (at at' : ℕ) (token : ℕ → String) (n : ℕ) (rows : List OutboxRecord) (st : Store)
      → any names rows ≡ false
      → IsClaimedAt at id st
      → IsClaimedAt at id (claim_rows at' token n rows st).1
  unfolding claim_rows names
  claim_rows-others at at' token n [] st h held = held
  claim_rows-others at at' token n (row ∷ rows) st h (old, (found, held)) =
      let next = claim_row at' (token n) row in
      let apart : (row.message_id === id) ≡ false = ground (arith, h) in
      claim_rows-others at at' token (n + 1) rows
        (record st { outbox = insert row.message_id next st.outbox }) (ground (arith, h))
        (old, (lookup-insert row.message_id id next st.outbox ∙ rw apart found, held))

  -- What a later claim takes from the outbox.
  module _ (at at' stale_before limit : ℕ) (token : ℕ → String) (st : Store)
      (fresh : stale_before < at) (stays : Stays at st) where
    chosen-others :
        any names
          (take limit (sort earlier (filter (claimable at' stale_before) (values st.outbox))))
        ≡ false
    unfolding claimable Stays
    chosen-others =
        let (keyed, (row, (found, (status, claimed)))) = stays in
        let shut : claimable at' stale_before row ≡ false = rw (status, claimed) (ground arith) in
        any-take limit (sort earlier (filter (claimable at' stale_before) (values st.outbox))) (
          any-sort earlier names (filter (claimable at' stale_before) (values st.outbox))
          ∙ any-closed (claimable at' stale_before) st.outbox row keyed found shut)

    claim_outbox-others :
        (any names (claim_outbox at' stale_before limit token st).0 ≡ false)
        × Stays at (claim_outbox at' stale_before limit token st).1
    unfolding claim_outbox Stays
    claim_outbox-others =
        let rows =
          take limit (sort earlier (filter (claimable at' stale_before) (values st.outbox))) in
        (
          any-claim_rows at' token 0 rows st ∙ chosen-others,
          (
            claim_rows-IsKeyed at' token 0 rows st stays.0,
            claim_rows-others at at' token 0 rows st chosen-others stays.1,
          ),
        )

-- A call of `claimOutbox`: its time, its stale bound, its limit and the tokens it draws.
pub record Claim : Type 0 where
  pub at : ℕ
  pub stale_before : ℕ
  pub limit : ℕ
  pub token : ℕ → String

abbrev pub run_claim : Claim → Store → List OutboxRecord × Store
run_claim c st = claim_outbox c.at c.stale_before c.limit c.token st

-- Claims one after the other.
unfoldable pub run_claims : List Claim → Store → Store
run_claims [] st = st
run_claims (c ∷ claims) st = run_claims claims (run_claim c st).1

run_claims-Stays :
    (id : String) (at : ℕ) (claims : List Claim) (st : Store)
    → All (λ c. c.stale_before < at) claims
    → Stays id at st
    → Stays id at (run_claims claims st)
unfolding run_claims
run_claims-Stays id at [] st h stays = stays
run_claims-Stays id at (c ∷ claims) st (fresh, rest) stays =
    run_claims-Stays id at claims (run_claim c st).1 rest
      (claim_outbox-others id at c.at c.stale_before c.limit c.token st fresh stays).1

-- Of an outbox whose rows stand under their message ids: once a claim has taken a row, no claim
-- after it takes the same row, however many other claims come between and whenever they are made,
-- as long as the lease of each still covers the first: its stale bound is before the first's time.
pub claim_outbox_exclusive :
    (c : Claim) (st : Store) (id : String) (claims : List Claim) (c' : Claim)
    → IsKeyed st.outbox
    → Any (λ row. row.message_id ≡ id) (run_claim c st).0
    → All (λ later. later.stale_before < c.at) claims
    → c'.stale_before < c.at
    → ¬ Any (λ row. row.message_id ≡ id) (run_claim c' (run_claims claims (run_claim c st).1)).0
unfolding names Stays claim_outbox
claim_outbox_exclusive c st id claims c' keyed taken between fresh again =
    let rows =
      take c.limit (sort earlier (filter (claimable c.at c.stale_before) (values st.outbox))) in
    let stays = run_claims-Stays id c.at claims (run_claim c st).1 between (
      claim_rows-IsKeyed c.at c.token 0 rows st keyed,
      claim_rows-IsClaimedAt c.at c.token 0 rows st id (inl taken),
    ) in
    let later = run_claims claims (run_claim c st).1 in
    let others =
      (claim_outbox-others id c.at c'.at c'.stale_before c'.limit c'.token later fresh stays).0 in
    let listed =
      (any_iff (λ row. row.message_id === id) (λ row. row.message_id ≡ id)
          (λ row. eq_iff row.message_id id) (run_claim c' later).0).1
        again in
    cc (others, listed)
