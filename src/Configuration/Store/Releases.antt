-- ===== src/Configuration/Store/Releases.antt =====
-- memory-store.ts: the releases of a dictionary are numbered and drop no code; repeated and
-- competing calls.
use ai_crm_step.Base.{
  ℕ, ◌+◌, ◌≤◌, ◌<◌, String, Bool, true, false, ◌≡◌, refl, sym, ap, subst, ◌∙◌, List, [], ◌∷◌, ◌++◌,
  some, ◌===◌, ◌==◌, length, all, find, All, All-snoc, eq_iff, arith, Bool-cases, Option-cases, inl,
  inr,
}
use ai_crm_step.Base.Eq.{string_key}
use ai_crm_step.Base.Dict.{Dict, lookup, insert, lookup-insert, lookup-insert_self}
use ai_crm_step.Base.Result.{ok, Result-cases}
use ai_crm_step.Configuration.{
  DictionaryItem, DictionaryDraft, DictionaryRelease, ConfigurationInvalidationEvent,
}
use ai_crm_step.Configuration.Store.{
  Outcome, ConfigurationStore, once, write_draft, keeps_codes, next_release, add_release,
  release_draft, write_definition, release_value, add_activation, terminate_found, find_activation,
  list_of, Write, save_dictionary_draft, publish_dictionary, register_parameter,
  publish_parameter_value, activate, terminate_activation, perform, commit_once,
  find_dictionary_release,
}
use ai_crm_step.Configuration.Store.Exclusive.{Operation, empty_store, store_after, run}

-- No release drops a code of a release before it.
abbrev AreGrowing : List DictionaryRelease → Type 0
AreGrowing [] = Unit
AreGrowing (r ∷ rest) =
    All (λ (later : DictionaryRelease). keeps_codes later.items r ≡ true) rest × AreGrowing rest

abbrev AreNumbered : ℕ → List DictionaryRelease → Type 0
AreNumbered n [] = Unit
AreNumbered n (r ∷ rest) = (r.release_version ≡ n) × AreNumbered (n + 1) rest

AreGrowing-snoc :
    (releases : List DictionaryRelease) (next : DictionaryRelease)
    → all (keeps_codes next.items) releases ≡ true
    → AreGrowing releases
    → AreGrowing (releases ++ next ∷ [])
AreGrowing-snoc [] next kept v = (tt, tt)
AreGrowing-snoc (r ∷ rest) next kept (later, v) =
    (All-snoc _ rest next later (ground arith), AreGrowing-snoc rest next (ground arith) v)

AreNumbered-snoc :
    (n : ℕ) (releases : List DictionaryRelease) (next : DictionaryRelease)
    → next.release_version ≡ n + length releases
    → AreNumbered n releases
    → AreNumbered n (releases ++ next ∷ [])
AreNumbered-snoc n [] next here v = (omega arith, tt)
AreNumbered-snoc n (r ∷ rest) next here (one, v) =
    (one, AreNumbered-snoc (n + 1) rest next (omega arith) v)

abbrev AreOrdered : Dict String (List DictionaryRelease) → Type 0
AreOrdered m =
    (id : String) → AreGrowing (list_of (lookup id m)) × AreNumbered 1 (list_of (lookup id m))

AreOrdered-insert :
    (m : Dict String (List DictionaryRelease)) (id : String) (next : DictionaryRelease)
    → AreOrdered m
    → all (keeps_codes next.items) (list_of (lookup id m)) ≡ true
    → next.release_version ≡ length (list_of (lookup id m)) + 1
    → AreOrdered (insert id (list_of (lookup id m) ++ next ∷ []) m)
AreOrdered-insert m id next v kept here j = elim (Bool-cases (id === j)) [
  | inr other ↦ rw (lookup-insert id j (list_of (lookup id m) ++ next ∷ []) m, other) (v j)
  | inl own ↦
      rw (lookup-insert id j (list_of (lookup id m) ++ next ∷ []) m, own)
        (
          AreGrowing-snoc (list_of (lookup id m)) next kept (v id).0,
          AreNumbered-snoc 1 (list_of (lookup id m)) next (omega arith) (v id).1,
        )
]

release_draft-AreOrdered :
    (hash : List DictionaryItem → String) (id : String) (event : ConfigurationInvalidationEvent)
    (expected at : ℕ) (draft : DictionaryDraft) (st st' : ConfigurationStore) (o : Outcome)
    → release_draft hash id event expected at (some draft) st ≡ ok (o, st')
    → AreOrdered st.dictionaries
    → AreOrdered st'.dictionaries
unfolding release_draft
release_draft-AreOrdered hash id event expected at draft st st' o h v =
    let releases = list_of (lookup id st.dictionaries) in
    let next = next_release hash draft releases at in
    let kept : all (keeps_codes draft.items) releases ≡ true = ground arith in
    let right : (draft.revision == expected) ≡ true = ground arith in
    let grown : add_release id releases next event st ≡ st' = ground (arith, right, kept) in
    subst (λ (s : ConfigurationStore). AreOrdered s.dictionaries) grown
      (AreOrdered-insert st.dictionaries id next v kept refl)

perform-AreOrdered :
    (hash : List DictionaryItem → String) (w : Write) (st st' : ConfigurationStore) (o : Outcome)
    → perform hash w st ≡ ok (o, st')
    → AreOrdered st.dictionaries
    → AreOrdered st'.dictionaries
unfolding perform
perform-AreOrdered hash (save_dictionary_draft draft expected) st st' o h v =
    let same : st.dictionaries ≡ st'.dictionaries = unfold write_draft in ground arith in
    subst AreOrdered same v
perform-AreOrdered hash (publish_dictionary id event expected at) st st' o h v =
    elim (Option-cases (lookup id st.drafts)) [
      | inl missing ↦ unfold release_draft in ground (arith, missing)
      | inr (draft, found) ↦
          release_draft-AreOrdered hash id event expected at draft st st' o
            (ap (λ d. release_draft hash id event expected at d st) (sym found) ∙ h) v
    ]
perform-AreOrdered hash (register_parameter definition) st st' o h v =
    let same : st.dictionaries ≡ st'.dictionaries = unfold write_definition in ground arith in
    subst AreOrdered same v
perform-AreOrdered hash (publish_parameter_value key digest value event at) st st' o h v =
    let same : st.dictionaries ≡ st'.dictionaries = unfold release_value in ground arith in
    subst AreOrdered same v
perform-AreOrdered hash (activate a event) st st' o h v =
    let same : st.dictionaries ≡ st'.dictionaries = unfold add_activation in ground arith in
    subst AreOrdered same v
perform-AreOrdered hash (terminate_activation a p t effective_to occurred_at event) st st' o h v =
    elim (Option-cases (find_activation a p st.activations)) [
      | inl missing ↦ unfold terminate_found in ground (arith, missing)
      | inr (b, found) ↦
          let same : st.dictionaries ≡ st'.dictionaries =
            unfold terminate_found in ground (arith, found) in
          subst AreOrdered same v
    ]

commit_once-AreOrdered :
    (hash : List DictionaryItem → String) (id fingerprint : String) (w : Write)
    (st st' : ConfigurationStore) (o : Outcome) (replayed : Bool)
    → commit_once hash id fingerprint w st ≡ ok (o, replayed, st')
    → AreOrdered st.dictionaries
    → AreOrdered st'.dictionaries
unfolding commit_once once
commit_once-AreOrdered hash id fingerprint w st st' o replayed h v =
    elim (Option-cases (lookup id st.receipts)) [
      | inr ((prior, outcome), found) ↦
          let same : st.dictionaries ≡ st'.dictionaries = ground (arith, found) in
          subst AreOrdered same v
      | inl first ↦ elim (Result-cases (perform hash w st)) [
        | inr (e, failed) ↦ ground (arith, first, failed)
        | inl ((made, written), done) ↦
            let same : written.dictionaries ≡ st'.dictionaries = ground (arith, first, done) in
            subst AreOrdered same (perform-AreOrdered hash w st written made done v)
      ]
    ]

run-AreOrdered :
    (hash : List DictionaryItem → String) (operations : List Operation) (st : ConfigurationStore)
    → AreOrdered st.dictionaries
    → AreOrdered (run hash operations st).dictionaries
unfolding run
run-AreOrdered hash [] st v = v
run-AreOrdered hash ((id, fingerprint, w) ∷ rest) st v =
    elim (Result-cases (commit_once hash id fingerprint w st)) [
      | inr (e, failed) ↦
          subst (λ s. AreOrdered (run hash rest s).dictionaries) (sym (ap (store_after st) failed))
            (run-AreOrdered hash rest st v)
      | inl ((o, replayed, st'), done) ↦
          subst (λ s. AreOrdered (run hash rest s).dictionaries) (sym (ap (store_after st) done))
            (run-AreOrdered hash rest st'
              (commit_once-AreOrdered hash id fingerprint w st st' o replayed done v))
    ]

abbrev version_is : ℕ → DictionaryRelease → Bool
version_is version release = release.release_version == version

-- A later release of a list is behind the earlier one.
find_later :
    (n version : ℕ) (releases : List DictionaryRelease) (r : DictionaryRelease)
    → AreNumbered n releases
    → find (version_is version) releases ≡ some r
    → n ≤ version
find_later n version [] r v found = ground arith
find_later n version (x ∷ rest) r (one, v) found = elim (Bool-cases (version_is version x)) [
  | inl here ↦ ground (arith, here)
  | inr later ↦ omega (arith, find_later (n + 1) version rest r v (ground (arith, later)))
]

All-find :
    (P : DictionaryRelease → Type 0) (p : DictionaryRelease → Bool) (xs : List DictionaryRelease)
    (r : DictionaryRelease)
    → All P xs
    → find p xs ≡ some r
    → P r
All-find P p [] r v found = ground arith
All-find P p (x ∷ xs) r (one, v) found = elim (Bool-cases (p x)) [
  | inl here ↦ let same : x ≡ r = ground (arith, here) in subst P same one
  | inr later ↦ All-find P p xs r v (ground (arith, later))
]

growing_find :
    (n v w : ℕ) (releases : List DictionaryRelease) (q r : DictionaryRelease)
    → AreGrowing releases
    → AreNumbered n releases
    → v < w
    → find (version_is v) releases ≡ some q
    → find (version_is w) releases ≡ some r
    → keeps_codes r.items q ≡ true
growing_find n v w [] q r g m less fv fw = ground arith
growing_find n v w (x ∷ rest) q r (later, g) (one, m) less fv fw =
    elim (Bool-cases (version_is w x)) [
      | inl here_w ↦
          let here : x.release_version ≡ w = ground arith in
          let not_v : version_is v x ≡ false = ground arith in
          absurd (omega (arith, find_later (n + 1) v rest q m (ground (arith, not_v))))
      | inr next_w ↦
          let found_w : find (version_is w) rest ≡ some r = ground (arith, next_w) in
          elim (Bool-cases (version_is v x)) [
            | inl here_v ↦
                let same : x ≡ q = ground (arith, here_v) in
                subst (λ y. keeps_codes r.items y ≡ true) same
                  (All-find (λ (z : DictionaryRelease). keeps_codes z.items x ≡ true) _ rest r later
                    found_w)
            | inr next_v ↦
                growing_find (n + 1) v w rest q r g m less (ground (arith, next_v)) found_w
          ]
    ]

-- Whatever calls a store has had since it was empty: a release of a dictionary that is found under a
-- version has every code that any release of the dictionary with a lower version has.
pub run-keeps_codes :
    (hash : List DictionaryItem → String) (operations : List Operation) (id : String) (v w : ℕ)
    (q r : DictionaryRelease)
    → v < w
    → find_dictionary_release id v (run hash operations empty_store) ≡ some q
    → find_dictionary_release id w (run hash operations empty_store) ≡ some r
    → keeps_codes r.items q ≡ true
unfolding find_dictionary_release
run-keeps_codes hash operations id v w q r less fv fw =
    let start : AreOrdered [] = λ j. unfold lookup in (tt, tt) in
    let (growing, numbered) = run-AreOrdered hash operations empty_store start id in
    growing_find 1 v w _ q r growing numbered less fv fw

-- A call that succeeded, made again at once, gives the same outcome as a replay and changes nothing.
pub commit_replayed :
    (hash : List DictionaryItem → String) (id fingerprint : String) (w : Write)
    (st st' : ConfigurationStore) (o : Outcome) (replayed : Bool)
    → commit_once hash id fingerprint w st ≡ ok (o, replayed, st')
    → commit_once hash id fingerprint w st' ≡ ok (o, true, st')
unfolding commit_once once
commit_replayed hash id fingerprint w st st' o replayed h =
    elim (Option-cases (lookup id st.receipts)) [
      | inr ((prior, outcome), found) ↦
          let same : st ≡ st' = ground (arith, found) in ground (arith, found, same)
      | inl first ↦ elim (Result-cases (perform hash w st)) [
        | inr (e, failed) ↦ ground (arith, first, failed)
        | inl ((made, written), done) ↦
            let kept : st'.receipts ≡ insert id (fingerprint, made) written.receipts =
              ground (arith, first, done) in
            let is_o : made ≡ o = ground (arith, first, done) in
            let recorded : lookup id st'.receipts ≡ some (fingerprint, o) =
              ap (lookup id) kept
              ∙ lookup-insert_self id (fingerprint, made) written.receipts
              ∙ ap (λ x. some (fingerprint, x)) is_o in
            rw (once, recorded) (ground (arith, eq_iff fingerprint fingerprint))
      ]
    ]
