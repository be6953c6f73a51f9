-- ===== src/Configuration/Store/Collision.antt =====
-- memory-store.ts: activations of one parameter and scope that are in force at a common time.
use ai_crm_step.Base.{
  ℕ, ◌≤◌, String, Bool, false, ◌&&◌, ◌≡◌, sym, ap, ◌∙◌, List, [], ◌∷◌, ◌++◌, Option, none, some,
  ◌===◌, ltb, any, All, All-snoc, eq_iff, arith, Bool-cases, Option-cases, inl, inr,
}
use ai_crm_step.Base.Eq.{string_key}
use ai_crm_step.Base.Dict.{Dict, lookup, insert, lookup-insert}
use ai_crm_step.Configuration.{ParameterActivation, ParameterActivationTermination}
use ai_crm_step.Configuration.Store.{
  earlier_end, effective_end, end_of_time, end_or_last, same_scope, overlaps,
}

abbrev pub Terminations : Type 0
Terminations = Dict String ParameterActivationTermination

-- The end of an activation, its termination included.
unfoldable pub last_of : Terminations → ParameterActivation → ℕ
unfolding effective_end
last_of terminations a = end_or_last (effective_end terminations a)

-- Two activations of one parameter and scope that are in force at a common time.
unfoldable pub collide : Terminations → ParameterActivation → ParameterActivation → Bool
unfolding last_of same_scope
collide terminations a b =
    (a.parameter_key === b.parameter_key)
    && (same_scope a.scope b.scope
        && (ltb a.effective_from (last_of terminations b)
            && ltb b.effective_from (last_of terminations a)))

abbrev pub AreApart : Terminations → List ParameterActivation → Type 0
AreApart terminations [] = Unit
AreApart terminations (a ∷ rest) =
    All (λ b. collide terminations a b ≡ false) rest × AreApart terminations rest

abbrev pub AreTimely : Terminations → Type 0
AreTimely terminations =
    (id : String) (t : ParameterActivationTermination)
    → lookup id terminations ≡ some t
    → t.effective_to ≤ end_of_time

last_of-le :
    (terminations : Terminations) (a : ParameterActivation)
    → AreTimely terminations
    → last_of terminations a ≤ end_or_last a.effective_to
unfolding last_of
last_of-le terminations a timely = elim (Option-cases (lookup a.activation_id terminations)) [
  | inl missing ↦ rw missing (last_end a.effective_to)
  | inr (t, found) ↦
      let early : t.effective_to ≤ end_of_time = timely a.activation_id t found in
      rw found (last_earlier a.effective_to t.effective_to early)
]
  where
    last_end : (end : Option ℕ) → end_or_last (earlier_end end none) ≤ end_or_last end
    last_end none = omega arith
    last_end (some end) = omega arith

    last_earlier :
        (end : Option ℕ) (terminated : ℕ)
        → terminated ≤ end_of_time
        → end_or_last (earlier_end end (some terminated)) ≤ end_or_last end
    last_earlier none terminated early = early
    last_earlier (some end) terminated early = ground arith

-- What a candidate does not overlap it does not collide with.
collide-overlaps :
    (terminations : Terminations) (candidate current : ParameterActivation)
    → AreTimely terminations
    → overlaps terminations candidate current ≡ false
    → collide terminations current candidate ≡ false
unfolding overlaps collide
collide-overlaps terminations candidate current timely free =
    ground (arith, last_of-le terminations candidate timely)

pub AreApart-snoc :
    (terminations : Terminations) (activations : List ParameterActivation)
    (candidate : ParameterActivation)
    → AreTimely terminations
    → any (overlaps terminations candidate) activations ≡ false
    → AreApart terminations activations
    → AreApart terminations (activations ++ candidate ∷ [])
AreApart-snoc terminations [] candidate timely free v = (tt, tt)
AreApart-snoc terminations (a ∷ rest) candidate timely free (alone, v) =
    let one : overlaps terminations candidate a ≡ false = ground arith in
    let others : any (overlaps terminations candidate) rest ≡ false = ground arith in
    (
      All-snoc _ rest candidate alone (collide-overlaps terminations candidate a timely one),
      AreApart-snoc terminations rest candidate timely others v,
    )

-- A new termination lets no activation last longer.
last_of-insert :
    (terminations : Terminations) (id : String) (t : ParameterActivationTermination)
    (a : ParameterActivation)
    → lookup id terminations ≡ none
    → t.effective_to ≤ end_of_time
    → last_of (insert id t terminations) a ≤ last_of terminations a
unfolding last_of
last_of-insert terminations id t a new early = elim (Bool-cases (id === a.activation_id)) [
  | inr other ↦ rw (lookup-insert id a.activation_id t terminations, other) (omega arith)
  | inl own ↦
      let missing : lookup a.activation_id terminations ≡ none =
        ap (λ i. lookup i terminations) (sym ((eq_iff id a.activation_id).0 own)) ∙ new in
      rw (lookup-insert id a.activation_id t terminations, own, missing)
        (ends a.effective_to t.effective_to early)
]
  where
    ends :
        (end : Option ℕ) (terminated : ℕ)
        → terminated ≤ end_of_time
        → end_or_last (earlier_end end (some terminated)) ≤ end_or_last (earlier_end end none)
    ends none terminated early = early
    ends (some end) terminated early = ground arith

collide-insert :
    (terminations : Terminations) (id : String) (t : ParameterActivationTermination)
    (a b : ParameterActivation)
    → lookup id terminations ≡ none
    → t.effective_to ≤ end_of_time
    → collide terminations a b ≡ false
    → collide (insert id t terminations) a b ≡ false
unfolding collide
collide-insert terminations id t a b new early free = ground (
  arith,
  last_of-insert terminations id t a new early,
  last_of-insert terminations id t b new early,
)

module _ (terminations : Terminations) (id : String) (t : ParameterActivationTermination)
    (new : lookup id terminations ≡ none) (early : t.effective_to ≤ end_of_time) where
  alone-insert :
      (a : ParameterActivation) (rest : List ParameterActivation)
      → All (λ b. collide terminations a b ≡ false) rest
      → All (λ b. collide (insert id t terminations) a b ≡ false) rest
  alone-insert a [] v = tt
  alone-insert a (b ∷ rest) (one, v) =
      (collide-insert terminations id t a b new early one, alone-insert a rest v)

  pub AreApart-insert :
      (activations : List ParameterActivation)
      → AreApart terminations activations
      → AreApart (insert id t terminations) activations
  AreApart-insert [] v = tt
  AreApart-insert (a ∷ rest) (alone, v) = (alone-insert a rest alone, AreApart-insert rest v)

  pub AreTimely-insert : AreTimely terminations → AreTimely (insert id t terminations)
  AreTimely-insert v j s found = elim (Bool-cases (id === j)) [
    | inl own ↦
        let same : t ≡ s = ground (arith, lookup-insert id j t terminations, own) in
        rw (sym same) early
    | inr other ↦ v j s (ground (arith, lookup-insert id j t terminations, other))
  ]
