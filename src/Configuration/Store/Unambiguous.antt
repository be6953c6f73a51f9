-- ===== src/Configuration/Store/Unambiguous.antt =====
-- memory-store.ts: a parameter has at most one activation in force for a scope at any time.
use ai_crm_step.Base.{
  ℕ, suc, ◌≤◌, ◌<◌, String, true, false, ◌≡◌, refl, ap, List, [], ◌∷◌, length, filter, map, All,
  eq_iff, arith, Bool-cases, inl, inr,
}
use ai_crm_step.Base.Eq.{string_key}
use ai_crm_step.Configuration.{DictionaryItem, ParameterScope, ParameterActivation}
use ai_crm_step.Configuration.Store.{
  end_of_time, same_scope, is_effective, materialize, list_effective_activations,
}
use ai_crm_step.Configuration.Store.Collision.{Terminations, AreApart, last_of, collide}
use ai_crm_step.Configuration.Store.Exclusive.{
  is_timely, Operation, empty_store, run, run-IsExclusive, empty-IsExclusive,
}

effective_facts :
    (terminations : Terminations) (key : String) (scope : ParameterScope) (at : ℕ)
    (a : ParameterActivation)
    → at < end_of_time
    → is_effective terminations key (scope ∷ []) at a ≡ true
    → (a.parameter_key ≡ key)
      × (scope.scope_type ≡ a.scope.scope_type)
      × (scope.scope_reference ≡ a.scope.scope_reference)
      × (a.effective_from ≤ at)
      × (at < last_of terminations a)
unfolding is_effective last_of same_scope
effective_facts terminations key scope at a early h = ground (
  arith,
  eq_iff a.parameter_key key,
  eq_iff scope.scope_type a.scope.scope_type,
  eq_iff scope.scope_reference a.scope.scope_reference,
)

-- Two activations in force at one time for one scope collide.
collide_effective :
    (terminations : Terminations) (key : String) (scope : ParameterScope) (at : ℕ)
    (a b : ParameterActivation)
    → at < end_of_time
    → is_effective terminations key (scope ∷ []) at a ≡ true
    → is_effective terminations key (scope ∷ []) at b ≡ true
    → collide terminations a b ≡ true
unfolding collide same_scope
collide_effective terminations key scope at a b early one two =
    let (ka, ta, ra, fa, la) = effective_facts terminations key scope at a early one in
    let (kb, tb, rb, fb, lb) = effective_facts terminations key scope at b early two in
    ground (
      arith,
      ka,
      ta,
      ra,
      kb,
      tb,
      rb,
      eq_iff a.parameter_key b.parameter_key,
      eq_iff a.scope.scope_type b.scope.scope_type,
      eq_iff a.scope.scope_reference b.scope.scope_reference,
    )

module _ (terminations : Terminations) (key : String) (scope : ParameterScope) (at : ℕ)
    (early : at < end_of_time) where
  none_effective :
      (a : ParameterActivation) (rest : List ParameterActivation)
      → is_effective terminations key (scope ∷ []) at a ≡ true
      → All (λ b. collide terminations a b ≡ false) rest
      → filter (is_effective terminations key (scope ∷ []) at) rest ≡ []
  none_effective a [] h v = refl
  none_effective a (b ∷ rest) h (one, v) =
      elim (Bool-cases (is_effective terminations key (scope ∷ []) at b)) [
        | inr no_b ↦ ground (arith, no_b, none_effective a rest h v)
        | inl yes_b ↦ ground (arith, collide_effective terminations key scope at a b early h yes_b)
      ]

  one_effective :
      (activations : List ParameterActivation)
      → AreApart terminations activations
      → length (filter (is_effective terminations key (scope ∷ []) at) activations) ≤ 1
  one_effective [] v = omega arith
  one_effective (a ∷ rest) (alone, v) =
      elim (Bool-cases (is_effective terminations key (scope ∷ []) at a)) [
        | inr no_a ↦ rw no_a (one_effective rest v)
        | inl yes_a ↦ rw (yes_a, none_effective a rest yes_a alone) (omega arith)
      ]

length-map {ℓ κ} :
    {A : Type ℓ} {B : Type κ} (f : A → B) (xs : List A) → length (map f xs) ≡ length xs
length-map f [] = refl
length-map f (x ∷ xs) = ap suc (length-map f xs)

-- Whatever calls a store has had since it was empty, failed and repeated ones included: before the
-- end of time, at most one activation of a parameter is in force for a scope, if every termination
-- asked for lies before the end of time as well.
pub run_unambiguous :
    (hash : List DictionaryItem → String) (operations : List Operation) (key : String)
    (scope : ParameterScope) (at : ℕ)
    → All (λ (operation : Operation). is_timely operation.2 ≡ true) operations
    → at < end_of_time
    → length (list_effective_activations key (scope ∷ []) at (run hash operations empty_store)) ≤ 1
unfolding list_effective_activations
run_unambiguous hash operations key scope at timely early =
    let st = run hash operations empty_store in
    let v = run-IsExclusive hash operations empty_store timely empty-IsExclusive in
    omega (
      arith,
      length-map (materialize st.terminations)
          (filter (is_effective st.terminations key (scope ∷ []) at) st.activations),
      one_effective st.terminations key scope at early st.activations v.apart,
    )
