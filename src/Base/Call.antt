-- ===== src/Base/Call.antt =====
-- Code that changes a state and may throw: what it returns or throws, and the state that it leaves.
use mathlib.Core.Path.{◌≡◌, ap}
use mathlib.Core.Logic.{inl, inr}
use mathlib.Core.Bool.{Bool, false}
use native.Mathlib.Omega.{arith}
use ai_crm_step.Base.Tests.{if◌then◌else◌}
use ai_crm_step.Base.Result.{Result, ok, err, Result-cases}

abbrev pub Call : Type 0 → Type 0 → Type 0 → Type 0
Call E S A = S → Result E A × S

infixl 5 ◌>>=◌ ◌>>◌
unfoldable pub ◌>>=◌ : {E S A B : Type 0} → Call E S A → (A → Call E S B) → Call E S B
◌>>=◌ first next s =
    let (answer, s') = first s in elim answer [ ok a ↦ next a s' | err e ↦ (err e, s') ]

abbrev pub ◌>>◌ : {E S A B : Type 0} → Call E S A → Call E S B → Call E S B
first >> second = first >>= λ ignored. second

abbrev pub return : {E S A : Type 0} → A → Call E S A
return a s = (ok a, s)

-- `if (bad) throw e`
abbrev pub refuse_if : {E S : Type 0} → Bool → E → Call E S (Unit {0})
refuse_if bad e s = if bad then (err e, s) else (ok tt, s)

-- A chain that ends well began well.
pub >>=-eq-ok :
    {E S A B : Type 0} (first : Call E S A) (next : A → Call E S B) (s : S) {b : B} {end : S}
    → (first >>= next) s ≡ (ok b, end)
    → (a : A) × (s' : S) × (first s ≡ (ok a, s')) × (next a s' ≡ (ok b, end))
unfolding ◌>>=◌
>>=-eq-ok first next s h = elim (Result-cases ((first s).0)) [
  | inl (a, good) ↦
      let began : first s ≡ (ok a, (first s).1) = ap (λ answer. (answer, (first s).1)) good in
      (a, (first s).1, began, ground (arith, good))
  | inr (e, bad) ↦ ground (arith, bad)
]

pub refuse_if-eq-ok :
    {E S : Type 0} (bad : Bool) (e : E) (s s' : S) {u : Unit {0}}
    → refuse_if bad e s ≡ (ok u, s')
    → (bad ≡ false) × (s ≡ s')
refuse_if-eq-ok bad e s s' h = ground arith
