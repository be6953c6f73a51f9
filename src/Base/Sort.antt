-- ===== src/Base/Sort.antt =====
-- `xs.sort(compare)`: a stable sort, here by insertion.
use mathlib.Core.Path.{◌≡◌, refl, ap, ◌∙◌}
use mathlib.Core.Logic.{inl, inr}
use mathlib.Core.Bool.{Bool, true, false, ◌||◌}
use mathlib.Core.List.{List, [], ◌∷◌}
use native.Mathlib.Omega.{arith}
use ai_crm_step.Base.Tests.{if◌then◌else◌, Bool-cases}
use ai_crm_step.Base.Lists.{any, All}

-- `before x y` says that `compare(x, y) <= 0`.
module _ {ℓ} {A : Type ℓ} (before : A → A → Bool) where
  insert_sorted : A → List A → List A
  insert_sorted x [] = x ∷ []
  insert_sorted x (y ∷ ys) =
      let later = y ∷ insert_sorted x ys in if before x y then x ∷ y ∷ ys else later

  unfoldable pub sort : List A → List A
  unfolding insert_sorted
  sort [] = []
  sort (x ∷ xs) = insert_sorted x (sort xs)

  any-insert_sorted :
      (p : A → Bool) (x : A) (xs : List A) → any p (insert_sorted x xs) ≡ (p x || any p xs)
  unfolding insert_sorted
  any-insert_sorted p x [] = refl
  any-insert_sorted p x (y ∷ ys) = ground (arith, any-insert_sorted p x ys)

  pub any-sort : (p : A → Bool) (xs : List A) → any p (sort xs) ≡ any p xs
  unfolding sort
  any-sort p [] = refl
  any-sort p (x ∷ xs) = ground (arith, any-insert_sorted p x (sort xs), any-sort p xs)

  module _ (total : (x y : A) → before x y ≡ false → before y x ≡ true)
      (trans : (x y z : A) → before x y ≡ true → before y z ≡ true → before x z ≡ true)
      (refl_before : (x : A) → before x x ≡ true) where
    -- The head of a sorted list: it is listed, and before all that is listed.
    abbrev pub IsFirst : A → List A → Type ℓ
    IsFirst y xs =
        ((p : A → Bool) → any p xs ≡ false → p y ≡ false) × All (λ x. before y x ≡ true) xs

    All-before :
        (y x : A) (xs : List A)
        → before y x ≡ true
        → All (λ z. before x z ≡ true) xs
        → All (λ z. before y z ≡ true) xs
    All-before y x [] h v = tt
    All-before y x (z ∷ xs) h (one, v) = (trans y x z h one, All-before y x xs h v)

    pub sort-IsFirst :
        (x : A) (xs : List A)
        → (y : A) × (ys : List A) × (sort (x ∷ xs) ≡ y ∷ ys) × IsFirst y (x ∷ xs)
    unfolding sort insert_sorted
    sort-IsFirst x [] = (x, [], refl, (λ p h. ground arith, (refl_before x, tt)))
    sort-IsFirst x (z ∷ xs) =
        let (y, ys, sorted, (listed, least)) = sort-IsFirst z xs in
        elim (Bool-cases (before x y)) [
          | inl early ↦ (
            x,
            y ∷ ys,
            ap (insert_sorted x) sorted ∙ rw early refl,
            (λ p h. ground arith, (refl_before x, All-before x y (z ∷ xs) early least)),
          )
          | inr late ↦ (
            y,
            insert_sorted x ys,
            ap (insert_sorted x) sorted ∙ rw late refl,
            (λ p h. listed p (ground arith), (total x y late, least)),
          )
        ]
