-- ===== src/Integration/Errors.antt =====
-- packages/platform-modules/integration-runtime/src/errors.ts
use ai_crm_step.Base.{ℕ, Bool, true, ◌≡◌, refl, List, [], ◌∷◌, some, get_elem?, ◌==◌, arith}
use ai_crm_step.Base.{sym, ap, ◌∙◌, any}

pub data Category : Type 0 where
  authentication cancelled circuit_open concurrency_limited connection internal : Category
  invalid_input invalid_response rate_limited rejected replay_detected : Category
  signature_invalid timeout upstream_unavailable : Category

-- `INTEGRATION_ERROR_CATEGORIES`
abbrev pub categories : List Category
categories =
    authentication ∷ cancelled ∷ circuit_open ∷ concurrency_limited ∷ connection ∷ internal
    ∷ invalid_input ∷ invalid_response ∷ rate_limited ∷ rejected ∷ replay_detected
    ∷ signature_invalid ∷ timeout ∷ upstream_unavailable ∷ []

-- The place of a category in that list.
abbrev pub index : Category → ℕ
index authentication = 0
index cancelled = 1
index circuit_open = 2
index concurrency_limited = 3
index connection = 4
index internal = 5
index invalid_input = 6
index invalid_response = 7
index rate_limited = 8
index rejected = 9
index replay_detected = 10
index signature_invalid = 11
index timeout = 12
index upstream_unavailable = 13

-- `===` on two categories.
abbrev pub same_category : Category → Category → Bool
same_category c d = index c == index d

get_elem?-index : (c : Category) → get_elem? categories (index c) ≡ some c
get_elem?-index authentication = refl
get_elem?-index cancelled = refl
get_elem?-index circuit_open = refl
get_elem?-index concurrency_limited = refl
get_elem?-index connection = refl
get_elem?-index internal = refl
get_elem?-index invalid_input = refl
get_elem?-index invalid_response = refl
get_elem?-index rate_limited = refl
get_elem?-index rejected = refl
get_elem?-index replay_detected = refl
get_elem?-index signature_invalid = refl
get_elem?-index timeout = refl
get_elem?-index upstream_unavailable = refl

some_injective : {A : Type 0} {a b : A} → some a ≡ some b → a ≡ b
some_injective h = cc

pub same_category→eq : (c d : Category) → same_category c d ≡ true → c ≡ d
same_category→eq c d h =
    let same : index c ≡ index d = ground arith in
    some_injective (sym (get_elem?-index c) ∙ ap (get_elem? categories) same ∙ get_elem?-index d)

-- A thrown value: an `IntegrationRuntimeError` with its category and `retryable` flag, or any
-- other value. The `cause` is not kept.
pub data Failure : Type 0 where
  runtime : Category → Bool → Failure
  foreign : Failure

-- `cs.includes(c)`
unfoldable pub includes : Category → List Category → Bool
includes c cs = any (same_category c) cs
