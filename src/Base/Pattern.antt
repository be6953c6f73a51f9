-- ===== src/Base/Pattern.antt =====
-- The regular expressions by which the code tests its texts, over their code points.
use Prim.Native.Char.{Char, code}
use Prim.Native.String.{String}
use Prim.Native.Nat.{ℕ, zero, suc}
use mathlib.Core.Path.{◌≡◌, refl}
use mathlib.Core.Bool.{Bool, true, false, ◌&&◌, ◌||◌, not}
use mathlib.Core.List.{List, [], ◌∷◌}
use ai_crm_step.Base.Tests.{leb, ◌==◌, if◌then◌else◌}
use ai_crm_step.Base.Lists.{all, any, length}

abbrev pub code_points : String → List ℕ
code_points (String.◌∷◌ first others) = code first ∷ code_points others
code_points String.[] = []

abbrev pub in_range : ℕ → ℕ → ℕ → Bool
in_range lo hi c = leb lo c && leb c hi

abbrev pub is_lower : ℕ → Bool
is_lower = in_range b'a' b'z'

abbrev pub is_digit : ℕ → Bool
is_digit = in_range b'0' b'9'

abbrev pub is_alnum : ℕ → Bool
is_alnum c = is_lower c || (in_range b'A' b'Z' c || is_digit c)

-- `[0-9a-f]`, and the same without regard to case.
abbrev pub is_hex_lower : ℕ → Bool
is_hex_lower c = is_digit c || in_range b'a' b'f' c

abbrev pub is_hex : ℕ → Bool
is_hex c = is_hex_lower c || in_range b'A' b'F' c

repeat : ℕ → (ℕ → Bool) → List (ℕ → Bool) → List (ℕ → Bool)
repeat zero p rest = rest
repeat (suc n) p rest = p ∷ repeat n p rest

fits : List (ℕ → Bool) → List ℕ → Bool
fits [] [] = true
fits (p ∷ ps) (c ∷ cs) = p c && fits ps cs
fits _ _ = false

-- The groups of a UUID over the given digits; the variant digit is one of `89ab`.
uuid_shape : (ℕ → Bool) → (ℕ → Bool) → List (ℕ → Bool)
unfolding repeat
uuid_shape hex variant =
    let dash = λ (c : ℕ). c == b'-' in
    repeat 8 hex (
      dash
      ∷ repeat 4 hex (
          dash
          ∷ in_range b'1' b'8'
          ∷ repeat 3 hex (dash ∷ variant ∷ repeat 3 hex (dash ∷ repeat 12 hex []))))

variant_lower : ℕ → Bool
variant_lower c = in_range b'8' b'9' c || in_range b'a' b'b' c

-- `/^[0-9a-f]{8}-[0-9a-f]{4}-[1-8][0-9a-f]{3}-[89ab][0-9a-f]{3}-[0-9a-f]{12}$/iu`
unfoldable pub is_uuid : String → Bool
unfolding uuid_shape fits variant_lower
is_uuid s = fits (uuid_shape is_hex (λ c. variant_lower c || in_range b'A' b'B' c)) (code_points s)

-- The same expression without the flag `i`.
unfoldable pub is_lower_uuid : String → Bool
unfolding uuid_shape fits variant_lower
is_lower_uuid s = fits (uuid_shape is_hex_lower variant_lower) (code_points s)

-- `/^(?!0{32})[0-9a-f]{32}$/u`
unfoldable pub is_trace_id : String → Bool
unfolding fits repeat
is_trace_id s =
    fits (repeat 32 is_hex_lower []) (code_points s) && any (λ c. not (c == b'0')) (code_points s)

-- `/^[A-Za-z0-9_-]{43}$/u`
unfoldable pub is_random_id : String → Bool
unfolding fits repeat
is_random_id s = fits (repeat 43 (λ c. is_alnum c || (c == b'_' || c == b'-')) []) (code_points s)

-- `/^[a-z][a-z0-9-]*$/u`
unfoldable pub is_action : String → Bool
is_action s = elim (code_points s) [
  | [] ↦ false
  | c ∷ cs ↦ is_lower c && all (λ d. is_lower d || (is_digit d || d == b'-')) cs
]

-- A word of `/[a-z][a-z0-9-]*/`, and more of them behind dots; `dotted` says that there is a dot.
segments : Bool → Bool → List ℕ → Bool
segments at_start dotted [] = not at_start && dotted
segments true dotted (c ∷ cs) = let rest = segments false dotted cs in is_lower c && rest
segments false dotted (c ∷ cs) =
    let next = segments true true cs in
    let rest = segments false dotted cs in
    if c == b'.' then next else (is_lower c || (is_digit c || c == b'-')) && rest

-- `/^[a-z][a-z0-9-]*(?:\.[a-z][a-z0-9-]*)+$/u`
unfoldable pub is_identifier : String → Bool
unfolding segments
is_identifier s = segments true false (code_points s)

starts_alnum : (ℕ → Bool) → List ℕ → Bool
starts_alnum more [] = false
starts_alnum more (c ∷ cs) = is_alnum c && all (λ d. is_alnum d || more d) cs

-- `/^[A-Za-z0-9][A-Za-z0-9._:-]{0,127}$/u`
unfoldable pub is_policy_version : String → Bool
unfolding starts_alnum
is_policy_version s =
    starts_alnum (λ c. any (λ d. d == c) (b'.' ∷ b'_' ∷ b':' ∷ b'-' ∷ [])) (code_points s)
    && leb (length (code_points s)) 128

-- `/^[A-Za-z0-9][A-Za-z0-9._:@/-]{0,254}$/u`
unfoldable pub is_value : String → Bool
unfolding starts_alnum
is_value s =
    starts_alnum (λ c. any (λ d. d == c) (b'.' ∷ b'_' ∷ b':' ∷ b'@' ∷ b'/' ∷ b'-' ∷ []))
      (code_points s)
    && leb (length (code_points s)) 255

-- The length of a text that passes one of the tests above, whose characters are all ASCII.
abbrev pub text_length : String → ℕ
text_length s = length (code_points s)

lower_hex : Char → Char
lower_hex c =
    if code c == b'A'
    then "a"
    else if code c == b'B'
    then "b"
    else if code c == b'C'
    then "c"
    else if code c == b'D'
    then "d"
    else if code c == b'E'
    then "e"
    else if code c == b'F'
    then "f"
    else c

-- `s.toLowerCase()` of a text that passes the test for a UUID.
unfoldable pub lower_case : String → String
unfolding lower_hex
lower_case String.[] = String.[]
lower_case (String.◌∷◌ c s) = String.◌∷◌ (lower_hex c) (lower_case s)

is_uuid_tests :
    (is_uuid "123E4567-e89b-12d3-A456-426614174000" ≡ true)
    × (is_lower_uuid "123E4567-e89b-12d3-A456-426614174000" ≡ false)
    × (lower_case "123E4567-e89b-12d3-A456-426614174000" ≡ "123e4567-e89b-12d3-a456-426614174000")
unfolding is_uuid is_lower_uuid lower_case
is_uuid_tests = (refl, refl, refl)

is_identifier_tests :
    (is_identifier "crm.customer-1" ≡ true)
    × (is_identifier "crm" ≡ false)
    × (is_identifier "crm..a" ≡ false)
    × (is_trace_id "00000000000000000000000000000000" ≡ false)
unfolding is_identifier is_trace_id
is_identifier_tests = (refl, refl, refl, refl)
