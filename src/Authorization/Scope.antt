-- ===== src/Authorization/Scope.antt =====
-- packages/platform-modules/authorization/src/engine.ts: data scopes.
use ai_crm_step.Base.{
  String, Bool, true, false, ◌≡◌, refl, ◌||◌, List, [], ◌∷◌, none, some, ◌===◌, if◌then◌else◌, any,
  all, arith, Bool-cases, inl, inr, All,
}
use ai_crm_step.Base.Dict.{Dict, lookup, insert, values}
use ai_crm_step.Base.Eq.{string_key}
use ai_crm_step.Base.Sort.{sort, any-sort}
use ai_crm_step.Authorization.Types.{
  DataScopeTerm, all_data, matching, DataScope, term_key, same_term, same_term_iff,
}

-- `context[dimension] ?? ""`
unfoldable pub context_value : Dict String String → String → String
unfolding lookup
context_value context dimension = elim (lookup dimension context) [ none ↦ "" | some v ↦ v ]

-- `values.includes(v)`
unfoldable pub includes_text : String → List String → Bool
includes_text v vs = any (λ w. w === v) vs

unfoldable pub term_matches : Dict String String → DataScopeTerm → Bool
unfolding context_value includes_text
term_matches context all_data = true
term_matches context (matching cs) =
    all (λ c. includes_text (context_value context c.dimension) c.allowed_values) cs

unfoldable pub scope_matches : DataScope → Dict String String → Bool
unfolding term_matches
scope_matches scope context = any (term_matches context) scope.terms

abbrev is_all : DataScopeTerm → Bool
is_all all_data = true
is_all (matching cs) = false

-- `new Map(terms.map((term) => [JSON.stringify(term), term]))`, its keys the terms themselves.
index_terms :
    Dict DataScopeTerm DataScopeTerm → List DataScopeTerm → Dict DataScopeTerm DataScopeTerm
unfolding insert
index_terms m [] = m
index_terms m (t ∷ ts) = index_terms (insert t t m) ts

-- `before` is the order of `localeCompare` on the JSON texts.
module _ (before : DataScopeTerm → DataScopeTerm → Bool) where
  unfoldable pub normalize_combined_scope : List DataScopeTerm → DataScope
  unfolding index_terms sort same_term
  normalize_combined_scope terms =
      if any is_all terms
      then record { terms = all_data ∷ [] }
      else record { terms = sort before (values (index_terms [] terms)) }

-- Every value of the map stands at its own key.
abbrev Diagonal : Dict DataScopeTerm DataScopeTerm → Type 0
Diagonal m = All (λ e. e.1 ≡ e.0) m

module _ (p : DataScopeTerm → Bool) where
  insert-Diagonal :
      (t : DataScopeTerm) (m : Dict DataScopeTerm DataScopeTerm)
      → Diagonal m
      → Diagonal (insert t t m)
  unfolding insert
  insert-Diagonal t [] d = (refl, tt)
  insert-Diagonal t ((j, w) ∷ m) (e, d) = ground (arith, insert-Diagonal t m d, same_term_iff j t)

  any-insert :
      (t : DataScopeTerm) (m : Dict DataScopeTerm DataScopeTerm)
      → Diagonal m
      → any p (values (insert t t m)) ≡ (any p (values m) || p t)
  unfolding insert
  any-insert t [] d = ground arith
  any-insert t ((j, w) ∷ m) (e, d) = ground (arith, any-insert t m d, same_term_iff j t)

  any-index_terms :
      (m : Dict DataScopeTerm DataScopeTerm) (ts : List DataScopeTerm)
      → Diagonal m
      → any p (values (index_terms m ts)) ≡ (any p (values m) || any p ts)
  unfolding index_terms
  any-index_terms m [] d = ground arith
  any-index_terms m (t ∷ ts) d =
      ground (arith, any-index_terms (insert t t m) ts (insert-Diagonal t m d), any-insert t m d)

any_of_all :
    (context : Dict String String) (ts : List DataScopeTerm)
    → any is_all ts ≡ true
    → any (term_matches context) ts ≡ true
unfolding term_matches
any_of_all context [] h = h
any_of_all context (all_data ∷ ts) h = refl
any_of_all context (matching cs ∷ ts) h = ground (arith, any_of_all context ts h)

-- A combined scope covers a resource exactly if one of the terms that were combined covers it,
-- whatever the order of the terms and however often each stands among them.
pub scope_matches-normalize_combined_scope :
    (before : DataScopeTerm → DataScopeTerm → Bool) (terms : List DataScopeTerm)
    (context : Dict String String)
    → scope_matches (normalize_combined_scope before terms) context
      ≡ any (term_matches context) terms
unfolding scope_matches normalize_combined_scope
scope_matches-normalize_combined_scope before terms context = elim (Bool-cases (any is_all terms)) [
  | inl some_all ↦ rw (some_all, any_of_all context terms some_all) refl
  | inr no_all ↦ rw (
    no_all,
    any-sort before (term_matches context) (values (index_terms [] terms)),
    any-index_terms (term_matches context) [] terms tt,
  )
]
