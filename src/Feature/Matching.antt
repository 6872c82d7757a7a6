-- ===== src/Feature/Matching.antt =====
-- feature/strategy.go: the negative conditionals, and a strategy's attributes together.
use fit_go.Base.{
  ◌≡◌, refl, Bool, true, false, not, ◌&&◌, List, [], ◌∷◌, ◌++◌, if◌then◌else◌, Text, codes, same,
  Dict, arith,
}
use fit_go.Feature.Matchers.{
  Library, StrategyAttribute, listed, attribute_strings, any, has_infix, string_test, match_string,
}
use fit_go.Feature.Attributes.{match_attributes}

any-false : (ts : List Text) → any (λ t. false) ts ≡ false
unfolding any
any-false [] = refl
any-false (t ∷ ts) = any-false ts

if_same : (b : Bool) → (if b then true else false) ≡ b
if_same true = refl
if_same false = refl

abbrev pub with_conditional : Text → StrategyAttribute → StrategyAttribute
with_conditional c attribute = record attribute { conditional = c }

module _ {F D I : Type 0} (lib : Library F D I) (value : Text) (attribute : StrategyAttribute) where
  -- On a text, NOT_EQUALS is the negation of EQUALS and EXCLUDES that of INCLUDES, whatever the values
  -- of the attribute.
  pub match_string-not :
      (match_string lib value (with_conditional (codes "NOT_EQUALS") attribute)
        ≡ not (match_string lib value (with_conditional (codes "EQUALS") attribute)))
      × (match_string lib value (with_conditional (codes "EXCLUDES") attribute)
          ≡ not (match_string lib value (with_conditional (codes "INCLUDES") attribute)))
  unfolding match_string string_test same any
  match_string-not =
      let texts = attribute_strings (listed attribute.attribute_values) in
      (
        simp (any-false texts, if_same (any (same value) texts)),
        simp (any-false texts, if_same (any (has_infix value) texts)),
      )

module _ {F D I : Type 0} (lib : Library F D I) (context : Dict (List Text)) (now : D) where
  -- The attributes match exactly when those of each half do: each has to match, in any split.
  pub match_attributes-append :
      (first second : List StrategyAttribute)
      → match_attributes lib context (first ++ second) now
        ≡ (match_attributes lib context first now && match_attributes lib context second now)
  unfolding match_attributes
  match_attributes-append [] second = refl
  match_attributes-append (a ∷ rest) second = ground (arith, match_attributes-append rest second)
