-- ===== src/Feature/Attributes.antt =====
-- feature/strategy.go: whether a context matches the attributes of a strategy.
use fit_go.Base.{
  Bool, true, false, not, List, [], ◌∷◌, Option, none, some, if◌then◌else◌, Text, codes, same,
  equal_fold, Dict, lookup,
}
use fit_go.Feature.Matchers.{
  Library, AttributeValue, sprint, StrategyAttribute, any, match_string, match_number,
  match_ip_address,
}
use fit_go.Feature.Versions.{match_semantic_version}

-- context[name], which is nil when it is missing.
abbrev supplied_or_nil : Option (List Text) → List Text
supplied_or_nil none = []
supplied_or_nil (some ts) = ts

abbrev first_or : List Text → Text → Text
first_or [] fallback = fallback
first_or (t ∷ ts) fallback = t

unfoldable pub first_attribute : Dict (List Text) → Text → Text → Text
first_attribute context key fallback = first_or (supplied_or_nil (lookup key context)) fallback

abbrev same_bool : Bool → Bool → Bool
same_bool a b = if a then b else not b

module _ {F D I : Type 0} (lib : Library F D I) where
  abbrev or_parse : Option D → Option D → Option D
  or_parse (some d) later = some d
  or_parse none later = later

  -- parseFeatureDate: the first of the three layouts that parses.
  unfoldable pub parse_feature_date : Text → Option D
  parse_feature_date value =
      or_parse (lib.parse_nano value) (or_parse (lib.parse_rfc3339 value) (lib.parse_day value))

  abbrev match_boolean : Text → Text → Option (List AttributeValue) → Bool
  match_boolean value conditional none = false
  match_boolean value conditional (some []) = false
  match_boolean value conditional (some (v ∷ vs)) =
      let agrees = same_bool (same value (codes "true")) (same (sprint v) (codes "true")) in
      if same conditional (codes "EQUALS")
      then agrees
      else if same conditional (codes "NOT_EQUALS")
      then not agrees
      else false

  abbrev match_date : (D → Text) → StrategyAttribute → Option D → Bool
  match_date show attribute none = false
  match_date show attribute (some d) = match_string lib (show d) attribute

  unfoldable pub match_attribute_value : Text → StrategyAttribute → Bool
  match_attribute_value value attribute =
      if same attribute.attribute_type (codes "BOOLEAN")
      then match_boolean value attribute.conditional attribute.attribute_values
      else if same attribute.attribute_type (codes "NUMBER")
      then match_number lib value attribute
      else if same attribute.attribute_type (codes "DATE")
      then match_date lib.show_day attribute (parse_feature_date value)
      else if same attribute.attribute_type (codes "DATETIME")
      then match_date lib.show_second attribute (parse_feature_date value)
      else if same attribute.attribute_type (codes "SEMANTIC_VERSION")
      then match_semantic_version lib value attribute
      else if same attribute.attribute_type (codes "IP_ADDRESS")
      then match_ip_address lib value attribute
      else if same attribute.attribute_type (codes "STRING")
      then match_string lib value attribute
      else false

  -- What the context supplies for a field; for a field named "now", the time.
  abbrev now_values : D → StrategyAttribute → List Text
  now_values now attribute =
      if same attribute.attribute_type (codes "DATE")
      then lib.show_day now ∷ []
      else if same attribute.attribute_type (codes "DATETIME")
      then lib.show_nano now ∷ []
      else []

  abbrev with_now : D → StrategyAttribute → List Text → List Text
  with_now now attribute [] =
      if equal_fold attribute.field_name (codes "now") then now_values now attribute else []
  with_now now attribute (t ∷ ts) = t ∷ ts

  -- The rest of the loop's body, on the values and what is supplied.
  abbrev match_supplied : StrategyAttribute → Option (List AttributeValue) → List Text → Bool
  match_supplied attribute none [] = same attribute.conditional (codes "EQUALS")
  match_supplied attribute none (t ∷ ts) = false
  match_supplied attribute (some vs) [] = false
  match_supplied attribute (some vs) (t ∷ ts) =
      any (λ value. match_attribute_value value attribute) (t ∷ ts)

  unfoldable pub match_attribute : Dict (List Text) → StrategyAttribute → D → Bool
  match_attribute context attribute now =
      match_supplied attribute attribute.attribute_values
        (with_now now attribute (supplied_or_nil (lookup attribute.field_name context)))

  unfoldable pub match_attributes : Dict (List Text) → List StrategyAttribute → D → Bool
  match_attributes context [] now = true
  match_attributes context (attribute ∷ rest) now =
      let later = match_attributes context rest now in
      if match_attribute context attribute now then later else false
