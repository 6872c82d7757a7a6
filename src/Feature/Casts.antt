-- ===== src/Feature/Casts.antt =====
-- feature/strategy.go: the casts of a feature's value to its declared type.
use fit_go.Base.{
  ◌≡◌, Bool, true, false, Option, none, some, if◌then◌else◌, Text, codes, same, inl, inr,
  Bool-cases, subst, sym, same→eq, ℤ,
}

-- An interface value: nil, the types that the casts tell apart, and every other one. Integers are
-- int and int64.
pub data FeatureValue (F O : Type 0) : Type 0 where
  nil_value empty_object : FeatureValue F O
  bool_value : Bool → FeatureValue F O
  text_value json_number : Text → FeatureValue F O
  float_value : F → FeatureValue F O
  integer_value : ℤ → FeatureValue F O
  other_value : O → FeatureValue F O

-- `sprint` is fmt.Sprint on a value that is neither nil nor a text, and `unmarshal` what
-- json.Unmarshal decodes, if it does.
pub record CastLibrary (F O : Type 0) : Type 0 where
  pub parse_float : Text → Option F
  pub float_of : ℤ → F
  pub sprint_other : FeatureValue F O → Text
  pub unmarshal : Text → Option (FeatureValue F O)

abbrev pub is_nil_value : {F O : Type 0} → FeatureValue F O → Bool
is_nil_value nil_value = true
is_nil_value empty_object = false
is_nil_value (bool_value b) = false
is_nil_value (text_value t) = false
is_nil_value (json_number t) = false
is_nil_value (float_value x) = false
is_nil_value (integer_value n) = false
is_nil_value (other_value o) = false

module _ {F O : Type 0} (lib : CastLibrary F O) where
  abbrev pub sprint_value : FeatureValue F O → Text
  sprint_value nil_value = codes "<nil>"
  sprint_value empty_object = lib.sprint_other empty_object
  sprint_value (bool_value b) = lib.sprint_other (bool_value b)
  sprint_value (text_value t) = t
  sprint_value (json_number t) = t
  sprint_value (float_value x) = lib.sprint_other (float_value x)
  sprint_value (integer_value n) = lib.sprint_other (integer_value n)
  sprint_value (other_value o) = lib.sprint_other (other_value o)

  unfoldable pub cast_boolean : FeatureValue F O → Bool × Bool
  cast_boolean (bool_value b) = (b, true)
  cast_boolean (text_value t) = (same t (codes "true"), true)
  cast_boolean nil_value = (same (sprint_value nil_value) (codes "true"), false)
  cast_boolean empty_object = (same (sprint_value empty_object) (codes "true"), true)
  cast_boolean (json_number t) = (same (sprint_value (json_number t)) (codes "true"), true)
  cast_boolean (float_value x) = (same (sprint_value (float_value x)) (codes "true"), true)
  cast_boolean (integer_value n) = (same (sprint_value (integer_value n)) (codes "true"), true)
  cast_boolean (other_value o) = (same (sprint_value (other_value o)) (codes "true"), true)

  unfoldable pub cast_number : FeatureValue F O → Option F
  cast_number (float_value x) = some x
  cast_number (integer_value n) = some (lib.float_of n)
  cast_number (json_number t) = lib.parse_float t
  cast_number nil_value = lib.parse_float (sprint_value nil_value)
  cast_number empty_object = lib.parse_float (sprint_value empty_object)
  cast_number (bool_value b) = lib.parse_float (sprint_value (bool_value b))
  cast_number (text_value t) = lib.parse_float t
  cast_number (other_value o) = lib.parse_float (sprint_value (other_value o))

  abbrev pub float_or_nil : Option F → FeatureValue F O
  float_or_nil none = nil_value
  float_or_nil (some x) = float_value x

  abbrev decoded_or_empty : Option (FeatureValue F O) → FeatureValue F O
  decoded_or_empty none = empty_object
  decoded_or_empty (some v) = v

  unfoldable pub cast_json : FeatureValue F O → FeatureValue F O
  cast_json (text_value raw) = decoded_or_empty (lib.unmarshal raw)
  cast_json nil_value = nil_value
  cast_json empty_object = empty_object
  cast_json (bool_value b) = bool_value b
  cast_json (json_number t) = json_number t
  cast_json (float_value x) = float_value x
  cast_json (integer_value n) = integer_value n
  cast_json (other_value o) = other_value o

  unfoldable pub cast_feature_value : Text → FeatureValue F O → Bool → FeatureValue F O
  cast_feature_value value_type value parse_json =
      if is_nil_value value
      then nil_value
      else if same value_type (codes "BOOLEAN")
      then bool_value (cast_boolean value).0
      else if same value_type (codes "STRING")
      then text_value (sprint_value value)
      else if same value_type (codes "NUMBER")
      then float_or_nil (cast_number value)
      else if same value_type (codes "JSON")
      then (if parse_json then cast_json value else text_value (sprint_value value))
      else nil_value

-- The results that a declared type allows; the parsed JSON may be anything.
pub data HasType {F O : Type 0} : Text → FeatureValue F O → Type 0 where
  is_nil : {t : Text} → HasType t nil_value
  is_boolean : (b : Bool) → HasType (codes "BOOLEAN") (bool_value b)
  is_string : (t : Text) → HasType (codes "STRING") (text_value t)
  is_number : (x : F) → HasType (codes "NUMBER") (float_value x)
  is_json : (v : FeatureValue F O) → HasType (codes "JSON") v

module _ {F O : Type 0} (lib : CastLibrary F O) where
  HasType-same : (t u : Text) (v : FeatureValue F O) → same t u ≡ true → HasType u v → HasType t v
  HasType-same t u v h w = subst (λ n. HasType n v) (sym (same→eq t u h)) w

  float_or_nil-HasType : (o : Option F) → HasType (codes "NUMBER") (float_or_nil lib o)
  float_or_nil-HasType none = is_nil
  float_or_nil-HasType (some x) = is_number x

  -- The cast value is nil or a value of the declared type, for every declared type, known or not.
  pub cast_feature_value-HasType :
      (value_type : Text) (value : FeatureValue F O) (parse_json : Bool)
      → HasType value_type (cast_feature_value lib value_type value parse_json)
  unfolding cast_feature_value
  cast_feature_value-HasType value_type value parse_json = elim (Bool-cases (is_nil_value value)) [
    | inl absent ↦ simp absent is_nil
    | inr present ↦ elim (Bool-cases (same value_type (codes "BOOLEAN"))) [
      | inl t ↦ simp (present, t) (HasType-same value_type (codes "BOOLEAN") _ t (is_boolean _))
      | inr not_boolean ↦ elim (Bool-cases (same value_type (codes "STRING"))) [
        | inl t ↦
            simp (present, not_boolean, t)
              (HasType-same value_type (codes "STRING") _ t (is_string _))
        | inr not_string ↦ elim (Bool-cases (same value_type (codes "NUMBER"))) [
          | inl t ↦
              simp (present, not_boolean, not_string, t)
                (HasType-same value_type (codes "NUMBER") _ t
                  (float_or_nil-HasType (cast_number lib value)))
          | inr not_number ↦ elim (Bool-cases (same value_type (codes "JSON"))) [
            | inl t ↦
                simp (present, not_boolean, not_string, not_number, t)
                  (HasType-same value_type (codes "JSON") _ t (is_json _))
            | inr unknown ↦ simp (present, not_boolean, not_string, not_number, unknown) is_nil
          ]
        ]
      ]
    ]
  ]
