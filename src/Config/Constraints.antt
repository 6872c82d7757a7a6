-- ===== src/Config/Constraints.antt =====
-- config/schema.go: SchemaField and the constraints on a parsed value.
use fit_go.Base.{
  ℕ, ◌+◌, Bool, true, false, not, ◌&&◌, List, [], ◌∷◌, ◌++◌, Option, none, some, if◌then◌else◌,
  Text, codes, is_empty, length, ℤ, pos, negsuc, ltb_ℤ, show_nat,
}
use fit_go.Config.Values.{
  ValueKind, Value, string_value, int_value, int64_value, duration_value, float_value,
  strings_value, bool_value, other_value, Library, parse_kind, clone_value,
}

-- A default, by how stringifyDefault prints it: strings and bytes, durations, Stringers, nil, others.
pub data Default (V : Type 0) : Type 0 where
  text_default stringer_default : Text → Default V
  duration_default : ℤ → Default V
  nil_default : Default V
  other_default : V → Default V

-- A field's parser, cloner and validator are the application's: they return none, or the text of the
-- error, when they fail.
pub record SchemaField (F V : Type 0) : Type 0 where
  pub key : Text
  pub kind : ValueKind
  pub required : Bool
  pub default : Default V
  pub has_default : Bool
  pub allowed_values : List Text
  pub pattern : Text
  pub min : Option F
  pub max : Option F
  pub min_length : Option ℤ
  pub max_length : Option ℤ
  pub parser : Option (Text → Option (Value F V))
  pub clone : Option (Value F V → Option (Value F V))
  pub validate : Option (Value F V → Option Text)
  pub description : Text
  pub sensitive : Bool
  pub compiled_pattern : Option (Text → Bool)
  pub default_raw : Text

abbrev show_int : ℤ → Text
show_int (pos n) = show_nat n
show_int (negsuc n) = codes "-" ++ show_nat (n + 1)

abbrev int_below : ℤ → Option ℤ → Bool
int_below n none = false
int_below n (some bound) = ltb_ℤ n bound

abbrev int_above : ℤ → Option ℤ → Bool
int_above n none = false
int_above n (some bound) = ltb_ℤ bound n

abbrev shown : Option ℤ → Text
shown none = []
shown (some n) = show_int n

-- The first violation of a chain of checks.
infixl 5 ◌or_else◌
abbrev pub ◌or_else◌ : Option Text → Option Text → Option Text
(some t) or_else rest = some t
none or_else rest = rest

abbrev pub violated : Bool → Text → Option Text
violated true message = some message
violated false message = none

unfoldable pub length_violation : Option ℤ → Option ℤ → Option ℕ → Option Text
length_violation low high none = none
length_violation low high (some n) =
    violated (int_below (pos n) low) (codes "length must be at least " ++ shown low)
    or_else violated (int_above (pos n) high) (codes "length must be at most " ++ shown high)

module _ {F V : Type 0} (lib : Library F V) where
  -- parseSchemaValue
  unfoldable pub parse_schema_value : SchemaField F V → Text → Option (Value F V)
  parse_schema_value field raw = elim field.parser [
    | some parser ↦ parser raw
    | none ↦ parse_kind lib field.kind raw
  ]

  -- cloneSchemaValue
  unfoldable pub clone_schema_value : SchemaField F V → Value F V → Option (Value F V)
  clone_schema_value field v = clone_value lib field.clone v

  -- stringifyDefault
  unfoldable pub stringify_default : Default V → Option Text
  stringify_default (text_default t) = some t
  stringify_default (stringer_default t) = some t
  stringify_default (duration_default d) = some (lib.show_duration d)
  stringify_default nil_default = some []
  stringify_default (other_default v) = lib.marshal v

  -- numericValue
  unfoldable pub numeric_value : Value F V → Option F
  numeric_value (int_value n) = some (lib.float_of n)
  numeric_value (int64_value n) = some (lib.float_of n)
  numeric_value (float_value x) = some x
  numeric_value (duration_value n) = some (lib.float_of n)
  numeric_value (string_value t) = none
  numeric_value (bool_value b) = none
  numeric_value (strings_value ts) = none
  numeric_value (other_value v) = none

  -- valueLength, with none for -1.
  unfoldable pub value_length : Value F V → Option ℕ
  value_length (string_value t) = some (length t)
  value_length (strings_value ts) = some (length ts)
  value_length (other_value v) = lib.length_other v
  value_length (int_value n) = none
  value_length (int64_value n) = none
  value_length (duration_value n) = none
  value_length (float_value x) = none
  value_length (bool_value b) = none

  unfoldable pub is_allowed : Text → List Text → Bool
  is_allowed raw [] = false
  is_allowed raw (v ∷ vs) =
      let rest = is_allowed raw vs in if lib.equal_fold raw v then true else rest

  abbrev has_members : List Text → Bool
  has_members [] = false
  has_members (v ∷ vs) = true

  abbrev mismatches : Option (Text → Bool) → Text → Bool
  mismatches none raw = false
  mismatches (some matches) raw = not (matches raw)

  abbrev float_below : F → Option F → Option Text
  float_below x none = none
  float_below x (some bound) =
      violated (lib.less x bound) (codes "must be at least " ++ lib.show_float bound)

  abbrev float_above : F → Option F → Option Text
  float_above x none = none
  float_above x (some bound) =
      violated (lib.less bound x) (codes "must be at most " ++ lib.show_float bound)

  unfoldable pub number_violation : Option F → Option F → Option F → Option Text
  number_violation low high none = none
  number_violation low high (some x) =
      violated (not (lib.is_finite x)) (codes "must be finite")
      or_else float_below x low
      or_else float_above x high

  abbrev validator_violation : Bool → Option Text → Option Text
  validator_violation sensitive none = none
  validator_violation sensitive (some e) = some (
      if sensitive
      then codes "failed custom validation"
      else codes "failed custom validation: " ++ e)

  abbrev copied_violation : Bool → (Value F V → Option Text) → Option (Value F V) → Option Text
  copied_violation sensitive validate none =
      some (codes "could not be copied for custom validation")
  copied_violation sensitive validate (some copy) = validator_violation sensitive (validate copy)

  unfoldable pub custom_violation : SchemaField F V → Value F V → Option Text
  custom_violation field parsed = elim field.validate [
    | none ↦ none
    | some validate ↦ copied_violation field.sensitive validate (clone_schema_value field parsed)
  ]

  -- validateSchemaValue: none stands for the empty text.
  unfoldable pub validate_schema_value : SchemaField F V → Text → Value F V → Option Text
  validate_schema_value field raw parsed =
      violated (has_members field.allowed_values && not (is_allowed raw field.allowed_values))
        (codes "is not an allowed value")
      or_else violated (mismatches field.compiled_pattern raw)
          (codes "does not match the required pattern")
      or_else length_violation field.min_length field.max_length (value_length parsed)
      or_else number_violation field.min field.max (numeric_value parsed)
      or_else custom_violation field parsed

-- schemaMessage
abbrev pub schema_message : {F V : Type 0} → Library F V → SchemaField F V → Text → Text
schema_message lib field message =
    (codes "key " ++ lib.quote field.key ++ codes " " ++ message)
    ++ (if is_empty field.description then [] else codes " (" ++ field.description ++ codes ")")
