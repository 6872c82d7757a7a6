-- ===== src/Config/Schema.antt =====
-- config/schema.go: NewSchema and WithValidationMessage.
use fit_go.Base.{
  Bool, true, false, not, ◌||◌, ◌&&◌, List, [], ◌∷◌, Option, none, some, if◌then◌else◌, Text, codes,
  is_empty, trim_space, same, ℤ, pos, ltb_ℤ, Result, ok, err, ◌>>=◌,
}
use fit_go.Config.Values.{ValueKind, string_kind, other_kind, Value, Library, valid_kind}
use fit_go.Config.Constraints.{
  SchemaField, parse_schema_value, clone_schema_value, validate_schema_value, stringify_default,
}

pub data SchemaError : Type 0 where
  no_fields empty_key : SchemaError
  duplicate_field invalid_pattern min_exceeds_max negative_length length_exceeds :
      Text → SchemaError
  invalid_default default_not_owned required_default_empty : Text → SchemaError
  unsupported_kind default_violates : Text → Text → SchemaError

-- Resolved: the three maps, all with the keys of the resolved fields.
pub record Resolved (F V : Type 0) : Type 0 where
  pub values : List (Text × Value F V)
  pub raw : List (Text × Text)
  pub cloners : List (Text × Option (Value F V → Option (Value F V)))

-- `validate` says whether the cross-field validator returns an error, whose text is not used.
pub record Schema (F V : Type 0) : Type 0 where
  pub fields : List (SchemaField F V)
  pub validate : Option (Resolved F V → Bool)
  pub validation_message : Text

abbrev pub member : Text → List Text → Bool
member k [] = false
member k (j ∷ js) = if same j k then true else member k js

abbrev pub refuse : {A : Type 0} → Bool → SchemaError → A → Result SchemaError A
refuse true e a = err e
refuse false e a = ok a

abbrev pub or_string : ValueKind → ValueKind
or_string (other_kind name) = if is_empty name then string_kind else other_kind name
or_string kind = kind

abbrev has_parser : {A : Type 0} → Option A → Bool
has_parser none = false
has_parser (some p) = true

abbrev is_unsupported : ValueKind → Bool → Bool
is_unsupported kind custom = not custom && not (valid_kind kind)

abbrev kind_text : ValueKind → Text
kind_text (other_kind name) = name
kind_text kind = []

abbrev pub is_negative : Option ℤ → Bool
is_negative none = false
is_negative (some n) = ltb_ℤ n (pos 0)

abbrev pub exceeds : Option ℤ → Option ℤ → Bool
exceeds (some low) (some high) = ltb_ℤ high low
exceeds none high = false
exceeds (some low) none = false

module _ {F V : Type 0} (lib : Library F V) where
  abbrev float_exceeds : Option F → Option F → Bool
  float_exceeds (some low) (some high) = lib.less high low
  float_exceeds none high = false
  float_exceeds (some low) none = false

  abbrev pub with_pattern :
      SchemaField F V → Option (Text → Bool) → Result SchemaError (SchemaField F V)
  with_pattern field none = err (invalid_pattern field.key)
  with_pattern field (some pattern) = ok (record field { compiled_pattern = some pattern })

  -- The pattern is compiled if there is one.
  unfoldable pub compile_pattern : SchemaField F V → Result SchemaError (SchemaField F V)
  compile_pattern field =
      if is_empty field.pattern then ok field else with_pattern field (lib.compile field.pattern)

  abbrev pub accept_default :
      SchemaField F V → Text → Option Text → Result SchemaError (SchemaField F V)
  accept_default field raw (some violation) = err (default_violates field.key violation)
  accept_default field raw none =
      if field.required && is_empty (trim_space raw)
      then err (required_default_empty field.key)
      else ok (record field { default_raw = raw })

  abbrev pub own_default :
      SchemaField F V → Text → Option (Value F V) → Result SchemaError (SchemaField F V)
  own_default field raw none = err (default_not_owned field.key)
  own_default field raw (some v) = accept_default field raw (validate_schema_value lib field raw v)

  abbrev pub parse_default :
      SchemaField F V → Text → Option (Value F V) → Result SchemaError (SchemaField F V)
  parse_default field raw none = err (invalid_default field.key)
  parse_default field raw (some v) = own_default field raw (clone_schema_value lib field v)

  abbrev pub print_default : SchemaField F V → Option Text → Result SchemaError (SchemaField F V)
  print_default field none = err (invalid_default field.key)
  print_default field (some raw) = parse_default field raw (parse_schema_value lib field raw)

  -- The part of the loop's body that is about the default.
  unfoldable pub check_default : SchemaField F V → Result SchemaError (SchemaField F V)
  check_default field =
      if field.has_default
      then print_default field (stringify_default lib field.default)
      else ok field

  unfoldable pub check_key : List Text → SchemaField F V → Result SchemaError (SchemaField F V)
  check_key seen field =
      refuse (is_empty field.key) empty_key field
      >>= (λ f. refuse (member f.key seen) (duplicate_field f.key) f)

  unfoldable pub check_kind : SchemaField F V → Result SchemaError (SchemaField F V)
  check_kind field =
      refuse (is_unsupported field.kind (has_parser field.parser))
        (unsupported_kind field.key (kind_text field.kind)) field

  unfoldable pub check_range : SchemaField F V → Result SchemaError (SchemaField F V)
  check_range field = refuse (float_exceeds field.min field.max) (min_exceeds_max field.key) field

  unfoldable pub check_lengths : SchemaField F V → Result SchemaError (SchemaField F V)
  check_lengths field =
      refuse (is_negative field.min_length || is_negative field.max_length)
        (negative_length field.key) field
      >>= (λ f. refuse (exceeds f.min_length f.max_length) (length_exceeds f.key) f)

  -- The loop's body before the default.
  unfoldable pub check_field : List Text → SchemaField F V → Result SchemaError (SchemaField F V)
  check_field seen given =
      check_key seen (record given { key = trim_space given.key; kind = or_string given.kind })
      >>= check_kind
      >>= compile_pattern
      >>= check_range
      >>= check_lengths

  unfoldable pub check_fields :
      List Text → List (SchemaField F V) → Result SchemaError (List (SchemaField F V))
  check_fields seen [] = ok []
  check_fields seen (given ∷ rest) =
      check_field seen given
      >>= check_default
      >>= (λ f. check_fields (f.key ∷ seen) rest >>= (λ fs. ok (f ∷ fs)))

  unfoldable pub new_schema : List (SchemaField F V) → Result SchemaError (Schema F V)
  new_schema [] = err no_fields
  new_schema (given ∷ rest) =
      check_fields [] (given ∷ rest)
      >>= (λ fs. ok (record { fields = fs; validate = none; validation_message = [] }))

-- WithValidationMessage
unfoldable pub with_validation_message :
    {F V : Type 0} → Schema F V → Text → Option (Resolved F V → Bool) → Schema F V
with_validation_message schema message validate = record {
  fields = schema.fields;
  validate = validate;
  validation_message =
      if is_empty (trim_space message)
      then codes "cross-field validation failed"
      else trim_space message;
}
