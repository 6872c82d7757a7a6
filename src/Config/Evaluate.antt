-- ===== src/Config/Evaluate.antt =====
-- config/schema.go: what ApplySchema makes of one field.
use fit_go.Base.{◌&&◌, ◌++◌, Option, none, some, if◌then◌else◌, Text, codes, is_empty, trim_space}
use fit_go.Config.Values.{
  ValueKind, string_kind, int_kind, int64_kind, float_kind, bool_kind, duration_kind,
  string_slice_kind, json_kind, other_kind, Value, Library,
}
use fit_go.Config.Constraints.{
  SchemaField, parse_schema_value, clone_schema_value, validate_schema_value, schema_message,
}

pub data Outcome (F V : Type 0) : Type 0 where
  absent : Outcome F V
  rejected : Text → Outcome F V
  accepted : Text → Value F V → Outcome F V

abbrev pub kind_name : ValueKind → Text
kind_name string_kind = codes "string"
kind_name int_kind = codes "int"
kind_name int64_kind = codes "int64"
kind_name float_kind = codes "float"
kind_name bool_kind = codes "bool"
kind_name duration_kind = codes "duration"
kind_name string_slice_kind = codes "string_slice"
kind_name json_kind = codes "json"
kind_name (other_kind name) = name

module _ {F V : Type 0} (lib : Library F V) (field : SchemaField F V) where
  unfoldable pub validated : Text → Value F V → Option Text → Outcome F V
  validated raw v none = accepted raw v
  validated raw v (some violation) = rejected (schema_message lib field violation)

  unfoldable pub cloned : Text → Option (Value F V) → Outcome F V
  cloned raw none =
      rejected (schema_message lib field (codes "returned a value that cannot be owned safely"))
  cloned raw (some v) = validated raw v (validate_schema_value lib field raw v)

  unfoldable pub parsed : Text → Option (Value F V) → Outcome F V
  parsed raw none =
      rejected (
        schema_message lib field (codes "has invalid " ++ (kind_name field.kind ++ codes " value")))
  parsed raw (some v) = cloned raw (clone_schema_value lib field v)

  -- The loop's body after the defaults.
  unfoldable pub evaluate : Option Text → Outcome F V
  evaluate none =
      if field.required then rejected (schema_message lib field (codes "is required")) else absent
  evaluate (some raw) =
      if field.required && is_empty (trim_space raw)
      then rejected (schema_message lib field (codes "must not be empty"))
      else parsed raw (parse_schema_value lib field raw)
