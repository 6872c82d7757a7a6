-- ===== src/Config/Tests.antt =====
-- config/schema.go: one schema, and the configurations that it is applied to.
use fit_go.Base.{
  ℕ, ◌≡◌, refl, Bool, true, false, List, [], ◌∷◌, none, some, Text, codes, same, lookup, insert,
  Dict, ok, All, trim_space, split_on, parse_int, parse_digits, all_digits, decimal_value, ℤ, pos,
  negsuc, ltb_ℤ,
}
use fit_go.Config.Values.{
  ValueKind, string_kind, int_kind, bool_kind, json_kind, json_number, value_of_json, map_option,
  string_value, int_value, Library, parse_kind, clone_value, clone_reflect, parse_bool,
  scale_milliseconds, trimmed_words,
}
use fit_go.Config.Constraints.{
  Default, text_default, nil_default, other_default, SchemaField, stringify_default,
  parse_schema_value, clone_schema_value, validate_schema_value, length_violation, value_length,
  number_violation, numeric_value, custom_violation, is_allowed,
}
use fit_go.Config.Evaluate.{evaluate, parsed, cloned, validated}
use fit_go.Config.Schema.{
  Resolved, Schema, new_schema, check_fields, check_field, check_key, check_kind, compile_pattern,
  check_range, check_lengths, check_default,
}
use fit_go.Config.WellFormed.{keys, AreDistinct, IsWellFormed, new_schema-IsWellFormed}
use fit_go.Config.Apply.{
  apply_schema, validate_progress, resolve_fields, resolve_field, record_outcome, changed_key,
  commit, install,
}
use fit_go.Config.Atomic.{IsFaithful, apply_schema-IsFaithful, apply_schema-keeps}
use fit_go.Config.Durations.{exact_scale, scale_milliseconds_exact}
use fit_go.Config.Again.{apply_schema_twice, apply_schema-defaults}

-- A small library: its floats are integers and its other values are numbers.
abbrev plain : Library ℤ ℕ
plain = record {
  parse_float = λ t. none;
  is_finite = λ x. true;
  float_of = λ n. n;
  less = ltb_ℤ;
  show_float = λ x. [];
  parse_duration = λ t. none;
  show_duration = λ n. [];
  unmarshal = λ t. none;
  unmarshal_strings = λ t. none;
  marshal = λ n. some (codes "8080");
  compile = λ t. none;
  equal_fold = same;
  quote = λ t. t;
  clone_other = λ n. some n;
  length_other = λ n. none;
}

abbrev field : Text → ValueKind → Bool → Bool → Default ℕ → Text → SchemaField ℤ ℕ
field key kind required has_default default raw = record {
  key = key;
  kind = kind;
  required = required;
  default = default;
  has_default = has_default;
  allowed_values = [];
  pattern = [];
  min = some (pos 1);
  max = none;
  min_length = none;
  max_length = some (pos 20);
  parser = none;
  clone = none;
  validate = none;
  description = [];
  sensitive = false;
  compiled_pattern = none;
  default_raw = raw;
}

abbrev given : List (SchemaField ℤ ℕ)
given =
    field (codes " PORT") int_kind false true (other_default 8080) []
    ∷ field (codes "NAME") string_kind true true (text_default (codes "api")) []
    ∷ field (codes "DEBUG") bool_kind false false nil_default []
    ∷ []

abbrev schema : Schema ℤ ℕ
schema = record {
  fields =
      field (codes "PORT") int_kind false true (other_default 8080) (codes "8080")
      ∷ field (codes "NAME") string_kind true true (text_default (codes "api")) (codes "api")
      ∷ field (codes "DEBUG") bool_kind false false nil_default []
      ∷ [];
  validate = none;
  validation_message = [];
}

abbrev before : Dict Text
before = (codes "NAME", codes "worker") ∷ []

-- Another goroutine wrote a key that the schema does not have.
abbrev now : Dict Text
now = (codes "NAME", codes "worker") ∷ (codes "OTHER", codes "1") ∷ []

abbrev after : Dict Text
after =
    (codes "NAME", codes "worker") ∷ (codes "OTHER", codes "1") ∷ (codes "PORT", codes "8080") ∷ []

abbrev resolved : Resolved ℤ ℕ
resolved = record {
  values =
      (codes "PORT", int_value (pos 8080)) ∷ (codes "NAME", string_value (codes "worker")) ∷ [];
  raw = (codes "PORT", codes "8080") ∷ (codes "NAME", codes "worker") ∷ [];
  cloners = (codes "PORT", none) ∷ (codes "NAME", none) ∷ [];
}

schema-IsNew : new_schema plain given ≡ ok schema
unfolding new_schema check_fields check_field check_key check_kind compile_pattern check_range
    check_lengths check_default stringify_default parse_schema_value parse_kind clone_schema_value
    clone_value clone_reflect validate_schema_value length_violation value_length number_violation
    numeric_value custom_violation parse_int parse_digits all_digits decimal_value trim_space same
    is_allowed
schema-IsNew = refl

schema-AreDistinct : AreDistinct (keys schema.fields)
unfolding same
schema-AreDistinct = (refl, (refl, (refl, tt)))

applied : apply_schema plain schema before now ≡ (ok resolved, after)
unfolding apply_schema validate_progress resolve_fields resolve_field record_outcome evaluate parsed
    cloned validated changed_key commit install lookup insert parse_schema_value parse_kind
    clone_schema_value clone_value clone_reflect validate_schema_value length_violation value_length
    number_violation numeric_value custom_violation parse_int parse_digits all_digits decimal_value
    trim_space same is_allowed
applied = refl

-- Each text is the JSON of the number zero.
abbrev zeros : Library ℤ ℕ
zeros = record plain { unmarshal = λ t. some (json_number (pos 0)) }

-- The bounds of a field apply to a number of JSON: zero is less than one.
json_number_checked :
    map_option
      (validate_schema_value zeros
        (field (codes "LIMIT") json_kind true false nil_default [])
        (codes "0"))
      (parse_kind zeros json_kind (codes "0"))
    ≡ some (some (codes "must be at least "))
unfolding validate_schema_value parse_kind value_of_json length_violation value_length
    number_violation numeric_value is_allowed
json_number_checked = refl

new_schema-IsWellFormed_example : IsWellFormed plain schema.fields
new_schema-IsWellFormed_example = new_schema-IsWellFormed plain given schema schema-IsNew

apply_schema-IsFaithful_example : All (IsFaithful plain before after resolved) schema.fields
apply_schema-IsFaithful_example =
    apply_schema-IsFaithful plain schema before now after resolved schema-AreDistinct applied

apply_schema-keeps_example :
    lookup (codes "OTHER") (apply_schema plain schema before now).1 ≡ some (codes "1")
unfolding lookup same
apply_schema-keeps_example =
    apply_schema-keeps plain schema before now (codes "OTHER") (codes "1") refl

apply_schema_twice_example : apply_schema plain schema after after ≡ (ok resolved, after)
apply_schema_twice_example =
    apply_schema_twice plain schema before now after resolved schema-AreDistinct applied

apply_schema-defaults_example :
    (r : Resolved ℤ ℕ) × (left : Dict Text) × (apply_schema plain schema [] [] ≡ (ok r, left))
unfolding lookup
apply_schema-defaults_example =
    apply_schema-defaults plain schema [] (new_schema-IsWellFormed plain given schema schema-IsNew)
      refl ((λ r. refl), ((λ r. refl), ((λ r. absurd (cc)), tt))) (refl, (refl, (refl, tt)))

scale_milliseconds_exact_example :
    scale_milliseconds (negsuc 9223372036854) ≡ exact_scale (negsuc 9223372036854)
scale_milliseconds_exact_example = scale_milliseconds_exact (negsuc 9223372036854)

parse_bool-true : parse_bool (codes " Yes ") ≡ some true
unfolding parse_bool same trim_space
parse_bool-true = refl

trimmed_words_split :
    trimmed_words (split_on b',' (codes "a, b,,c")) ≡ codes "a" ∷ codes "b" ∷ codes "c" ∷ []
unfolding trimmed_words split_on trim_space
trimmed_words_split = refl
