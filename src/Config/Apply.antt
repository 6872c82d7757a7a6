-- ===== src/Config/Apply.antt =====
-- config/schema.go: ApplySchema, with what others write between its two locked sections.
use fit_go.Base.{
  Bool, true, false, List, [], ◌∷◌, ◌++◌, Option, none, some, if◌then◌else◌, Text, same, Dict,
  lookup, insert, Result, ok, err,
}
use fit_go.Config.Values.{Library}
use fit_go.Config.Constraints.{SchemaField}
use fit_go.Config.Evaluate.{Outcome, absent, rejected, accepted, evaluate}
use fit_go.Config.Schema.{Resolved, Schema}

pub data ApplyError : Type 0 where
  invalid : List Text → ApplyError
  changed : Text → ApplyError

-- The loop's variables: the defaults to install, what is resolved, and the violations.
pub record Progress (F V : Type 0) : Type 0 where
  pub defaults : Dict Text
  pub resolved : Resolved F V
  pub violations : List Text

abbrev pub same_option : Option Text → Option Text → Bool
same_option none none = true
same_option none (some b) = false
same_option (some a) none = false
same_option (some a) (some b) = same a b

module _ {F V : Type 0} where
  abbrev pub empty_progress : Progress F V
  empty_progress = record {
    defaults = [];
    resolved = record { values = []; raw = []; cloners = [] };
    violations = [];
  }

  abbrev pub default_of : SchemaField F V → Option Text
  default_of field = if field.has_default then some field.default_raw else none

  abbrev pub or_default : SchemaField F V → Option Text → Option Text
  or_default field none = default_of field
  or_default field (some raw) = some raw

  -- `defaults` with the field's default, if the key is absent and there is one.
  abbrev pub add_default : SchemaField F V → Option Text → Dict Text → Dict Text
  add_default field (some raw) defaults = defaults
  add_default field none defaults =
      if field.has_default then insert field.key field.default_raw defaults else defaults

  unfoldable pub record_outcome : SchemaField F V → Outcome F V → Progress F V → Progress F V
  record_outcome field absent p = p
  record_outcome field (rejected message) p = record p { violations = p.violations ++ message ∷ [] }
  record_outcome field (accepted raw v) p = record p {
    resolved = record {
      values = insert field.key v p.resolved.values;
      raw = insert field.key raw p.resolved.raw;
      cloners = insert field.key field.clone p.resolved.cloners;
    };
  }

module _ {F V : Type 0} (lib : Library F V) (snapshot : Dict Text) where
  -- The loop's body.
  unfoldable pub resolve_field : SchemaField F V → Progress F V → Progress F V
  resolve_field field p =
      record_outcome field (evaluate lib field (or_default field (lookup field.key snapshot)))
        (record p { defaults = add_default field (lookup field.key snapshot) p.defaults })

  unfoldable pub resolve_fields : List (SchemaField F V) → Progress F V → Progress F V
  resolve_fields [] p = p
  resolve_fields (field ∷ rest) p = resolve_fields rest (resolve_field field p)

-- The first key whose value is not the one of the snapshot.
unfoldable pub changed_key :
    {F V : Type 0} → List (SchemaField F V) → Dict Text → Dict Text → Option Text
changed_key [] snapshot now = none
changed_key (field ∷ rest) snapshot now =
    let later = changed_key rest snapshot now in
    if same_option (lookup field.key snapshot) (lookup field.key now) then later else some field.key

abbrev pub insert_absent : Option Text → Text → Text → Dict Text → Dict Text
insert_absent (some v) k w now = now
insert_absent none k w now = insert k w now

-- The defaults go to the keys that are absent.
unfoldable pub install : Dict Text → Dict Text → Dict Text
install [] now = now
install ((k, v) ∷ defaults) now = install defaults (insert_absent (lookup k now) k v now)

abbrev pub refuses : {F V : Type 0} → Option (Resolved F V → Bool) → Resolved F V → Bool
refuses none resolved = false
refuses (some validate) resolved = validate resolved

abbrev pub fails_cross : {F V : Type 0} → Schema F V → Resolved F V → Bool
fails_cross schema resolved = refuses schema.validate resolved

module _ {F V : Type 0} where
  abbrev pub unless_changed :
      Progress F V → Dict Text → Option Text → Result ApplyError (Resolved F V) × Dict Text
  unless_changed p now (some key) = (err (changed key), now)
  unless_changed p now none = (ok p.resolved, install p.defaults now)

  -- The second locked section, on what the configuration holds by then.
  unfoldable pub commit :
      Schema F V
      → Dict Text
      → Progress F V
      → Dict Text
      → Result ApplyError (Resolved F V) × Dict Text
  commit schema snapshot p now = unless_changed p now (changed_key schema.fields snapshot now)

  unfoldable pub validate_progress :
      Schema F V
      → Dict Text
      → Progress F V
      → Dict Text
      → List Text
      → Result ApplyError (Resolved F V) × Dict Text
  validate_progress schema snapshot p now (v ∷ vs) = (err (invalid (v ∷ vs)), now)
  validate_progress schema snapshot p now [] =
      if fails_cross schema p.resolved
      then (err (invalid (schema.validation_message ∷ [])), now)
      else commit schema snapshot p now

-- `snapshot` is config.values when it is copied, `now` when the second section begins; the result
-- comes with the values that ApplySchema leaves.
unfoldable pub apply_schema :
    {F V : Type 0}
    → Library F V
    → Schema F V
    → Dict Text
    → Dict Text
    → Result ApplyError (Resolved F V) × Dict Text
apply_schema lib schema snapshot now =
    let p = resolve_fields lib snapshot schema.fields empty_progress in
    validate_progress schema snapshot p now p.violations
