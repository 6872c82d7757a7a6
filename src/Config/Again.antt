-- ===== src/Config/Again.antt =====
-- config/schema.go: a schema applied twice, and a schema applied to an empty configuration.
use fit_go.Base.{
  ◌≡◌, refl, ap, ◌∙◌, true, false, inl, inr, List, [], ◌∷◌, Option, none, some, Text, Dict, lookup,
  ok, All, Bool-cases,
}
use fit_go.Config.Values.{Library}
use fit_go.Config.Constraints.{SchemaField}
use fit_go.Config.Evaluate.{Outcome, absent, rejected, accepted, evaluate}
use fit_go.Config.Schema.{Resolved, Schema}
use fit_go.Config.WellFormed.{keys, AreDistinct, IsUsable, IsWellFormed}
use fit_go.Config.Resolve.{is_rejected, outcome}
use fit_go.Config.Install.{changed_key_refl, apply_schema-Committed, validate_progress-Committed}
use fit_go.Config.Atomic.{IsFaithful, apply_schema-IsFaithful}
use fit_go.Config.Apply.{
  Progress, empty_progress, or_default, add_default, record_outcome, resolve_field, resolve_fields,
  install, refuses, apply_schema,
}

module _ {F V : Type 0} (lib : Library F V) where
  or_default_twice :
      (f : SchemaField F V) (o : Option Text) → or_default f (or_default f o) ≡ or_default f o
  or_default_twice f (some raw) = refl
  or_default_twice f none = elim (Bool-cases f.has_default) [
    | inl with ↦ simp with
    | inr without ↦ simp without
  ]

  add_default_twice :
      (f : SchemaField F V) (o : Option Text) → add_default f (or_default f o) [] ≡ []
  add_default_twice f (some raw) = refl
  add_default_twice f none = elim (Bool-cases f.has_default) [
    | inl with ↦ simp with
    | inr without ↦ simp without
  ]

  forget : Progress F V → Progress F V
  forget p = record p { defaults = [] }

  record_outcome-forget :
      (f : SchemaField F V) (o : Outcome F V) (p : Progress F V) (ds : Dict Text)
      → record_outcome f o (forget p) ≡ forget (record_outcome f o (record p { defaults = ds }))
  unfolding record_outcome forget
  record_outcome-forget f absent p ds = refl
  record_outcome-forget f (rejected m) p ds = refl
  record_outcome-forget f (accepted raw v) p ds = refl

  resolve_field-forget :
      (snapshot after : Dict Text) (f : SchemaField F V) (p : Progress F V)
      → lookup f.key after ≡ or_default f (lookup f.key snapshot)
      → resolve_field lib after f (forget p) ≡ forget (resolve_field lib snapshot f p)
  unfolding resolve_field forget
  resolve_field-forget snapshot after f p h =
      simp
        (h, or_default_twice f (lookup f.key snapshot), add_default_twice f (lookup f.key snapshot))
        (record_outcome-forget f (outcome lib snapshot f) p
          (add_default f (lookup f.key snapshot) p.defaults))

  resolve_fields-forget :
      (snapshot after : Dict Text) (r : Resolved F V) (fs : List (SchemaField F V))
      (p : Progress F V)
      → All (IsFaithful lib snapshot after r) fs
      → resolve_fields lib after fs (forget p) ≡ forget (resolve_fields lib snapshot fs p)
  unfolding resolve_fields
  resolve_fields-forget snapshot after r [] p w = refl
  resolve_fields-forget snapshot after r (f ∷ fs) p (w, ws) =
      ap (resolve_fields lib after fs)
        (resolve_field-forget snapshot after f p (w.agrees ∙ w.effective))
      ∙ resolve_fields-forget snapshot after r fs (resolve_field lib snapshot f p) ws

  -- If the fields' keys are distinct and ApplySchema returned no error, then to apply the schema again
  -- to the configuration that it left gives the same resolved values and changes nothing.
  pub apply_schema_twice :
      (schema : Schema F V) (snapshot now after : Dict Text) (r : Resolved F V)
      → AreDistinct (keys schema.fields)
      → apply_schema lib schema snapshot now ≡ (ok r, after)
      → apply_schema lib schema after after ≡ (ok r, after)
  unfolding apply_schema forget install
  apply_schema_twice schema snapshot now after r d h =
      let c = apply_schema-Committed lib schema snapshot now after r h in
      let p = resolve_fields lib snapshot schema.fields empty_progress in
      let same_progress : resolve_fields lib after schema.fields empty_progress ≡ forget p =
        resolve_fields-forget snapshot after r schema.fields empty_progress
          (apply_schema-IsFaithful lib schema snapshot now after r d h) in
      simp same_progress (
        validate_progress-Committed schema after after after (forget p) r (record {
          clean = c.clean;
          passed = c.passed;
          unchanged = changed_key_refl schema.fields after;
          resolved = c.resolved;
          installed = refl;
        }))

  record_outcome-clean :
      (f : SchemaField F V) (o : Outcome F V) (p : Progress F V)
      → is_rejected o ≡ false
      → p.violations ≡ []
      → (record_outcome f o p).violations ≡ []
  unfolding record_outcome
  record_outcome-clean f absent p h c = c
  record_outcome-clean f (rejected m) p h c = absurd (cc)
  record_outcome-clean f (accepted raw v) p h c = c

  resolve_fields-clean :
      (snapshot : Dict Text) (fs : List (SchemaField F V)) (p : Progress F V)
      → All (λ f. is_rejected (outcome lib snapshot f) ≡ false) fs
      → p.violations ≡ []
      → (resolve_fields lib snapshot fs p).violations ≡ []
  unfolding resolve_fields resolve_field
  resolve_fields-clean snapshot [] p w c = c
  resolve_fields-clean snapshot (f ∷ fs) p (w, ws) c =
      resolve_fields-clean snapshot fs (resolve_field lib snapshot f p) ws
        (record_outcome-clean f (outcome lib snapshot f) _ w c)

  outcome-default :
      (snapshot : Dict Text) (f : SchemaField F V)
      → IsUsable lib f
      → (f.required ≡ true → f.has_default ≡ true)
      → lookup f.key snapshot ≡ none
      → is_rejected (outcome lib snapshot f) ≡ false
  unfolding evaluate
  outcome-default snapshot f u h k = elim (Bool-cases f.has_default) [
    | inl with ↦
        let a = u.default_accepted with in
        let found : or_default f (lookup f.key snapshot) ≡ some f.default_raw = simp (k, with) in
        ap is_rejected (ap (evaluate lib f) found ∙ a.1)
    | inr without ↦ elim (Bool-cases f.required) [
      | inl required ↦ absurd (cc (h required))
      | inr free ↦ simp (k, without, free)
    ]
  ]

  outcomes-default :
      (snapshot : Dict Text) (fs : List (SchemaField F V))
      → All (IsUsable lib) fs
      → All (λ f. f.required ≡ true → f.has_default ≡ true) fs
      → All (λ f. lookup f.key snapshot ≡ none) fs
      → All (λ f. is_rejected (outcome lib snapshot f) ≡ false) fs
  outcomes-default snapshot [] u h k = tt
  outcomes-default snapshot (f ∷ fs) (u, us) (h, hs) (k, ks) =
      (outcome-default snapshot f u h k, outcomes-default snapshot fs us hs ks)

  -- A well-formed schema without a cross-field validator, whose required fields all have a default,
  -- is applied without an error to a configuration that has none of its keys, if nobody writes in
  -- between.
  pub apply_schema-defaults :
      (schema : Schema F V) (now : Dict Text)
      → IsWellFormed lib schema.fields
      → schema.validate ≡ none
      → All (λ f. f.required ≡ true → f.has_default ≡ true) schema.fields
      → All (λ f. lookup f.key now ≡ none) schema.fields
      → (r : Resolved F V) × (after : Dict Text) × (apply_schema lib schema now now ≡ (ok r, after))
  unfolding apply_schema
  apply_schema-defaults schema now w c h k =
      let p = resolve_fields lib now schema.fields empty_progress in
      (
        p.resolved,
        install p.defaults now,
        validate_progress-Committed schema now now (install p.defaults now) p p.resolved (record {
          clean =
              resolve_fields-clean now schema.fields empty_progress
                (outcomes-default now schema.fields w.usable h k) refl;
          passed = ap (λ o. refuses o p.resolved) c;
          unchanged = changed_key_refl schema.fields now;
          resolved = refl;
          installed = refl;
        }),
      )
