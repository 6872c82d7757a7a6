-- ===== src/Config/Atomic.antt =====
-- config/schema.go: ApplySchema resolves all fields or changes nothing.
use fit_go.Base.{
  ◌≡◌, refl, sym, ap, subst, ◌∙◌, false, inl, inr, List, [], ◌∷◌, Option, none, some, Text, same,
  Dict, lookup, ok, All, Bool-cases,
}
use fit_go.Config.Values.{Value, Library}
use fit_go.Config.Constraints.{SchemaField}
use fit_go.Config.Evaluate.{Outcome, absent, rejected, accepted}
use fit_go.Config.Schema.{Resolved, Schema}
use fit_go.Config.WellFormed.{keys, AreDistinct}
use fit_go.Config.Resolve.{
  IsClear, pending, value_of, is_rejected, outcome, IsResolved, resolve_fields-IsResolved,
}
use fit_go.Config.Install.{
  ◌or◌, lookup-install, changed_key-none, Committed, apply_schema-Committed,
}
use fit_go.Config.Satisfied.{Satisfies, evaluate-Satisfies, raw_of-evaluate}
use fit_go.Config.Apply.{
  Progress, empty_progress, or_default, resolve_fields, changed_key, fails_cross, unless_changed,
  commit, validate_progress, apply_schema,
}

module _ {F V : Type 0} (lib : Library F V) where
  fields-IsClear :
      (fs : List (SchemaField F V))
      → All (λ (f : SchemaField F V). IsClear (empty_progress {F = F} {V = V}) f.key) fs
  unfolding lookup
  fields-IsClear [] = tt
  fields-IsClear (f ∷ fs) =
      (record { raw = refl; values = refl; defaults = refl }, fields-IsClear fs)

  -- Of one field: what was resolved, and what the configuration holds in the end.
  pub record IsSettled (snapshot after : Dict Text) (r : Resolved F V) (f : SchemaField F V)
      : Type 0 where
    pub effective : lookup f.key r.raw ≡ or_default f (lookup f.key snapshot)
    pub agrees : lookup f.key r.raw ≡ lookup f.key after
    pub valued : lookup f.key r.values ≡ value_of (outcome lib snapshot f)
    pub settled : is_rejected (outcome lib snapshot f) ≡ false

  or-pending :
      (f : SchemaField F V) (found : Option Text) → (found or pending f found) ≡ or_default f found
  or-pending f none = refl
  or-pending f (some raw) = refl

  field-IsSettled :
      (schema : Schema F V) (snapshot now after : Dict Text) (r : Resolved F V)
      (f : SchemaField F V)
      → Committed schema snapshot now after
          (resolve_fields lib snapshot schema.fields empty_progress)
          r
      → IsResolved lib snapshot (resolve_fields lib snapshot schema.fields empty_progress) f
      → lookup f.key snapshot ≡ lookup f.key now
      → IsSettled snapshot after r f
  field-IsSettled schema snapshot now after r f c i same =
      let p = resolve_fields lib snapshot schema.fields empty_progress in
      let raw : lookup f.key r.raw ≡ or_default f (lookup f.key snapshot) =
        ap (λ (x : Resolved F V). lookup f.key x.raw) (sym c.resolved)
        ∙ (i.raw
            ∙ raw_of-evaluate lib f (or_default f (lookup f.key snapshot)) (outcome lib snapshot f)
                refl i.settled) in
      let installed : lookup f.key after ≡ or_default f (lookup f.key snapshot) =
        ap (lookup f.key) (sym c.installed)
        ∙ (lookup-install p.defaults now f.key
            ∙ (ap (λ o. o or lookup f.key p.defaults) (sym same)
                ∙ (ap (λ o. lookup f.key snapshot or o) i.defaults
                    ∙ or-pending f (lookup f.key snapshot)))) in
      record {
        effective = raw;
        agrees = raw ∙ sym installed;
        valued = ap (λ (x : Resolved F V). lookup f.key x.values) (sym c.resolved) ∙ i.values;
        settled = i.settled;
      }

  fields-IsSettled :
      (schema : Schema F V) (snapshot now after : Dict Text) (r : Resolved F V)
      (fs : List (SchemaField F V))
      → Committed schema snapshot now after
          (resolve_fields lib snapshot schema.fields empty_progress)
          r
      → All (IsResolved lib snapshot (resolve_fields lib snapshot schema.fields empty_progress)) fs
      → All (λ f. lookup f.key snapshot ≡ lookup f.key now) fs
      → All (IsSettled snapshot after r) fs
  fields-IsSettled schema snapshot now after r [] c i same = tt
  fields-IsSettled schema snapshot now after r (f ∷ fs) c (i, is) (s, ss) = (
    field-IsSettled schema snapshot now after r f c i s,
    fields-IsSettled schema snapshot now after r fs c is ss,
  )

  pub apply_schema-IsSettled :
      (schema : Schema F V) (snapshot now after : Dict Text) (r : Resolved F V)
      → AreDistinct (keys schema.fields)
      → apply_schema lib schema snapshot now ≡ (ok r, after)
      → All (IsSettled snapshot after r) schema.fields
  apply_schema-IsSettled schema snapshot now after r d h =
      let c = apply_schema-Committed lib schema snapshot now after r h in
      fields-IsSettled schema snapshot now after r schema.fields c
        (resolve_fields-IsResolved lib snapshot schema.fields empty_progress d
          (fields-IsClear schema.fields) c.clean)
        (changed_key-none schema.fields snapshot now c.unchanged)

  -- What a successful ApplySchema promises of one field: the raw text is the one that the
  -- configuration had or else the default, the configuration now holds the same, and the value
  -- satisfies the field.
  pub record IsFaithful (snapshot after : Dict Text) (r : Resolved F V) (f : SchemaField F V)
      : Type 0 where
    pub effective : lookup f.key r.raw ≡ or_default f (lookup f.key snapshot)
    pub agrees : lookup f.key after ≡ lookup f.key r.raw
    pub valued :
        (s : Text)
        → lookup f.key r.raw ≡ some s
        → (v : Value F V) × (lookup f.key r.values ≡ some v) × Satisfies lib f s v

  IsFaithful-outcome :
      (snapshot after : Dict Text) (r : Resolved F V) (f : SchemaField F V) (o : Outcome F V)
      → IsSettled snapshot after r f
      → outcome lib snapshot f ≡ o
      → IsFaithful snapshot after r f
  IsFaithful-outcome snapshot after r f absent w e = record {
    effective = w.effective;
    agrees = sym w.agrees;
    valued = λ s h.
        let none_found =
          raw_of-evaluate lib f (or_default f (lookup f.key snapshot)) absent e refl in
        absurd (cc (w.effective, none_found, h));
  }
  IsFaithful-outcome snapshot after r f (rejected m) w e = absurd (cc (simp e at w.settled))
  IsFaithful-outcome snapshot after r f (accepted t v) w e = record {
    effective = w.effective;
    agrees = sym w.agrees;
    valued = λ s h.
        let found = evaluate-Satisfies lib f (or_default f (lookup f.key snapshot)) t v e in
        let same_text : some t ≡ some s = cc (found.0, w.effective, h) in
        let text : t ≡ s = cc in
        (v, w.valued ∙ ap value_of e, subst (λ x. Satisfies lib f x v) text found.1);
  }

  fields-IsFaithful :
      (snapshot after : Dict Text) (r : Resolved F V) (fs : List (SchemaField F V))
      → All (IsSettled snapshot after r) fs
      → All (IsFaithful snapshot after r) fs
  fields-IsFaithful snapshot after r [] w = tt
  fields-IsFaithful snapshot after r (f ∷ fs) (w, ws) = (
    IsFaithful-outcome snapshot after r f (outcome lib snapshot f) w refl,
    fields-IsFaithful snapshot after r fs ws,
  )

  -- If the fields' keys are distinct and ApplySchema returns no error, then, whatever was written
  -- since it copied the values, for each field: the resolved raw text is the text that the key had or
  -- else the default; the configuration holds exactly that under the key when ApplySchema returns;
  -- and if there is one, there is a resolved value that was parsed from it, could be copied, and
  -- meets every constraint, the text of a required field not being blank.
  pub apply_schema-IsFaithful :
      (schema : Schema F V) (snapshot now after : Dict Text) (r : Resolved F V)
      → AreDistinct (keys schema.fields)
      → apply_schema lib schema snapshot now ≡ (ok r, after)
      → All (IsFaithful snapshot after r) schema.fields
  apply_schema-IsFaithful schema snapshot now after r d h =
      fields-IsFaithful snapshot after r schema.fields
        (apply_schema-IsSettled schema snapshot now after r d h)

  unless_changed-keeps :
      (p : Progress F V) (now : Dict Text) (o : Option Text) (k v : Text)
      → lookup k now ≡ some v
      → lookup k (unless_changed p now o).1 ≡ some v
  unless_changed-keeps p now (some key) k v h = h
  unless_changed-keeps p now none k v h = simp (lookup-install p.defaults now k, h)

  validate_progress-keeps :
      (schema : Schema F V) (snapshot : Dict Text) (p : Progress F V) (now : Dict Text)
      (vs : List Text) (k v : Text)
      → lookup k now ≡ some v
      → lookup k (validate_progress schema snapshot p now vs).1 ≡ some v
  unfolding validate_progress commit
  validate_progress-keeps schema snapshot p now (w ∷ ws) k v h = h
  validate_progress-keeps schema snapshot p now [] k v h =
      elim (Bool-cases (fails_cross schema p.resolved)) [
        | inl fails ↦ simp fails h
        | inr passes ↦
            simp passes (unless_changed-keeps p now (changed_key schema.fields snapshot now) k v h)
      ]

  -- Whatever ApplySchema returns, and whatever was written since it copied the values, a key of the
  -- configuration that has a value keeps it.
  pub apply_schema-keeps :
      (schema : Schema F V) (snapshot now : Dict Text) (k v : Text)
      → lookup k now ≡ some v
      → lookup k (apply_schema lib schema snapshot now).1 ≡ some v
  unfolding apply_schema
  apply_schema-keeps schema snapshot now k v h =
      let p = resolve_fields lib snapshot schema.fields empty_progress in
      validate_progress-keeps schema snapshot p now p.violations k v h
