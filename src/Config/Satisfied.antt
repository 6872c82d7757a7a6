-- ===== src/Config/Satisfied.antt =====
-- config/schema.go: what an accepted text of a field satisfies.
use fit_go.Base.{
  ◌≡◌, ◌≢◌, refl, sym, ap, subst, false, ◌&&◌, inl, inr, Option, none, some, Text, is_empty,
  trim_space, Bool-cases,
}
use fit_go.Config.Values.{Value, Library}
use fit_go.Config.Constraints.{
  SchemaField, parse_schema_value, clone_schema_value, validate_schema_value,
}
use fit_go.Config.Evaluate.{
  Outcome, absent, rejected, accepted, validated, cloned, parsed, evaluate,
}
use fit_go.Config.Resolve.{raw_of, is_rejected}

module _ {F V : Type 0} (lib : Library F V) where
  -- An accepted text satisfies the field: it parses, the value can be copied, the copy meets every
  -- constraint, and the text of a required field is not blank.
  pub record Satisfies (f : SchemaField F V) (raw : Text) (v : Value F V) : Type 0 where
    pub given : Value F V
    pub parses : parse_schema_value lib f raw ≡ some given
    pub copies : clone_schema_value lib f given ≡ some v
    pub meets : validate_schema_value lib f raw v ≡ none
    pub filled : (f.required && is_empty (trim_space raw)) ≡ false

  validated-Satisfies :
      (f : SchemaField F V) (raw : Text) (u v : Value F V) (o : Option Text) (s : Text)
      (w : Value F V)
      → validate_schema_value lib f raw v ≡ o
      → clone_schema_value lib f u ≡ some v
      → parse_schema_value lib f raw ≡ some u
      → (f.required && is_empty (trim_space raw)) ≡ false
      → validated lib f raw v o ≡ accepted s w
      → (raw ≡ s) × Satisfies f s w
  unfolding validated
  validated-Satisfies f raw u v (some violation) s w o c p r h = absurd (cc)
  validated-Satisfies f raw u v none s w o c p r h =
      let e : raw ≡ s = cc in
      let d : v ≡ w = cc in
      (
        e,
        subst (λ x. Satisfies f x w) e
            (subst (λ x. Satisfies f raw x) d
              (record { given = u; parses = p; copies = c; meets = o; filled = r })),
      )

  cloned-Satisfies :
      (f : SchemaField F V) (raw : Text) (u : Value F V) (o : Option (Value F V)) (s : Text)
      (w : Value F V)
      → clone_schema_value lib f u ≡ o
      → parse_schema_value lib f raw ≡ some u
      → (f.required && is_empty (trim_space raw)) ≡ false
      → cloned lib f raw o ≡ accepted s w
      → (raw ≡ s) × Satisfies f s w
  unfolding cloned
  cloned-Satisfies f raw u none s w c p r h = absurd (cc)
  cloned-Satisfies f raw u (some v) s w c p r h =
      validated-Satisfies f raw u v (validate_schema_value lib f raw v) s w refl c p r h

  parsed-Satisfies :
      (f : SchemaField F V) (raw : Text) (o : Option (Value F V)) (s : Text) (w : Value F V)
      → parse_schema_value lib f raw ≡ o
      → (f.required && is_empty (trim_space raw)) ≡ false
      → parsed lib f raw o ≡ accepted s w
      → (raw ≡ s) × Satisfies f s w
  unfolding parsed
  parsed-Satisfies f raw none s w p r h = absurd (cc)
  parsed-Satisfies f raw (some u) s w p r h =
      cloned-Satisfies f raw u (clone_schema_value lib f u) s w refl p r h

  pub evaluate-Satisfies :
      (f : SchemaField F V) (o : Option Text) (s : Text) (w : Value F V)
      → evaluate lib f o ≡ accepted s w
      → (o ≡ some s) × Satisfies f s w
  unfolding evaluate
  evaluate-Satisfies f none s w h = elim (Bool-cases f.required) [
    | inl required ↦ absurd (cc (simp required at h))
    | inr free ↦ absurd (cc (simp free at h))
  ]
  evaluate-Satisfies f (some raw) s w h =
      elim (Bool-cases (f.required && is_empty (trim_space raw))) [
        | inl blank ↦ absurd (cc (simp blank at h))
        | inr filled ↦
            let r =
              parsed-Satisfies f raw (parse_schema_value lib f raw) s w refl filled
                (simp filled at h) in
            (ap some r.0, r.1)
      ]

  validated-ne-absent :
      (f : SchemaField F V) (raw : Text) (v : Value F V) (o : Option Text)
      → validated lib f raw v o ≢ absent
  unfolding validated
  validated-ne-absent f raw v none e = cc
  validated-ne-absent f raw v (some m) e = cc

  cloned-ne-absent :
      (f : SchemaField F V) (raw : Text) (o : Option (Value F V)) → cloned lib f raw o ≢ absent
  unfolding cloned
  cloned-ne-absent f raw none e = cc
  cloned-ne-absent f raw (some v) e =
      validated-ne-absent f raw v (validate_schema_value lib f raw v) e

  parsed-ne-absent :
      (f : SchemaField F V) (raw : Text) (o : Option (Value F V)) → parsed lib f raw o ≢ absent
  unfolding parsed
  parsed-ne-absent f raw none e = cc
  parsed-ne-absent f raw (some v) e = cloned-ne-absent f raw (clone_schema_value lib f v) e

  evaluate-absent : (f : SchemaField F V) (o : Option Text) → evaluate lib f o ≡ absent → o ≡ none
  unfolding evaluate
  evaluate-absent f none h = refl
  evaluate-absent f (some raw) h = elim (Bool-cases (f.required && is_empty (trim_space raw))) [
    | inl blank ↦ absurd (cc (simp blank at h))
    | inr filled ↦ absurd (parsed-ne-absent f raw (parse_schema_value lib f raw) (simp filled at h))
  ]

  -- What is resolved is the text that the field has, with its default.
  pub raw_of-evaluate :
      (f : SchemaField F V) (o : Option Text) (r : Outcome F V)
      → evaluate lib f o ≡ r
      → is_rejected r ≡ false
      → raw_of r ≡ o
  raw_of-evaluate f o absent e h = sym (evaluate-absent f o e)
  raw_of-evaluate f o (rejected m) e h = absurd (cc)
  raw_of-evaluate f o (accepted s w) e h = sym ((evaluate-Satisfies f o s w e).0)
