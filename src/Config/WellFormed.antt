-- ===== src/Config/WellFormed.antt =====
-- config/schema.go: what NewSchema establishes.
use fit_go.Base.{
  ◌≡◌, refl, sym, subst, true, false, ◌&&◌, List, [], ◌∷◌, Option, none, some, Text, is_empty,
  trim_space, same, same_refl, same→eq, ok, ◌>>=◌, >>=-eq-ok, All, inl, inr, Bool-cases,
}
use fit_go.Config.Values.{Value, Library}
use fit_go.Config.Constraints.{
  SchemaField, parse_schema_value, clone_schema_value, validate_schema_value, stringify_default,
  is_allowed, length_violation, number_violation, custom_violation,
}
use fit_go.Config.Evaluate.{accepted, validated, cloned, parsed, evaluate}
use fit_go.Config.Schema.{
  Schema, member, accept_default, own_default, parse_default, print_default, check_default,
  check_field, check_fields, new_schema,
}
use fit_go.Config.Fresh.{ok-injective, IsFresh, check_field-IsFresh}

abbrev pub keys : {F V : Type 0} → List (SchemaField F V) → List Text
keys [] = []
keys (f ∷ fs) = f.key ∷ keys fs

abbrev pub AreDistinct : List Text → Type 0
AreDistinct [] = Unit
AreDistinct (k ∷ ks) = (member k ks ≡ false) × AreDistinct ks

-- The field has a key, and its default, if it has one, is what ApplySchema accepts.
pub record IsUsable {F V : Type 0} (lib : Library F V) (f : SchemaField F V) : Type 0 where
  pub named : is_empty f.key ≡ false
  pub default_accepted :
      f.has_default ≡ true
      → (v : Value F V) × (evaluate lib f (some f.default_raw) ≡ accepted f.default_raw v)

pub record IsWellFormed {F V : Type 0} (lib : Library F V) (fs : List (SchemaField F V))
    : Type 0 where
  pub distinct : AreDistinct (keys fs)
  pub usable : All (IsUsable lib) fs

module _ {F V : Type 0} (lib : Library F V) (f g : SchemaField F V) (raw : Text)
    (named : is_empty f.key ≡ false) where
  accept_default-IsUsable :
      (u v : Value F V) (o : Option Text)
      → parse_schema_value lib f raw ≡ some u
      → clone_schema_value lib f u ≡ some v
      → validate_schema_value lib f raw v ≡ o
      → accept_default lib f raw o ≡ ok g
      → (g.key ≡ f.key) × IsUsable lib g
  unfolding evaluate parsed cloned validated parse_schema_value clone_schema_value
      validate_schema_value is_allowed length_violation number_violation custom_violation
  accept_default-IsUsable u v (some violation) p c w h = absurd (cc)
  accept_default-IsUsable u v none p c w h =
      elim (Bool-cases (f.required && is_empty (trim_space raw))) [
        | inl empty ↦ absurd (cc (simp empty at h))
        | inr filled ↦
            let e : record f { default_raw = raw } ≡ g = ok-injective (simp filled at h) in
            subst (λ k. (k.key ≡ f.key) × IsUsable lib k) e
              (refl, record { named = named; default_accepted = λ d. (v, simp (filled, p, c, w)) })
      ]

  own_default-IsUsable :
      (u : Value F V) (o : Option (Value F V))
      → parse_schema_value lib f raw ≡ some u
      → clone_schema_value lib f u ≡ o
      → own_default lib f raw o ≡ ok g
      → (g.key ≡ f.key) × IsUsable lib g
  own_default-IsUsable u none p c h = absurd (cc)
  own_default-IsUsable u (some v) p c h =
      accept_default-IsUsable u v (validate_schema_value lib f raw v) p c refl h

  parse_default-IsUsable :
      (o : Option (Value F V))
      → parse_schema_value lib f raw ≡ o
      → parse_default lib f raw o ≡ ok g
      → (g.key ≡ f.key) × IsUsable lib g
  parse_default-IsUsable none p h = absurd (cc)
  parse_default-IsUsable (some u) p h = own_default-IsUsable u (clone_schema_value lib f u) p refl h

module _ {F V : Type 0} (lib : Library F V) where
  print_default-IsUsable :
      (f g : SchemaField F V) (o : Option Text)
      → is_empty f.key ≡ false
      → print_default lib f o ≡ ok g
      → (g.key ≡ f.key) × IsUsable lib g
  print_default-IsUsable f g none n h = absurd (cc)
  print_default-IsUsable f g (some raw) n h =
      parse_default-IsUsable lib f g raw n (parse_schema_value lib f raw) refl h

  check_default-IsUsable :
      (f g : SchemaField F V)
      → is_empty f.key ≡ false
      → check_default lib f ≡ ok g
      → (g.key ≡ f.key) × IsUsable lib g
  unfolding check_default
  check_default-IsUsable f g n h = elim (Bool-cases f.has_default) [
    | inl with ↦ print_default-IsUsable f g (stringify_default lib f.default) n (simp with at h)
    | inr without ↦
        let e : f ≡ g = ok-injective (simp without at h) in
        subst (λ k. (k.key ≡ f.key) × IsUsable lib k) e
          (refl, record { named = n; default_accepted = λ d. absurd (cc) })
  ]

  -- What one round of the loop adds.
  record Round (seen : List Text) (rest fs : List (SchemaField F V)) : Type 0 where
    field : SchemaField F V
    later : List (SchemaField F V)
    unseen : member field.key seen ≡ false
    usable : IsUsable lib field
    rounds : check_fields lib (field.key ∷ seen) rest ≡ ok later
    joined : field ∷ later ≡ fs

  check_fields-Round :
      (seen : List Text) (given : SchemaField F V) (rest fs : List (SchemaField F V))
      → check_fields lib seen (given ∷ rest) ≡ ok fs
      → Round seen rest fs
  unfolding check_fields
  check_fields-Round seen given rest fs h =
      let r =
        >>=-eq-ok (check_field lib seen given >>= check_default lib)
          (λ f. check_fields lib (f.key ∷ seen) rest >>= (λ gs. ok (f ∷ gs))) h in
      let p = >>=-eq-ok (check_field lib seen given) (check_default lib) r.1 in
      let q = >>=-eq-ok (check_fields lib ((r.0).key ∷ seen) rest) (λ gs. ok ((r.0) ∷ gs)) r.2 in
      let fresh : IsFresh seen p.0 = check_field-IsFresh lib seen given p.0 p.1 in
      let checked = check_default-IsUsable p.0 r.0 fresh.named p.2 in
      record {
        field = r.0;
        later = q.0;
        unseen = subst (λ k. member k seen ≡ false) (sym checked.0) fresh.unseen;
        usable = checked.1;
        rounds = q.1;
        joined = ok-injective q.2;
      }

  check_fields-keys :
      (seen : List Text) (given fs : List (SchemaField F V)) (k : Text)
      → check_fields lib seen given ≡ ok fs
      → member k seen ≡ true
      → member k (keys fs) ≡ false
  unfolding check_fields
  check_fields-keys seen [] fs k h m = rw (sym (ok-injective h)) refl
  check_fields-keys seen (given ∷ rest) fs k h m =
      let r = check_fields-Round seen given rest fs h in
      let ih = check_fields-keys (r.field.key ∷ seen) rest r.later k r.rounds in
      elim (Bool-cases (same r.field.key k)) [
        | inl equal ↦ absurd (cc (r.unseen, m, same→eq r.field.key k equal))
        | inr other ↦
            subst (λ gs. member k (keys gs) ≡ false) r.joined (simp other (ih (simp other m)))
      ]

  check_fields-IsWellFormed :
      (seen : List Text) (given fs : List (SchemaField F V))
      → check_fields lib seen given ≡ ok fs
      → IsWellFormed lib fs
  unfolding check_fields
  check_fields-IsWellFormed seen [] fs h =
      rw (sym (ok-injective h)) (record { distinct = tt; usable = tt })
  check_fields-IsWellFormed seen (given ∷ rest) fs h =
      let r = check_fields-Round seen given rest fs h in
      let ih = check_fields-IsWellFormed (r.field.key ∷ seen) rest r.later r.rounds in
      subst (IsWellFormed lib) r.joined (record {
        distinct = (
          check_fields-keys (r.field.key ∷ seen) rest r.later r.field.key r.rounds
              (simp (same_refl r.field.key)),
          ih.distinct,
        );
        usable = (r.usable, ih.usable);
      })

-- The fields of every schema that NewSchema returns have distinct keys that are not empty, and
-- ApplySchema accepts the default of each field that has one.
pub new_schema-IsWellFormed :
    {F V : Type 0} (lib : Library F V) (given : List (SchemaField F V)) (schema : Schema F V)
    → new_schema lib given ≡ ok schema
    → IsWellFormed lib schema.fields
unfolding new_schema
new_schema-IsWellFormed {F} {V} lib [] schema h = absurd (cc)
new_schema-IsWellFormed {F} {V} lib (f ∷ fs) schema h =
    let r = >>=-eq-ok (check_fields lib [] (f ∷ fs)) _ h in
    subst (λ (s : Schema F V). IsWellFormed lib s.fields) (ok-injective r.2)
      (check_fields-IsWellFormed lib [] (f ∷ fs) r.0 r.1)
