-- ===== src/Config/Resolve.antt =====
-- config/schema.go: what the loop of ApplySchema leaves for each field.
use fit_go.Base.{
  ◌≡◌, refl, ◌∙◌, Bool, true, false, inl, inr, List, [], ◌∷◌, ◌++◌, Option, none, some, Text, same,
  same_iff, same_refl, ◌≢◌, Dict, lookup, lookup-insert, All, Bool-cases, arith,
}
use fit_go.Config.Values.{Value, Library}
use fit_go.Config.Constraints.{SchemaField}
use fit_go.Config.Evaluate.{Outcome, absent, rejected, accepted, evaluate}
use fit_go.Config.Schema.{member}
use fit_go.Config.WellFormed.{keys, AreDistinct}
use fit_go.Config.Apply.{
  Progress, default_of, or_default, add_default, record_outcome, resolve_field, resolve_fields,
}

-- `q` has what `p` has under the key `k`.
pub record Agrees {F V : Type 0} (k : Text) (p q : Progress F V) : Type 0 where
  pub raw : lookup k q.resolved.raw ≡ lookup k p.resolved.raw
  pub values : lookup k q.resolved.values ≡ lookup k p.resolved.values
  pub defaults : lookup k q.defaults ≡ lookup k p.defaults

-- Nothing is recorded under the key `k`.
pub record IsClear {F V : Type 0} (p : Progress F V) (k : Text) : Type 0 where
  pub raw : lookup k p.resolved.raw ≡ none
  pub values : lookup k p.resolved.values ≡ none
  pub defaults : lookup k p.defaults ≡ none

-- The default that is to be installed for a field.
abbrev pub pending : {F V : Type 0} → SchemaField F V → Option Text → Option Text
pending field (some raw) = none
pending field none = default_of field

-- The value and the raw text of an outcome.
abbrev pub raw_of : {F V : Type 0} → Outcome F V → Option Text
raw_of absent = none
raw_of (rejected m) = none
raw_of (accepted raw v) = some raw

abbrev pub value_of : {F V : Type 0} → Outcome F V → Option (Value F V)
value_of absent = none
value_of (rejected m) = none
value_of (accepted raw v) = some v

abbrev pub is_rejected : {F V : Type 0} → Outcome F V → Bool
is_rejected absent = false
is_rejected (rejected m) = true
is_rejected (accepted raw v) = false

same-flip : (s t : Text) → same s t ≡ false → same t s ≡ false
same-flip s t h = ground (arith, same_iff s t, same_iff t s)

append_singleton-ne-nil : {A : Type 0} (xs : List A) (x : A) → (xs ++ x ∷ []) ≢ []
append_singleton-ne-nil [] x e = cc
append_singleton-ne-nil (y ∷ ys) x e = cc

module _ {F V : Type 0} where
  add_default-other :
      (f : SchemaField F V) (found : Option Text) (ds : Dict Text) (k : Text)
      → same f.key k ≡ false
      → lookup k (add_default f found ds) ≡ lookup k ds
  add_default-other f (some raw) ds k h = refl
  add_default-other f none ds k h = elim (Bool-cases f.has_default) [
    | inl with ↦ simp (with, lookup-insert f.key k f.default_raw ds, h)
    | inr without ↦ simp without
  ]

  add_default-own :
      (f : SchemaField F V) (found : Option Text) (ds : Dict Text)
      → lookup f.key ds ≡ none
      → lookup f.key (add_default f found ds) ≡ pending f found
  add_default-own f (some raw) ds h = h
  add_default-own f none ds h = elim (Bool-cases f.has_default) [
    | inl with ↦ simp (with, lookup-insert f.key f.key f.default_raw ds, same_refl f.key)
    | inr without ↦ simp (without, h)
  ]

  record_outcome-other :
      (f : SchemaField F V) (o : Outcome F V) (p : Progress F V) (k : Text)
      → same f.key k ≡ false
      → Agrees k p (record_outcome f o p)
  unfolding record_outcome
  record_outcome-other f absent p k h = record { raw = refl; values = refl; defaults = refl }
  record_outcome-other f (rejected m) p k h = record { raw = refl; values = refl; defaults = refl }
  record_outcome-other f (accepted raw v) p k h = record {
    raw = simp (lookup-insert f.key k raw p.resolved.raw, h);
    values = simp (lookup-insert f.key k v p.resolved.values, h);
    defaults = refl;
  }

  -- The key of a field whose outcome is recorded.
  record IsRecorded (f : SchemaField F V) (o : Outcome F V) (p q : Progress F V) : Type 0 where
    raw : lookup f.key q.resolved.raw ≡ raw_of o
    values : lookup f.key q.resolved.values ≡ value_of o
    defaults : lookup f.key q.defaults ≡ lookup f.key p.defaults

  record_outcome-IsRecorded :
      (f : SchemaField F V) (o : Outcome F V) (p : Progress F V)
      → lookup f.key p.resolved.raw ≡ none
      → lookup f.key p.resolved.values ≡ none
      → IsRecorded f o p (record_outcome f o p)
  unfolding record_outcome
  record_outcome-IsRecorded f absent p h k = record { raw = h; values = k; defaults = refl }
  record_outcome-IsRecorded f (rejected m) p h k = record { raw = h; values = k; defaults = refl }
  record_outcome-IsRecorded f (accepted raw v) p h k = record {
    raw = simp (lookup-insert f.key f.key raw p.resolved.raw, same_refl f.key);
    values = simp (lookup-insert f.key f.key v p.resolved.values, same_refl f.key);
    defaults = refl;
  }

  record_outcome-violations :
      (f : SchemaField F V) (o : Outcome F V) (p : Progress F V)
      → (record_outcome f o p).violations ≡ []
      → (p.violations ≡ []) × (is_rejected o ≡ false)
  unfolding record_outcome
  record_outcome-violations f absent p h = (h, refl)
  record_outcome-violations f (rejected m) p h = absurd (append_singleton-ne-nil p.violations m h)
  record_outcome-violations f (accepted raw v) p h = (h, refl)

module _ {F V : Type 0} (lib : Library F V) (snapshot : Dict Text) where
  abbrev pub outcome : SchemaField F V → Outcome F V
  outcome f = evaluate lib f (or_default f (lookup f.key snapshot))

  resolve_field-other :
      (f : SchemaField F V) (p : Progress F V) (k : Text)
      → same f.key k ≡ false
      → Agrees k p (resolve_field lib snapshot f p)
  unfolding resolve_field
  resolve_field-other f p k h =
      let a =
        record_outcome-other f (outcome f)
          (record p { defaults = add_default f (lookup f.key snapshot) p.defaults }) k h in
      record {
        raw = a.raw;
        values = a.values;
        defaults = a.defaults ∙ add_default-other f (lookup f.key snapshot) p.defaults k h;
      }

  -- What the loop leaves for a field.
  pub record IsResolved (q : Progress F V) (f : SchemaField F V) : Type 0 where
    pub raw : lookup f.key q.resolved.raw ≡ raw_of (outcome f)
    pub values : lookup f.key q.resolved.values ≡ value_of (outcome f)
    pub defaults : lookup f.key q.defaults ≡ pending f (lookup f.key snapshot)
    pub settled : is_rejected (outcome f) ≡ false

  pub resolve_fields-other :
      (fs : List (SchemaField F V)) (p : Progress F V) (k : Text)
      → member k (keys fs) ≡ false
      → Agrees k p (resolve_fields lib snapshot fs p)
  unfolding resolve_fields
  resolve_fields-other [] p k h = record { raw = refl; values = refl; defaults = refl }
  resolve_fields-other (f ∷ fs) p k h = elim (Bool-cases (same f.key k)) [
    | inl equal ↦ absurd (cc (simp equal at h))
    | inr other ↦
        let a = resolve_field-other f p k other in
        let b = resolve_fields-other fs (resolve_field lib snapshot f p) k (simp other at h) in
        record {
          raw = b.raw ∙ a.raw;
          values = b.values ∙ a.values;
          defaults = b.defaults ∙ a.defaults;
        }
  ]

  resolve_fields-violations :
      (fs : List (SchemaField F V)) (p : Progress F V)
      → (resolve_fields lib snapshot fs p).violations ≡ []
      → p.violations ≡ []
  unfolding resolve_fields resolve_field
  resolve_fields-violations [] p h = h
  resolve_fields-violations (f ∷ fs) p h =
      (record_outcome-violations f (outcome f) _
        (resolve_fields-violations fs (resolve_field lib snapshot f p) h)).0

  IsClear-rest :
      (f : SchemaField F V) (fs : List (SchemaField F V)) (p : Progress F V)
      → member f.key (keys fs) ≡ false
      → All (λ g. IsClear p g.key) fs
      → All (λ g. IsClear (resolve_field lib snapshot f p) g.key) fs
  IsClear-rest f [] p h c = tt
  IsClear-rest f (g ∷ gs) p h (c, cs) = elim (Bool-cases (same g.key f.key)) [
    | inl equal ↦ absurd (cc (simp equal at h))
    | inr other ↦
        let a = resolve_field-other f p g.key (same-flip g.key f.key other) in
        (
          record {
            raw = a.raw ∙ c.raw;
            values = a.values ∙ c.values;
            defaults = a.defaults ∙ c.defaults;
          },
          IsClear-rest f gs p (simp other at h) cs,
        )
  ]

  -- If no violation was found, each of the fields, whose keys are distinct and new, is resolved.
  pub resolve_fields-IsResolved :
      (fs : List (SchemaField F V)) (p : Progress F V)
      → AreDistinct (keys fs)
      → All (λ f. IsClear p f.key) fs
      → (resolve_fields lib snapshot fs p).violations ≡ []
      → All (IsResolved (resolve_fields lib snapshot fs p)) fs
  unfolding resolve_fields resolve_field
  resolve_fields-IsResolved [] p d c h = tt
  resolve_fields-IsResolved (f ∷ fs) p (d, ds) (c, cs) h =
      let later = resolve_field lib snapshot f p in
      let own =
        record_outcome-IsRecorded f (outcome f)
          (record p { defaults = add_default f (lookup f.key snapshot) p.defaults }) c.raw
          c.values in
      let kept = resolve_fields-other fs later f.key d in
      let clean =
        record_outcome-violations f (outcome f) _ (resolve_fields-violations fs later h) in
      (
        record {
          raw = kept.raw ∙ own.raw;
          values = kept.values ∙ own.values;
          defaults =
              kept.defaults
              ∙ (own.defaults ∙ add_default-own f (lookup f.key snapshot) p.defaults c.defaults);
          settled = clean.1;
        },
        resolve_fields-IsResolved fs later ds (IsClear-rest f fs p d cs) h,
      )
