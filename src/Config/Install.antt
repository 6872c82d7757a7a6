-- ===== src/Config/Install.antt =====
-- config/schema.go: the second locked section of ApplySchema.
use fit_go.Base.{
  ◌≡◌, refl, sym, ap, subst, ◌∙◌, Bool, true, false, inl, inr, List, [], ◌∷◌, Option, none, some,
  if◌then◌else◌, Text, same, same→eq, same_iff, Dict, lookup, lookup-insert, ok, All, Bool-cases,
  Option-cases, arith,
}
use fit_go.Config.Values.{Library}
use fit_go.Config.Constraints.{SchemaField}
use fit_go.Config.Schema.{Resolved, Schema}
use fit_go.Config.Apply.{
  Progress, same_option, empty_progress, resolve_fields, changed_key, insert_absent, install,
  fails_cross, unless_changed, commit, validate_progress, apply_schema,
}

infixl 20 ◌or◌
abbrev pub ◌or◌ : Option Text → Option Text → Option Text
(some t) or o = some t
none or o = o

insert_absent-lookup :
    (found : Option Text) (k j w : Text) (now : Dict Text)
    → lookup k now ≡ found
    → lookup j (insert_absent found k w now) ≡ (lookup j now or (if same k j then some w else none))
insert_absent-lookup (some v) k j w now h = elim (Bool-cases (same k j)) [
  | inl equal ↦ simp (sym (same→eq k j equal), h)
  | inr other ↦ elim (Option-cases (lookup j now)) [
    | inl a ↦ simp (other, a)
    | inr (b, a) ↦ simp (other, a)
  ]
]
insert_absent-lookup none k j w now h = elim (Bool-cases (same k j)) [
  | inl equal ↦
      let absent : lookup j now ≡ none = subst (λ i. lookup i now ≡ none) (same→eq k j equal) h in
      simp (lookup-insert k j w now, equal, absent)
  | inr other ↦ elim (Option-cases (lookup j now)) [
    | inl a ↦ simp (lookup-insert k j w now, other, a)
    | inr (b, a) ↦ simp (lookup-insert k j w now, other, a)
  ]
]

or_assoc : (a b c : Option Text) → ((a or b) or c) ≡ (a or (b or c))
or_assoc none b c = refl
or_assoc (some t) b c = refl

or_test :
    (b : Bool) (w : Text) (o : Option Text)
    → ((if b then some w else none) or o) ≡ (if b then some w else o)
or_test true w o = refl
or_test false w o = refl

-- A key has what it had, and only if it had nothing the default.
pub lookup-install :
    (ds now : Dict Text) (k : Text) → lookup k (install ds now) ≡ (lookup k now or lookup k ds)
unfolding install lookup
lookup-install [] now k = elim (Option-cases (lookup k now)) [
  | inl a ↦ simp a
  | inr (b, a) ↦ simp a
]
lookup-install ((j, w) ∷ ds) now k =
    lookup-install ds (insert_absent (lookup j now) j w now) k
    ∙ (ap (λ o. o or lookup k ds) (insert_absent-lookup (lookup j now) j k w now refl)
        ∙ (or_assoc (lookup k now) _ (lookup k ds)
            ∙ ap (λ o. lookup k now or o) (or_test (same j k) w (lookup k ds))))

same_option→eq : (a b : Option Text) → same_option a b ≡ true → a ≡ b
same_option→eq none none h = refl
same_option→eq none (some b) h = absurd (cc)
same_option→eq (some a) none h = absurd (cc)
same_option→eq (some a) (some b) h = ap some (same→eq a b h)

pub same_option_refl : (a : Option Text) → same_option a a ≡ true
same_option_refl none = refl
same_option_refl (some a) = ground (arith, same_iff a a)

module _ {F V : Type 0} where
  pub changed_key-none :
      (fs : List (SchemaField F V)) (snapshot now : Dict Text)
      → changed_key fs snapshot now ≡ none
      → All (λ f. lookup f.key snapshot ≡ lookup f.key now) fs
  unfolding changed_key
  changed_key-none [] snapshot now h = tt
  changed_key-none (f ∷ fs) snapshot now h =
      elim (Bool-cases (same_option (lookup f.key snapshot) (lookup f.key now))) [
        | inl equal ↦ (same_option→eq _ _ equal, changed_key-none fs snapshot now (simp equal at h))
        | inr other ↦ absurd (cc (simp other at h))
      ]

  pub changed_key_refl :
      (fs : List (SchemaField F V)) (now : Dict Text) → changed_key fs now now ≡ none
  unfolding changed_key
  changed_key_refl [] now = refl
  changed_key_refl (f ∷ fs) now =
      simp (same_option_refl (lookup f.key now), changed_key_refl fs now)

  -- What ApplySchema did when it returned no error.
  pub record Committed (schema : Schema F V) (snapshot now after : Dict Text) (p : Progress F V)
      (r : Resolved F V) : Type 0 where
    pub clean : p.violations ≡ []
    pub passed : fails_cross schema p.resolved ≡ false
    pub unchanged : changed_key schema.fields snapshot now ≡ none
    pub resolved : p.resolved ≡ r
    pub installed : install p.defaults now ≡ after

  unless_changed-ok :
      (schema : Schema F V) (snapshot now after : Dict Text) (p : Progress F V) (r : Resolved F V)
      (o : Option Text)
      → changed_key schema.fields snapshot now ≡ o
      → p.violations ≡ []
      → fails_cross schema p.resolved ≡ false
      → unless_changed p now o ≡ (ok r, after)
      → Committed schema snapshot now after p r
  unless_changed-ok schema snapshot now after p r (some key) u c f h = absurd (cc (ap (λ x. x.0) h))
  unless_changed-ok schema snapshot now after p r none u c f h = record {
    clean = c;
    passed = f;
    unchanged = u;
    resolved = cc (ap (λ x. x.0) h);
    installed = ap (λ x. x.1) h;
  }

  validate_progress-ok :
      (schema : Schema F V) (snapshot now after : Dict Text) (p : Progress F V) (r : Resolved F V)
      (vs : List Text)
      → p.violations ≡ vs
      → validate_progress schema snapshot p now vs ≡ (ok r, after)
      → Committed schema snapshot now after p r
  unfolding validate_progress commit
  validate_progress-ok schema snapshot now after p r (v ∷ vs) c h = absurd (cc (ap (λ x. x.0) h))
  validate_progress-ok schema snapshot now after p r [] c h =
      elim (Bool-cases (fails_cross schema p.resolved)) [
        | inl fails ↦ absurd (cc (ap (λ x. x.0) (simp fails at h)))
        | inr passes ↦
            unless_changed-ok schema snapshot now after p r (changed_key schema.fields snapshot now)
              refl c passes (simp passes at h)
      ]

  pub apply_schema-Committed :
      (lib : Library F V) (schema : Schema F V) (snapshot now after : Dict Text) (r : Resolved F V)
      → apply_schema lib schema snapshot now ≡ (ok r, after)
      → Committed schema snapshot now after
          (resolve_fields lib snapshot schema.fields empty_progress)
          r
  unfolding apply_schema
  apply_schema-Committed lib schema snapshot now after r h =
      let p = resolve_fields lib snapshot schema.fields empty_progress in
      validate_progress-ok schema snapshot now after p r p.violations refl h

  pub validate_progress-Committed :
      (schema : Schema F V) (snapshot now after : Dict Text) (p : Progress F V) (r : Resolved F V)
      → Committed schema snapshot now after p r
      → validate_progress schema snapshot p now p.violations ≡ (ok r, after)
  unfolding validate_progress commit
  validate_progress-Committed schema snapshot now after p r c =
      let passed : fails_cross schema r ≡ false =
        subst (λ x. fails_cross schema x ≡ false) c.resolved c.passed in
      simp (c.clean, passed, c.unchanged, c.resolved, c.installed)
