-- ===== src/Config/Fresh.antt =====
-- config/schema.go: the checks of NewSchema before the default.
use fit_go.Base.{
  ◌≡◌, refl, subst, Bool, true, false, ◌||◌, List, Option, none, some, Text, is_empty, trim_space,
  Result, ok, ◌>>=◌, >>=-eq-ok, inl, inr, Bool-cases,
}
use fit_go.Config.Values.{Library}
use fit_go.Config.Constraints.{SchemaField}
use fit_go.Config.Schema.{
  SchemaError, member, or_string, refuse, with_pattern, compile_pattern, check_key, check_kind,
  check_range, check_lengths, check_field, empty_key, duplicate_field, negative_length,
  length_exceeds, is_negative, exceeds,
}

pub ok-injective : {A : Type 0} {a b : A} → (◌≡◌ {A = Result SchemaError A} (ok a) (ok b)) → a ≡ b
ok-injective e = cc

refuse-ok :
    {A : Type 0} (b : Bool) (e : SchemaError) (a c : A)
    → refuse b e a ≡ ok c
    → (b ≡ false) × (a ≡ c)
refuse-ok true e a c h = cc
refuse-ok false e a c h = (refl, cc)

module _ {F V : Type 0} where
  -- What holds of a field after the checks of its key.
  pub record IsFresh (seen : List Text) (f : SchemaField F V) : Type 0 where
    pub named : is_empty f.key ≡ false
    pub unseen : member f.key seen ≡ false

  IsFresh->>= :
      (seen : List Text) (first : Result SchemaError (SchemaField F V))
      (next : SchemaField F V → Result SchemaError (SchemaField F V))
      → ((f : SchemaField F V) → first ≡ ok f → IsFresh seen f)
      → ((f g : SchemaField F V) → IsFresh seen f → next f ≡ ok g → IsFresh seen g)
      → (g : SchemaField F V) → (first >>= next) ≡ ok g
      → IsFresh seen g
  IsFresh->>= seen first next before keeps g h =
      let r = >>=-eq-ok first next h in keeps r.0 g (before r.0 r.1) r.2

  -- A check that only refuses keeps what is known of the field.
  IsFresh-refuse :
      (seen : List Text) (b : Bool) (e : SchemaError) (f g : SchemaField F V)
      → IsFresh seen f
      → refuse b e f ≡ ok g
      → IsFresh seen g
  IsFresh-refuse seen b e f g v h = subst (IsFresh seen) ((refuse-ok b e f g h).1) v

  IsFresh-check_key :
      (lib : Library F V) (seen : List Text) (f g : SchemaField F V)
      → check_key lib seen f ≡ ok g
      → IsFresh seen g
  unfolding check_key
  IsFresh-check_key lib seen f g h =
      let q =
        >>=-eq-ok (refuse (is_empty f.key) empty_key f)
          (λ f. refuse (member f.key seen) (duplicate_field f.key) f) h in
      let named = refuse-ok (is_empty f.key) empty_key f q.0 q.1 in
      let unseen = refuse-ok (member (q.0).key seen) (duplicate_field (q.0).key) q.0 g q.2 in
      subst (IsFresh seen) unseen.1 (record {
        named = subst (λ (k : SchemaField F V). is_empty k.key ≡ false) named.1 named.0;
        unseen = unseen.0;
      })

  IsFresh-check_kind :
      (lib : Library F V) (seen : List Text) (f g : SchemaField F V)
      → IsFresh seen f
      → check_kind lib f ≡ ok g
      → IsFresh seen g
  unfolding check_kind
  IsFresh-check_kind lib seen f g v h = IsFresh-refuse seen _ _ f g v h

  IsFresh-check_range :
      (lib : Library F V) (seen : List Text) (f g : SchemaField F V)
      → IsFresh seen f
      → check_range lib f ≡ ok g
      → IsFresh seen g
  unfolding check_range
  IsFresh-check_range lib seen f g v h = IsFresh-refuse seen _ _ f g v h

  IsFresh-check_lengths :
      (lib : Library F V) (seen : List Text) (f g : SchemaField F V)
      → IsFresh seen f
      → check_lengths lib f ≡ ok g
      → IsFresh seen g
  unfolding check_lengths
  IsFresh-check_lengths lib seen f g v h =
      let r =
        >>=-eq-ok
          (refuse (is_negative f.min_length || is_negative f.max_length) (negative_length f.key) f)
          (λ f. refuse (exceeds f.min_length f.max_length) (length_exceeds f.key) f) h in
      IsFresh-refuse seen _ _ r.0 g (IsFresh-refuse seen _ _ f r.0 v r.1) r.2

  IsFresh-with_pattern :
      (lib : Library F V) (seen : List Text) (f g : SchemaField F V) (o : Option (Text → Bool))
      → IsFresh seen f
      → with_pattern lib f o ≡ ok g
      → IsFresh seen g
  IsFresh-with_pattern lib seen f g none v h = absurd (cc)
  IsFresh-with_pattern lib seen f g (some m) v h =
      subst (IsFresh seen) (ok-injective h) (record { named = v.named; unseen = v.unseen })

  IsFresh-compile_pattern :
      (lib : Library F V) (seen : List Text) (f g : SchemaField F V)
      → IsFresh seen f
      → compile_pattern lib f ≡ ok g
      → IsFresh seen g
  unfolding compile_pattern
  IsFresh-compile_pattern lib seen f g v h = elim (Bool-cases (is_empty f.pattern)) [
    | inl no_pattern ↦
        let e : ok f ≡ ok g = simp no_pattern at h in subst (IsFresh seen) (ok-injective e) v
    | inr pattern ↦ IsFresh-with_pattern lib seen f g (lib.compile f.pattern) v (simp pattern at h)
  ]

module _ {F V : Type 0} (lib : Library F V) where
  pub check_field-IsFresh :
      (seen : List Text) (given f : SchemaField F V)
      → check_field lib seen given ≡ ok f
      → IsFresh seen f
  unfolding check_field
  check_field-IsFresh seen given f h =
      let named = record given { key = trim_space given.key; kind = or_string given.kind } in
      let keyed = check_key lib seen named in
      let kinded = keyed >>= check_kind lib in
      let compiled = kinded >>= compile_pattern lib in
      let ranged = compiled >>= check_range lib in
      IsFresh->>= seen ranged (check_lengths lib)
        (IsFresh->>= seen compiled (check_range lib)
          (IsFresh->>= seen kinded (compile_pattern lib)
            (IsFresh->>= seen keyed (check_kind lib) (λ g e. IsFresh-check_key lib seen named g e)
              (IsFresh-check_kind lib seen))
            (IsFresh-compile_pattern lib seen))
          (IsFresh-check_range lib seen))
        (IsFresh-check_lengths lib seen) f h
