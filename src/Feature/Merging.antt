-- ===== src/Feature/Merging.antt =====
-- feature/flags.go: what a client holds after feature events, in whichever order they came.
use fit_go.Base.{
  ℕ, ◌≡◌, ◌∙◌, Bool, true, false, inl, inr, ◌⊎◌, List, [], ◌∷◌, Option, none, some, if◌then◌else◌,
  ◌==◌, Text, same, same→eq, is_empty, Dict, lookup, lookup-insert, Bool-cases, arith,
}
use fit_go.Feature.Strategies.{FeatureState}
use fit_go.Feature.Repository.{
  Client, merge_feature, prepare_namespace, put_feature, put_features, is_incoming, retain_incoming,
  publish, clear_stale_retention, apply_full_feature_set,
}

abbrev pub is_some : {A : Type 0} → Option A → Bool
is_some none = false
is_some (some a) = true

module _ {V : Type 0} where
  lookup-retain_incoming :
      (incoming : List (Option (FeatureState V))) (k : Text) (features : Dict (FeatureState V))
      → lookup k (retain_incoming incoming features)
        ≡ (if is_incoming k incoming then lookup k features else none)
  unfolding lookup retain_incoming
  lookup-retain_incoming incoming k [] = elim (Bool-cases (is_incoming k incoming)) [
    | inl a ↦ simp a
    | inr a ↦ simp a
  ]
  lookup-retain_incoming incoming k ((j, f) ∷ features) = elim (Bool-cases (same j k)) [
    | inl equal ↦
        let e : j ≡ k = same→eq j k equal in
        elim (Bool-cases (is_incoming k incoming)) [
          | inl stays ↦
              (let there : is_incoming j incoming ≡ true = rw e stays in simp (there, stays, equal))
          | inr goes ↦
              (let gone : is_incoming j incoming ≡ false = rw e goes in
                simp (gone, goes) (lookup-retain_incoming incoming k features ∙ simp goes))
        ]
    | inr other ↦ elim (Bool-cases (is_incoming j incoming)) [
      | inl stays ↦ simp (stays, other) (lookup-retain_incoming incoming k features)
      | inr goes ↦ simp (goes, other) (lookup-retain_incoming incoming k features)
    ]
  ]

  some-put_feature :
      (f : FeatureState V) (k : Text) (features : Dict (FeatureState V))
      → is_some (lookup k (put_feature f features))
        ≡ (if same f.feature_key k then true else is_some (lookup k features))
  unfolding put_feature
  some-put_feature f k features =
      simp
        (lookup-insert f.feature_key k (merge_feature (lookup f.feature_key features) f) features)
        (elim (Bool-cases (same f.feature_key k)) [ inl a ↦ simp a | inr a ↦ simp a ])

  some-put_features :
      (incoming : List (Option (FeatureState V))) (k : Text) (features : Dict (FeatureState V))
      → is_incoming k incoming ≡ true ⊎ (is_some (lookup k features) ≡ true)
      → is_some (lookup k (put_features incoming features)) ≡ true
  unfolding put_features is_incoming
  some-put_features [] k features (inl h) = absurd (cc)
  some-put_features [] k features (inr h) = h
  some-put_features (none ∷ rest) k features h = some-put_features rest k features h
  some-put_features (some f ∷ rest) k features h = elim (Bool-cases (is_empty f.feature_key)) [
    | inl keyless ↦ simp keyless (some-put_features rest k features (simp keyless at h))
    | inr keyed ↦ elim (Bool-cases (same f.feature_key k)) [
      | inl equal ↦ simp keyed (
          some-put_features rest k (put_feature f features)
            (inr (simp (some-put_feature f k features, equal))))
      | inr other ↦ simp keyed (
          some-put_features rest k (put_feature f features)
            (simp (some-put_feature f k features, other) (simp (keyed, other) at h)))
    ]
  ]

  -- After a full set of features of the client's current revision, the client holds a feature for
  -- exactly the keys that came in.
  pub apply_full_feature_set-keys :
      (incoming : List (Option (FeatureState V))) (revision : ℕ) (c : Client V) (k : Text)
      → c.context_revision ≡ revision
      → is_some (lookup k (apply_full_feature_set incoming revision c).1.features)
        ≡ is_incoming k incoming
  unfolding apply_full_feature_set publish clear_stale_retention
  apply_full_feature_set-keys incoming revision c k h =
      let current : (c.context_revision == revision) ≡ true = ground arith in
      let p = prepare_namespace revision c in
      simp (current, lookup-retain_incoming incoming k (put_features incoming p.features))
        (elim (Bool-cases (is_incoming k incoming)) [
          | inl came ↦ simp came (some-put_features incoming k p.features (inl came))
          | inr absent ↦ simp absent
        ])
