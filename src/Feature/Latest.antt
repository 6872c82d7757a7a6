-- ===== src/Feature/Latest.antt =====
-- feature/flags.go: one key of the client is a register that keeps the latest version.
use fit_go.Base.{
  ℕ, ◌≡◌, refl, sym, ap, ◌∙◌, Bool, true, false, not, ◌&&◌, inl, inr, ◌⊎◌, List, [], ◌∷◌, Option,
  none, some, ◌==◌, Text, same_refl, is_empty, lookup, lookup-insert, ltb_ℤ, ℤ, All, Bool-cases,
  arith,
}
use fit_go.Feature.Strategies.{FeatureState}
use fit_go.Feature.Repository.{
  Client, version_of, identity_changed, merge_feature, prepare_namespace, put_feature,
  clear_stale_retention, apply_feature,
}

ltb_ℤ_trans : (a b c : ℤ) → ltb_ℤ b a ≡ false → ltb_ℤ c b ≡ false → ltb_ℤ c a ≡ false
ltb_ℤ_trans a b c h k = ground arith

and-false : (b : Bool) → (b && false) ≡ false
and-false true = refl
and-false false = refl

module _ {V : Type 0} where
  -- A sequence of events that each bring one feature.
  unfoldable pub apply_events : List (FeatureState V) → ℕ → Client V → Client V
  apply_events [] revision c = c
  apply_events (f ∷ fs) revision c = apply_events fs revision (apply_feature f revision c).1

  -- What the events make of the feature under their key.
  unfoldable pub merge_all :
      Option (FeatureState V) → List (FeatureState V) → Option (FeatureState V)
  merge_all o [] = o
  merge_all o (f ∷ fs) = merge_all (some (merge_feature o f)) fs

  -- What the client holds for a revision, before the first event.
  abbrev pub held : ℕ → Text → Client V → Option (FeatureState V)
  held revision k c = lookup k (prepare_namespace revision c).features

  apply_feature-held :
      (f : FeatureState V) (revision : ℕ) (c : Client V) (k : Text)
      → is_empty k ≡ false
      → f.feature_key ≡ k
      → c.context_revision ≡ revision
      → ((apply_feature f revision c).1.context_revision ≡ revision)
        × (held revision k (apply_feature f revision c).1
            ≡ some (merge_feature (held revision k c) f))
  unfolding apply_feature clear_stale_retention prepare_namespace put_feature
  apply_feature-held f revision c k n e h =
      let current : (c.context_revision == revision) ≡ true = ground arith in
      let again : (revision == revision) ≡ true = ground arith in
      let keyed : is_empty f.feature_key ≡ false = rw e n in
      let features = (prepare_namespace revision c).features in
      (
        simp (keyed, h, again),
        simp (
          current,
          keyed,
          again,
          sym e,
          and-false (not c.client_evaluated),
          lookup-insert f.feature_key f.feature_key
              (merge_feature (lookup f.feature_key features) f) features,
          same_refl f.feature_key,
        ),
      )

  -- For events of one key and of the client's current revision, the client's map, its revisions and
  -- its counters implement a register: what it holds under the key is the merge of the events, in the
  -- order in which they came, into what it held for that revision.
  pub apply_events-merge_all :
      (fs : List (FeatureState V)) (revision : ℕ) (c : Client V) (k : Text)
      → is_empty k ≡ false
      → All (λ f. f.feature_key ≡ k) fs
      → c.context_revision ≡ revision
      → held revision k (apply_events fs revision c) ≡ merge_all (held revision k c) fs
  unfolding apply_events merge_all
  apply_events-merge_all [] revision c k n e h = refl
  apply_events-merge_all (f ∷ fs) revision c k n (e, es) h =
      let step = apply_feature-held f revision c k n e h in
      apply_events-merge_all fs revision (apply_feature f revision c).1 k n es step.0
      ∙ ap (λ o. merge_all o fs) step.1

  identity_changed-same :
      (f g : FeatureState V) (i : Text)
      → f.feature_id ≡ i
      → g.feature_id ≡ i
      → identity_changed f g ≡ false
  unfolding identity_changed
  identity_changed-same f g i e d = elim (Bool-cases (is_empty i)) [
    | inl empty ↦ simp (e, d, same_refl i, empty)
    | inr filled ↦ simp (e, d, same_refl i, filled)
  ]

  -- `g` is not older than `f`.
  abbrev pub Covers : FeatureState V → FeatureState V → Type 0
  Covers g f = ltb_ℤ (version_of g) (version_of f) ≡ false

  abbrev pub Among : FeatureState V → List (FeatureState V) → Type 0
  Among g [] = ⊥
  Among g (f ∷ fs) = (g ≡ f) ⊎ Among g fs

  -- The merge of two features of one identity is the one that is not older, or the new one.
  record IsMerged (current f r : FeatureState V) : Type 0 where
    chosen : (r ≡ current) ⊎ (r ≡ f)
    covers_current : Covers r current
    covers_new : Covers r f

  merge_feature-IsMerged :
      (current f : FeatureState V) (i : Text)
      → current.feature_id ≡ i
      → f.feature_id ≡ i
      → IsMerged current f (merge_feature (some current) f)
  unfolding merge_feature
  merge_feature-IsMerged current f i e d =
      elim (Bool-cases (ltb_ℤ (version_of f) (version_of current))) [
        | inl older ↦
            simp (identity_changed-same current f i e d, older)
              (record {
                chosen = inl refl;
                covers_current = ground arith;
                covers_new = ground arith;
              })
        | inr newer ↦
            simp (identity_changed-same current f i e d, newer)
              (record { chosen = inr refl; covers_current = newer; covers_new = ground arith })
      ]

  pub record IsLatest (current : FeatureState V) (fs : List (FeatureState V)) (g : FeatureState V)
      : Type 0 where
    pub chosen : (g ≡ current) ⊎ Among g fs
    pub covers_current : Covers g current
    pub covers_all : All (Covers g) fs

  merge_all-IsLatest :
      (current : FeatureState V) (fs : List (FeatureState V)) (i : Text)
      → current.feature_id ≡ i
      → All (λ f. f.feature_id ≡ i) fs
      → (g : FeatureState V) × (merge_all (some current) fs ≡ some g) × IsLatest current fs g
  unfolding merge_all
  merge_all-IsLatest current [] i e d =
      (current, refl, record { chosen = inl refl; covers_current = ground arith; covers_all = tt })
  merge_all-IsLatest current (f ∷ fs) i e (d, ds) =
      let r = merge_feature (some current) f in
      let m = merge_feature-IsMerged current f i e d in
      let same_id : r.feature_id ≡ i = elim m.chosen [ inl a ↦ rw a e | inr a ↦ rw a d ] in
      let later = merge_all-IsLatest r fs i same_id ds in
      let w = later.2 in
      (
        later.0,
        later.1,
        record {
          chosen = elim w.chosen [
            | inl first ↦ elim m.chosen [ inl a ↦ inl (first ∙ a) | inr a ↦ inr (inl (first ∙ a)) ]
            | inr rest ↦ inr (inr rest)
          ];
          covers_current =
              ltb_ℤ_trans (version_of current) (version_of r) (version_of later.0) m.covers_current
                w.covers_current;
          covers_all = (
            ltb_ℤ_trans (version_of f) (version_of r) (version_of later.0) m.covers_new
                w.covers_current,
            w.covers_all,
          );
        },
      )

  -- What is held after events of one identity, given what was held before.
  pub record Holds (before : Option (FeatureState V)) (fs : List (FeatureState V))
      (g : FeatureState V) : Type 0 where
    pub chosen : (before ≡ some g) ⊎ Among g fs
    pub not_older : All (Covers g) fs

  merge_all-Holds :
      (o : Option (FeatureState V)) (f : FeatureState V) (fs : List (FeatureState V)) (i : Text)
      → ((current : FeatureState V) → o ≡ some current → current.feature_id ≡ i)
      → All (λ h. h.feature_id ≡ i) (f ∷ fs)
      → (g : FeatureState V) × (merge_all o (f ∷ fs) ≡ some g) × Holds o (f ∷ fs) g
  unfolding merge_all merge_feature
  merge_all-Holds none f fs i h (d, ds) =
      let r = merge_all-IsLatest f fs i d ds in
      let w = r.2 in
      (
        r.0,
        r.1,
        record {
          chosen = elim w.chosen [ inl a ↦ inr (inl a) | inr a ↦ inr (inr a) ];
          not_older = (w.covers_current, w.covers_all);
        },
      )
  merge_all-Holds (some current) f fs i h (d, ds) =
      let r = merge_all-IsLatest current (f ∷ fs) i (h current refl) (d, ds) in
      let w = r.2 in
      (
        r.0,
        r.1,
        record {
          chosen = elim w.chosen [ inl a ↦ inl (ap some (sym a)) | inr a ↦ inr a ];
          not_older = w.covers_all;
        },
      )

  -- If at least one event of the client's current revision comes in for a key, all the events are of
  -- one identity, and so is the feature that the client holds for that revision, if any, then in
  -- whichever order they came the client then holds one of these features, and none of the events
  -- is newer than it.
  pub apply_events-latest :
      (f : FeatureState V) (fs : List (FeatureState V)) (revision : ℕ) (c : Client V) (k i : Text)
      → is_empty k ≡ false
      → All (λ h. h.feature_key ≡ k) (f ∷ fs)
      → All (λ h. h.feature_id ≡ i) (f ∷ fs)
      → ((current : FeatureState V) → held revision k c ≡ some current → current.feature_id ≡ i)
      → c.context_revision ≡ revision
      → (g : FeatureState V) × (held revision k (apply_events (f ∷ fs) revision c) ≡ some g)
        × Holds (held revision k c) (f ∷ fs) g
  apply_events-latest f fs revision c k i n keys ids current h =
      let r = merge_all-Holds (held revision k c) f fs i current ids in
      (r.0, apply_events-merge_all (f ∷ fs) revision c k n keys h ∙ r.1, r.2)
