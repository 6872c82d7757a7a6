-- ===== src/Feature/Buckets.antt =====
-- feature/strategy.go: the percentages of the strategies divide the clients into buckets.
use fit_go.Base.{
  ℕ, ◌+◌, ◌≤◌, ◌<◌, ◌≡◌, refl, ◌∙◌, true, false, inl, inr, List, [], ◌∷◌, ◌++◌, Option, none, some,
  if◌then◌else◌, leb, ◌==◌, Text, is_empty, same_refl, Dict, lookup, lookup-insert, All, Bool-cases,
  arith,
}
use fit_go.Feature.Hash.{
  determine_client_percentage, determine_client_percentage-below, max_percentage,
}
use fit_go.Feature.Matchers.{Library}
use fit_go.Feature.Strategies.{
  RolloutStrategy, FeatureState, Rollout, is_nil, default_percentage_key, zero_or, calculate,
  percentage_key, takes_percentage, in_bucket, next_rollout, is_matched, choose, start_rollout,
  apply_strategies,
}

-- A strategy with a percentage alone.
pub record IsPlain {V : Type 0} (s : RolloutStrategy V) : Type 0 where
  pub no_keys : is_nil s.percentage_attributes ≡ true
  pub no_attributes : is_nil s.attributes ≡ true

-- The buckets lie side by side: the first one that ends at or after the client's percentage has the
-- value. An empty bucket has no client.
unfoldable pub bucket : {V : Type 0} → ℕ → ℕ → List (RolloutStrategy V) → Option V
bucket percentage base [] = none
bucket percentage base (s ∷ ss) =
    let later = bucket percentage (base + s.percentage) ss in
    if s.percentage == 0
    then later
    else if leb percentage (base + s.percentage)
    then some s.strategy_value
    else later

unfoldable pub total : {V : Type 0} → List (RolloutStrategy V) → ℕ
total [] = 0
total (s ∷ ss) = s.percentage + total ss

-- Where the loop stands: what the bases add up to, and that the cache is right.
record IsAt (feature_id : Text) (context : Dict (List Text)) (base : ℕ) (r : Rollout) : Type 0 where
  reached : zero_or (lookup (default_percentage_key context) r.base_percentages) ≡ base
  cached : calculate feature_id (default_percentage_key context) r.calculated ≡ (
    default_percentage_key context,
    determine_client_percentage (default_percentage_key context) feature_id,
  )

module _ {F D I V : Type 0} (lib : Library F D I) (feature_id : Text) (context : Dict (List Text))
    (now : D) where
  choose-bucket :
      (ss : List (RolloutStrategy V)) (base : ℕ) (r : Rollout)
      → is_empty (default_percentage_key context) ≡ false
      → All IsPlain ss
      → IsAt feature_id context base r
      → choose lib feature_id context now ss r
        ≡ bucket (determine_client_percentage (default_percentage_key context) feature_id) base ss
  unfolding choose bucket in_bucket next_rollout
  choose-bucket [] base r n a w = refl
  choose-bucket (s ∷ ss) base r n (a, later) w =
      let key = default_percentage_key context in
      let p = determine_client_percentage key feature_id in
      elim (Bool-cases (s.percentage == 0)) [
        | inl empty ↦
            let none_left : s.percentage ≡ 0 = ground arith in
            let e : base + s.percentage ≡ base = omega arith in
            simp (a.no_keys, a.no_attributes, empty, e) (choose-bucket ss base r n later w)
        | inr filled ↦ elim (Bool-cases (leb p (base + s.percentage))) [
          | inl inside ↦ simp (a.no_keys, a.no_attributes, filled, n, w.cached, w.reached, inside)
          | inr outside ↦
              simp (a.no_keys, a.no_attributes, filled, n, w.cached, w.reached, outside)
                (choose-bucket ss (base + s.percentage) _ n later (record {
                  reached = simp (
                    lookup-insert key key (base + s.percentage) r.base_percentages,
                    same_refl key,
                  );
                  cached = simp (same_refl key);
                }))
        ]
      ]

-- For strategies with a percentage alone and a client that has a session or a user key, what
-- applyStrategies chooses, with its map of bases and its cache, is what the buckets side by side give
-- for the client's percentage.
pub apply_strategies-bucket :
    {F D I V : Type 0} (lib : Library F D I) (feature : FeatureState V) (context : Dict (List Text))
    (now : D)
    → is_empty (default_percentage_key context) ≡ false
    → All IsPlain feature.strategies
    → apply_strategies lib feature context now
      ≡ bucket
          (determine_client_percentage (default_percentage_key context) feature.feature_id)
          0
          feature.strategies
unfolding apply_strategies lookup
apply_strategies-bucket lib feature context now n a =
    choose-bucket lib feature.feature_id context now feature.strategies 0 start_rollout n a
      (record { reached = refl; cached = refl })

bucket-some :
    {V : Type 0} (p base : ℕ) (ss : List (RolloutStrategy V))
    → 0 < total ss
    → p ≤ base + total ss
    → (v : V) × (bucket p base ss ≡ some v)
unfolding bucket total
bucket-some p base [] h k = absurd (omega arith)
bucket-some p base (s ∷ ss) h k = elim (Bool-cases (s.percentage == 0)) [
  | inl empty ↦
      let none_left : s.percentage ≡ 0 = ground arith in
      let r = bucket-some p (base + s.percentage) ss (omega arith) (omega arith) in
      (r.0, simp empty r.1)
  | inr filled ↦ elim (Bool-cases (leb p (base + s.percentage))) [
    | inl inside ↦ (s.strategy_value, simp (filled, inside))
    | inr outside ↦
        let beyond : base + s.percentage < p = ground arith in
        let r = bucket-some p (base + s.percentage) ss (omega arith) (omega arith) in
        (r.0, simp (filled, outside) r.1)
  ]
]

bucket-none :
    {V : Type 0} (p base : ℕ) (ss : List (RolloutStrategy V))
    → base + total ss < p
    → bucket p base ss ≡ none
unfolding bucket total
bucket-none p base [] h = refl
bucket-none p base (s ∷ ss) h =
    let outside : leb p (base + s.percentage) ≡ false = ground arith in
    let later = bucket-none p (base + s.percentage) ss (omega arith) in
    elim (Bool-cases (s.percentage == 0)) [
      | inl empty ↦ simp (empty, later)
      | inr filled ↦ simp (filled, outside, later)
    ]

-- If the percentages of such strategies add up to at least a million, every client with a session
-- or a user key gets a value.
pub apply_strategies-total :
    {F D I V : Type 0} (lib : Library F D I) (feature : FeatureState V) (context : Dict (List Text))
    (now : D)
    → is_empty (default_percentage_key context) ≡ false
    → All IsPlain feature.strategies
    → max_percentage ≤ total feature.strategies
    → (v : V) × (apply_strategies lib feature context now ≡ some v)
apply_strategies-total lib feature context now n a h =
    let key = default_percentage_key context in
    let below = determine_client_percentage-below key feature.feature_id in
    let r =
      bucket-some (determine_client_percentage key feature.feature_id) 0 feature.strategies
        (omega arith) (omega arith) in
    (r.0, apply_strategies-bucket lib feature context now n a ∙ r.1)

-- A client whose percentage is above the sum of the percentages gets no value from such strategies.
pub apply_strategies-outside :
    {F D I V : Type 0} (lib : Library F D I) (feature : FeatureState V) (context : Dict (List Text))
    (now : D)
    → is_empty (default_percentage_key context) ≡ false
    → All IsPlain feature.strategies
    → total feature.strategies
      < determine_client_percentage (default_percentage_key context) feature.feature_id
    → apply_strategies lib feature context now ≡ none
apply_strategies-outside lib feature context now n a h =
    apply_strategies-bucket lib feature context now n a
    ∙ bucket-none (determine_client_percentage (default_percentage_key context) feature.feature_id)
        0 feature.strategies (omega arith)

choose-append :
    {F D I V : Type 0} (lib : Library F D I) (feature_id : Text) (context : Dict (List Text))
    (now : D) (ss more : List (RolloutStrategy V)) (r : Rollout) (v : V)
    → choose lib feature_id context now ss r ≡ some v
    → choose lib feature_id context now (ss ++ more) r ≡ some v
unfolding choose
choose-append lib feature_id context now [] more r v h = absurd (cc)
choose-append lib feature_id context now (s ∷ ss) more r v h =
    let c = calculate feature_id (percentage_key context s) r.calculated in
    elim (Bool-cases (takes_percentage context s)) [
      | inl takes ↦
          elim (Bool-cases (in_bucket lib feature_id context now s c r.base_percentages)) [
            | inl inside ↦ simp (takes, inside) (simp (takes, inside) at h)
            | inr outside ↦
                simp (takes, outside)
                  (choose-append lib feature_id context now ss more _ v
                    (simp (takes, outside) at h))
          ]
      | inr passes ↦ elim (Bool-cases (is_matched lib feature_id context now s)) [
        | inl matched ↦ simp (passes, matched) (simp (passes, matched) at h)
        | inr skipped ↦
            simp (passes, skipped)
              (choose-append lib feature_id context now ss more r v (simp (passes, skipped) at h))
      ]
    ]

-- Strategies that are added after the others change nothing for a client who already gets a value,
-- whatever the strategies' percentages and attributes.
pub apply_strategies-append :
    {F D I V : Type 0} (lib : Library F D I) (feature : FeatureState V) (context : Dict (List Text))
    (now : D) (more : List (RolloutStrategy V)) (v : V)
    → apply_strategies lib feature context now ≡ some v
    → apply_strategies lib (record feature { strategies = feature.strategies ++ more }) context now
      ≡ some v
unfolding apply_strategies
apply_strategies-append lib feature context now more v h =
    choose-append lib feature.feature_id context now feature.strategies more start_rollout v h
