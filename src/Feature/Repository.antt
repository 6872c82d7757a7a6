-- ===== src/Feature/Repository.antt =====
-- feature/flags.go: the features that a client holds, and the events that change them. Each function is
-- one section that the client's mutex guards.
use fit_go.Base.{
  ℕ, suc, Bool, true, false, not, ◌||◌, ◌&&◌, List, [], ◌∷◌, Option, none, some, if◌then◌else◌,
  ◌==◌, Text, codes, same, is_empty, Dict, lookup, insert, delete, ℤ, pos, negsuc, ltb_ℤ,
}
use fit_go.Feature.Matchers.{Library}
use fit_go.Feature.Strategies.{FeatureState, apply_strategies}
use fit_go.Feature.Casts.{FeatureValue, is_nil_value}

-- Client, without its connection: the two revisions, what is known of the stream, and the timer of a
-- stale window (whether it is set, and its generation).
pub record Client (V : Type 0) : Type 0 where
  pub client_evaluated : Bool
  pub features : Dict (FeatureState V)
  pub attributes : Dict (List Text)
  pub context_revision : ℕ
  pub feature_context_revision : ℕ
  pub ready : Bool
  pub ready_revision : ℕ
  pub received_initial : Bool
  pub feature_events : ℕ
  pub last_error : Option Text
  pub stale_timer : Bool
  pub stale_generation : ℕ

-- featureVersion
abbrev version_or : Option ℤ → ℤ
version_or none = negsuc 0
version_or (some v) = v

abbrev is_zero_version : ℤ → Bool
is_zero_version (pos n) = n == 0
is_zero_version (negsuc n) = false

abbrev covers_version : Option ℤ → ℤ → Bool
covers_version none current = true
covers_version (some v) current = is_zero_version v || not (ltb_ℤ v current)

module _ {V : Type 0} where
  abbrev pub version_of : FeatureState V → ℤ
  version_of feature = version_or feature.feature_version

  unfoldable pub identity_changed : FeatureState V → FeatureState V → Bool
  identity_changed current incoming =
      not (is_empty current.feature_id)
      && not (is_empty incoming.feature_id)
      && not (same current.feature_id incoming.feature_id)

  -- What a key holds after a feature came in for it.
  unfoldable pub merge_feature : Option (FeatureState V) → FeatureState V → FeatureState V
  merge_feature none feature = feature
  merge_feature (some current) feature =
      if identity_changed current feature || not (ltb_ℤ (version_of feature) (version_of current))
      then feature
      else current

  unfoldable pub prepare_namespace : ℕ → Client V → Client V
  prepare_namespace revision c = record c {
    features =
        if not c.client_evaluated && not (c.feature_context_revision == revision)
        then []
        else c.features;
    feature_context_revision = revision;
  }

  unfoldable pub clear_stale_retention : Client V → Client V
  clear_stale_retention c = record c {
    stale_generation = suc c.stale_generation;
    stale_timer = false;
  }

  unfoldable pub put_feature : FeatureState V → Dict (FeatureState V) → Dict (FeatureState V)
  put_feature feature features =
      insert feature.feature_key (merge_feature (lookup feature.feature_key features) feature)
        features

  -- The loop over the incoming features, which may be nil or have no key.
  unfoldable pub put_features :
      List (Option (FeatureState V)) → Dict (FeatureState V) → Dict (FeatureState V)
  put_features [] features = features
  put_features (none ∷ rest) features = put_features rest features
  put_features (some f ∷ rest) features =
      if is_empty f.feature_key
      then put_features rest features
      else put_features rest (put_feature f features)

  unfoldable pub is_incoming : Text → List (Option (FeatureState V)) → Bool
  is_incoming key [] = false
  is_incoming key (none ∷ rest) = is_incoming key rest
  is_incoming key (some f ∷ rest) =
      let later = is_incoming key rest in
      if not (is_empty f.feature_key) && same f.feature_key key then true else later

  -- The loop that deletes the keys that did not come in.
  unfoldable pub retain_incoming :
      List (Option (FeatureState V)) → Dict (FeatureState V) → Dict (FeatureState V)
  retain_incoming incoming [] = []
  retain_incoming incoming ((k, f) ∷ features) =
      let rest = retain_incoming incoming features in
      if is_incoming k incoming then (k, f) ∷ rest else rest

  unfoldable pub publish : ℕ → Client V → Client V
  publish revision c = record c {
    feature_events = suc c.feature_events;
    ready_revision = revision;
    ready = true;
    received_initial = true;
    last_error = none;
  }

  unfoldable pub apply_full_feature_set :
      List (Option (FeatureState V)) → ℕ → Client V → Bool × Client V
  apply_full_feature_set incoming revision c =
      let prepared = prepare_namespace revision c in
      if c.context_revision == revision
      then (
        true,
        publish revision (
            clear_stale_retention (record prepared {
              features = retain_incoming incoming (put_features incoming prepared.features);
            })),
      )
      else (false, c)

  abbrev count_event : Client V → Client V
  count_event c = record c { feature_events = suc c.feature_events }

  unfoldable pub apply_feature : FeatureState V → ℕ → Client V → Bool × Client V
  apply_feature feature revision c =
      let prepared = prepare_namespace revision c in
      if is_empty feature.feature_key || not (c.context_revision == revision) then (false, c) else (
        true,
        count_event (
            clear_stale_retention
              (record prepared { features = put_feature feature prepared.features })),
      )

  -- Whether a delete event is about the feature that the key holds, and not older than it.
  unfoldable pub may_delete : Option (FeatureState V) → FeatureState V → Bool
  may_delete none feature = true
  may_delete (some current) feature =
      (is_empty feature.feature_id
        || is_empty current.feature_id
        || same feature.feature_id current.feature_id)
      && covers_version feature.feature_version (version_of current)

  unfoldable pub remove_feature : FeatureState V → Dict (FeatureState V) → Dict (FeatureState V)
  remove_feature feature features =
      if may_delete (lookup feature.feature_key features) feature
      then delete feature.feature_key features
      else features

  unfoldable pub delete_feature : FeatureState V → ℕ → Client V → Bool × Client V
  delete_feature feature revision c =
      let prepared = prepare_namespace revision c in
      if is_empty feature.feature_key || not (c.context_revision == revision) then (false, c) else (
        true,
        count_event (
            clear_stale_retention
              (record prepared { features = remove_feature feature prepared.features })),
      )

  -- replaceAttributes, given whether the attributes differ from the client's.
  unfoldable pub replace_attributes : Bool → Dict (List Text) → Client V → Client V
  replace_attributes changed attributes c =
      if changed
      then (if c.client_evaluated then record c { attributes = attributes } else record c {
        attributes = attributes;
        context_revision = suc c.context_revision;
        ready = false;
      })
      else c

  -- retainReadyDuringStaleWindow: the timer is set once in a window.
  unfoldable pub retain_ready : Client V → Client V
  retain_ready c =
      if c.stale_timer
      then c
      else record c { stale_generation = suc c.stale_generation; stale_timer = true }

  -- The timer's function, set at a generation.
  unfoldable pub expire_stale : ℕ → Client V → Client V
  expire_stale generation c =
      if c.stale_generation == generation
      then record c {
        stale_timer = false;
        last_error =
            some (codes "FeatureHub cached snapshot expired while the edge remained stale");
        ready = false;
      }
      else c

abbrev or_else : {V : Type 0} → Option V → V → V
or_else none v = v
or_else (some w) v = w

module _ {F D I G O : Type 0} (lib : Library F D I) (now : D) where
  abbrev evaluate_feature :
      Bool → Dict (List Text) → FeatureState (FeatureValue G O) → FeatureValue G O
  evaluate_feature client_evaluated attributes feature =
      if client_evaluated
      then or_else (apply_strategies lib feature attributes now) feature.feature_value
      else feature.feature_value

  abbrev present : Text → FeatureValue G O → Option (FeatureValue G O × Text)
  present feature_type value = if is_nil_value value then none else some (value, feature_type)

  abbrev evaluate_found :
      Bool
      → Dict (List Text)
      → Option (FeatureState (FeatureValue G O))
      → Option (FeatureValue G O × Text)
  evaluate_found client_evaluated attributes none = none
  evaluate_found client_evaluated attributes (some feature) =
      present feature.feature_type (evaluate_feature client_evaluated attributes feature)

  -- evaluatedValueFor: the value and the declared type, unless the value is nil.
  unfoldable pub evaluated_value_for :
      Client (FeatureValue G O) → Text → Dict (List Text) → Option (FeatureValue G O × Text)
  evaluated_value_for c key attributes =
      evaluate_found c.client_evaluated attributes (lookup key c.features)

  -- evaluatedValue, in the client's own context.
  unfoldable pub evaluated_value :
      Client (FeatureValue G O) → Text → Option (FeatureValue G O × Text)
  evaluated_value c key = evaluated_value_for c key c.attributes
