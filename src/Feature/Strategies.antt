-- ===== src/Feature/Strategies.antt =====
-- feature/strategy.go: applyStrategies. A percentage counts millionths and is a natural number, whose
-- sums a float64 holds exactly.
use fit_go.Base.{
  ℤ, ℕ, ◌+◌, Bool, true, false, not, ◌||◌, ◌&&◌, List, [], ◌∷◌, ◌++◌, Option, none, some,
  if◌then◌else◌, leb, ◌==◌, Text, codes, same, is_empty, Dict, lookup, insert,
}
use fit_go.Feature.Hash.{determine_client_percentage}
use fit_go.Feature.Matchers.{Library, StrategyAttribute}
use fit_go.Feature.Attributes.{first_attribute, match_attributes}

pub record RolloutStrategy (V : Type 0) : Type 0 where
  pub percentage : ℕ
  pub percentage_attributes : List Text
  pub attributes : List StrategyAttribute
  pub strategy_value : V

-- featureState, without the lock mark that nothing reads.
pub record FeatureState (V : Type 0) : Type 0 where
  pub feature_id : Text
  pub feature_key : Text
  pub feature_version : Option ℤ
  pub feature_type : Text
  pub feature_value : V
  pub strategies : List (RolloutStrategy V)

-- The loop's variables: basePercentages, and the key with its percentage once calculated.
pub record Rollout : Type 0 where
  pub base_percentages : Dict ℕ
  pub calculated : Option (Text × ℕ)

abbrev pub is_nil : {A : Type 0} → List A → Bool
is_nil [] = true
is_nil (x ∷ xs) = false

-- strings.Join(parts, "$") over what the context has for each attribute.
unfoldable pub join_attributes : Dict (List Text) → List Text → Text
join_attributes context [] = []
join_attributes context (a ∷ []) = first_attribute context a (codes "<none>")
join_attributes context (a ∷ b ∷ rest) =
    first_attribute context a (codes "<none>") ++ (codes "$" ++ join_attributes context (b ∷ rest))

abbrev pub default_percentage_key : Dict (List Text) → Text
default_percentage_key context =
    first_attribute context (codes "session") (first_attribute context (codes "userkey") [])

abbrev pub zero_or : Option ℕ → ℕ
zero_or none = 0
zero_or (some n) = n

-- The percentage of a key, and the calculated pair afterwards.
abbrev pub calculate : Text → Text → Option (Text × ℕ) → Text × ℕ
calculate feature_id key none = (key, determine_client_percentage key feature_id)
calculate feature_id key (some (old, percentage)) =
    if same old key then (old, percentage) else (key, determine_client_percentage key feature_id)

module _ {V : Type 0} where
  abbrev pub percentage_key : Dict (List Text) → RolloutStrategy V → Text
  percentage_key context strategy =
      if is_nil strategy.percentage_attributes
      then default_percentage_key context
      else join_attributes context strategy.percentage_attributes

  abbrev pub takes_percentage : Dict (List Text) → RolloutStrategy V → Bool
  takes_percentage context strategy =
      not (strategy.percentage == 0)
      && (not (is_empty (default_percentage_key context))
          || not (is_nil strategy.percentage_attributes))

  -- What is added up so far under the key, or zero for a strategy with attributes.
  abbrev pub base_of : Text → RolloutStrategy V → Dict ℕ → ℕ
  base_of key strategy bases = if is_nil strategy.attributes then zero_or (lookup key bases) else 0

  abbrev add_base : Text → RolloutStrategy V → Dict ℕ → Dict ℕ
  add_base key strategy bases =
      if is_nil strategy.attributes
      then insert key (zero_or (lookup key bases) + strategy.percentage) bases
      else bases

module _ {F D I V : Type 0} (lib : Library F D I) (feature_id : Text) (context : Dict (List Text))
    (now : D) where
  -- The test in a strategy's percentage part.
  unfoldable pub in_bucket : RolloutStrategy V → Text × ℕ → Dict ℕ → Bool
  in_bucket strategy (key, percentage) bases =
      leb percentage (base_of key strategy bases + strategy.percentage)
      && (is_nil strategy.attributes || match_attributes lib context strategy.attributes now)

  -- The loop's variables after a strategy that is not chosen for its percentage.
  unfoldable pub next_rollout : RolloutStrategy V → Text × ℕ → Dict ℕ → Rollout
  next_rollout strategy (key, percentage) bases = record {
    base_percentages = add_base key strategy bases;
    calculated = some (key, percentage);
  }

  -- The second test of the loop's body.
  abbrev pub is_matched : RolloutStrategy V → Bool
  is_matched strategy =
      strategy.percentage == 0
      && not (is_nil strategy.attributes)
      && match_attributes lib context strategy.attributes now

  unfoldable pub choose : List (RolloutStrategy V) → Rollout → Option V
  choose [] r = none
  choose (strategy ∷ rest) r =
      let calculated = calculate feature_id (percentage_key context strategy) r.calculated in
      let counted = choose rest (next_rollout strategy calculated r.base_percentages) in
      let passed = choose rest r in
      if takes_percentage context strategy
      then if in_bucket strategy calculated r.base_percentages
        then some strategy.strategy_value
        else counted
      else if is_matched strategy
      then some strategy.strategy_value
      else passed

abbrev pub start_rollout : Rollout
start_rollout = record { base_percentages = []; calculated = none }

unfoldable pub apply_strategies :
    {F D I V : Type 0} → Library F D I → FeatureState V → Dict (List Text) → D → Option V
apply_strategies lib feature context now =
    choose lib feature.feature_id context now feature.strategies start_rollout
