-- ===== src/Feature/Tests.antt =====
-- feature/strategy.go: known hashes, and the strategies of one feature.
use fit_go.Base.{
  ℕ, ◌≡◌, refl, true, List, [], ◌∷◌, ◌++◌, Option, none, some, Text, codes, same, lookup, insert,
  Dict, All, arith, ltb, ◌==◌,
}
use fit_go.Feature.Hash.{
  murmur_hash3, finish_hash, hash_blocks, mix_block, scramble, determine_client_percentage,
}
use fit_go.Feature.Matchers.{Library, StrategyAttribute}
use fit_go.Feature.Attributes.{first_attribute}
use fit_go.Feature.Strategies.{
  RolloutStrategy, FeatureState, choose, in_bucket, next_rollout, apply_strategies,
  default_percentage_key,
}
use fit_go.Feature.Buckets.{
  IsPlain, bucket, total, apply_strategies-bucket, apply_strategies-total, apply_strategies-append,
}
use fit_go.Feature.Casts.{
  CastLibrary, text_value, cast_feature_value, HasType, cast_feature_value-HasType,
}

-- The published hashes of these texts.
murmur_hash3_empty : murmur_hash3 [] 0 ≡ 0
unfolding murmur_hash3 finish_hash hash_blocks
murmur_hash3_empty = refl

murmur_hash3_hello : murmur_hash3 (codes "hello") 0 ≡ 0x248bfa47
unfolding murmur_hash3 finish_hash hash_blocks mix_block scramble
murmur_hash3_hello = refl

murmur_hash3_world : murmur_hash3 (codes "hello, world") 0 ≡ 0x149bbb7f
unfolding murmur_hash3 finish_hash hash_blocks mix_block scramble
murmur_hash3_world = refl

-- A library whose floats are numbers and whose versions are unary.
unary : Text → Option ℕ
unary [] = some 0
unary (c ∷ cs) = some c

abbrev plain : Library ℕ ℕ ℕ
plain = record {
  parse_float = unary;
  less = ltb;
  equal = λ a b. a == b;
  compile = λ t. none;
  number_prefix = λ b t. t;
  parse_nano = λ t. none;
  parse_rfc3339 = λ t. none;
  parse_day = λ t. none;
  show_day = λ d. [];
  show_second = λ d. [];
  show_nano = λ d. [];
  parse_ip = λ t. none;
  same_ip = λ a b. a == b;
  parse_cidr = λ t. none;
}

abbrev client : Dict (List Text)
client = (codes "session", codes "user-1" ∷ []) ∷ (codes "plan", codes "gold" ∷ []) ∷ []

abbrev share : ℕ → ℕ → RolloutStrategy ℕ
share percentage value = record {
  percentage = percentage;
  percentage_attributes = [];
  attributes = [];
  strategy_value = value;
}

abbrev halves : FeatureState ℕ
halves = record {
  feature_id = codes "f1";
  feature_key = codes "checkout";
  feature_version = none;
  feature_type = codes "NUMBER";
  feature_value = 0;
  strategies = share 500000 1 ∷ share 500000 2 ∷ [];
}

client_key : default_percentage_key client ≡ codes "user-1"
unfolding first_attribute lookup same
client_key = refl

shares-IsPlain : (m n : ℕ) → All IsPlain (share m 1 ∷ share n 2 ∷ [])
shares-IsPlain m n = (
  record { no_keys = refl; no_attributes = refl },
  (record { no_keys = refl; no_attributes = refl }, tt),
)

apply_strategies-bucket_example :
    apply_strategies plain halves client 0
    ≡ bucket
        (determine_client_percentage (default_percentage_key client) (codes "f1"))
        0
        halves.strategies
unfolding first_attribute lookup same
apply_strategies-bucket_example =
    apply_strategies-bucket plain halves client 0 refl (shares-IsPlain 500000 500000)

apply_strategies-total_example : (v : ℕ) × (apply_strategies plain halves client 0 ≡ some v)
unfolding first_attribute lookup same total
apply_strategies-total_example =
    apply_strategies-total plain halves client 0 refl (shares-IsPlain 500000 500000) (omega arith)

halves_value : apply_strategies plain halves client 0 ≡ some 1
unfolding apply_strategies choose in_bucket next_rollout first_attribute lookup insert same
    determine_client_percentage murmur_hash3 finish_hash hash_blocks mix_block scramble
halves_value = refl

apply_strategies-append_example :
    apply_strategies plain
      (record halves { strategies = halves.strategies ++ share 9 7 ∷ [] })
      client
      0
    ≡ some 1
apply_strategies-append_example =
    apply_strategies-append plain halves client 0 (share 9 7 ∷ []) 1 halves_value

abbrev gold : StrategyAttribute
gold = record {
  conditional = codes "EQUALS";
  field_name = codes "plan";
  attribute_values = some (some (codes "gold") ∷ none ∷ []);
  attribute_type = codes "STRING";
}

abbrev casts : CastLibrary ℕ ℕ
casts = record {
  parse_float = unary;
  float_of = λ n. 0;
  sprint_other = λ v. [];
  unmarshal = λ t. none;
}

cast_feature_value-HasType_example :
    HasType
      (codes "NUMBER")
      (cast_feature_value casts (codes "NUMBER") (text_value (codes "1")) true)
cast_feature_value-HasType_example =
    cast_feature_value-HasType casts (codes "NUMBER") (text_value (codes "1")) true
