-- ===== src/Feature/StreamTests.antt =====
-- feature/flags.go: one client, its events, and its waits.
use fit_go.Base.{
  ℕ, zero, suc, ◌*◌, ◌^◌, ◌≡◌, ◌≤◌, refl, true, false, [], ◌∷◌, none, some, codes, same, lookup,
  arith, ℤ, pos, leb,
}
use fit_go.Feature.Strategies.{FeatureState}
use fit_go.Feature.Repository.{
  Client, apply_full_feature_set, is_incoming, delete_feature, prepare_namespace, remove_feature,
  may_delete, clear_stale_retention,
}
use fit_go.Feature.Merging.{is_some, apply_full_feature_set-keys}
use fit_go.Feature.Latest.{apply_events, held, Holds, apply_events-latest}
use fit_go.Feature.Backoff.{
  other_error, lesser, greater, with_jitter, max_reconnect_interval, retry_delay,
  retry_delay_for_attempt, retry_delay_for_attempt-power, stale, double_delay,
}
use fit_go.Feature.Stream.{
  StreamLibrary, consume_stream, number_json, config_end, edge_stale_seconds, stale_delay,
}
use fit_go.Feature.Waits.{IsRaised, longest_wait, retry_delay_for_attempt-bounded}
use fit_go.Feature.Obsolete.{consume_stream-left}

abbrev state : ℤ → ℕ → FeatureState ℕ
state version value = record {
  feature_id = codes "a1";
  feature_key = codes "checkout";
  feature_version = some version;
  feature_type = codes "NUMBER";
  feature_value = value;
  strategies = [];
}

abbrev client : Client ℕ
client = record {
  client_evaluated = false;
  features = (codes "checkout", state (pos 3) 30) ∷ (codes "old", state (pos 1) 10) ∷ [];
  attributes = [];
  context_revision = 7;
  feature_context_revision = 7;
  ready = false;
  ready_revision = 0;
  received_initial = false;
  feature_events = 0;
  last_error = none;
  stale_timer = true;
  stale_generation = 4;
}

apply_full_feature_set-keys_example :
    is_some (
      lookup
        (codes "old")
        (apply_full_feature_set (some (state (pos 2) 20) ∷ none ∷ []) 7 client).1.features)
    ≡ is_incoming (codes "old") (some (state (pos 2) 20) ∷ none ∷ [])
apply_full_feature_set-keys_example =
    apply_full_feature_set-keys (some (state (pos 2) 20) ∷ none ∷ []) 7 client (codes "old") refl

apply_events-latest_example :
    (g : FeatureState ℕ) × (held 7
        (codes "checkout")
        (apply_events (state (pos 5) 50 ∷ state (pos 4) 40 ∷ []) 7 client)
      ≡ some g)
    × Holds (held 7 (codes "checkout") client) (state (pos 5) 50 ∷ state (pos 4) 40 ∷ []) g
unfolding lookup prepare_namespace same
apply_events-latest_example =
    apply_events-latest (state (pos 5) 50) (state (pos 4) 40 ∷ []) 7 client (codes "checkout")
      (codes "a1") refl (refl, (refl, tt)) (refl, (refl, tt)) (λ current e. cc) refl

abbrev steady : ℕ → ℤ
steady d = pos d

steady-le : (d : ℕ) → with_jitter steady d ≤ d
steady-le zero = omega arith
steady-le (suc d) = omega arith

retry_delay_for_attempt-power_example :
    retry_delay_for_attempt (pos 0) steady other_error 4
    ≡ with_jitter steady (
        lesser
          (retry_delay (pos 0) other_error * 2 ^ 3)
          (greater max_reconnect_interval (retry_delay (pos 0) other_error)))
retry_delay_for_attempt-power_example = retry_delay_for_attempt-power (pos 0) steady 4

-- The fourth attempt waits eight times the base delay.
fourth_attempt : retry_delay_for_attempt (pos 0) steady other_error 4 ≡ 8000000000
unfolding retry_delay_for_attempt retry_delay double_delay
fourth_attempt = refl

abbrev decoders : StreamLibrary ℕ ℕ
decoders = record {
  decode_config = λ t. none;
  decode_features = λ t. some [];
  decode_feature = λ t. some (state (pos 9) 90);
  parse_float = λ t. none;
  is_finite = λ x. true;
  not_positive = λ x. leb x 0;
  over_cap = λ x. leb 30 x;
  nanoseconds = λ x. x * 1000000000;
  one_second = 1;
}

decoders-cap :
    (x : ℕ) → decoders.over_cap x ≡ false → decoders.nanoseconds x ≤ max_reconnect_interval
decoders-cap x h = ground arith

-- A config event that says the edge is stale for 12 seconds.
twelve : IsRaised decoders (pos 0) (stale (pos 12000000000))
unfolding config_end edge_stale_seconds stale_delay retry_delay
twelve = (some (some (number_json 12)), 12000000000, refl, refl)

retry_delay_for_attempt-bounded_example :
    retry_delay_for_attempt (pos 0) steady (stale (pos 12000000000)) 9
    ≤ longest_wait decoders (pos 0) (stale (pos 12000000000))
retry_delay_for_attempt-bounded_example =
    retry_delay_for_attempt-bounded decoders (pos 0) steady (stale (pos 12000000000)) 9 steady-le
      decoders-cap twelve

consume_stream-left_example :
    (consume_stream decoders
      (pos 0)
      6
      (codes "event: features" ∷ codes "data: []" ∷ [] ∷ [])
      client).1
    ≡ client
consume_stream-left_example =
    consume_stream-left decoders (pos 0) 6 (codes "event: features" ∷ codes "data: []" ∷ [] ∷ [])
      client (λ e. ground arith)

-- A delete event with an older version leaves the feature.
old_delete : (delete_feature (state (pos 2) 0) 7 client).1.features ≡ client.features
unfolding delete_feature prepare_namespace remove_feature may_delete lookup same
    clear_stale_retention
old_delete = refl
