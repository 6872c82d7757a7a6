-- ===== src/Feature/Stream.antt =====
-- feature/flags.go: the events of one stream, from its lines to the client's features.
use fit_go.Base.{
  ℕ, Bool, ◌||◌, List, [], ◌∷◌, Option, none, some, if◌then◌else◌, ltb, Text, codes, same, is_empty,
  trim_space, Result, ok, err, ℤ,
}
use fit_go.Sse.Event.{SseEvent, EventError, empty_event, append_line, is_empty_event, reset}
use fit_go.Feature.Strategies.{FeatureState}
use fit_go.Feature.Backoff.{other_error, retry_delay, max_reconnect_interval, lesser}
use fit_go.Feature.Repository.{Client, apply_full_feature_set, apply_feature, delete_feature}

-- What edge.stale holds in a config event, as encoding/json decodes it.
pub data JsonValue (F : Type 0) : Type 0 where
  null_json other_json : JsonValue F
  bool_json : Bool → JsonValue F
  number_json : F → JsonValue F
  text_json : Text → JsonValue F

-- The decoders of the payloads, and the floats. `decode_config` finds edge.stale, if it is there.
-- `over_cap` says that a float is infinite or at least maxReconnectInterval in seconds, and
-- `nanoseconds` is the conversion of a smaller one.
pub record StreamLibrary (F V : Type 0) : Type 0 where
  pub decode_config : Text → Option (Option (JsonValue F))
  pub decode_features : Text → Option (List (Option (FeatureState V)))
  pub decode_feature : Text → Option (FeatureState V)
  pub parse_float : Text → Option F
  pub is_finite : F → Bool
  pub not_positive : F → Bool
  pub over_cap : F → Bool
  pub nanoseconds : F → ℕ
  pub one_second : F

-- Why a stream ends.
pub data StreamEnd : Type 0 where
  end_of_stream event_too_large : StreamEnd
  emitted undecodable : Text → StreamEnd
  edge_stale : ℕ → StreamEnd

module _ {F V : Type 0} (lib : StreamLibrary F V) where
  abbrev usable_seconds : Option F → Option (Option F)
  usable_seconds none = none
  usable_seconds (some x) =
      if lib.is_finite x then (if lib.not_positive x then some none else some (some x)) else none

  -- edgeStaleSeconds: none is an error, some none says that the edge is not stale.
  unfoldable pub edge_stale_seconds : JsonValue F → Option (Option F)
  edge_stale_seconds null_json = some none
  edge_stale_seconds (bool_json b) = if b then some (some lib.one_second) else some none
  edge_stale_seconds (number_json x) = if lib.not_positive x then some none else some (some x)
  edge_stale_seconds (text_json t) =
      if is_empty (trim_space t) then some none else usable_seconds (lib.parse_float (trim_space t))
  edge_stale_seconds other_json = none

  abbrev at_least : ℕ → ℕ → ℕ
  at_least minimum n = if ltb n minimum then minimum else n

  -- staleDelay, on seconds that edgeStaleSeconds returned: they are positive numbers.
  unfoldable pub stale_delay : ℤ → F → ℕ
  stale_delay configured seconds =
      let minimum = lesser (retry_delay configured other_error) max_reconnect_interval in
      if lib.over_cap seconds
      then max_reconnect_interval
      else at_least minimum (lib.nanoseconds seconds)

  abbrev pub stale_end : ℤ → Option (Option F) → Option StreamEnd
  stale_end configured none = some (undecodable (codes "edge.stale"))
  stale_end configured (some none) = none
  stale_end configured (some (some seconds)) = some (edge_stale (stale_delay configured seconds))

  unfoldable pub config_end : ℤ → Option (Option (JsonValue F)) → Option StreamEnd
  config_end configured none = some (undecodable (codes "config"))
  config_end configured (some none) = none
  config_end configured (some (some raw)) = stale_end configured (edge_stale_seconds raw)

  abbrev pub full_set :
      ℕ → Client V → Option (List (Option (FeatureState V))) → Option StreamEnd × Client V
  full_set revision c none = (some (undecodable (codes "features")), c)
  full_set revision c (some features) = (none, (apply_full_feature_set features revision c).1)

  abbrev pub one_feature :
      (FeatureState V → ℕ → Client V → Bool × Client V)
      → Text
      → ℕ
      → Client V
      → Option (FeatureState V)
      → Option StreamEnd × Client V
  one_feature change name revision c none = (some (undecodable name), c)
  one_feature change name revision c (some feature) = (none, (change feature revision c).1)

  -- handleEvent: whether the stream ends, and the client afterwards.
  unfoldable pub handle_event : ℤ → Text → Text → ℕ → Client V → Option StreamEnd × Client V
  handle_event configured name payload revision c =
      if is_empty name || same name (codes "ack")
      then (none, c)
      else if same name (codes "bye")
      then (some end_of_stream, c)
      else if same name (codes "failure") || same name (codes "error")
      then (some (emitted name), c)
      else if same name (codes "config")
      then (config_end configured (lib.decode_config payload), c)
      else if same name (codes "features")
      then full_set revision c (lib.decode_features payload)
      else if same name (codes "feature")
      then one_feature apply_feature (codes "feature") revision c (lib.decode_feature payload)
      else if same name (codes "delete_feature")
      then one_feature delete_feature (codes "delete") revision c (lib.decode_feature payload)
      else (none, c)

  -- The closure `dispatch` of consumeStream, on a blank line.
  unfoldable pub dispatch : ℤ → ℕ → SseEvent → Client V → Option StreamEnd × Client V
  dispatch configured revision event c =
      if is_empty_event event
      then (none, c)
      else handle_event configured event.name event.data_text revision c

  abbrev pub appended : SseEvent → Result EventError SseEvent → Option StreamEnd × SseEvent
  appended event (ok next) = (none, next)
  appended event (err e) = (some event_too_large, event)

  abbrev pub stop_or : Option StreamEnd → Client V → StreamEnd × Client V → StreamEnd × Client V
  stop_or none c later = later
  stop_or (some end) c later = (end, c)

  -- The loop of consumeStream over the lines that the scanner finds before the connection closes.
  unfoldable pub consume_lines : ℤ → ℕ → List Text → SseEvent → Client V → StreamEnd × Client V
  consume_lines configured revision [] event c = (end_of_stream, c)
  consume_lines configured revision (line ∷ lines) event c =
      let dispatched = dispatch configured revision event c in
      let after_event = consume_lines configured revision lines (reset event) dispatched.1 in
      let added = appended event (append_line line event) in
      let after_line = consume_lines configured revision lines added.1 c in
      if is_empty line
      then stop_or dispatched.0 dispatched.1 after_event
      else stop_or added.0 c after_line

  unfoldable pub consume_stream : ℤ → ℕ → List Text → Client V → StreamEnd × Client V
  consume_stream configured revision lines c = consume_lines configured revision lines empty_event c
