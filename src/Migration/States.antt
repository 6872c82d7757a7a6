-- ===== src/Migration/States.antt =====
-- migration/migration.go: the durable state, its normalization, and the legacy node-migrate state.
-- A nil Go map behaves as an empty one in all that is modelled, and is the empty list here. A key of
-- `migrations` may be present with a nil timestamp: a migration that was reverted.
pub mod Normal
use fit_go.Base.{
  ℕ, ◌*◌, ◌-◌, ◌/◌, ◌^◌, Bool, true, false, ◌&&◌, List, [], ◌∷◌, Option, none, some, Result, ok,
  err, ◌>>=◌, leb, if◌then◌else◌, Text, Dict, lookup, insert, is_empty, ℤ, pos, negsuc, ltb_ℤ, ltb,
  max_int64,
}
use fit_go.Migration.Errors.{
  Error, duplicate_persisted, duplicate_skipped, duplicate_checksum, invalid_persisted,
  invalid_skipped, invalid_checksum_key, invalid_last, invalid_node_migration, invalid_node_last,
  duplicate_node_migration,
}
use fit_go.Migration.Ids.{canonical_id}

-- type State
pub record State : Type 0 where
  pub last_run_migration : Text
  pub last_run_timestamp : ℤ
  pub migrations : Dict (Option ℤ)
  pub skipped_migrations : Dict ℤ
  pub checksums : Dict Text

unfoldable pub new_state : State
new_state = record {
  last_run_migration = [];
  last_run_timestamp = pos 0;
  migrations = [];
  skipped_migrations = [];
  checksums = [];
}

-- state.Migrations[id]: nil both for a missing key and for a reverted migration.
abbrev flat : Option (Option ℤ) → Option ℤ
flat none = none
flat (some t) = t

unfoldable pub timestamp_of : State → Text → Option ℤ
timestamp_of s id = flat (lookup id s.migrations)

abbrev pub is_set {ℓ} : {A : Type ℓ} → Option A → Bool
is_set none = false
is_set (some a) = true

abbrev pub wrap : {A : Type 0} → (Error → Error) → Result Error A → Result Error A
wrap f (ok a) = ok a
wrap f (err e) = err (f e)

-- The duplicate check and the write of the loops over persisted keys.
unfoldable pub add_key : {V : Type 0} → (Text → Error) → Text → V → Dict V → Result Error (Dict V)
add_key duplicate canonical v acc =
    if is_set (lookup canonical acc) then err (duplicate canonical) else ok (insert canonical v acc)

-- One of the three loops of State.normalize: the keys made canonical, in the order of the map.
unfoldable pub canonical_keys :
    {V : Type 0} → (Text → Error → Error) → (Text → Error) → Dict V → Dict V → Result Error (Dict V)
canonical_keys invalid duplicate acc [] = ok acc
canonical_keys invalid duplicate acc ((key, v) ∷ m) = do
  canonical ← wrap (invalid key) (canonical_id key)
  acc' ← add_key duplicate canonical v acc
  canonical_keys invalid duplicate acc' m

unfoldable pub canonical_last : Text → Result Error Text
canonical_last last = if is_empty last then ok last else wrap invalid_last (canonical_id last)

-- State.normalize
unfoldable pub normalize : State → Result Error State
normalize s = do
  migrations ← canonical_keys invalid_persisted duplicate_persisted [] s.migrations
  skipped ← canonical_keys invalid_skipped duplicate_skipped [] s.skipped_migrations
  checksums ← canonical_keys invalid_checksum_key duplicate_checksum [] s.checksums
  last ← canonical_last s.last_run_migration
  ok (record s {
    migrations = migrations;
    skipped_migrations = skipped;
    checksums = checksums;
    last_run_migration = last;
  })

-- int64(time.Millisecond), in nanoseconds
abbrev pub millisecond : ℕ
millisecond = 1_000_000

abbrev scaled : ℤ → ℤ
scaled (pos value) =
    if ltb 0 value && leb value (max_int64 / millisecond)
    then pos (value * millisecond)
    else pos value
scaled (negsuc n) = negsuc n

-- normalizeNodeTimestamp: milliseconds become nanoseconds where the product fits in an int64.
unfoldable pub normalize_node_timestamp : Option ℤ → Option ℤ
normalize_node_timestamp none = none
normalize_node_timestamp (some t) = some (scaled t)

-- What encoding/json reads of a node-migrate state file.
pub record NodeItem : Type 0 where
  pub title : Text
  pub timestamp : Option ℤ

pub record NodeState : Type 0 where
  pub last_run : Text
  pub items : List NodeItem

abbrev later : Option ℤ → ℤ → ℤ
later none last = last
later (some t) last = if ltb_ℤ last t then t else last

-- The loop of decodeNodeState.
unfoldable pub add_node_items : State → List NodeItem → Result Error State
add_node_items s [] = ok s
add_node_items s (item ∷ items) = do
  canonical ← wrap (invalid_node_migration item.title) (canonical_id item.title)
  let timestamp = normalize_node_timestamp item.timestamp
  migrations ← add_key duplicate_node_migration canonical timestamp s.migrations
  add_node_items
      (record s {
        migrations = migrations;
        last_run_timestamp = later timestamp s.last_run_timestamp;
      })
      items

-- decodeNodeState, past the JSON decoder.
unfoldable pub decode_node_state : NodeState → Result Error State
decode_node_state raw = do
  s ← add_node_items new_state raw.items
  last ← if is_empty raw.last_run then ok [] else wrap invalid_node_last (canonical_id raw.last_run)
  ok (record s { last_run_migration = last })
