-- ===== src/Migration/Runner.antt =====
-- migration/migration.go: the operations of Runner. The state is a value that each step returns; the
-- source mutates maps that only the running operation holds, and returns them to nobody on an error.
pub mod Steps
pub mod Marks
pub mod Apply
pub mod Undone
pub mod Revert
pub mod Refused
pub mod Outcomes
pub mod Run
pub mod Loads
pub mod Skip
pub mod Checkpoints
pub mod Success
pub mod Additions
use fit_go.Base.{
  ℕ, suc, ◌-◌, Bool, true, false, not, ◌&&◌, ◌||◌, List, [], ◌∷◌, map, reverse, Option, none, some,
  Result, ok, err, if◌then◌else◌, Text, Dict, lookup, insert, delete, is_empty, trim_space, take,
  drop, length, ℤ,
}
use fit_go.Migration.Errors.{
  Error, normalize_failed, revert_target_required, irreversible, up_failed, up_lease_lost,
  up_checkpoint_failed, down_failed, down_lease_lost, down_checkpoint_failed, skip_save_failed,
  baseline_save_failed, fenced_needs_store, fencing_needs_token,
}
use fit_go.Migration.States.{State, timestamp_of, is_set, normalize}
use fit_go.Migration.Registry.{Migration, Runner, RunOptions, resolve_target, resolve_run_range}
use fit_go.Migration.Effects.{
  Env, M, ◌>>=◌, ◌>>◌, pure, raise, lift, annotate, check_context, store_load, store_save, run_up,
  run_down, timestamp,
}
use fit_go.Migration.Checks.{checksum_of, validate_state, Status, statuses, latest_in}

-- state.Migrations[id] != nil
unfoldable pub is_applied : State → Migration → Bool
is_applied s m = is_set (timestamp_of s m.id)

-- _, skipped := state.SkippedMigrations[id]
unfoldable pub is_skipped : State → Migration → Bool
is_skipped s m = is_set (lookup m.id s.skipped_migrations)

abbrev with_checksum : Migration → Dict Text → Dict Text
with_checksum m checksums =
    if is_empty m.checksum then checksums else insert m.id m.checksum checksums

-- The state after a migration was applied at `now`.
unfoldable pub mark_applied : Migration → ℤ → State → State
mark_applied m now s = record {
  last_run_migration = m.id;
  last_run_timestamp = now;
  migrations = insert m.id (some now) s.migrations;
  skipped_migrations = delete m.id s.skipped_migrations;
  checksums = with_checksum m s.checksums;
}

-- The state after an earlier migration was recorded as skipped at `now`.
unfoldable pub mark_skipped : Migration → ℤ → State → State
mark_skipped m now s = record s {
  migrations = insert m.id (some now) s.migrations;
  skipped_migrations = insert m.id now s.skipped_migrations;
  checksums = with_checksum m s.checksums;
}

unfoldable pub mark_reverted : Migration → State → State
mark_reverted m s = record s {
  migrations = insert m.id none s.migrations;
  skipped_migrations = delete m.id s.skipped_migrations;
  checksums = delete m.id s.checksums;
}

-- Runner.latestApplied
unfoldable pub latest_applied : Runner → State → Text × ℤ
latest_applied r s = latest_in s (reverse r.migrations)

unfoldable pub with_latest : Runner → State → State
with_latest r s = record s {
  last_run_migration = (latest_applied r s).0;
  last_run_timestamp = (latest_applied r s).1;
}

-- The condition of backfillChecksums for one migration.
unfoldable pub needs_checksum : State → Migration → Bool
needs_checksum s m = is_applied s m && not (is_empty m.checksum) && is_empty (checksum_of s m.id)

-- The loop of backfillChecksums: the state, and whether it changed.
unfoldable pub backfill : List Migration → Bool → State → State × Bool
backfill [] changed s = (s, changed)
backfill (m ∷ ms) changed s =
    backfill ms (needs_checksum s m || changed) (
      if needs_checksum s m then record s { checksums = insert m.id m.checksum s.checksums } else s)

-- The first loop of revertState: the first applied, unskipped migration that has no Down function.
unfoldable pub first_irreversible : State → List Migration → Option Text
first_irreversible s [] = none
first_irreversible s (m ∷ ms) =
    if is_applied s m && not (is_skipped s m) && not m.has_down
    then some m.id
    else first_irreversible s ms

-- The migrations from index `from` to index `to`, inclusive.
abbrev pub slice : ℕ → ℕ → List Migration → List Migration
slice from to ms = take (suc to - from) (drop from ms)

-- The search of RevertOne, from the last migration down: the index of an applied one.
unfoldable pub latest_index : State → ℕ → List Migration → Option ℕ
latest_index s index [] = none
latest_index s index (m ∷ ms) = if is_applied s m then some index else latest_index s (index - 1) ms

-- `fence` is the token that the run's context carries.
module _ (env : Env) (r : Runner) (fence : Option Text) where
  abbrev pub save_by : Option Text → State → M (Unit {0})
  save_by (some token) s = if r.store.fenced then store_save env s else raise fenced_needs_store
  save_by none s = if r.store.requires_fencing then raise fencing_needs_token else store_save env s

  -- Runner.saveState
  unfoldable pub save_state : State → M (Unit {0})
  save_state s = do check_context env; save_by fence s

  -- Runner.loadState
  unfoldable pub load_state : M State
  load_state = do
    check_context env
    s ← store_load env
    annotate normalize_failed (lift (normalize s))

  -- Runner.backfillChecksums
  unfoldable pub backfill_checksums : State → M State
  backfill_checksums s =
      let (s', changed) = backfill r.migrations false s in
      if changed then (do annotate baseline_save_failed (save_state s'); pure s') else pure s'

  unfoldable pub apply_pending : Migration → State → M State
  apply_pending m s = do
    check_context env
    annotate (up_failed m.id) (run_up env m.id)
    annotate (up_lease_lost m.id) (check_context env)
    now ← timestamp env
    annotate (up_checkpoint_failed m.id) (save_state (mark_applied m now s))
    pure (mark_applied m now s)

  -- The first loop of Run.
  unfoldable pub apply_all : List Migration → State → M State
  apply_all [] s = pure s
  apply_all (m ∷ ms) s = do
    s' ← if is_applied s m then pure s else apply_pending m s
    apply_all ms s'

  unfoldable pub skip_pending : Migration → State → M State
  skip_pending m s = do
    now ← timestamp env
    annotate (skip_save_failed m.id) (save_state (mark_skipped m now s))
    pure (mark_skipped m now s)

  -- The second loop of Run.
  unfoldable pub skip_all : List Migration → State → M State
  skip_all [] s = pure s
  skip_all (m ∷ ms) s = do s' ← if is_applied s m then pure s else skip_pending m s; skip_all ms s'

  -- The part of Run after the range is resolved.
  unfoldable pub run_range : ℕ → ℕ → State → M (List Status)
  run_range from to s = do
    s1 ← backfill_checksums s
    s2 ← apply_all (slice from to r.migrations) s1
    s3 ← skip_all (take from r.migrations) s2
    pure (statuses r s3)

  -- The operation that Run passes to withLock.
  unfoldable pub run_locked : RunOptions → M (List Status)
  run_locked options = do
    s ← load_state
    lift (validate_state r s)
    range ← lift (resolve_run_range r options)
    run_range range.0 range.1 s

  -- The Down function of a migration that is not skipped, and the checks around it.
  unfoldable pub call_down : Migration → M (Unit {0})
  call_down m = do
    check_context env
    annotate (down_failed m.id) (run_down env m.id)
    annotate (down_lease_lost m.id) (check_context env)

  unfoldable pub checkpoint_reverted : Migration → State → M State
  checkpoint_reverted m s = do
    let s' = with_latest r (mark_reverted m s)
    annotate (down_checkpoint_failed m.id) (save_state s')
    pure s'

  unfoldable pub revert_applied : Migration → State → M State
  revert_applied m s = do if is_skipped s m then pure tt else call_down m; checkpoint_reverted m s

  -- The second loop of revertState, over the migrations from the last down.
  unfoldable pub revert_all : List Migration → State → M State
  revert_all [] s = pure s
  revert_all (m ∷ ms) s = do
    s' ← if is_applied s m then revert_applied m s else pure s
    revert_all ms s'

  abbrev pub stop_if : Option Text → M (Unit {0})
  stop_if none = pure tt
  stop_if (some id) = raise (irreversible id)

  -- Runner.revertState
  unfoldable pub revert_state : State → ℕ → M (List Status)
  revert_state s to = do
    let targets = reverse (drop to r.migrations)
    stop_if (first_irreversible s targets)
    s' ← revert_all targets s
    pure (statuses r s')

  -- The operation that Revert passes to withLock.
  unfoldable pub revert_locked : Text → M (List Status)
  revert_locked target = do
    s ← load_state
    lift (validate_state r s)
    to ← lift (resolve_target r target true)
    revert_state s to

  abbrev pub revert_latest : State → Option ℕ → M (List Status)
  revert_latest s (some index) = revert_state s index
  revert_latest s none = pure (statuses r s)

  -- The operation that RevertOne passes to withLock.
  unfoldable pub revert_one_locked : M (List Status)
  revert_one_locked = do
    s ← load_state
    lift (validate_state r s)
    revert_latest s (latest_index s (length r.migrations - 1) (reverse r.migrations))

  -- Runner.List
  unfoldable pub list : M (List Status)
  list = do s ← load_state; lift (validate_state r s); pure (statuses r s)
