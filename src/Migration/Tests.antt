-- ===== src/Migration/Tests.antt =====
-- Concrete runs of the migration package: the theorems at inputs where their hypotheses hold.
use Prim.Native.Nat.{Ordering}
use fit_go.Base.{
  decimal_value, all_digits, parse_uint, show_nat, lookup, insert, delete, same, trim_suffix,
  reverse, drop, ◌≡◌, refl, ◌==◌, if◌then◌else◌, true, false, List, [], ◌∷◌, none, some, ok, err,
  Text, codes, pos, arith, is_empty, trim_space, equal_fold,
}
use fit_go.Migration.Errors.{irreversible}
use fit_go.Migration.Ids.{
  MigrationId, version, to_string, all_name_chars, is_name, span_digits, digits_then, match_dotted,
  match_id, three_digits, after_dash, match_node_id, number, id_of_match, strip_suffixes, parse_id,
  canonical_id, compare_id,
}
use fit_go.Migration.Ids.RoundTrip.{IsValid, parse_id-to_string}
use fit_go.Migration.Ids.Range.{parse_id-IsValid}
use fit_go.Migration.States.{
  State, new_state, normalize, timestamp_of, canonical_keys, canonical_last, add_key,
}
use fit_go.Migration.States.Normal.{normalize-normalize}
use fit_go.Migration.Registry.{
  Migration, StoreKind, LockerKind, Runner, RunOptions, new_runner, check_interfaces, entries_of,
  insert_entry, sort_entries, new_runner_over, match_numbers, find_version, resolve_run_range,
  resolve_target, match_version, canonical_version,
}
use fit_go.Migration.Registry.Sorted.{IsRegistry, Distinct, new_runner-IsRegistry}
use fit_go.Migration.Registry.Targets.{Selects, resolve_target-Selects}
use fit_go.Migration.Effects.{
  Env, World, stored, not_stored, ◌>>=◌, pure, raise, lift, annotate, check_context, store_load,
  store_save, run_up, run_down, timestamp,
}
use fit_go.Migration.Checks.{
  Status, statuses, checksum_of, registered, check_applied, check_skipped, check_checksums,
  validate_state, status_of, latest_in,
}
use fit_go.Migration.Runner.{
  revert_locked, revert_one_locked, run_locked, revert_state, first_irreversible, is_applied,
  is_skipped, mark_applied, mark_reverted, latest_applied, with_latest, needs_checksum, backfill,
  save_state, load_state, backfill_checksums, apply_pending, apply_all, skip_pending, skip_all,
  run_range, call_down, checkpoint_reverted, revert_applied, revert_all,
}
use fit_go.Migration.Runner.Success.{
  NoFailure, Succeeds, run_locked-Succeeds, revert_state-Succeeds,
}
use fit_go.Migration.Locks.{run, revert, revert_one}
use fit_go.Migration.Locks.Release.{Bracketed}
use fit_go.Migration.Locks.Operations.{operations-Bracketed}
use fit_go.Migration.Runner.Run.{RunDone, run_locked_ok}
use fit_go.Migration.Runner.Outcomes.{RunPost, run_locked-RunPost}
use fit_go.Migration.Runner.Revert.{RevertDone, revert_state_ok}
use fit_go.Base.{inl}
use fit_go.Migration.Runner.Refused.{IsStuck, revert_state_refused}

abbrev first_id : MigrationId
first_id = record { major = 1; minor = 0; patch = 0; sequence = 1; name = codes "a" }

abbrev second_id : MigrationId
second_id = record { major = 1; minor = 2; patch = 0; sequence = 1; name = codes "b_2" }

a_is_name : is_name (codes "a") ≡ true
unfolding is_name all_name_chars
a_is_name = refl

first_id-IsValid : IsValid first_id
first_id-IsValid = record {
  major_fits = omega arith;
  minor_fits = omega arith;
  patch_fits = omega arith;
  sequence_fits = omega arith;
  name_ok = a_is_name;
}

parse_id-to_string_example : parse_id (to_string first_id) ≡ ok first_id
parse_id-to_string_example = parse_id-to_string first_id first_id-IsValid

-- A name of node-migrate, with the suffix of its file.
abbrev node_name : Text
node_name = codes " 001002000001-b_2.js"

parses_node_name : parse_id node_name ≡ ok second_id
unfolding parse_id strip_suffixes trim_space trim_suffix match_id match_node_id three_digits
    after_dash is_name all_name_chars id_of_match number parse_uint all_digits decimal_value
parses_node_name = refl

parse_id-IsValid_example : IsValid second_id
parse_id-IsValid_example = parse_id-IsValid node_name second_id parses_node_name

abbrev second_name : Text
second_name = codes "v1.2.0-1-b_2"

canonical_node_name : canonical_id node_name ≡ ok second_name
unfolding canonical_id to_string show_nat
canonical_node_name = rw parses_node_name refl

abbrev third_id : MigrationId
third_id = record { major = 1; minor = 10; patch = 0; sequence = 1; name = codes "c" }

first_before_second : compare_id first_id second_id ≡ Ordering.lt
unfolding compare_id
first_before_second = refl

second_before_third : compare_id second_id third_id ≡ Ordering.lt
unfolding compare_id
second_before_third = refl

-- A persisted state that names a migration in the form of node-migrate.
abbrev legacy_state : State
legacy_state = record {
  last_run_migration = node_name;
  last_run_timestamp = pos 5;
  migrations = (node_name, some (pos 5)) ∷ [];
  skipped_migrations = [];
  checksums = [];
}

abbrev current_state : State
current_state = record {
  last_run_migration = second_name;
  last_run_timestamp = pos 5;
  migrations = (second_name, some (pos 5)) ∷ [];
  skipped_migrations = [];
  checksums = [];
}

normalizes : normalize legacy_state ≡ ok current_state
unfolding normalize canonical_keys canonical_last add_key lookup insert
normalizes = rw canonical_node_name refl

normalize-normalize_example : normalize current_state ≡ ok current_state
normalize-normalize_example = normalize-normalize legacy_state current_state normalizes

abbrev first_migration : Migration
first_migration = record {
  id = codes "v1.0.0-1-a";
  description = [];
  checksum = codes "c1";
  has_up = true;
  has_down = true;
}

abbrev second_migration : Migration
second_migration = record {
  id = second_name;
  description = [];
  checksum = [];
  has_up = true;
  has_down = false;
}

abbrev plain_store : StoreKind
plain_store = record { fenced = false; requires_fencing = false; fencing_error = none }

abbrev plain_locker : LockerKind
plain_locker = record { leases = false }

abbrev two_runner : Runner
two_runner = record {
  migrations = first_migration ∷ second_migration ∷ [];
  parsed = first_id ∷ second_id ∷ [];
  store = plain_store;
  locker = plain_locker;
}

abbrev given : List Migration
given = record second_migration { id = node_name } ∷ first_migration ∷ []

registers : new_runner given (some plain_store) (some plain_locker) ≡ ok two_runner
unfolding new_runner new_runner_over check_interfaces entries_of sort_entries insert_entry
    compare_id to_string show_nat parse_id strip_suffixes trim_space trim_suffix match_id
    match_dotted digits_then span_digits match_node_id three_digits after_dash is_name
    all_name_chars id_of_match number parse_uint all_digits decimal_value lookup insert same
registers = refl

new_runner-IsRegistry_example : IsRegistry given two_runner
new_runner-IsRegistry_example =
    new_runner-IsRegistry given (some plain_store) (some plain_locker) two_runner registers

abbrev version_target : Text
version_target = codes " v1_2.00 "

target_is_given : is_empty (trim_space version_target) ≡ false
unfolding trim_space
target_is_given = refl

target_is_not_latest : equal_fold (trim_space version_target) (codes "latest") ≡ false
unfolding trim_space equal_fold
target_is_not_latest = refl

target_is_version :
    match_version (trim_space version_target) ≡ some (codes "1", codes "2", codes "00")
unfolding trim_space match_version match_numbers digits_then span_digits
target_is_version = refl

target_resolves : resolve_target two_runner version_target true ≡ ok 1
unfolding resolve_target equal_fold trim_space match_version match_numbers digits_then span_digits
    find_version canonical_version version show_nat parse_uint all_digits decimal_value same
target_resolves = refl

resolve_target-Selects_example : Selects true (version second_id) two_runner.parsed 1
unfolding parse_uint all_digits decimal_value
resolve_target-Selects_example =
    resolve_target-Selects two_runner version_target true (codes "1") (codes "2") (codes "00")
      second_id 1 target_is_given target_is_not_latest target_is_version refl refl refl
      target_resolves

-- An environment in which nothing fails.
abbrev calm : Env
calm = record {
  lock = λ n. ok true;
  lease = λ n. ok (record { has_context = true; fence_token = codes "t"; has_unlock = true });
  unlock_error = λ n. none;
  context_error = λ n. none;
  load_error = λ n. none;
  save = λ n. stored;
  up_error = λ id n. none;
  down_error = λ id n. none;
  now = λ n. pos n;
}

-- An environment in which the second write to the store is lost.
abbrev lossy : Env
lossy = record calm { save = λ n. if n == 11 then not_stored 7 else stored }

abbrev fresh_world : World
fresh_world = record { stored_state = new_state; history = []; calls = 0 }

abbrev everything : RunOptions
everything = record { from = []; to = [] }

two_runner-Distinct : Distinct two_runner.migrations
unfolding same
two_runner-Distinct = ((refl, tt), (tt, tt))

abbrev final_statuses : List Status
final_statuses =
    record {
      id = first_migration.id;
      description = [];
      applied = true;
      skipped = false;
      timestamp = pos 5;
    }
    ∷ record {
      id = second_name;
      description = [];
      applied = true;
      skipped = false;
      timestamp = pos 11;
    }
    ∷ []

run_succeeds : (run_locked calm two_runner none everything fresh_world).0 ≡ ok final_statuses
unfolding run_locked run_range apply_all skip_all apply_pending skip_pending backfill_checksums
    backfill needs_checksum load_state save_state is_applied ◌>>=◌ pure raise lift annotate
    check_context store_load store_save run_up timestamp mark_applied checksum_of statuses status_of
    validate_state registered check_applied check_skipped check_checksums timestamp_of lookup insert
    delete same resolve_run_range resolve_target trim_space equal_fold normalize canonical_keys
    canonical_last new_state
run_succeeds = refl

run_locked_ok_example :
    RunDone two_runner everything fresh_world
      (run_locked calm two_runner none everything fresh_world).1
      final_statuses
run_locked_ok_example =
    run_locked_ok calm two_runner none everything fresh_world final_statuses two_runner-Distinct
      run_succeeds

run_locked-RunPost_example : RunPost [] (run_locked lossy two_runner none everything fresh_world)
run_locked-RunPost_example = run_locked-RunPost lossy two_runner none everything fresh_world

-- The second migration cannot be undone, and was applied.
abbrev both_applied : State
both_applied = record new_state {
  migrations = (first_migration.id, some (pos 5)) ∷ (second_name, some (pos 6)) ∷ [];
}

-- The second migration was only recorded as skipped.
abbrev second_skipped : State
second_skipped = record both_applied { skipped_migrations = (second_name, pos 6) ∷ [] }

-- A third migration, without a Down function, is not applied yet.
abbrev third_migration : Migration
third_migration = record second_migration { id = codes "v1.2.0-2-c" }

abbrev three_runner : Runner
three_runner = record two_runner {
  migrations = first_migration ∷ second_migration ∷ third_migration ∷ [];
}

second_IsStuck : IsStuck both_applied second_migration
unfolding is_applied is_skipped timestamp_of lookup same new_state
second_IsStuck = (refl, refl, refl)

third_is_not_applied : is_applied both_applied third_migration ≡ false
unfolding is_applied timestamp_of lookup same new_state
third_is_not_applied = refl

revert_state_refused_example :
    revert_state calm three_runner none both_applied 0 fresh_world
    ≡ (err (irreversible second_name), fresh_world)
revert_state_refused_example =
    revert_state_refused calm three_runner none both_applied 0 fresh_world (first_migration ∷ [])
      (third_migration ∷ []) second_migration refl second_IsStuck (inl third_is_not_applied, tt)

abbrev reverted_statuses : List Status
reverted_statuses =
    record {
      id = first_migration.id;
      description = [];
      applied = false;
      skipped = false;
      timestamp = pos 0;
    }
    ∷ record {
      id = second_name;
      description = [];
      applied = false;
      skipped = false;
      timestamp = pos 0;
    }
    ∷ []

revert_succeeds :
    (revert_state calm two_runner none second_skipped 0 fresh_world).0 ≡ ok reverted_statuses
unfolding revert_state revert_all revert_applied call_down checkpoint_reverted with_latest
    latest_applied latest_in mark_reverted first_irreversible is_applied is_skipped timestamp_of
    lookup insert delete same new_state save_state ◌>>=◌ pure raise lift annotate check_context
    store_save run_down statuses status_of
revert_succeeds = refl

revert_state_ok_example :
    RevertDone calm two_runner none 0 second_skipped fresh_world
      (revert_state calm two_runner none second_skipped 0 fresh_world).1
      reverted_statuses
revert_state_ok_example =
    revert_state_ok calm two_runner none second_skipped 0 fresh_world reverted_statuses
      two_runner-Distinct revert_succeeds

calm-NoFailure : NoFailure calm
calm-NoFailure = record {
  contexts = λ n. refl;
  loads = λ n. refl;
  writes = λ n. refl;
  ups = λ id n. refl;
  downs = λ id n. refl;
}

empty_normalizes : normalize fresh_world.stored_state ≡ ok new_state
unfolding normalize canonical_keys canonical_last new_state
empty_normalizes = refl

empty_is_valid : validate_state two_runner new_state ≡ ok tt
unfolding validate_state registered check_applied check_skipped check_checksums new_state
empty_is_valid = refl

-- From the first migration of a version on.
abbrev from_second : RunOptions
from_second = record { from = version_target; to = [] }

from_second_resolves : resolve_run_range two_runner from_second ≡ ok (1, 1)
unfolding resolve_run_range resolve_target equal_fold trim_space match_version match_numbers
    digits_then span_digits find_version canonical_version version show_nat parse_uint all_digits
    decimal_value same
from_second_resolves = refl

run_locked-Succeeds_example : Succeeds (run_locked calm two_runner none from_second fresh_world)
run_locked-Succeeds_example =
    run_locked-Succeeds calm two_runner none calm-NoFailure refl from_second new_state (1, 1)
      fresh_world empty_normalizes empty_is_valid from_second_resolves

skipped_is_reversible :
    first_irreversible second_skipped (reverse (drop 0 two_runner.migrations)) ≡ none
unfolding first_irreversible is_applied is_skipped timestamp_of lookup same new_state
skipped_is_reversible = refl

revert_state-Succeeds_example :
    Succeeds (revert_state calm two_runner none second_skipped 0 fresh_world)
revert_state-Succeeds_example =
    revert_state-Succeeds calm two_runner none calm-NoFailure refl second_skipped 0 fresh_world
      skipped_is_reversible

operations-Bracketed_example :
    Bracketed lossy two_runner fresh_world
      (λ fence. run_locked lossy two_runner fence everything)
      (run lossy two_runner everything fresh_world)
    × Bracketed lossy two_runner fresh_world
        (λ fence. revert_locked lossy two_runner fence version_target)
        (revert lossy two_runner version_target fresh_world)
    × Bracketed lossy two_runner fresh_world
        (revert_one_locked lossy two_runner)
        (revert_one lossy two_runner fresh_world)
operations-Bracketed_example =
    operations-Bracketed lossy two_runner everything version_target fresh_world
