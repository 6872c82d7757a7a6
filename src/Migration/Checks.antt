-- ===== src/Migration/Checks.antt =====
-- migration/migration.go: what a runner reads off a state: drift from the registry, the statuses and
-- the latest applied migration.
use fit_go.Base.{
  Bool, not, ◌&&◌, List, [], ◌∷◌, map, Option, none, some, Result, ok, err, ◌>>◌, if◌then◌else◌,
  Text, same, Dict, lookup, insert, is_empty, ℤ, pos,
}
use fit_go.Migration.Errors.{
  Error, not_compiled, checksum_changed, skipped_not_applied, checksum_not_compiled,
}
use fit_go.Migration.States.{State, timestamp_of, is_set}
use fit_go.Migration.Registry.{Migration, Runner}

-- state.Checksums[id], which is empty for a missing key.
abbrev or_empty : Option Text → Text
or_empty none = []
or_empty (some t) = t

unfoldable pub checksum_of : State → Text → Text
checksum_of s id = or_empty (lookup id s.checksums)

-- The map that validateState builds.
unfoldable pub registered : Dict Migration → List Migration → Dict Migration
registered acc [] = acc
registered acc (m ∷ ms) = registered (insert m.id m acc) ms

abbrev check_registered : Option Migration → Text → Text → Result Error (Unit {0})
check_registered none id persisted = err (not_compiled id)
check_registered (some m) id persisted =
    if not (is_empty persisted) && not (same persisted m.checksum)
    then err (checksum_changed id)
    else ok tt

abbrev check_one : Option ℤ → Option Migration → Text → Text → Result Error (Unit {0})
check_one none m id persisted = ok tt
check_one (some t) m id persisted = check_registered m id persisted

unfoldable pub check_applied : Dict Migration → State → Dict (Option ℤ) → Result Error (Unit {0})
check_applied reg s [] = ok tt
check_applied reg s ((id, t) ∷ rest) = do
  check_one t (lookup id reg) id (checksum_of s id)
  check_applied reg s rest

unfoldable pub check_skipped : State → Dict ℤ → Result Error (Unit {0})
check_skipped s [] = ok tt
check_skipped s ((id, t) ∷ rest) = do
  if is_set (timestamp_of s id) then ok tt else err (skipped_not_applied id)
  check_skipped s rest

unfoldable pub check_checksums : Dict Migration → Dict Text → Result Error (Unit {0})
check_checksums reg [] = ok tt
check_checksums reg ((id, c) ∷ rest) = do
  if is_set (lookup id reg) then ok tt else err (checksum_not_compiled id)
  check_checksums reg rest

-- Runner.validateState
unfoldable pub validate_state : Runner → State → Result Error (Unit {0})
validate_state r s = do
  let reg = registered [] r.migrations
  check_applied reg s s.migrations
  check_skipped s s.skipped_migrations
  check_checksums reg s.checksums

-- type Status
pub record Status : Type 0 where
  pub id : Text
  pub description : Text
  pub applied : Bool
  pub skipped : Bool
  pub timestamp : ℤ

abbrev or_zero : Option ℤ → ℤ
or_zero none = pos 0
or_zero (some t) = t

unfoldable pub status_of : State → Migration → Status
status_of s m = record {
  id = m.id;
  description = m.description;
  applied = is_set (timestamp_of s m.id);
  skipped = is_set (lookup m.id s.skipped_migrations);
  timestamp = or_zero (timestamp_of s m.id);
}

-- Runner.statuses
unfoldable pub statuses : Runner → State → List Status
statuses r s = map (status_of s) r.migrations

abbrev first_some : Option ℤ → Text → Text × ℤ → Text × ℤ
first_some none id rest = rest
first_some (some t) id rest = (id, t)

-- The loop of latestApplied, over the migrations from the last to the first.
unfoldable pub latest_in : State → List Migration → Text × ℤ
latest_in s [] = ([], pos 0)
latest_in s (m ∷ ms) = first_some (timestamp_of s m.id) m.id (latest_in s ms)
