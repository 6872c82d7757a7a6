-- ===== src/Migration/Registry.antt =====
-- migration/migration.go: the registry of compiled migrations, and how targets select from it.
-- `has_up` and `has_down` say whether the functions are non-nil; what they do is in Effects.
pub mod Sorted
pub mod Targets
use Prim.Native.Nat.{Ordering}
use fit_go.Base.{
  ℕ, suc, ◌-◌, ◌+◌, Bool, true, false, not, ◌&&◌, List, [], ◌∷◌, ◌++◌, map, Option, none, some,
  Result, ok, err, ◌>>=◌, ◌>>◌, ltb, leb, if◌then◌else◌, Text, codes, same, trim_space, equal_fold,
  Dict, lookup, insert, is_empty, length, show_nat, decimal_value, max_uint64, NumError, bad_syntax,
  out_of_range, parse_uint, ◌==◌, ◌||◌,
}
use fit_go.Base.Maybe.{◌>>=◌ as chain}
use fit_go.Migration.Errors.{
  Error, no_migrations, nil_store, nil_locker, lease_needs_fenced_store, invalid_fencing,
  fencing_not_implemented, fencing_needs_lease, no_up, duplicate_id, from_after_to,
  version_not_registered, target_not_registered,
}
use fit_go.Migration.Ids.{
  MigrationId, version, to_string, parse_id, canonical_id, compare_id, digits_then, is_separator,
  span_digits,
}
use fit_go.Migration.States.{is_set}

-- type Migration
pub record Migration : Type 0 where
  pub id : Text
  pub description : Text
  pub checksum : Text
  pub has_up : Bool
  pub has_down : Bool

-- Which of the package's interfaces a store implements, and what they answer: FencedStore,
-- MigrationFencingRequired and ValidateMigrationFencing.
pub record StoreKind : Type 0 where
  pub fenced : Bool
  pub requires_fencing : Bool
  pub fencing_error : Option ℕ

-- Whether a locker is a LeaseLocker.
pub record LockerKind : Type 0 where
  pub leases : Bool

-- type Runner
pub record Runner : Type 0 where
  pub migrations : List Migration
  pub parsed : List MigrationId
  pub store : StoreKind
  pub locker : LockerKind

pub record Entry : Type 0 where
  pub migration : Migration
  pub id : MigrationId

abbrev ensure : Bool → Error → Result Error (Unit {0})
ensure true e = ok tt
ensure false e = err e

abbrev fencing_ok : Option ℕ → Result Error (Unit {0})
fencing_ok none = ok tt
fencing_ok (some e) = err (invalid_fencing e)

-- The checks on the store and the locker at the top of NewRunner.
unfoldable pub check_interfaces : StoreKind → LockerKind → Result Error (Unit {0})
check_interfaces store locker = do
  ensure (not locker.leases || store.fenced) lease_needs_fenced_store
  if store.requires_fencing
      then (do
        fencing_ok store.fencing_error
        ensure store.fenced fencing_not_implemented
        ensure locker.leases fencing_needs_lease)
      else ok tt

-- The loop of NewRunner over the given migrations; `seen` holds the canonical names so far.
unfoldable pub entries_of : Dict (Unit {0}) → List Migration → Result Error (List Entry)
entries_of seen [] = ok []
entries_of seen (item ∷ items) = do
  id ← parse_id item.id
  ensure item.has_up (no_up (to_string id))
  ensure (not (is_set (lookup (to_string id) seen))) (duplicate_id (to_string id))
  rest ← entries_of (insert (to_string id) tt seen) items
  ok (record { migration = record item { id = to_string id }; id = id } ∷ rest)

abbrev is_before : Ordering → Bool
is_before Ordering.lt = true
is_before _ = false

unfoldable pub insert_entry : Entry → List Entry → List Entry
insert_entry e [] = e ∷ []
insert_entry e (f ∷ fs) =
    if is_before (compare_id f.id e.id) then f ∷ insert_entry e fs else e ∷ f ∷ fs

-- sort.Slice by compareID. The identities are distinct, so every sort gives the same list.
unfoldable pub sort_entries : List Entry → List Entry
sort_entries [] = []
sort_entries (e ∷ es) = insert_entry e (sort_entries es)

abbrev runner_of : StoreKind → LockerKind → List Entry → Runner
runner_of store locker entries = record {
  migrations = map (λ (e : Entry). e.migration) entries;
  parsed = map (λ (e : Entry). e.id) entries;
  store = store;
  locker = locker;
}

unfoldable pub new_runner_over : List Migration → StoreKind → LockerKind → Result Error Runner
new_runner_over migrations store locker = do
  check_interfaces store locker
  entries ← entries_of [] migrations
  ok (runner_of store locker (sort_entries entries))

-- NewRunner; `none` is a nil interface value.
unfoldable pub new_runner :
    List Migration → Option StoreKind → Option LockerKind → Result Error Runner
new_runner [] store locker = err no_migrations
new_runner (m ∷ ms) none locker = err nil_store
new_runner (m ∷ ms) (some store) none = err nil_locker
new_runner (m ∷ ms) (some store) (some locker) = new_runner_over (m ∷ ms) store locker

abbrev last_digits : Text → Text → Text × Text → Option (Text × Text × Text)
last_digits a b ([], rest) = none
last_digits a b (d ∷ ds, []) = some (a, b, d ∷ ds)
last_digits a b (d ∷ ds, c ∷ rest) = none

-- versionPattern, past its `v`.
unfoldable pub match_numbers : Text → Option (Text × Text × Text)
match_numbers s = chain (digits_then is_separator s) λ first.
    chain (digits_then is_separator first.1)
      λ second. last_digits first.0 second.0 (span_digits second.1)

-- versionPattern
unfoldable pub match_version : Text → Option (Text × Text × Text)
match_version [] = none
match_version (c ∷ s) = if c == b'v' then match_numbers s else none

-- What strconv.ParseUint returns beside its error, which resolveTarget drops.
abbrev uint_or_limit : Result NumError ℕ → ℕ
uint_or_limit (ok n) = n
uint_or_limit (err bad_syntax) = 0
uint_or_limit (err out_of_range) = max_uint64

unfoldable pub canonical_version : Text → Text → Text → Text
canonical_version a b c =
    codes "v"
    ++ (show_nat (uint_or_limit (parse_uint a))
        ++ (codes "."
            ++ (show_nat (uint_or_limit (parse_uint b))
                ++ (codes "." ++ show_nat (uint_or_limit (parse_uint c))))))

-- The loop of resolveTarget over the identities: the index of the first of a version, or of the last.
unfoldable pub find_version : Text → Bool → ℕ → Option ℕ → List MigrationId → Option ℕ
find_version canonical first index found [] = found
find_version canonical first index found (id ∷ ids) =
    if same (version id) canonical && first
    then some index
    else find_version canonical first (suc index)
        (if same (version id) canonical then some index else found) ids

-- The loop of resolveTarget over the migrations.
unfoldable pub find_id : Text → ℕ → List Migration → Option ℕ
find_id canonical index [] = none
find_id canonical index (m ∷ ms) =
    if same m.id canonical then some index else find_id canonical (suc index) ms

abbrev found_or : Error → Option ℕ → Result Error ℕ
found_or e (some index) = ok index
found_or e none = err e

abbrev resolve_version : Runner → Text → Bool → Option (Text × Text × Text) → Result Error ℕ
resolve_version r target first (some (a, b, c)) =
    found_or (version_not_registered target)
      (find_version (canonical_version a b c) first 0 none r.parsed)
resolve_version r target first none = do
  canonical ← canonical_id target
  found_or (target_not_registered target) (find_id canonical 0 r.migrations)

-- Runner.resolveTarget. A runner has at least one migration, so `length - 1` is exact.
unfoldable pub resolve_target : Runner → Text → Bool → Result Error ℕ
resolve_target r raw first =
    let target = trim_space raw in
    if is_empty target || equal_fold target (codes "latest")
    then ok (length r.migrations - 1)
    else resolve_version r target first (match_version target)

-- type RunOptions
pub record RunOptions : Type 0 where
  pub from : Text
  pub to : Text

-- Runner.resolveRunRange
unfoldable pub resolve_run_range : Runner → RunOptions → Result Error (ℕ × ℕ)
resolve_run_range r options = do
  to ← resolve_target r options.to false
  from ← if is_empty (trim_space options.from) then ok 0 else resolve_target r options.from true
  if ltb to from then err (from_after_to options.from) else ok (from, to)
