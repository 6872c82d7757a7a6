-- ===== src/Instrumentation/Registry.antt =====
-- instrumentation/registry.go: Register, and the selection and configuration of Start.
use fit_go.Base.{
  Bool, true, false, not, List, [], ◌∷◌, ◌++◌, map, Option, none, some, Result, ok, err, ◌>>=◌,
  ◌>>◌, if◌then◌else◌, Text, codes, same, is_empty, trim_space, compare_text, Dict, lookup, insert,
  ◌||◌,
}
use Prim.Native.Nat.{Ordering}

-- type Registration; `has_factory` says whether the factory is non-nil.
pub record Registration : Type 0 where
  pub name : Text
  pub aliases : List Text
  pub enabled_by_default : Bool
  pub has_factory : Bool

-- type Registry. An item stands for the pointer that byName and ordered share: names identify it.
pub record Registry : Type 0 where
  pub by_name : Dict Registration
  pub ordered : List Registration

pub data RegistryError : Type 0 where
  empty_name : RegistryError
  nil_factory empty_alias unknown_name unknown_config invalid_config : Text → RegistryError
  repeated_name taken_name : Text → Text → RegistryError
  repeated_config : Text → Text → Text → RegistryError

-- NewRegistry
abbrev pub new_registry : Registry
new_registry = record { by_name = []; ordered = [] }

unfoldable pub contains : Text → List Text → Bool
contains name [] = false
contains name (n ∷ ns) = same n name || contains name ns

-- The first loop of Register: every name trimmed, none empty, none repeated.
unfoldable pub check_names : Text → List Text → List Text → Result RegistryError (List Text)
check_names owner seen [] = ok []
check_names owner seen (raw ∷ rest) =
    if is_empty (trim_space raw)
    then err (empty_alias owner)
    else if contains (trim_space raw) seen
    then err (repeated_name owner (trim_space raw))
    else (do names ← check_names owner (trim_space raw ∷ seen) rest; ok (trim_space raw ∷ names))

abbrev pub free_or : Text → Option Registration → Result RegistryError (Unit {0})
free_or name none = ok tt
free_or name (some previous) = err (taken_name name previous.name)

-- The second loop of Register.
unfoldable pub check_free : Registry → List Text → Result RegistryError (Unit {0})
check_free registry [] = ok tt
check_free registry (name ∷ names) = do
  free_or name (lookup name registry.by_name)
  check_free registry names

-- The last loop of Register.
unfoldable pub insert_names : Registration → List Text → Dict Registration → Dict Registration
insert_names item [] m = m
insert_names item (name ∷ names) m = insert_names item names (insert name item m)

abbrev pub tail_of : List Text → List Text
tail_of [] = []
tail_of (n ∷ ns) = ns

-- Registry.Register
unfoldable pub register : Registration → Registry → Result RegistryError Registry
register given registry =
    let name = trim_space given.name in
    if is_empty name
    then err empty_name
    else if not given.has_factory
    then err (nil_factory name)
    else (do
      names ← check_names name [] (name ∷ given.aliases)
      let item = record given { name = name; aliases = tail_of names }
      check_free registry names
      ok (record {
        by_name = insert_names item names registry.by_name;
        ordered = registry.ordered ++ item ∷ [];
      }))

-- The defaults, in the order of registration.
unfoldable pub defaults : List Registration → List Registration
defaults [] = []
defaults (item ∷ items) =
    let rest = defaults items in if item.enabled_by_default then item ∷ rest else rest

abbrev found_item : Text → Option Registration → Result RegistryError Registration
found_item name none = err (unknown_name name)
found_item name (some item) = ok item

-- The loop of Start over the requested names; a name already selected is passed over.
unfoldable pub add_extra :
    Registry → List Registration → List Text → Result RegistryError (List Registration)
add_extra registry selected [] = ok selected
add_extra registry selected (raw ∷ rest) = do
  item ← found_item (trim_space raw) (lookup (trim_space raw) registry.by_name)
  add_extra registry
      (if contains item.name (map (λ (i : Registration). i.name) selected)
        then selected
        else selected ++ item ∷ [])
      rest

unfoldable pub select : Registry → List Text → Result RegistryError (List Registration)
select registry extra = add_extra registry (defaults registry.ordered) extra

abbrev config_item : Text → Option Registration → Result RegistryError Registration
config_item key none = err (unknown_config key)
config_item key (some item) = ok item

abbrev not_configured : Text → Text → Option Text → Result RegistryError (Unit {0})
not_configured key name none = ok tt
not_configured key name (some previous) = err (repeated_config previous key name)

-- encoding/json's Valid is a parameter.
module _ (valid : Text → Bool) where
  -- The loop of Start over the configuration; `configured` has the key used for each item.
  unfoldable pub check_config : Registry → Dict Text → Dict Text → Result RegistryError (Dict Text)
  check_config registry configured [] = ok []
  check_config registry configured ((key, value) ∷ rest) = do
    item ← config_item key (lookup (trim_space key) registry.by_name)
    if is_empty value || not (valid value) then err (invalid_config key) else ok tt
    not_configured key item.name (lookup item.name configured)
    configs ← check_config registry (insert item.name key configured) rest
    ok (insert (trim_space key) value configs)

abbrev is_before : Ordering → Bool
is_before Ordering.lt = true
is_before _ = false

unfoldable pub insert_sorted : Text → List Text → List Text
insert_sorted t [] = t ∷ []
insert_sorted t (u ∷ us) =
    if is_before (compare_text u t) then u ∷ insert_sorted t us else t ∷ u ∷ us

-- sort.Strings
unfoldable pub sort_strings : List Text → List Text
sort_strings [] = []
sort_strings (t ∷ ts) = insert_sorted t (sort_strings ts)

abbrev or_next : Option Text → Text → Text
or_next none rest = rest
or_next (some config) rest = config

unfoldable pub first_config : Dict Text → List Text → Text
first_config configs [] = codes "{}"
first_config configs (name ∷ names) = or_next (lookup name configs) (first_config configs names)

-- configFor
unfoldable pub config_for : Registration → Dict Text → Text
config_for item configs = first_config configs (item.name ∷ sort_strings item.aliases)
