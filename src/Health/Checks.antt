-- ===== src/Health/Checks.antt =====
-- health/health.go: Check, the checks of the connections, and the interval of StartPeriodicCheck.
use fit_go.Base.{
  Bool, true, false, List, [], ◌∷◌, ◌++◌, Option, none, some, if◌then◌else◌, Text, codes, is_empty,
  equal_fold, ℤ, pos, negsuc, leb,
}

-- Checker.Check over what the registered functions return: the messages that are not empty, in order.
unfoldable pub check : List Text → List Text
check [] = []
check (message ∷ messages) =
    let rest = check messages in if is_empty message then rest else message ∷ rest

-- Checker.IsHealthy
unfoldable pub is_healthy : List Text → Bool
is_healthy results = elim (check results) [ [] ↦ true | ◌∷◌ m ms ↦ false ]

-- shouldSkip, given the value of the environment variable.
unfoldable pub should_skip : Text → Bool
should_skip value = equal_fold value (codes "true")

abbrev ping_message : Text → Text → Option Text → Text
ping_message label name none = []
ping_message label name (some e) = label ++ (codes "(" ++ (name ++ (codes "): " ++ e)))

-- MongoCheck, RedisCheck, MySQLCheck, PostgresCheck and GroupCacheCheck: one body under five labels.
-- `ping` is the text of the error that pinging returned.
unfoldable pub connection_check : Text → Text → Text → Option Text → Text
connection_check label skip name ping =
    if should_skip skip then [] else ping_message label name ping

abbrev default_interval : ℤ → ℤ
default_interval (pos n) = if leb n 0 then pos 30 else pos n
default_interval (negsuc n) = pos 30

abbrev positive_or : ℤ → Option ℤ → ℤ
positive_or configured none = configured
positive_or configured (some (pos n)) = if leb n 0 then configured else pos n
positive_or configured (some (negsuc n)) = configured

-- periodicIntervalSeconds. What fmt.Sscanf reads of the variable is a parameter.
unfoldable pub periodic_interval : (Text → Option ℤ) → ℤ → Text → ℤ
periodic_interval scan configured environment =
    if is_empty environment
    then default_interval configured
    else positive_or (default_interval configured) (scan environment)
