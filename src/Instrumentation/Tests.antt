-- ===== src/Instrumentation/Tests.antt =====
-- Concrete registries and managers: the theorems at inputs where their hypotheses hold.
use fit_go.Base.{
  ◌≡◌, refl, true, false, ◌==◌, if◌then◌else◌, List, [], ◌∷◌, ◌++◌, none, some, ok, codes, reverse,
  trim_space, same, lookup, insert,
}
use fit_go.Instrumentation.Registry.{
  Registration, Registry, new_registry, contains, check_names, check_free, insert_names, register,
}
use fit_go.Instrumentation.Names.{IsConsistent, trimmed, register-IsConsistent}
use fit_go.Instrumentation.Lifecycle.{Env, Event, hook, Manager, start, shutdown}
use fit_go.Instrumentation.Rollback.{Stops, Started, start-Started, shutdown-shutdown}

abbrev http_given : Registration
http_given = record {
  name = codes " http ";
  aliases = codes "net" ∷ [];
  enabled_by_default = true;
  has_factory = true;
}

abbrev http_item : Registration
http_item = record http_given { name = codes "http" }

abbrev sql_item : Registration
sql_item = record {
  name = codes "sql";
  aliases = codes "db" ∷ [];
  enabled_by_default = true;
  has_factory = true;
}

abbrev sql_given : Registration
sql_given = record sql_item { aliases = codes " db" ∷ [] }

abbrev http_registry : Registry
http_registry = record {
  by_name = (codes "http", http_item) ∷ (codes "net", http_item) ∷ [];
  ordered = http_item ∷ [];
}

abbrev both_registry : Registry
both_registry = record {
  by_name =
      (codes "http", http_item)
      ∷ (codes "net", http_item)
      ∷ (codes "sql", sql_item)
      ∷ (codes "db", sql_item)
      ∷ [];
  ordered = http_item ∷ sql_item ∷ [];
}

registers_http : register http_given new_registry ≡ ok http_registry
unfolding register check_names check_free insert_names contains trim_space same lookup insert
registers_http = refl

registers_sql : register sql_given http_registry ≡ ok both_registry
unfolding register check_names check_free insert_names contains trim_space same lookup insert
registers_sql = refl

http_registry-IsConsistent : IsConsistent http_registry
http_registry-IsConsistent =
    (register-IsConsistent http_given new_registry http_registry tt registers_http).0

register-IsConsistent_example :
    IsConsistent both_registry
    × (both_registry.ordered ≡ http_registry.ordered ++ trimmed sql_given ∷ [])
register-IsConsistent_example =
    register-IsConsistent sql_given http_registry both_registry http_registry-IsConsistent
      registers_sql

-- The start of the second hook fails.
abbrev failing_env : Env
failing_env = record {
  create = λ name config n. hook;
  start_error = λ name n. if n == 3 then some 8 else none;
  stop_error = λ name n. none;
}

start-Started_example :
    Started both_registry [] [] (start failing_env (λ t. true) both_registry [] [] [])
start-Started_example = start-Started failing_env (λ t. true) both_registry [] [] []

abbrev two_started : Manager
two_started = record {
  started = codes "http" ∷ codes "sql" ∷ [];
  done = false;
  shutdown_errors = [];
}

shutdown-shutdown_example :
    ((es : List Event) × ((shutdown failing_env two_started []).1 ≡ [] ++ es)
      × Stops (reverse two_started.started) es)
    × (shutdown failing_env (shutdown failing_env two_started []).0 []
        ≡ ((shutdown failing_env two_started []).0, []))
shutdown-shutdown_example = shutdown-shutdown failing_env two_started [] [] refl
