-- ===== src/Instrumentation/Lifecycle.antt =====
-- instrumentation/registry.go: the loop of Start over the selected instrumentations, and Manager.
-- The factories and hooks belong to the application: `Env` answers each call by the number of calls
-- made before it, and the history has a member for each call.
use fit_go.Base.{
  ℕ, Bool, true, false, List, [], ◌∷◌, ◌++◌, reverse, Option, none, some, Result, ok, err, Text,
  length, Dict,
}
use fit_go.Instrumentation.Registry.{
  Registration, Registry, RegistryError, select, check_config, config_for,
}

pub data Creation : Type 0 where
  hook nil_hook : Creation
  create_error : ℕ → Creation

pub record Env : Type 0 where
  pub create : Text → Text → ℕ → Creation
  pub start_error : Text → ℕ → Option ℕ
  pub stop_error : Text → ℕ → Option ℕ

-- A call of a factory, of a hook's Start and of its Shutdown, and whether it succeeded.
pub data Event : Type 0 where
  created not_created started not_started stopped not_stopped : Text → Event

pub data StartError : Type 0 where
  rejected : RegistryError → StartError
  create_failed start_failed unstarted_failed stop_failed : Text → ℕ → StartError
  factory_nil : Text → StartError

-- type Manager; `done` is the state of its sync.Once.
pub record Manager : Type 0 where
  pub started : List Text
  pub done : Bool
  pub shutdown_errors : List StartError

abbrev pub History : Type 0
History = List Event

abbrev pub stop_event : Text → Option ℕ → Event
stop_event name none = stopped name
stop_event name (some e) = not_stopped name

abbrev with_stop_error : Text → Option ℕ → List StartError → List StartError
with_stop_error name none errors = errors
with_stop_error name (some e) errors = stop_failed name e ∷ errors

abbrev unstarted : Text → Option ℕ → List StartError
unstarted name none = []
unstarted name (some e) = unstarted_failed name e ∷ []

module _ (env : Env) where
  -- The loop of Shutdown, over the names from the last started to the first.
  unfoldable pub stop_all : List Text → History → List StartError × History
  stop_all [] h = ([], h)
  stop_all (name ∷ names) h =
      let (errors, h') =
        stop_all names (h ++ stop_event name (env.stop_error name (length h)) ∷ []) in
      (with_stop_error name (env.stop_error name (length h)) errors, h')

  -- Manager.Shutdown
  abbrev pub shutdown_once : Bool → Manager → History → Manager × History
  shutdown_once true m h = (m, h)
  shutdown_once false m h =
      let (errors, h') = stop_all (reverse m.started) h in
      (record m { done = true; shutdown_errors = errors }, h')

  unfoldable pub shutdown : Manager → History → Manager × History
  shutdown m h = shutdown_once m.done m h

  -- manager.rollback, for a manager that was never shut down: its error is joined to the causes.
  unfoldable pub rollback :
      List Text → List StartError → History → Result (List StartError) Manager × History
  rollback running causes h =
      let (m, h') = shutdown (record { started = running; done = false; shutdown_errors = [] }) h in
      (err (causes ++ m.shutdown_errors), h')

  -- After hook.Start failed: the hook itself is shut down, then those before it.
  unfoldable pub failed_start :
      Text → ℕ → List Text → History → Result (List StartError) Manager × History
  failed_start name e running h =
      rollback running (start_failed name e ∷ unstarted name (env.stop_error name (length h)))
        (h ++ stop_event name (env.stop_error name (length h)) ∷ [])

  -- hook.Start, and the rest of the loop where it succeeds.
  abbrev pub after_start :
      Text
      → Option ℕ
      → List Text
      → History
      → (List Text → History → Result (List StartError) Manager × History)
      → Result (List StartError) Manager × History
  after_start name none running h rest = rest (running ++ name ∷ []) (h ++ started name ∷ [])
  after_start name (some e) running h rest =
      failed_start name e running (h ++ not_started name ∷ [])

  -- item.Factory, and what follows.
  abbrev pub after_create :
      Text
      → Creation
      → List Text
      → History
      → (List Text → History → Result (List StartError) Manager × History)
      → Result (List StartError) Manager × History
  after_create name (create_error e) running h rest =
      rollback running (create_failed name e ∷ []) (h ++ not_created name ∷ [])
  after_create name nil_hook running h rest =
      rollback running (factory_nil name ∷ []) (h ++ not_created name ∷ [])
  after_create name hook running h rest =
      after_start name (env.start_error name (length (h ++ created name ∷ []))) running
        (h ++ created name ∷ []) rest

  -- The loop of Start over the selected items; `running` has the names started so far.
  unfoldable pub start_all :
      Dict Text
      → List Registration
      → List Text
      → History
      → Result (List StartError) Manager × History
  start_all configs [] running h =
      (ok (record { started = running; done = false; shutdown_errors = [] }), h)
  start_all configs (item ∷ items) running h =
      after_create item.name (env.create item.name (config_for item configs) (length h)) running h
        (start_all configs items)

  abbrev pub start_with :
      Result RegistryError (List Registration)
      → Result RegistryError (Dict Text)
      → History
      → Result (List StartError) Manager × History
  start_with (err e) configs h = (err (rejected e ∷ []), h)
  start_with (ok items) (err e) h = (err (rejected e ∷ []), h)
  start_with (ok items) (ok configs) h = start_all configs items [] h

  -- Registry.Start; encoding/json's Valid is a parameter.
  unfoldable pub start :
      (Text → Bool)
      → Registry
      → List Text
      → Dict Text
      → History
      → Result (List StartError) Manager × History
  start valid registry extra config h =
      start_with (select registry extra) (check_config valid registry [] config) h
