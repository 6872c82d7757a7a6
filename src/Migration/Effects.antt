-- ===== src/Migration/Effects.antt =====
-- What a migration run does to the world outside the package, as state passing with failure.
-- `Env` answers for the context, the store, the clock and the application's Up and Down functions:
-- each call is answered by the number of calls made before it, so every schedule of failures, losses
-- of the lease and cancellations is one environment. `World` keeps what the store holds and a
-- history of the calls that matter to the database.

pub mod Rules
use fit_go.Base.{ℕ, suc, List, [], ◌∷◌, ◌++◌, Option, none, some, Result, ok, err, Text, ℤ, Bool}
use fit_go.Migration.Errors.{Error, context_ended, external}
use fit_go.Migration.States.{State}

-- How a write to the store ends. A write that reports an error may have reached the store.
pub data SaveOutcome : Type 0 where
  stored : SaveOutcome
  not_stored stored_with_error : ℕ → SaveOutcome

-- What LockLease returns: whether the context and the release function are non-nil, and the token.
pub record Lease : Type 0 where
  pub has_context : Bool
  pub fence_token : Text
  pub has_unlock : Bool

-- `lock` answers whether the release function is non-nil.
pub record Env : Type 0 where
  pub lock : ℕ → Result ℕ Bool
  pub lease : ℕ → Result ℕ Lease
  pub unlock_error : ℕ → Option ℕ
  pub context_error : ℕ → Option ℕ
  pub load_error : ℕ → Option ℕ
  pub save : ℕ → SaveOutcome
  pub up_error : Text → ℕ → Option ℕ
  pub down_error : Text → ℕ → Option ℕ
  pub now : ℕ → ℤ

-- A call of an Up or Down function, and whether it returned an error; the lock acquired and released.
pub data Event : Type 0 where
  up_done up_error down_done down_error : Text → Event
  locked unlocked : Event

pub record World : Type 0 where
  pub stored_state : State
  pub history : List Event
  pub calls : ℕ

abbrev pub M : Type 0 → Type 0
M A = World → Result Error A × World

abbrev continue : {A B : Type 0} → Result Error A → World → (A → M B) → Result Error B × World
continue (ok a) w f = f a w
continue (err e) w f = (err e, w)

infixl 5 ◌>>=◌ ◌>>◌
unfoldable pub ◌>>=◌ : {A B : Type 0} → M A → (A → M B) → M B
◌>>=◌ m f w = continue (m w).0 (m w).1 f

abbrev pub ◌>>◌ : {B : Type 0} → M (Unit {0}) → M B → M B
m >> k = m >>= λ _. k

unfoldable pub pure : {A : Type 0} → A → M A
pure a w = (ok a, w)

unfoldable pub raise : {A : Type 0} → Error → M A
raise e w = (err e, w)

unfoldable pub lift : {A : Type 0} → Result Error A → M A
lift r w = (r, w)

abbrev annotated : {A : Type 0} → (Error → Error) → Result Error A → Result Error A
annotated f (ok a) = ok a
annotated f (err e) = err (f e)

-- `if err := m; err != nil { return fmt.Errorf(…, err) }`
unfoldable pub annotate : {A : Type 0} → (Error → Error) → M A → M A
annotate f m w = (annotated f (m w).0, (m w).1)

abbrev outcome : (ℕ → Error) → Option ℕ → Result Error (Unit {0})
outcome f none = ok tt
outcome f (some e) = err (f e)

abbrev loaded : Option ℕ → State → Result Error State
loaded none s = ok s
loaded (some e) s = err (external e)

abbrev pub called : World → World
called w = record w { calls = suc w.calls }

abbrev event_of : Option ℕ → Event → Event → Event
event_of none done failed = done
event_of (some e) done failed = failed

abbrev saved : SaveOutcome → State → World → Result Error (Unit {0}) × World
saved stored s w = (ok tt, record w { stored_state = s; calls = suc w.calls })
saved (not_stored e) s w = (err (external e), called w)
saved (stored_with_error e) s w =
    (err (external e), record w { stored_state = s; calls = suc w.calls })

module _ (env : Env) where
  -- checkExecutionContext
  unfoldable pub check_context : M (Unit {0})
  check_context w = (outcome context_ended (env.context_error w.calls), called w)

  -- store.Load
  unfoldable pub store_load : M State
  store_load w = (loaded (env.load_error w.calls) w.stored_state, called w)

  -- store.Save and store.SaveFenced
  unfoldable pub store_save : State → M (Unit {0})
  store_save s w = saved (env.save w.calls) s w

  -- migration.Up(ctx)
  unfoldable pub run_up : Text → M (Unit {0})
  run_up id w = (
    outcome external (env.up_error id w.calls),
    record w {
      history = w.history ++ event_of (env.up_error id w.calls) (up_done id) (up_error id) ∷ [];
      calls = suc w.calls;
    },
  )

  -- migration.Down(ctx)
  unfoldable pub run_down : Text → M (Unit {0})
  run_down id w = (
    outcome external (env.down_error id w.calls),
    record w {
      history =
          w.history ++ event_of (env.down_error id w.calls) (down_done id) (down_error id) ∷ [];
      calls = suc w.calls;
    },
  )

  -- runner.timestamp
  unfoldable pub timestamp : M ℤ
  timestamp w = (ok (env.now w.calls), called w)

  abbrev lock_answer : Result ℕ Bool → World → Result Error Bool × World
  lock_answer (ok usable) w =
      (ok usable, record w { history = w.history ++ locked ∷ []; calls = suc w.calls })
  lock_answer (err e) w = (err (external e), called w)

  -- locker.Lock
  unfoldable pub take_lock : M Bool
  take_lock w = lock_answer (env.lock w.calls) w

  abbrev lease_answer : Result ℕ Lease → World → Result Error Lease × World
  lease_answer (ok l) w =
      (ok l, record w { history = w.history ++ locked ∷ []; calls = suc w.calls })
  lease_answer (err e) w = (err (external e), called w)

  -- leaseLocker.LockLease
  unfoldable pub take_lease : M Lease
  take_lease w = lease_answer (env.lease w.calls) w

  -- unlock(): the error that it returns is a value.
  unfoldable pub release : M (Option ℕ)
  release w = (
    ok (env.unlock_error w.calls),
    record w { history = w.history ++ unlocked ∷ []; calls = suc w.calls },
  )
