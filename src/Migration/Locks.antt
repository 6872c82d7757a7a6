-- ===== src/Migration/Locks.antt =====
-- migration/migration.go: withLock, and the operations that run inside it.
pub mod Release
pub mod Operations
use fit_go.Base.{
  ℕ, Bool, true, false, not, List, Option, none, some, Result, ok, err, if◌then◌else◌, Text,
  is_empty, trim_space,
}
use fit_go.Migration.Errors.{
  Error, external, lease_failed, lock_failed, unlock_failed, invalid_lease_unlock, nil_unlock,
  nil_lease_context, empty_fence_token, lease_needs_fenced_store, joined, revert_target_required,
}
use fit_go.Migration.Registry.{Runner, RunOptions}
use fit_go.Migration.Checks.{Status}
use fit_go.Migration.Effects.{
  Env, World, Lease, M, ◌>>=◌, ◌>>◌, pure, raise, annotate, take_lock, take_lease, release,
}
use fit_go.Migration.Runner.{run_locked, revert_locked, revert_one_locked}

-- errors.Join(e, wrapUnlockError(unlock error))
abbrev join_release : Error → Option ℕ → Error
join_release e none = e
join_release e (some u) = joined e (invalid_lease_unlock (external u))

-- The result of withLock from those of the operation and of the release.
abbrev released : {A : Type 0} → Result Error A → Option ℕ → Result Error A
released (ok a) none = ok a
released (ok a) (some u) = err (unlock_failed (external u))
released (err e) none = err e
released (err e) (some u) = err (joined e (unlock_failed (external u)))

module _ (env : Env) (r : Runner) where
  unfoldable pub reject_lease : Error → M (Option Text)
  reject_lease e = do u ← release env; raise (join_release e u)

  -- The lease branch of withLock: the fence token that the run's context carries.
  unfoldable pub check_lease : Lease → M (Option Text)
  check_lease l =
      if not l.has_unlock
      then raise nil_unlock
      else if not l.has_context
      then reject_lease nil_lease_context
      else if is_empty (trim_space l.fence_token)
      then reject_lease empty_fence_token
      else if not r.store.fenced
      then reject_lease lease_needs_fenced_store
      else pure (some (trim_space l.fence_token))

  unfoldable pub acquire_lease : M (Option Text)
  acquire_lease = do l ← annotate lease_failed (take_lease env); check_lease l

  unfoldable pub acquire_lock : M (Option Text)
  acquire_lock = do
    usable ← annotate lock_failed (take_lock env)
    if usable then pure none else raise nil_unlock

  unfoldable pub acquire : M (Option Text)
  acquire = if r.locker.leases then acquire_lease else acquire_lock

  -- The operation and the deferred release, whose error is joined to the operation's.
  unfoldable pub inside : {A : Type 0} → M A → M A
  inside operation w =
      let (res, w1) = operation w in (released res (env.unlock_error w1.calls), (release env w1).1)

  -- Runner.withLock
  unfoldable pub with_lock : {A : Type 0} → (Option Text → M A) → M A
  with_lock operation = do fence ← acquire; inside (operation fence)

  -- Runner.Run
  unfoldable pub run : RunOptions → M (List Status)
  run options = with_lock (λ fence. run_locked env r fence options)

  -- Runner.Revert
  unfoldable pub revert : Text → M (List Status)
  revert target =
      if is_empty (trim_space target)
      then raise revert_target_required
      else with_lock (λ fence. revert_locked env r fence target)

  -- Runner.RevertOne
  unfoldable pub revert_one : M (List Status)
  revert_one = with_lock (λ fence. revert_one_locked env r fence)
