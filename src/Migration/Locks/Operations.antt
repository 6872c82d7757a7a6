-- ===== src/Migration/Locks/Operations.antt =====
-- Run, Revert and RevertOne of migration/migration.go do all their work inside the lock.
use fit_go.Base.{refl, Bool-cases, inl, inr, Text, is_empty, trim_space}
use fit_go.Migration.Errors.{revert_target_required}
use fit_go.Migration.Registry.{Runner, RunOptions}
use fit_go.Migration.Effects.{Env, World, raise}
use fit_go.Migration.Runner.{run_locked, revert_locked, revert_one_locked}
use fit_go.Migration.Runner.Additions.{run_locked-Adds, revert_locked-Adds, revert_one_locked-Adds}
use fit_go.Migration.Locks.{run, revert, revert_one}
use fit_go.Migration.Locks.Release.{Bracketed, with_lock-Bracketed}

module _ (env : Env) (r : Runner) where
  run-Bracketed :
      (options : RunOptions) (w : World)
      → Bracketed env r w (λ fence. run_locked env r fence options) (run env r options w)
  unfolding run
  run-Bracketed options w =
      with_lock-Bracketed env r (λ fence. run_locked env r fence options)
        (λ fence. run_locked-Adds env r fence options) w

  revert-Bracketed :
      (target : Text) (w : World)
      → Bracketed env r w (λ fence. revert_locked env r fence target) (revert env r target w)
  unfolding revert
  revert-Bracketed target w = elim (Bool-cases (is_empty (trim_space target))) [
    | inl blank ↦ rw blank (unfold raise in inr (revert_target_required, refl, inl refl))
    | inr given ↦ rw given (
        with_lock-Bracketed env r (λ fence. revert_locked env r fence target)
          (λ fence. revert_locked-Adds env r fence target) w)
  ]

  revert_one-Bracketed :
      (w : World) → Bracketed env r w (revert_one_locked env r) (revert_one env r w)
  unfolding revert_one
  revert_one-Bracketed w =
      with_lock-Bracketed env r (revert_one_locked env r) (revert_one_locked-Adds env r) w

  -- In every environment, from every world and on every outcome, each of Run, Revert and RevertOne
  -- either acquires the lock by one call, runs its operation once in the world which that call left,
  -- with the token that it returned, where the operation only adds to the history, and makes one call
  -- more, the release: the store holds what the operation left, so nothing is loaded, saved or called
  -- before the acquisition or after the release; or it returns an error with the store as it was, after
  -- no call, one that acquired nothing, one that acquired the lock, or one that did and its release.
  pub operations-Bracketed :
      (options : RunOptions) (target : Text) (w : World)
      → Bracketed env r w (λ fence. run_locked env r fence options) (run env r options w)
        × Bracketed env r w (λ fence. revert_locked env r fence target) (revert env r target w)
        × Bracketed env r w (revert_one_locked env r) (revert_one env r w)
  operations-Bracketed options target w =
      (run-Bracketed options w, revert-Bracketed target w, revert_one-Bracketed w)
