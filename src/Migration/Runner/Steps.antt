-- ===== src/Migration/Runner/Steps.antt =====
-- migration/migration.go: one migration applied, skipped or reverted, on each of its outcomes.
use fit_go.Base.{suc, ◌≡◌, ◌⊎◌, [], ◌∷◌, ◌++◌, Option, ok, arith, ℤ, Text}
use fit_go.Migration.States.{State}
use fit_go.Migration.Registry.{Migration, Runner}
use fit_go.Migration.Effects.{
  Env, World, up_done, up_error, ◌>>=◌, pure, raise, annotate, check_context, store_save, run_up,
  timestamp, called,
}
use fit_go.Migration.Runner.{mark_applied, mark_skipped, save_state, apply_pending, skip_pending}

module _ (env : Env) (r : Runner) (fence : Option Text) where
  -- The time that a step starting in `w` records: three calls come before the clock's.
  abbrev pub step_time : World → ℤ
  step_time w = env.now (suc (suc (suc w.calls)))

  pub save_state_ok :
      (s : State) (w : World)
      → (save_state env r fence s w).0 ≡ ok tt
      → ((save_state env r fence s w).1.stored_state ≡ s)
        × ((save_state env r fence s w).1.history ≡ w.history)
  unfolding save_state ◌>>=◌ check_context store_save raise
  save_state_ok s w h = ground arith

  pub save_state_any :
      (s : State) (w : World)
      → (((save_state env r fence s w).1.stored_state ≡ s)
          ⊎ ((save_state env r fence s w).1.stored_state ≡ w.stored_state))
        × ((save_state env r fence s w).1.history ≡ w.history)
  unfolding save_state ◌>>=◌ check_context store_save raise
  save_state_any s w = ground arith

  -- The world after Up returned with no error, the lease was checked again and the clock was read.
  abbrev after_up : Migration → World → World
  after_up m w = record w {
    history = w.history ++ up_done m.id ∷ [];
    calls = suc (suc (suc (suc w.calls)));
  }

  -- A migration that was applied is recorded in the store before the next step.
  pub apply_pending_ok :
      (m : Migration) (s s' : State) (w : World)
      → (apply_pending env r fence m s w).0 ≡ ok s'
      → (s' ≡ mark_applied m (step_time w) s)
        × ((apply_pending env r fence m s w).1.stored_state ≡ s')
        × ((apply_pending env r fence m s w).1.history ≡ w.history ++ up_done m.id ∷ [])
  unfolding apply_pending ◌>>=◌ check_context run_up timestamp annotate pure
  apply_pending_ok m s s' w h =
      ground (arith, save_state_ok (mark_applied m (step_time w) s) (after_up m w))

  -- On every outcome the store holds what it held or the migration as applied, and the history has
  -- at most the one call of its Up function more.
  pub apply_pending_any :
      (m : Migration) (s : State) (w : World)
      → (((apply_pending env r fence m s w).1.stored_state ≡ mark_applied m (step_time w) s)
          ⊎ ((apply_pending env r fence m s w).1.stored_state ≡ w.stored_state))
        × (((apply_pending env r fence m s w).1.history ≡ w.history)
            ⊎ ((apply_pending env r fence m s w).1.history ≡ w.history ++ up_done m.id ∷ [])
            ⊎ ((apply_pending env r fence m s w).1.history ≡ w.history ++ up_error m.id ∷ []))
  unfolding apply_pending ◌>>=◌ check_context run_up timestamp annotate pure
  apply_pending_any m s w =
      ground (arith, save_state_any (mark_applied m (step_time w) s) (after_up m w))

  pub skip_pending_ok :
      (m : Migration) (s s' : State) (w : World)
      → (skip_pending env r fence m s w).0 ≡ ok s'
      → (s' ≡ mark_skipped m (env.now w.calls) s)
        × ((skip_pending env r fence m s w).1.stored_state ≡ s')
        × ((skip_pending env r fence m s w).1.history ≡ w.history)
  unfolding skip_pending ◌>>=◌ timestamp annotate pure
  skip_pending_ok m s s' w h =
      ground (arith, save_state_ok (mark_skipped m (env.now w.calls) s) (called w))

  pub skip_pending_any :
      (m : Migration) (s : State) (w : World)
      → (((skip_pending env r fence m s w).1.stored_state ≡ mark_skipped m (env.now w.calls) s)
          ⊎ ((skip_pending env r fence m s w).1.stored_state ≡ w.stored_state))
        × ((skip_pending env r fence m s w).1.history ≡ w.history)
  unfolding skip_pending ◌>>=◌ timestamp annotate pure
  skip_pending_any m s w =
      ground (arith, save_state_any (mark_skipped m (env.now w.calls) s) (called w))
