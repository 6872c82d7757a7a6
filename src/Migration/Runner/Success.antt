-- ===== src/Migration/Runner/Success.antt =====
-- Run and Revert of migration/migration.go, past the lock, where nothing outside the package fails.
use fit_go.Base.{
  suc, ℕ, ◌≡◌, refl, Bool, true, false, List, [], ◌∷◌, Option, none, some, Result, ok, Text, take,
  drop, reverse, if◌then◌else◌,
}
use fit_go.Migration.Errors.{Error}
use fit_go.Migration.States.{State, normalize}
use fit_go.Migration.Registry.{Migration, Runner, RunOptions, resolve_run_range}
use fit_go.Migration.Checks.{validate_state, statuses}
use fit_go.Migration.Effects.{
  Env, World, stored, M, ◌>>=◌, pure, lift, annotate, check_context, store_load, store_save, run_up,
  run_down, timestamp,
}
use fit_go.Migration.Effects.Rules.{bind-any}
use fit_go.Migration.Runner.{
  is_applied, is_skipped, mark_applied, mark_skipped, mark_reverted, with_latest, backfill, slice,
  save_by, save_state, load_state, backfill_checksums, apply_pending, apply_all, skip_pending,
  skip_all, run_range, run_locked, call_down, checkpoint_reverted, revert_applied, revert_all,
  stop_if, first_irreversible, revert_state,
}

-- The store accepts writes under the fence token of the context, or without one.
abbrev pub Accepts : Runner → Option Text → Type 0
Accepts r none = r.store.requires_fencing ≡ false
Accepts r (some token) = r.store.fenced ≡ true

-- The context lives on, the store answers and keeps what is written, and no Up or Down function fails.
pub record NoFailure (env : Env) : Type 0 where
  pub contexts : (n : ℕ) → env.context_error n ≡ none
  pub loads : (n : ℕ) → env.load_error n ≡ none
  pub writes : (n : ℕ) → env.save n ≡ stored
  pub ups : (id : Text) (n : ℕ) → env.up_error id n ≡ none
  pub downs : (id : Text) (n : ℕ) → env.down_error id n ≡ none

abbrev pub Succeeds : {A : Type 0} → Result Error A × World → Type 0
Succeeds {A} x = (a : A) × (x.0 ≡ ok a)

bind-Succeeds :
    {A B : Type 0} (m : M A) (f : A → M B) (w : World)
    → Succeeds (m w)
    → ((a : A) → (m w).0 ≡ ok a → Succeeds (f a (m w).1))
    → Succeeds ((m >>= f) w)
bind-Succeeds m f w (a, h) rest = bind-any Succeeds m f w (λ e failed. absurd (cc)) rest

annotate-Succeeds :
    {A : Type 0} (f : Error → Error) (m : M A) (w : World)
    → Succeeds (m w)
    → Succeeds (annotate f m w)
unfolding annotate
annotate-Succeeds f m w (a, h) = (a, rw h)

pure-Succeeds : {A : Type 0} (a : A) (w : World) → Succeeds (pure a w)
unfolding pure
pure-Succeeds a w = (a, refl)

lift-Succeeds :
    {A : Type 0} (res : Result Error A) (a : A) (w : World) → res ≡ ok a → Succeeds (lift res w)
unfolding lift
lift-Succeeds res a w h = (a, h)

if-Succeeds :
    {A : Type 0} (b : Bool) (old new : M A) (w : World)
    → Succeeds (old w)
    → Succeeds (new w)
    → Succeeds ((if b then old else new) w)
if-Succeeds true old new w h k = h
if-Succeeds false old new w h k = k

module _ (env : Env) (r : Runner) (fence : Option Text) (fine : NoFailure env)
    (accepts : Accepts r fence) where
  check_context-Succeeds : (w : World) → Succeeds (check_context env w)
  unfolding check_context
  check_context-Succeeds w = (tt, rw (fine.contexts w.calls))

  store_save-Succeeds : (s : State) (w : World) → Succeeds (store_save env s w)
  unfolding store_save
  store_save-Succeeds s w = (tt, rw (fine.writes w.calls))

  run_up-Succeeds : (id : Text) (w : World) → Succeeds (run_up env id w)
  unfolding run_up
  run_up-Succeeds id w = (tt, rw (fine.ups id w.calls))

  run_down-Succeeds : (id : Text) (w : World) → Succeeds (run_down env id w)
  unfolding run_down
  run_down-Succeeds id w = (tt, rw (fine.downs id w.calls))

  timestamp-Succeeds : (w : World) → Succeeds (timestamp env w)
  unfolding timestamp
  timestamp-Succeeds w = (env.now w.calls, refl)

  save_by-Succeeds :
      (f : Option Text) (s : State) (w : World) → Accepts r f → Succeeds (save_by env r fence f s w)
  save_by-Succeeds none s w h = simp h (store_save-Succeeds s w)
  save_by-Succeeds (some t) s w h = simp h (store_save-Succeeds s w)

  save_state-Succeeds : (s : State) (w : World) → Succeeds (save_state env r fence s w)
  unfolding save_state
  save_state-Succeeds s w =
      bind-Succeeds (check_context env) _ w (check_context-Succeeds w)
        λ u e. save_by-Succeeds fence s _ accepts

  saved_as-Succeeds :
      (f : Error → Error) (s : State) (w : World)
      → Succeeds ((annotate f (save_state env r fence s) >>= λ u. pure s) w)
  saved_as-Succeeds f s w =
      bind-Succeeds (annotate f (save_state env r fence s)) (λ u. pure s) w
        (annotate-Succeeds f (save_state env r fence s) w (save_state-Succeeds s w))
        (λ u e. pure-Succeeds s _)

  apply_pending-Succeeds :
      (m : Migration) (s : State) (w : World) → Succeeds (apply_pending env r fence m s w)
  unfolding apply_pending
  apply_pending-Succeeds m s w =
      bind-Succeeds (check_context env) _ w (check_context-Succeeds w) λ u e.
        bind-Succeeds _ _ _ (annotate-Succeeds _ (run_up env m.id) _ (run_up-Succeeds m.id _))
          λ u e.
            bind-Succeeds _ _ _
              (annotate-Succeeds _ (check_context env) _ (check_context-Succeeds _))
              λ u e.
                bind-Succeeds (timestamp env) _ _ (timestamp-Succeeds _)
                  λ now e. saved_as-Succeeds _ (mark_applied m now s) _

  skip_pending-Succeeds :
      (m : Migration) (s : State) (w : World) → Succeeds (skip_pending env r fence m s w)
  unfolding skip_pending
  skip_pending-Succeeds m s w =
      bind-Succeeds (timestamp env) _ w (timestamp-Succeeds w)
        λ now e. saved_as-Succeeds _ (mark_skipped m now s) _

  apply_all-Succeeds :
      (ms : List Migration) (s : State) (w : World) → Succeeds (apply_all env r fence ms s w)
  unfolding apply_all
  apply_all-Succeeds [] s w = pure-Succeeds s w
  apply_all-Succeeds (m ∷ ms) s w =
      bind-Succeeds _ _ w
        (if-Succeeds (is_applied s m) _ _ w (pure-Succeeds s w) (apply_pending-Succeeds m s w))
        λ s' e. apply_all-Succeeds ms s' _

  skip_all-Succeeds :
      (ms : List Migration) (s : State) (w : World) → Succeeds (skip_all env r fence ms s w)
  unfolding skip_all
  skip_all-Succeeds [] s w = pure-Succeeds s w
  skip_all-Succeeds (m ∷ ms) s w =
      bind-Succeeds _ _ w
        (if-Succeeds (is_applied s m) _ _ w (pure-Succeeds s w) (skip_pending-Succeeds m s w))
        λ s' e. skip_all-Succeeds ms s' _

  backfill_checksums-Succeeds :
      (s : State) (w : World) → Succeeds (backfill_checksums env r fence s w)
  unfolding backfill_checksums
  backfill_checksums-Succeeds s w =
      if-Succeeds (backfill r.migrations false s).1 _ _ w
        (saved_as-Succeeds _ (backfill r.migrations false s).0 w) (pure-Succeeds _ w)

  run_range-Succeeds :
      (from to : ℕ) (s : State) (w : World) → Succeeds (run_range env r fence from to s w)
  unfolding run_range
  run_range-Succeeds from to s w = bind-Succeeds _ _ w (backfill_checksums-Succeeds s w) λ s1 e1.
      bind-Succeeds _ _ _ (apply_all-Succeeds (slice from to r.migrations) s1 _) λ s2 e2.
        bind-Succeeds _ _ _ (skip_all-Succeeds (take from r.migrations) s2 _)
          λ s3 e3. pure-Succeeds (statuses r s3) _

  load_state-loads :
      (s : State) (w : World)
      → normalize w.stored_state ≡ ok s
      → (load_state env r fence w).0 ≡ ok s
  unfolding load_state ◌>>=◌ check_context store_load annotate lift
  load_state-loads s w h = rw (fine.contexts w.calls) (rw (fine.loads (suc w.calls)) (rw h))

  -- Where nothing outside the package fails, the store accepts the writes, and the stored state and
  -- the requested range are valid, Run reports success.
  pub run_locked-Succeeds :
      (options : RunOptions) (s : State) (range : ℕ × ℕ) (w : World)
      → normalize w.stored_state ≡ ok s
      → validate_state r s ≡ ok tt
      → resolve_run_range r options ≡ ok range
      → Succeeds (run_locked env r fence options w)
  unfolding run_locked
  run_locked-Succeeds options s range w loads valid resolves =
      bind-Succeeds _ _ w (s, load_state-loads s w loads)
        λ t e.
          let same_state : t ≡ s = cc (load_state-loads s w loads) in
          bind-Succeeds (lift (validate_state r t)) _ _
            (lift-Succeeds (validate_state r t) tt _ (rw same_state valid))
            λ u e.
              bind-Succeeds (lift (resolve_run_range r options)) _ _
                (lift-Succeeds (resolve_run_range r options) range _ resolves)
                λ range' e. run_range-Succeeds range'.0 range'.1 t _

  call_down-Succeeds : (m : Migration) (w : World) → Succeeds (call_down env r fence m w)
  unfolding call_down
  call_down-Succeeds m w = bind-Succeeds (check_context env) _ w (check_context-Succeeds w) λ u e.
      bind-Succeeds _ _ _ (annotate-Succeeds _ (run_down env m.id) _ (run_down-Succeeds m.id _))
        λ u e. annotate-Succeeds _ (check_context env) _ (check_context-Succeeds _)

  revert_applied-Succeeds :
      (m : Migration) (s : State) (w : World) → Succeeds (revert_applied env r fence m s w)
  unfolding revert_applied checkpoint_reverted
  revert_applied-Succeeds m s w =
      bind-Succeeds _ _ w
        (if-Succeeds (is_skipped s m) _ _ w (pure-Succeeds tt w) (call_down-Succeeds m w))
        λ u e. saved_as-Succeeds _ (with_latest r (mark_reverted m s)) _

  revert_all-Succeeds :
      (ms : List Migration) (s : State) (w : World) → Succeeds (revert_all env r fence ms s w)
  unfolding revert_all
  revert_all-Succeeds [] s w = pure-Succeeds s w
  revert_all-Succeeds (m ∷ ms) s w =
      bind-Succeeds _ _ w
        (if-Succeeds (is_applied s m) _ _ w (revert_applied-Succeeds m s w) (pure-Succeeds s w))
        λ s' e. revert_all-Succeeds ms s' _

  -- Where nothing outside the package fails, the store accepts the writes, and every migration that
  -- would be undone has a Down function, a revert to an index reports success.
  pub revert_state-Succeeds :
      (s : State) (to : ℕ) (w : World)
      → first_irreversible s (reverse (drop to r.migrations)) ≡ none
      → Succeeds (revert_state env r fence s to w)
  unfolding revert_state
  revert_state-Succeeds s to w h =
      bind-Succeeds (stop_if env r fence (first_irreversible s (reverse (drop to r.migrations)))) _
        w (tt, rw h (unfold pure in refl))
        λ u e.
          bind-Succeeds _ _ _ (revert_all-Succeeds (reverse (drop to r.migrations)) s _)
            λ s' e'. pure-Succeeds (statuses r s') _
