-- ===== src/Migration/Runner/Additions.antt =====
-- The operations of Runner in migration/migration.go only add to the history of calls.
use fit_go.Base.{
  ℕ, ◌≡◌, refl, sym, ap, ◌∙◌, Bool, true, false, List, [], ◌∷◌, ◌++◌, append-nil, append_assoc,
  Option, none, some, Result, Text, take, drop, reverse, if◌then◌else◌, arith,
}
use fit_go.Migration.Errors.{Error}
use fit_go.Migration.States.{State, normalize}
use fit_go.Migration.Registry.{Migration, Runner, RunOptions, resolve_run_range, resolve_target}
use fit_go.Migration.Checks.{validate_state, statuses}
use fit_go.Migration.Effects.{
  Env, World, Event, M, ◌>>=◌, pure, raise, lift, annotate, check_context, store_load, store_save,
  run_up, run_down, timestamp,
}
use fit_go.Migration.Effects.Rules.{bind-any}
use fit_go.Migration.Runner.{
  is_applied, is_skipped, mark_applied, mark_skipped, mark_reverted, with_latest, backfill, slice,
  save_by, save_state, load_state, backfill_checksums, apply_pending, apply_all, skip_pending,
  skip_all, run_range, run_locked, call_down, checkpoint_reverted, revert_applied, revert_all,
  stop_if, first_irreversible, revert_state, revert_locked, revert_latest, revert_one_locked,
}

abbrev pub Adds : {A : Type 0} → List Event → Result Error A × World → Type 0
Adds start x = (during : List Event) × (x.1.history ≡ start ++ during)

bind-Adds :
    {A B : Type 0} (m : M A) (f : A → M B) (w : World)
    → Adds w.history (m w)
    → ((a : A) (w1 : World) → Adds w1.history (f a w1))
    → Adds w.history ((m >>= f) w)
bind-Adds m f w (first, h) rest =
    bind-any (Adds w.history) m f w (λ e failed. (first, h))
      λ a done.
        let (more, k) = rest a (m w).1 in
        (first ++ more, k ∙ ap (λ l. l ++ more) h ∙ append_assoc w.history first more)

quiet-Adds :
    {A : Type 0} (x : Result Error A × World) (w : World)
    → x.1.history ≡ w.history
    → Adds w.history x
quiet-Adds x w h = ([], h ∙ sym (append-nil w.history))

pure-Adds : {A : Type 0} (a : A) (w : World) → Adds w.history (pure a w)
pure-Adds a w = quiet-Adds (pure a w) w (unfold pure in refl)

raise-Adds : (A : Type 0) (e : Error) (w : World) → Adds w.history (raise {A = A} e w)
raise-Adds A e w = quiet-Adds (raise e w) w (unfold raise in refl)

lift-Adds : {A : Type 0} (res : Result Error A) (w : World) → Adds w.history (lift res w)
lift-Adds res w = quiet-Adds (lift res w) w (unfold lift in refl)

annotate-Adds :
    {A : Type 0} (f : Error → Error) (m : M A) (w : World)
    → Adds w.history (m w)
    → Adds w.history (annotate f m w)
unfolding annotate
annotate-Adds f m w h = h

if-Adds :
    {A : Type 0} (b : Bool) (m n : M A) (w : World)
    → Adds w.history (m w)
    → Adds w.history (n w)
    → Adds w.history ((if b then m else n) w)
if-Adds true m n w h k = h
if-Adds false m n w h k = k

module _ (env : Env) (r : Runner) (fence : Option Text) where
  check_context-Adds : (w : World) → Adds w.history (check_context env w)
  check_context-Adds w = quiet-Adds (check_context env w) w (unfold check_context in refl)

  timestamp-Adds : (w : World) → Adds w.history (timestamp env w)
  timestamp-Adds w = quiet-Adds (timestamp env w) w (unfold timestamp in refl)

  store_load-Adds : (w : World) → Adds w.history (store_load env w)
  store_load-Adds w = quiet-Adds (store_load env w) w (unfold store_load in refl)

  store_save-Adds : (s : State) (w : World) → Adds w.history (store_save env s w)
  store_save-Adds s w = quiet-Adds (store_save env s w) w (unfold store_save in ground arith)

  run_up-Adds : (id : Text) (w : World) → Adds w.history (run_up env id w)
  unfolding run_up
  run_up-Adds id w = (_, refl)

  run_down-Adds : (id : Text) (w : World) → Adds w.history (run_down env id w)
  unfolding run_down
  run_down-Adds id w = (_, refl)

  save_by-Adds :
      (f : Option Text) (s : State) (w : World) → Adds w.history (save_by env r fence f s w)
  save_by-Adds none s w =
      if-Adds r.store.requires_fencing _ _ w (raise-Adds _ _ w) (store_save-Adds s w)
  save_by-Adds (some t) s w = if-Adds r.store.fenced _ _ w (store_save-Adds s w) (raise-Adds _ _ w)

  save_state-Adds : (s : State) (w : World) → Adds w.history (save_state env r fence s w)
  unfolding save_state
  save_state-Adds s w =
      bind-Adds (check_context env) _ w (check_context-Adds w) λ u w1. save_by-Adds fence s w1

  saved_as-Adds :
      (f : Error → Error) (s : State) (w : World)
      → Adds w.history ((annotate f (save_state env r fence s) >>= λ u. pure s) w)
  saved_as-Adds f s w =
      bind-Adds (annotate f (save_state env r fence s)) (λ u. pure s) w
        (annotate-Adds f (save_state env r fence s) w (save_state-Adds s w)) λ u w1. pure-Adds s w1

  apply_pending-Adds :
      (m : Migration) (s : State) (w : World) → Adds w.history (apply_pending env r fence m s w)
  unfolding apply_pending
  apply_pending-Adds m s w = bind-Adds (check_context env) _ w (check_context-Adds w) λ u w1.
      bind-Adds _ _ w1 (annotate-Adds _ (run_up env m.id) w1 (run_up-Adds m.id w1)) λ u w2.
        bind-Adds _ _ w2 (annotate-Adds _ (check_context env) w2 (check_context-Adds w2)) λ u w3.
          bind-Adds (timestamp env) _ w3 (timestamp-Adds w3)
            λ now w4. saved_as-Adds _ (mark_applied m now s) w4

  skip_pending-Adds :
      (m : Migration) (s : State) (w : World) → Adds w.history (skip_pending env r fence m s w)
  unfolding skip_pending
  skip_pending-Adds m s w =
      bind-Adds (timestamp env) _ w (timestamp-Adds w)
        λ now w1. saved_as-Adds _ (mark_skipped m now s) w1

  apply_all-Adds :
      (ms : List Migration) (s : State) (w : World) → Adds w.history (apply_all env r fence ms s w)
  unfolding apply_all
  apply_all-Adds [] s w = pure-Adds s w
  apply_all-Adds (m ∷ ms) s w =
      bind-Adds _ _ w (if-Adds (is_applied s m) _ _ w (pure-Adds s w) (apply_pending-Adds m s w))
        λ s' w1. apply_all-Adds ms s' w1

  skip_all-Adds :
      (ms : List Migration) (s : State) (w : World) → Adds w.history (skip_all env r fence ms s w)
  unfolding skip_all
  skip_all-Adds [] s w = pure-Adds s w
  skip_all-Adds (m ∷ ms) s w =
      bind-Adds _ _ w (if-Adds (is_applied s m) _ _ w (pure-Adds s w) (skip_pending-Adds m s w))
        λ s' w1. skip_all-Adds ms s' w1

  backfill_checksums-Adds :
      (s : State) (w : World) → Adds w.history (backfill_checksums env r fence s w)
  unfolding backfill_checksums
  backfill_checksums-Adds s w =
      if-Adds (backfill r.migrations false s).1 _ _ w
        (saved_as-Adds _ (backfill r.migrations false s).0 w) (pure-Adds _ w)

  run_range-Adds :
      (from to : ℕ) (s : State) (w : World) → Adds w.history (run_range env r fence from to s w)
  unfolding run_range
  run_range-Adds from to s w = bind-Adds _ _ w (backfill_checksums-Adds s w) λ s1 w1.
      bind-Adds _ _ w1 (apply_all-Adds (slice from to r.migrations) s1 w1) λ s2 w2.
        bind-Adds _ _ w2 (skip_all-Adds (take from r.migrations) s2 w2)
          λ s3 w3. pure-Adds (statuses r s3) w3

  load_state-Adds : (w : World) → Adds w.history (load_state env r fence w)
  unfolding load_state
  load_state-Adds w = bind-Adds (check_context env) _ w (check_context-Adds w) λ u w1.
      bind-Adds (store_load env) _ w1 (store_load-Adds w1)
        λ s w2. annotate-Adds _ (lift (normalize s)) w2 (lift-Adds (normalize s) w2)

  -- Run, inside the lock, only adds to the history.
  pub run_locked-Adds :
      (options : RunOptions) (w : World) → Adds w.history (run_locked env r fence options w)
  unfolding run_locked
  run_locked-Adds options w = bind-Adds _ _ w (load_state-Adds w) λ s w1.
      bind-Adds _ _ w1 (lift-Adds (validate_state r s) w1) λ u w2.
        bind-Adds _ _ w2 (lift-Adds (resolve_run_range r options) w2)
          λ range w3. run_range-Adds range.0 range.1 s w3

  call_down-Adds : (m : Migration) (w : World) → Adds w.history (call_down env r fence m w)
  unfolding call_down
  call_down-Adds m w = bind-Adds (check_context env) _ w (check_context-Adds w) λ u w1.
      bind-Adds _ _ w1 (annotate-Adds _ (run_down env m.id) w1 (run_down-Adds m.id w1))
        λ u w2. annotate-Adds _ (check_context env) w2 (check_context-Adds w2)

  revert_applied-Adds :
      (m : Migration) (s : State) (w : World) → Adds w.history (revert_applied env r fence m s w)
  unfolding revert_applied checkpoint_reverted
  revert_applied-Adds m s w =
      bind-Adds _ _ w (if-Adds (is_skipped s m) _ _ w (pure-Adds tt w) (call_down-Adds m w))
        λ u w1. saved_as-Adds _ (with_latest r (mark_reverted m s)) w1

  revert_all-Adds :
      (ms : List Migration) (s : State) (w : World) → Adds w.history (revert_all env r fence ms s w)
  unfolding revert_all
  revert_all-Adds [] s w = pure-Adds s w
  revert_all-Adds (m ∷ ms) s w =
      bind-Adds _ _ w (if-Adds (is_applied s m) _ _ w (revert_applied-Adds m s w) (pure-Adds s w))
        λ s' w1. revert_all-Adds ms s' w1

  stop_if-Adds : (o : Option Text) (w : World) → Adds w.history (stop_if env r fence o w)
  stop_if-Adds none w = pure-Adds tt w
  stop_if-Adds (some id) w = raise-Adds _ _ w

  revert_state-Adds :
      (s : State) (to : ℕ) (w : World) → Adds w.history (revert_state env r fence s to w)
  unfolding revert_state
  revert_state-Adds s to w =
      let targets = reverse (drop to r.migrations) in
      bind-Adds (stop_if env r fence (first_irreversible s targets)) _ w
        (stop_if-Adds (first_irreversible s targets) w)
        λ u w1.
          bind-Adds _ _ w1 (revert_all-Adds targets s w1) λ s' w2. pure-Adds (statuses r s') w2

  -- Revert, inside the lock, only adds to the history.
  pub revert_locked-Adds :
      (target : Text) (w : World) → Adds w.history (revert_locked env r fence target w)
  unfolding revert_locked
  revert_locked-Adds target w = bind-Adds _ _ w (load_state-Adds w) λ s w1.
      bind-Adds _ _ w1 (lift-Adds (validate_state r s) w1) λ u w2.
        bind-Adds _ _ w2 (lift-Adds (resolve_target r target true) w2)
          λ to w3. revert_state-Adds s to w3

  revert_latest-Adds :
      (s : State) (o : Option ℕ) (w : World) → Adds w.history (revert_latest env r fence s o w)
  revert_latest-Adds s none w = pure-Adds (statuses r s) w
  revert_latest-Adds s (some index) w = revert_state-Adds s index w

  -- RevertOne, inside the lock, only adds to the history.
  pub revert_one_locked-Adds : (w : World) → Adds w.history (revert_one_locked env r fence w)
  unfolding revert_one_locked
  revert_one_locked-Adds w =
      bind-Adds _ _ w (load_state-Adds w) λ s w1.
        bind-Adds _ _ w1 (lift-Adds (validate_state r s) w1) λ u w2. revert_latest-Adds s _ w2
