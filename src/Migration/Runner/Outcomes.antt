-- ===== src/Migration/Runner/Outcomes.antt =====
-- Run of migration/migration.go on every outcome: what the store holds of the calls that were made.
use fit_go.Base.{
  ℕ, ◌≡◌, sym, ap, ◌∙◌, inl, inr, List, [], ◌∷◌, ◌++◌, append-nil, Option, Result, ok, err, arith,
  ℤ, Text, Bool-cases, take,
}
use fit_go.Migration.Errors.{Error}
use fit_go.Migration.States.{State}
use fit_go.Migration.Registry.{Migration, Runner, RunOptions, resolve_run_range}
use fit_go.Migration.Checks.{validate_state, Status}
use fit_go.Migration.Effects.{
  Env, World, Event, up_done, up_error, down_done, down_error, locked, unlocked, pure, lift,
}
use fit_go.Migration.Effects.Rules.{bind-any}
use fit_go.Migration.Runner.{
  slice, is_applied, mark_skipped, skip_pending, skip_all, apply_all, load_state,
  backfill_checksums, run_range, run_locked,
}
use fit_go.Migration.Runner.Steps.{skip_pending_ok, skip_pending_any}
use fit_go.Migration.Runner.Marks.{timestamp_of-mark_skipped}
use fit_go.Migration.Runner.Skip.{skip_all_old, skip_all_new, skip_all_nil}
use fit_go.Migration.Runner.Loads.{load_state_any, backfill_checksums_any}
use fit_go.Migration.Runner.Checkpoints.{
  Recorded, Settled, Checkpointed, UpToDate, Post, apply_all-Post,
}

Recorded-mark_skipped :
    (m : Migration) (now : ℤ) (s : State) (e : Event)
    → Recorded s e
    → Recorded (mark_skipped m now s) e
Recorded-mark_skipped m now s (up_done id) h =
    rw (timestamp_of-mark_skipped m now s id) (ground arith)
Recorded-mark_skipped m now s (up_error id) h = tt
Recorded-mark_skipped m now s (down_done id) h = tt
Recorded-mark_skipped m now s (down_error id) h = tt
Recorded-mark_skipped m now s locked h = tt
Recorded-mark_skipped m now s unlocked h = tt

Settled-mark_skipped :
    (m : Migration) (now : ℤ) (s : State) (es : List Event)
    → Settled s es
    → Settled (mark_skipped m now s) es
Settled-mark_skipped m now s [] h = tt
Settled-mark_skipped m now s (e ∷ es) h =
    (Recorded-mark_skipped m now s e h.0, Settled-mark_skipped m now s es h.1)

-- Nothing called since `start`, or all of it in the store.
Checkpointed-at :
    (start : List Event) (w : World) (es : List Event)
    → w.history ≡ start ++ es
    → Settled w.stored_state es
    → Checkpointed start w
Checkpointed-at start w es h k =
    (es, [], h ∙ ap (λ l. start ++ l) (sym (append-nil es)), k, omega arith)

-- The calls of a run and the store after it: on success all of them are recorded, on an error all
-- but at most the last.
abbrev pub RunPost : List Event → Result Error (List Status) × World → Type 0
RunPost start (ok statuses, w) =
    (es : List Event) × (w.history ≡ start ++ es) × Settled w.stored_state es
RunPost start (err e, w) = Checkpointed start w

module _ (env : Env) (r : Runner) (fence : Option Text) where
  skip_pending_failed :
      (m : Migration) (s : State) (w : World) (start : List Event)
      → UpToDate start s w
      → Checkpointed start (skip_pending env r fence m s w).1
  skip_pending_failed m s w start (es, hist, in_state, in_store) =
      let (store, history) = skip_pending_any env r fence m s w in
      Checkpointed-at start (skip_pending env r fence m s w).1 es (history ∙ hist) (elim store [
        | inl written ↦ rw written (Settled-mark_skipped m (env.now w.calls) s es in_state)
        | inr kept ↦ rw kept in_store
      ])

  skip_pending_kept :
      (m : Migration) (s a : State) (w : World) (start : List Event)
      → (skip_pending env r fence m s w).0 ≡ ok a
      → UpToDate start s w
      → UpToDate start a (skip_pending env r fence m s w).1
  skip_pending_kept m s a w start first (es, hist, in_state, in_store) =
      let (made, recorded, called) = skip_pending_ok env r fence m s a w first in
      let settled : Settled a es =
        rw made (Settled-mark_skipped m (env.now w.calls) s es in_state) in
      (es, called ∙ hist, settled, rw recorded settled)

  skip_all-Post :
      (ms : List Migration) (s : State) (w : World) (start : List Event)
      → UpToDate start s w
      → Post start (skip_all env r fence ms s w)
  skip_all-Post [] s w start h = rw (skip_all_nil env r fence s w) h
  skip_all-Post (m ∷ ms) s w start h = elim (Bool-cases (is_applied s m)) [
    | inl old ↦ rw (skip_all_old env r fence m ms s w old) (skip_all-Post ms s w start h)
    | inr new ↦ rw (skip_all_new env r fence m ms s w new) (
        bind-any (Post start) (skip_pending env r fence m s) (skip_all env r fence ms) w
          (λ e failed. skip_pending_failed m s w start h)
          (λ a first.
            skip_all-Post ms a (skip_pending env r fence m s w).1 start
              (skip_pending_kept m s a w start first h)))
  ]

  failed_loop :
      (start : List Event) (x : Result Error State × World) (e : Error)
      → Post start x
      → x.0 ≡ err e
      → Checkpointed start x.1
  failed_loop start (ok s, w) e h q = absurd (cc)
  failed_loop start (err d, w) e h q = h

  finished_loop :
      (start : List Event) (x : Result Error State × World) (s : State)
      → Post start x
      → x.0 ≡ ok s
      → UpToDate start s x.1
  finished_loop start (ok t, w) s h q = let same_state : t ≡ s = cc in rw (← same_state) h
  finished_loop start (err d, w) s h q = absurd (cc)

  quiet : (start : List Event) (w : World) → w.history ≡ start → Checkpointed start w
  quiet start w h = Checkpointed-at start w [] (h ∙ sym (append-nil start)) tt

  run_range-RunPost :
      (from to : ℕ) (s : State) (w : World) (start : List Event)
      → w.history ≡ start
      → RunPost start (run_range env r fence from to s w)
  unfolding run_range pure
  run_range-RunPost from to s w start h =
      let same_history = backfill_checksums_any env r fence s w ∙ h in
      bind-any (RunPost start) (backfill_checksums env r fence s) _ w
        (λ e failed. quiet start (backfill_checksums env r fence s w).1 same_history)
        λ s1 e1.
          let w1 = (backfill_checksums env r fence s w).1 in
          let ms = slice from to r.migrations in
          let applied =
            apply_all-Post env r fence ms s1 w1 start
              ([], same_history ∙ sym (append-nil start), tt, tt) in
          bind-any (RunPost start) (apply_all env r fence ms s1) _ w1
            (λ e failed. failed_loop start (apply_all env r fence ms s1 w1) e applied failed)
            λ s2 e2.
              let w2 = (apply_all env r fence ms s1 w1).1 in
              let skipped =
                skip_all-Post (take from r.migrations) s2 w2 start
                  (finished_loop start (apply_all env r fence ms s1 w1) s2 applied e2) in
              bind-any (RunPost start) (skip_all env r fence (take from r.migrations) s2) _ w2
                (λ e failed. failed_loop start _ e skipped failed)
                λ s3 e3.
                  let (es, hist, in_state, in_store) = finished_loop start _ s3 skipped e3 in
                  (es, hist, in_store)

  -- For every world: however Run ends inside the lock, the events that it adds to the history are a
  -- list each of whose completed Up calls is recorded as applied in the store, followed by at most one
  -- more event, and by none where Run reports success.
  pub run_locked-RunPost :
      (options : RunOptions) (w : World) → RunPost w.history (run_locked env r fence options w)
  unfolding run_locked lift
  run_locked-RunPost options w =
      let (same_history, same_store) = load_state_any env r fence w in
      let w0 = (load_state env r fence w).1 in
      bind-any (RunPost w.history) (load_state env r fence) _ w
        (λ e failed. quiet w.history w0 same_history)
        λ s e0.
          bind-any (RunPost w.history) (lift (validate_state r s)) _ w0
            (λ e failed. quiet w.history w0 same_history)
            λ u e1.
              bind-any (RunPost w.history) (lift (resolve_run_range r options)) _ w0
                (λ e failed. quiet w.history w0 same_history)
                λ range e2. run_range-RunPost range.0 range.1 s w0 w.history same_history
