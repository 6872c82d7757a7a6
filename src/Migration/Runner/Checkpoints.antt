-- ===== src/Migration/Runner/Checkpoints.antt =====
-- The loops of Run in migration/migration.go on every outcome: however a run ends, every migration
-- whose Up function has returned, but for the last one called, is recorded in the store.
use fit_go.Base.{
  ◌≤◌, ◌≡◌, refl, sym, ap, ◌∙◌, true, inl, inr, List, [], ◌∷◌, ◌++◌, append_assoc, append-nil,
  length, Option, Result, ok, err, arith, ℤ, Text, All, All-append, same_refl, Bool-cases,
}
use fit_go.Migration.Errors.{Error}
use fit_go.Migration.States.{State, timestamp_of, is_set}
use fit_go.Migration.Registry.{Migration, Runner}
use fit_go.Migration.Effects.{
  Env, World, Event, up_done, up_error, down_done, down_error, locked, unlocked,
}
use fit_go.Migration.Effects.Rules.{bind-any}
use fit_go.Migration.Runner.{mark_applied, apply_pending, apply_all, is_applied}
use fit_go.Migration.Runner.Steps.{step_time, apply_pending_ok, apply_pending_any}
use fit_go.Migration.Runner.Marks.{timestamp_of-mark_applied}
use fit_go.Migration.Runner.Apply.{apply_all_old, apply_all_new, apply_all_nil}

-- A state records an event: the migration whose Up function returned is applied in it.
abbrev pub Recorded : State → Event → Type 0
Recorded s (up_done id) = is_set (timestamp_of s id) ≡ true
Recorded s e = Unit

abbrev pub Settled : State → List Event → Type 0
Settled s = All (Recorded s)

Recorded-mark_applied :
    (m : Migration) (now : ℤ) (s : State) (e : Event)
    → Recorded s e
    → Recorded (mark_applied m now s) e
Recorded-mark_applied m now s (up_done id) h =
    rw (timestamp_of-mark_applied m now s id) (ground arith)
Recorded-mark_applied m now s (up_error id) h = tt
Recorded-mark_applied m now s (down_done id) h = tt
Recorded-mark_applied m now s (down_error id) h = tt
Recorded-mark_applied m now s locked h = tt
Recorded-mark_applied m now s unlocked h = tt

Settled-mark_applied :
    (m : Migration) (now : ℤ) (s : State) (es : List Event)
    → Settled s es
    → Settled (mark_applied m now s) es
Settled-mark_applied m now s [] h = tt
Settled-mark_applied m now s (e ∷ es) h =
    (Recorded-mark_applied m now s e h.0, Settled-mark_applied m now s es h.1)

Settled-append :
    (m : Migration) (now : ℤ) (s : State) (es : List Event)
    → Settled s es
    → Settled (mark_applied m now s) (es ++ up_done m.id ∷ [])
Settled-append m now s es h =
    All-append (Recorded (mark_applied m now s)) es (up_done m.id ∷ [])
      (Settled-mark_applied m now s es h)
      (rw (timestamp_of-mark_applied m now s m.id, same_refl m.id) refl, tt)

-- The calls since `start`, all but at most one of them recorded in the store.
abbrev pub Checkpointed : List Event → World → Type 0
Checkpointed start w =
    (settled : List Event) × (last : List Event) × (w.history ≡ start ++ (settled ++ last))
    × Settled w.stored_state settled
    × (length last ≤ 1)

-- The calls since `start`, all of them recorded in the state and in the store.
abbrev pub UpToDate : List Event → State → World → Type 0
UpToDate start s w =
    (es : List Event) × (w.history ≡ start ++ es) × Settled s es × Settled w.stored_state es

abbrev pub Post : List Event → Result Error State × World → Type 0
Post start (ok s, w) = UpToDate start s w
Post start (err e, w) = Checkpointed start w

module _ (env : Env) (r : Runner) (fence : Option Text) where
  -- A step that fails leaves at most the call of its own Up function out of the store.
  apply_pending_failed :
      (m : Migration) (s : State) (w : World) (start : List Event)
      → UpToDate start s w
      → Checkpointed start (apply_pending env r fence m s w).1
  apply_pending_failed m s w start (es, hist, in_state, in_store) =
      let now = step_time env r fence w in
      let (store, history) = apply_pending_any env r fence m s w in
      let settled : Settled (apply_pending env r fence m s w).1.stored_state es = elim store [
        | inl written ↦ rw written (Settled-mark_applied m now s es in_state)
        | inr kept ↦ rw kept in_store
      ] in
      elim history [
        | inl same_history ↦ (
          es,
          [],
          same_history ∙ hist ∙ ap (λ l. start ++ l) (sym (append-nil es)),
          settled,
          omega arith,
        )
        | inr (inl called) ↦ (
          es,
          up_done m.id ∷ [],
          called ∙ rw (hist) (append_assoc start es (up_done m.id ∷ [])),
          settled,
          omega arith,
        )
        | inr (inr failed) ↦ (
          es,
          up_error m.id ∷ [],
          failed ∙ rw (hist) (append_assoc start es (up_error m.id ∷ [])),
          settled,
          omega arith,
        )
      ]

  apply_pending_kept :
      (m : Migration) (s a : State) (w : World) (start : List Event)
      → (apply_pending env r fence m s w).0 ≡ ok a
      → UpToDate start s w
      → UpToDate start a (apply_pending env r fence m s w).1
  apply_pending_kept m s a w start first (es, hist, in_state, in_store) =
      let (made, recorded, called) = apply_pending_ok env r fence m s a w first in
      let settled : Settled a (es ++ up_done m.id ∷ []) =
        rw made (Settled-append m (step_time env r fence w) s es in_state) in
      (
        es ++ up_done m.id ∷ [],
        called ∙ rw hist (append_assoc start es (up_done m.id ∷ [])),
        settled,
        rw recorded settled,
      )

  pub apply_all-Post :
      (ms : List Migration) (s : State) (w : World) (start : List Event)
      → UpToDate start s w
      → Post start (apply_all env r fence ms s w)
  apply_all-Post [] s w start h = rw (apply_all_nil env r fence s w) h
  apply_all-Post (m ∷ ms) s w start h = elim (Bool-cases (is_applied s m)) [
    | inl old ↦ rw (apply_all_old env r fence m ms s w old) (apply_all-Post ms s w start h)
    | inr new ↦ rw (apply_all_new env r fence m ms s w new) (
        bind-any (Post start) (apply_pending env r fence m s) (apply_all env r fence ms) w
          (λ e failed. apply_pending_failed m s w start h)
          (λ a first.
            apply_all-Post ms a (apply_pending env r fence m s w).1 start
              (apply_pending_kept m s a w start first h)))
  ]
