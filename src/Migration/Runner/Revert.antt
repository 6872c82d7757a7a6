-- ===== src/Migration/Runner/Revert.antt =====
-- Revert of migration/migration.go, past the lock: what is called, what is recorded, what is kept.
use fit_go.Base.{
  ◌≡◌, refl, sym, ◌∙◌, true, false, ◌⊎◌, inl, inr, List, [], ◌∷◌, ◌++◌, map, reverse,
  reverse-reverse, append-nil, Option, none, some, ok, err, arith, Text, same_refl, All-reverse,
  Option-cases, All, if◌then◌else◌, Bool-cases, drop, ℕ,
}
use fit_go.Migration.Errors.{irreversible}
use fit_go.Migration.States.{State, timestamp_of}
use fit_go.Migration.Registry.{Migration, Runner}
use fit_go.Migration.Checks.{Status, statuses}
use fit_go.Migration.Effects.{
  Env, World, down_done, ◌>>=◌, pure, raise, annotate, check_context, run_down,
}
use fit_go.Migration.Effects.Rules.{bind-ok}
use fit_go.Migration.Runner.{
  is_applied, is_skipped, call_down, revert_applied, checkpoint_reverted, revert_all, revert_state,
  first_irreversible,
}
use fit_go.Migration.Runner.Steps.{save_state_ok}
use fit_go.Migration.Registry.Sorted.{IsOther, Distinct}
use fit_go.Migration.Runner.Run.{Distinct-drop}
use fit_go.Migration.Runner.Undone.{
  to_undo, undone, is_applied-undone, timestamp_of-undone, to_undo-undone, Distinct-reverse,
  NoneApplied, Shrunk, undone_history,
}

module _ (env : Env) (r : Runner) (fence : Option Text) where
  pub record UndoDone (ms : List Migration) (s s' : State) (w w' : World) : Type 0 where
    pub history : w'.history ≡ w.history ++ map down_done (to_undo s ms)
    pub shrunk : Shrunk ms s s'
    pub store : (w'.stored_state ≡ s') ⊎ ((w'.stored_state ≡ w.stored_state) × (s' ≡ s))

  call_down_ok :
      (m : Migration) (w : World)
      → (call_down env r fence m w).0 ≡ ok tt
      → ((call_down env r fence m w).1.history ≡ w.history ++ down_done m.id ∷ [])
        × ((call_down env r fence m w).1.stored_state ≡ w.stored_state)
  unfolding call_down ◌>>=◌ check_context run_down annotate
  call_down_ok m w h = ground arith

  checkpoint_reverted_ok :
      (m : Migration) (s s' : State) (w : World)
      → (checkpoint_reverted env r fence m s w).0 ≡ ok s'
      → (s' ≡ undone r m s)
        × ((checkpoint_reverted env r fence m s w).1.stored_state ≡ s')
        × ((checkpoint_reverted env r fence m s w).1.history ≡ w.history)
  unfolding checkpoint_reverted ◌>>=◌ annotate pure
  checkpoint_reverted_ok m s s' w h = ground (arith, save_state_ok env r fence (undone r m s) w)

  -- A reverted migration: its Down function was called unless it was only skipped, and the store
  -- holds the state without it.
  revert_applied_ok :
      (m : Migration) (s s' : State) (w : World)
      → (revert_applied env r fence m s w).0 ≡ ok s'
      → (s' ≡ undone r m s)
        × ((revert_applied env r fence m s w).1.stored_state ≡ s')
        × ((revert_applied env r fence m s w).1.history
            ≡ w.history ++ (if is_skipped s m then [] else down_done m.id ∷ []))
  revert_applied_ok m s s' w h = elim (Bool-cases (is_skipped s m)) [
    | inl old ↦
        let e : revert_applied env r fence m s w ≡ checkpoint_reverted env r fence m s w =
          unfold revert_applied ◌>>=◌ pure in rw old in
        let (made, recorded, quiet) = checkpoint_reverted_ok m s s' w (rw e at h) in
        rw (e, old) (made, recorded, quiet ∙ sym (append-nil w.history))
    | inr new ↦
        let e : revert_applied env r fence m s w
            ≡ (call_down env r fence m >>= λ u. checkpoint_reverted env r fence m s) w =
          unfold revert_applied in rw new in
        let (u, first, rest, q) =
          bind-ok (call_down env r fence m) (λ u. checkpoint_reverted env r fence m s) w s'
            (rw e at h) in
        let (called, same_store) = call_down_ok m w first in
        let w1 = (call_down env r fence m w).1 in
        let (made, recorded, quiet) = checkpoint_reverted_ok m s s' w1 rest in
        rw (e, q, new) (made, recorded, quiet ∙ called)
  ]

  UndoDone-new :
      (m : Migration) (ms : List Migration) (s s' : State) (w w1 w' : World)
      → is_applied s m ≡ true
      → All (IsOther m) ms
      → w1.history ≡ w.history ++ (if is_skipped s m then [] else down_done m.id ∷ [])
      → w1.stored_state ≡ undone r m s
      → UndoDone ms (undone r m s) s' w1 w'
      → UndoDone (m ∷ ms) s s' w w'
  UndoDone-new m ms s s' w w1 w' old others called recorded done = record {
    history =
        done.history
        ∙ rw (called, to_undo-undone r m s ms others) (undone_history m ms s w.history old);
    shrunk = record {
      reverted = (
        done.shrunk.keeps m (rw (is_applied-undone r m m s, same_refl m.id)),
        done.shrunk.reverted,
      );
      keeps = λ n h. done.shrunk.keeps n (rw (is_applied-undone r m n s, h) (ground arith));
      outside = λ n p. done.shrunk.outside n p.1 ∙ rw (timestamp_of-undone r m s n.id, p.0);
    };
    store = elim done.store [
      | inl written ↦ inl written
      | inr (kept, same_state) ↦ inl (kept ∙ recorded ∙ sym same_state)
    ];
  }

  revert_all_old :
      (m : Migration) (ms : List Migration) (s : State) (w : World)
      → is_applied s m ≡ false
      → revert_all env r fence (m ∷ ms) s w ≡ revert_all env r fence ms s w
  unfolding revert_all ◌>>=◌ pure
  revert_all_old m ms s w old = rw old

  revert_all_new :
      (m : Migration) (ms : List Migration) (s : State) (w : World)
      → is_applied s m ≡ true
      → revert_all env r fence (m ∷ ms) s w
        ≡ (revert_applied env r fence m s >>= revert_all env r fence ms) w
  unfolding revert_all
  revert_all_new m ms s w new = rw new

  revert_all_nil : (s : State) (w : World) → revert_all env r fence [] s w ≡ (ok s, w)
  unfolding revert_all pure
  revert_all_nil s w = refl

  pub revert_all_ok :
      (ms : List Migration) (s s' : State) (w : World)
      → Distinct ms
      → (revert_all env r fence ms s w).0 ≡ ok s'
      → UndoDone ms s s' w (revert_all env r fence ms s w).1
  revert_all_ok [] s s' w d h =
      let e : s ≡ s' = cc (revert_all_nil s w) in
      rw (revert_all_nil s w, ← e)
        (record {
          history = unfold to_undo in sym (append-nil w.history);
          shrunk = record { reverted = tt; keeps = λ n k. k; outside = λ n p. refl };
          store = inr (refl, refl);
        })
  revert_all_ok (m ∷ ms) s s' w d h = elim (Bool-cases (is_applied s m)) [
    | inr not_there ↦
        let e = revert_all_old m ms s w not_there in
        let done = revert_all_ok ms s s' w d.1 (rw e at h) in
        rw e (record {
          history = done.history ∙ unfold to_undo in rw not_there;
          shrunk = record {
            reverted = (done.shrunk.keeps m not_there, done.shrunk.reverted);
            keeps = done.shrunk.keeps;
            outside = λ n p. done.shrunk.outside n p.1;
          };
          store = done.store;
        })
    | inl there ↦
        let e = revert_all_new m ms s w there in
        let (a, first, rest, q) =
          bind-ok (revert_applied env r fence m s) (revert_all env r fence ms) w s' (rw e at h) in
        let (made, recorded, called) = revert_applied_ok m s a w first in
        rw (e, q, made)
          (UndoDone-new m ms s s' w _ _ there d.0 called (recorded ∙ made)
            (revert_all_ok ms (undone r m s) s' _ d.1 (rw made at rest)))
  ]

  -- A migration found by the first loop ends the revert.
  pub refused_at :
      (s : State) (to : ℕ) (w : World) (id : Text)
      → first_irreversible s (reverse (drop to r.migrations)) ≡ some id
      → revert_state env r fence s to w ≡ (err (irreversible id), w)
  unfolding revert_state ◌>>=◌ raise
  refused_at s to w id h = rw h

  -- What a revert down to index `to` did, where it reports the statuses `result`.
  pub record RevertDone (to : ℕ) (s : State) (w w' : World) (result : List Status) : Type 0 where
    pub final : State
    pub reversible : first_irreversible s (reverse (drop to r.migrations)) ≡ none
    pub calls : w'.history ≡ w.history ++ map down_done (to_undo s (reverse (drop to r.migrations)))
    pub reverted : NoneApplied final (drop to r.migrations)
    pub keeps : (n : Migration) → is_applied s n ≡ false → is_applied final n ≡ false
    pub outside :
        (n : Migration)
        → All (λ m. IsOther m n) (reverse (drop to r.migrations))
        → timestamp_of final n.id ≡ timestamp_of s n.id
    pub statuses_of : result ≡ statuses r final
    pub store : (w'.stored_state ≡ final) ⊎ ((w'.stored_state ≡ w.stored_state) × (final ≡ s))

  -- Where no name is registered twice and a revert down to an index reports statuses: every migration
  -- from the index on that was applied and not only skipped has a Down function; exactly these
  -- functions were called, all without an error, from the last down; in the final state no migration
  -- from the index on is applied, no migration became applied, and those before it have the
  -- timestamps they had; the statuses are those of that state; and the store holds it, unless it is
  -- the given one and nothing was written.
  pub revert_state_ok :
      (s : State) (to : ℕ) (w : World) (result : List Status)
      → Distinct r.migrations
      → (revert_state env r fence s to w).0 ≡ ok result
      → RevertDone to s w (revert_state env r fence s to w).1 result
  revert_state_ok s to w result d h =
      elim (Option-cases (first_irreversible s (reverse (drop to r.migrations)))) [
        | inr (id, bad) ↦ absurd (cc (refused_at s to w id bad))
        | inl fine ↦
            let targets = reverse (drop to r.migrations) in
            let e : revert_state env r fence s to w
                ≡ (revert_all env r fence targets s >>= λ s'. pure (statuses r s')) w =
              unfold revert_state ◌>>=◌ pure in rw fine in
            let (s', first, rest, q) =
              bind-ok (revert_all env r fence targets s) (λ s'. pure (statuses r s')) w result
                (rw e at h) in
            let done =
              revert_all_ok targets s s' w
                (Distinct-reverse (drop to r.migrations) (Distinct-drop to r.migrations d)) first in
            rw (e, q)
              (unfold pure in
                record {
                  final = s';
                  reversible = fine;
                  calls = done.history;
                  reverted =
                      rw (← reverse-reverse (drop to r.migrations))
                        (All-reverse (λ m. is_applied s' m ≡ false) targets done.shrunk.reverted);
                  keeps = done.shrunk.keeps;
                  outside = done.shrunk.outside;
                  statuses_of = unfold pure in cc rest;
                  store = done.store;
                })
      ]
