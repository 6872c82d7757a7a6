-- ===== src/Migration/Runner/Skip.antt =====
-- The second loop of Run in migration/migration.go, which records earlier migrations as skipped.
use fit_go.Base.{
  ◌≡◌, refl, sym, ◌∙◌, true, false, ◌⊎◌, inl, inr, List, [], ◌∷◌, Option, ok, arith, ℤ, same_refl,
  Bool-cases, subst, Text,
}
use fit_go.Migration.States.{State}
use fit_go.Migration.Registry.{Migration, Runner}
use fit_go.Migration.Effects.{Env, World, ◌>>=◌, pure}
use fit_go.Migration.Effects.Rules.{bind-ok}
use fit_go.Migration.Runner.{is_applied, mark_skipped, skip_pending, skip_all}
use fit_go.Migration.Runner.Steps.{skip_pending_ok}
use fit_go.Migration.Runner.Marks.{timestamp_of-mark_skipped, is_applied-mark_skipped}
use fit_go.Migration.Runner.Apply.{Grown, Grown-nil, Grown-old}

Grown-skipped :
    (m : Migration) (ms : List Migration) (now : ℤ) (s s' : State)
    → Grown ms (mark_skipped m now s) s'
    → Grown (m ∷ ms) s s'
Grown-skipped m ms now s s' g = record {
  applied = (
    g.keeps m (rw (is_applied-mark_skipped m now s m) (ground (arith, same_refl m.id))),
    g.applied,
  );
  keeps = λ n h. g.keeps n (rw (is_applied-mark_skipped m now s n) (ground arith));
  outside =
      λ n others. g.outside n others.1 ∙ rw (timestamp_of-mark_skipped m now s n.id, others.0);
}

module _ (env : Env) (r : Runner) (fence : Option Text) where
  -- Where the loop ends well: nothing was called; the state it made; and what the store holds.
  pub record SkipDone (ms : List Migration) (s s' : State) (w w' : World) : Type 0 where
    pub history : w'.history ≡ w.history
    pub grown : Grown ms s s'
    pub store : (w'.stored_state ≡ s') ⊎ ((w'.stored_state ≡ w.stored_state) × (s' ≡ s))

  pub skip_all_old :
      (m : Migration) (ms : List Migration) (s : State) (w : World)
      → is_applied s m ≡ true
      → skip_all env r fence (m ∷ ms) s w ≡ skip_all env r fence ms s w
  unfolding skip_all ◌>>=◌ pure
  skip_all_old m ms s w old = rw old

  pub skip_all_new :
      (m : Migration) (ms : List Migration) (s : State) (w : World)
      → is_applied s m ≡ false
      → skip_all env r fence (m ∷ ms) s w
        ≡ (skip_pending env r fence m s >>= skip_all env r fence ms) w
  unfolding skip_all
  skip_all_new m ms s w new = rw new

  pub skip_all_nil : (s : State) (w : World) → skip_all env r fence [] s w ≡ (ok s, w)
  unfolding skip_all pure
  skip_all_nil s w = refl

  SkipDone-new :
      (m : Migration) (ms : List Migration) (s a s' : State) (w w1 w' : World)
      → a ≡ mark_skipped m (env.now w.calls) s
      → w1.history ≡ w.history
      → w1.stored_state ≡ a
      → SkipDone ms a s' w1 w'
      → SkipDone (m ∷ ms) s s' w w'
  SkipDone-new m ms s a s' w w1 w' made called recorded done = record {
    history = done.history ∙ called;
    grown = Grown-skipped m ms (env.now w.calls) s s' (subst (λ b. Grown ms b s') made done.grown);
    store = elim done.store [
      | inl written ↦ inl written
      | inr (kept, same_state) ↦ inl (kept ∙ recorded ∙ sym same_state)
    ];
  }

  pub skip_all_ok :
      (ms : List Migration) (s s' : State) (w : World)
      → (skip_all env r fence ms s w).0 ≡ ok s'
      → SkipDone ms s s' w (skip_all env r fence ms s w).1
  skip_all_ok [] s s' w h =
      let e : s ≡ s' = cc (skip_all_nil s w) in
      rw (skip_all_nil s w, ← e)
        (record { history = refl; grown = Grown-nil s; store = inr (refl, refl) })
  skip_all_ok (m ∷ ms) s s' w h = elim (Bool-cases (is_applied s m)) [
    | inl old ↦
        let done = skip_all_ok ms s s' w (rw (skip_all_old m ms s w old) at h) in
        rw (skip_all_old m ms s w old) (record {
          history = done.history;
          grown = Grown-old m ms old done.grown;
          store = done.store;
        })
    | inr new ↦
        let (a, first, rest, e) =
          bind-ok (skip_pending env r fence m s) (skip_all env r fence ms) w s'
            (rw (skip_all_new m ms s w new) at h) in
        let (made, recorded, called) = skip_pending_ok env r fence m s a w first in
        rw (skip_all_new m ms s w new, e)
          (SkipDone-new m ms s a s' w _ _ made called recorded (skip_all_ok ms a s' _ rest))
  ]
