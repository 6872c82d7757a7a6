-- ===== src/Migration/Runner/Apply.antt =====
-- The loops of Run in migration/migration.go: what they call, what they record, and what they leave.
use fit_go.Base.{
  ◌≡◌, refl, sym, ◌∙◌, true, false, ◌⊎◌, inl, inr, List, [], ◌∷◌, ◌++◌, map, append-nil,
  append_assoc, Option, ok, arith, ℤ, Text, All, if◌then◌else◌, Bool-cases, same_refl,
}
use fit_go.Migration.States.{State, timestamp_of}
use fit_go.Migration.Registry.{Migration, Runner}
use fit_go.Migration.Registry.Sorted.{IsOther, Distinct}
use fit_go.Migration.Effects.{Env, World, up_done, ◌>>=◌, pure}
use fit_go.Migration.Effects.Rules.{bind-ok}
use fit_go.Migration.Runner.{is_applied, mark_applied, apply_pending, apply_all}
use fit_go.Migration.Runner.Steps.{step_time, apply_pending_ok}
use fit_go.Migration.Runner.Marks.{timestamp_of-mark_applied, is_applied-mark_applied}

-- The names of the migrations that a state does not record as applied, in order.
unfoldable pub pending : State → List Migration → List Text
pending s [] = []
pending s (m ∷ ms) = let rest = pending s ms in if is_applied s m then rest else m.id ∷ rest

abbrev pub AllApplied : State → List Migration → Type 0
AllApplied s = All (λ m. is_applied s m ≡ true)

pending-mark_applied :
    (m : Migration) (now : ℤ) (s : State) (ms : List Migration)
    → All (IsOther m) ms
    → pending (mark_applied m now s) ms ≡ pending s ms
unfolding pending
pending-mark_applied m now s [] h = refl
pending-mark_applied m now s (n ∷ ms) (other, others) =
    rw (is_applied-mark_applied m now s n, other) (rw (pending-mark_applied m now s ms others))

-- What a loop over `ms` from `s` to `s'` may change: migrations of the list become applied, those
-- applied before stay as they were, and so do all names outside the list.
pub record Grown (ms : List Migration) (s s' : State) : Type 0 where
  pub applied : AllApplied s' ms
  pub keeps : (n : Migration) → is_applied s n ≡ true → is_applied s' n ≡ true
  pub outside :
      (n : Migration) → All (λ m. IsOther m n) ms → timestamp_of s' n.id ≡ timestamp_of s n.id

pub Grown-nil : (s : State) → Grown [] s s
Grown-nil s = record { applied = tt; keeps = λ n h. h; outside = λ n h. refl }

pub Grown-old :
    (m : Migration) (ms : List Migration) {s s' : State}
    → is_applied s m ≡ true
    → Grown ms s s'
    → Grown (m ∷ ms) s s'
Grown-old m ms h g = record {
  applied = (g.keeps m h, g.applied);
  keeps = g.keeps;
  outside = λ n others. g.outside n others.1;
}

Grown-new :
    (m : Migration) (ms : List Migration) (now : ℤ) (s s' : State)
    → Grown ms (mark_applied m now s) s'
    → Grown (m ∷ ms) s s'
Grown-new m ms now s s' g = record {
  applied = (
    g.keeps m (rw (is_applied-mark_applied m now s m) (ground (arith, same_refl m.id))),
    g.applied,
  );
  keeps = λ n h. g.keeps n (rw (is_applied-mark_applied m now s n) (ground arith));
  outside =
      λ n others. g.outside n others.1 ∙ rw (timestamp_of-mark_applied m now s n.id, others.0);
}

module _ (env : Env) (r : Runner) (fence : Option Text) where
  -- Where the loop ends well: its calls, in order; the state it made; and what the store holds.
  pub record ApplyDone (ms : List Migration) (s s' : State) (w w' : World) : Type 0 where
    pub history : w'.history ≡ w.history ++ map up_done (pending s ms)
    pub grown : Grown ms s s'
    pub store : (w'.stored_state ≡ s') ⊎ ((w'.stored_state ≡ w.stored_state) × (s' ≡ s))

  ApplyDone-old :
      (m : Migration) (ms : List Migration) (s s' : State) (w w' : World)
      → is_applied s m ≡ true
      → ApplyDone ms s s' w w'
      → ApplyDone (m ∷ ms) s s' w w'
  unfolding pending
  ApplyDone-old m ms s s' w w' old done = record {
    history = rw old done.history;
    grown = Grown-old m ms old done.grown;
    store = done.store;
  }

  ApplyDone-new :
      (m : Migration) (ms : List Migration) (now : ℤ) (s s' : State) (w w1 w' : World)
      → is_applied s m ≡ false
      → All (IsOther m) ms
      → w1.history ≡ w.history ++ up_done m.id ∷ []
      → w1.stored_state ≡ mark_applied m now s
      → ApplyDone ms (mark_applied m now s) s' w1 w'
      → ApplyDone (m ∷ ms) s s' w w'
  unfolding pending
  ApplyDone-new m ms now s s' w w1 w' new others called recorded done = record {
    history =
        done.history
        ∙ rw (called, pending-mark_applied m now s ms others, new)
            (append_assoc w.history (up_done m.id ∷ []) (map up_done (pending s ms)));
    grown = Grown-new m ms now s s' done.grown;
    store = elim done.store [
      | inl written ↦ inl written
      | inr (kept, same_state) ↦ inl (kept ∙ recorded ∙ sym same_state)
    ];
  }

  pub apply_all_old :
      (m : Migration) (ms : List Migration) (s : State) (w : World)
      → is_applied s m ≡ true
      → apply_all env r fence (m ∷ ms) s w ≡ apply_all env r fence ms s w
  unfolding apply_all ◌>>=◌ pure
  apply_all_old m ms s w old = rw old

  pub apply_all_new :
      (m : Migration) (ms : List Migration) (s : State) (w : World)
      → is_applied s m ≡ false
      → apply_all env r fence (m ∷ ms) s w
        ≡ (apply_pending env r fence m s >>= apply_all env r fence ms) w
  unfolding apply_all
  apply_all_new m ms s w new = rw new

  pub apply_all_nil : (s : State) (w : World) → apply_all env r fence [] s w ≡ (ok s, w)
  unfolding apply_all pure
  apply_all_nil s w = refl

  pub apply_all_ok :
      (ms : List Migration) (s s' : State) (w : World)
      → Distinct ms
      → (apply_all env r fence ms s w).0 ≡ ok s'
      → ApplyDone ms s s' w (apply_all env r fence ms s w).1
  apply_all_ok [] s s' w d h =
      let e : s ≡ s' = cc (apply_all_nil s w) in
      rw (apply_all_nil s w, ← e)
        (record {
          history = unfold pending in sym (append-nil w.history);
          grown = Grown-nil s;
          store = inr (refl, refl);
        })
  apply_all_ok (m ∷ ms) s s' w d h = elim (Bool-cases (is_applied s m)) [
    | inl old ↦ rw (apply_all_old m ms s w old) (
        ApplyDone-old m ms s s' w _ old
          (apply_all_ok ms s s' w d.1 (rw (apply_all_old m ms s w old) at h)))
    | inr new ↦
        let (a, first, rest, e) =
          bind-ok (apply_pending env r fence m s) (apply_all env r fence ms) w s'
            (rw (apply_all_new m ms s w new) at h) in
        let (made, recorded, called) = apply_pending_ok env r fence m s a w first in
        rw (apply_all_new m ms s w new, e, made)
          (ApplyDone-new m ms (step_time env r fence w) s s' w _ _ new d.0 called (recorded ∙ made)
            (apply_all_ok ms (mark_applied m (step_time env r fence w) s) s' _ d.1
              (rw made at rest)))
  ]
