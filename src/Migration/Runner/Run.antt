-- ===== src/Migration/Runner/Run.antt =====
-- Run of migration/migration.go, inside the lock.
use fit_go.Base.{
  ℕ, suc, zero, ◌-◌, ◌≡◌, refl, sym, ap, ◌∙◌, subst, ◌⊎◌, inl, inr, List, [], ◌∷◌, ◌++◌, map,
  Option, ok, Text, All, take, drop,
}
use fit_go.Migration.States.{State, timestamp_of, normalize}
use fit_go.Migration.Registry.{Migration, Runner, RunOptions, resolve_run_range}
use fit_go.Migration.Checks.{validate_state, Status, statuses}
use fit_go.Migration.Effects.{Env, World, up_done, pure, lift}
use fit_go.Migration.Effects.Rules.{IfOk-ok, bind-IfOk}
use fit_go.Migration.Runner.{
  slice, load_state, backfill_checksums, apply_all, skip_all, run_range, run_locked,
}
use fit_go.Migration.Registry.Sorted.{IsOther, Distinct}
use fit_go.Migration.Runner.Apply.{pending, AllApplied, Grown, ApplyDone, apply_all_ok}
use fit_go.Migration.Runner.Skip.{SkipDone, skip_all_ok}
use fit_go.Migration.Runner.Loads.{
  load_state_ok, load_state_any, backfill_checksums_ok, backfill_checksums_any,
  pending-with_checksums, Grown-with_checksums, with_checksums,
}

All-take {ℓ κ} : {A : Type ℓ} (P : A → Type κ) (n : ℕ) (xs : List A) → All P xs → All P (take n xs)
All-take P zero xs h = tt
All-take P (suc n) [] h = tt
All-take P (suc n) (x ∷ xs) h = (h.0, All-take P n xs h.1)

Distinct-take : (n : ℕ) (ms : List Migration) → Distinct ms → Distinct (take n ms)
Distinct-take zero ms h = tt
Distinct-take (suc n) [] h = tt
Distinct-take (suc n) (m ∷ ms) h = (All-take (IsOther m) n ms h.0, Distinct-take n ms h.1)

pub Distinct-drop : (n : ℕ) (ms : List Migration) → Distinct ms → Distinct (drop n ms)
Distinct-drop zero ms h = h
Distinct-drop (suc n) [] h = tt
Distinct-drop (suc n) (m ∷ ms) h = Distinct-drop n ms h.1

Distinct-slice : (from to : ℕ) (ms : List Migration) → Distinct ms → Distinct (slice from to ms)
Distinct-slice from to ms h = Distinct-take (suc to - from) (drop from ms) (Distinct-drop from ms h)

-- What a run from `w` to `w'` did where it reports the statuses `result`: the requested range was
-- valid, exactly its pending migrations were called, in order, and each of it and of what stands
-- before it is applied in the final state, whose statuses are reported. Other names keep their
-- timestamps, and the store holds the final state unless nothing had to change.
pub record RunDone (r : Runner) (options : RunOptions) (w w' : World) (result : List Status)
    : Type 0 where
  pub loaded : State
  pub final : State
  pub from : ℕ
  pub to : ℕ
  pub loads : normalize w.stored_state ≡ ok loaded
  pub valid : validate_state r loaded ≡ ok tt
  pub range : resolve_run_range r options ≡ ok (from, to)
  pub calls : w'.history ≡ w.history ++ map up_done (pending loaded (slice from to r.migrations))
  pub applied : AllApplied final (slice from to r.migrations)
  pub before : AllApplied final (take from r.migrations)
  pub outside :
      (n : Migration)
      → All (λ m. IsOther m n) (slice from to r.migrations)
      → All (λ m. IsOther m n) (take from r.migrations)
      → timestamp_of final n.id ≡ timestamp_of loaded n.id
  pub statuses_of : result ≡ statuses r final
  pub store : (w'.stored_state ≡ final) ⊎ ((w'.stored_state ≡ w.stored_state) × (final ≡ loaded))

keeps_all :
    (ms ns : List Migration) (s s' : State) → Grown ns s s' → AllApplied s ms → AllApplied s' ms
keeps_all [] ns s s' g h = tt
keeps_all (m ∷ ms) ns s s' g h = (g.keeps m h.0, keeps_all ms ns s s' g h.1)

-- One write, or none, after another.
then_store :
    {a b c : State} {x y z : State}
    → (y ≡ b) ⊎ ((y ≡ x) × (b ≡ a))
    → (z ≡ c) ⊎ ((z ≡ y) × (c ≡ b))
    → (z ≡ c) ⊎ ((z ≡ x) × (c ≡ a))
then_store p (inl q) = inl q
then_store (inl p) (inr (q, e)) = inl (q ∙ p ∙ sym e)
then_store (inr (p, d)) (inr (q, e)) = inr (q ∙ p, e ∙ d)

module _ (env : Env) (r : Runner) (fence : Option Text) where
  range_done :
      (from to : ℕ) (options : RunOptions) (s s1 s2 s3 : State) (w w0 w1 w2 w3 : World)
      → Distinct r.migrations
      → normalize w.stored_state ≡ ok s
      → validate_state r s ≡ ok tt
      → resolve_run_range r options ≡ ok (from, to)
      → w0.history ≡ w.history
      → w0.stored_state ≡ w.stored_state
      → s1 ≡ with_checksums s s1.checksums
      → (w1.stored_state ≡ s1) ⊎ ((w1.stored_state ≡ w0.stored_state) × (s1 ≡ s))
      → w1.history ≡ w0.history
      → ApplyDone env r fence (slice from to r.migrations) s1 s2 w1 w2
      → SkipDone env r fence (take from r.migrations) s2 s3 w2 w3
      → RunDone r options w w3 (statuses r s3)
  range_done from to options s s1 s2 s3 w w0 w1 w2 w3 d loads valid range h0 t0 e1 t1 h1 a k =
      let grown : Grown (slice from to r.migrations) s s2 =
        Grown-with_checksums s s2 s1.checksums (slice from to r.migrations)
          (subst (λ x. Grown (slice from to r.migrations) x s2) e1 a.grown) in
      record {
        loaded = s;
        final = s3;
        from = from;
        to = to;
        loads = loads;
        valid = valid;
        range = range;
        calls =
            k.history
            ∙ a.history
            ∙ rw (h1, h0)
                (ap (λ x. w.history ++ map up_done x)
                  (ap (λ x. pending x (slice from to r.migrations)) e1
                    ∙ pending-with_checksums s s1.checksums (slice from to r.migrations)));
        applied = keeps_all (slice from to r.migrations) _ s2 s3 k.grown grown.applied;
        before = k.grown.applied;
        outside = λ n p q. k.grown.outside n q ∙ grown.outside n p;
        statuses_of = refl;
        store =
            then_store {x = w.stored_state}
              (then_store {a = s} (inr (t0, refl)) (then_store t1 a.store)) k.store;
      }

  -- Where no name is registered twice and Run, inside the lock, reports statuses: the stored state
  -- normalizes to a valid one and the range resolves; exactly the Up functions of the range's
  -- migrations that were not applied in it were called, all without an error, in order; in the final
  -- state every migration of the range and before it is applied, and all others have the timestamps
  -- they had; the statuses are those of that state; and the store holds it, unless it is the loaded
  -- one and nothing was written.
  pub run_locked_ok :
      (options : RunOptions) (w : World) (result : List Status)
      → Distinct r.migrations
      → (run_locked env r fence options w).0 ≡ ok result
      → RunDone r options w (run_locked env r fence options w).1 result
  run_locked_ok options w result d h =
      IfOk-ok (λ result w'. RunDone r options w w' result) (run_locked env r fence options w) result
        (unfold run_locked run_range lift pure in
          bind-IfOk _ (load_state env r fence) _ w λ s e0.
            bind-IfOk _ (lift (validate_state r s)) _ _ λ u e1.
              bind-IfOk _ (lift (resolve_run_range r options)) _ _ λ range e2.
                bind-IfOk _ (backfill_checksums env r fence s) _ _ λ s1 e3.
                  bind-IfOk _ (apply_all env r fence (slice range.0 range.1 r.migrations) s1) _ _
                    λ s2 e4.
                      bind-IfOk _ (skip_all env r fence (take range.0 r.migrations) s2) _ _ λ s3 e5.
                        let (h0, t0) = load_state_any env r fence w in
                        let w0 = (load_state env r fence w).1 in
                        let (b, t1) = backfill_checksums_ok env r fence s s1 w0 e3 in
                        range_done range.0 range.1 options s s1 s2 s3 w w0 _ _ _ d
                          (load_state_ok env r fence s w e0) e1 e2 h0 t0 b t1
                          (backfill_checksums_any env r fence s w0)
                          (apply_all_ok env r fence (slice range.0 range.1 r.migrations) s1 s2 _
                            (Distinct-slice range.0 range.1 r.migrations d) e4)
                          (skip_all_ok env r fence (take range.0 r.migrations) s2 s3 _ e5))
        h
