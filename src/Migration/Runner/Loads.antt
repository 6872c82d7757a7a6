-- ===== src/Migration/Runner/Loads.antt =====
-- The first steps of Run and Revert in migration/migration.go: loading the state, and backfilling
-- checksums. They call no Up or Down function.
use fit_go.Base.{
  ◌≡◌, refl, Bool, true, false, ◌⊎◌, inl, inr, List, [], ◌∷◌, Option, ok, arith, Text, Dict,
  Bool-cases, insert,
}
use fit_go.Migration.States.{State, timestamp_of, normalize}
use fit_go.Migration.Registry.{Migration, Runner}
use fit_go.Migration.Effects.{Env, World, ◌>>=◌, pure, lift, annotate, check_context, store_load}
use fit_go.Migration.Runner.{is_applied, needs_checksum, backfill, load_state, backfill_checksums}
use fit_go.Migration.Runner.Steps.{save_state_ok, save_state_any}
use fit_go.Migration.Runner.Apply.{pending, Grown}

abbrev pub with_checksums : State → Dict Text → State
with_checksums s c = record s { checksums = c }

abbrev filled : State → Migration → State
filled s m = with_checksums s (insert m.id m.checksum s.checksums)

backfill_yes :
    (m : Migration) (ms : List Migration) (changed : Bool) (s : State)
    → needs_checksum s m ≡ true
    → backfill (m ∷ ms) changed s ≡ backfill ms true (filled s m)
unfolding backfill
backfill_yes m ms changed s h = rw h

backfill_no :
    (m : Migration) (ms : List Migration) (changed : Bool) (s : State)
    → needs_checksum s m ≡ false
    → backfill (m ∷ ms) changed s ≡ backfill ms changed s
unfolding backfill
backfill_no m ms changed s h = rw h

backfill_only :
    (ms : List Migration) (changed : Bool) (s : State)
    → (backfill ms changed s).0 ≡ with_checksums s (backfill ms changed s).0.checksums
backfill_only [] changed s = unfold backfill in refl
backfill_only (m ∷ ms) changed s = elim (Bool-cases (needs_checksum s m)) [
  | inl missing ↦ rw (backfill_yes m ms changed s missing) (backfill_only ms true (filled s m))
  | inr there ↦ rw (backfill_no m ms changed s there) (backfill_only ms changed s)
]

backfill-true : (ms : List Migration) (s : State) → (backfill ms true s).1 ≡ true
backfill-true [] s = unfold backfill in refl
backfill-true (m ∷ ms) s = elim (Bool-cases (needs_checksum s m)) [
  | inl missing ↦ rw (backfill_yes m ms true s missing) (backfill-true ms (filled s m))
  | inr there ↦ rw (backfill_no m ms true s there) (backfill-true ms s)
]

backfill_unchanged :
    (ms : List Migration) (s : State)
    → (backfill ms false s).1 ≡ false
    → (backfill ms false s).0 ≡ s
backfill_unchanged [] s h = unfold backfill in refl
backfill_unchanged (m ∷ ms) s h = elim (Bool-cases (needs_checksum s m)) [
  | inl missing ↦
      absurd (grind (arith, backfill_yes m ms false s missing, backfill-true ms (filled s m)))
  | inr there ↦
      rw (backfill_no m ms false s there)
        (backfill_unchanged ms s (rw (backfill_no m ms false s there) at h))
]

pub pending-with_checksums :
    (s : State) (c : Dict Text) (ms : List Migration)
    → pending (with_checksums s c) ms ≡ pending s ms
unfolding pending is_applied timestamp_of
pending-with_checksums s c [] = refl
pending-with_checksums s c (m ∷ ms) = rw (pending-with_checksums s c ms)

pub Grown-with_checksums :
    (s s' : State) (c : Dict Text) (ms : List Migration)
    → Grown ms (with_checksums s c) s'
    → Grown ms s s'
unfolding is_applied timestamp_of
Grown-with_checksums s s' c ms g = record {
  applied = g.applied;
  keeps = g.keeps;
  outside = g.outside;
}

module _ (env : Env) (r : Runner) (fence : Option Text) where
  -- Loading gives the stored state, normalized.
  pub load_state_ok :
      (s : State) (w : World)
      → (load_state env r fence w).0 ≡ ok s
      → normalize w.stored_state ≡ ok s
  unfolding load_state ◌>>=◌ check_context store_load annotate lift
  load_state_ok s w h = ground arith

  pub load_state_any :
      (w : World)
      → ((load_state env r fence w).1.history ≡ w.history)
        × ((load_state env r fence w).1.stored_state ≡ w.stored_state)
  unfolding load_state ◌>>=◌ check_context store_load annotate lift
  load_state_any w = ground arith

  pub backfill_checksums_ok :
      (s s' : State) (w : World)
      → (backfill_checksums env r fence s w).0 ≡ ok s'
      → (s' ≡ with_checksums s s'.checksums)
        × (((backfill_checksums env r fence s w).1.stored_state ≡ s')
            ⊎ (((backfill_checksums env r fence s w).1.stored_state ≡ w.stored_state) × (s' ≡ s)))
  unfolding backfill_checksums ◌>>=◌ annotate pure
  backfill_checksums_ok s s' w h = ground (
    arith,
    backfill_only r.migrations false s,
    backfill_unchanged r.migrations s,
    save_state_ok env r fence (backfill r.migrations false s).0 w,
  )

  pub backfill_checksums_any :
      (s : State) (w : World) → (backfill_checksums env r fence s w).1.history ≡ w.history
  unfolding backfill_checksums ◌>>=◌ annotate pure
  backfill_checksums_any s w =
      ground (arith, save_state_any env r fence (backfill r.migrations false s).0 w)
