-- ===== src/Health/Barrier.antt =====
-- health/health.go: what is final once it has happened, and the barrier that StopPeriodicCheck is.
use fit_go.Base.{
  ℕ, suc, ◌≤◌, ◌<◌, ◌≡◌, refl, sym, Bool, true, false, inl, inr, List, [], ◌∷◌, Option, none, ◌==◌,
  Bool-cases, arith,
}
use fit_go.Health.Periodic.{
  Phase, Managed, System, update, has, is_finished, start_locked, stop_locked, stop_periodic,
  begin_managed, finish_managed, set_phase, decide, write, IsFinished, Waited, Quiet, check, look,
  put, leave, stop, begin, finish, quiet, add, Reach, here, next,
}
use fit_go.Health.Loops.{IsTracked, CanCheck-running, IsTracked-stop_locked, IsTracked-record}

-- What `t` keeps of `s`: its loops, what has returned, and the stops that have been seen.
pub record Extends (s t : System) : Type 0 where
  pub grows : s.count ≤ t.count
  pub final : (i : ℕ) → i < s.count → IsFinished s i → IsFinished t i
  pub later : s.generation ≤ t.generation

Extends-refl : (s : System) → Extends s s
Extends-refl s = record { grows = omega arith; final = λ i h f. f; later = omega arith }

Extends-trans : (s t u : System) → Extends s t → Extends t u → Extends s u
Extends-trans s t u a b = record {
  grows = let p = a.grows in let q = b.grows in omega arith;
  final = λ i h f. b.final i (let p = a.grows in omega arith) (a.final i h f);
  later = let p = a.later in let q = b.later in omega arith;
}

Extends-start_locked : (s : System) → Extends s (start_locked s)
unfolding start_locked update
Extends-start_locked s = record {
  grows = omega arith;
  final = λ i h f. let other : (s.count == i) ≡ false = ground arith in rw other f;
  later = omega arith;
}

Extends-stop_locked : (s : System) → Extends s (stop_locked s)
unfolding stop_locked
Extends-stop_locked s = record { grows = omega arith; final = λ i h f. f; later = omega arith }

-- A stop ends the generation.
Extends-stop_periodic : (s : System) → Extends s (stop_periodic s)
unfolding stop_periodic stop_locked
Extends-stop_periodic s = record { grows = omega arith; final = λ i h f. f; later = omega arith }

Extends-set_phase :
    (s : System) (i : ℕ) (p : Phase)
    → is_finished (s.loop i).phase ≡ false
    → Extends s (set_phase i p s)
unfolding set_phase update
Extends-set_phase s i p h = record {
  grows = omega arith;
  final = λ j below f. elim (Bool-cases (i == j)) [
    | inl same ↦ let e : i ≡ j = ground arith in absurd (cc (rw e at h))
    | inr other ↦ rw other f
  ];
  later = omega arith;
}

Extends-record :
    (s : System) (m : Option Managed) (f : Bool) → Extends s (record s { managed = m; file = f })
Extends-record s m f = record { grows = omega arith; final = λ i h e. e; later = omega arith }

Extends-begin_managed : (g : ℕ) (s : System) → Extends s (begin_managed g s)
unfolding begin_managed
Extends-begin_managed g s = elim (Bool-cases (s.generation == g)) [
  | inl current ↦
      simp current
        (Extends-trans s _ _ (Extends-stop_locked s) (Extends-record (stop_locked s) _ _))
  | inr stale ↦ simp stale (Extends-refl s)
]

Extends-finish_managed : (m : Managed) (s : System) → Extends s (finish_managed m s)
unfolding finish_managed
Extends-finish_managed m s = elim (Bool-cases (s.generation == m.generation)) [
  | inl current ↦
      simp current
        (Extends-trans s _ _ (Extends-start_locked s) (Extends-record (start_locked s) _ _))
  | inr stale ↦ simp stale (Extends-record s _ _)
]

pub Extends-Quiet : (s t : System) → Quiet s t → Extends s t
unfolding decide write
Extends-Quiet s t (check i b h c e) = rw e (Extends-set_phase s i _ (CanCheck-running _ c))
Extends-Quiet s t (look i b h p e) = rw e (Extends-set_phase s i _ (rw p refl))
Extends-Quiet s t (put i b h p e) = rw e (
    Extends-trans s _ _ (Extends-set_phase s i _ (rw p refl))
      (Extends-record (set_phase i _ s) _ _))
Extends-Quiet s t (leave i h p f e) = rw e (Extends-set_phase s i _ (rw p refl))
Extends-Quiet s t (stop e) = rw e (Extends-stop_periodic s)
Extends-Quiet s t (begin g h m e) = rw e (Extends-begin_managed g s)
Extends-Quiet s t (finish m h w e) = rw e (Extends-finish_managed m s)

-- In every run the number of loops and the generation never go down, and a loop that has returned
-- never runs again.
pub Extends-Reach : (s t : System) → Reach s t → Extends s t
Extends-Reach s t here = Extends-refl s
Extends-Reach s t (next r (quiet q)) =
    Extends-trans s _ t (Extends-Reach s _ r) (Extends-Quiet _ t q)
Extends-Reach s t (next r (add e)) =
    rw e (Extends-trans s _ _ (Extends-Reach s _ r) (Extends-start_locked _))

pub Waited-has : (s : System) (is : List ℕ) (i : ℕ) → Waited s is → has i is ≡ true → IsFinished s i
Waited-has s [] i w h = absurd (cc)
Waited-has s (k ∷ is) i (f, w) h = elim (Bool-cases (k == i)) [
  | inl same ↦ let e : k ≡ i = ground arith in rw (sym e) f
  | inr other ↦ Waited-has s is i w (let d : (i == k) ≡ false = ground arith in rw d at h)
]

-- If no loop of the checker `s` is lost, `s` is stopped, the system then takes any steps to `t`, and
-- in `t` every channel that the stop returned is closed, then every loop that was started before the
-- stop has returned.
pub stop_periodic-Waited :
    (s t : System) (i : ℕ)
    → IsTracked s
    → Reach (stop_periodic s) t
    → Waited t (stop_periodic s).dones
    → i < s.count
    → IsFinished t i
unfolding stop_periodic stop_locked
stop_periodic-Waited s t i v r w h =
    let tracked =
      IsTracked-stop_locked (record s { generation = suc s.generation })
        (IsTracked-record s _ _ _ v) in
    elim (tracked.kept i h) [
      | inl done ↦ (Extends-Reach _ t r).final i h done
      | inr there ↦ Waited-has t _ i w there
    ]

-- A managed start that passed its first look at the generation before a stop of the checker `s`
-- starts no loop when it ends at any later time `t`: it only releases its lock.
pub finish_managed-superseded :
    (s t : System) (m : Managed)
    → m.generation ≤ s.generation
    → Reach (stop_periodic s) t
    → finish_managed m t ≡ record t { managed = none }
unfolding finish_managed stop_periodic stop_locked
finish_managed-superseded s t m h r =
    let after : suc s.generation ≤ t.generation = (Extends-Reach _ t r).later in
    let stale : (t.generation == m.generation) ≡ false = ground arith in simp stale
