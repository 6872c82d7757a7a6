-- ===== src/Health/Single.antt =====
-- health/health.go: the managed start owns one replaceable loop.
use fit_go.Base.{
  ℕ, ◌<◌, ◌≡◌, refl, sym, ap, subst, [], ◌∙◌, true, false, ◌⊎◌, inl, inr, List, Option, none, some,
  ◌==◌, Bool-cases, arith,
}
use fit_go.Health.Periodic.{
  Managed, System, update, has, start_locked, stop_locked, stop_periodic, begin_managed,
  finish_managed, set_phase, decide, write, IsFinished, Waited, Quiet, check, look, put, leave,
  stop, begin, finish, Managing, start, then_quiet, new_system,
}
use fit_go.Health.Loops.{IsTracked, IsTracked-Quiet, IsTracked-stop_locked}
use fit_go.Health.Barrier.{Extends, Extends-Quiet, Waited-has}

-- `single`: of two loops one has returned. `held`: a managed start waits for every loop.
record IsSingle (s : System) : Type 0 where
  tracked : IsTracked s
  single : (i j : ℕ) → i < j → j < s.count → IsFinished s i ⊎ IsFinished s j
  held :
      (m : Managed)
      → s.managed ≡ some m
      → (i : ℕ) → i < s.count
      → IsFinished s i ⊎ (has i m.dones ≡ true)

-- A step that starts no loop and leaves the managed start as it is.
IsSingle-still :
    (s t : System) → Quiet s t → t.count ≡ s.count → t.managed ≡ s.managed → IsSingle s → IsSingle t
IsSingle-still s t q c n w =
    let e : Extends s t = Extends-Quiet s t q in
    record {
      tracked = IsTracked-Quiet s t q w.tracked;
      single = λ i j h k.
          let below : j < s.count = omega arith in
          elim (w.single i j h below) [
            | inl f ↦ inl (e.final i (omega arith) f)
            | inr f ↦ inr (e.final j below f)
          ];
      held = λ m p i k.
          let below : i < s.count = omega arith in
          elim (w.held m (sym n ∙ p) i below) [
            | inl f ↦ inl (e.final i below f)
            | inr there ↦ inr there
          ];
    }

-- The loops that a managed start waits for.
unfoldable waits : Option Managed → List ℕ
waits none = []
waits (some m) = m.dones

IsSingle-begin_managed :
    (g : ℕ) (s : System) → IsSingle s → IsTracked (begin_managed g s) → IsSingle (begin_managed g s)
unfolding begin_managed stop_locked waits
IsSingle-begin_managed g s w v = elim (Bool-cases (s.generation == g)) [
  | inl current ↦ simp current (record {
    tracked = (simp current at v);
    single = w.single;
    held = λ m p i k. elim ((IsTracked-stop_locked s w.tracked).kept i k) [
      | inl f ↦ inl f
      | inr there ↦ inr (
          let e : (stop_locked s).dones ≡ m.dones = ap waits p in
          subst (λ ds. has i ds ≡ true) e there)
    ];
  })
  | inr stale ↦ simp stale w
]

IsSingle-finish_managed :
    (m : Managed) (s : System)
    → s.managed ≡ some m
    → Waited s m.dones
    → IsSingle s
    → IsTracked (finish_managed m s)
    → IsSingle (finish_managed m s)
unfolding finish_managed start_locked update
IsSingle-finish_managed m s p h w v =
    let all : (i : ℕ) → i < s.count → IsFinished s i =
      λ i k. elim (w.held m p i k) [ inl f ↦ f | inr there ↦ Waited-has s m.dones i h there ] in
    elim (Bool-cases (s.generation == m.generation)) [
      | inl current ↦ simp current (record {
        tracked = (simp current at v);
        single = λ i j k l.
            let other : (s.count == i) ≡ false = ground arith in
            inl (rw other (all i (omega arith)));
        held = λ n e. absurd (cc);
      })
      | inr stale ↦
          simp stale
            (record { tracked = (simp stale at v); single = w.single; held = λ n e. absurd (cc) })
    ]

IsSingle-Quiet : (s t : System) → Quiet s t → IsSingle s → IsSingle t
unfolding decide write set_phase stop_periodic stop_locked
IsSingle-Quiet s t (check i b h c e) w =
    IsSingle-still s t (check i b h c e) (rw e refl) (rw e refl) w
IsSingle-Quiet s t (look i b h p e) w =
    IsSingle-still s t (look i b h p e) (rw e refl) (rw e refl) w
IsSingle-Quiet s t (put i b h p e) w = IsSingle-still s t (put i b h p e) (rw e refl) (rw e refl) w
IsSingle-Quiet s t (leave i h p f e) w =
    IsSingle-still s t (leave i h p f e) (rw e refl) (rw e refl) w
IsSingle-Quiet s t (stop e) w = IsSingle-still s t (stop e) (rw e refl) (rw e refl) w
IsSingle-Quiet s t (begin g h m e) w =
    rw e (IsSingle-begin_managed g s w (rw e at (IsTracked-Quiet s t (begin g h m e) w.tracked)))
IsSingle-Quiet s t (finish m h n e) w =
    rw e
      (IsSingle-finish_managed m s h n w (rw e at (IsTracked-Quiet s t (finish m h n e) w.tracked)))

IsSingle-Managing : (t : System) → Managing new_system t → IsSingle t
IsSingle-Managing t start = record {
  tracked = record { kept = λ i h. absurd (omega arith); reached = λ i h. absurd (omega arith) };
  single = λ i j h k. absurd (omega arith);
  held = λ m p i h. absurd (omega arith);
}
IsSingle-Managing t (then_quiet r q) = IsSingle-Quiet _ t q (IsSingle-Managing _ r)

-- In a run of a new checker whose loops are all started by managed starts, with any stops between,
-- of any two loops at least one has returned.
pub managing-single :
    (t : System) (i j : ℕ)
    → Managing new_system t
    → i < j
    → j < t.count
    → IsFinished t i ⊎ IsFinished t j
managing-single t i j r h k = (IsSingle-Managing t r).single i j h k
