-- ===== src/Health/Loops.antt =====
-- Every loop of health/health.go that has not returned is known to the checker, and a loop that has
-- returned stays so.
use fit_go.Base.{
  ℕ, ◌<◌, ◌≡◌, refl, subst, Bool, true, false, ◌⊎◌, inl, inr, List, [], ◌∷◌, ◌++◌, Option,
  if◌then◌else◌, ◌==◌, Bool-cases, arith,
}
use fit_go.Health.Periodic.{
  Phase, selecting, Loop, Managed, System, update, has, is_finished, start_locked, unfinished,
  stop_locked, stop_periodic, begin_managed, finish_managed, set_phase, decide, write, IsFinished,
  CanCheck, first, tick, Quiet, check, look, put, leave, stop, begin, finish, Step, quiet, add,
}

-- Each loop has returned or its channel is kept; each has its flag set or would get it from a stop.
pub record IsTracked (s : System) : Type 0 where
  pub kept : (i : ℕ) → i < s.count → IsFinished s i ⊎ (has i s.dones ≡ true)
  pub reached : (i : ℕ) → i < s.count → ((s.loop i).stopped ≡ true) ⊎ (has i s.stops ≡ true)

pub update_lem :
    (loop : ℕ → Loop) (i : ℕ) (l : Loop) (j : ℕ)
    → update loop i l j ≡ (if i == j then l else loop j)
unfolding update
update_lem loop i l j = refl

has-append : (i j : ℕ) (is : List ℕ) → has i is ≡ true → has i (is ++ j ∷ []) ≡ true
has-append i j [] h = absurd (cc)
has-append i j (k ∷ is) h = elim (Bool-cases (i == k)) [
  | inl same ↦ rw same
  | inr other ↦ rw other (has-append i j is (rw other at h))
]

has-append_last : (i : ℕ) (is : List ℕ) → has i (is ++ i ∷ []) ≡ true
has-append_last i [] = ground arith
has-append_last i (k ∷ is) = elim (Bool-cases (i == k)) [
  | inl same ↦ rw same
  | inr other ↦ rw other (has-append_last i is)
]

has-unfinished :
    (loop : ℕ → Loop) (i : ℕ) (is : List ℕ)
    → has i is ≡ true
    → (is_finished (loop i).phase ≡ true) ⊎ (has i (unfinished loop is) ≡ true)
unfolding unfinished
has-unfinished loop i [] h = absurd (cc)
has-unfinished loop i (k ∷ is) h = elim (Bool-cases (is_finished (loop k).phase)) [
  | inl done ↦ elim (Bool-cases (i == k)) [
    | inl same ↦ let e : i ≡ k = ground arith in inl (rw e done)
    | inr other ↦ rw done (has-unfinished loop i is (rw other at h))
  ]
  | inr running ↦ elim (Bool-cases (i == k)) [
    | inl same ↦ inr (rw running (rw same))
    | inr other ↦ elim (has-unfinished loop i is (rw other at h)) [
      | inl done ↦ inl done
      | inr there ↦ inr (rw running (rw other there))
    ]
  ]
]

IsTracked-start_locked : (s : System) → IsTracked s → IsTracked (start_locked s)
unfolding start_locked update
IsTracked-start_locked s v = record {
  kept = λ i h. elim (Bool-cases (s.count == i)) [
    | inl last ↦
        let e : s.count ≡ i = ground arith in
        inr
          (subst (λ k. has k (s.dones ++ s.count ∷ []) ≡ true) e (has-append_last s.count s.dones))
    | inr before ↦ elim (v.kept i (ground arith)) [
      | inl done ↦ inl (rw before done)
      | inr there ↦ inr (has-append i s.count s.dones there)
    ]
  ];
  reached = λ i h. elim (Bool-cases (s.count == i)) [
    | inl last ↦
        let e : s.count ≡ i = ground arith in
        inr
          (subst (λ k. has k (s.stops ++ s.count ∷ []) ≡ true) e (has-append_last s.count s.stops))
    | inr before ↦ elim (v.reached i (ground arith)) [
      | inl set ↦ inl (rw before set)
      | inr there ↦ inr (has-append i s.count s.stops there)
    ]
  ];
}

pub IsTracked-stop_locked : (s : System) → IsTracked s → IsTracked (stop_locked s)
unfolding stop_locked
IsTracked-stop_locked s v = record {
  kept = λ i h. elim (v.kept i h) [
    | inl done ↦ inl done
    | inr there ↦ has-unfinished s.loop i s.dones there
  ];
  reached = λ i h. inl (elim (v.reached i h) [
    | inl set ↦ elim (Bool-cases (has i s.stops)) [ inl a ↦ rw a | inr b ↦ rw b set ]
    | inr there ↦ rw there
  ]);
}

IsTracked-set_phase :
    (s : System) (i : ℕ) (p : Phase)
    → is_finished (s.loop i).phase ≡ false
    → IsTracked s
    → IsTracked (set_phase i p s)
unfolding set_phase update
IsTracked-set_phase s i p h v = record {
  kept = λ j below. elim (Bool-cases (i == j)) [
    | inl same ↦
        let e : i ≡ j = ground arith in
        elim (v.kept j below) [ inl done ↦ absurd (cc (rw e at h)) | inr there ↦ inr there ]
    | inr other ↦ rw other (v.kept j below)
  ];
  reached = λ j below. elim (Bool-cases (i == j)) [
    | inl same ↦ let e : i ≡ j = ground arith in rw (same, e) (v.reached j below)
    | inr other ↦ rw other (v.reached j below)
  ];
}

-- The bookkeeping of managed starts and the file does not matter.
pub IsTracked-record :
    (s : System) (g : ℕ) (m : Option Managed) (f : Bool)
    → IsTracked s
    → IsTracked (record s { generation = g; managed = m; file = f })
IsTracked-record s g m f v = record { kept = v.kept; reached = v.reached }

IsTracked-begin_managed : (g : ℕ) (s : System) → IsTracked s → IsTracked (begin_managed g s)
unfolding begin_managed
IsTracked-begin_managed g s v = elim (Bool-cases (s.generation == g)) [
  | inl current ↦ simp current (IsTracked-record (stop_locked s) _ _ _ (IsTracked-stop_locked s v))
  | inr stale ↦ simp stale v
]

IsTracked-finish_managed : (m : Managed) (s : System) → IsTracked s → IsTracked (finish_managed m s)
unfolding finish_managed
IsTracked-finish_managed m s v = elim (Bool-cases (s.generation == m.generation)) [
  | inl current ↦
      simp current (IsTracked-record (start_locked s) _ _ _ (IsTracked-start_locked s v))
  | inr stale ↦ simp stale (IsTracked-record s _ _ _ v)
]

-- A loop that checks is not finished.
pub CanCheck-running : (p : Phase) → CanCheck p → is_finished p ≡ false
CanCheck-running _ first = refl
CanCheck-running _ tick = refl

pub IsTracked-Quiet : (s t : System) → Quiet s t → IsTracked s → IsTracked t
unfolding decide write stop_periodic
IsTracked-Quiet s t (check i b h c e) v = rw e (IsTracked-set_phase s i _ (CanCheck-running _ c) v)
IsTracked-Quiet s t (look i b h p e) v = rw e (IsTracked-set_phase s i _ (rw p refl) v)
IsTracked-Quiet s t (put i b h p e) v =
    rw e
      (IsTracked-record (set_phase i selecting s) _ _ _ (IsTracked-set_phase s i _ (rw p refl) v))
IsTracked-Quiet s t (leave i h p f e) v = rw e (IsTracked-set_phase s i _ (rw p refl) v)
IsTracked-Quiet s t (stop e) v = rw e (IsTracked-stop_locked _ (IsTracked-record s _ _ _ v))
IsTracked-Quiet s t (begin g h m e) v = rw e (IsTracked-begin_managed g s v)
IsTracked-Quiet s t (finish m h w e) v = rw e (IsTracked-finish_managed m s v)

-- Whatever the loops, the stops and the starts do, no loop that has not returned is lost.
pub IsTracked-Step : (s t : System) → Step s t → IsTracked s → IsTracked t
IsTracked-Step s t (quiet q) v = IsTracked-Quiet s t q v
IsTracked-Step s t (add e) v = rw e (IsTracked-start_locked s v)
