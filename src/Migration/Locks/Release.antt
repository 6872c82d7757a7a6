-- ===== src/Migration/Locks/Release.antt =====
-- withLock of migration/migration.go releases what it acquired, once, after the operation.
use fit_go.Base.{
  ◌≡◌, refl, true, false, ◌⊎◌, inl, inr, List, [], ◌∷◌, ◌++◌, Option, none, Result, ok, err, arith,
  Text, is_empty, trim_space, Bool-cases, if◌then◌else◌, suc,
}
use fit_go.Migration.Errors.{
  Error, lease_failed, lock_failed, nil_unlock, nil_lease_context, empty_fence_token,
  lease_needs_fenced_store,
}
use fit_go.Migration.Registry.{Runner}
use fit_go.Migration.Effects.{
  Env, World, Lease, Event, locked, unlocked, M, called, ◌>>=◌, pure, raise, annotate, take_lock,
  take_lease, release,
}
use fit_go.Migration.Effects.Rules.{bind-any}
use fit_go.Migration.Locks.{
  reject_lease, check_lease, acquire_lease, acquire_lock, acquire, inside, with_lock,
}

-- The world after one call that acquires the lock, and after one that releases it: the history has
-- one event more, and the store is as it was.
abbrev pub entered : World → World
entered w = record w { history = w.history ++ locked ∷ []; calls = suc w.calls }

abbrev pub left : World → World
left w = record w { history = w.history ++ unlocked ∷ []; calls = suc w.calls }

-- How acquiring the lock ends: acquired; or not acquired, acquired with no way to release it, or an
-- invalid lease, which is released at once.
abbrev pub Acquired : World → Result Error (Option Text) × World → Type 0
Acquired w (ok fence, w1) = w1 ≡ entered w
Acquired w (err e, w1) = (w1 ≡ called w) ⊎ (w1 ≡ entered w) ⊎ (w1 ≡ left (entered w))

module _ (env : Env) (r : Runner) where
  -- What a use of the lock does to the world w: the operation ran once, with the token that the
  -- acquisition returned, in the world that it left, and only added to its history, and the one call
  -- after it is the release; or the use ended in an error, and there was no call, one that acquired
  -- nothing, one that acquired, or one that acquired and one that released.
  abbrev pub Bracketed :
      {A : Type 0} → World → (Option Text → M A) → Result Error A × World → Type 0
  Bracketed w operation x =
      ((fence : Option Text) × (during : List Event) × ((acquire env r w).0 ≡ ok fence)
        × ((operation fence (entered w)).1.history ≡ (entered w).history ++ during)
        × (x.1 ≡ left (operation fence (entered w)).1))
      ⊎ ((e : Error) × (x.0 ≡ err e)
          × ((x.1 ≡ w) ⊎ (x.1 ≡ called w) ⊎ (x.1 ≡ entered w) ⊎ (x.1 ≡ left (entered w))))

  reject_lease-Acquired : (e : Error) (w : World) → Acquired w (reject_lease env r e (entered w))
  unfolding reject_lease ◌>>=◌ release raise
  reject_lease-Acquired e w = inr (inr refl)

  check_lease-Acquired : (l : Lease) (w : World) → Acquired w (check_lease env r l (entered w))
  unfolding check_lease reject_lease
  check_lease-Acquired l w = elim (Bool-cases l.has_unlock) [
    | inr missing ↦ rw missing (unfold raise in inr (inl refl))
    | inl present ↦ elim (Bool-cases l.has_context) [
      | inr missing ↦ rw (present, missing) (reject_lease-Acquired nil_lease_context w)
      | inl context ↦ elim (Bool-cases (is_empty (trim_space l.fence_token))) [
        | inl blank ↦ rw (present, context, blank) (reject_lease-Acquired empty_fence_token w)
        | inr token ↦ elim (Bool-cases r.store.fenced) [
          | inr unfenced ↦
              rw (present, context, token, unfenced)
                (reject_lease-Acquired lease_needs_fenced_store w)
          | inl fenced ↦ rw (present, context, token, fenced) (unfold pure in refl)
        ]
      ]
    ]
  ]

  acquire_lease-Acquired : (w : World) → Acquired w (acquire_lease env r w)
  unfolding acquire_lease
  acquire_lease-Acquired w =
      bind-any (Acquired w) (annotate lease_failed (take_lease env)) (check_lease env r) w
        (λ e failed. inl (unfold annotate take_lease in ground arith))
        λ l taken.
          let e : (annotate lease_failed (take_lease env) w).1 ≡ entered w =
            unfold annotate take_lease in ground arith in
          rw e (check_lease-Acquired l w)

  acquire_lock-Acquired : (w : World) → Acquired w (acquire_lock env r w)
  unfolding acquire_lock
  acquire_lock-Acquired w =
      bind-any (Acquired w) (annotate lock_failed (take_lock env)) _ w
        (λ e failed. inl (unfold annotate take_lock in ground arith))
        λ usable taken.
          let h : (annotate lock_failed (take_lock env) w).1 ≡ entered w =
            unfold annotate take_lock in ground arith in
          elim usable
            as (λ b. Acquired w (
              (if b then pure none else raise nil_unlock)
                (annotate lock_failed (take_lock env) w).1)) [
                  | true ↦ unfold pure in h
                  | false ↦ unfold raise in inr (inl h)
                ]

  pub acquire-Acquired : (w : World) → Acquired w (acquire env r w)
  unfolding acquire
  acquire-Acquired w = elim (Bool-cases r.locker.leases) [
    | inl leases ↦ simp leases (acquire_lease-Acquired w)
    | inr plain ↦ simp plain (acquire_lock-Acquired w)
  ]

  inside-left :
      {A : Type 0} (operation : M A) (w1 : World)
      → (inside env r operation w1).1 ≡ left (operation w1).1
  unfolding inside release
  inside-left operation w1 = refl

  -- An operation that only adds to the history, whatever it returns, is bracketed by withLock.
  pub with_lock-Bracketed :
      {A : Type 0} (operation : Option Text → M A)
      → ((fence : Option Text) (w1 : World)
          → (during : List Event) × ((operation fence w1).1.history ≡ w1.history ++ during))
      → (w : World) → Bracketed w operation (with_lock env r operation w)
  unfolding with_lock
  with_lock-Bracketed operation adds w =
      let acquired = acquire-Acquired w in
      bind-any (Bracketed w operation) (acquire env r) _ w
        (λ e failed. inr (e, refl, inr (refused (acquire env r w) e failed acquired)))
        λ fence taken.
          let (during, added) = adds fence (entered w) in
          let here : (acquire env r w).1 ≡ entered w =
            held (acquire env r w) fence taken acquired in
          inl (fence, during, taken, added, rw here (inside-left (operation fence) (entered w)))
    where
      refused :
          (x : Result Error (Option Text) × World) (e : Error)
          → x.0 ≡ err e
          → Acquired w x
          → (x.1 ≡ called w) ⊎ (x.1 ≡ entered w) ⊎ (x.1 ≡ left (entered w))
      refused (ok f, w1) e q h = absurd (cc)
      refused (err d, w1) e q h = h

      held :
          (x : Result Error (Option Text) × World) (f : Option Text)
          → x.0 ≡ ok f
          → Acquired w x
          → x.1 ≡ entered w
      held (ok f, w1) g q h = h
      held (err d, w1) g q h = absurd (cc)
