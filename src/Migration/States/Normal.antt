-- ===== src/Migration/States/Normal.antt =====
-- State.normalize of migration/migration.go: a normalized state is its own normal form.
use fit_go.Base.{
  ◌≡◌, refl, ap, ◌∙◌, none, [], ◌∷◌, ◌++◌, append_assoc, append-nil, Result, ok, err, >>=-eq-ok,
  arith, Text, Dict, lookup, insert, Option-cases, inl, inr,
}
use fit_go.Migration.Errors.{Error}
use fit_go.Migration.Ids.{canonical_id}
use fit_go.Migration.Ids.Range.{canonical_id-canonical_id}
use fit_go.Migration.States.{State, wrap, add_key, canonical_keys, canonical_last, normalize}

-- `m` can be added to `acc` key by key: its keys are canonical, and each is new where it stands.
abbrev Fresh : {V : Type 0} → Dict V → Dict V → Type 0
Fresh acc [] = Unit
Fresh acc ((k, v) ∷ m) =
    (canonical_id k ≡ ok k) × (lookup k acc ≡ none) × Fresh (acc ++ (k, v) ∷ []) m

insert_new :
    {V : Type 0} (k : Text) (v : V) (m : Dict V)
    → lookup k m ≡ none
    → insert k v m ≡ m ++ (k, v) ∷ []
unfolding lookup insert
insert_new k v [] h = refl
insert_new k v ((j, w) ∷ m) h = ground (arith, insert_new k v m)

wrap-eq-ok :
    {A : Type 0} (f : Error → Error) (r : Result Error A) (a : A) → wrap f r ≡ ok a → r ≡ ok a
wrap-eq-ok f (ok b) a h = h
wrap-eq-ok f (err e) a h = cc

add_key_new :
    {V : Type 0} (g : Text → Error) (k : Text) (v : V) (acc : Dict V)
    → lookup k acc ≡ none
    → add_key g k v acc ≡ ok (acc ++ (k, v) ∷ [])
unfolding add_key
add_key_new g k v acc h = rw h (ap ok (insert_new k v acc h))

-- A key is added only where it is new, and then at the end.
add_key-eq-ok :
    {V : Type 0} (g : Text → Error) (k : Text) (v : V) (acc r : Dict V)
    → add_key g k v acc ≡ ok r
    → (lookup k acc ≡ none) × (r ≡ acc ++ (k, v) ∷ [])
unfolding add_key
add_key-eq-ok g k v acc r h = elim (Option-cases (lookup k acc)) [
  | inl new ↦ (new, ground (arith, insert_new k v acc new))
  | inr (w, old) ↦ absurd (ground arith)
]

canonical_keys-Fresh :
    {V : Type 0} (f : Text → Error → Error) (g : Text → Error) (acc m : Dict V)
    → Fresh acc m
    → canonical_keys f g acc m ≡ ok (acc ++ m)
unfolding canonical_keys
canonical_keys-Fresh f g acc [] h = rw append-nil
canonical_keys-Fresh f g acc ((k, v) ∷ m) (canonical, new, rest) = rw canonical (
    rw (add_key_new g k v acc new) (
      canonical_keys-Fresh f g (acc ++ (k, v) ∷ []) m rest
      ∙ ap ok (append_assoc acc ((k, v) ∷ []) m)))

canonical_keys_result :
    {V : Type 0} (f : Text → Error → Error) (g : Text → Error) (acc m : Dict V) (r : Dict V)
    → canonical_keys f g acc m ≡ ok r
    → (m' : Dict V) × (r ≡ acc ++ m') × Fresh acc m'
unfolding canonical_keys
canonical_keys_result f g acc [] r h = ([], rw append-nil cc, tt)
canonical_keys_result f g acc ((k, v) ∷ m) r h =
    let (c, named, rest) = >>=-eq-ok (wrap (f k) (canonical_id k)) _ h in
    let (acc', added, result) = >>=-eq-ok (add_key g c v acc) _ rest in
    let (new, grown) = add_key-eq-ok g c v acc acc' added in
    let (m', same_list, fresh) =
      canonical_keys_result f g (acc ++ (c, v) ∷ []) m r (rw grown at result) in
    (
      (c, v) ∷ m',
      same_list ∙ append_assoc acc ((c, v) ∷ []) m',
      (canonical_id-canonical_id k c (wrap-eq-ok (f k) (canonical_id k) c named), new, fresh),
    )

canonical_keys_idem :
    {V : Type 0} (f : Text → Error → Error) (g : Text → Error) (m r : Dict V)
    → canonical_keys f g [] m ≡ ok r
    → canonical_keys f g [] r ≡ ok r
canonical_keys_idem f g m r h =
    let (m', same_list, fresh) = canonical_keys_result f g [] m r h in
    rw same_list (canonical_keys-Fresh f g [] m' fresh)

canonical_last_idem : (last r : Text) → canonical_last last ≡ ok r → canonical_last r ≡ ok r
unfolding canonical_last
canonical_last_idem [] r h = let e : r ≡ [] = cc in rw e
canonical_last_idem (c ∷ cs) [] h = refl
canonical_last_idem (c ∷ cs) (d ∷ ds) h =
    rw (canonical_id-canonical_id (c ∷ cs) (d ∷ ds) (wrap-eq-ok _ _ _ h))

-- Normalizing a state that came out of normalize changes nothing and reports no error.
pub normalize-normalize : (s t : State) → normalize s ≡ ok t → normalize t ≡ ok t
unfolding normalize
normalize-normalize s t h =
    let (m, ms, h1) = >>=-eq-ok (canonical_keys _ _ [] s.migrations) _ h in
    let (k, ks, h2) = >>=-eq-ok (canonical_keys _ _ [] s.skipped_migrations) _ h1 in
    let (c, cs, h3) = >>=-eq-ok (canonical_keys _ _ [] s.checksums) _ h2 in
    let (l, ls, h4) = >>=-eq-ok (canonical_last s.last_run_migration) _ h3 in
    let e : record s {
      migrations = m;
      skipped_migrations = k;
      checksums = c;
      last_run_migration = l;
    }
        ≡ t =
      cc in
    rw (← e) (
      rw (canonical_keys_idem _ _ s.migrations m ms) (
        rw (canonical_keys_idem _ _ s.skipped_migrations k ks) (
          rw (canonical_keys_idem _ _ s.checksums c cs)
            (rw (canonical_last_idem s.last_run_migration l ls)))))
