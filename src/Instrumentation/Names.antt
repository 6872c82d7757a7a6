-- ===== src/Instrumentation/Names.antt =====
-- Register of instrumentation/registry.go: every name and alias belongs to its own registration.
use fit_go.Base.{
  ◌≡◌, refl, sym, ap, ◌∙◌, map, subst, Bool, true, false, List, [], ◌∷◌, ◌++◌, Option, none, some,
  Result, ok, err, >>=-eq-ok, Text, same, same_iff, same_refl, trim_space, is_empty, lookup, insert,
  Dict, lookup-insert, All, All-append, arith, Bool-cases, inl, inr, not, if◌then◌else◌,
}
use fit_go.Instrumentation.Registry.{
  Registration, Registry, RegistryError, contains, check_names, free_or, check_free, insert_names,
  register, tail_of, empty_name, nil_factory, empty_alias, repeated_name,
}

-- The name and each alias of a registration lead to it, so no two registrations share one. The name is
-- trimmed, as it is by each lookup.
abbrev pub Owns : Dict Registration → Registration → Type 0
Owns m item = All (λ n. lookup n m ≡ some item) (trim_space item.name ∷ item.aliases)

abbrev pub IsConsistent : Registry → Type 0
IsConsistent registry = All (Owns registry.by_name) registry.ordered

abbrev Free : Dict Registration → List Text → Type 0
Free m = All (λ n. lookup n m ≡ none)

free_or-none : (n : Text) (o : Option Registration) (u : Unit {0}) → free_or n o ≡ ok u → o ≡ none
free_or-none n none u h = refl
free_or-none n (some p) u h = absurd (cc)

check_free-Free :
    (registry : Registry) (names : List Text) (u : Unit {0})
    → check_free registry names ≡ ok u
    → Free registry.by_name names
unfolding check_free
check_free-Free registry [] u h = tt
check_free-Free registry (n ∷ ns) u h =
    let (v, first, rest) = >>=-eq-ok (free_or n (lookup n registry.by_name)) _ h in
    (free_or-none n (lookup n registry.by_name) v first, check_free-Free registry ns u rest)

-- A name that has an owner is not one of the free names.
other_name :
    (m : Dict Registration) (n k : Text) (owner : Registration)
    → lookup n m ≡ some owner
    → lookup k m ≡ none
    → same k n ≡ false
other_name m n k owner h free = elim (Bool-cases (same k n)) [
  | inr other ↦ other
  | inl equal ↦ let e : k ≡ n = ground (arith, same_iff k n) in absurd (clash (rw e at free) h)
]
  where
    clash : {o : Option Registration} → o ≡ none → o ≡ some owner → ⊥
    clash p q = cc

lookup-insert_others :
    (item : Registration) (names : List Text) (m : Dict Registration) (n : Text)
    (owner : Registration)
    → lookup n m ≡ some owner
    → All (λ k. same k n ≡ false) names
    → lookup n (insert_names item names m) ≡ some owner
unfolding insert_names
lookup-insert_others item [] m n owner h k = h
lookup-insert_others item (x ∷ xs) m n owner h k =
    lookup-insert_others item xs (insert x item m) n owner (rw (lookup-insert x n item m, k.0) h)
      k.1

lookup-insert_same :
    (item : Registration) (names : List Text) (m : Dict Registration) (n : Text)
    → lookup n m ≡ some item
    → lookup n (insert_names item names m) ≡ some item
unfolding insert_names
lookup-insert_same item [] m n h = h
lookup-insert_same item (x ∷ xs) m n h = lookup-insert_same item xs (insert x item m) n (
    rw (lookup-insert x n item m)
      (elim (Bool-cases (same x n)) [ inl equal ↦ rw equal | inr other ↦ rw other h ]))

insert_names-own :
    (item : Registration) (names : List Text) (m : Dict Registration)
    → All (λ n. lookup n (insert_names item names m) ≡ some item) names
unfolding insert_names
insert_names-own item [] m = tt
insert_names-own item (x ∷ xs) m = (
  lookup-insert_same item xs (insert x item m) x (rw (lookup-insert x x item m, same_refl x)),
  insert_names-own item xs (insert x item m),
)

map-All :
    {A : Type 0} (P Q : A → Type 0) (xs : List A) → ((x : A) → P x → Q x) → All P xs → All Q xs
map-All P Q [] f h = tt
map-All P Q (x ∷ xs) f h = (f x h.0, map-All P Q xs f h.1)

Owns-insert_names :
    (item : Registration) (names : List Text) (m : Dict Registration) (owner : Registration)
    → Free m names
    → Owns m owner
    → Owns (insert_names item names m) owner
Owns-insert_names item names m owner free =
    map-All (λ n. lookup n m ≡ some owner) _ (trim_space owner.name ∷ owner.aliases)
      λ n h.
        lookup-insert_others item names m n owner h
          (map-All (λ k. lookup k m ≡ none) _ names (λ k f. other_name m n k owner h f) free)

-- A check that was passed.
passed :
    {A : Type 0} (b : Bool) (e : RegistryError) (x : Result RegistryError A) {a : A}
    → (if b then err e else x) ≡ ok a
    → x ≡ ok a
passed true e x h = absurd (cc)
passed false e x h = h

-- What check_names returns: every name it was given, with the space around it trimmed.
check_names-ok :
    (owner : Text) (seen rest names : List Text)
    → check_names owner seen rest ≡ ok names
    → names ≡ map trim_space rest
unfolding check_names
check_names-ok owner seen [] names h = cc
check_names-ok owner seen (name ∷ rest) names h =
    let h1 = passed (is_empty (trim_space name)) (empty_alias owner) _ h in
    let h2 =
      passed (contains (trim_space name) seen) (repeated_name owner (trim_space name)) _ h1 in
    let (ns, first, last) =
      >>=-eq-ok (check_names owner (trim_space name ∷ seen) rest) (λ ns. ok (trim_space name ∷ ns))
        h2 in
    let e : trim_space name ∷ ns ≡ names = cc last in
    sym e
    ∙ ap (λ l. trim_space name ∷ l) (check_names-ok owner (trim_space name ∷ seen) rest ns first)

-- What Register keeps of a registration: all of it, with the space around its names trimmed.
abbrev pub trimmed : Registration → Registration
trimmed given = record given {
  name = trim_space given.name;
  aliases = map trim_space given.aliases;
}

-- Where Register accepts a registration, the registry keeps all that it held, in its order, and gains the
-- registration, last, with its name and all of its aliases trimmed; and if in the registry the name and
-- each alias of every registration led to it, they do so afterwards, those of the new one included.
pub register-IsConsistent :
    (given : Registration) (registry registry' : Registry)
    → IsConsistent registry
    → register given registry ≡ ok registry'
    → IsConsistent registry' × (registry'.ordered ≡ registry.ordered ++ trimmed given ∷ [])
unfolding register
register-IsConsistent given registry registry' consistent h =
    let name = trim_space given.name in
    let h1 = passed (is_empty name) empty_name _ h in
    let h2 = passed (not given.has_factory) (nil_factory name) _ h1 in
    let (names, checked, h3) = >>=-eq-ok (check_names name [] (name ∷ given.aliases)) _ h2 in
    let (u, free, h4) = >>=-eq-ok (check_free registry names) _ h3 in
    let item : Registration = record given { name = name; aliases = tail_of names } in
    let m = insert_names item names registry.by_name in
    let e : record { by_name = m; ordered = registry.ordered ++ item ∷ [] } ≡ registry' = cc h4 in
    let given_names = check_names-ok name [] (name ∷ given.aliases) names checked in
    let whole : item ≡ trimmed given =
      ap (λ l. record given { name = name; aliases = tail_of l }) given_names in
    let head : names ≡ trim_space name ∷ tail_of names = rw given_names refl in
    let own_names : Owns m item =
      subst (All (λ n. lookup n m ≡ some item)) head
        (insert_names-own item names registry.by_name) in
    let kept =
      map-All (Owns registry.by_name) (Owns m) registry.ordered
        (λ owner.
          Owns-insert_names item names registry.by_name owner
            (check_free-Free registry names u free))
        consistent in
    rw (← e) (
      All-append (Owns m) registry.ordered (item ∷ []) kept (own_names, tt),
      ap (λ i. registry.ordered ++ i ∷ []) whole,
    )
