-- ===== src/Migration/Registry/Sorted.antt =====
-- NewRunner of migration/migration.go: a runner's migrations have canonical, distinct names, in
-- ascending order, and are those that were registered.
use Prim.Native.Nat.{Ordering}
use mathlib.Core.List.{Perm}
use mathlib.Core.List.Perm
use fit_go.Base.{
  ◌≡◌, refl, sym, ap, ◌∙◌, subst, true, false, not, inl, inr, List, [], ◌∷◌, map, Option, none,
  some, ok, >>=-eq-ok, arith, Text, same, same_refl, same_iff, Dict, lookup, insert, lookup-insert,
  All, if◌then◌else◌, Bool-cases,
}
use fit_go.Migration.Ids.{to_string, parse_id, compare_id}
use fit_go.Migration.Ids.Order.{compare_id-eq, compare_id_flip, compare_id_trans}
use fit_go.Migration.Registry.{
  Migration, Runner, StoreKind, LockerKind, Entry, ensure, entries_of, is_before, insert_entry,
  sort_entries, runner_of, new_runner_over, new_runner, check_interfaces,
}
use fit_go.Migration.States.{is_set}

-- An entry is a registered migration under its canonical name.
pub record FromItem (item : Migration) (e : Entry) : Type 0 where
  pub parsed : parse_id item.id ≡ ok e.id
  pub has_up : item.has_up ≡ true
  pub renamed : e.migration ≡ record item { id = to_string e.id }

abbrev pub Each : List Migration → List Entry → Type 0
Each [] [] = Unit
Each (item ∷ items) (e ∷ es) = FromItem item e × Each items es
Each [] (e ∷ es) = ⊥
Each (item ∷ items) [] = ⊥

abbrev Differ : Entry → Entry → Type 0
Differ e f = same (to_string e.id) (to_string f.id) ≡ false

abbrev DistinctEntries : List Entry → Type 0
DistinctEntries [] = Unit
DistinctEntries (e ∷ es) = All (Differ e) es × DistinctEntries es

abbrev Unseen : Dict (Unit {0}) → Entry → Type 0
Unseen seen e = lookup (to_string e.id) seen ≡ none

abbrev Before : Entry → Entry → Type 0
Before e f = compare_id e.id f.id ≡ Ordering.lt

abbrev pub Ascending : List Entry → Type 0
Ascending [] = Unit
Ascending (e ∷ es) = All (Before e) es × Ascending es

Unseen-before :
    (name : Text) (seen : Dict (Unit {0})) (e : Entry) (es : List Entry)
    → name ≡ to_string e.id
    → All (Unseen (insert name tt seen)) es
    → All (Differ e) es × All (Unseen seen) es
Unseen-before name seen e [] q h = (tt, tt)
Unseen-before name seen e (f ∷ fs) q h =
    let (differ, unseen) = Unseen-before name seen e fs q h.1 in
    let k : (if same name (to_string f.id) then some tt else lookup (to_string f.id) seen) ≡ none =
      sym (lookup-insert name (to_string f.id) tt seen) ∙ h.0 in
    ((ground (arith, k), differ), (ground (arith, k), unseen))

pub record EntriesDone (seen : Dict (Unit {0})) (items : List Migration) (es : List Entry)
    : Type 0 where
  pub each : Each items es
  pub unseen : All (Unseen seen) es
  pub distinct : DistinctEntries es

entries_of_ok :
    (seen : Dict (Unit {0})) (items : List Migration) (es : List Entry)
    → entries_of seen items ≡ ok es
    → EntriesDone seen items es
unfolding entries_of
entries_of_ok seen [] [] h = record { each = tt; unseen = tt; distinct = tt }
entries_of_ok seen [] (e ∷ es) h = absurd (cc)
entries_of_ok seen (item ∷ items) es h =
    let (id, parses, h1) = >>=-eq-ok (parse_id item.id) _ h in
    let (u, up, h2) = >>=-eq-ok (ensure item.has_up _) _ h1 in
    let (v, new, h3) = >>=-eq-ok (ensure (not (is_set (lookup (to_string id) seen))) _) _ h2 in
    let (rest, others, h4) = >>=-eq-ok (entries_of (insert (to_string id) tt seen) items) _ h3 in
    let e : Entry = record { migration = record item { id = to_string id }; id = id } in
    let same_list : e ∷ rest ≡ es = cc in
    let done = entries_of_ok (insert (to_string id) tt seen) items rest others in
    let (differ, unseen) = Unseen-before (to_string id) seen e rest refl done.unseen in
    subst (EntriesDone seen (item ∷ items)) same_list (record {
      each = (record { parsed = parses; has_up = ground (arith, up); renamed = refl }, done.each);
      unseen = (ground (arith, new), unseen);
      distinct = (differ, done.distinct);
    })

All-insert_entry {κ} :
    (P : Entry → Type κ) (e : Entry) (fs : List Entry) → P e → All P fs → All P (insert_entry e fs)
unfolding insert_entry
All-insert_entry P e [] h k = (h, tt)
All-insert_entry P e (f ∷ fs) h k = elim (Bool-cases (is_before (compare_id f.id e.id))) [
  | inl before ↦ rw before (k.0, All-insert_entry P e fs h k.1)
  | inr after ↦ rw after (h, k)
]

All-sort_entries {κ} : (P : Entry → Type κ) (es : List Entry) → All P es → All P (sort_entries es)
unfolding sort_entries
All-sort_entries P [] h = tt
All-sort_entries P (e ∷ es) h =
    All-insert_entry P e (sort_entries es) h.0 (All-sort_entries P es h.1)

-- Entries that differ and do not come in the one order come in the other.
after-Before : (e f : Entry) → Differ e f → is_before (compare_id f.id e.id) ≡ false → Before e f
after-Before e f d h = ground (
  arith,
  compare_id_flip f.id e.id,
  same_refl (to_string e.id),
  λ (q : compare_id f.id e.id ≡ Ordering.eq). compare_id-eq f.id e.id q,
)

Before-All : (e f : Entry) (fs : List Entry) → Before e f → All (Before f) fs → All (Before e) fs
Before-All e f [] h k = tt
Before-All e f (g ∷ gs) h k = (compare_id_trans e.id f.id g.id h k.0, Before-All e f gs h k.1)

Before-of_is : (f e : Entry) → is_before (compare_id f.id e.id) ≡ true → Before f e
Before-of_is f e h = ground arith

insert_entry-Ascending :
    (e : Entry) (fs : List Entry) → All (Differ e) fs → Ascending fs → Ascending (insert_entry e fs)
unfolding insert_entry
insert_entry-Ascending e [] d h = (tt, tt)
insert_entry-Ascending e (f ∷ fs) d h = elim (Bool-cases (is_before (compare_id f.id e.id))) [
  | inl before ↦ rw before (
    All-insert_entry (Before f) e fs (Before-of_is f e before) h.0,
    insert_entry-Ascending e fs d.1 h.1,
  )
  | inr after ↦
      let first = after-Before e f d.0 after in rw after ((first, Before-All e f fs first h.0), h)
]

sort_entries-Ascending : (es : List Entry) → DistinctEntries es → Ascending (sort_entries es)
unfolding sort_entries
sort_entries-Ascending [] d = tt
sort_entries-Ascending (e ∷ es) d =
    insert_entry-Ascending e (sort_entries es) (All-sort_entries (Differ e) es d.0)
      (sort_entries-Ascending es d.1)

insert_entry_perm : (e : Entry) (fs : List Entry) → Perm (insert_entry e fs) (e ∷ fs)
unfolding insert_entry
insert_entry_perm e [] = Perm.refl (e ∷ [])
insert_entry_perm e (f ∷ fs) = elim (Bool-cases (is_before (compare_id f.id e.id))) [
  | inl before ↦ rw before (Perm.trans (Perm.cons f (insert_entry_perm e fs)) (Perm.swap e f fs))
  | inr after ↦ rw after (Perm.refl (e ∷ f ∷ fs))
]

sort_entries_perm : (es : List Entry) → Perm (sort_entries es) es
unfolding sort_entries
sort_entries_perm [] = Perm.refl []
sort_entries_perm (e ∷ es) =
    Perm.trans (insert_entry_perm e (sort_entries es)) (Perm.cons e (sort_entries_perm es))

-- Entries whose migrations stand under their canonical names.
abbrev Named : Entry → Type 0
Named e = e.migration.id ≡ to_string e.id

Each-Named : (items : List Migration) (es : List Entry) → Each items es → All Named es
Each-Named [] [] h = tt
Each-Named (item ∷ items) [] h = absurd h
Each-Named [] (e ∷ es) h = absurd h
Each-Named (item ∷ items) (e ∷ es) h =
    (ap (λ (m : Migration). m.id) h.0.renamed, Each-Named items es h.1)

Differ-flip : (e f : Entry) → Differ e f → Differ f e
Differ-flip e f h =
    ground (
      arith,
      same_iff (to_string e.id) (to_string f.id),
      same_iff (to_string f.id) (to_string e.id),
    )

insert_entry-Distinct :
    (e : Entry) (fs : List Entry)
    → All (Differ e) fs
    → DistinctEntries fs
    → DistinctEntries (insert_entry e fs)
unfolding insert_entry
insert_entry-Distinct e [] d h = (tt, tt)
insert_entry-Distinct e (f ∷ fs) d h = elim (Bool-cases (is_before (compare_id f.id e.id))) [
  | inl before ↦ rw before (
    All-insert_entry (Differ f) e fs (Differ-flip e f d.0) h.0,
    insert_entry-Distinct e fs d.1 h.1,
  )
  | inr after ↦ rw after (d, h)
]

sort_entries-Distinct : (es : List Entry) → DistinctEntries es → DistinctEntries (sort_entries es)
unfolding sort_entries
sort_entries-Distinct [] d = tt
sort_entries-Distinct (e ∷ es) d =
    insert_entry-Distinct e (sort_entries es) (All-sort_entries (Differ e) es d.0)
      (sort_entries-Distinct es d.1)

-- No two migrations of the list have one name.
abbrev pub IsOther : Migration → Migration → Type 0
IsOther m n = same m.id n.id ≡ false

abbrev pub Distinct : List Migration → Type 0
Distinct [] = Unit
Distinct (m ∷ ms) = All (IsOther m) ms × Distinct ms

abbrev migrations_of : List Entry → List Migration
migrations_of = map (λ (e : Entry). e.migration)

others_of :
    (e : Entry) (es : List Entry)
    → Named e
    → All Named es
    → All (Differ e) es
    → All (IsOther e.migration) (migrations_of es)
others_of e [] n h d = tt
others_of e (f ∷ fs) n h d = (rw (n, h.0) d.0, others_of e fs n h.1 d.1)

migrations_of-Distinct :
    (es : List Entry) → All Named es → DistinctEntries es → Distinct (migrations_of es)
migrations_of-Distinct [] h d = tt
migrations_of-Distinct (e ∷ es) h d =
    (others_of e es h.0 h.1 d.0, migrations_of-Distinct es h.1 d.1)

-- A runner holds the registered migrations, each under its canonical name, in ascending order and
-- with no name twice.
pub record IsRegistry (items : List Migration) (r : Runner) : Type 0 where
  pub given : List Entry
  pub entries : List Entry
  pub each : Each items given
  pub reordered : Perm entries given
  pub ascending : Ascending entries
  pub migrations : r.migrations ≡ map (λ (e : Entry). e.migration) entries
  pub parsed : r.parsed ≡ map (λ (e : Entry). e.id) entries
  pub distinct : Distinct r.migrations

pub new_runner_over-IsRegistry :
    (items : List Migration) (store : StoreKind) (locker : LockerKind) (r : Runner)
    → new_runner_over items store locker ≡ ok r
    → IsRegistry items r
unfolding new_runner_over
new_runner_over-IsRegistry items store locker r h =
    let (u, checked, h1) = >>=-eq-ok (check_interfaces store locker) _ h in
    let (es, listed, h2) = >>=-eq-ok (entries_of [] items) _ h1 in
    let done = entries_of_ok [] items es listed in
    let e : runner_of store locker (sort_entries es) ≡ r = cc in
    let distinct : Distinct (migrations_of (sort_entries es)) =
      migrations_of-Distinct (sort_entries es)
        (All-sort_entries Named es (Each-Named items es done.each))
        (sort_entries-Distinct es done.distinct) in
    record {
      given = es;
      entries = sort_entries es;
      each = done.each;
      reordered = sort_entries_perm es;
      ascending = sort_entries-Ascending es done.distinct;
      migrations = ap (λ (x : Runner). x.migrations) (sym e);
      parsed = ap (λ (x : Runner). x.parsed) (sym e);
      distinct = subst (λ (x : Runner). Distinct x.migrations) e distinct;
    }

-- Where NewRunner succeeds, the runner holds the given migrations, each with its Up function and
-- under the canonical form of its name, rearranged into strictly ascending order of their parsed
-- identities, and no name stands twice.
pub new_runner-IsRegistry :
    (items : List Migration) (store : Option StoreKind) (locker : Option LockerKind) (r : Runner)
    → new_runner items store locker ≡ ok r
    → IsRegistry items r
unfolding new_runner
new_runner-IsRegistry [] store locker r h = absurd (cc)
new_runner-IsRegistry (m ∷ ms) none locker r h = absurd (cc)
new_runner-IsRegistry (m ∷ ms) (some s) none r h = absurd (cc)
new_runner-IsRegistry (m ∷ ms) (some s) (some l) r h = new_runner_over-IsRegistry (m ∷ ms) s l r h
