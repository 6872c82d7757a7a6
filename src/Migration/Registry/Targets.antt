-- ===== src/Migration/Registry/Targets.antt =====
-- resolveTarget of migration/migration.go: which index a version or a full name selects.
use fit_go.Base.{
  ℕ, suc, ◌+◌, ◌≡◌, refl, sym, subst, ◌∙◌, Bool, true, false, ◌⊎◌, inl, inr, List, [], ◌∷◌, Option,
  none, some, ok, arith, Text, codes, same, All, Bool-cases, get_elem?, drop, take, trim_space,
  is_empty, equal_fold, parse_uint,
}
use fit_go.Migration.Errors.{Error, version_not_registered}
use fit_go.Migration.Ids.{MigrationId, version}
use fit_go.Migration.Registry.{
  Runner, find_version, resolve_target, match_version, canonical_version, found_or,
}

abbrev HasVersion : Text → MigrationId → Type 0
HasVersion v id = same (version id) v ≡ true

abbrev LacksVersion : Text → MigrationId → Type 0
LacksVersion v id = same (version id) v ≡ false

-- The identity at an index has the version, and none after it has.
pub record IsLast (v : Text) (ids : List MigrationId) (index : ℕ) : Type 0 where
  pub id : MigrationId
  pub there : get_elem? ids index ≡ some id
  pub has : HasVersion v id
  pub others : All (LacksVersion v) (drop (suc index) ids)

-- The identity at an index has the version, and none before it has.
pub record IsFirst (v : Text) (ids : List MigrationId) (index : ℕ) : Type 0 where
  pub id : MigrationId
  pub there : get_elem? ids index ≡ some id
  pub has : HasVersion v id
  pub others : All (LacksVersion v) (take index ids)

some-eq : (a b : ℕ) → ◌≡◌ {A = Option ℕ} (some a) (some b) → a ≡ b
some-eq a b h = cc

step_has :
    (v : Text) (k : ℕ) (found : Option ℕ) (id : MigrationId) (ids : List MigrationId)
    → HasVersion v id
    → find_version v false k found (id ∷ ids) ≡ find_version v false (suc k) (some k) ids
unfolding find_version
step_has v k found id ids h = rw h

step_first :
    (v : Text) (k : ℕ) (found : Option ℕ) (id : MigrationId) (ids : List MigrationId)
    → HasVersion v id
    → find_version v true k found (id ∷ ids) ≡ some k
unfolding find_version
step_first v k found id ids h = rw h

step_lacks :
    (v : Text) (first : Bool) (k : ℕ) (found : Option ℕ) (id : MigrationId) (ids : List MigrationId)
    → LacksVersion v id
    → find_version v first k found (id ∷ ids) ≡ find_version v first (suc k) found ids
unfolding find_version
step_lacks v first k found id ids h = rw h

IsLast-cons :
    (v : Text) (id : MigrationId) (ids : List MigrationId) (j : ℕ)
    → IsLast v ids j
    → IsLast v (id ∷ ids) (suc j)
IsLast-cons v id ids j l = record { id = l.id; there = l.there; has = l.has; others = l.others }

-- The loop for the last index, which starts at `k` with what was found before.
find_version-IsLast :
    (v : Text) (k i : ℕ) (found : Option ℕ) (ids : List MigrationId)
    → find_version v false k found ids ≡ some i
    → ((found ≡ some i) × All (LacksVersion v) ids) ⊎ ((j : ℕ) × (i ≡ k + j) × IsLast v ids j)
find_version-IsLast v k i found [] h = inl (unfold find_version in h, tt)
find_version-IsLast v k i found (id ∷ ids) h = elim (Bool-cases (same (version id) v)) [
  | inl has ↦
      elim (find_version-IsLast v (suc k) i (some k) ids
        (sym (step_has v k found id ids has) ∙ h)) [
          | inl (here, others) ↦ inr (
            0,
            omega (arith, some-eq k i here),
            record { id = id; there = refl; has = has; others = others },
          )
          | inr (j, e, l) ↦ inr (suc j, omega arith, IsLast-cons v id ids j l)
        ]
  | inr lacks ↦
      elim (find_version-IsLast v (suc k) i found ids
        (sym (step_lacks v false k found id ids lacks) ∙ h)) [
          | inl (here, others) ↦ inl (here, (lacks, others))
          | inr (j, e, l) ↦ inr (suc j, omega arith, IsLast-cons v id ids j l)
        ]
]

find_version-IsFirst :
    (v : Text) (k i : ℕ) (ids : List MigrationId)
    → find_version v true k none ids ≡ some i
    → (j : ℕ) × (i ≡ k + j) × IsFirst v ids j
find_version-IsFirst v k i [] h = absurd (unfold find_version in cc)
find_version-IsFirst v k i (id ∷ ids) h = elim (Bool-cases (same (version id) v)) [
  | inl has ↦
      let e : ◌≡◌ {A = Option ℕ} (some k) (some i) = sym (step_first v k none id ids has) ∙ h in
      (0, omega (arith, some-eq k i e), record { id = id; there = refl; has = has; others = tt })
  | inr lacks ↦
      let (j, e, f) =
        find_version-IsFirst v (suc k) i ids (sym (step_lacks v true k none id ids lacks) ∙ h) in
      (
        suc j,
        omega arith,
        record { id = f.id; there = f.there; has = f.has; others = (lacks, f.others) },
      )
]

-- What a version selects: where a range starts its first migration, where it ends its last.
abbrev pub Selects : Bool → Text → List MigrationId → ℕ → Type 0
Selects true = IsFirst
Selects false = IsLast

find_version-Selects :
    (v : Text) (first : Bool) (i : ℕ) (ids : List MigrationId)
    → find_version v first 0 none ids ≡ some i
    → Selects first v ids i
find_version-Selects v true i ids h =
    let (j, e, f) = find_version-IsFirst v 0 i ids h in
    let same_index : j ≡ i = omega arith in subst (IsFirst v ids) same_index f
find_version-Selects v false i ids h = elim (find_version-IsLast v 0 i none ids h) [
  | inl (absent, others) ↦ absurd (cc)
  | inr (j, e, l) ↦ let same_index : j ≡ i = omega arith in subst (IsLast v ids) same_index l
]

found_or-ok : (e : Error) (o : Option ℕ) (i : ℕ) → found_or e o ≡ ok i → o ≡ some i
found_or-ok e none i h = absurd (cc)
found_or-ok e (some j) i h = cc

as_version :
    (r : Runner) (raw : Text) (first : Bool) (a b c : Text)
    → is_empty (trim_space raw) ≡ false
    → equal_fold (trim_space raw) (codes "latest") ≡ false
    → match_version (trim_space raw) ≡ some (a, b, c)
    → resolve_target r raw first
      ≡ found_or
          (version_not_registered (trim_space raw))
          (find_version (canonical_version a b c) first 0 none r.parsed)
unfolding resolve_target
as_version r raw first a b c e l m = rw (e, l, m)

canonical_version-fits :
    (a b c : Text) (target : MigrationId)
    → parse_uint a ≡ ok target.major
    → parse_uint b ≡ ok target.minor
    → parse_uint c ≡ ok target.patch
    → canonical_version a b c ≡ version target
unfolding canonical_version version
canonical_version-fits a b c target x y z = rw (x, y, z)

-- Where a target has the form of a version, its three numbers fit 64 bits and it resolves to an index,
-- that index is, among the runner's identities, the first that has the version of those numbers, where
-- the first is asked for, and otherwise the last.
pub resolve_target-Selects :
    (r : Runner) (raw : Text) (first : Bool) (a b c : Text) (target : MigrationId) (i : ℕ)
    → is_empty (trim_space raw) ≡ false
    → equal_fold (trim_space raw) (codes "latest") ≡ false
    → match_version (trim_space raw) ≡ some (a, b, c)
    → parse_uint a ≡ ok target.major
    → parse_uint b ≡ ok target.minor
    → parse_uint c ≡ ok target.patch
    → resolve_target r raw first ≡ ok i
    → Selects first (version target) r.parsed i
resolve_target-Selects r raw first a b c target i e l m x y z h =
    find_version-Selects (version target) first i r.parsed (
      found_or-ok (version_not_registered (trim_space raw)) _ i (
        rw (← canonical_version-fits a b c target x y z)
          (sym (as_version r raw first a b c e l m) ∙ h)))
