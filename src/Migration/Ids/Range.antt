-- ===== src/Migration/Ids/Range.antt =====
-- What ParseID of migration/migration.go accepts is in range, so canonical identities are stable.
use fit_go.Base.{
  ℕ, ◌≤◌, ◌≡◌, true, Option, none, some, ok, arith, refl, Text, parse_uint, max_uint64, >>=-eq-ok,
  trim_space, [], ◌∷◌,
}
use fit_go.Migration.Ids.{
  MigrationId, to_string, is_name, Match, match_dotted, match_id, match_node_id, id_of_match,
  parse_id, canonical_id, number, strip_suffixes, parsed, or_else,
}
use fit_go.Migration.Ids.RoundTrip.{IsValid, parse_id-to_string}

parse_uint-le : (s : Text) (n : ℕ) → parse_uint s ≡ ok n → n ≤ max_uint64
unfolding parse_uint
parse_uint-le [] n h = cc
parse_uint-le (c ∷ cs) n h = ground arith

number-le : (value digits : Text) (n : ℕ) → number value digits ≡ ok n → n ≤ max_uint64
unfolding number
number-le value digits n h = ground (arith, parse_uint-le digits n)

id_of_match-IsValid :
    (value : Text) (m : Match) (id : MigrationId)
    → is_name m.rest ≡ true
    → id_of_match value m ≡ ok id
    → IsValid id
unfolding id_of_match
id_of_match-IsValid value m id h e = ground (
  arith,
  number-le value m.major_digits id.major,
  number-le value m.minor_digits id.minor,
  number-le value m.patch_digits id.patch,
  number-le value m.sequence_digits id.sequence,
)

match_dotted-is_name : (s : Text) (m : Match) → match_dotted s ≡ some m → is_name m.rest ≡ true
unfolding match_dotted
match_dotted-is_name s m h = ground arith

match_id-is_name : (s : Text) (m : Match) → match_id s ≡ some m → is_name m.rest ≡ true
unfolding match_id
match_id-is_name [] m h = cc
match_id-is_name (c ∷ s) m h = ground (arith, match_dotted-is_name s m)

match_node_id-is_name : (s : Text) (m : Match) → match_node_id s ≡ some m → is_name m.rest ≡ true
unfolding match_node_id
match_node_id-is_name s m h = ground arith

parsed-IsValid :
    (value : Text) (o : Option Match) (id : MigrationId)
    → ((m : Match) → o ≡ some m → is_name m.rest ≡ true)
    → parsed value o ≡ ok id
    → IsValid id
parsed-IsValid value none id h e = cc
parsed-IsValid value (some m) id h e = id_of_match-IsValid value m id (h m refl) e

or_else-is_name :
    (s : Text) (m : Match) → or_else (match_id s) (match_node_id s) ≡ some m → is_name m.rest ≡ true
or_else-is_name s m h = ground (arith, match_id-is_name s m, match_node_id-is_name s m)

-- The numbers of a parsed identity fit in 64 bits, and its name is one that the patterns accept.
pub parse_id-IsValid : (value : Text) (id : MigrationId) → parse_id value ≡ ok id → IsValid id
unfolding parse_id
parse_id-IsValid value id h =
    let s = strip_suffixes (trim_space value) in
    parsed-IsValid s (or_else (match_id s) (match_node_id s)) id (or_else-is_name s) h

-- A canonical name is its own canonical form.
pub canonical_id-canonical_id :
    (value canonical : Text)
    → canonical_id value ≡ ok canonical
    → canonical_id canonical ≡ ok canonical
unfolding canonical_id
canonical_id-canonical_id value canonical h =
    let (id, parses, prints) = >>=-eq-ok (parse_id value) (λ id. ok (to_string id)) h in
    let same : to_string id ≡ canonical = cc prints in
    rw (← same) (rw (parse_id-to_string id (parse_id-IsValid value id parses)))
