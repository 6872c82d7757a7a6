-- ===== src/Migration/Ids.antt =====
-- migration/migration.go: the identity of a migration, its parser, printer and order.
-- Text is a list of code points. The two patterns are matched by hand: a run of digits is never
-- followed by a digit, so the greedy match is the only one.
pub mod Order
pub mod RoundTrip
pub mod Range
use fit_go.Base.{
  ℕ, ◌+◌, ◌≤◌, ◌<◌, ◌≡◌, refl, Bool, true, false, ◌&&◌, ◌||◌, List, [], ◌∷◌, ◌++◌, Option, none,
  some, Result, ok, err, arith, ltb, leb, ◌==◌, if◌then◌else◌, Text, codes, trim_space, trim_suffix,
  show_nat, parse_uint, is_digit, compare_text, NumError,
}
use fit_go.Base.Maybe.{◌>>=◌}
use fit_go.Base.Errors.{◌>>=◌ as bind}
use fit_go.Migration.Errors.{Error, invalid_id, invalid_number}
use Prim.Native.Nat.{Ordering}

-- type ID
pub record MigrationId : Type 0 where
  pub major : ℕ
  pub minor : ℕ
  pub patch : ℕ
  pub sequence : ℕ
  pub name : Text

-- ID.Version
unfoldable pub version : MigrationId → Text
version id =
    codes "v"
    ++ (show_nat id.major ++ (codes "." ++ (show_nat id.minor ++ (codes "." ++ show_nat id.patch))))

-- ID.String
unfoldable pub to_string : MigrationId → Text
to_string id =
    codes "v"
    ++ (show_nat id.major
        ++ (codes "."
            ++ (show_nat id.minor
                ++ (codes "."
                    ++ (show_nat id.patch
                        ++ (codes "-" ++ (show_nat id.sequence ++ (codes "-" ++ id.name))))))))

abbrev pub is_separator : ℕ → Bool
is_separator c = c == b'.' || c == b'_'

abbrev pub is_dash : ℕ → Bool
is_dash c = c == b'-'

-- [A-Za-z0-9]
abbrev pub is_alnum : ℕ → Bool
is_alnum c = (leb b'A' c && leb c b'Z') || (leb b'a' c && leb c b'z') || is_digit c

-- [A-Za-z0-9_-]
abbrev pub is_name_char : ℕ → Bool
is_name_char c = is_alnum c || c == b'_' || c == b'-'

unfoldable pub all_name_chars : Text → Bool
all_name_chars [] = true
all_name_chars (c ∷ cs) = is_name_char c && all_name_chars cs

-- [A-Za-z0-9][A-Za-z0-9_-]*
unfoldable pub is_name : Text → Bool
is_name [] = false
is_name (c ∷ cs) = is_alnum c && all_name_chars cs

-- The longest run of digits, and what follows it.
unfoldable pub span_digits : Text → Text × Text
span_digits [] = ([], [])
span_digits (c ∷ cs) =
    let (run, rest) = span_digits cs in if is_digit c then (c ∷ run, rest) else ([], c ∷ cs)

abbrev pub split_first : (ℕ → Bool) → Text × Text → Option (Text × Text)
split_first p ([], rest) = none
split_first p (d ∷ ds, []) = none
split_first p (d ∷ ds, c ∷ rest) = if p c then some (d ∷ ds, rest) else none

-- (\d+) and one character of a class: the digits, and what follows.
unfoldable pub digits_then : (ℕ → Bool) → Text → Option (Text × Text)
digits_then p s = split_first p (span_digits s)

-- What a pattern captures.
pub record Match : Type 0 where
  pub major_digits : Text
  pub minor_digits : Text
  pub patch_digits : Text
  pub sequence_digits : Text
  pub rest : Text

abbrev named : Match → Option Match
named m = if is_name m.rest then some m else none

-- idPattern, past its `v`.
unfoldable pub match_dotted : Text → Option Match
match_dotted s = do
  (a, s1) ← digits_then is_separator s
  (b, s2) ← digits_then is_separator s1
  (c, s3) ← digits_then is_dash s2
  (d, s4) ← digits_then is_dash s3
  named (record {
    major_digits = a;
    minor_digits = b;
    patch_digits = c;
    sequence_digits = d;
    rest = s4;
  })

unfoldable pub match_id : Text → Option Match
match_id [] = none
match_id (c ∷ s) = if c == b'v' then match_dotted s else none

-- (\d{3})
unfoldable pub three_digits : Text → Option (Text × Text)
three_digits (a ∷ b ∷ c ∷ s) =
    if is_digit a && is_digit b && is_digit c then some (a ∷ b ∷ c ∷ [], s) else none
three_digits s = none

unfoldable pub after_dash : Text → Option Text
after_dash [] = none
after_dash (c ∷ s) = if is_dash c then some s else none

-- nodeIDPattern
unfoldable pub match_node_id : Text → Option Match
match_node_id s = do
  (a, s1) ← three_digits s
  (b, s2) ← three_digits s1
  (c, s3) ← three_digits s2
  (d, s4) ← three_digits s3
  r ← after_dash s4
  named (record {
    major_digits = a;
    minor_digits = b;
    patch_digits = c;
    sequence_digits = d;
    rest = r;
  })

abbrev numeric : Text → Result NumError ℕ → Result Error ℕ
numeric value (ok n) = ok n
numeric value (err e) = err (invalid_number value)

unfoldable pub number : Text → Text → Result Error ℕ
number value digits = numeric value (parse_uint digits)

unfoldable pub id_of_match : Text → Match → Result Error MigrationId
id_of_match value m = bind (number value m.major_digits) λ a.
    bind (number value m.minor_digits) λ b. bind (number value m.patch_digits) λ c.
      bind (number value m.sequence_digits)
        λ d. ok (record { major = a; minor = b; patch = c; sequence = d; name = m.rest })

unfoldable pub strip_suffixes : Text → Text
strip_suffixes value =
    trim_suffix (trim_suffix (trim_suffix value (codes ".go")) (codes ".js")) (codes ".py")

abbrev or_else : Option Match → Option Match → Option Match
or_else (some m) o = some m
or_else none o = o

abbrev parsed : Text → Option Match → Result Error MigrationId
parsed value (some m) = id_of_match value m
parsed value none = err (invalid_id value)

-- ParseID
unfoldable pub parse_id : Text → Result Error MigrationId
parse_id raw =
    let value = strip_suffixes (trim_space raw) in
    parsed value (or_else (match_id value) (match_node_id value))

-- CanonicalID
unfoldable pub canonical_id : Text → Result Error Text
canonical_id value = bind (parse_id value) λ id. ok (to_string id)

-- compareID: the four numbers in turn, then the names.
unfoldable pub compare_id : MigrationId → MigrationId → Ordering
compare_id left right =
    if ltb left.major right.major
    then Ordering.lt
    else if ltb right.major left.major
    then Ordering.gt
    else if ltb left.minor right.minor
    then Ordering.lt
    else if ltb right.minor left.minor
    then Ordering.gt
    else if ltb left.patch right.patch
    then Ordering.lt
    else if ltb right.patch left.patch
    then Ordering.gt
    else if ltb left.sequence right.sequence
    then Ordering.lt
    else if ltb right.sequence left.sequence
    then Ordering.gt
    else compare_text left.name right.name
