-- ===== src/Migration/Ids/RoundTrip.antt =====
-- ParseID and ID.String of migration/migration.go: what is printed parses back, and what parses is
-- in range.
use fit_go.Base.{
  ℕ, ◌≤◌, ◌≡◌, refl, Bool, true, false, [], ◌∷◌, ◌++◌, some, ok, arith, ◌==◌, ◌||◌, Text,
  trim_suffix, show_nat, is_digit, max_uint64, all_digits, all_digits-show_nat, show_nat-ne-nil,
  parse_uint-show_nat, ◌≢◌, reverse, reverse-cons, reverse-append, append_assoc, is_prefix, IsSolid,
  trim_space_solid, is_space, All, All-append,
}
use fit_go.Migration.Ids.{
  MigrationId, to_string, is_separator, is_dash, is_name_char, all_name_chars, is_name, span_digits,
  digits_then, Match, match_dotted, match_id, strip_suffixes, id_of_match, parse_id, number,
}

-- An identity whose numbers fit in 64 bits, with a name that the patterns accept.
pub record IsValid (id : MigrationId) : Type 0 where
  pub major_fits : id.major ≤ max_uint64
  pub minor_fits : id.minor ≤ max_uint64
  pub patch_fits : id.patch ≤ max_uint64
  pub sequence_fits : id.sequence ≤ max_uint64
  pub name_ok : is_name id.name ≡ true

span_digits-append :
    (ds : Text) (c : ℕ) (rest : Text)
    → all_digits ds ≡ true
    → is_digit c ≡ false
    → span_digits (ds ++ c ∷ rest) ≡ (ds, c ∷ rest)
unfolding span_digits all_digits
span_digits-append [] c rest h k = rw k
span_digits-append (d ∷ ds) c rest h k = ground (arith, span_digits-append ds c rest)

digits_then-digits :
    (p : ℕ → Bool) (ds : Text) (c : ℕ) (rest : Text)
    → ds ≢ []
    → all_digits ds ≡ true
    → is_digit c ≡ false
    → p c ≡ true
    → digits_then p (ds ++ c ∷ rest) ≡ some (ds, rest)
unfolding digits_then
digits_then-digits p [] c rest ne h k e = absurd (ne refl)
digits_then-digits p (d ∷ ds) c rest ne h k e = rw (span_digits-append (d ∷ ds) c rest h k, e)

-- A printed number, a character that ends it, and what follows.
digits_then-show_nat :
    (p : ℕ → Bool) (n c : ℕ) (rest : Text)
    → is_digit c ≡ false
    → p c ≡ true
    → digits_then p (show_nat n ++ c ∷ rest) ≡ some (show_nat n, rest)
digits_then-show_nat p n c rest k e =
    digits_then-digits p (show_nat n) c rest (show_nat-ne-nil n) (all_digits-show_nat n) k e

abbrev printed : MigrationId → Match
printed id = record {
  major_digits = show_nat id.major;
  minor_digits = show_nat id.minor;
  patch_digits = show_nat id.patch;
  sequence_digits = show_nat id.sequence;
  rest = id.name;
}

match_id-to_string : (id : MigrationId) → IsValid id → match_id (to_string id) ≡ some (printed id)
unfolding match_id match_dotted to_string
match_id-to_string id v = rw (digits_then-show_nat is_separator id.major b'.' _ refl refl) (
    rw (digits_then-show_nat is_separator id.minor b'.' _ refl refl) (
      rw (digits_then-show_nat is_dash id.patch b'-' _ refl refl)
        (rw (digits_then-show_nat is_dash id.sequence b'-' _ refl refl) (rw (v.name_ok)))))

number-show_nat : (value : Text) (n : ℕ) → n ≤ max_uint64 → number value (show_nat n) ≡ ok n
unfolding number
number-show_nat value n h = rw (parse_uint-show_nat n h)

id_of_match-printed :
    (value : Text) (id : MigrationId) → IsValid id → id_of_match value (printed id) ≡ ok id
unfolding id_of_match
id_of_match-printed value id v = rw (number-show_nat value id.major v.major_fits) (
    rw (number-show_nat value id.minor v.minor_fits) (
      rw (number-show_nat value id.patch v.patch_fits)
        (rw (number-show_nat value id.sequence v.sequence_fits))))

-- The characters of a printed identity.
abbrev is_id_char : ℕ → Bool
is_id_char c = is_name_char c || c == b'.'

IsIdText : Text → Type 0
IsIdText = All (λ c. is_id_char c ≡ true)

all_digits-IsIdText : (s : Text) → all_digits s ≡ true → IsIdText s
unfolding all_digits IsIdText
all_digits-IsIdText [] h = tt
all_digits-IsIdText (c ∷ cs) h = (ground arith, all_digits-IsIdText cs (ground arith))

all_name_chars-IsIdText : (s : Text) → all_name_chars s ≡ true → IsIdText s
unfolding all_name_chars IsIdText
all_name_chars-IsIdText [] h = tt
all_name_chars-IsIdText (c ∷ cs) h = (ground arith, all_name_chars-IsIdText cs (ground arith))

is_name-all_name_chars : (s : Text) → is_name s ≡ true → all_name_chars s ≡ true
unfolding is_name all_name_chars
is_name-all_name_chars [] h = refl
is_name-all_name_chars (c ∷ cs) h = ground arith

IsIdText-append : (s t : Text) → IsIdText s → IsIdText t → IsIdText (s ++ t)
unfolding IsIdText
IsIdText-append = All-append (λ c. is_id_char c ≡ true)

IsIdText-show_nat : (n : ℕ) → IsIdText (show_nat n)
IsIdText-show_nat n = all_digits-IsIdText (show_nat n) (all_digits-show_nat n)

IsIdText-cons : (c : ℕ) (s : Text) → is_id_char c ≡ true → IsIdText s → IsIdText (c ∷ s)
unfolding IsIdText
IsIdText-cons c s h k = (h, k)

to_string-IsIdText : (id : MigrationId) → IsValid id → IsIdText (to_string id)
unfolding to_string
to_string-IsIdText id v = IsIdText-cons _ _ refl (
    IsIdText-append _ _ (IsIdText-show_nat id.major) (
      IsIdText-cons _ _ refl (
        IsIdText-append _ _ (IsIdText-show_nat id.minor) (
          IsIdText-cons _ _ refl (
            IsIdText-append _ _ (IsIdText-show_nat id.patch) (
              IsIdText-cons _ _ refl (
                IsIdText-append _ _ (IsIdText-show_nat id.sequence) (
                  IsIdText-cons _ _ refl (
                    all_name_chars-IsIdText id.name
                      (is_name-all_name_chars id.name v.name_ok))))))))))

id_char_range : (c : ℕ) → is_id_char c ≡ true → (45 ≤ c) × (c ≤ 122)
id_char_range c h = ground arith

graphic_solid : (c : ℕ) → 45 ≤ c → c ≤ 122 → is_space c ≡ false
unfolding is_space
graphic_solid c h k = ground arith

IsIdText-IsSolid : (s : Text) → IsIdText s → IsSolid s
unfolding IsIdText
IsIdText-IsSolid [] h = tt
IsIdText-IsSolid (c ∷ cs) h =
    (graphic_solid c (id_char_range c h.0).0 (id_char_range c h.0).1, IsIdText-IsSolid cs h.1)

-- A suffix of three characters that ends in `x.` backwards cannot end a name after a dash.
no_suffix :
    (x y : ℕ) (name pre : Text)
    → (x == b'-') ≡ false
    → (y == b'-') ≡ false
    → all_name_chars name ≡ true
    → is_prefix (x ∷ y ∷ b'.' ∷ []) (name ++ b'-' ∷ pre) ≡ false
unfolding is_prefix all_name_chars
no_suffix x y [] pre hx hy h = ground arith
no_suffix x y (a ∷ []) pre hx hy h = ground arith
no_suffix x y (a ∷ b ∷ []) pre hx hy h = ground arith
no_suffix x y (a ∷ b ∷ c ∷ r) pre hx hy h = ground arith

all_name_chars-append :
    (s t : Text)
    → all_name_chars s ≡ true
    → all_name_chars t ≡ true
    → all_name_chars (s ++ t) ≡ true
unfolding all_name_chars
all_name_chars-append [] t h k = k
all_name_chars-append (c ∷ cs) t h k = ground (arith, all_name_chars-append cs t)

all_name_chars-cons :
    (c : ℕ) (cs : Text)
    → all_name_chars (c ∷ cs) ≡ true
    → (all_name_chars (c ∷ []) ≡ true) × (all_name_chars cs ≡ true)
unfolding all_name_chars
all_name_chars-cons c cs h = ground arith

all_name_chars-reverse : (s : Text) → all_name_chars s ≡ true → all_name_chars (reverse s) ≡ true
all_name_chars-reverse [] h = h
all_name_chars-reverse (c ∷ cs) h =
    let (first, others) = all_name_chars-cons c cs h in
    rw (reverse-cons c cs)
      (all_name_chars-append (reverse cs) (c ∷ []) (all_name_chars-reverse cs others) first)

-- All of a printed identity up to the dash before its name.
abbrev before_name : MigrationId → Text
before_name id =
    b'v'
    ∷ (show_nat id.major
        ++ b'.' ∷ (show_nat id.minor ++ b'.' ∷ (show_nat id.patch ++ b'-' ∷ show_nat id.sequence)))

to_string-before_name : (id : MigrationId) → to_string id ≡ before_name id ++ b'-' ∷ id.name
unfolding to_string
to_string-before_name id = simp append_assoc

reverse-to_string :
    (id : MigrationId) → reverse (to_string id) ≡ reverse id.name ++ b'-' ∷ reverse (before_name id)
reverse-to_string id = rw (to_string-before_name id) (
    rw (reverse-append (before_name id) (b'-' ∷ id.name)) (
      rw (reverse-cons b'-' id.name)
        (append_assoc (reverse id.name) (b'-' ∷ []) (reverse (before_name id)))))

trim_suffix-to_string :
    (x y : ℕ) (id : MigrationId)
    → IsValid id
    → (x == b'-') ≡ false
    → (y == b'-') ≡ false
    → trim_suffix (to_string id) (b'.' ∷ y ∷ x ∷ []) ≡ to_string id
unfolding trim_suffix
trim_suffix-to_string x y id v hx hy = rw (reverse-to_string id) (
    rw (
      no_suffix x y (reverse id.name) (reverse (before_name id)) hx hy
        (all_name_chars-reverse id.name (is_name-all_name_chars id.name v.name_ok))))

strip_suffixes-to_string :
    (id : MigrationId) → IsValid id → strip_suffixes (to_string id) ≡ to_string id
unfolding strip_suffixes
strip_suffixes-to_string id v = rw (trim_suffix-to_string b'o' b'g' id v refl refl) (
    rw (trim_suffix-to_string b's' b'j' id v refl refl)
      (trim_suffix-to_string b'y' b'p' id v refl refl))

-- An identity whose four numbers fit in 64 bits and whose name the patterns accept is what the parser
-- makes of its printed form.
pub parse_id-to_string : (id : MigrationId) → IsValid id → parse_id (to_string id) ≡ ok id
unfolding parse_id
parse_id-to_string id v =
    rw (trim_space_solid (to_string id) (IsIdText-IsSolid (to_string id) (to_string-IsIdText id v)))
      (rw (strip_suffixes-to_string id v)
        (rw (match_id-to_string id v) (id_of_match-printed (to_string id) id v)))
