-- ===== src/Config/Values.antt =====
-- config/schema.go: the kinds, what a raw text is parsed to, and the copies of parsed values.
use fit_go.Base.{
  ℕ, suc, ◌*◌, ◌-◌, ◌+◌, ◌/◌, ◌^◌, Bool, true, false, ◌||◌, ◌&&◌, List, [], ◌∷◌, map, Option, none,
  some, if◌then◌else◌, leb, Text, codes, same, is_empty, is_prefix, trim_space, split_on, ℤ, pos,
  negsuc, Result, ok, err, parse_int, NumError, max_int64,
}

pub data ValueKind : Type 0 where
  string_kind int_kind int64_kind float_kind bool_kind duration_kind string_slice_kind json_kind :
      ValueKind
  other_kind : Text → ValueKind

-- What a field may hold: F are the floats, V every other Go value (null, an array or an object of JSON,
-- or what a custom parser made). A duration counts nanoseconds.
pub data Value (F V : Type 0) : Type 0 where
  string_value : Text → Value F V
  int_value int64_value duration_value : ℤ → Value F V
  float_value : F → Value F V
  bool_value : Bool → Value F V
  strings_value : List Text → Value F V
  other_value : V → Value F V

-- What json.Unmarshal decodes to, where it is given a value of any: a number is a float64.
pub data DecodedJson (F V : Type 0) : Type 0 where
  json_number : F → DecodedJson F V
  json_text : Text → DecodedJson F V
  json_bool : Bool → DecodedJson F V
  json_other : V → DecodedJson F V

-- The standard library that the schema calls. `clone_other` is cloneReflectValue on the values
-- that are not scalars or lists of text, and `length_other` is reflection's length, if there is one.
pub record Library (F V : Type 0) : Type 0 where
  pub parse_float : Text → Option F
  pub is_finite : F → Bool
  pub float_of : ℤ → F
  pub less : F → F → Bool
  pub show_float : F → Text
  pub parse_duration : Text → Option ℤ
  pub show_duration : ℤ → Text
  pub unmarshal : Text → Option (DecodedJson F V)
  pub unmarshal_strings : Text → Option (List Text)
  pub marshal : V → Option Text
  pub compile : Text → Option (Text → Bool)
  pub equal_fold : Text → Text → Bool
  pub quote : Text → Text
  pub clone_other : V → Option V
  pub length_other : V → Option ℕ

abbrev pub parsed_int : Result NumError ℤ → Option ℤ
parsed_int (ok n) = some n
parsed_int (err e) = none

abbrev pub map_option : {A B : Type 0} → (A → B) → Option A → Option B
map_option f none = none
map_option f (some a) = some (f a)

abbrev lower : Text → Text
lower = map (λ c. if leb b'A' c && leb c b'Z' then c + 32 else c)

-- Of strings.ToLower only the letters of ASCII matter: no other character's lower case is one of
-- those in these words.
unfoldable pub parse_bool : Text → Option Bool
parse_bool raw =
    let word = lower (trim_space raw) in
    if same word (codes "true")
      || same word (codes "1")
      || same word (codes "yes")
      || same word (codes "on")
    then some true
    else if same word (codes "false")
        || same word (codes "0")
        || same word (codes "no")
        || same word (codes "off")
    then some false
    else none

-- maxInt64/scale, and the absolute value of minInt64/scale, for scale = time.Millisecond.
abbrev pub max_milliseconds : ℕ
max_milliseconds = max_int64 / 1000000

abbrev pub min_milliseconds : ℕ
min_milliseconds = 2 ^ 63 / 1000000

-- The milliseconds of a duration without a unit.
unfoldable pub scale_milliseconds : ℤ → Option ℤ
scale_milliseconds (pos n) = if leb n max_milliseconds then some (pos (n * 1000000)) else none
scale_milliseconds (negsuc n) =
    if leb (suc n) min_milliseconds then some (negsuc (suc n * 1000000 - 1)) else none

abbrev milliseconds : Result NumError ℤ → Option ℤ
milliseconds (err e) = none
milliseconds (ok n) = scale_milliseconds n

abbrev duration_or : Option ℤ → Text → Option ℤ
duration_or (some d) raw = some d
duration_or none raw = milliseconds (parse_int raw)

unfoldable pub trimmed_words : List Text → List Text
trimmed_words [] = []
trimmed_words (w ∷ ws) =
    let rest = trimmed_words ws in if is_empty (trim_space w) then rest else trim_space w ∷ rest

abbrev finite_only : {F V : Type 0} → Library F V → Option F → Option (Value F V)
finite_only lib none = none
finite_only lib (some x) = if lib.is_finite x then some (float_value x) else none

-- The decoded JSON as a value of any, which the type switches of the schema see.
unfoldable pub value_of_json : {F V : Type 0} → DecodedJson F V → Value F V
value_of_json (json_number x) = float_value x
value_of_json (json_text t) = string_value t
value_of_json (json_bool b) = bool_value b
value_of_json (json_other v) = other_value v

module _ {F V : Type 0} (lib : Library F V) where
  -- The switch of parseSchemaValue. The text of its errors is left out.
  unfoldable pub parse_kind : ValueKind → Text → Option (Value F V)
  parse_kind string_kind raw = some (string_value raw)
  parse_kind int_kind raw = map_option int_value (parsed_int (parse_int raw))
  parse_kind int64_kind raw = map_option int64_value (parsed_int (parse_int raw))
  parse_kind float_kind raw = finite_only lib (lib.parse_float raw)
  parse_kind bool_kind raw = map_option bool_value (parse_bool raw)
  parse_kind duration_kind raw =
      map_option duration_value (duration_or (lib.parse_duration raw) raw)
  parse_kind string_slice_kind raw =
      if is_prefix (codes "[") (trim_space raw)
      then map_option strings_value (lib.unmarshal_strings raw)
      else some (strings_value (trimmed_words (split_on b',' raw)))
  parse_kind json_kind raw = map_option value_of_json (lib.unmarshal raw)
  parse_kind (other_kind name) raw = none

  -- cloneReflectValue: scalars are themselves, and a list of text is copied.
  unfoldable pub clone_reflect : Value F V → Option (Value F V)
  clone_reflect (other_value v) = map_option other_value (lib.clone_other v)
  clone_reflect (string_value t) = some (string_value t)
  clone_reflect (int_value n) = some (int_value n)
  clone_reflect (int64_value n) = some (int64_value n)
  clone_reflect (duration_value n) = some (duration_value n)
  clone_reflect (float_value x) = some (float_value x)
  clone_reflect (bool_value b) = some (bool_value b)
  clone_reflect (strings_value ts) = some (strings_value ts)

  unfoldable pub clone_value :
      Option (Value F V → Option (Value F V)) → Value F V → Option (Value F V)
  clone_value (some cloner) v = cloner v
  clone_value none v = clone_reflect v

-- validKind
abbrev pub valid_kind : ValueKind → Bool
valid_kind (other_kind name) = false
valid_kind string_kind = true
valid_kind int_kind = true
valid_kind int64_kind = true
valid_kind float_kind = true
valid_kind bool_kind = true
valid_kind duration_kind = true
valid_kind string_slice_kind = true
valid_kind json_kind = true
