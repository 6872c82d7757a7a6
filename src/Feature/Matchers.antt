-- ===== src/Feature/Matchers.antt =====
-- feature/strategy.go: the tests of one supplied value against the values of an attribute.
use Prim.Native.Nat.{Ordering}
use fit_go.Base.{
  Bool, true, false, not, ◌||◌, List, [], ◌∷◌, reverse, Option, none, some, if◌then◌else◌, Text,
  codes, same, is_prefix, is_empty, trim_space, compare_text,
}

-- The standard library that the matchers call: F are the floats, D the dates, I the addresses.
pub record Library (F D I : Type 0) : Type 0 where
  pub parse_float : Text → Option F
  pub less : F → F → Bool
  pub equal : F → F → Bool
  pub compile : Text → Option (Text → Bool)
  -- What javascriptFloatPrefix (true) and javascriptIntegerPrefix (false) find.
  pub number_prefix : Bool → Text → Text
  -- time.Parse with one of the three layouts, and the two formats of the matchers.
  pub parse_nano : Text → Option D
  pub parse_rfc3339 : Text → Option D
  pub parse_day : Text → Option D
  pub show_day : D → Text
  pub show_second : D → Text
  pub show_nano : D → Text
  pub parse_ip : Text → Option I
  pub same_ip : I → I → Bool
  pub parse_cidr : Text → Option (I → Bool)

-- A value of an attribute, as fmt.Sprint prints it; none is nil.
abbrev pub AttributeValue : Type 0
AttributeValue = Option Text

abbrev pub sprint : AttributeValue → Text
sprint none = codes "<nil>"
sprint (some t) = t

-- Values may be nil, which is not the empty list. The switches are on texts.
pub record StrategyAttribute : Type 0 where
  pub conditional : Text
  pub field_name : Text
  pub attribute_values : Option (List AttributeValue)
  pub attribute_type : Text

abbrev pub listed : Option (List AttributeValue) → List AttributeValue
listed none = []
listed (some vs) = vs

unfoldable pub attribute_strings : List AttributeValue → List Text
attribute_strings [] = []
attribute_strings (none ∷ vs) = attribute_strings vs
attribute_strings (some t ∷ vs) = t ∷ attribute_strings vs

-- strings.Contains
unfoldable pub has_infix : Text → Text → Bool
has_infix [] part = is_prefix part []
has_infix (c ∷ cs) part = is_prefix part (c ∷ cs) || has_infix cs part

abbrev pub has_suffix : Text → Text → Bool
has_suffix t part = is_prefix (reverse part) (reverse t)

abbrev is_before : Ordering → Bool
is_before Ordering.lt = true
is_before Ordering.eq = false
is_before Ordering.gt = false

abbrev pub text_below : Text → Text → Bool
text_below s t = is_before (compare_text s t)

abbrev matches_pattern : Option (Text → Bool) → Text → Bool
matches_pattern none value = false
matches_pattern (some expression) value = expression value

unfoldable pub any : (Text → Bool) → List Text → Bool
any test [] = false
any test (t ∷ ts) = let rest = any test ts in test t || rest

module _ {F D I : Type 0} (lib : Library F D I) where
  -- The switch in the loop of matchString.
  unfoldable pub string_test : Text → Text → Text → Bool
  string_test conditional value candidate =
      if same conditional (codes "EQUALS")
      then same value candidate
      else if same conditional (codes "ENDS_WITH")
      then has_suffix value candidate
      else if same conditional (codes "STARTS_WITH")
      then is_prefix candidate value
      else if same conditional (codes "GREATER")
      then text_below candidate value
      else if same conditional (codes "GREATER_EQUALS")
      then not (text_below value candidate)
      else if same conditional (codes "LESS")
      then text_below value candidate
      else if same conditional (codes "LESS_EQUALS")
      then not (text_below candidate value)
      else if same conditional (codes "INCLUDES")
      then has_infix value candidate
      else if same conditional (codes "REGEX")
      then matches_pattern (lib.compile candidate) value
      else false

  unfoldable pub match_string : Text → StrategyAttribute → Bool
  match_string value attribute =
      let values = attribute_strings (listed attribute.attribute_values) in
      if any (string_test attribute.conditional value) values
      then true
      else if same attribute.conditional (codes "NOT_EQUALS")
      then not (any (same value) values)
      else if same attribute.conditional (codes "EXCLUDES")
      then not (any (has_infix value) values)
      else false

  abbrev parsed_prefix : Text → Option F
  parsed_prefix [] = none
  parsed_prefix (c ∷ cs) = lib.parse_float (c ∷ cs)

  unfoldable pub parse_javascript_number : Text → Bool → Option F
  parse_javascript_number value float_mode =
      if is_empty (trim_space value)
      then none
      else parsed_prefix (lib.number_prefix float_mode (trim_space value))

  -- The switch in the loop of matchNumber.
  unfoldable pub number_test : Text → Text → F → Text → F → Bool
  number_test conditional value actual text candidate =
      if same conditional (codes "EQUALS")
      then lib.equal actual candidate
      else if same conditional (codes "GREATER")
      then lib.less candidate actual
      else if same conditional (codes "GREATER_EQUALS")
      then lib.less candidate actual || lib.equal candidate actual
      else if same conditional (codes "LESS")
      then lib.less actual candidate
      else if same conditional (codes "LESS_EQUALS")
      then lib.less actual candidate || lib.equal actual candidate
      else if same conditional (codes "STARTS_WITH")
      then is_prefix text value
      else if same conditional (codes "ENDS_WITH")
      then has_suffix value text
      else if same conditional (codes "INCLUDES")
      then has_infix value text
      else if same conditional (codes "REGEX")
      then matches_pattern (lib.compile text) value
      else false

  -- The loop of matchNumber: whether a value matched, matchedEqual and matchedContains.
  abbrev number_round : Text → Text → F → Text → Option F → Bool × Bool × Bool → Bool × Bool × Bool
  number_round conditional value actual text none later = later
  number_round conditional value actual text (some candidate) later = (
    number_test conditional value actual text candidate || later.0,
    lib.equal actual candidate || later.1,
    has_infix value text || later.2,
  )

  unfoldable pub number_rounds : Text → Text → F → Bool → List AttributeValue → Bool × Bool × Bool
  number_rounds conditional value actual float_mode [] = (false, false, false)
  number_rounds conditional value actual float_mode (v ∷ vs) =
      number_round conditional value actual (sprint v)
        (parse_javascript_number (sprint v) float_mode)
        (number_rounds conditional value actual float_mode vs)

  abbrev decide_number : Text → Bool × Bool × Bool → Bool
  decide_number conditional found =
      if found.0
      then true
      else if same conditional (codes "NOT_EQUALS")
      then not found.1
      else if same conditional (codes "EXCLUDES")
      then not found.2
      else false

  abbrev match_actual : Text → StrategyAttribute → Option F → Bool
  match_actual value attribute none = false
  match_actual value attribute (some actual) = decide_number attribute.conditional (
      number_rounds attribute.conditional value actual (has_infix value (codes "."))
        (listed attribute.attribute_values))

  unfoldable pub match_number : Text → StrategyAttribute → Bool
  match_number value attribute =
      match_actual value attribute (parse_javascript_number value (has_infix value (codes ".")))

  abbrev equal_parsed : I → Option I → Bool
  equal_parsed ip none = false
  equal_parsed ip (some other) = lib.same_ip other ip

  abbrev in_network : I → Option (I → Bool) → Bool
  in_network ip none = false
  in_network ip (some network) = network ip

  unfoldable pub ip_test : I → Text → Bool
  ip_test ip candidate =
      if has_infix candidate (codes "/")
      then in_network ip (lib.parse_cidr candidate)
      else equal_parsed ip (lib.parse_ip candidate)

  abbrev decide_ip : Text → Bool → Bool
  decide_ip conditional contained =
      if same conditional (codes "EQUALS") || same conditional (codes "INCLUDES")
      then contained
      else if same conditional (codes "NOT_EQUALS") || same conditional (codes "EXCLUDES")
      then not contained
      else false

  abbrev match_parsed_ip : StrategyAttribute → Option I → Bool
  match_parsed_ip attribute none = false
  match_parsed_ip attribute (some ip) =
      decide_ip attribute.conditional
        (any (ip_test ip) (attribute_strings (listed attribute.attribute_values)))

  unfoldable pub match_ip_address : Text → StrategyAttribute → Bool
  match_ip_address value attribute = match_parsed_ip attribute (lib.parse_ip value)
