-- ===== src/ErrorCodes/Codes.antt =====
-- errors/errors.go and errors/codes.go: ErrorRegistry and FitError. Codes and message ids are natural
-- numbers, a map with such keys is an association list, and a nil map of messages is none.
use fit_go.Base.{
  ℕ, ◌-◌, Bool, true, false, not, ◌||◌, List, [], ◌∷◌, ◌++◌, Option, none, some, if◌then◌else◌, ltb,
  ◌==◌, Text, codes, is_empty, length, Dict, lookup, show_nat,
}

abbrev pub Table : Type 0 → Type 0
Table A = List (ℕ × A)

unfoldable pub find : {A : Type 0} → ℕ → Table A → Option A
find k [] = none
find k ((j, a) ∷ rest) = let later = find k rest in if j == k then some a else later

unfoldable pub store : {A : Type 0} → ℕ → A → Table A → Table A
store k a [] = (k, a) ∷ []
store k a ((j, b) ∷ rest) =
    let later = store k a rest in if j == k then (k, a) ∷ rest else (j, b) ∷ later

-- The loop that stores each entry; Go's order of the entries is any, and their keys differ.
unfoldable pub merge : {A : Type 0} → Table A → Table A → Table A
merge [] table = table
merge ((k, a) ∷ rest) table = store k a (merge rest table)

-- builtinMessageCodes
abbrev pub builtin_message_codes : Table ℕ
builtin_message_codes = (1, 1) ∷ (650, 2) ∷ (651, 2) ∷ []

abbrev pub default_language : Text
default_language = codes "EN"

abbrev pub default_message : Text
default_message = codes "Uncaught Exception"

pub record ErrorRegistry : Type 0 where
  pub service_name_code : Text
  pub messages : Option (Dict (Table Text))
  pub message_codes : Option (Table ℕ)

pub data InitError : Type 0 where
  no_service_name no_error_codes no_default_language : InitError

abbrev pub codes_or_builtin : Option (Table ℕ) → Table ℕ
codes_or_builtin none = builtin_message_codes
codes_or_builtin (some table) = table

abbrev pub with_codes : Table ℕ → ErrorRegistry → ErrorRegistry
with_codes more r = record r {
  message_codes = some (merge more (codes_or_builtin r.message_codes));
}

abbrev pub has_default : Option (Table Text) → Bool
has_default none = false
has_default (some table) = true

abbrev pub is_nil : {A : Type 0} → List A → Bool
is_nil [] = true
is_nil (x ∷ xs) = false

-- ErrorRegistry.Init: the error, if any, and the registry afterwards.
unfoldable pub init :
    Text → Dict ℕ → Dict (Table Text) → Table ℕ → ErrorRegistry → Option InitError × ErrorRegistry
init name error_codes messages more r =
    if is_empty name
    then (some no_service_name, r)
    else if is_nil error_codes
    then (some no_error_codes, r)
    else if is_nil messages
    then (none, with_codes more (record r { service_name_code = name }))
    else if has_default (lookup default_language messages)
    then (none, with_codes more (record r { service_name_code = name; messages = some messages }))
    else (some no_default_language, record r { service_name_code = name })

-- ErrorRegistry.InitServiceCode
unfoldable pub init_service_code : Text → ErrorRegistry → Option InitError × ErrorRegistry
init_service_code name r = init name ((codes "UNCAUGHT_EXCEPTION", 1) ∷ []) [] [] r

-- ErrorRegistry.Reset
unfoldable pub reset_registry : ErrorRegistry → ErrorRegistry
reset_registry r = record {
  service_name_code = [];
  messages = none;
  message_codes = some builtin_message_codes;
}

-- FitError, without its metadata. The registry is passed to the operations that read it.
pub record FitError : Type 0 where
  pub int_code : ℕ
  pub code : Text
  pub http_status : ℕ
  pub nop : Bool
  pub language : Text
  pub error_message : Text

abbrev zeros : ℕ → Text
zeros n =
    if n == 0
    then []
    else if n == 1
    then codes "0"
    else if n == 2
    then codes "00"
    else if n == 3
    then codes "000"
    else codes "0000"

-- fmt's %04d
abbrev pub padded : ℕ → Text
padded n = zeros (4 - length (show_nat n)) ++ show_nat n

-- FitError.GetStrCode, for an integer code.
abbrev pub string_code : ErrorRegistry → ℕ → Text
string_code r n = r.service_name_code ++ padded n

-- NewWithRegistry, given the text of the error, which is empty for nil.
unfoldable pub new_error : ErrorRegistry → Text → ℕ → FitError
new_error r message n = record {
  int_code = n;
  code = string_code r n;
  http_status = 500;
  nop = false;
  language = default_language;
  error_message = message;
}

unfoldable pub set_status : ℕ → FitError → FitError
set_status status e =
    if ltb status 200 || ltb 599 status then e else record e { http_status = status }

abbrev knows_language : Option (Dict (Table Text)) → Text → Bool
knows_language none language = false
knows_language (some messages) language = has_default (lookup language messages)

unfoldable pub set_lang : ErrorRegistry → Text → FitError → FitError
set_lang r language e =
    if is_empty language || not (knows_language r.messages language)
    then e
    else record e { language = language }

-- Ignore
abbrev ignore : FitError → FitError
ignore e = record e { nop = true }

abbrev not_blank : Text → Option Text
not_blank [] = none
not_blank (c ∷ cs) = some (c ∷ cs)

abbrev pub text_found : Option Text → Option Text
text_found none = none
text_found (some t) = not_blank t

abbrev pub texts_found : ℕ → Option (Table Text) → Option Text
texts_found id none = none
texts_found id (some texts) = text_found (find id texts)

abbrev pub id_found : Dict (Table Text) → Text → Option ℕ → Option Text
id_found messages language none = none
id_found messages language (some id) = texts_found id (lookup language messages)

-- The lookups of messageByCode.
abbrev pub catalog_message : Option (Dict (Table Text)) → Option (Table ℕ) → FitError → Option Text
catalog_message none table e = none
catalog_message (some messages) none e = none
catalog_message (some messages) (some table) e =
    id_found messages e.language (find e.int_code table)

abbrev or_default : Text → Text
or_default [] = default_message
or_default (c ∷ cs) = c ∷ cs

abbrev pub first_message : Option Text → Text → Text
first_message (some t) own = t
first_message none own = or_default own

unfoldable pub message_by_code : ErrorRegistry → FitError → Text
message_by_code r e = first_message (catalog_message r.messages r.message_codes e) e.error_message

unfoldable pub get_message : ErrorRegistry → FitError → Text
get_message r e = e.code ++ (codes ": " ++ message_by_code r e)
