-- ===== src/ErrorCodes/Tests.antt =====
-- errors/errors.go: one service's codes and messages.
use fit_go.Base.{◌≡◌, refl, [], ◌∷◌, ◌++◌, none, some, Text, codes, Dict, lookup, same}
use fit_go.ErrorCodes.Codes.{
  Table, find, merge, builtin_message_codes, ErrorRegistry, init, no_default_language, padded,
  new_error, get_message,
}
use fit_go.ErrorCodes.Messages.{init-get_message}

abbrev fresh_registry : ErrorRegistry
fresh_registry = record { service_name_code = []; messages = none; message_codes = none }

abbrev catalog : Dict (Table Text)
catalog = (codes "HI", []) ∷ (codes "EN", (5, codes "No order") ∷ []) ∷ []

abbrev configured : ErrorRegistry
configured = record {
  service_name_code = codes "AVS";
  messages = some catalog;
  message_codes = some (merge ((22, 5) ∷ []) builtin_message_codes);
}

configured-init :
    init (codes "AVS") ((codes "ORDER", 22) ∷ []) catalog ((22, 5) ∷ []) fresh_registry
    ≡ (none, configured)
unfolding init lookup same
configured-init = refl

init-get_message_example :
    get_message configured (new_error configured (codes "boom") 22)
    ≡ (codes "AVS" ++ padded 22) ++ (codes ": " ++ codes "No order")
unfolding find lookup same
init-get_message_example =
    init-get_message (codes "AVS") (codes "boom") ((codes "ORDER", 22) ∷ []) catalog ((22, 5) ∷ [])
      fresh_registry configured 22 5 ((5, codes "No order") ∷ []) b'N' (codes "o order")
      configured-init refl refl refl

-- An Init that is refused for want of the default language has changed the prefix.
refused_init :
    init (codes "NEW") ((codes "ORDER", 22) ∷ []) ((codes "HI", []) ∷ []) [] configured
    ≡ (some no_default_language, record configured { service_name_code = codes "NEW" })
unfolding init lookup same
refused_init = refl
