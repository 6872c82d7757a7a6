-- ===== src/ErrorCodes/Messages.antt =====
-- errors/errors.go: what an error says after the registry was configured.
use fit_go.Base.{
  ℕ, ◌≡◌, refl, ap, subst, ◌∙◌, false, inl, inr, [], ◌∷◌, ◌++◌, none, some, if◌then◌else◌, ◌==◌,
  Text, codes, is_empty, Dict, lookup, Bool-cases, arith,
}
use fit_go.ErrorCodes.Codes.{
  Table, find, store, merge, default_language, ErrorRegistry, init, with_codes, codes_or_builtin,
  padded, new_error, message_by_code, get_message, is_nil, first_message, id_found, texts_found,
  text_found,
}

find-store :
    {A : Type 0} (k j : ℕ) (a : A) (table : Table A)
    → find j (store k a table) ≡ (if k == j then some a else find j table)
unfolding find store
find-store k j a [] = refl
find-store k j a ((i, b) ∷ rest) = ground (arith, find-store k j a rest)

find-merge :
    {A : Type 0} (j : ℕ) (a : A) (more table : Table A)
    → find j more ≡ some a
    → find j (merge more table) ≡ some a
unfolding find merge
find-merge j a [] table h = absurd (cc)
find-merge j a ((k, b) ∷ rest) table h = elim (Bool-cases (k == j)) [
  | inl equal ↦ simp (find-store k j b (merge rest table), equal) (simp equal at h)
  | inr other ↦
      simp (find-store k j b (merge rest table), other)
        (find-merge j a rest table (simp other at h))
]

lookup-filled :
    {A : Type 0} (k : Text) (m : Dict A) (a : A) → lookup k m ≡ some a → is_nil m ≡ false
unfolding lookup
lookup-filled k [] a h = absurd (cc)
lookup-filled k ((j, b) ∷ m) a h = refl

-- After an Init that returns no error, with messages, an error of a code that the given codes map to
-- an id, for which the default language has a text that is not empty, says the service's prefix, the
-- code, and that text: whatever the registry held before and whatever the error's own text is.
pub init-get_message :
    (name own : Text) (error_codes : Dict ℕ) (messages : Dict (Table Text)) (more : Table ℕ)
    (r after : ErrorRegistry) (n id : ℕ) (texts : Table Text) (c : ℕ) (cs : Text)
    → init name error_codes messages more r ≡ (none, after)
    → find n more ≡ some id
    → lookup default_language messages ≡ some texts
    → find id texts ≡ some (c ∷ cs)
    → get_message after (new_error after own n) ≡ (name ++ padded n) ++ (codes ": " ++ c ∷ cs)
unfolding init get_message message_by_code new_error
init-get_message name own error_codes messages more r after n id texts c cs h k l t =
    let filled = lookup-filled default_language messages texts l in
    elim (Bool-cases (is_empty name)) [
      | inl no_name ↦ absurd (cc (ap (λ x. x.0) (simp no_name at h)))
      | inr named ↦ elim (Bool-cases (is_nil error_codes)) [
        | inl no_codes ↦ absurd (cc (ap (λ x. x.0) (simp (named, no_codes) at h)))
        | inr coded ↦
            let made =
              with_codes more (record r { service_name_code = name; messages = some messages }) in
            let e : made ≡ after = ap (λ x. x.1) (simp (named, coded, filled, l) at h) in
            subst
              (λ x.
                get_message x (new_error x own n) ≡ (name ++ padded n) ++ (codes ": " ++ c ∷ cs))
              e
              (ap (λ o. (name ++ padded n) ++ (codes ": " ++ first_message o own))
                (ap (id_found messages default_language)
                    (find-merge n id more (codes_or_builtin r.message_codes) k)
                  ∙ (ap (texts_found id) l ∙ ap text_found t)))
      ]
    ]
