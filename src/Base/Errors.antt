-- ===== src/Base/Errors.antt =====
-- Go's `(value, error)` returns: a value or an error.
use mathlib.Core.Path.{◌≡◌, refl}

pub data Result (E A : Type 0) : Type 0 where
  ok : A → Result E A
  err : E → Result E A

infixl 5 ◌>>=◌ ◌>>◌
abbrev pub ◌>>=◌ : {E B C : Type 0} → Result E B → (B → Result E C) → Result E C
err e >>= next = err e
ok b >>= next = next b

abbrev pub ◌>>◌ : {E C : Type 0} → Result E (Unit {0}) → Result E C → Result E C
first >> second = first >>= λ u. second

pub >>=-eq-ok :
    {E B C : Type 0} (first : Result E B) (next : B → Result E C) {c : C}
    → (first >>= next) ≡ ok c
    → (b : B) × (first ≡ ok b) × (next b ≡ ok c)
>>=-eq-ok (err e) next h = cc
>>=-eq-ok (ok b) next h = (b, refl, h)
