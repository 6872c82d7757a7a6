-- ===== src/Base/Decimal.antt =====
-- Decimal numbers: `%d` of fmt, and `strconv.ParseUint(s, 10, 64)`.
use Prim.Native.Nat.{ℕ, zero, suc, ◌+◌, ◌-◌, ◌*◌, ◌/◌, ◌%◌, ◌^◌, ◌≤◌, ◌<◌}
use mathlib.Core.Path.{◌≡◌, refl}
use mathlib.Core.Bool.{Bool, true, false, ◌&&◌}
use mathlib.Core.Logic.{◌≢◌, inl, inr}
use mathlib.Core.List.{[], ◌∷◌, ◌++◌}
use native.Mathlib.Omega.{arith}
use fit_go.Base.Tests.{ltb, leb, ◌==◌, Bool-cases, if◌then◌else◌}
use fit_go.Base.Lists.{length, length-append}
use fit_go.Base.Strings.{Text}
use fit_go.Base.Int.{ℤ, pos, negsuc}
use fit_go.Base.Errors.{Result, ok, err}

abbrev pub is_digit : ℕ → Bool
is_digit c = leb b'0' c && leb c b'9'

-- The fuel is one more than the number; each round divides it by ten.
show_fuel : ℕ → ℕ → Text
show_fuel zero n = []
show_fuel (suc fuel) n =
    let longer = show_fuel fuel (n / 10) ++ (48 + n % 10) ∷ [] in
    if ltb n 10 then (48 + n) ∷ [] else longer

unfoldable pub show_nat : ℕ → Text
unfolding show_fuel
show_nat n = show_fuel (suc n) n

unfoldable pub decimal_value : ℕ → Text → ℕ
decimal_value acc [] = acc
decimal_value acc (c ∷ cs) = decimal_value (acc * 10 + (c - 48)) cs

unfoldable pub all_digits : Text → Bool
all_digits [] = true
all_digits (c ∷ cs) = is_digit c && all_digits cs

abbrev pub max_uint64 : ℕ
max_uint64 = 2 ^ 64 - 1

pub data NumError : Type 0 where
  bad_syntax out_of_range : NumError

unfoldable pub parse_uint : Text → Result NumError ℕ
unfolding decimal_value all_digits
parse_uint [] = err bad_syntax
parse_uint (c ∷ cs) =
    if all_digits (c ∷ cs)
    then if leb (decimal_value 0 (c ∷ cs)) max_uint64
      then ok (decimal_value 0 (c ∷ cs))
      else err out_of_range
    else err bad_syntax

-- `strconv.ParseInt(s, 10, 64)`: digits after an optional sign, within the range of int64.
abbrev pub max_int64 : ℕ
max_int64 = 2 ^ 63 - 1

abbrev negated : ℕ → ℤ
negated zero = pos 0
negated (suc n) = negsuc n

abbrev in_int64 : Bool → ℕ → Result NumError ℤ
in_int64 false n = if leb n max_int64 then ok (pos n) else err out_of_range
in_int64 true n = if leb n (max_int64 + 1) then ok (negated n) else err out_of_range

unfoldable pub parse_digits : Bool → Text → Result NumError ℤ
parse_digits negative [] = err bad_syntax
parse_digits negative (c ∷ cs) =
    if all_digits (c ∷ cs) then in_int64 negative (decimal_value 0 (c ∷ cs)) else err bad_syntax

unfoldable pub parse_int : Text → Result NumError ℤ
parse_int [] = err bad_syntax
parse_int (c ∷ cs) =
    if c == b'-'
    then parse_digits true cs
    else if c == b'+'
    then parse_digits false cs
    else parse_digits false (c ∷ cs)

decimal_value-append :
    (acc : ℕ) (s t : Text) → decimal_value acc (s ++ t) ≡ decimal_value (decimal_value acc s) t
unfolding decimal_value
decimal_value-append acc [] t = refl
decimal_value-append acc (c ∷ cs) t = decimal_value-append (acc * 10 + (c - 48)) cs t

decimal_value-show_fuel : (fuel n : ℕ) → n < fuel → decimal_value 0 (show_fuel fuel n) ≡ n
unfolding show_fuel
decimal_value-show_fuel zero n h = elim h [ ]
decimal_value-show_fuel (suc fuel) n h = elim (Bool-cases (ltb n 10)) [
  | inl small ↦ rw small (unfold decimal_value in omega arith)
  | inr large ↦ rw large (
      rw (decimal_value-append 0 (show_fuel fuel (n / 10)) ((48 + n % 10) ∷ [])) (
        rw (decimal_value-show_fuel fuel (n / 10) (ground arith))
          (unfold decimal_value in omega arith)))
]

-- The printed number reads back as itself.
pub decimal_value-show_nat : (n : ℕ) → decimal_value 0 (show_nat n) ≡ n
unfolding show_nat
decimal_value-show_nat n = decimal_value-show_fuel (suc n) n (omega arith)

all_digits-append :
    (s t : Text) → all_digits s ≡ true → all_digits t ≡ true → all_digits (s ++ t) ≡ true
unfolding all_digits
all_digits-append [] t h k = k
all_digits-append (c ∷ cs) t h k = ground (arith, all_digits-append cs t)

all_digits-show_fuel : (fuel n : ℕ) → n < fuel → all_digits (show_fuel fuel n) ≡ true
unfolding show_fuel
all_digits-show_fuel zero n h = elim h [ ]
all_digits-show_fuel (suc fuel) n h = elim (Bool-cases (ltb n 10)) [
  | inl small ↦ rw small (unfold all_digits in ground arith)
  | inr large ↦ rw large (
      all_digits-append (show_fuel fuel (n / 10)) ((48 + n % 10) ∷ [])
        (all_digits-show_fuel fuel (n / 10) (ground arith)) (unfold all_digits in ground arith))
]

pub all_digits-show_nat : (n : ℕ) → all_digits (show_nat n) ≡ true
unfolding show_nat
all_digits-show_nat n = all_digits-show_fuel (suc n) n (omega arith)

append_singleton-ne-nil : (s : Text) (c : ℕ) → (s ++ c ∷ []) ≢ []
append_singleton-ne-nil [] c e = cc
append_singleton-ne-nil (x ∷ s) c e = cc

pub show_nat-ne-nil : (n : ℕ) → show_nat n ≢ []
unfolding show_nat
show_nat-ne-nil n = elim (Bool-cases (ltb n 10)) [
  | inl small ↦ unfold show_fuel in rw small (λ e. cc)
  | inr large ↦
      unfold show_fuel in rw large (append_singleton-ne-nil (show_fuel n (n / 10)) (48 + n % 10))
]

-- A number of 64 bits survives printing and parsing.
pub parse_uint-show_nat : (n : ℕ) → n ≤ max_uint64 → parse_uint (show_nat n) ≡ ok n
unfolding parse_uint
parse_uint-show_nat n h =
    go (show_nat n) (show_nat-ne-nil n) (all_digits-show_nat n) (decimal_value-show_nat n)
  where
    go : (s : Text) → s ≢ [] → all_digits s ≡ true → decimal_value 0 s ≡ n → parse_uint s ≡ ok n
    go [] ne d v = absurd (ne refl)
    go (c ∷ cs) ne d v = ground arith

all_digits-head : (c : ℕ) (cs : Text) → all_digits (c ∷ cs) ≡ true → (48 ≤ c) × (c ≤ 57)
unfolding all_digits
all_digits-head c cs h = ground arith

parse_int-digits :
    (s : Text) (n : ℕ)
    → s ≢ []
    → all_digits s ≡ true
    → decimal_value 0 s ≡ n
    → n ≤ max_int64
    → parse_int s ≡ ok (pos n)
unfolding parse_int parse_digits
parse_int-digits [] n ne d v h = absurd (ne refl)
parse_int-digits (c ∷ cs) n ne d v h = ground (arith, all_digits-head c cs d)

-- A number that fits in an int64 survives printing and parsing.
pub parse_int-show_nat : (n : ℕ) → n ≤ max_int64 → parse_int (show_nat n) ≡ ok (pos n)
parse_int-show_nat n h =
    parse_int-digits (show_nat n) n (show_nat-ne-nil n) (all_digits-show_nat n)
      (decimal_value-show_nat n) h

unfoldable power_of_ten : ℕ → ℕ
power_of_ten zero = 1
power_of_ten (suc k) = 10 * power_of_ten k

length-show_fuel : (k fuel n : ℕ) → n < power_of_ten (suc k) → length (show_fuel fuel n) ≤ suc k
unfolding show_fuel power_of_ten
length-show_fuel k zero n h = omega arith
length-show_fuel zero (suc fuel) n h =
    let small : ltb n 10 ≡ true = ground arith in rw small (omega arith)
length-show_fuel (suc k) (suc fuel) n h = elim (Bool-cases (ltb n 10)) [
  | inl small ↦ rw small (omega arith)
  | inr large ↦ rw large (
      omega (
        arith,
        length-append (show_fuel fuel (n / 10)) ((48 + n % 10) ∷ []),
        length-show_fuel k fuel (n / 10) (omega arith),
      ))
]

-- A number below 10 ^ 20 has at most 20 digits.
pub length-show_nat : (n : ℕ) → n < 10 ^ 20 → length (show_nat n) ≤ 20
unfolding show_nat
length-show_nat n h = length-show_fuel 19 (suc n) n (unfold power_of_ten in h)
