-- ===== src/Feature/Backoff.antt =====
-- feature/flags.go: how long the stream loop waits before it connects again, in nanoseconds.
use native.Mathlib.Nat.{pow-succ', one-le-pow, mul-le-mul_left, mul_assoc}
use fit_go.Base.{
  ℕ, zero, suc, ◌+◌, ◌-◌, ◌*◌, ◌/◌, ◌^◌, ◌≤◌, ◌<◌, ◌≡◌, sym, ap, ◌∙◌, inl, inr, Option, none, some,
  if◌then◌else◌, ltb, leb, Text, is_empty, trim_space, all_digits, Result, ok, err, parse_uint, ℤ,
  pos, negsuc, Bool-cases, arith,
}

abbrev pub second : ℕ
second = 1000000000

-- maxReconnectInterval and defaultReconnectInterval.
abbrev pub max_reconnect_interval : ℕ
max_reconnect_interval = 30 * second

abbrev pub default_reconnect_interval : ℕ
default_reconnect_interval = second

abbrev pub lesser : ℕ → ℕ → ℕ
lesser a b = if leb a b then a else b

abbrev pub greater : ℕ → ℕ → ℕ
greater a b = if leb a b then b else a

-- What the code asks of an error: the delay of an edge.stale reply, or the hint of an HTTP error.
pub data StreamError : Type 0 where
  stale : ℤ → StreamError
  http_error : ℕ → StreamError
  other_error : StreamError

abbrev positive_or : ℤ → ℕ → ℕ
positive_or (pos zero) fallback = fallback
positive_or (pos (suc n)) fallback = suc n
positive_or (negsuc n) fallback = fallback

-- retryDelay, for the configured interval of the client.
unfoldable pub retry_delay : ℤ → StreamError → ℕ
retry_delay configured (stale delay) =
    positive_or delay (positive_or configured default_reconnect_interval)
retry_delay configured (http_error hint) = positive_or configured default_reconnect_interval
retry_delay configured other_error = positive_or configured default_reconnect_interval

-- The loop that doubles the delay; the fuel is the number of rounds that its condition on the index
-- allows, one less than the attempt.
unfoldable pub double_delay : ℕ → ℕ → ℕ → ℕ
double_delay zero maximum delay = delay
double_delay (suc rounds) maximum delay =
    let rest = double_delay rounds maximum (delay * 2) in
    if ltb delay maximum then (if ltb (maximum / 2) delay then maximum else rest) else delay

abbrev pub jittered_or : ℤ → ℕ → ℕ
jittered_or (pos zero) delay = delay
jittered_or (pos (suc n)) delay = suc n
jittered_or (negsuc n) delay = delay

abbrev pub with_hint : ℕ → ℕ → ℕ → ℕ
with_hint maximum delay hint = if ltb delay hint then lesser hint maximum else delay

abbrev pub with_jitter : (ℕ → ℤ) → ℕ → ℕ
with_jitter jitter delay = jittered_or (jitter delay) delay

-- What the base delay grows to before the jitter.
abbrev pub grown_delay : ℕ → ℕ → ℕ
grown_delay attempt base =
    lesser (double_delay (attempt - 1) (greater max_reconnect_interval base) base)
      (greater max_reconnect_interval base)

-- retryDelayForAttempt.
unfoldable pub retry_delay_for_attempt : ℤ → (ℕ → ℤ) → StreamError → ℕ → ℕ
retry_delay_for_attempt configured jitter (stale delay) attempt =
    retry_delay configured (stale delay)
retry_delay_for_attempt configured jitter other_error attempt =
    with_jitter jitter (grown_delay attempt (retry_delay configured other_error))
retry_delay_for_attempt configured jitter (http_error hint) attempt =
    let base = retry_delay configured (http_error hint) in
    with_hint (greater max_reconnect_interval base) (with_jitter jitter (grown_delay attempt base))
      hint

-- equalRetryJitter, for the number that rand.Int64N draws below its argument.
unfoldable pub equal_retry_jitter : (ℕ → ℕ) → ℕ → ℕ
equal_retry_jitter draw delay =
    if leb delay 1
    then delay
    else if leb (delay - delay / 2) 1
    then delay
    else delay / 2 + draw (delay - delay / 2)

abbrev capped_seconds : ℕ → ℕ
capped_seconds n = if leb 30 n then max_reconnect_interval else n * second

abbrev capped_until : ℤ → ℕ
capped_until (negsuc n) = 0
capped_until (pos n) = lesser n max_reconnect_interval

abbrev retry_text : (Text → Option ℤ) → Text → ℕ
retry_text until value = elim (until value) [
  | some delay ↦ capped_until delay
  | none ↦ if all_digits value then max_reconnect_interval else 0
]

abbrev retry_parsed : {E : Type 0} → (Text → Option ℤ) → Text → Result E ℕ → ℕ
retry_parsed until value (ok n) = capped_seconds n
retry_parsed until value (err e) = retry_text until value

-- featureRetryAfter, where `until` is http.ParseTime with the time from now to what it parses.
unfoldable pub feature_retry_after : (Text → Option ℤ) → Text → ℕ
feature_retry_after until value =
    if is_empty (trim_space value)
    then 0
    else retry_parsed until (trim_space value) (parse_uint (trim_space value))

pub lesser-le : (a b : ℕ) → lesser a b ≤ b
lesser-le a b = ground arith

lesser-full : (a b : ℕ) → b ≤ a → lesser a b ≡ b
lesser-full a b h = ground arith

lesser_twice : (a b : ℕ) → lesser (lesser a b) b ≡ lesser a b
lesser_twice a b = ground arith

pub with_hint-le :
    (maximum delay hint : ℕ) → delay ≤ maximum → with_hint maximum delay hint ≤ maximum
with_hint-le maximum delay hint h = ground arith

pub le_through : (a b c : ℕ) → a ≤ b → b ≤ c → a ≤ c
le_through a b c h k = omega arith

-- The doubled delay, up to the maximum.
double_delay-power :
    (rounds maximum delay : ℕ)
    → delay ≤ maximum
    → double_delay rounds maximum delay ≡ lesser (delay * 2 ^ rounds) maximum
unfolding double_delay
double_delay-power zero maximum delay h = ground arith
double_delay-power (suc rounds) maximum delay h =
    let grows : delay * 2 ≤ delay * 2 * 2 ^ rounds =
      let one_at_least = mul-le-mul_left (delay * 2) (one-le-pow rounds 2 (omega arith)) in
      omega arith in
    let e : delay * 2 ^ suc rounds ≡ delay * 2 * 2 ^ rounds =
      ap (λ x. delay * x) (pow-succ' 2 rounds) ∙ sym (mul_assoc delay 2 (2 ^ rounds)) in
    rw e (elim (Bool-cases (ltb delay maximum)) [
      | inr reached ↦
          (let full : delay ≡ maximum = ground arith in
            simp reached (full ∙ sym (lesser-full (delay * 2 * 2 ^ rounds) maximum (omega arith))))
      | inl below ↦ elim (Bool-cases (ltb (maximum / 2) delay)) [
        | inl over_half ↦
            (let beyond : maximum < delay * 2 = ground arith in
              simp (below, over_half)
                (sym (lesser-full (delay * 2 * 2 ^ rounds) maximum (omega arith))))
        | inr under_half ↦
            simp (below, under_half) (double_delay-power rounds maximum (delay * 2) (ground arith))
      ]
    ])

-- Without a hint the n-th attempt in a row waits, before the jitter, for the base delay doubled n - 1
-- times, or for the ceiling if that is less: 30 seconds, or the base delay where it is more.
pub retry_delay_for_attempt-power :
    (configured : ℤ) (jitter : ℕ → ℤ) (attempt : ℕ)
    → retry_delay_for_attempt configured jitter other_error attempt
      ≡ with_jitter jitter (
          lesser
            (retry_delay configured other_error * 2 ^ (attempt - 1))
            (greater max_reconnect_interval (retry_delay configured other_error)))
unfolding retry_delay_for_attempt
retry_delay_for_attempt-power configured jitter attempt =
    let base = retry_delay configured other_error in
    let ceiling = greater max_reconnect_interval base in
    let within : base ≤ ceiling = ground arith in
    ap (with_jitter jitter) (
      simp (double_delay-power (attempt - 1) ceiling base within)
        (lesser_twice (base * 2 ^ (attempt - 1)) ceiling))

-- A jitter keeps a delay in the upper half, if what is drawn is below the bound that is given.
pub equal_retry_jitter-upper :
    (draw : ℕ → ℕ) (delay : ℕ)
    → ((n : ℕ) → 0 < n → draw n < n)
    → (delay / 2 ≤ equal_retry_jitter draw delay) × (equal_retry_jitter draw delay ≤ delay)
unfolding equal_retry_jitter
equal_retry_jitter-upper draw delay h = elim (Bool-cases (leb delay 1)) [
  | inl small ↦ simp small (omega arith, omega arith)
  | inr large ↦ elim (Bool-cases (leb (delay - delay / 2) 1)) [
    | inl narrow ↦ simp (large, narrow) (omega arith, omega arith)
    | inr wide ↦
        let some_span : 0 < delay - delay / 2 = ground arith in
        let drawn = h (delay - delay / 2) some_span in simp (large, wide) (omega arith, omega arith)
  ]
]
