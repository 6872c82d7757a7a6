-- ===== src/Logging/Rates.antt =====
-- logging/ratelimit.go: how many actions a bucket allows in a time.
use native.Mathlib.Nat.{add-mul}
use fit_go.Base.{
  ℕ, ◌+◌, ◌-◌, ◌*◌, ◌≤◌, ◌≡◌, refl, sym, ap, subst, ◌∙◌, Bool, true, false, inl, inr, List, [], ◌∷◌,
  Option, none, some, ltb, Bool-cases, arith,
}
use fit_go.Logging.RateLimit.{TokenBucket, token, capped, refilled, allow}

abbrev pub one_if : Bool → ℕ
one_if true = 1
one_if false = 0

-- Calls of Allow at the given times: how many are allowed, and the bucket afterwards.
unfoldable pub allow_all : List ℕ → TokenBucket → ℕ × TokenBucket
allow_all [] b = (0, b)
allow_all (t ∷ ts) b =
    let later = allow_all ts (allow t b).1 in (one_if (allow t b).0 + later.0, later.1)

-- The clock does not go back.
abbrev pub Ascending : ℕ → List ℕ → Type 0
Ascending from [] = Unit
Ascending from (t ∷ ts) = (from ≤ t) × Ascending t ts

capped-le : (o : Option ℕ) (n : ℕ) → capped o n ≤ n
capped-le none n = omega arith
capped-le (some m) n = ground arith

-- What one call spends and leaves was there before, or was refilled.
allow-balance :
    (t : ℕ) (b : TokenBucket) → one_if (allow t b).0 * token + (allow t b).1.bucket ≡ refilled t b
unfolding allow
allow-balance t b = elim (Bool-cases (ltb (refilled t b) token)) [
  | inl denied ↦ simp denied (omega arith)
  | inr allowed ↦ let enough : token ≤ refilled t b = ground arith in simp allowed (omega arith)
]

record IsAfter (t : ℕ) (b c : TokenBucket) : Type 0 where
  rate : c.tokens_per_sec ≡ b.tokens_per_sec
  time : c.last_check ≡ t

allow-IsAfter : (t : ℕ) (b : TokenBucket) → IsAfter t b (allow t b).1
unfolding allow
allow-IsAfter t b = elim (Bool-cases (ltb (refilled t b) token)) [
  | inl denied ↦ simp denied (record { rate = refl; time = refl })
  | inr allowed ↦ simp allowed (record { rate = refl; time = refl })
]

-- The refill of a time is that of its two parts.
refill_split :
    (from middle to rate : ℕ)
    → from ≤ middle
    → middle ≤ to
    → (to - from) * rate ≡ (middle - from) * rate + (to - middle) * rate
refill_split from middle to rate h k =
    let e : to - from ≡ (middle - from) + (to - middle) = omega arith in
    ap (λ n. n * rate) e ∙ add-mul (middle - from) (to - middle) rate

spent_step :
    (one count left balance had from middle to rate : ℕ)
    → from ≤ middle
    → middle ≤ to
    → one * token + balance ≤ had + (middle - from) * rate
    → count * token + left ≤ balance + (to - middle) * rate
    → (one + count) * token + left ≤ had + (to - from) * rate
spent_step one count left balance had from middle to rate h k first rest =
    let e = refill_split from middle to rate h k in omega arith

-- What one call leaves of the bound on the later calls, with the bucket that it leaves.
rest_of :
    (t : ℕ) (b c : TokenBucket) (spent to : ℕ)
    → IsAfter t b c
    → spent ≤ c.bucket + (to - c.last_check) * c.tokens_per_sec
    → spent ≤ c.bucket + (to - t) * b.tokens_per_sec
rest_of t b c spent to after h =
    subst (λ r. spent ≤ c.bucket + (to - t) * r) after.rate
      (subst (λ n. spent ≤ c.bucket + (to - n) * c.tokens_per_sec) after.time h)

-- When the clock does not go back, what a bucket allows, in tokens, and what it has left are at most
-- what it had and the refill of the time that has passed.
pub allow_all-spent :
    (ts : List ℕ) (b : TokenBucket)
    → Ascending b.last_check ts
    → (b.last_check ≤ (allow_all ts b).1.last_check)
      × ((allow_all ts b).0 * token + (allow_all ts b).1.bucket
          ≤ b.bucket + ((allow_all ts b).1.last_check - b.last_check) * b.tokens_per_sec)
unfolding allow_all
allow_all-spent [] b h = (omega arith, omega arith)
allow_all-spent (t ∷ ts) b (h, hs) =
    let after = allow-IsAfter t b in
    let c = (allow t b).1 in
    let later = allow_all-spent ts c (subst (λ n. Ascending n ts) (sym after.time) hs) in
    let to = (allow_all ts c).1.last_check in
    let reached : t ≤ to = subst (λ n. n ≤ to) after.time (later.0) in
    let first : one_if (allow t b).0 * token + c.bucket
        ≤ b.bucket + (t - b.last_check) * b.tokens_per_sec =
      subst (λ n. n ≤ b.bucket + (t - b.last_check) * b.tokens_per_sec) (sym (allow-balance t b))
        (capped-le b.max_tokens_balance (b.bucket + (t - b.last_check) * b.tokens_per_sec)) in
    let rest : (allow_all ts c).0 * token + (allow_all ts c).1.bucket
        ≤ c.bucket + (to - t) * b.tokens_per_sec =
      rest_of t b c ((allow_all ts c).0 * token + (allow_all ts c).1.bucket) to after (later.1) in
    (
      omega arith,
      spent_step (one_if (allow t b).0) (allow_all ts c).0 (allow_all ts c).1.bucket c.bucket
          b.bucket b.last_check t to b.tokens_per_sec h reached first rest,
    )

capped-most : (m n : ℕ) → capped (some m) n ≤ m
capped-most m n = ground arith

burst_step :
    (one count left balance most refill : ℕ)
    → one * token + balance ≤ most
    → count * token + left ≤ balance + refill
    → (one + count) * token ≤ most + refill
burst_step one count left balance most refill h k = omega arith

-- A bucket with a maximum balance allows, from its first call on, at most that maximum and the refill
-- of the time since that call, when the clock does not go back: whatever it started with and however
-- long it was idle.
pub allow_all-burst :
    (t : ℕ) (ts : List ℕ) (b : TokenBucket) (most : ℕ)
    → b.max_tokens_balance ≡ some most
    → Ascending t ts
    → (allow_all (t ∷ ts) b).0 * token
      ≤ most + ((allow_all (t ∷ ts) b).1.last_check - t) * b.tokens_per_sec
unfolding allow_all
allow_all-burst t ts b most e hs =
    let after = allow-IsAfter t b in
    let c = (allow t b).1 in
    let later = allow_all-spent ts c (subst (λ n. Ascending n ts) (sym after.time) hs) in
    let to = (allow_all ts c).1.last_check in
    let balance = b.bucket + (t - b.last_check) * b.tokens_per_sec in
    let first : one_if (allow t b).0 * token + c.bucket ≤ most =
      subst (λ n. n ≤ most) (sym (allow-balance t b))
        (subst (λ o. capped o balance ≤ most) (sym e) (capped-most most balance)) in
    burst_step (one_if (allow t b).0) (allow_all ts c).0 (allow_all ts c).1.bucket c.bucket most
      ((to - t) * b.tokens_per_sec) first
      (rest_of t b c ((allow_all ts c).0 * token + (allow_all ts c).1.bucket) to after (later.1))
