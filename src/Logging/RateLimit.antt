-- ===== src/Logging/RateLimit.antt =====
-- logging/ratelimit.go: TokenBucket and rateLimitHandler. Times are nanoseconds, and balances count
-- billionths of a token, so that the refill is a product of natural numbers, which a float64 rounds.
use fit_go.Base.{
  ℕ, ◌+◌, ◌-◌, ◌*◌, Bool, true, false, not, ◌&&◌, List, [], ◌∷◌, Option, none, some, if◌then◌else◌,
  ltb, leb, ℤ, ltb_ℤ,
}

abbrev pub token : ℕ
token = 1000000000

-- A balance without a maximum has none.
pub record TokenBucket : Type 0 where
  pub tokens_per_sec : ℕ
  pub max_tokens_balance : Option ℕ
  pub bucket : ℕ
  pub last_check : ℕ

pub record TokenBucketConfig : Type 0 where
  pub tokens_per_sec : ℕ
  pub starting_tokens : ℕ
  pub max_tokens_balance : ℕ

unfoldable pub new_token_bucket : TokenBucketConfig → ℕ → TokenBucket
new_token_bucket config now = record {
  tokens_per_sec = config.tokens_per_sec;
  max_tokens_balance =
      if leb config.max_tokens_balance 0 then none else some (config.max_tokens_balance * token);
  bucket = config.starting_tokens * token;
  last_check = now;
}

abbrev pub capped : Option ℕ → ℕ → ℕ
capped none balance = balance
capped (some most) balance = if ltb most balance then most else balance

-- The balance after the refill and the cap.
abbrev pub refilled : ℕ → TokenBucket → ℕ
refilled current b =
    capped b.max_tokens_balance (b.bucket + (current - b.last_check) * b.tokens_per_sec)

abbrev pub with_balance : ℕ → ℕ → TokenBucket → TokenBucket
with_balance current balance b = record b { bucket = balance; last_check = current }

-- TokenBucket.Allow, at the time `current`.
unfoldable pub allow : ℕ → TokenBucket → Bool × TokenBucket
allow current b =
    if ltb (refilled current b) token
    then (false, with_balance current (refilled current b) b)
    else (true, with_balance current (refilled current b - token) b)

-- rateLimitHandler, without the handler that it wraps: the buckets of levels, and the default one.
pub record RateLimitHandler : Type 0 where
  pub buckets : List (ℤ × TokenBucket)
  pub default_bucket : Option TokenBucket

abbrev same_level : ℤ → ℤ → Bool
same_level a b = not (ltb_ℤ a b) && not (ltb_ℤ b a)

abbrev new_default : Option TokenBucketConfig → ℕ → Option TokenBucket
new_default none now = none
new_default (some config) now = some (new_token_bucket config now)

unfoldable pub new_buckets : List (ℤ × TokenBucketConfig) → ℕ → List (ℤ × TokenBucket)
new_buckets [] now = []
new_buckets ((level, config) ∷ levels) now =
    (level, new_token_bucket config now) ∷ new_buckets levels now

-- NewRateLimitHandler
unfoldable pub new_rate_limit_handler :
    List (ℤ × TokenBucketConfig) → Option TokenBucketConfig → ℕ → RateLimitHandler
new_rate_limit_handler levels default now = record {
  buckets = new_buckets levels now;
  default_bucket = new_default default now;
}

-- The bucket of a level, if there is one: its decision, and the buckets with it changed in its place.
unfoldable pub allow_level : ℤ → ℕ → List (ℤ × TokenBucket) → Option (Bool × List (ℤ × TokenBucket))
allow_level level current [] = none
allow_level level current ((l, b) ∷ rest) =
    let later = allow_level level current rest in
    if same_level l level
    then some ((allow current b).0, (l, (allow current b).1) ∷ rest)
    else elim later [ none ↦ none | some (decision, changed) ↦ some (decision, (l, b) ∷ changed) ]

abbrev allow_default : ℕ → RateLimitHandler → Option TokenBucket → Bool × RateLimitHandler
allow_default current h none = (true, h)
allow_default current h (some b) =
    ((allow current b).0, record h { default_bucket = some (allow current b).1 })

abbrev decided :
    ℕ → RateLimitHandler → Option (Bool × List (ℤ × TokenBucket)) → Bool × RateLimitHandler
decided current h (some (decision, changed)) = (decision, record h { buckets = changed })
decided current h none = allow_default current h h.default_bucket

-- rateLimitHandler.allow, which says whether Handle passes a record of the level on.
unfoldable pub allow_record : ℤ → ℕ → RateLimitHandler → Bool × RateLimitHandler
allow_record level current h = decided current h (allow_level level current h.buckets)
