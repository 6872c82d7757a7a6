-- ===== src/Logging/Tests.antt =====
-- logging/ratelimit.go: the debug preset under a burst.
use fit_go.Base.{ℕ, ◌+◌, ◌-◌, ◌*◌, ◌≤◌, ◌≡◌, refl, true, List, [], ◌∷◌, none, some, negsuc, arith}
use fit_go.Logging.RateLimit.{
  TokenBucket, TokenBucketConfig, token, new_token_bucket, allow, new_rate_limit_handler,
  new_buckets, allow_level, allow_record,
}
use fit_go.Logging.Rates.{allow_all, allow_all-burst}

-- One token in a second, a burst of two, three to start with.
abbrev slow : TokenBucket
slow = record {
  tokens_per_sec = 1;
  max_tokens_balance = some (2 * token);
  bucket = 3 * token;
  last_check = 0;
}

abbrev calls : List ℕ
calls = 5 ∷ 6 ∷ 1000000006 ∷ []

allow_all-burst_example :
    (allow_all (4 ∷ calls) slow).0 * token
    ≤ 2 * token + ((allow_all (4 ∷ calls) slow).1.last_check - 4) * 1
allow_all-burst_example =
    allow_all-burst 4 calls slow (2 * token) refl (omega arith, (omega arith, (omega arith, tt)))

-- The third of the calls is denied: the tokens to start with are capped.
calls_allowed : (allow_all (4 ∷ calls) slow).0 ≡ 3
unfolding allow_all allow
calls_allowed = refl

abbrev idle_config : TokenBucketConfig
idle_config = record { tokens_per_sec = 0; starting_tokens = 1; max_tokens_balance = 0 }

-- Without a refill a bucket still spends what it starts with.
starting_token : (allow 9 (new_token_bucket idle_config 0)).0 ≡ true
unfolding allow new_token_bucket
starting_token = refl

debug_record :
    (allow_record (negsuc 3) 9 (new_rate_limit_handler ((negsuc 3, idle_config) ∷ []) none 0)).0
    ≡ true
unfolding allow_record allow_level new_rate_limit_handler new_buckets new_token_bucket allow
debug_record = refl
