-- ===== src/Config/Durations.antt =====
-- config/schema.go: durations given in milliseconds.
use fit_go.Base.{
  suc, ◌≡◌, ◌*◌, ◌-◌, ◌^◌, Option, none, some, if◌then◌else◌, leb, ℤ, pos, negsuc, max_int64, arith,
}
use fit_go.Config.Values.{scale_milliseconds}

-- The product, when an int64 can hold it.
unfoldable pub exact_scale : ℤ → Option ℤ
exact_scale (pos n) = if leb (n * 1000000) max_int64 then some (pos (n * 1000000)) else none
exact_scale (negsuc n) =
    if leb (suc n * 1000000) (2 ^ 63) then some (negsuc (suc n * 1000000 - 1)) else none

-- A number of milliseconds is accepted exactly when its nanoseconds fit an int64, and they are then
-- the result: the test before the multiplication refuses no other number and lets no overflow pass.
pub scale_milliseconds_exact : (n : ℤ) → scale_milliseconds n ≡ exact_scale n
unfolding scale_milliseconds exact_scale
scale_milliseconds_exact (pos n) = ground arith
scale_milliseconds_exact (negsuc n) = ground arith
