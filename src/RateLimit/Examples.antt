-- ===== src/RateLimit/Examples.antt =====
-- Runs of the buckets, and the theorems at concrete inputs.
use c_item.Base.{ℕ, ◌+◌, ◌*◌, ◌-◌, ◌≤◌, ◌≡◌, refl, true, false, none, some, [], ◌∷◌, arith}
use c_item.Base.Text.{codes}
use c_item.Config.{RateLimitConfig, RouteConfig}
use c_item.RateLimit.{
  TokenBucket, RouteRateLimits, ceil_divide, make_bucket, refill_ticks, refill, retry_after, spend,
  try_acquire, route_bucket, make_limits, units_per_token,
}
use c_item.RateLimit.Refill.{IsValid, refill_exact, try_acquire-IsValid}
use c_item.RateLimit.Window.{try_acquire_retry, run, run_bounded}
use c_item.RateLimit.Routes.{AllValid, make_limits-AllValid}

abbrev two_a_second : RateLimitConfig
two_a_second = record { requests_per_second = 2; burst = 3 }

-- One token spent, a quarter of a second ago.
abbrev used_bucket : TokenBucket
used_bucket = record {
  config = two_a_second;
  capacity = 3000000000;
  units = 200000000;
  last_refill = 1000;
}

used_bucket-IsValid : IsValid used_bucket
used_bucket-IsValid = omega arith

abbrev limited_route : RouteConfig
limited_route = record {
  prefix = codes "/a";
  upstreams = [];
  strip_prefix = false;
  rate_limit = some two_a_second;
  health_check = none;
  auth = none;
  stream_response = false;
}

abbrev open_route : RouteConfig
open_route = record limited_route { rate_limit = none }

abbrev limits : RouteRateLimits
limits = none ∷ some used_bucket ∷ []

granted_after_half_second : (try_acquire used_bucket 400001000).1.allowed ≡ true
unfolding try_acquire spend refill refill_ticks ceil_divide
granted_after_half_second = refl

refused_at_once :
    (try_acquire used_bucket 2000).1 ≡ record { allowed = false; retry_after_seconds = 1 }
unfolding try_acquire spend refill refill_ticks ceil_divide retry_after
refused_at_once = refl

bad_rate : make_bucket (record { requests_per_second = 0; burst = 3 }) 5 ≡ none
unfolding make_bucket
bad_rate = refl

burst_then_refusal :
    (run (record used_bucket { units = 3000000000 }) (1000 ∷ 1000 ∷ 1000 ∷ 1001 ∷ [])).1 ≡ 3
unfolding run try_acquire spend refill refill_ticks ceil_divide retry_after
burst_then_refusal = refl

refill_exact_example :
    ((refill used_bucket 2000).units ≡ 200002000)
    × ((refill used_bucket 2000).last_refill ≡ 2000)
    × ((refill used_bucket 2000).config ≡ two_a_second)
    × ((refill used_bucket 2000).capacity ≡ 3000000000)
refill_exact_example = refill_exact used_bucket 2000 used_bucket-IsValid (omega arith)

try_acquire-IsValid_example : IsValid (try_acquire used_bucket 2000).0
try_acquire-IsValid_example = try_acquire-IsValid used_bucket 2000 used_bucket-IsValid (omega arith)

try_acquire_retry_example :
    (try_acquire (try_acquire used_bucket 2000).0 1000002000).1.allowed ≡ true
unfolding try_acquire spend refill refill_ticks ceil_divide retry_after
try_acquire_retry_example =
    try_acquire_retry used_bucket 2000 1000002000 used_bucket-IsValid (omega arith) (omega arith)
      refl (omega arith)

run_bounded_example :
    (run used_bucket (2000 ∷ 500000000 ∷ [])).1 * units_per_token
    ≤ 3 * units_per_token + ((run used_bucket (2000 ∷ 500000000 ∷ [])).0.last_refill - 1000) * 2
run_bounded_example =
    run_bounded used_bucket (2000 ∷ 500000000 ∷ []) used_bucket-IsValid (omega arith)

make_limits-AllValid_example :
    AllValid (none ∷ some (record used_bucket { units = 3000000000 }) ∷ []) × (◌≡◌ {A = ℕ} 2 2)
unfolding make_limits route_bucket make_bucket
make_limits-AllValid_example =
    make_limits-AllValid (open_route ∷ limited_route ∷ []) 1000
      {ss = none ∷ some (record used_bucket { units = 3000000000 }) ∷ []} (omega arith) refl
