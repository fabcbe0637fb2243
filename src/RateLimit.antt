-- ===== src/RateLimit.antt =====
-- src/rate_limit.hpp and src/rate_limit.cpp: the token bucket of one route, and the buckets of
-- all routes. A method that changes the bucket returns the new bucket.
pub mod Refill
pub mod Window
pub mod Routes
mod Examples
use c_item.Base.{
  ℕ, ◌+◌, ◌*◌, ◌/◌, ◌%◌, ◌-◌, ◌^◌, Bool, true, false, ◌||◌, Option, none, some, List, [], ◌∷◌, ltb,
  leb, ◌==◌, if◌then◌else◌, u32, u64, sub_u64, get_elem?, set,
}
use c_item.Config.{RateLimitConfig, RouteConfig}

pub record RateLimitDecision : Type 0 where
  pub allowed : Bool
  pub retry_after_seconds : ℕ

abbrev pub units_per_token : ℕ
units_per_token = 1000000000

-- numerator / denominator + (numerator % denominator != 0 ? 1 : 0)
pub ceil_divide : ℕ → ℕ → ℕ
ceil_divide n d = u64 (n / d + (if n % d == 0 then 0 else 1))

pub record TokenBucket : Type 0 where
  pub config : RateLimitConfig
  pub capacity : ℕ
  pub units : ℕ
  pub last_refill : ℕ

-- The constructor; `none` is std::invalid_argument.
unfoldable pub make_bucket : RateLimitConfig → ℕ → Option TokenBucket
make_bucket c now =
    let capacity = u64 (c.burst * units_per_token) in
    if c.requests_per_second == 0
      || ltb 1000000 c.requests_per_second
      || c.burst == 0
      || ltb 1000000 c.burst
    then none
    else some (record { config = c; capacity = capacity; units = capacity; last_refill = now })

-- The part of `refill` behind its first test; `ticks` is the unsigned difference of the clocks.
unfoldable pub refill_ticks : TokenBucket → ℕ → ℕ → TokenBucket
refill_ticks b now ticks =
    let full = record b { units = b.capacity; last_refill = now } in
    if leb (b.config.burst * units_per_token) ticks
    then full
    else if leb (ceil_divide (sub_u64 b.capacity b.units) b.config.requests_per_second) ticks
    then full
    else record b {
      units = u64 (b.units + u64 (ticks * b.config.requests_per_second));
      last_refill = now;
    }

unfoldable pub refill : TokenBucket → ℕ → TokenBucket
refill b now = if leb now b.last_refill then b else refill_ticks b now (sub_u64 now b.last_refill)

pub retry_after : TokenBucket → ℕ
retry_after b = u32 (
    ceil_divide (ceil_divide (sub_u64 units_per_token b.units) b.config.requests_per_second)
      units_per_token)

-- The part of `try_acquire` behind the refill.
unfoldable pub spend : TokenBucket → TokenBucket × RateLimitDecision
spend b =
    if leb units_per_token b.units
    then (
      record b { units = b.units - units_per_token },
      record { allowed = true; retry_after_seconds = 0 },
    )
    else (b, record { allowed = false; retry_after_seconds = retry_after b })

unfoldable pub try_acquire : TokenBucket → ℕ → TokenBucket × RateLimitDecision
try_acquire b now = spend (refill b now)

-- RouteRateLimits: a bucket for each route that has a limit.
abbrev pub RouteRateLimits : Type 0
RouteRateLimits = List (Option TokenBucket)

-- `none` is the exception of a bucket's constructor.
unfoldable pub route_bucket : Option RateLimitConfig → ℕ → Option (Option TokenBucket)
unfolding make_bucket
route_bucket none now = some none
route_bucket (some c) now = elim (make_bucket c now) [ none ↦ none | some b ↦ some (some b) ]

unfoldable pub make_limits : List RouteConfig → ℕ → Option RouteRateLimits
unfolding route_bucket
make_limits [] now = some []
make_limits (r ∷ rs) now =
    let rest = make_limits rs now in
    elim (route_bucket r.rate_limit now) [
      | none ↦ none
      | some b ↦ elim rest [ none ↦ none | some bs ↦ some (b ∷ bs) ]
    ]

unfoldable pub acquire_slot :
    RouteRateLimits → ℕ → ℕ → Option TokenBucket → RouteRateLimits × RateLimitDecision
acquire_slot buckets i now none = (buckets, record { allowed = true; retry_after_seconds = 0 })
acquire_slot buckets i now (some b) =
    let (b', decision) = try_acquire b now in (set buckets i (some b'), decision)

-- `none` is the exception of `at`.
unfoldable pub route_try_acquire :
    RouteRateLimits → ℕ → ℕ → Option (RouteRateLimits × RateLimitDecision)
unfolding acquire_slot
route_try_acquire buckets i now = elim (get_elem? buckets i) [
  | none ↦ none
  | some slot ↦ some (acquire_slot buckets i now slot)
]
