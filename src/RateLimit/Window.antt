-- ===== src/RateLimit/Window.antt =====
-- What the bucket promises its clients: when a call is granted, what a refusal says, and how many
-- calls a stretch of time can grant.
use c_item.Base.{
  ℕ, ◌+◌, ◌*◌, ◌-◌, ◌^◌, ◌≤◌, ◌<◌, ◌≡◌, ◌↔◌, min, max, true, false, List, [], ◌∷◌, arith,
  if◌then◌else◌, sub_u64_exact, ap, ◌∙◌,
}
use c_item.Config.{RateLimitConfig}
use c_item.RateLimit.{
  TokenBucket, RateLimitDecision, refill, retry_after, spend, try_acquire, ceil_divide,
  units_per_token,
}
use c_item.RateLimit.Refill.{
  IsValid, ideal_units, refill_exact, refill-IsValid, try_acquire-IsValid, le_mul_of_ceil_divide-le,
  ceil_divide_le_of_le_mul,
}

spend-allowed : (b : TokenBucket) → ((spend b).1.allowed ≡ true) ↔ (units_per_token ≤ b.units)
unfolding spend
spend-allowed b = ground arith

-- A call is granted exactly when the units of the ideal refill make up a token.
pub try_acquire-allowed :
    (b : TokenBucket) (now : ℕ)
    → IsValid b
    → now < 2 ^ 64
    → ((try_acquire b now).1.allowed ≡ true)
      ↔ (units_per_token ≤ ideal_units b (now - b.last_refill))
unfolding try_acquire
try_acquire-allowed b now v h = ground (arith, spend-allowed (refill b now), refill_exact b now v h)

abbrev wait_nanoseconds : TokenBucket → ℕ
wait_nanoseconds b = ceil_divide (units_per_token - b.units) b.config.requests_per_second

-- The wait is the least time that makes up the missing units.
wait_nanoseconds_bounds :
    (b : TokenBucket)
    → IsValid b
    → b.units < units_per_token
    → (1 ≤ wait_nanoseconds b)
      × (wait_nanoseconds b ≤ units_per_token)
      × (units_per_token ≤ b.units + wait_nanoseconds b * b.config.requests_per_second)
wait_nanoseconds_bounds b v h = grind (
  arith,
  le_mul_of_ceil_divide-le (units_per_token - b.units) b.config.requests_per_second 0 v.rate_low,
  le_mul_of_ceil_divide-le (units_per_token - b.units) b.config.requests_per_second
      (wait_nanoseconds b) v.rate_low,
  ceil_divide_le_of_le_mul (units_per_token - b.units) b.config.requests_per_second units_per_token
      v.rate_low,
)

ceil_divide_one : (w : ℕ) → 1 ≤ w → w ≤ units_per_token → ceil_divide w units_per_token ≡ 1
ceil_divide_one w h k = ground (
  arith,
  le_mul_of_ceil_divide-le w units_per_token 0 (omega arith) (omega arith),
  ceil_divide_le_of_le_mul w units_per_token 1 (omega arith) (omega arith),
)

-- A refusal asks for one second: no rate is below a token a second.
retry_after_one : (b : TokenBucket) → IsValid b → b.units < units_per_token → retry_after b ≡ 1
unfolding retry_after
retry_after_one b v h =
    rw (sub_u64_exact units_per_token b.units (omega arith) (omega arith))
      (ground (arith, wait_nanoseconds_bounds b v h, ceil_divide_one (wait_nanoseconds b)))

spend-refused :
    (b : TokenBucket)
    → IsValid b
    → (spend b).1.allowed ≡ false
    → (b.units < units_per_token) × ((spend b).0 ≡ b) × ((spend b).1.retry_after_seconds ≡ 1)
unfolding spend
spend-refused b v h = ground (arith, retry_after_one b v)

-- A call that is refused changes no units beyond the refill, and names a wait of one second.
pub try_acquire-refused :
    (b : TokenBucket) (now : ℕ)
    → IsValid b
    → now < 2 ^ 64
    → (try_acquire b now).1.allowed ≡ false
    → ((refill b now).units < units_per_token)
      × ((try_acquire b now).0 ≡ refill b now)
      × ((try_acquire b now).1.retry_after_seconds ≡ 1)
unfolding try_acquire
try_acquire-refused b now v h e = spend-refused (refill b now) (refill-IsValid b now v h) e

full_after_second :
    (cap u t r burst : ℕ)
    → cap ≡ burst * units_per_token
    → 1 ≤ burst
    → 1 ≤ r
    → units_per_token ≤ t
    → units_per_token ≤ min cap (u + t * r)
full_after_second cap u t r burst e h k l = grind arith

-- After a refusal, a call that waits for the seconds it was told, with no other call between, is
-- granted.
pub try_acquire_retry :
    (b : TokenBucket) (now later : ℕ)
    → IsValid b
    → now < 2 ^ 64
    → later < 2 ^ 64
    → (try_acquire b now).1.allowed ≡ false
    → max now b.last_refill + (try_acquire b now).1.retry_after_seconds * units_per_token ≤ later
    → (try_acquire (try_acquire b now).0 later).1.allowed ≡ true
try_acquire_retry b now later v h k e w =
    let (low, same, second) = try_acquire-refused b now v h e in
    let r = refill b now in
    let (_, clock, _, _) = refill_exact b now v h in
    let rv : IsValid r = refill-IsValid b now v h in
    let passed : units_per_token ≤ later - r.last_refill =
      omega (arith, clock, ap (λ (n : ℕ). n * units_per_token) second) in
    rw same (
      (try_acquire-allowed r later rv k).1 (
        full_after_second r.capacity r.units (later - r.last_refill) r.config.requests_per_second
          r.config.burst rv.capacity_exact rv.burst_low rv.rate_low passed))

-- Calls at the given times, and how many of them were granted.
unfoldable pub run : TokenBucket → List ℕ → TokenBucket × ℕ
run b [] = (b, 0)
run b (now ∷ later) =
    let (b', decision) = try_acquire b now in
    let (b'', granted) = run b' later in (b'', if decision.allowed then granted + 1 else granted)

abbrev pub AllFit : List ℕ → Type 0
AllFit [] = Unit {0}
AllFit (now ∷ later) = (now < 2 ^ 64) × AllFit later

abbrev cost : RateLimitDecision → ℕ
cost d = if d.allowed then units_per_token else 0

spend_accounts :
    (b : TokenBucket)
    → ((spend b).0.units + cost (spend b).1 ≡ b.units)
      × ((spend b).0.last_refill ≡ b.last_refill)
      × ((spend b).0.config ≡ b.config)
unfolding spend
spend_accounts b = ground arith

-- The tokens that a call spends come out of the units and the time that passed.
try_acquire_accounts :
    (b : TokenBucket) (now : ℕ)
    → IsValid b
    → now < 2 ^ 64
    → ((try_acquire b now).0.units + cost (try_acquire b now).1
        ≤ b.units
          + ((try_acquire b now).0.last_refill - b.last_refill) * b.config.requests_per_second)
      × (b.last_refill ≤ (try_acquire b now).0.last_refill)
      × ((try_acquire b now).0.config ≡ b.config)
unfolding try_acquire
try_acquire_accounts b now v h =
    let (units, clock, config, _) = refill_exact b now v h in
    let (spent, kept, same) = spend_accounts (refill b now) in
    let passed : (spend (refill b now)).0.last_refill - b.last_refill ≡ now - b.last_refill =
      omega (arith, clock, kept) in
    (rw passed (omega (arith, units, spent)), omega (arith, clock, kept), same ∙ config)

run-IsValid :
    (b : TokenBucket) (times : List ℕ) → IsValid b → AllFit times → IsValid (run b times).0
unfolding run
run-IsValid b [] v h = v
run-IsValid b (now ∷ later) v h =
    run-IsValid (try_acquire b now).0 later (try_acquire-IsValid b now v h.0) h.1

sum_accounts :
    (u u' u'' t t' t'' r c g : ℕ)
    → u' + c ≤ u + (t' - t) * r
    → u'' + g ≤ u' + (t'' - t') * r
    → t ≤ t'
    → t' ≤ t''
    → u'' + (c + g) ≤ u + (t'' - t) * r
sum_accounts u u' u'' t t' t'' r c g h k l m = grind arith

count_cost :
    (d : RateLimitDecision) (g : ℕ)
    → (if d.allowed then g + 1 else g) * units_per_token ≡ cost d + g * units_per_token
count_cost d g = ground arith

run_accounts :
    (b : TokenBucket) (times : List ℕ)
    → IsValid b
    → AllFit times
    → ((run b times).0.units + (run b times).1 * units_per_token
        ≤ b.units + ((run b times).0.last_refill - b.last_refill) * b.config.requests_per_second)
      × (b.last_refill ≤ (run b times).0.last_refill)
unfolding run
run_accounts b [] v h = (omega arith, omega arith)
run_accounts b (now ∷ later) v h =
    let step = try_acquire b now in
    let (here, forward, same) = try_acquire_accounts b now v h.0 in
    let (rest, onward) = run_accounts step.0 later (try_acquire-IsValid b now v h.0) h.1 in
    (
      rw (count_cost step.1 (run step.0 later).1) (
          sum_accounts b.units step.0.units (run step.0 later).0.units b.last_refill
            step.0.last_refill (run step.0 later).0.last_refill b.config.requests_per_second
            (cost step.1) ((run step.0 later).1 * units_per_token) here
            (rw (ap (λ (c : RateLimitConfig). c.requests_per_second) same) at rest) forward onward),
      omega (arith, forward, onward),
    )

-- Whatever the calls' times, the grants of a stretch are at most the burst and what the rate gives
-- for the time that the bucket's clock moved.
pub run_bounded :
    (b : TokenBucket) (times : List ℕ)
    → IsValid b
    → AllFit times
    → (run b times).1 * units_per_token
      ≤ b.config.burst * units_per_token
        + ((run b times).0.last_refill - b.last_refill) * b.config.requests_per_second
run_bounded b times v h = omega (arith, run_accounts b times v h)
