-- ===== src/RateLimit/Refill.antt =====
-- What a refill and an acquisition do to one bucket.
use native.Mathlib.Nat.{div-add-mod, mod-lt, div-le_self}
use c_item.Base.{
  ℕ, ◌+◌, ◌*◌, ◌/◌, ◌%◌, ◌-◌, ◌^◌, ◌≤◌, ◌<◌, ◌≡◌, sym, some, ◌↔◌, min, max, false, arith, u64,
  sub_u64, inl, inr, Bool-cases, leb, if◌then◌else◌, sub_u64_exact,
}
use c_item.Config.{RateLimitConfig}
use c_item.RateLimit.{
  TokenBucket, ceil_divide, refill_ticks, refill, spend, try_acquire, make_bucket, units_per_token,
}

div_le_of_le_mul : (n d q r t : ℕ) → n ≡ d * q + r → r < d → n ≤ t * d → q ≤ t
div_le_of_le_mul n d q r t e h k = grind arith

div_lt_of_le_mul : (n d q r t : ℕ) → n ≡ d * q + r → r < d → 0 < r → n ≤ t * d → q < t
div_lt_of_le_mul n d q r t e h p k = grind arith

le_mul_of_div_le : (n d q r t : ℕ) → n ≡ d * q + r → r ≡ 0 → q ≤ t → n ≤ t * d
le_mul_of_div_le n d q r t e h k = grind arith

le_mul_of_div_lt : (n d q r t : ℕ) → n ≡ d * q + r → r < d → q < t → n ≤ t * d
le_mul_of_div_lt n d q r t e h k = grind arith

pub le_mul_of_ceil_divide-le : (n d t : ℕ) → 0 < d → n < 2 ^ 63 → ceil_divide n d ≤ t → n ≤ t * d
unfolding ceil_divide
le_mul_of_ceil_divide-le n d t p h k = ground (
  arith,
  sym (div-add-mod n d),
  mod-lt n p,
  div-le_self n d,
  le_mul_of_div_le n d (n / d) (n % d) t (sym (div-add-mod n d)),
  le_mul_of_div_lt n d (n / d) (n % d) t (sym (div-add-mod n d)) (mod-lt n p),
)

pub ceil_divide_le_of_le_mul : (n d t : ℕ) → 0 < d → n < 2 ^ 63 → n ≤ t * d → ceil_divide n d ≤ t
unfolding ceil_divide
ceil_divide_le_of_le_mul n d t p h k = ground (
  arith,
  mod-lt n p,
  div-le_self n d,
  div_le_of_le_mul n d (n / d) (n % d) t (sym (div-add-mod n d)) (mod-lt n p) k,
  div_lt_of_le_mul n d (n / d) (n % d) t (sym (div-add-mod n d)) (mod-lt n p),
)

-- `ceil_divide` is the ceiling, where the quotient cannot wrap.
pub ceil_divide_le_iff : (n d t : ℕ) → 0 < d → n < 2 ^ 63 → (ceil_divide n d ≤ t) ↔ (n ≤ t * d)
ceil_divide_le_iff n d t p h =
    (le_mul_of_ceil_divide-le n d t p h, ceil_divide_le_of_le_mul n d t p h)

-- What the constructor checks, and what every method keeps.
pub record IsValid (b : TokenBucket) : Type 0 where
  pub rate_low : 1 ≤ b.config.requests_per_second
  pub rate_high : b.config.requests_per_second ≤ 1000000
  pub burst_low : 1 ≤ b.config.burst
  pub burst_high : b.config.burst ≤ 1000000
  pub capacity_exact : b.capacity ≡ b.config.burst * units_per_token
  pub units_within : b.units ≤ b.capacity
  pub clock_fits : b.last_refill < 2 ^ 64

pub make_bucket-IsValid :
    (c : RateLimitConfig) (now : ℕ) {b : TokenBucket}
    → now < 2 ^ 64
    → make_bucket c now ≡ some b
    → IsValid b
unfolding make_bucket
make_bucket-IsValid c now t h = ground arith

-- The ideal refill: units at the configured rate, up to the capacity.
abbrev pub ideal_units : TokenBucket → ℕ → ℕ
ideal_units b ticks = min b.capacity (b.units + ticks * b.config.requests_per_second)

full_of_burst :
    (burst ticks r u : ℕ)
    → burst * units_per_token ≤ ticks
    → 1 ≤ r
    → min (burst * units_per_token) (u + ticks * r) ≡ burst * units_per_token
full_of_burst burst ticks r u h k = grind arith

short_of_missing :
    (cap u ticks r : ℕ)
    → u ≤ cap
    → cap ≤ 1000000000000000
    → ticks * r < cap - u
    → u64 (u + u64 (ticks * r)) ≡ min cap (u + ticks * r)
short_of_missing cap u ticks r h k l = omega arith

-- The missing units, as the unsigned subtraction gives them.
missing_lem : (b : TokenBucket) → IsValid b → sub_u64 b.capacity b.units ≡ b.capacity - b.units
missing_lem b v = omega arith

refill_ticks-units :
    (b : TokenBucket) (now ticks : ℕ)
    → IsValid b
    → (refill_ticks b now ticks).units ≡ ideal_units b ticks
unfolding refill_ticks
refill_ticks-units b now ticks v = rw (missing_lem b v) (
    ground (
      arith,
      full_of_burst b.config.burst ticks b.config.requests_per_second b.units,
      short_of_missing b.capacity b.units ticks b.config.requests_per_second v.units_within,
      le_mul_of_ceil_divide-le (b.capacity - b.units) b.config.requests_per_second ticks v.rate_low,
      ceil_divide_le_of_le_mul (b.capacity - b.units) b.config.requests_per_second ticks v.rate_low,
    ))

refill_ticks-config :
    (b : TokenBucket) (now ticks : ℕ)
    → ((refill_ticks b now ticks).config ≡ b.config)
      × ((refill_ticks b now ticks).capacity ≡ b.capacity)
      × ((refill_ticks b now ticks).last_refill ≡ now)
unfolding refill_ticks
refill_ticks-config b now ticks = ground arith

lt_of_not_leb : (a b : ℕ) → leb a b ≡ false → b < a
lt_of_not_leb a b h = ground arith

-- A refill reaches exactly the ideal units for the time passed, and moves the clock forward only.
pub refill_exact :
    (b : TokenBucket) (now : ℕ)
    → IsValid b
    → now < 2 ^ 64
    → ((refill b now).units ≡ ideal_units b (now - b.last_refill))
      × ((refill b now).last_refill ≡ max now b.last_refill)
      × ((refill b now).config ≡ b.config)
      × ((refill b now).capacity ≡ b.capacity)
unfolding refill
refill_exact b now v h = elim (Bool-cases (leb now b.last_refill)) [
  | inl e ↦ rw (e, if◌then◌else◌) (ground arith)
  | inr e ↦
      rw
        (
          e,
          if◌then◌else◌,
          sub_u64_exact now b.last_refill (omega (arith, lt_of_not_leb now b.last_refill e)) h,
        )
        (ground (
          arith,
          refill_ticks-units b now (now - b.last_refill) v,
          refill_ticks-config b now (now - b.last_refill),
        ))
]

pub refill-IsValid : (b : TokenBucket) (now : ℕ) → IsValid b → now < 2 ^ 64 → IsValid (refill b now)
refill-IsValid b now v h = ground (arith, refill_exact b now v h)

spend-IsValid : (b : TokenBucket) → IsValid b → IsValid (spend b).0
unfolding spend
spend-IsValid b v = ground arith

pub try_acquire-IsValid :
    (b : TokenBucket) (now : ℕ) → IsValid b → now < 2 ^ 64 → IsValid (try_acquire b now).0
unfolding try_acquire
try_acquire-IsValid b now v h = spend-IsValid (refill b now) (refill-IsValid b now v h)
