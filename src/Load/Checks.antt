-- ===== src/Load/Checks.antt =====
-- The optional settings of a route that is accepted are valid.
use c_item.Base.{
  ℕ, ◌≤◌, ◌≡◌, subst, ap, true, false, not, Option, none, some, List, [], ◌∷◌, ltb, ◌||◌, arith,
}
use c_item.Base.Text.{all_bytes}
use c_item.Config.{RateLimitConfig, HealthCheckConfig}
use c_item.Load.Result.{Result, ok, Post-ok, bind-eq-ok, throw_if-passed, ok_inj}
use c_item.Load.Bounds.{OneTo}
use c_item.Load.Host.{starts_with_byte}
use c_item.Load.Json.{Json, Members}
use c_item.Load.Upstreams.{route_integer-Post, integer_or-Post}
use c_item.Load.Settings.{
  optionally, read_rate_limit, path_byte, health_integer, read_health_check, health_path,
  health_numbers, parse_rate_limit, parse_health_check,
}
use c_item.Load.Valid.{Optional, RateLimitIsValid, HealthCheckIsValid}

pub optionally-valid {ℓ κ} :
    {A : Type ℓ} (P : A → Type κ) (read : Json → Result A)
    → ((v : Json) (a : A) → read v ≡ ok a → P a)
    → (o : Option Json) (r : Option A) → optionally read o ≡ ok r
    → Optional P r
unfolding optionally
optionally-valid P read h none r e = subst (Optional P) (ok_inj e) tt
optionally-valid P read h (some v) r e =
    let (a, here, e) = bind-eq-ok _ _ e in subst (Optional P) (ok_inj e) (h v a here)

read_rate_limit-valid :
    (v : Json) (c : RateLimitConfig) → read_rate_limit v ≡ ok c → RateLimitIsValid c
unfolding read_rate_limit
read_rate_limit-valid v c e =
    let (limit, got, e) = bind-eq-ok _ _ e in
    let (two, got, e) = bind-eq-ok _ _ e in
    let (requests, got, e) = bind-eq-ok _ _ e in
    let (burst, got, e) = bind-eq-ok _ _ e in
    let (r, rate, e) = bind-eq-ok _ _ e in
    let (b, size, e) = bind-eq-ok _ _ e in
    subst RateLimitIsValid (ok_inj e) (record {
      rate_valid = Post-ok (OneTo 1000000) _ (route_integer-Post requests 1000000) rate;
      burst_valid = Post-ok (OneTo 1000000) _ (route_integer-Post burst 1000000) size;
    })

abbrev Within : ℕ → ℕ → ℕ → Type 0
Within minimum maximum n = (minimum ≤ n) × (n ≤ maximum)

health_integer-valid :
    (field : List ℕ) (health : Members) (default minimum maximum n : ℕ)
    → Within 1 maximum default
    → health_integer field health default minimum maximum ≡ ok n
    → Within minimum maximum n
unfolding health_integer
health_integer-valid field health default minimum maximum n d e =
    let (number, got, e) = bind-eq-ok _ _ e in
    let (least, got', e) = bind-eq-ok _ _ e in
    let (low, high) =
      Post-ok (OneTo maximum) _ (integer_or-Post field health maximum default d) got in
    subst (Within minimum maximum) (ok_inj e) (ground (arith, throw_if-passed _ _ got'), high)

rooted_path :
    (path : List ℕ)
    → (not (starts_with_byte b'/' path) || not (all_bytes path_byte path)) ≡ false
    → ((rest : List ℕ) × (path ≡ b'/' ∷ rest)) × (all_bytes path_byte path ≡ true)
rooted_path [] e = cc
rooted_path (c ∷ path) e = ((path, ap (λ x. x ∷ path) (ground arith)), ground arith)

abbrev IsProbePath : List ℕ → Type 0
IsProbePath path = ((rest : List ℕ) × (path ≡ b'/' ∷ rest)) × (all_bytes path_byte path ≡ true)

health_path-valid :
    (health : Members) (path : List ℕ) → health_path health ≡ ok path → IsProbePath path
unfolding health_path
health_path-valid health path e =
    let (path_value, got, e) = bind-eq-ok _ _ e in
    let (read, got, e) = bind-eq-ok _ _ e in
    let (known, got, e) = bind-eq-ok _ _ e in
    let (fit, shape, e) = bind-eq-ok _ _ e in
    subst IsProbePath (ok_inj e) (rooted_path read (throw_if-passed _ _ shape))

numbers_valid :
    (path : List ℕ) (interval timeout unhealthy healthy : ℕ)
    → (rest : List ℕ) × (path ≡ b'/' ∷ rest)
    → all_bytes path_byte path ≡ true
    → Within 100 60000 interval
    → Within 50 60000 timeout
    → Within 1 10 unhealthy
    → Within 1 10 healthy
    → ltb interval timeout ≡ false
    → HealthCheckIsValid (record {
      path = path;
      interval_ms = interval;
      timeout_ms = timeout;
      unhealthy_threshold = unhealthy;
      healthy_threshold = healthy;
    })
numbers_valid path interval timeout unhealthy healthy rooted plain i (low, high) u h o = record {
  rooted = rooted;
  plain = plain;
  interval_valid = i;
  timeout_valid = (low, ground arith);
  unhealthy_valid = u;
  healthy_valid = h;
}

health_numbers-valid :
    (health : Members) (path : List ℕ) (c : HealthCheckConfig)
    → IsProbePath path
    → health_numbers health path ≡ ok c
    → HealthCheckIsValid c
unfolding health_numbers
health_numbers-valid health path c (rooted, plain) e =
    let (interval, i, e) = bind-eq-ok _ _ e in
    let (timeout, t, e) = bind-eq-ok _ _ e in
    let (unhealthy, u, e) = bind-eq-ok _ _ e in
    let (healthy, h, e) = bind-eq-ok _ _ e in
    let (order, o, e) = bind-eq-ok _ _ e in
    subst HealthCheckIsValid (ok_inj e) (
      numbers_valid path interval timeout unhealthy healthy rooted plain
        (health_integer-valid _ health 5000 100 60000 interval (omega arith, omega arith) i)
        (health_integer-valid _ health 1000 50 60000 timeout (omega arith, omega arith) t)
        (health_integer-valid _ health 3 1 10 unhealthy (omega arith, omega arith) u)
        (health_integer-valid _ health 2 1 10 healthy (omega arith, omega arith) h)
        (throw_if-passed _ _ o))

read_health_check-valid :
    (v : Json) (c : HealthCheckConfig) → read_health_check v ≡ ok c → HealthCheckIsValid c
unfolding read_health_check
read_health_check-valid v c e =
    let (health, got, e) = bind-eq-ok _ _ e in
    let (path, shape, e) = bind-eq-ok _ _ e in
    health_numbers-valid health path c (health_path-valid health path shape) e

pub parse_rate_limit-valid :
    (entry : Members) (r : Option RateLimitConfig)
    → parse_rate_limit entry ≡ ok r
    → Optional RateLimitIsValid r
unfolding parse_rate_limit
parse_rate_limit-valid entry r e =
    optionally-valid RateLimitIsValid read_rate_limit read_rate_limit-valid _ r e

pub parse_health_check-valid :
    (entry : Members) (r : Option HealthCheckConfig)
    → parse_health_check entry ≡ ok r
    → Optional HealthCheckIsValid r
unfolding parse_health_check
parse_health_check-valid entry r e =
    optionally-valid HealthCheckIsValid read_health_check read_health_check-valid _ r e
