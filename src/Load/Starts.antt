-- ===== src/Load/Starts.antt =====
-- A configuration that loads is one that the gateway can start with: it meets what the rate limits,
-- the admission, the health state and the authentication ask of their configuration.
use c_item.Base.{
  ℕ, ◌≤◌, ◌<◌, ◌^◌, ◌≡◌, refl, Option, none, some, List, [], ◌∷◌, length, Each, Each_at, arith,
  Option-cases, inl, inr,
}
use c_item.Config.{RouteConfig, RateLimitConfig, HealthCheckConfig, ApiKeyAuthConfig, AppConfig}
use c_item.RateLimit.{TokenBucket, make_bucket, route_bucket, make_limits, RouteRateLimits}
use c_item.Health.Slots.{ValidThresholds}
use c_item.Admission.{RouteProxyAdmission, make_admission}
use c_item.Admission.Outcome.{Fits}
use c_item.Admission.Kept.{make_admission-Fits}
use c_item.Load.Result.{ok}
use c_item.Load.Scalar.{Environment}
use c_item.Load.Routes.{Libraries}
use c_item.Load.App.{load_config_from_environment}
use c_item.Load.Sound.{load_config_from_environment-ConfigIsValid}
use c_item.Load.Valid.{Optional, RateLimitIsValid, HealthCheckIsValid, AuthIsValid, RouteIsValid}

make_bucket_made :
    (c : RateLimitConfig) (now : ℕ)
    → RateLimitIsValid c
    → (b : TokenBucket) × (make_bucket c now ≡ some b)
unfolding make_bucket
make_bucket_made c now v = elim (Option-cases (make_bucket c now)) [
  | inl e ↦ absurd (ground (arith, v.rate_valid, v.burst_valid))
  | inr found ↦ found
]

route_bucket_made :
    (o : Option RateLimitConfig) (now : ℕ)
    → Optional RateLimitIsValid o
    → (b : Option TokenBucket) × (route_bucket o now ≡ some b)
unfolding route_bucket
route_bucket_made none now v = (none, refl)
route_bucket_made (some c) now v =
    let (b, e) = make_bucket_made c now v in (some b, rw (e, route_bucket) refl)

make_limits_made :
    (make_address : List ℕ → Option (List ℕ)) (rs : List RouteConfig) (now : ℕ)
    → Each (RouteIsValid make_address) rs
    → (ss : RouteRateLimits) × (make_limits rs now ≡ some ss)
unfolding make_limits
make_limits_made make_address [] now v = ([], refl)
make_limits_made make_address (r ∷ rs) now v =
    let (b, e) = route_bucket_made r.rate_limit now v.0.limit_valid in
    let (bs, f) = make_limits_made make_address rs now v.1 in (b ∷ bs, rw (e, f, make_limits) refl)

-- What a route of the configuration is ready for.
pub record IsReady (r : RouteConfig) : Type 0 where
  pub some_upstream : 1 ≤ length r.upstreams
  pub few_upstreams : length r.upstreams ≤ 16
  pub thresholds : Optional ValidThresholds r.health_check
  pub keys :
      Optional
        (λ (c : ApiKeyAuthConfig). (0 < c.key_count) × (c.key_count ≤ length c.digests))
        r.auth

health_ready :
    (o : Option HealthCheckConfig) → Optional HealthCheckIsValid o → Optional ValidThresholds o
health_ready none v = tt
health_ready (some c) v = record {
  failing_low = v.unhealthy_valid.0;
  failing_high = v.unhealthy_valid.1;
  passing_low = v.healthy_valid.0;
  passing_high = v.healthy_valid.1;
}

keys_ready :
    (o : Option ApiKeyAuthConfig)
    → Optional AuthIsValid o
    → Optional (λ (c : ApiKeyAuthConfig). (0 < c.key_count) × (c.key_count ≤ length c.digests)) o
keys_ready none v = tt
keys_ready (some c) v = (omega (arith, v.counted.0), omega (arith, v.counted.1, v.room))

RouteIsValid-IsReady :
    (make_address : List ℕ → Option (List ℕ)) (rs : List RouteConfig)
    → Each (RouteIsValid make_address) rs
    → Each IsReady rs
RouteIsValid-IsReady make_address [] v = tt
RouteIsValid-IsReady make_address (r ∷ rs) (here, later) = (
  record {
    some_upstream = here.some_upstream.0;
    few_upstreams = here.some_upstream.1;
    thresholds = health_ready r.health_check here.health_valid;
    keys = keys_ready r.auth here.auth_valid;
  },
  RouteIsValid-IsReady make_address rs later,
)

make_admission_made :
    (rs : List RouteConfig) (p now : ℕ) {ss : RouteRateLimits}
    → make_limits rs now ≡ some ss
    → (a : RouteProxyAdmission) × (make_admission rs (some p) now ≡ some a)
unfolding make_admission
make_admission_made rs p now e = elim (Option-cases (make_admission rs (some p) now)) [
  | inl f ↦ cc (rw (e, make_admission) at f)
  | inr found ↦ found
]

-- The gateway starts with whatever configuration loads: with proxy permits and at any time of the
-- clock, the admission is constructed without an exception and fits the routes, and every route has
-- 1 to 16 upstreams, thresholds from 1 to 10, and as many digests as its count of keys says.
pub loaded_admission :
    (libraries : Libraries) (env : Environment) (c : AppConfig) (p now : ℕ)
    → load_config_from_environment libraries env ≡ ok c
    → now < 2 ^ 64
    → (a : RouteProxyAdmission) × (make_admission c.routes (some p) now ≡ some a)
      × Fits c.routes a
      × Each IsReady c.routes
loaded_admission libraries env c p now e h =
    let v = load_config_from_environment-ConfigIsValid libraries env c e in
    let ready = RouteIsValid-IsReady libraries.make_address c.routes v.routes_valid in
    let (ss, limits) = make_limits_made libraries.make_address c.routes now v.routes_valid in
    let (a, made) = make_admission_made c.routes p now limits in
    (
      a,
      made,
      make_admission-Fits c.routes p now h
          (λ r rc g. omega (arith, (Each_at IsReady c.routes r ready g).some_upstream)) made,
      ready,
    )
