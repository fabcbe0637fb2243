-- ===== src/Admission.antt =====
-- RouteProxyAdmission of src/route_proxy_admission.hpp and src/route_proxy_admission.cpp. The proxy
-- states are the cells of the heap of Server.Permits; `proxies_` is a pointer to one. The health
-- state is shared with the health checks, which alone write it. A result that is `none` is an
-- exception that leaves the function; the locals are then destroyed.
pub mod Rotation
pub mod Capacity
pub mod Outcome
pub mod Kept
mod Examples
use c_item.Base.{
  ℕ, zero, suc, ◌+◌, ◌-◌, Bool, true, false, not, ◌||◌, Option, none, some, List, [], ◌∷◌, map, ltb,
  leb, ◌==◌, if◌then◌else◌, is_some, length, get_elem?, set, replicate,
}
use c_item.Config.{RouteConfig}
use c_item.Handler.{SelectedRoute, SelectedUpstream}
use c_item.Health.{HealthState, available, make_health}
use c_item.RateLimit.{RateLimitDecision, RouteRateLimits, make_limits, route_try_acquire}
use c_item.Server.Permits
use c_item.Server.Permits.{States, Permit}

pub record RouteProxyAdmission : Type 0 where
  pub rate_limits : RouteRateLimits
  pub proxies : ℕ
  pub next_upstream : List ℕ
  pub health : HealthState

pub record RouteProxyAdmissionResult : Type 0 where
  pub rate_limit : RateLimitDecision
  pub permit : Option Permit
  pub upstream : Option SelectedUpstream
  pub no_healthy_upstream : Bool

-- The heap and the object after a call, and what it returned.
pub record Attempt : Type 0 where
  pub states : States
  pub admission : RouteProxyAdmission
  pub result : Option RouteProxyAdmissionResult

-- The constructor: `none` is the exception of a bucket or of a null pointer.
unfoldable pub make_admission : List RouteConfig → Option ℕ → ℕ → Option RouteProxyAdmission
make_admission routes none now = none
make_admission routes (some p) now = elim (make_limits routes now) [
  | none ↦ none
  | some limits ↦ some (record {
    rate_limits = limits;
    proxies = p;
    next_upstream = replicate (length routes) 0;
    health = make_health routes;
  })
]

abbrev pub advance : ℕ → ℕ → ℕ
advance size index = if index + 1 == size then 0 else index + 1

-- The loop over the slots, which has still `left` slots to visit. `some none` when it has visited all.
unfoldable pub search : HealthState → ℕ → ℕ → ℕ → ℕ → Option (Option ℕ)
search health r size zero index = some none
search health r size (suc left) index = elim (available health r index) [
  | none ↦ none
  | some b ↦ elim b [
    | true ↦ some (some index)
    | false ↦ search health r size left (advance size index)
  ]
]

-- The position of the slot that is selected, and the positions for the next call.
unfoldable pub place : List ℕ → ℕ → ℕ → Option (Option ℕ) → Option (Option (ℕ × List ℕ))
place positions r size none = none
place positions r size (some none) = some none
place positions r size (some (some index)) =
    some (some (index, set positions r (if index == size - 1 then 0 else index + 1)))

unfoldable pub choose_from : HealthState → List ℕ → ℕ → ℕ → Option ℕ → Option (Option (ℕ × List ℕ))
unfolding place
choose_from health positions r size none = none
choose_from health positions r size (some next) =
    if leb size next then none else place positions r size (search health r size size next)

unfoldable pub choose :
    RouteProxyAdmission → SelectedRoute → Option ℕ → Option (Option (ℕ × List ℕ))
unfolding choose_from
choose a route none = some (some (0, a.next_upstream))
choose a route (some r) =
    choose_from a.health a.next_upstream r (length route.upstreams) (get_elem? a.next_upstream r)

abbrev pub refused : RateLimitDecision → Bool → RouteProxyAdmissionResult
refused d unhealthy = record {
  rate_limit = d;
  permit = none;
  upstream = none;
  no_healthy_upstream = unhealthy;
}

-- `route.upstreams[index]`, whose index is in range; the selected upstream borrows it.
unfoldable pub select_slot : SelectedRoute → ℕ → Option SelectedUpstream
select_slot route index = elim (get_elem? route.upstreams index) [
  | none ↦ none
  | some u ↦ some (record {
    upstream = u;
    prefix = route.prefix;
    strip_prefix = route.strip_prefix;
    route_index = route.route_index;
    strip_authorization = is_some route.auth;
    stream_response = route.stream_response;
  })
]

-- The end of `try_acquire` with a permit: what is not handed on is destroyed.
unfoldable pub with_permit :
    States
    → RouteProxyAdmission
    → SelectedRoute
    → RateLimitDecision
    → Permit
    → Option (Option (ℕ × List ℕ))
    → Attempt
unfolding Permits.release select_slot
with_permit h a route d p none = record {
  states = (Permits.release h p).0;
  admission = a;
  result = none;
}
with_permit h a route d p (some none) = record {
  states = (Permits.release h p).0;
  admission = a;
  result = some (refused d true);
}
with_permit h a route d p (some (some (index, positions))) = record {
  states = h;
  admission = record a { next_upstream = positions };
  result = some (record {
    rate_limit = d;
    permit = some p;
    upstream = select_slot route index;
    no_healthy_upstream = false;
  });
}

-- The test of the number of slots is an exception when it fails.
unfoldable pub with_capacity :
    States → RouteProxyAdmission → SelectedRoute → RateLimitDecision → Option Permit → Attempt
unfolding with_permit choose
with_capacity h a route d none = record {
  states = h;
  admission = a;
  result = some (refused d false);
}
with_capacity h a route d (some p) = with_permit h a route d p (
    if length route.upstreams == 0 || ltb 16 (length route.upstreams)
    then none
    else choose a route route.route_index)

unfoldable pub with_rate :
    States → RouteProxyAdmission → SelectedRoute → RateLimitDecision → Attempt
unfolding with_capacity Permits.try_acquire
with_rate h a route d =
    if not d.allowed
    then record { states = h; admission = a; result = some (refused d false) }
    else let (h', permit) = Permits.try_acquire h (some a.proxies) in
      with_capacity h' a route d permit

abbrev pub allowed : RateLimitDecision
allowed = record { allowed = true; retry_after_seconds = 0 }

unfoldable pub rate :
    RouteProxyAdmission → Option ℕ → ℕ → Option (RouteRateLimits × RateLimitDecision)
rate a none now = some (a.rate_limits, allowed)
rate a (some r) now = route_try_acquire a.rate_limits r now

unfoldable pub try_acquire : States → RouteProxyAdmission → SelectedRoute → ℕ → Attempt
unfolding rate with_rate
try_acquire h a route now = elim (rate a route.route_index now) [
  | none ↦ record { states = h; admission = a; result = none }
  | some (limits, d) ↦ with_rate h (record a { rate_limits = limits }) route d
]
