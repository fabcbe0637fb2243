-- ===== src/Admission/Examples.antt =====
-- A gateway with a route of two upstreams, and the theorems at concrete inputs.
use c_item.Base.{
  ℕ, zero, suc, ◌<◌, ◌≡◌, refl, subst, false, none, some, some_inj, List, [], ◌∷◌, arith, length,
  get_elem?,
}
use c_item.Base.Text.{codes}
use c_item.Config.{RouteConfig, UpstreamConfig, http}
use c_item.Handler.{selected_route}
use c_item.Health.{make_health, available, slot_at}
use c_item.RateLimit.{make_limits, route_bucket, route_try_acquire, acquire_slot}
use c_item.Server.Permits
use c_item.Server.Permits.{States}
use c_item.Admission.{
  RouteProxyAdmission, Attempt, make_admission, search, place, choose_from, choose, select_slot,
  with_permit, with_capacity, with_rate, rate, try_acquire,
}
use c_item.Admission.Outcome.{Fits, Outcome, try_acquire-Outcome}
use c_item.Admission.Kept.{try_acquire-Fits, make_admission-Fits}

abbrev server_at : ℕ → UpstreamConfig
server_at p = record { host = codes "10.0.0.1"; port = p; timeout_ms = 1000; scheme = http }

abbrev two_servers : RouteConfig
two_servers = record {
  prefix = codes "/a";
  upstreams = server_at 81 ∷ server_at 82 ∷ [];
  strip_prefix = false;
  rate_limit = none;
  health_check = none;
  auth = none;
  stream_response = false;
}

abbrev routes : List RouteConfig
routes = two_servers ∷ []

abbrev admission : RouteProxyAdmission
admission = record {
  rate_limits = none ∷ [];
  proxies = 3;
  next_upstream = 0 ∷ [];
  health = make_health routes;
}

-- A limit of two proxies, with nothing in use.
abbrev heap : States
heap c = record { max_proxies = 2; active_proxies = 0 }

abbrev after : Attempt
after = try_acquire heap admission (selected_route two_servers 0) 10

made : make_admission routes (some 3) 7 ≡ some admission
unfolding make_admission make_limits route_bucket make_health
made = refl

moved_on : (after.admission.next_upstream ≡ 1 ∷ []) × ((after.states 3).active_proxies ≡ 1)
unfolding try_acquire rate with_rate with_capacity with_permit choose choose_from place search
    select_slot Permits.try_acquire route_try_acquire acquire_slot make_health available slot_at
    selected_route
moved_on = (refl, refl)

routes_have_upstreams :
    (r : ℕ) (c : RouteConfig) → get_elem? routes r ≡ some c → 0 < length c.upstreams
routes_have_upstreams zero c e = subst (λ x. 0 < length x.upstreams) (some_inj e) (omega arith)
routes_have_upstreams (suc r) c e = cc

admission-Fits : Fits routes admission
admission-Fits = make_admission-Fits routes 3 7 (omega arith) routes_have_upstreams made

try_acquire-Outcome_example : Outcome heap admission two_servers 0 10 after
try_acquire-Outcome_example =
    try_acquire-Outcome heap admission two_servers 0 10 routes admission-Fits refl (omega arith)

try_acquire-Fits_example : Fits routes after.admission
try_acquire-Fits_example =
    try_acquire-Fits routes heap admission two_servers 0 10 admission-Fits refl (omega arith)
