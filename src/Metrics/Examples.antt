-- ===== src/Metrics/Examples.antt =====
-- Reports of one request, and the theorems at concrete inputs. A double here is a number of
-- nanoseconds.
use c_item.Base.{
  ℕ, ◌+◌, ◌-◌, ◌≤◌, ◌≡◌, refl, true, false, none, some, List, [], ◌∷◌, arith, ltb, length,
  length-replicate,
}
use c_item.Base.Text.{codes}
use c_item.Base.Decimal.{to_decimal, length-to_decimal}
use c_item.Config.{AppConfig, RouteConfig, info, http}
use c_item.Health.{HealthState, make_health}
use c_item.Health.Slots.{make_health_available}
use c_item.Budget.{Control}
use c_item.Server.Accept.{make_capacity}
use c_item.Server.Permits.{ProxyAdmissionState}
use c_item.Metrics.{
  rate_limit, ProxyFailureStage, DoubleOps, Metrics, make_metrics, fresh, saturating_increment,
  begin, finish, fail, observe_response, reject, fail_stream,
}
use c_item.Metrics.Render.{max_output_bytes, route_lines, render, all_lines}
use c_item.Metrics.Once.{
  run, step, Call, begins, finishes, rejects, fails, all_responses, all_rejections, all_failures,
  observation_once,
}
use c_item.Metrics.Size.{Sized, joined, render_fits}

abbrev tick_ops : DoubleOps ℕ
tick_ops = record {
  zero_double = 0;
  max_double = 1000000;
  is_finite = λ x. true;
  is_negative = λ x. false;
  add = λ x y. x + y;
  subtract = λ x y. x - y;
  greater = λ x y. ltb y x;
  seconds_of = λ t. t;
  to_chars = to_decimal;
}

abbrev counters : Metrics ℕ
counters = make_metrics tick_ops

abbrev reports : List Call
reports =
    begins 5
    ∷ rejects rate_limit
    ∷ finishes 429 9
    ∷ finishes 200 12
    ∷ rejects rate_limit
    ∷ fails ProxyFailureStage.resolve
    ∷ []

one_response : (run tick_ops (fresh, some counters) reports).1 ≡ 1
unfolding run step begin finish reject fail fail_stream observe_response make_metrics
one_response = refl

full_counter : saturating_increment 18446744073709551615 ≡ 18446744073709551615
unfolding saturating_increment
full_counter = refl

observation_once_example :
    let ((o, m'), responses) = run tick_ops (fresh, some counters) reports in
    (responses ≤ 1)
    × (all_responses m' ≤ all_responses (some counters) + 1)
    × (all_rejections m' ≤ all_rejections (some counters) + 1)
    × (all_failures m' ≤ all_failures (some counters) + 1)
observation_once_example = observation_once tick_ops (some counters) reports

abbrev a_route : RouteConfig
a_route = record {
  prefix = codes "/a";
  upstreams = record { host = codes "10.0.0.1"; port = 81; timeout_ms = 1000; scheme = http } ∷ [];
  strip_prefix = false;
  rate_limit = none;
  health_check = none;
  auth = none;
  stream_response = false;
}

abbrev health : HealthState
health = make_health (a_route ∷ [])

abbrev config : AppConfig
config = record {
  service_name = codes "gateway";
  environment = codes "test";
  log_level = info;
  listen_address = codes "127.0.0.1";
  listen_port = 8080;
  max_connections = 4;
  max_concurrent_proxies = 2;
  max_in_flight_bytes = 1000;
  shutdown_grace_ms = 100;
  metrics_enabled = true;
  upstream_keep_alive = false;
  upstream = none;
  routes = a_route ∷ [];
  upstream_tls_context = none;
  downstream_tls_context = none;
}

abbrev proxies : ProxyAdmissionState
proxies = record { max_proxies = 2; active_proxies = 1 }

abbrev budget : Control
budget = record { max_bytes = 1000; current_bytes = 10 }

counters-Sized : Sized counters
unfolding make_metrics
counters-Sized = record {
  responses = length-replicate {A = ℕ} 501 0;
  rejections = length-replicate {A = ℕ} 4 0;
  failures = length-replicate {A = ℕ} 8 0;
}

render_fits_example :
    (routes : List (List ℕ)) × (route_lines health 0 (a_route ∷ []) ≡ some routes)
    × (render tick_ops counters config (make_capacity 4) proxies budget health
        ≡ some (joined (all_lines tick_ops counters (make_capacity 4) proxies budget routes)))
    × (length (joined (all_lines tick_ops counters (make_capacity 4) proxies budget routes))
        ≤ max_output_bytes)
render_fits_example =
    render_fits tick_ops counters config (make_capacity 4) proxies budget health counters-Sized
      (omega arith)
      (omega arith, (λ k l. (true, make_health_available (a_route ∷ []) 0 k refl l)), tt)
      (omega (arith, length-to_decimal counters.processing_sum))
