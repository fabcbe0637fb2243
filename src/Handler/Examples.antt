-- ===== src/Handler/Examples.antt =====
-- Requests through the handler, and the theorems at concrete inputs.
use c_item.Base.{ℕ, ◌≡◌, ◌⊎◌, refl, true, false, none, some, List, [], ◌∷◌, Option}
use c_item.Base.Text.{codes, eq_bytes, starts_with, find_byte}
use c_item.Base.Decimal.{to_decimal, from_chars, read_digits}
use c_item.Config.{RouteConfig, AppConfig, info}
use c_item.Handler.{
  HttpRequest, get, SelectedRoute, request_path, matches, selected_route, select_loop,
  select_configured, is_proxyable, select_http_route, classify_http_route, is_metrics_target,
  is_supported_proxy_target, requests_upgrade,
}
use c_item.Handler.Respond.{handle_http_request}
use c_item.Handler.Select.{Selection, select_http_route-Selection}
use c_item.Handler.Local.{answer_shape}

abbrev route_to : List ℕ → RouteConfig
route_to prefix = record {
  prefix = prefix;
  upstreams = [];
  strip_prefix = false;
  rate_limit = none;
  health_check = none;
  auth = none;
  stream_response = false;
}

abbrev gateway : AppConfig
gateway = record {
  service_name = codes "api-gate";
  environment = codes "development";
  log_level = info;
  listen_address = codes "127.0.0.1";
  listen_port = 8080;
  max_connections = 256;
  max_concurrent_proxies = 32;
  max_in_flight_bytes = 67108864;
  shutdown_grace_ms = 5000;
  metrics_enabled = true;
  upstream_keep_alive = false;
  upstream = none;
  routes = route_to (codes "/a") ∷ route_to (codes "/a/b") ∷ route_to (codes "/c") ∷ [];
  upstream_tls_context = none;
  downstream_tls_context = none;
}

abbrev get_of : List ℕ → HttpRequest
get_of target = record {
  method = get;
  target = target;
  version = 11;
  keep_alive = true;
  fields = [];
  body = [];
}

abbrev index_of : Option SelectedRoute → Option ℕ
index_of none = none
index_of (some s) = s.route_index

longest_wins : index_of (select_http_route gateway (get_of (codes "/a/b/x?q=1"))) ≡ some 1
unfolding select_http_route is_proxyable classify_http_route request_path is_metrics_target
    is_supported_proxy_target requests_upgrade select_configured select_loop selected_route matches
    eq_bytes starts_with find_byte
longest_wins = refl

boundary_counts : index_of (select_http_route gateway (get_of (codes "/a/bc"))) ≡ some 0
unfolding select_http_route is_proxyable classify_http_route request_path is_metrics_target
    is_supported_proxy_target requests_upgrade select_configured select_loop selected_route matches
    eq_bytes starts_with find_byte
boundary_counts = refl

select_http_route-Selection_example :
    Selection
      (request_path (codes "/a/b/x?q=1"))
      gateway.routes
      (select_http_route gateway (get_of (codes "/a/b/x?q=1")))
unfolding is_proxyable classify_http_route request_path is_metrics_target is_supported_proxy_target
    requests_upgrade eq_bytes find_byte
select_http_route-Selection_example =
    select_http_route-Selection gateway (get_of (codes "/a/b/x?q=1")) refl refl

answer_shape_example :
    let a = handle_http_request gateway (get_of (codes "/metrics")) in
    (a.version ≡ 11)
    × (a.keep_alive ≡ true)
    × ((a.status ≡ 200) ⊎ ((a.status ≡ 400) ⊎ ((a.status ≡ 404) ⊎ (a.status ≡ 405))))
answer_shape_example = answer_shape gateway (get_of (codes "/metrics"))

decimal_of_status : to_decimal 429 ≡ codes "429"
unfolding to_decimal
decimal_of_status = refl

port_out_of_range : from_chars 65535 (codes "65536") ≡ none
unfolding from_chars read_digits
port_out_of_range = refl
