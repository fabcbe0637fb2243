-- ===== src/Proxy/Examples.antt =====
-- A request on its way to the upstream, and the theorems at concrete inputs.
use c_item.Base.{ℕ, ◌+◌, ◌≤◌, ◌≡◌, refl, sym, true, false, none, some, List, [], ◌∷◌}
use c_item.Base.Text.{codes, eq_bytes, starts_with, find_byte}
use c_item.Base.Decimal.{to_decimal, digits_before}
use c_item.Config.{AppConfig, RouteConfig, http, info}
use c_item.Handler.{
  HttpRequest, Field, FieldName, post, host, connection, content_length, unknown, SelectedUpstream,
  selected_route, front_is, select_http_route, is_proxyable, select_configured, select_loop,
  matches, request_path, is_supported_proxy_target, requests_upgrade, has_upgrade,
  classify_http_route, is_metrics_target,
}
use c_item.Proxy.{
  trim_http_token, trim_front, trim_back, token_loop, collect_tokens, contains, is_hop_by_hop,
  is_forwarding_metadata, make_upstream_authority, rooted, rewrite_target, drops_request_field,
  keep_fields, set_length, set_keep_alive, upstream_fields, make_upstream_request,
}
use c_item.Server.{claim}
use c_item.Proxy.Completion
use c_item.Proxy.Target.{upstream_target_rooted}
use c_item.Proxy.Fields.{IsFramed, make_upstream_request-IsFramed}

abbrev a_route : RouteConfig
a_route = record {
  prefix = codes "/a";
  upstreams = record { host = codes "::1"; port = 81; timeout_ms = 1000; scheme = http } ∷ [];
  strip_prefix = true;
  rate_limit = none;
  health_check = none;
  auth = none;
  stream_response = false;
}

abbrev config : AppConfig
config = record {
  service_name = codes "gateway";
  environment = codes "test";
  log_level = info;
  listen_address = codes "127.0.0.1";
  listen_port = 8080;
  max_connections = 4;
  max_concurrent_proxies = 2;
  max_in_flight_bytes = 1000;
  shutdown_grace_ms = 100;
  metrics_enabled = true;
  upstream_keep_alive = false;
  upstream = none;
  routes = a_route ∷ [];
  upstream_tls_context = none;
  downstream_tls_context = none;
}

abbrev selected : SelectedUpstream
selected = record {
  upstream = record { host = codes "::1"; port = 81; timeout_ms = 1000; scheme = http };
  prefix = codes "/a";
  strip_prefix = true;
  route_index = some 0;
  strip_authorization = false;
  stream_response = false;
}

abbrev field_of : FieldName → List ℕ → List ℕ → Field
field_of name name_string value = record { name = name; name_string = name_string; value = value }

abbrev request : HttpRequest
request = record {
  method = post;
  target = codes "/a?q";
  version = 11;
  keep_alive = true;
  fields =
      field_of host (codes "Host") (codes "gateway")
      ∷ field_of connection (codes "Connection") (codes "close, X-Secret ")
      ∷ field_of unknown (codes "x-secret") (codes "1")
      ∷ field_of unknown (codes "X-Forwarded-For") (codes "1")
      ∷ field_of unknown (codes "Accept") (codes "*")
      ∷ field_of content_length (codes "Content-Length") (codes "2")
      ∷ [];
  body = codes "xy";
}

forwarded :
    upstream_fields selected request false
    ≡ field_of unknown (codes "Accept") (codes "*")
      ∷ field_of host (codes "Host") (codes "[::1]:81")
      ∷ field_of connection (codes "Connection") (codes "close")
      ∷ field_of content_length (codes "Content-Length") (codes "2")
      ∷ []
unfolding upstream_fields set_length set_keep_alive keep_fields drops_request_field collect_tokens
    token_loop trim_http_token trim_front trim_back is_hop_by_hop contains is_forwarding_metadata
    make_upstream_authority find_byte eq_bytes starts_with to_decimal digits_before
forwarded = refl

stripped : rewrite_target selected (codes "/a?q") ≡ codes "/?q"
unfolding rewrite_target rooted eq_bytes
stripped = refl

routed : select_http_route config request ≡ some (selected_route a_route 0)
unfolding select_http_route is_proxyable select_configured select_loop matches request_path
    is_supported_proxy_target requests_upgrade has_upgrade classify_http_route is_metrics_target
    selected_route find_byte eq_bytes starts_with
routed = refl

route_prefix : (selected_route a_route 0).prefix ≡ codes "/a"
unfolding selected_route
route_prefix = refl

route_strips : (selected_route a_route 0).strip_prefix ≡ true
unfolding selected_route
route_strips = refl

upstream_target_rooted_example :
    front_is b'/' (make_upstream_request selected request false).target ≡ true
upstream_target_rooted_example =
    upstream_target_rooted config request (selected_route a_route 0) selected false routed
      (sym route_prefix) (sym route_strips)

make_upstream_request-IsFramed_example :
    IsFramed selected request false (make_upstream_request selected request false).fields
make_upstream_request-IsFramed_example = make_upstream_request-IsFramed selected request false

-- A handler completes, and then throws; a timer's handler completes as well.
abbrev ending : List Completion.Event
ending = Completion.handles (false ∷ []) true ∷ Completion.finishes false ∷ []

ending_once : (Completion.run false ending).1 ≡ Completion.completes ∷ []
unfolding Completion.run Completion.step Completion.run_proxy_handler_action
    Completion.run_completions Completion.run_proxy_completion_action Completion.after_throw claim
ending_once = refl

ended : (Completion.run false ending).0 ≡ true
unfolding Completion.run Completion.step Completion.run_proxy_handler_action
    Completion.run_completions Completion.run_proxy_completion_action Completion.after_throw claim
ended = refl

not_cancelled : Completion.has_cancels ending ≡ false
unfolding Completion.has_cancels
not_cancelled = refl

exchange_reports_once_example :
    (Completion.completions (Completion.run false ending).1 ≤ 1)
    × (Completion.abortions (Completion.run false ending).1 ≤ 1)
exchange_reports_once_example = Completion.exchange_reports_once ending

exchange_reports_example :
    1
    ≤ Completion.completions (Completion.run false ending).1
      + Completion.abortions (Completion.run false ending).1
exchange_reports_example = Completion.exchange_reports ending not_cancelled ended
