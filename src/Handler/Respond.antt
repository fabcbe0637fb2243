-- ===== src/Handler/Respond.antt =====
-- The responses that the gateway makes itself.
use c_item.Base.{ℕ, Bool, true, false, not, ◌&&◌, ◌||◌, List, [], ◌∷◌, ◌++◌, if◌then◌else◌, is_some}
use c_item.Base.Text.{codes}
use c_item.Base.Decimal.{to_decimal}
use c_item.Config.{RouteConfig, AppConfig}
use c_item.Handler.{
  FieldName, HttpRequest, Body, HttpResponse, GatewayFailure, is_supported_proxy_target,
  requests_upgrade, is_supported_proxy_method, is_get, RouteClass, is_unmatched,
  classify_http_route, is_metrics_target, is_nil, server, content_type, cache_control, allow,
  retry_after, www_authenticate, error_json, status_json, text, bad_gateway, gateway_timeout,
  gateway_overloaded, buffer_capacity_exhausted, no_healthy_upstream, healthz, readyz, unmatched,
}

unfoldable pub make_json_response : HttpRequest → ℕ → Body → HttpResponse
make_json_response r status body = record {
  status = status;
  version = r.version;
  sets =
      (server, codes "ApiGate")
      ∷ (content_type, codes "application/json")
      ∷ (cache_control, codes "no-store")
      ∷ [];
  keep_alive = r.keep_alive;
  body = body;
}

-- A further `response.set`.
abbrev pub also_set : HttpResponse → FieldName → List ℕ → HttpResponse
also_set response name value = record response { sets = response.sets ++ (name, value) ∷ [] }

unfoldable pub make_method_not_allowed : HttpRequest → Bool → HttpResponse
unfolding make_json_response
make_method_not_allowed r proxy_enabled =
    also_set
      (make_json_response r 405 (
        error_json (codes "method_not_allowed") (
          if proxy_enabled
          then codes "method is not supported"
          else codes "only GET is supported")))
      allow (if proxy_enabled then codes "GET, POST, PUT, PATCH" else codes "GET")

unfoldable pub make_metrics_response : HttpRequest → List ℕ → HttpResponse
make_metrics_response r body = record {
  status = 200;
  version = r.version;
  sets =
      (server, codes "ApiGate")
      ∷ (content_type, codes "text/plain; version=0.0.4; charset=utf-8")
      ∷ (cache_control, codes "no-store")
      ∷ [];
  keep_alive = r.keep_alive;
  body = text body;
}

abbrev pub has_routes : List RouteConfig → Bool
has_routes [] = false
has_routes _ = true

abbrev pub proxy_enabled : AppConfig → Bool
proxy_enabled config = is_some config.upstream || has_routes config.routes

abbrev unsupported_request : List ℕ → Body
unsupported_request = error_json (codes "unsupported_request")

unfoldable pub metrics_request : HttpRequest → HttpResponse
unfolding make_method_not_allowed make_json_response make_metrics_response
metrics_request r =
    if not (is_get r.method)
    then make_method_not_allowed r false
    else if not (is_nil r.body) || requests_upgrade r
    then make_json_response r 400 (unsupported_request (codes "invalid metrics request"))
    else make_metrics_response r []

-- The part of `handle_http_request` behind the tests of the method and of the upgrade.
unfoldable pub answer_route : AppConfig → HttpRequest → RouteClass → HttpResponse
unfolding make_method_not_allowed make_json_response
answer_route config r healthz =
    make_json_response r 200 (status_json (codes "ok") config.service_name)
answer_route config r readyz =
    make_json_response r 200 (status_json (codes "ready") config.service_name)
answer_route config r unmatched =
    if not (proxy_enabled config) && not (is_get r.method)
    then make_method_not_allowed r false
    else if proxy_enabled config
        && (not (is_supported_proxy_target r.target) || (is_get r.method && not (is_nil r.body)))
    then make_json_response r 400 (unsupported_request (codes "request cannot be proxied"))
    else make_json_response r 404 (error_json (codes "not_found") (codes "route not found"))

unfoldable pub handle_http_request : AppConfig → HttpRequest → HttpResponse
unfolding metrics_request answer_route
handle_http_request config r =
    let route = classify_http_route r.target in
    if is_metrics_target config r.target
    then metrics_request r
    else if not (is_unmatched route) && not (is_get r.method)
    then make_method_not_allowed r false
    else if not (is_supported_proxy_method r.method)
    then make_method_not_allowed r (proxy_enabled config)
    else if proxy_enabled config && requests_upgrade r
    then make_json_response r 400 (unsupported_request (codes "request cannot be proxied"))
    else answer_route config r route

unfoldable pub make_authentication_failed_response : HttpRequest → HttpResponse
unfolding make_json_response
make_authentication_failed_response r =
    also_set
      (make_json_response r 401
        (error_json (codes "authentication_failed") (codes "authentication failed")))
      www_authenticate (codes "Bearer realm=\"ApiGate\"")

unfoldable pub make_rate_limited_response : HttpRequest → ℕ → HttpResponse
unfolding make_json_response
make_rate_limited_response r seconds =
    also_set
      (make_json_response r 429
        (error_json (codes "rate_limited") (codes "request rate limit is exceeded")))
      retry_after (to_decimal seconds)

unfoldable pub make_gateway_error_response : HttpRequest → GatewayFailure → HttpResponse
unfolding make_json_response
make_gateway_error_response r no_healthy_upstream =
    make_json_response r 503
      (error_json (codes "no_healthy_upstream") (codes "no healthy upstream is available"))
make_gateway_error_response r gateway_timeout =
    make_json_response r 504
      (error_json (codes "gateway_timeout") (codes "upstream request timed out"))
make_gateway_error_response r gateway_overloaded =
    make_json_response r 503
      (error_json (codes "gateway_overloaded") (codes "proxy capacity is exhausted"))
make_gateway_error_response r buffer_capacity_exhausted =
    make_json_response r 503
      (error_json (codes "gateway_overloaded") (codes "buffer capacity is exhausted"))
make_gateway_error_response r bad_gateway =
    make_json_response r 502 (error_json (codes "bad_gateway") (codes "upstream request failed"))
