-- ===== src/Handler/Local.antt =====
-- The responses that the gateway makes itself, against the choice of a route.
use c_item.Base.{◌≡◌, ◌≢◌, ◌↔◌, ◌⊎◌, Bool, true, false, not, ◌||◌, arith}
use c_item.Config.{AppConfig}
use c_item.Handler.{
  HttpRequest, is_unmatched, classify_http_route, is_metrics_target, is_proxyable,
  select_http_route, should_proxy_http_request,
}
use c_item.Handler.Respond.{handle_http_request, proxy_enabled}

-- The target of one of the gateway's own endpoints.
abbrev pub is_local : AppConfig → HttpRequest → Bool
is_local config r =
    not (is_unmatched (classify_http_route r.target)) || is_metrics_target config r.target

-- The gateway's own endpoints are never proxied, whatever the routes are, nor answered as unknown.
pub local_not_proxied :
    (config : AppConfig) (r : HttpRequest)
    → is_local config r ≡ true
    → (should_proxy_http_request config r ≡ false) × ((handle_http_request config r).status ≢ 404)
unfolding should_proxy_http_request select_http_route is_proxyable handle_http_request
local_not_proxied config r h = ground arith

-- Where proxying is configured, the gateway answers 404 exactly to the requests that may be proxied,
-- so to those among them that no route takes.
pub not_found_iff :
    (config : AppConfig) (r : HttpRequest)
    → proxy_enabled config ≡ true
    → ((handle_http_request config r).status ≡ 404) ↔ (is_proxyable config r ≡ true)
unfolding handle_http_request is_proxyable
not_found_iff config r h = ground arith

-- Every answer that the gateway makes itself has the request's version and keeps the connection as
-- the request asked; its status is 200, 400, 404 or 405.
pub answer_shape :
    (config : AppConfig) (r : HttpRequest)
    → let a = handle_http_request config r in
      (a.version ≡ r.version)
      × (a.keep_alive ≡ r.keep_alive)
      × ((a.status ≡ 200) ⊎ ((a.status ≡ 400) ⊎ ((a.status ≡ 404) ⊎ (a.status ≡ 405))))
unfolding handle_http_request
answer_shape config r = ground arith
