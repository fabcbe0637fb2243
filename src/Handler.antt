-- ===== src/Handler.antt =====
-- include/apigate/http_handler.hpp and src/http_handler.cpp: the choice of a route; the
-- responses that the gateway makes itself are in Handler.Respond. A request is what the source reads of Beast's message. A
-- response is what the source writes: the status, the calls of `set` in their order, the
-- connection's fate, and the JSON value whose dump is the body.
pub mod Respond
pub mod Boundary
pub mod Select
pub mod Local
mod Examples
use c_item.Base.{
  ℕ, zero, suc, ◌+◌, Bool, true, false, not, ◌&&◌, ◌||◌, Option, none, some, List, [], ◌∷◌, ◌++◌,
  ltb, ◌==◌, if◌then◌else◌, is_some, length, get_elem?,
}
use c_item.Base.Text.{codes, eq_bytes, starts_with, find_byte, up_to}
use c_item.Base.Decimal.{to_decimal}
use c_item.Config.{UpstreamConfig, ApiKeyAuthConfig, RouteConfig, AppConfig}

pub data Verb : Type 0 where
  get post put patch : Verb
  unsupported : ℕ → Verb

-- http::field: the names that the source asks for, and the rest.
pub data FieldName : Type 0 where
  authorization connection host server content_type content_length cache_control expect upgrade :
      FieldName
  allow retry_after www_authenticate unknown : FieldName

pub record Field : Type 0 where
  pub name : FieldName
  pub name_string : List ℕ
  pub value : List ℕ

pub record HttpRequest : Type 0 where
  pub method : Verb
  pub target : List ℕ
  pub version : ℕ
  pub keep_alive : Bool
  pub fields : List Field
  pub body : List ℕ

pub data Body : Type 0 where
  error_json : List ℕ → List ℕ → Body  -- code, message
  status_json : List ℕ → List ℕ → Body  -- status, service
  text : List ℕ → Body

pub record HttpResponse : Type 0 where
  pub status : ℕ
  pub version : ℕ
  pub sets : List (FieldName × List ℕ)
  pub keep_alive : Bool
  pub body : Body

pub data GatewayFailure : Type 0 where
  bad_gateway gateway_timeout gateway_overloaded buffer_capacity_exhausted no_healthy_upstream :
      GatewayFailure

pub record SelectedUpstream : Type 0 where
  pub upstream : UpstreamConfig
  pub prefix : List ℕ
  pub strip_prefix : Bool
  pub route_index : Option ℕ
  pub strip_authorization : Bool
  pub stream_response : Bool

pub record SelectedRoute : Type 0 where
  pub upstreams : List UpstreamConfig
  pub prefix : List ℕ
  pub strip_prefix : Bool
  pub route_index : Option ℕ
  pub auth : Option ApiKeyAuthConfig
  pub stream_response : Bool

unfoldable pub request_path : List ℕ → List ℕ
request_path target = up_to (find_byte b'?' target) target

abbrev pub front_is : ℕ → List ℕ → Bool
front_is c [] = false
front_is c (x ∷ s) = x == c

unfoldable pub is_supported_proxy_target : List ℕ → Bool
is_supported_proxy_target target = front_is b'/' target && not (is_some (find_byte b'#' target))

abbrev is_upgrade : FieldName → Bool
is_upgrade upgrade = true
is_upgrade _ = false

unfoldable pub has_upgrade : List Field → Bool
has_upgrade [] = false
has_upgrade (f ∷ fs) = is_upgrade f.name || has_upgrade fs

unfoldable pub requests_upgrade : HttpRequest → Bool
unfolding has_upgrade
requests_upgrade r = has_upgrade r.fields

abbrev pub is_supported_proxy_method : Verb → Bool
is_supported_proxy_method (unsupported n) = false
is_supported_proxy_method _ = true

abbrev pub is_get : Verb → Bool
is_get get = true
is_get _ = false

abbrev pub is_nil : List ℕ → Bool
is_nil [] = true
is_nil _ = false

pub data RouteClass : Type 0 where
  healthz readyz unmatched : RouteClass

abbrev pub is_unmatched : RouteClass → Bool
is_unmatched unmatched = true
is_unmatched _ = false

unfoldable pub classify_http_route : List ℕ → RouteClass
classify_http_route target =
    if eq_bytes (request_path target) (codes "/healthz")
    then healthz
    else if eq_bytes (request_path target) (codes "/readyz")
    then readyz
    else unmatched

unfoldable pub is_metrics_target : AppConfig → List ℕ → Bool
is_metrics_target config target =
    config.metrics_enabled && eq_bytes (request_path target) (codes "/metrics")

abbrev pub char_is : Option ℕ → ℕ → Bool
char_is none c = false
char_is (some x) c = x == c

-- The test of the loop of `select_http_route` on one route, but for the length.
unfoldable pub matches : List ℕ → List ℕ → Bool
matches prefix path =
    starts_with prefix path
    && (eq_bytes prefix (codes "/")
        || length path == length prefix
        || char_is (get_elem? path (length prefix)) b'/')

unfoldable pub selected_route : RouteConfig → ℕ → SelectedRoute
selected_route route index = record {
  upstreams = route.upstreams;
  prefix = route.prefix;
  strip_prefix = route.strip_prefix;
  route_index = some index;
  auth = route.auth;
  stream_response = route.stream_response;
}

-- The loop of `select_http_route`, from the route `index` on.
unfoldable pub select_loop :
    List ℕ → List RouteConfig → ℕ → Option SelectedRoute → ℕ → Option SelectedRoute
select_loop path [] index selected longest = selected
select_loop path (route ∷ routes) index selected longest =
    let take_it = ltb longest (length route.prefix) && matches route.prefix path in
    select_loop path routes (index + 1)
      (if take_it then some (selected_route route index) else selected)
      (if take_it then length route.prefix else longest)

unfoldable pub select_configured : AppConfig → List ℕ → Option UpstreamConfig → Option SelectedRoute
select_configured config target (some upstream) = some (record {
  upstreams = upstream ∷ [];
  prefix = [];
  strip_prefix = false;
  route_index = none;
  auth = none;
  stream_response = false;
})
select_configured config target none = select_loop (request_path target) config.routes 0 none 0

-- The early returns of `select_http_route`.
unfoldable pub is_proxyable : AppConfig → HttpRequest → Bool
is_proxyable config r =
    is_supported_proxy_method r.method
    && is_unmatched (classify_http_route r.target)
    && not (is_metrics_target config r.target)
    && is_supported_proxy_target r.target
    && not (requests_upgrade r)
    && not (is_get r.method && not (is_nil r.body))

unfoldable pub select_http_route : AppConfig → HttpRequest → Option SelectedRoute
select_http_route config r =
    if is_proxyable config r then select_configured config r.target config.upstream else none

unfoldable pub should_proxy_http_request : AppConfig → HttpRequest → Bool
should_proxy_http_request config r = is_some (select_http_route config r)
