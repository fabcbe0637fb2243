-- ===== src/Load/App.antt =====
-- src/config.cpp: load_config_from_environment.
use c_item.Base.{
  ℕ, Bool, true, false, not, ◌&&◌, ◌||◌, Option, none, some, List, [], ◌∷◌, if◌then◌else◌, is_some,
}
use c_item.Base.Text.{codes, eq_bytes}
use c_item.Config.{
  UpstreamScheme, http, https, UpstreamConfig, RouteConfig, AppConfig, LogLevel, info,
}
use c_item.Tls.{make_downstream_tls_context, make_upstream_tls_context}
use c_item.Load.Result.{
  Result, ok, throws, ◌>>=◌, ◌>>◌, throw_if, bad_switch, conflicting_variables, unprotected_routes,
  incomplete_upstream,
}
use c_item.Load.Scalar.{
  Environment, read_environment, validate_label, parse_log_level, parse_listen_address,
  parse_listen_port, parse_upstream_port, parse_capacity_limit, parse_bounded_milliseconds,
  parse_max_in_flight_bytes,
}
use c_item.Load.Host.{parse_upstream_host}
use c_item.Load.Routes.{Libraries, parse_routes}

-- `if (const auto value = read_environment(name))`: what the value is read as, or the default.
unfoldable pub setting {ℓ} :
    {A : Type ℓ} → Environment → List ℕ → A → (List ℕ → Result A) → Result A
setting env name default read =
    read_environment env name >>= λ value. elim value [ none ↦ ok default | some text ↦ read text ]

unfoldable pub parse_switch : List ℕ → List ℕ → Result Bool
parse_switch name enabled =
    if not (eq_bytes enabled (codes "true")) && not (eq_bytes enabled (codes "false"))
    then throws (bad_switch name)
    else ok (eq_bytes enabled (codes "true"))

unfoldable pub parse_label : List ℕ → List ℕ → Result (List ℕ)
parse_label name value = validate_label value name >>= λ _. ok value

-- The identity of a context that was made.
abbrev pub shared {ℓ} : {A : Type ℓ} → ℕ → Option A → Option ℕ
shared identity none = none
shared identity (some a) = some identity

unfoldable pub load_server_context : Libraries → Environment → Result (Option ℕ)
load_server_context libraries env = do
  certificate ← read_environment env (codes "APIGATE_TLS_CERT_FILE")
  private_key ← read_environment env (codes "APIGATE_TLS_KEY_FILE")
  server ← make_downstream_tls_context libraries.tls certificate private_key
  ok (shared libraries.downstream_identity server)

-- Whether upstream connections are kept, and whether there are metrics.
unfoldable pub load_switches : Environment → Result (Bool × Bool)
load_switches env = do
  keep_alive ←
      setting env (codes "APIGATE_UPSTREAM_KEEP_ALIVE") false
        (parse_switch (codes "APIGATE_UPSTREAM_KEEP_ALIVE"))
  metrics ←
      setting env (codes "APIGATE_METRICS_ENABLED") false
        (parse_switch (codes "APIGATE_METRICS_ENABLED"))
  ok (keep_alive, metrics)

-- The service's name, the environment and the level.
unfoldable pub load_labels : Environment → Result (List ℕ × List ℕ × LogLevel)
load_labels env = do
  name ←
      setting env (codes "APIGATE_SERVICE_NAME") (codes "api-gate")
        (parse_label (codes "APIGATE_SERVICE_NAME"))
  environment ←
      setting env (codes "APIGATE_ENVIRONMENT") (codes "development")
        (parse_label (codes "APIGATE_ENVIRONMENT"))
  level ← setting env (codes "APIGATE_LOG_LEVEL") info parse_log_level
  ok (name, environment, level)

unfoldable pub load_listener : Libraries → Environment → Result (List ℕ × ℕ)
load_listener libraries env = do
  address ←
      setting env (codes "APIGATE_LISTEN_ADDRESS") (codes "127.0.0.1")
        (parse_listen_address libraries.make_address)
  port ← setting env (codes "APIGATE_LISTEN_PORT") 8080 parse_listen_port
  ok (address, port)

pub record Limits : Type 0 where
  pub connections : ℕ
  pub proxies : ℕ
  pub bytes : ℕ
  pub grace : ℕ

unfoldable pub load_limits : Environment → Result Limits
load_limits env = do
  connections ←
      setting env (codes "APIGATE_MAX_CONNECTIONS") 256
        (λ value. parse_capacity_limit value (codes "APIGATE_MAX_CONNECTIONS"))
  proxies ←
      setting env (codes "APIGATE_MAX_CONCURRENT_PROXIES") 32
        (λ value. parse_capacity_limit value (codes "APIGATE_MAX_CONCURRENT_PROXIES"))
  bytes ← setting env (codes "APIGATE_MAX_IN_FLIGHT_BYTES") 67108864 parse_max_in_flight_bytes
  grace ←
      setting env (codes "APIGATE_SHUTDOWN_GRACE_MS") 5000
        (λ value. parse_bounded_milliseconds value (codes "APIGATE_SHUTDOWN_GRACE_MS"))
  ok (record { connections = connections; proxies = proxies; bytes = bytes; grace = grace })

-- The settings before the routes, in the source's order, with the members' default values.
unfoldable pub load_settings : Libraries → Environment → Result AppConfig
load_settings libraries env = do
  server ← load_server_context libraries env
  switches ← load_switches env
  labels ← load_labels env
  listener ← load_listener libraries env
  limits ← load_limits env
  ok (record {
    service_name = labels.0;
    environment = labels.1;
    log_level = labels.2;
    listen_address = listener.0;
    listen_port = listener.1;
    max_connections = limits.connections;
    max_concurrent_proxies = limits.proxies;
    max_in_flight_bytes = limits.bytes;
    shutdown_grace_ms = limits.grace;
    metrics_enabled = switches.1;
    upstream_keep_alive = switches.0;
    upstream = none;
    routes = [];
    upstream_tls_context = none;
    downstream_tls_context = server;
  })

unfoldable pub any_protected : List RouteConfig → Bool
any_protected [] = false
any_protected (route ∷ routes) = is_some route.auth || any_protected routes

abbrev pub is_https : UpstreamScheme → Bool
is_https http = false
is_https https = true

unfoldable pub any_https_upstream : List UpstreamConfig → Bool
any_https_upstream [] = false
any_https_upstream (u ∷ us) = is_https u.scheme || any_https_upstream us

unfoldable pub any_https : List RouteConfig → Bool
any_https [] = false
any_https (route ∷ routes) = any_https_upstream route.upstreams || any_https routes

unfoldable pub load_routes : Libraries → Environment → AppConfig → List ℕ → Result AppConfig
load_routes libraries env config text = do
  routes ← parse_routes libraries env text
  throw_if (not (is_some config.downstream_tls_context) && any_protected routes) unprotected_routes
  ca_file ← read_environment env (codes "APIGATE_UPSTREAM_CA_FILE")
  trust ← make_upstream_tls_context libraries.tls ca_file (any_https routes)
  ok (record config {
    routes = routes;
    upstream_tls_context = shared libraries.upstream_identity trust;
  })

unfoldable pub single_upstream :
    Libraries → Option (List ℕ) → Option (List ℕ) → Option (List ℕ) → Result (Option UpstreamConfig)
single_upstream libraries (some host) (some port) timeout = do
  h ← parse_upstream_host libraries.make_address host
  p ← parse_upstream_port port
  t ← elim timeout [
    | none ↦ ok 3000
    | some value ↦ parse_bounded_milliseconds value (codes "APIGATE_UPSTREAM_TIMEOUT_MS")
  ]
  ok (some (record { host = h; port = p; timeout_ms = t; scheme = http }))
single_upstream libraries none none none = ok none
single_upstream libraries _ _ _ = throws incomplete_upstream

-- The variables of a configuration without routes.
unfoldable pub load_upstream : Libraries → Environment → AppConfig → Result AppConfig
load_upstream libraries env config = do
  host ← read_environment env (codes "APIGATE_UPSTREAM_HOST")
  port ← read_environment env (codes "APIGATE_UPSTREAM_PORT")
  timeout ← read_environment env (codes "APIGATE_UPSTREAM_TIMEOUT_MS")
  upstream ← single_upstream libraries host port timeout
  ca_file ← read_environment env (codes "APIGATE_UPSTREAM_CA_FILE")
  trust ← make_upstream_tls_context libraries.tls ca_file false
  ok (record config {
    upstream = upstream;
    upstream_tls_context = shared libraries.upstream_identity trust;
  })

unfoldable pub has_conflict : Environment → Bool
has_conflict env =
    is_some (env (codes "APIGATE_ROUTES"))
    && (is_some (env (codes "APIGATE_UPSTREAM_HOST"))
        || is_some (env (codes "APIGATE_UPSTREAM_PORT"))
        || is_some (env (codes "APIGATE_UPSTREAM_TIMEOUT_MS")))

unfoldable pub load_config_from_environment : Libraries → Environment → Result AppConfig
load_config_from_environment libraries env = do
  config ← load_settings libraries env
  throw_if (has_conflict env) conflicting_variables
  routes ← read_environment env (codes "APIGATE_ROUTES")
  elim routes [
    | none ↦ load_upstream libraries env config
    | some text ↦ load_routes libraries env config text
  ]
