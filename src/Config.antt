-- ===== src/Config.antt =====
-- The configuration's data: include/apigate/config.hpp. Text is its bytes; a shared TLS context
-- is the identity of the object that the pointer names.
use c_item.Base.{ℕ, Bool, Option, List}

pub data UpstreamScheme : Type 0 where
  http https : UpstreamScheme

pub data LogLevel : Type 0 where
  trace debug info warn error critical : LogLevel

pub record UpstreamConfig : Type 0 where
  pub host : List ℕ
  pub port : ℕ
  pub timeout_ms : ℕ
  pub scheme : UpstreamScheme

pub record RateLimitConfig : Type 0 where
  pub requests_per_second : ℕ
  pub burst : ℕ

pub record HealthCheckConfig : Type 0 where
  pub path : List ℕ
  pub interval_ms : ℕ
  pub timeout_ms : ℕ
  pub unhealthy_threshold : ℕ
  pub healthy_threshold : ℕ

-- 32 bytes.
abbrev pub ApiKeyDigest : Type 0
ApiKeyDigest = List ℕ

abbrev pub max_keys : ℕ
max_keys = 4

pub record ApiKeyAuthConfig : Type 0 where
  pub digests : List ApiKeyDigest
  pub key_count : ℕ

pub record RouteConfig : Type 0 where
  pub prefix : List ℕ
  pub upstreams : List UpstreamConfig
  pub strip_prefix : Bool
  pub rate_limit : Option RateLimitConfig
  pub health_check : Option HealthCheckConfig
  pub auth : Option ApiKeyAuthConfig
  pub stream_response : Bool

pub record AppConfig : Type 0 where
  pub service_name : List ℕ
  pub environment : List ℕ
  pub log_level : LogLevel
  pub listen_address : List ℕ
  pub listen_port : ℕ
  pub max_connections : ℕ
  pub max_concurrent_proxies : ℕ
  pub max_in_flight_bytes : ℕ
  pub shutdown_grace_ms : ℕ
  pub metrics_enabled : Bool
  pub upstream_keep_alive : Bool
  pub upstream : Option UpstreamConfig
  pub routes : List RouteConfig
  pub upstream_tls_context : Option ℕ
  pub downstream_tls_context : Option ℕ
