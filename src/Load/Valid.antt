-- ===== src/Load/Valid.antt =====
-- What a configuration that loads can be relied on to satisfy.
use c_item.Base.{
  ℕ, ◌≤◌, ◌≡◌, ◌≢◌, ◌⊎◌, true, Option, none, some, List, [], ◌∷◌, length, get_elem?, ◌<◌, Each,
}
use c_item.Base.Text.{all_bytes}
use c_item.Base.Pieces.{pieces}
use c_item.Config.{
  UpstreamConfig, RateLimitConfig, HealthCheckConfig, ApiKeyDigest, ApiKeyAuthConfig, max_keys,
  RouteConfig, AppConfig,
}
use c_item.Load.Bounds.{OneTo}
use c_item.Load.Scalar.{label_byte}
use c_item.Load.Host.Segments.{IsPrefix}
use c_item.Load.Host.Labels.{IsLabel}
use c_item.Load.Settings.{path_byte}

abbrev pub Optional {ℓ κ} : {A : Type ℓ} → (A → Type κ) → Option A → Type κ
Optional P none = Unit {κ}
Optional P (some a) = P a

-- No element is one of the others.
abbrev pub Apart {ℓ} : {A : Type ℓ} → A → List A → Type ℓ
Apart a xs = Each (λ b. a ≢ b) xs

abbrev pub Distinct {ℓ} : {A : Type ℓ} → List A → Type ℓ
Distinct [] = Unit {ℓ}
Distinct (x ∷ xs) = Apart x xs × Distinct xs

-- An address's canonical text, or the name of a host.
abbrev pub IsHost : (List ℕ → Option (List ℕ)) → List ℕ → Type 0
IsHost make_address host =
    ((text : List ℕ) × (make_address text ≡ some host))
    ⊎ ((length host ≤ 253) × Each IsLabel (pieces b'.' host))

pub record UpstreamIsValid (make_address : List ℕ → Option (List ℕ)) (u : UpstreamConfig)
    : Type 0 where
  pub host_valid : IsHost make_address u.host
  pub port_valid : OneTo 65535 u.port
  pub timeout_valid : OneTo 60000 u.timeout_ms

pub record RateLimitIsValid (c : RateLimitConfig) : Type 0 where
  pub rate_valid : OneTo 1000000 c.requests_per_second
  pub burst_valid : OneTo 1000000 c.burst

pub record HealthCheckIsValid (c : HealthCheckConfig) : Type 0 where
  pub rooted : (rest : List ℕ) × (c.path ≡ b'/' ∷ rest)
  pub plain : all_bytes path_byte c.path ≡ true
  pub interval_valid : (100 ≤ c.interval_ms) × (c.interval_ms ≤ 60000)
  pub timeout_valid : (50 ≤ c.timeout_ms) × (c.timeout_ms ≤ c.interval_ms)
  pub unhealthy_valid : OneTo 10 c.unhealthy_threshold
  pub healthy_valid : OneTo 10 c.healthy_threshold

pub record AuthIsValid (c : ApiKeyAuthConfig) : Type 0 where
  pub room : length c.digests ≡ max_keys
  pub counted : OneTo max_keys c.key_count
  pub different :
      (i j : ℕ) (d : ApiKeyDigest)
      → i < c.key_count
      → j < c.key_count
      → get_elem? c.digests i ≡ some d
      → get_elem? c.digests j ≡ some d
      → i ≡ j

pub record RouteIsValid (make_address : List ℕ → Option (List ℕ)) (r : RouteConfig) : Type 0 where
  pub prefix_valid : IsPrefix r.prefix
  pub some_upstream : OneTo 16 (length r.upstreams)
  pub upstreams_valid : Each (UpstreamIsValid make_address) r.upstreams
  pub limit_valid : Optional RateLimitIsValid r.rate_limit
  pub health_valid : Optional HealthCheckIsValid r.health_check
  pub auth_valid : Optional AuthIsValid r.auth

abbrev pub IsShortLabel : List ℕ → Type 0
IsShortLabel s = (length s ≤ 64) × (all_bytes label_byte s ≡ true)

-- The prefix of every route differs from those of the routes before it.
abbrev pub prefixes : List RouteConfig → List (List ℕ)
prefixes [] = []
prefixes (r ∷ rs) = r.prefix ∷ prefixes rs

-- What holds of the settings before the routes are read.
pub record SettingsAreValid (c : AppConfig) : Type 0 where
  pub name_valid : IsShortLabel c.service_name
  pub environment_valid : IsShortLabel c.environment
  pub port_valid : c.listen_port ≤ 65535
  pub connections_valid : OneTo 65535 c.max_connections
  pub proxies_valid : OneTo 65535 c.max_concurrent_proxies
  pub bytes_valid : OneTo 1073741824 c.max_in_flight_bytes
  pub grace_valid : OneTo 60000 c.shutdown_grace_ms
  pub no_upstream : c.upstream ≡ none
  pub no_routes : c.routes ≡ []

-- What holds of a configuration whatever it is loaded from: the fields, and that requests go one
-- way, and that the keys of a protected route are only read from a connection with TLS.
pub record ConfigIsValid (make_address : List ℕ → Option (List ℕ)) (c : AppConfig) : Type 0 where
  pub name_valid : IsShortLabel c.service_name
  pub environment_valid : IsShortLabel c.environment
  pub port_valid : c.listen_port ≤ 65535
  pub connections_valid : OneTo 65535 c.max_connections
  pub proxies_valid : OneTo 65535 c.max_concurrent_proxies
  pub bytes_valid : OneTo 1073741824 c.max_in_flight_bytes
  pub grace_valid : OneTo 60000 c.shutdown_grace_ms
  pub upstream_valid : Optional (UpstreamIsValid make_address) c.upstream
  pub routes_valid : Each (RouteIsValid make_address) c.routes
  pub few_routes : length c.routes ≤ 32
  pub prefixes_differ : Distinct (prefixes c.routes)
  pub one_way : (c.upstream ≡ none) ⊎ (c.routes ≡ [])
  pub guarded :
      (c.downstream_tls_context ≢ none) ⊎ Each (λ (r : RouteConfig). r.auth ≡ none) c.routes
