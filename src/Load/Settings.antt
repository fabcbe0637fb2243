-- ===== src/Load/Settings.antt =====
-- src/config.cpp, parse_routes: the optional settings of one route.
use c_item.Base.{
  ℕ, ◌+◌, Bool, false, not, ◌&&◌, ◌||◌, Option, none, some, List, [], ◌∷◌, ltb, leb, ◌==◌, length,
  set, replicate,
}
use c_item.Base.Text.{codes, all_bytes}
use c_item.Config.{RateLimitConfig, HealthCheckConfig, ApiKeyDigest, ApiKeyAuthConfig, max_keys}
use c_item.Auth.{valid_api_key_reference, valid_api_key, matches_api_key_digest}
use c_item.Load.Result.{
  Result, ok, ◌>>=◌, ◌>>◌, throw_if, bad_key_references, bad_strip_prefix, bad_rate_limit,
  bad_health_check, unknown_health_field, bad_health_path, health_out_of_range,
  timeout_exceeds_interval, bad_auth, bad_reference_string, invalid_reference, duplicate_keys,
  missing_key, hash_failed, bad_stream_response, ConfigError,
}
use c_item.Load.Scalar.{Environment, is_empty}
use c_item.Load.Host.{starts_with_byte}
use c_item.Load.Json.{
  Json, Members, lookup, keys, as_object, as_array, as_string, as_boolean, contains_text, only_keys,
  demand,
}
use c_item.Load.Route.{route_integer, integer_or, contains}

-- A flag that is false where it is not set.
unfoldable pub flag : ConfigError → Option Json → Result Bool
flag why none = ok false
flag why (some value) = demand (as_boolean value) why

unfoldable pub parse_strip_prefix : Members → Result Bool
parse_strip_prefix entry = flag bad_strip_prefix (lookup (codes "strip_prefix") entry)

unfoldable pub parse_stream_response : Members → Result Bool
parse_stream_response entry = flag bad_stream_response (lookup (codes "stream_response") entry)

unfoldable pub read_rate_limit : Json → Result RateLimitConfig
read_rate_limit value = do
  limit ← demand (as_object value) bad_rate_limit
  throw_if (not (length (keys limit) == 2)) bad_rate_limit
  requests ← demand (lookup (codes "requests_per_second") limit) bad_rate_limit
  burst ← demand (lookup (codes "burst") limit) bad_rate_limit
  r ← route_integer requests 1000000
  b ← route_integer burst 1000000
  ok (record { requests_per_second = r; burst = b })

-- An optional setting.
unfoldable pub optionally {ℓ} : {A : Type ℓ} → (Json → Result A) → Option Json → Result (Option A)
optionally read none = ok none
optionally read (some value) = read value >>= λ a. ok (some a)

unfoldable pub parse_rate_limit : Members → Result (Option RateLimitConfig)
parse_rate_limit entry = optionally read_rate_limit (lookup (codes "rate_limit") entry)

unfoldable pub path_byte : ℕ → Bool
path_byte c = not (leb c 32 || c == 127 || c == b'?' || c == b'#')

-- The lambda `integer`.
unfoldable pub health_integer : List ℕ → Members → ℕ → ℕ → ℕ → Result ℕ
health_integer field health default minimum maximum = do
  number ← integer_or field health maximum default
  throw_if (ltb number minimum) health_out_of_range
  ok number

abbrev pub health_fields : List (List ℕ)
health_fields =
    codes "path"
    ∷ codes "interval_ms"
    ∷ codes "timeout_ms"
    ∷ codes "unhealthy_threshold"
    ∷ codes "healthy_threshold"
    ∷ []

-- The path, behind the tests of the other fields' names.
unfoldable pub health_path : Members → Result (List ℕ)
health_path health = do
  path_value ← demand (lookup (codes "path") health) bad_health_check
  path ← demand (as_string path_value) bad_health_check
  throw_if (not (only_keys health_fields (keys health))) unknown_health_field
  throw_if (not (starts_with_byte b'/' path) || not (all_bytes path_byte path)) bad_health_path
  ok path

unfoldable pub health_numbers : Members → List ℕ → Result HealthCheckConfig
health_numbers health path = do
  interval ← health_integer (codes "interval_ms") health 5000 100 60000
  timeout ← health_integer (codes "timeout_ms") health 1000 50 60000
  unhealthy ← health_integer (codes "unhealthy_threshold") health 3 1 10
  healthy ← health_integer (codes "healthy_threshold") health 2 1 10
  throw_if (ltb interval timeout) timeout_exceeds_interval
  ok (record {
    path = path;
    interval_ms = interval;
    timeout_ms = timeout;
    unhealthy_threshold = unhealthy;
    healthy_threshold = healthy;
  })

unfoldable pub read_health_check : Json → Result HealthCheckConfig
read_health_check value = do
  health ← demand (as_object value) bad_health_check
  path ← health_path health
  health_numbers health path

unfoldable pub parse_health_check : Members → Result (Option HealthCheckConfig)
parse_health_check entry = optionally read_health_check (lookup (codes "health_check") entry)

-- The references of an api_key_envs array.
unfoldable pub read_references : List Json → Result (List (List ℕ))
read_references [] = ok []
read_references (value ∷ values) = do
  reference ← demand (as_string value) bad_key_references
  throw_if (is_empty reference) bad_key_references
  references ← read_references values
  ok (reference ∷ references)

unfoldable pub read_auth_references : Members → Result (List (List ℕ))
read_auth_references settings = elim (lookup (codes "api_key_env") settings) [
  | none ↦ do
    envs ← demand (lookup (codes "api_key_envs") settings) bad_auth
    values ← demand (as_array envs) bad_key_references
    throw_if (is_empty values || ltb max_keys (length values)) bad_key_references
    read_references values
  | some value ↦ do reference ← demand (as_string value) bad_reference_string; ok (reference ∷ [])
]

-- The digest of one reference, with the tests before it; `unique` holds the earlier references.
unfoldable pub reference_digest :
    Environment → (List ℕ → Option ApiKeyDigest) → List (List ℕ) → List ℕ → Result ApiKeyDigest
reference_digest env hash_api_key unique reference = do
  throw_if (not (valid_api_key_reference reference)) invalid_reference
  throw_if (contains_text reference unique) duplicate_keys
  key ← demand (env reference) missing_key
  throw_if (not (valid_api_key key)) missing_key
  demand (hash_api_key key) hash_failed

-- `digests[key_count++] = digest`.
unfoldable pub push_digest : ApiKeyAuthConfig → ApiKeyDigest → ApiKeyAuthConfig
push_digest c digest = record {
  digests = set c.digests c.key_count digest;
  key_count = c.key_count + 1;
}

unfoldable pub configure_keys :
    Environment
    → (List ℕ → Option ApiKeyDigest)
    → List (List ℕ)
    → ApiKeyAuthConfig
    → List (List ℕ)
    → Result ApiKeyAuthConfig
configure_keys env hash_api_key unique configured [] = ok configured
configure_keys env hash_api_key unique configured (reference ∷ references) = do
  digest ← reference_digest env hash_api_key unique reference
  throw_if (matches_api_key_digest configured digest) duplicate_keys
  configure_keys env hash_api_key (reference ∷ unique) (push_digest configured digest) references

abbrev pub no_keys : ApiKeyAuthConfig
no_keys = record { digests = replicate max_keys (replicate 32 0); key_count = 0 }

unfoldable pub read_auth :
    Environment → (List ℕ → Option ApiKeyDigest) → Json → Result ApiKeyAuthConfig
read_auth env hash_api_key value = do
  settings ← demand (as_object value) bad_auth
  throw_if
      (not (length (keys settings) == 1)
        || (not (contains (codes "api_key_env") settings)
            && not (contains (codes "api_key_envs") settings)))
      bad_auth
  references ← read_auth_references settings
  configure_keys env hash_api_key [] no_keys references

unfoldable pub parse_auth :
    Environment → (List ℕ → Option ApiKeyDigest) → Members → Result (Option ApiKeyAuthConfig)
parse_auth env hash_api_key entry =
    optionally (read_auth env hash_api_key) (lookup (codes "auth") entry)
