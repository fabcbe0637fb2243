-- ===== src/Load/Route.antt =====
-- src/config.cpp: one route of APIGATE_ROUTES. `make_address` is Boost's, `env` is getenv and
-- `hash_api_key` is OpenSSL's digest, `none` where it throws.
use c_item.Base.{
  ℕ, Bool, not, ◌||◌, Option, none, some, List, [], ◌∷◌, ltb, ◌==◌, if◌then◌else◌, length, is_some,
}
use c_item.Base.Text.{codes, eq_bytes}
use c_item.Config.{UpstreamScheme, http, https, UpstreamConfig}
use c_item.Load.Result.{
  Result, ok, throws, ◌>>=◌, ◌>>◌, throw_if, bad_integer, integer_out_of_range, bad_upstream,
  bad_route_host, bad_scheme, conflicting_upstreams, bad_upstreams, bad_upstream_entry,
  unknown_upstream_field,
}
use c_item.Load.Scalar.{is_empty}
use c_item.Load.Host.{parse_upstream_host}
use c_item.Load.Json.{
  Json, Members, pos, number_unsigned, number_integer, lookup, keys, as_object, as_array, as_string,
  only_keys, demand,
}

unfoldable pub in_bounds : ℕ → ℕ → Result ℕ
in_bounds number maximum =
    if number == 0 || ltb maximum number then throws integer_out_of_range else ok number

-- The conversion of a signed value to uint64 comes behind the test of its sign.
unfoldable pub route_integer : Json → ℕ → Result ℕ
route_integer (number_unsigned n) maximum = in_bounds n maximum
route_integer (number_integer (pos n)) maximum = in_bounds n maximum
route_integer _ maximum = throws bad_integer

-- The optional integer of a field.
unfoldable pub integer_or : List ℕ → Members → ℕ → ℕ → Result ℕ
integer_or field entry maximum default = elim (lookup field entry) [
  | none ↦ ok default
  | some value ↦ route_integer value maximum
]

unfoldable pub scheme_of : List ℕ → Result UpstreamScheme
scheme_of value =
    if eq_bytes value (codes "http")
    then ok http
    else if eq_bytes value (codes "https")
    then ok https
    else throws bad_scheme

unfoldable pub parse_scheme : Option Json → Result UpstreamScheme
parse_scheme none = ok http
parse_scheme (some value) = demand (as_string value) bad_scheme >>= scheme_of

-- The try block: any error of the host has one message here.
unfoldable pub catch_host : Result (List ℕ) → Result (List ℕ)
catch_host (ok host) = ok host
catch_host (throws why) = throws bad_route_host

unfoldable pub parse_route_upstream : (List ℕ → Option (List ℕ)) → Json → Result UpstreamConfig
parse_route_upstream make_address value = do
  entry ← demand (as_object value) bad_upstream
  host_value ← demand (lookup (codes "host") entry) bad_upstream
  port_value ← demand (lookup (codes "port") entry) bad_upstream
  host ← demand (as_string host_value) bad_upstream
  validated_host ←
      catch_host
        (if is_empty host then throws bad_route_host else parse_upstream_host make_address host)
  port ← route_integer port_value 65535
  timeout ← integer_or (codes "timeout_ms") entry 60000 3000
  scheme ← parse_scheme (lookup (codes "scheme") entry)
  ok (record { host = validated_host; port = port; timeout_ms = timeout; scheme = scheme })

abbrev pub backend_fields : List (List ℕ)
backend_fields = codes "host" ∷ codes "port" ∷ codes "timeout_ms" ∷ codes "scheme" ∷ []

unfoldable pub parse_backend : (List ℕ → Option (List ℕ)) → Json → Result UpstreamConfig
parse_backend make_address backend = do
  members ← demand (as_object backend) bad_upstream_entry
  throw_if (not (only_keys backend_fields (keys members))) unknown_upstream_field
  parse_route_upstream make_address backend

unfoldable pub parse_backends :
    (List ℕ → Option (List ℕ)) → List Json → Result (List UpstreamConfig)
parse_backends make_address [] = ok []
parse_backends make_address (backend ∷ pool) = do
  upstream ← parse_backend make_address backend
  upstreams ← parse_backends make_address pool
  ok (upstream ∷ upstreams)

abbrev pub contains : List ℕ → Members → Bool
contains k entry = is_some (lookup k entry)

unfoldable pub has_upstream_fields : Members → Bool
has_upstream_fields entry =
    contains (codes "host") entry
    || contains (codes "port") entry
    || contains (codes "timeout_ms") entry
    || contains (codes "scheme") entry

unfoldable pub parse_upstreams :
    (List ℕ → Option (List ℕ)) → Json → Members → Result (List UpstreamConfig)
parse_upstreams make_address value entry = elim (lookup (codes "upstreams") entry) [
  | none ↦ parse_route_upstream make_address value >>= λ upstream. ok (upstream ∷ [])
  | some pool_value ↦ do
    throw_if (has_upstream_fields entry) conflicting_upstreams
    pool ← demand (as_array pool_value) bad_upstreams
    throw_if (is_empty pool || ltb 16 (length pool)) bad_upstreams
    parse_backends make_address pool
]
