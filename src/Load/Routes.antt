-- ===== src/Load/Routes.antt =====
-- src/config.cpp, parse_routes: the array of routes. `parse_json` is nlohmann's parser: the events
-- that it reports in order, and the document, or `none` where it throws behind them.
use c_item.Base.{ℕ, ◌*◌, not, ◌||◌, Option, List, [], ◌∷◌, ltb, length}
use c_item.Base.Text.{codes}
use c_item.Config.{RouteConfig, ApiKeyDigest}
use c_item.Load.Result.{
  Result, ok, ◌>>=◌, ◌>>◌, throw_if, document_too_long, invalid_json, bad_document, bad_entry,
  unknown_field, bad_prefix, duplicate_prefix,
}
use c_item.Tls.{TlsLibrary}
use c_item.Load.Scalar.{Environment, is_empty}
use c_item.Load.Host.{validate_route_prefix}
use c_item.Load.Json.{
  Json, Members, lookup, keys, as_object, as_array, as_string, contains_text, only_keys, demand,
}
use c_item.Load.Events.{ParseEvent, initial_callback, run_callback}
use c_item.Load.Route.{parse_upstreams}
use c_item.Load.Settings.{
  parse_strip_prefix, parse_rate_limit, parse_health_check, parse_auth, parse_stream_response,
}

abbrev pub route_fields : List (List ℕ)
route_fields =
    codes "prefix"
    ∷ codes "host"
    ∷ codes "port"
    ∷ codes "timeout_ms"
    ∷ codes "strip_prefix"
    ∷ codes "rate_limit"
    ∷ codes "upstreams"
    ∷ codes "scheme"
    ∷ codes "health_check"
    ∷ codes "auth"
    ∷ codes "stream_response"
    ∷ []

-- The libraries' functions, and the identities of the TLS contexts that are made.
pub record Libraries : Type 0 where
  pub make_address : List ℕ → Option (List ℕ)
  pub hash_api_key : List ℕ → Option ApiKeyDigest
  pub parse_json : List ℕ → List (ℕ × ParseEvent) × Option Json
  pub tls : TlsLibrary
  pub upstream_identity : ℕ
  pub downstream_identity : ℕ

-- The first half of one pass of the loop; `earlier` holds the prefixes of the earlier routes.
unfoldable pub entry_prefix : List (List ℕ) → Json → Result (Members × List ℕ)
entry_prefix earlier value = do
  entry ← demand (as_object value) bad_entry
  prefix_value ← demand (lookup (codes "prefix") entry) bad_entry
  throw_if (not (only_keys route_fields (keys entry))) unknown_field
  prefix ← demand (as_string prefix_value) bad_prefix
  validate_route_prefix prefix
  throw_if (contains_text prefix earlier) duplicate_prefix
  ok (entry, prefix)

-- The second half.
unfoldable pub entry_settings :
    Libraries → Environment → Json → Members → List ℕ → Result RouteConfig
entry_settings libraries env value entry prefix = do
  upstreams ← parse_upstreams libraries.make_address value entry
  strip_prefix ← parse_strip_prefix entry
  rate_limit ← parse_rate_limit entry
  health_check ← parse_health_check entry
  auth ← parse_auth env libraries.hash_api_key entry
  stream_response ← parse_stream_response entry
  ok (record {
    prefix = prefix;
    upstreams = upstreams;
    strip_prefix = strip_prefix;
    rate_limit = rate_limit;
    health_check = health_check;
    auth = auth;
    stream_response = stream_response;
  })

unfoldable pub parse_entry : Libraries → Environment → List (List ℕ) → Json → Result RouteConfig
parse_entry libraries env earlier value =
    entry_prefix earlier value >>= λ found. entry_settings libraries env value found.0 found.1

unfoldable pub parse_entries :
    Libraries → Environment → List (List ℕ) → List Json → Result (List RouteConfig)
parse_entries libraries env earlier [] = ok []
parse_entries libraries env earlier (value ∷ values) = do
  route ← parse_entry libraries env earlier value
  routes ← parse_entries libraries env (route.prefix ∷ earlier) values
  ok (route ∷ routes)

-- The callback's exception comes first: it is thrown while the text is parsed.
unfoldable pub parse_document : Libraries → List ℕ → Result Json
parse_document libraries text =
    let (events, document) = libraries.parse_json text in
    run_callback initial_callback events >>= λ s. demand document invalid_json

unfoldable pub parse_routes : Libraries → Environment → List ℕ → Result (List RouteConfig)
parse_routes libraries env text = do
  throw_if (ltb (64 * 1024) (length text)) document_too_long
  document ← parse_document libraries text
  entries ← demand (as_array document) bad_document
  throw_if (is_empty entries || ltb 32 (length entries)) bad_document
  parse_entries libraries env [] entries
