-- ===== src/Load/Examples.antt =====
-- An environment with one route, and the theorems at concrete inputs.
use c_item.Base.{
  ◌++◌, ℕ, ◌≡◌, ◌≤◌, refl, true, false, Option, none, some, List, [], ◌∷◌, arith, if◌then◌else◌,
  replicate, length, Each, ◌↔◌,
}
use c_item.Base.Text.{codes, eq_bytes, all_bytes, starts_with, find_byte}
use c_item.Base.Decimal.{from_chars, read_digits, to_decimal}
use c_item.Base.Pieces.{pieces}
use c_item.Config.{AppConfig, http, info, warn, ApiKeyDigest, ApiKeyAuthConfig}
use c_item.Auth.{
  valid_api_key_reference, valid_reference_name, valid_api_key, key_byte, upper_digit_or_underscore,
  matches_api_key_digest,
}
use c_item.Admission.{RouteProxyAdmission, make_admission}
use c_item.Admission.Outcome.{Fits}
use c_item.Tls.{TlsLibrary, make_downstream_tls_context, make_upstream_tls_context}
use c_item.Load.Result.{ok, ◌>>=◌}
use c_item.Load.Scalar.{
  Environment, read_environment, isalnum, validate_label, label_byte, to_string, parse_log_level,
  parse_listen_port, parse_upstream_port, parse_capacity_limit, parse_bounded_milliseconds,
  parse_max_in_flight_bytes,
}
use c_item.Load.Host.{
  bad_label_end, hostname_step, hostname_loop, ends_with_byte, validate_dns_hostname,
  parse_upstream_host, segment_byte, bad_segment, segment_loop, validate_route_prefix,
}
use c_item.Load.Json.{
  Json, Members, no_members, member, no_elements, element, number_unsigned, string, array, object,
  lookup, contains_text, only_keys, as_object,
}
use c_item.Load.Events.{
  ParseEvent, array_start, array_end, object_start, object_end, key, value, CallbackState,
  initial_callback, is_text, on_array_start, on_array_end, on_value, has_settings, on_object_start,
  note_auth_key, insert_key, callback, run_callback,
}
use c_item.Load.Route.{
  in_bounds, route_integer, integer_or, scheme_of, parse_scheme, catch_host, parse_route_upstream,
  parse_backend, parse_backends, has_upstream_fields, parse_upstreams,
}
use c_item.Load.Settings.{
  flag, parse_strip_prefix, parse_stream_response, optionally, parse_rate_limit, parse_health_check,
  read_auth_references, reference_digest, push_digest, configure_keys, no_keys, read_auth,
  parse_auth,
}
use c_item.Load.Routes.{
  Libraries, entry_prefix, entry_settings, parse_entry, parse_entries, parse_document, parse_routes,
}
use c_item.Load.Host.Labels.{IsLabel, validate_dns_hostname_iff}
use c_item.Load.Host.Segments.{IsPrefix, validate_route_prefix_iff}
use c_item.Load.Events.Seen.{nothing_seen, see, see_all, IsSmall, run_callback-IsSmall}
use c_item.Load.RoundTrip.{log_level_round_trip, numbers_round_trip}
use c_item.Load.Keys.{KeysOf, read_auth-KeysOf}
use c_item.Load.Valid.{ConfigIsValid}
use c_item.Load.Sound.{load_config_from_environment-ConfigIsValid}
use c_item.Load.Starts.{IsReady, loaded_admission}
use c_item.Load.App.{
  setting, parse_switch, parse_label, load_server_context, load_switches, load_labels,
  load_listener, load_limits, load_settings, any_protected, any_https_upstream, any_https,
  load_routes, has_conflict, load_config_from_environment,
}

abbrev fields : List (List ℕ × Json) → Members
fields [] = no_members
fields ((k, v) ∷ ms) = member k v (fields ms)

abbrev document : Json
document = array (
    element
      (object (
        fields (
          (codes "host", string (codes "api.local"))
          ∷ (codes "port", number_unsigned 81)
          ∷ (codes "prefix", string (codes "/a/b"))
          ∷ [])))
      no_elements)

-- What the parser reports of the document.
abbrev first_events : List (ℕ × ParseEvent)
first_events = (0, array_start) ∷ (1, object_start) ∷ (2, key (codes "prefix")) ∷ []

abbrev later_events : List (ℕ × ParseEvent)
later_events =
    (2, value (string (codes "/a/b")))
    ∷ (2, key (codes "host"))
    ∷ (2, value (string (codes "api.local")))
    ∷ (2, key (codes "port"))
    ∷ (2, value (number_unsigned 81))
    ∷ (1, object_end)
    ∷ (0, array_end)
    ∷ []

abbrev events : List (ℕ × ParseEvent)
events = first_events ++ later_events

abbrev tls : TlsLibrary
tls = record {
  set_min_version = true;
  set_early_data = true;
  set_alpn = true;
  use_certificate_chain_file = λ file. true;
  use_private_key_file = λ file. true;
  password_requested = λ file. false;
  check_private_key = λ cert file. true;
  load_verify_file = λ file. true;
  is_regular_file = λ file. eq_bytes file (codes "/etc/ssl/cert.pem");
}

abbrev libraries : Libraries
libraries = record {
  make_address = λ text. none;
  hash_api_key = λ text. some (replicate 32 (length text));
  parse_json = λ text. (events, some document);
  tls = tls;
  upstream_identity = 1;
  downstream_identity = 2;
}

abbrev env : Environment
env name =
    if eq_bytes name (codes "APIGATE_ROUTES")
    then some (codes "[...]")
    else if eq_bytes name (codes "APIGATE_LISTEN_PORT")
    then some (codes "9000")
    else none

abbrev config : AppConfig
config = record {
  service_name = codes "api-gate";
  environment = codes "development";
  log_level = info;
  listen_address = codes "127.0.0.1";
  listen_port = 9000;
  max_connections = 256;
  max_concurrent_proxies = 32;
  max_in_flight_bytes = 67108864;
  shutdown_grace_ms = 5000;
  metrics_enabled = false;
  upstream_keep_alive = false;
  upstream = none;
  routes =
      record {
        prefix = codes "/a/b";
        upstreams =
            record { host = codes "api.local"; port = 81; timeout_ms = 3000; scheme = http } ∷ [];
        strip_prefix = false;
        rate_limit = none;
        health_check = none;
        auth = none;
        stream_response = false;
      }
      ∷ [];
  upstream_tls_context = none;
  downstream_tls_context = none;
}

loads : load_config_from_environment libraries env ≡ ok config
unfolding load_config_from_environment has_conflict load_routes any_https any_https_upstream
    any_protected load_settings load_limits load_listener load_labels load_switches
    load_server_context parse_label parse_switch setting parse_routes parse_document parse_entries
    parse_entry entry_settings entry_prefix parse_auth parse_health_check parse_rate_limit
    optionally parse_stream_response parse_strip_prefix flag parse_upstreams has_upstream_fields
    parse_backends parse_backend parse_route_upstream catch_host parse_scheme scheme_of integer_or
    route_integer in_bounds run_callback callback insert_key note_auth_key on_object_start
    has_settings on_value on_array_end on_array_start is_text lookup contains_text only_keys
    validate_route_prefix segment_loop bad_segment segment_byte parse_upstream_host
    validate_dns_hostname ends_with_byte hostname_loop hostname_step bad_label_end read_environment
    isalnum validate_label label_byte parse_listen_port from_chars read_digits ◌>>=◌ eq_bytes
    all_bytes find_byte make_downstream_tls_context make_upstream_tls_context
loads = refl

load_config_from_environment-ConfigIsValid_example : ConfigIsValid libraries.make_address config
load_config_from_environment-ConfigIsValid_example =
    load_config_from_environment-ConfigIsValid libraries env config loads

loaded_admission_example :
    (a : RouteProxyAdmission) × (make_admission config.routes (some 7) 1000 ≡ some a)
    × Fits config.routes a
    × Each IsReady config.routes
loaded_admission_example = loaded_admission libraries env config 7 1000 loads (omega arith)

log_level_round_trip_example :
    (parse_log_level (codes "warn") ≡ ok warn) ↔ (codes "warn" ≡ to_string warn)
log_level_round_trip_example = log_level_round_trip (codes "warn") warn

numbers_round_trip_example :
    (parse_upstream_port (to_decimal 65535) ≡ ok 65535)
    × (parse_listen_port (to_decimal 0) ≡ ok 0)
    × (parse_capacity_limit (to_decimal 256) (codes "APIGATE_MAX_CONNECTIONS") ≡ ok 256)
    × (parse_bounded_milliseconds (to_decimal 60000) (codes "APIGATE_MAX_CONNECTIONS") ≡ ok 60000)
    × (parse_max_in_flight_bytes (to_decimal 67108864) ≡ ok 67108864)
numbers_round_trip_example =
    numbers_round_trip (codes "APIGATE_MAX_CONNECTIONS") 65535 0 256 60000 67108864
      (omega arith, omega arith) (omega arith) (omega arith, omega arith) (omega arith, omega arith)
      (omega arith, omega arith)

validate_dns_hostname_iff_example :
    (validate_dns_hostname (codes "api.local") ≡ ok tt)
    ↔ ((length (codes "api.local") ≤ 253) × Each IsLabel (pieces b'.' (codes "api.local")))
validate_dns_hostname_iff_example = validate_dns_hostname_iff (codes "api.local")

validate_route_prefix_iff_example :
    (validate_route_prefix (codes "/a/b") ≡ ok tt) ↔ IsPrefix (codes "/a/b")
validate_route_prefix_iff_example = validate_route_prefix_iff (codes "/a/b")

-- The state of the callback behind the events.
abbrev parsed : CallbackState
parsed = record initial_callback {
  route_keys = codes "port" ∷ codes "host" ∷ codes "prefix" ∷ [];
  route_key = codes "port";
  object_count = 1;
}

accepts_events : run_callback initial_callback (first_events ++ later_events) ≡ ok parsed
unfolding run_callback callback insert_key note_auth_key on_object_start on_value on_array_end
    on_array_start is_text contains_text eq_bytes ◌>>=◌
accepts_events = refl

run_callback-IsSmall_example : IsSmall (see_all nothing_seen first_events)
run_callback-IsSmall_example = run_callback-IsSmall first_events later_events parsed accepts_events

-- A second array of upstreams is counted anew.
counts_upstreams :
    (see_all nothing_seen (
      (2, array_start)
      ∷ (3, object_start)
      ∷ (3, object_start)
      ∷ (2, array_end)
      ∷ (2, array_start)
      ∷ (3, object_start)
      ∷ [])).upstreams
    ≡ 1
unfolding see_all see
counts_upstreams = refl

-- A route with one key.
abbrev reference : List ℕ
reference = codes "APIGATE_AUTH_KEY_A"

abbrev a_key : List ℕ
a_key = replicate 32 b'k'

abbrev key_env : Environment
key_env name = if eq_bytes name reference then some a_key else none

abbrev auth_value : Json
auth_value = object (fields ((codes "api_key_env", string reference) ∷ []))

abbrev hash : List ℕ → Option ApiKeyDigest
hash text = some (replicate 32 (length text))

abbrev configured : ApiKeyAuthConfig
configured = push_digest no_keys (replicate 32 32)

reads_auth : read_auth key_env hash auth_value ≡ ok configured
unfolding read_auth configure_keys reference_digest read_auth_references lookup contains_text
    eq_bytes ◌>>=◌ valid_api_key_reference valid_reference_name starts_with valid_api_key key_byte
    upper_digit_or_underscore all_bytes matches_api_key_digest
reads_auth = refl

read_auth-KeysOf_example :
    (settings : Members) × (references : List (List ℕ)) × (as_object auth_value ≡ some settings)
    × (read_auth_references settings ≡ ok references)
    × KeysOf key_env hash configured references
read_auth-KeysOf_example = read_auth-KeysOf key_env hash auth_value configured reads_auth
