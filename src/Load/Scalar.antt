-- ===== src/Load/Scalar.antt =====
-- src/config.cpp, the variables with one value each: `env` is getenv, where an unset variable is
-- `none`, and `make_address` is Boost's, which returns an address's canonical text.
use c_item.Base.{
  ℕ, Bool, true, false, not, ◌&&◌, ◌||◌, Option, none, some, List, [], ◌∷◌, ltb, leb, ◌==◌,
  if◌then◌else◌, length,
}
use c_item.Base.Text.{codes, eq_bytes, all_bytes}
use c_item.Base.Decimal.{from_chars}
use c_item.Config.{LogLevel, trace, debug, info, warn, error, critical}
use c_item.Load.Result.{
  Result, ok, throws, throw_if, ConfigError, empty_variable, bad_label, bad_capacity,
  bad_milliseconds, bad_log_level, bad_listen_address, bad_listen_port, bad_upstream_port,
  bad_in_flight_bytes,
}

abbrev pub Environment : Type 0
Environment = List ℕ → Option (List ℕ)

abbrev pub is_empty {ℓ} : {A : Type ℓ} → List A → Bool
is_empty [] = true
is_empty (x ∷ xs) = false

unfoldable pub read_environment : Environment → List ℕ → Result (Option (List ℕ))
read_environment env name = elim (env name) [
  | none ↦ ok none
  | some value ↦ if is_empty value then throws (empty_variable name) else ok (some value)
]

abbrev pub in_range : ℕ → ℕ → ℕ → Bool
in_range low high c = leb low c && leb c high

-- std::isalnum in the "C" locale.
unfoldable pub isalnum : ℕ → Bool
isalnum c = in_range b'0' b'9' c || in_range b'A' b'Z' c || in_range b'a' b'z' c

abbrev pub max_label_length : ℕ
max_label_length = 64

unfoldable pub label_byte : ℕ → Bool
label_byte c = isalnum c || c == b'-' || c == b'_' || c == b'.'

unfoldable pub validate_label : List ℕ → List ℕ → Result (Unit {0})
validate_label value variable_name =
    throw_if (ltb max_label_length (length value) || not (all_bytes label_byte value))
      (bad_label variable_name)

unfoldable pub to_string : LogLevel → List ℕ
to_string trace = codes "trace"
to_string debug = codes "debug"
to_string info = codes "info"
to_string warn = codes "warn"
to_string error = codes "error"
to_string critical = codes "critical"

unfoldable pub parse_log_level : List ℕ → Result LogLevel
parse_log_level value =
    if eq_bytes value (codes "trace")
    then ok trace
    else if eq_bytes value (codes "debug")
    then ok debug
    else if eq_bytes value (codes "info")
    then ok info
    else if eq_bytes value (codes "warn")
    then ok warn
    else if eq_bytes value (codes "error")
    then ok error
    else if eq_bytes value (codes "critical")
    then ok critical
    else throws bad_log_level

unfoldable pub parse_listen_address : (List ℕ → Option (List ℕ)) → List ℕ → Result (List ℕ)
parse_listen_address make_address value = elim (make_address value) [
  | none ↦ throws bad_listen_address
  | some address ↦ ok address
]

abbrev pub unsigned_max : ℕ
unsigned_max = 4294967295

abbrev pub uint64_max : ℕ
uint64_max = 18446744073709551615

abbrev pub uint16_max : ℕ
uint16_max = 65535

unfoldable pub parse_listen_port : List ℕ → Result ℕ
parse_listen_port value = elim (from_chars unsigned_max value) [
  | none ↦ throws bad_listen_port
  | some port ↦ if ltb uint16_max port then throws bad_listen_port else ok port
]

-- The test behind from_chars in the four functions below.
unfoldable pub from_one_to : ℕ → ConfigError → Option ℕ → Result ℕ
from_one_to maximum why none = throws why
from_one_to maximum why (some number) =
    if number == 0 || ltb maximum number then throws why else ok number

unfoldable pub parse_upstream_port : List ℕ → Result ℕ
parse_upstream_port value = from_one_to uint16_max bad_upstream_port (from_chars unsigned_max value)

unfoldable pub parse_capacity_limit : List ℕ → List ℕ → Result ℕ
parse_capacity_limit value variable_name =
    from_one_to uint16_max (bad_capacity variable_name) (from_chars unsigned_max value)

abbrev pub max_timeout_ms : ℕ
max_timeout_ms = 60000

unfoldable pub parse_bounded_milliseconds : List ℕ → List ℕ → Result ℕ
parse_bounded_milliseconds value variable_name =
    from_one_to max_timeout_ms (bad_milliseconds variable_name) (from_chars unsigned_max value)

abbrev pub max_in_flight_bytes_limit : ℕ
max_in_flight_bytes_limit = 1073741824

unfoldable pub parse_max_in_flight_bytes : List ℕ → Result ℕ
parse_max_in_flight_bytes value =
    from_one_to max_in_flight_bytes_limit bad_in_flight_bytes (from_chars uint64_max value)
