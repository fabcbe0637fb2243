-- ===== src/Load/RoundTrip.antt =====
-- src/config.cpp: reading what is written.
use c_item.Base.{
  ℕ, some, List, ◌≡◌, ◌≤◌, arith, refl, Bool-cases, inl, inr, if◌then◌else◌, ◌∙◌, ap, ◌↔◌,
}
use c_item.Base.Text.{eq_bytes, eq_bytes_iff}
use c_item.Base.Decimal.{to_decimal, from_chars-to_decimal}
use c_item.Config.{LogLevel, trace, debug, info, warn, error, critical}
use c_item.Load.Result.{ConfigError, ok, Result, ok_inj}
use c_item.Load.Bounds.{OneTo}
use c_item.Load.Scalar.{
  from_one_to, parse_upstream_port, parse_capacity_limit, parse_bounded_milliseconds,
  parse_max_in_flight_bytes, parse_listen_port, uint16_max, max_timeout_ms,
  max_in_flight_bytes_limit, unsigned_max, uint64_max, to_string, parse_log_level,
}

parse_log_level-to_string : (l : LogLevel) → parse_log_level (to_string l) ≡ ok l
unfolding parse_log_level to_string eq_bytes
parse_log_level-to_string trace = refl
parse_log_level-to_string debug = refl
parse_log_level-to_string info = refl
parse_log_level-to_string warn = refl
parse_log_level-to_string error = refl
parse_log_level-to_string critical = refl

step_of :
    (s t : List ℕ) (l m : LogLevel) (k : Result LogLevel)
    → t ≡ to_string m
    → (k ≡ ok l → s ≡ to_string l)
    → (if eq_bytes s t then ok m else k) ≡ ok l
    → s ≡ to_string l
step_of s t l m k h r e = elim (Bool-cases (eq_bytes s t)) [
  | inl f ↦ (eq_bytes_iff s t).0 f ∙ h ∙ ap to_string (ok_inj (simp f at e))
  | inr f ↦ r (simp f at e)
]

to_string-parse_log_level : (s : List ℕ) (l : LogLevel) → parse_log_level s ≡ ok l → s ≡ to_string l
unfolding parse_log_level to_string
to_string-parse_log_level s l e =
    step_of s _ l trace _ refl
      (step_of s _ l debug _ refl (
        step_of s _ l info _ refl (
          step_of s _ l warn _ refl
            (step_of s _ l error _ refl (step_of s _ l critical _ refl (λ h. cc))))))
      e

-- A text reads as a log level exactly if it is what `to_string` writes for that level.
pub log_level_round_trip :
    (s : List ℕ) (l : LogLevel) → (parse_log_level s ≡ ok l) ↔ (s ≡ to_string l)
log_level_round_trip s l =
    (to_string-parse_log_level s l, λ h. ap parse_log_level h ∙ parse_log_level-to_string l)

from_one_to-in_range :
    (maximum n : ℕ) (why : ConfigError)
    → 1 ≤ n
    → n ≤ maximum
    → from_one_to maximum why (some n) ≡ ok n
unfolding from_one_to
from_one_to-in_range maximum n why h k = ground arith

-- A number that is written in decimal is read back: a port of an upstream or a capacity from 1 to
-- 65535, a port to listen on from 0 to 65535, a time from 1 to 60000 ms, and a budget from 1 to
-- 2 ^ 30 bytes.
pub numbers_round_trip :
    (name : List ℕ) (port listening capacity time bytes : ℕ)
    → OneTo 65535 port
    → listening ≤ 65535
    → OneTo 65535 capacity
    → OneTo 60000 time
    → OneTo 1073741824 bytes
    → (parse_upstream_port (to_decimal port) ≡ ok port)
      × (parse_listen_port (to_decimal listening) ≡ ok listening)
      × (parse_capacity_limit (to_decimal capacity) name ≡ ok capacity)
      × (parse_bounded_milliseconds (to_decimal time) name ≡ ok time)
      × (parse_max_in_flight_bytes (to_decimal bytes) ≡ ok bytes)
unfolding parse_upstream_port parse_listen_port parse_capacity_limit parse_bounded_milliseconds
    parse_max_in_flight_bytes
numbers_round_trip name port listening capacity time bytes (p, p') l (c, c') (t, t') (b, b') = (
  rw (from_chars-to_decimal unsigned_max port (omega arith) (omega arith))
      (from_one_to-in_range uint16_max port _ p p'),
  rw (from_chars-to_decimal unsigned_max listening (omega arith) (omega arith), parse_listen_port)
      (ground arith),
  rw (from_chars-to_decimal unsigned_max capacity (omega arith) (omega arith))
      (from_one_to-in_range uint16_max capacity _ c c'),
  rw (from_chars-to_decimal unsigned_max time (omega arith) (omega arith))
      (from_one_to-in_range max_timeout_ms time _ t t'),
  rw (from_chars-to_decimal uint64_max bytes (omega arith) (omega arith))
      (from_one_to-in_range max_in_flight_bytes_limit bytes _ b b'),
)
