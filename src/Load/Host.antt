-- ===== src/Load/Host.antt =====
-- src/config.cpp: the host of an upstream and the prefix of a route, with the specifications that
-- read a text as the pieces between its separators.
pub mod Labels
pub mod Segments
use c_item.Base.{
  ℕ, zero, suc, ◌+◌, ◌≤◌, ◌≡◌, ◌≢◌, Bool, true, false, not, ◌&&◌, ◌||◌, Option, none, some, List,
  [], ◌∷◌, ltb, leb, ◌==◌, if◌then◌else◌, length, take, drop,
}
use c_item.Base.Text.{codes, eq_bytes, all_bytes, find_byte}
use c_item.Load.Result.{
  Result, ok, throws, ◌>>=◌, ◌>>◌, throw_if, bad_upstream_host, bad_prefix_start,
  bad_prefix_segment,
}
use c_item.Load.Scalar.{isalnum, in_range}

-- The local variables of the loop.
pub record LabelState : Type 0 where
  pub label_length : ℕ
  pub label_starts_with_hyphen : Bool
  pub previous : ℕ

abbrev pub initial : LabelState
initial = record { label_length = 0; label_starts_with_hyphen = false; previous = 0 }

-- The test at a '.' and behind the loop.
unfoldable pub bad_label_end : LabelState → Bool
bad_label_end s =
    s.label_length == 0 || ltb 63 s.label_length || s.label_starts_with_hyphen || s.previous == b'-'

-- One pass of the loop.
unfoldable pub hostname_step : LabelState → ℕ → Result LabelState
hostname_step s c =
    if c == b'.'
    then if bad_label_end s
      then throws bad_upstream_host
      else ok (record { label_length = 0; label_starts_with_hyphen = false; previous = c })
    else if isalnum c || c == b'-'
    then ok (record {
      label_length = s.label_length + 1;
      label_starts_with_hyphen =
          if s.label_length == 0 then c == b'-' else s.label_starts_with_hyphen;
      previous = c;
    })
    else throws bad_upstream_host

unfoldable pub hostname_loop : LabelState → List ℕ → Result LabelState
hostname_loop s [] = ok s
hostname_loop s (c ∷ cs) = do s' ← hostname_step s c; hostname_loop s' cs

-- `front` and `back`; the callers have excluded the empty text.
abbrev pub starts_with_byte : ℕ → List ℕ → Bool
starts_with_byte b [] = false
starts_with_byte b (c ∷ cs) = c == b

unfoldable pub ends_with_byte : ℕ → List ℕ → Bool
ends_with_byte b [] = false
ends_with_byte b (c ∷ []) = c == b
ends_with_byte b (c ∷ d ∷ cs) = ends_with_byte b (d ∷ cs)

abbrev pub max_hostname_length : ℕ
max_hostname_length = 253

unfoldable pub validate_dns_hostname : List ℕ → Result (Unit {0})
validate_dns_hostname value = do
  throw_if
      (ltb max_hostname_length (length value)
        || starts_with_byte b'.' value
        || ends_with_byte b'.' value)
      bad_upstream_host
  s ← hostname_loop initial value
  throw_if (bad_label_end s) bad_upstream_host

unfoldable pub parse_upstream_host : (List ℕ → Option (List ℕ)) → List ℕ → Result (List ℕ)
parse_upstream_host make_address value = elim (make_address value) [
  | none ↦ validate_dns_hostname value >>= λ _. ok value
  | some address ↦ ok address
]

unfoldable pub segment_byte : ℕ → Bool
segment_byte c =
    in_range b'a' b'z' c
    || in_range b'A' b'Z' c
    || in_range b'0' b'9' c
    || c == b'-'
    || c == b'.'
    || c == b'_'
    || c == b'~'

unfoldable pub bad_segment : List ℕ → Bool
bad_segment segment =
    length segment == 0
    || eq_bytes segment (codes ".")
    || eq_bytes segment (codes "..")
    || not (all_bytes segment_byte segment)

-- The loop from `begin` on, whose text is `rest`: `find` and `substr` in it. A pass consumes at
-- least the separator, so that the length of the text and one more are enough fuel.
unfoldable pub segment_loop : ℕ → List ℕ → Result (Unit {0})
segment_loop zero rest = ok tt
segment_loop (suc fuel) rest = elim (find_byte b'/' rest) [
  | none ↦ if bad_segment rest then throws bad_prefix_segment else ok tt
  | some n ↦
      if bad_segment (take n rest)
      then throws bad_prefix_segment
      else segment_loop fuel (drop (suc n) rest)
]

unfoldable pub validate_route_prefix : List ℕ → Result (Unit {0})
validate_route_prefix prefix =
    if not (starts_with_byte b'/' prefix)
    then throws bad_prefix_start
    else if eq_bytes prefix (codes "/")
    then ok tt
    else segment_loop (suc (length prefix)) (drop 1 prefix)
