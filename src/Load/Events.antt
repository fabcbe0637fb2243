-- ===== src/Load/Events.antt =====
-- src/config.cpp, parse_routes: the callback that refuses a document while it is parsed. An event
-- carries its depth; object ends and other values do not concern the callback.
pub mod Bounded
pub mod Seen
use c_item.Base.{
  ℕ, zero, suc, ◌+◌, Bool, true, false, not, ◌&&◌, ◌||◌, Option, none, some, List, [], ◌∷◌, ltb,
  ◌==◌, if◌then◌else◌,
}
use c_item.Base.Text.{codes, eq_bytes}
use c_item.Config.{max_keys}
use c_item.Load.Result.{
  Result, ok, throws, ◌>>=◌, ◌>>◌, throw_if, nested_array, bad_key_references, too_many_routes,
  too_many_upstreams, nested_object, unknown_auth_field, duplicate_field,
}
use c_item.Load.Scalar.{is_empty}
use c_item.Load.Json.{Json, as_string, contains_text}

pub data ParseEvent : Type 0 where
  array_start array_end object_start object_end : ParseEvent
  key : List ℕ → ParseEvent
  value : Json → ParseEvent

-- The variables that the callback captures.
pub record CallbackState : Type 0 where
  pub route_keys : List (List ℕ)
  pub setting_keys : List (List ℕ)
  pub upstream_keys : List (List ℕ)
  pub route_key : List ℕ
  pub object_count : ℕ
  pub upstream_count : ℕ
  pub in_upstreams : Bool
  pub auth_key : List ℕ
  pub in_key_envs : Bool
  pub reference_count : ℕ

abbrev pub initial_callback : CallbackState
initial_callback = record {
  route_keys = [];
  setting_keys = [];
  upstream_keys = [];
  route_key = [];
  object_count = 0;
  upstream_count = 0;
  in_upstreams = false;
  auth_key = [];
  in_key_envs = false;
  reference_count = 0;
}

unfoldable pub is_text : List ℕ → List ℕ → Bool
is_text s t = eq_bytes s t

unfoldable pub on_array_start : CallbackState → ℕ → Result CallbackState
unfolding is_text
on_array_start s depth =
    if depth == 0
    then ok s
    else if depth == 2 && is_text s.route_key (codes "upstreams")
    then ok (record s { upstream_count = 0; in_upstreams = true })
    else if depth == 3
        && is_text s.route_key (codes "auth")
        && is_text s.auth_key (codes "api_key_envs")
    then ok (record s { reference_count = 0; in_key_envs = true })
    else throws nested_array

unfoldable pub on_array_end : CallbackState → ℕ → CallbackState
on_array_end s depth =
    if depth == 2
    then record s { in_upstreams = false }
    else if depth == 3
    then record s { in_key_envs = false }
    else s

-- A reference of a key: the count goes up only behind the other two tests.
unfoldable pub on_value : CallbackState → ℕ → Json → Result CallbackState
on_value s depth parsed =
    if depth == 4 && s.in_key_envs
    then elim (as_string parsed) [
      | none ↦ throws bad_key_references
      | some reference ↦
          if is_empty reference || ltb max_keys (s.reference_count + 1)
          then throws bad_key_references
          else ok (record s { reference_count = s.reference_count + 1 })
    ]
    else ok s

unfoldable pub has_settings : List ℕ → Bool
has_settings route_key =
    is_text route_key (codes "rate_limit")
    || is_text route_key (codes "health_check")
    || is_text route_key (codes "auth")

unfoldable pub on_object_start : CallbackState → ℕ → Result CallbackState
on_object_start s depth =
    if depth == 1
    then if ltb 32 (s.object_count + 1)
      then throws too_many_routes
      else ok (record s { object_count = s.object_count + 1; route_keys = [] })
    else if depth == 2 && has_settings s.route_key
    then ok (record s { setting_keys = []; auth_key = [] })
    else if depth == 3 && s.in_upstreams && is_text s.route_key (codes "upstreams")
    then if ltb 16 (s.upstream_count + 1)
      then throws too_many_upstreams
      else ok (record s { upstream_count = s.upstream_count + 1; upstream_keys = [] })
    else throws nested_object

-- `auth_key`, behind the test of the field's name.
unfoldable pub note_auth_key : CallbackState → ℕ → List ℕ → Result CallbackState
note_auth_key s depth parsed =
    if depth == 3 && is_text s.route_key (codes "auth")
    then if is_text parsed (codes "api_key_env") || is_text parsed (codes "api_key_envs")
      then ok (record s { auth_key = parsed })
      else throws unknown_auth_field
    else ok s

-- The insertion into the set of the depth.
unfoldable pub insert_key : CallbackState → ℕ → List ℕ → Result CallbackState
insert_key s depth parsed =
    if depth == 2
    then if contains_text parsed s.route_keys
      then throws duplicate_field
      else ok (record s { route_keys = parsed ∷ s.route_keys; route_key = parsed })
    else if depth == 3
    then if contains_text parsed s.setting_keys
      then throws duplicate_field
      else ok (record s { setting_keys = parsed ∷ s.setting_keys })
    else if depth == 4
    then if contains_text parsed s.upstream_keys
      then throws duplicate_field
      else ok (record s { upstream_keys = parsed ∷ s.upstream_keys })
    else throws duplicate_field

unfoldable pub callback : CallbackState → ℕ × ParseEvent → Result CallbackState
callback s (depth, array_start) = on_array_start s depth
callback s (depth, array_end) = ok (on_array_end s depth)
callback s (depth, object_start) = on_object_start s depth
callback s (depth, object_end) = ok s
callback s (depth, key parsed) = do t ← note_auth_key s depth parsed; insert_key t depth parsed
callback s (depth, value parsed) = on_value s depth parsed

unfoldable pub run_callback : CallbackState → List (ℕ × ParseEvent) → Result CallbackState
run_callback s [] = ok s
run_callback s (e ∷ es) = do t ← callback s e; run_callback t es
