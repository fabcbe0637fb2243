-- ===== src/Load/Events/Bounded.antt =====
-- The counters and the sets of the callback stay within their bounds.
use c_item.Base.{ℕ, ◌≤◌, ◌≡◌, List, [], ◌∷◌, arith, subst, Option-cases, inl, inr}
use c_item.Config.{max_keys}
use c_item.Load.Result.{ok, ok_inj, bind-eq-ok}
use c_item.Load.Json.{Json, as_string}
use c_item.Load.Valid.{Distinct}
use c_item.Load.Loaded.{contains_text-Apart}
use c_item.Load.Events.{
  ParseEvent, array_start, array_end, object_start, object_end, key, value, CallbackState,
  initial_callback, on_array_start, on_array_end, on_value, on_object_start, note_auth_key,
  insert_key, callback, run_callback,
}

pub record IsBounded (s : CallbackState) : Type 0 where
  pub objects : s.object_count ≤ 32
  pub upstreams : s.upstream_count ≤ 16
  pub references : s.reference_count ≤ max_keys
  pub route_fields : Distinct s.route_keys
  pub setting_fields : Distinct s.setting_keys
  pub upstream_fields : Distinct s.upstream_keys

on_array_start-IsBounded :
    (s : CallbackState) (depth : ℕ) (t : CallbackState)
    → IsBounded s
    → on_array_start s depth ≡ ok t
    → IsBounded t
unfolding on_array_start
on_array_start-IsBounded s depth t v e = ground arith

on_array_end-IsBounded :
    (s : CallbackState) (depth : ℕ) → IsBounded s → IsBounded (on_array_end s depth)
unfolding on_array_end
on_array_end-IsBounded s depth v = ground arith

on_value-IsBounded :
    (s : CallbackState) (depth : ℕ) (parsed : Json) (t : CallbackState)
    → IsBounded s
    → on_value s depth parsed ≡ ok t
    → IsBounded t
unfolding on_value
on_value-IsBounded s depth parsed t v e = elim (Option-cases (as_string parsed)) [
  | inl f ↦ ground arith
  | inr (r, f) ↦ ground arith
]

on_object_start-IsBounded :
    (s : CallbackState) (depth : ℕ) (t : CallbackState)
    → IsBounded s
    → on_object_start s depth ≡ ok t
    → IsBounded t
unfolding on_object_start
on_object_start-IsBounded s depth t v e = ground arith

note_auth_key-IsBounded :
    (s : CallbackState) (depth : ℕ) (parsed : List ℕ) (t : CallbackState)
    → IsBounded s
    → note_auth_key s depth parsed ≡ ok t
    → IsBounded t
unfolding note_auth_key
note_auth_key-IsBounded s depth parsed t v e = ground arith

insert_key-IsBounded :
    (s : CallbackState) (depth : ℕ) (parsed : List ℕ) (t : CallbackState)
    → IsBounded s
    → insert_key s depth parsed ≡ ok t
    → IsBounded t
unfolding insert_key
insert_key-IsBounded s depth parsed t v e = ground (
  arith,
  contains_text-Apart parsed s.route_keys,
  contains_text-Apart parsed s.setting_keys,
  contains_text-Apart parsed s.upstream_keys,
)

callback-IsBounded :
    (s : CallbackState) (e : ℕ × ParseEvent) (t : CallbackState)
    → IsBounded s
    → callback s e ≡ ok t
    → IsBounded t
unfolding callback
callback-IsBounded s (depth, array_start) t v e = on_array_start-IsBounded s depth t v e
callback-IsBounded s (depth, array_end) t v e =
    subst IsBounded (ok_inj e) (on_array_end-IsBounded s depth v)
callback-IsBounded s (depth, object_start) t v e = on_object_start-IsBounded s depth t v e
callback-IsBounded s (depth, object_end) t v e = subst IsBounded (ok_inj e) v
callback-IsBounded s (depth, key parsed) t v e =
    let (u, noted, inserted) = bind-eq-ok _ _ e in
    insert_key-IsBounded u depth parsed t (note_auth_key-IsBounded s depth parsed u v noted)
      inserted
callback-IsBounded s (depth, value parsed) t v e = on_value-IsBounded s depth parsed t v e

pub run_callback-IsBounded :
    (es : List (ℕ × ParseEvent)) (s t : CallbackState)
    → IsBounded s
    → run_callback s es ≡ ok t
    → IsBounded t
unfolding run_callback
run_callback-IsBounded [] s t v e = subst IsBounded (ok_inj e) v
run_callback-IsBounded (x ∷ es) s t v e =
    let (u, here, later) = bind-eq-ok _ _ e in
    run_callback-IsBounded es u t (callback-IsBounded s x u v here) later

pub initial-IsBounded : IsBounded initial_callback
initial-IsBounded = record {
  objects = omega arith;
  upstreams = omega arith;
  references = omega arith;
  route_fields = tt;
  setting_fields = tt;
  upstream_fields = tt;
}
