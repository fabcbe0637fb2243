-- ===== src/Load/Events/Seen.antt =====
-- What the events of the parser say by themselves of the part of a document that is read, and that
-- the callback keeps count of it: so its bounds are bounds of the document.
use c_item.Base.{
  ℕ, ◌+◌, ◌≤◌, ◌≡◌, refl, subst, Bool, true, false, ◌&&◌, List, [], ◌∷◌, ◌++◌, ◌==◌, if◌then◌else◌,
  arith, Option-cases, inl, inr,
}
use c_item.Config.{max_keys}
use c_item.Load.Result.{ok, ok_inj, ◌>>=◌, bind-eq-ok}
use c_item.Load.Json.{Json, as_string}
use c_item.Load.Valid.{Distinct}
use c_item.Load.Events.{
  ParseEvent, array_start, array_end, object_start, object_end, key, value, CallbackState,
  initial_callback, on_array_start, on_array_end, on_value, on_object_start, note_auth_key,
  insert_key, callback, run_callback,
}
use c_item.Load.Events.Bounded.{IsBounded, run_callback-IsBounded, initial-IsBounded}

-- The objects at depth 1; since the last array at depth 2, the objects at depth 3; since the last
-- array at depth 3, the values at depth 4 until that array ends; and the fields of the last object
-- of each depth.
pub record Seen : Type 0 where
  pub routes : ℕ
  pub upstreams : ℕ
  pub listing : Bool
  pub references : ℕ
  pub route_fields : List (List ℕ)
  pub setting_fields : List (List ℕ)
  pub upstream_fields : List (List ℕ)

abbrev pub nothing_seen : Seen
nothing_seen = record {
  routes = 0;
  upstreams = 0;
  listing = false;
  references = 0;
  route_fields = [];
  setting_fields = [];
  upstream_fields = [];
}

-- A field of an object of the depth before, or the start of such an object.
abbrev add_field : ℕ → ℕ → List ℕ → List (List ℕ) → List (List ℕ)
add_field level depth name fields = if depth == level then name ∷ fields else fields

abbrev open_object : ℕ → ℕ → List (List ℕ) → List (List ℕ)
open_object level depth fields = if depth == level then [] else fields

unfoldable pub see : Seen → ℕ × ParseEvent → Seen
see o (depth, array_start) = record o {
  upstreams = if depth == 2 then 0 else o.upstreams;
  references = if depth == 3 then 0 else o.references;
  listing = if depth == 3 then true else o.listing;
}
see o (depth, array_end) = record o { listing = if depth == 3 then false else o.listing }
see o (depth, object_start) = record o {
  routes = if depth == 1 then o.routes + 1 else o.routes;
  upstreams = if depth == 3 then o.upstreams + 1 else o.upstreams;
  route_fields = open_object 1 depth o.route_fields;
  setting_fields = open_object 2 depth o.setting_fields;
  upstream_fields = open_object 3 depth o.upstream_fields;
}
see o (depth, object_end) = o
see o (depth, key name) = record o {
  route_fields = add_field 2 depth name o.route_fields;
  setting_fields = add_field 3 depth name o.setting_fields;
  upstream_fields = add_field 4 depth name o.upstream_fields;
}
see o (depth, value parsed) = record o {
  references = if depth == 4 && o.listing then o.references + 1 else o.references;
}

unfoldable pub see_all : Seen → List (ℕ × ParseEvent) → Seen
see_all o [] = o
see_all o (e ∷ es) = see_all (see o e) es

-- The callback's variables are what is seen.
record Agrees (s : CallbackState) (o : Seen) : Type 0 where
  objects : s.object_count ≡ o.routes
  upstreams : s.upstream_count ≡ o.upstreams
  listing : s.in_key_envs ≡ o.listing
  references : s.reference_count ≡ o.references
  route_fields : s.route_keys ≡ o.route_fields
  setting_fields : s.setting_keys ≡ o.setting_fields
  upstream_fields : s.upstream_keys ≡ o.upstream_fields

module _ (s t : CallbackState) (o : Seen) (depth : ℕ) (v : Agrees s o) where
  on_array_start-Agrees : on_array_start s depth ≡ ok t → Agrees t (see o (depth, array_start))
  unfolding on_array_start see
  on_array_start-Agrees e = ground arith

  on_array_end-Agrees : Agrees (on_array_end s depth) (see o (depth, array_end))
  unfolding on_array_end see
  on_array_end-Agrees = ground arith

  on_value-Agrees :
      (parsed : Json) → on_value s depth parsed ≡ ok t → Agrees t (see o (depth, value parsed))
  unfolding on_value see
  on_value-Agrees parsed e = elim (Option-cases (as_string parsed)) [
    | inl f ↦ ground arith
    | inr (r, f) ↦ ground arith
  ]

  on_object_start-Agrees : on_object_start s depth ≡ ok t → Agrees t (see o (depth, object_start))
  unfolding on_object_start see
  on_object_start-Agrees e = ground arith

  note_auth_key-Agrees : (name : List ℕ) → note_auth_key s depth name ≡ ok t → Agrees t o
  unfolding note_auth_key
  note_auth_key-Agrees name e = ground arith

  insert_key-Agrees :
      (name : List ℕ) → insert_key s depth name ≡ ok t → Agrees t (see o (depth, key name))
  unfolding insert_key see
  insert_key-Agrees name e = ground arith

callback-Agrees :
    (s t : CallbackState) (o : Seen) (e : ℕ × ParseEvent)
    → Agrees s o
    → callback s e ≡ ok t
    → Agrees t (see o e)
unfolding callback see
callback-Agrees s t o (depth, array_start) v e = on_array_start-Agrees s t o depth v e
callback-Agrees s t o (depth, array_end) v e =
    subst (λ x. Agrees x (see o (depth, array_end))) (ok_inj e) (on_array_end-Agrees s t o depth v)
callback-Agrees s t o (depth, object_start) v e = on_object_start-Agrees s t o depth v e
callback-Agrees s t o (depth, object_end) v e =
    subst (λ x. Agrees x (see o (depth, object_end))) (ok_inj e) v
callback-Agrees s t o (depth, key name) v e =
    let (u, noted, inserted) = bind-eq-ok _ _ e in
    insert_key-Agrees u t o depth (note_auth_key-Agrees s u o depth v name noted) name inserted
callback-Agrees s t o (depth, value parsed) v e = on_value-Agrees s t o depth v parsed e

run_callback-Agrees :
    (es : List (ℕ × ParseEvent)) (s t : CallbackState) (o : Seen)
    → Agrees s o
    → run_callback s es ≡ ok t
    → Agrees t (see_all o es)
unfolding run_callback see_all
run_callback-Agrees [] s t o v e = subst (λ x. Agrees x o) (ok_inj e) v
run_callback-Agrees (x ∷ es) s t o v e =
    let (u, here, later) = bind-eq-ok _ _ e in
    run_callback-Agrees es u t (see o x) (callback-Agrees s u o x v here) later

run_callback_next :
    (x : ℕ × ParseEvent) (es : List (ℕ × ParseEvent)) (s u t : CallbackState)
    → callback s x ≡ ok u
    → run_callback u es ≡ ok t
    → run_callback s (x ∷ es) ≡ ok t
unfolding run_callback ◌>>=◌
run_callback_next x es s u t e f = rw e f

run_callback_before :
    (before after : List (ℕ × ParseEvent)) (s t : CallbackState)
    → run_callback s (before ++ after) ≡ ok t
    → (u : CallbackState) × (run_callback s before ≡ ok u)
unfolding run_callback
run_callback_before [] after s t e = (s, refl)
run_callback_before (x ∷ before) after s t e =
    let (u, here, later) = bind-eq-ok _ _ e in
    let (w, f) = run_callback_before before after u t later in
    (w, run_callback_next x before s u w here f)

pub record IsSmall (o : Seen) : Type 0 where
  pub few_routes : o.routes ≤ 32
  pub few_upstreams : o.upstreams ≤ 16
  pub few_references : o.references ≤ max_keys
  pub route_fields : Distinct o.route_fields
  pub setting_fields : Distinct o.setting_fields
  pub upstream_fields : Distinct o.upstream_fields

Agrees-IsSmall : (s : CallbackState) (o : Seen) → Agrees s o → IsBounded s → IsSmall o
Agrees-IsSmall s o v b = record {
  few_routes = omega (arith, v.objects, b.objects);
  few_upstreams = omega (arith, v.upstreams, b.upstreams);
  few_references = omega (arith, v.references, b.references);
  route_fields = subst Distinct v.route_fields b.route_fields;
  setting_fields = subst Distinct v.setting_fields b.setting_fields;
  upstream_fields = subst Distinct v.upstream_fields b.upstream_fields;
}

-- Of the events that the parser reports, as long as the callback does not refuse: at every moment they
-- have started at most 32 objects at depth 1, at most 16 objects at depth 3 since the last array at
-- depth 2, and given at most 4 values at depth 4 to the array at depth 3 that is open; and the last
-- object begun at each of the depths 1, 2 and 3 has no field twice.
pub run_callback-IsSmall :
    (before after : List (ℕ × ParseEvent)) (t : CallbackState)
    → run_callback initial_callback (before ++ after) ≡ ok t
    → IsSmall (see_all nothing_seen before)
run_callback-IsSmall before after t e =
    let (s, f) = run_callback_before before after initial_callback t e in
    Agrees-IsSmall s _ (run_callback-Agrees before initial_callback s nothing_seen initial_agrees f)
      (run_callback-IsBounded before initial_callback s initial-IsBounded f)
  where
    initial_agrees : Agrees initial_callback nothing_seen
    initial_agrees = ground arith
