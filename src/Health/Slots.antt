-- ===== src/Health/Slots.antt =====
-- The health of one slot as a function of the results of its probes.
use c_item.Base.{
  ℕ, ◌≤◌, ◌≡◌, ◌≢◌, ◌↔◌, refl, sym, subst, ◌∙◌, Bool, true, false, not, ◌&&◌, ◌||◌, Option, none,
  some, List, [], ◌∷◌, arith, min, leb, if◌then◌else◌, get_elem?, set, get_elem?-set_ne,
  get_elem?-set_self, get_elem?_bound, length, replicate, some_inj, ap, zero, suc, ◌<◌,
  get_elem?-replicate, ◌⊎◌, inl, inr,
}
use native.Mathlib.Decide.{ℕ_discrete}
use c_item.Config.{HealthCheckConfig, RouteConfig}
use c_item.Health.{
  HealthTransition, unchanged, unhealthy, healthy, Slot, fresh_slot, HealthRoute, HealthState,
  update_slot, record_slot, record_result, available, slot_at, make_health,
}

-- What the configuration's validation guarantees of the thresholds.
pub record ValidThresholds (c : HealthCheckConfig) : Type 0 where
  pub failing_low : 1 ≤ c.unhealthy_threshold
  pub failing_high : c.unhealthy_threshold ≤ 10
  pub passing_low : 1 ≤ c.healthy_threshold
  pub passing_high : c.healthy_threshold ≤ 10

abbrev same : Bool → Bool → Bool
same true b = b
same false b = not b

-- How many of the last results, newest first, were `b` without a break.
unfoldable pub streak : Bool → List Bool → ℕ
streak b [] = 0
streak b (x ∷ h) = if same b x then suc (streak b h) else 0

-- The intended health after a history, newest first: a run of failures as long as its threshold
-- takes the slot out, a run of successes as long as its threshold brings it back.
unfoldable pub spec_healthy : HealthCheckConfig → List Bool → Bool
spec_healthy c [] = true
spec_healthy c (true ∷ h) = spec_healthy c h || leb c.healthy_threshold (suc (streak true h))
spec_healthy c (false ∷ h) =
    spec_healthy c h && not (leb c.unhealthy_threshold (suc (streak false h)))

-- The slot that the code has after the same history.
unfoldable pub replay : HealthCheckConfig → List Bool → Slot
replay c [] = fresh_slot
replay c (x ∷ h) = (update_slot c (replay c h) x).0

replay-counters :
    (c : HealthCheckConfig) (h : List Bool)
    → ValidThresholds c
    → ((replay c h).failures ≡ min (streak false h) c.unhealthy_threshold)
      × ((replay c h).successes ≡ min (streak true h) c.healthy_threshold)
unfolding replay streak update_slot
replay-counters c [] v = (omega arith, omega arith)
replay-counters c (true ∷ h) v = ground (arith, replay-counters c h v)
replay-counters c (false ∷ h) v = ground (arith, replay-counters c h v)

-- The capped counters of the code decide as the whole history does.
pub replay-spec_healthy :
    (c : HealthCheckConfig) (h : List Bool)
    → ValidThresholds c
    → (replay c h).is_healthy ≡ spec_healthy c h
unfolding replay spec_healthy update_slot
replay-spec_healthy c [] v = refl
replay-spec_healthy c (true ∷ h) v =
    ground (arith, replay-spec_healthy c h v, replay-counters c h v)
replay-spec_healthy c (false ∷ h) v =
    ground (arith, replay-spec_healthy c h v, replay-counters c h v)

-- A transition is reported exactly when the health changes, and says to what.
pub update_slot-transition :
    (c : HealthCheckConfig) (s : Slot) (success : Bool)
    → let (s', t) = update_slot c s success in
      ((t ≡ healthy) ↔ ((s.is_healthy ≡ false) × (s'.is_healthy ≡ true)))
      × ((t ≡ unhealthy) ↔ ((s.is_healthy ≡ true) × (s'.is_healthy ≡ false)))
      × ((t ≡ unchanged) ↔ (s'.is_healthy ≡ s.is_healthy))
unfolding update_slot
update_slot-transition c s true = ground arith
update_slot-transition c s false = ground arith

abbrev pub result_slot : Option HealthCheckConfig → Slot → Bool → Slot
result_slot none s success = s
result_slot (some c) s success = (update_slot c s success).0

slot_at_found :
    (routes : HealthState) (r u : ℕ) {route : HealthRoute}
    → get_elem? routes r ≡ some route
    → slot_at routes r u ≡ get_elem? route.slots u
unfolding slot_at
slot_at_found routes r u e = rw (e, slot_at)

available_of_slot :
    (routes routes' : HealthState) (r u : ℕ)
    → slot_at routes' r u ≡ slot_at routes r u
    → available routes' r u ≡ available routes r u
unfolding available
available_of_slot routes routes' r u e = rw (e, available)

available_found :
    (routes : HealthState) (r u : ℕ) {s : Slot}
    → slot_at routes r u ≡ some s
    → available routes r u ≡ some s.is_healthy
unfolding available
available_found routes r u e = rw (e, available)

slot_at_eq :
    (routes routes' : HealthState) (r u : ℕ)
    → get_elem? routes' r ≡ get_elem? routes r
    → slot_at routes' r u ≡ slot_at routes r u
unfolding slot_at
slot_at_eq routes routes' r u e = rw (e, slot_at)

module _ (routes : HealthState) (r u : ℕ) (success : Bool) {route : HealthRoute} {s : Slot}
    (found : get_elem? routes r ≡ some route) (at_slot : get_elem? route.slots u ≡ some s) where
  record_result_step :
      record_result routes r u success
      ≡ some (
        set routes r (record_slot route u s success route.config).0,
        (record_slot route u s success route.config).1,
      )
  unfolding record_result
  record_result_step = rw (found, record_result) (rw (at_slot, record_result))

  record_slot_self :
      (o : Option HealthCheckConfig)
      → get_elem? (record_slot route u s success o).0.slots u ≡ some (result_slot o s success)
  unfolding record_slot
  record_slot_self none = at_slot
  record_slot_self (some c) =
      get_elem?-set_self route.slots u (update_slot c s success).0
        (get_elem?_bound route.slots u at_slot)

  record_slot_others :
      (o : Option HealthCheckConfig) (u' : ℕ)
      → u ≢ u'
      → get_elem? (record_slot route u s success o).0.slots u' ≡ get_elem? route.slots u'
  unfolding record_slot
  record_slot_others none u' h = refl
  record_slot_others (some c) u' h = get_elem?-set_ne route.slots u u' (update_slot c s success).0 h

  -- A probe's result moves its own slot as the counters say, if its route is checked at all, and
  -- leaves every other slot's availability as it was.
  pub record_result-available :
      (routes' : HealthState) × (t : HealthTransition) × (record_result routes r u success
        ≡ some (routes', t))
      × (available routes' r u ≡ some (result_slot route.config s success).is_healthy)
      × ((r' u' : ℕ) → (r ≢ r') ⊎ (u ≢ u') → available routes' r' u' ≡ available routes r' u')
  record_result-available = (
    routes',
    (record_slot route u s success route.config).1,
    record_result_step,
    available_found routes' r u (slot_at_found routes' r u here ∙ record_slot_self route.config),
    others,
  )
    where
      routes' : HealthState
      routes' = set routes r (record_slot route u s success route.config).0

      here : get_elem? routes' r ≡ some (record_slot route u s success route.config).0
      here =
          get_elem?-set_self routes r (record_slot route u s success route.config).0
            (get_elem?_bound routes r found)

      slot_same : (r' u' : ℕ) → r ≢ r' → slot_at routes' r' u' ≡ slot_at routes r' u'
      slot_same r' u' n = slot_at_eq routes routes' r' u' (get_elem?-set_ne routes r r' _ n)

      others : (r' u' : ℕ) → (r ≢ r') ⊎ (u ≢ u') → available routes' r' u' ≡ available routes r' u'
      others r' u' (inl n) = available_of_slot routes routes' r' u' (slot_same r' u' n)
      others r' u' (inr n) = elim (ℕ_discrete r r') [
        | yes e ↦
            subst (λ k. available routes' k u' ≡ available routes k u') e
              (available_of_slot routes routes' r u' (
                slot_at_found routes' r u' here
                ∙ (record_slot_others route.config u' n ∙ sym (slot_at_found routes r u' found))))
        | no d ↦ available_of_slot routes routes' r' u' (slot_same r' u' d)
      ]

make_health_route :
    (rs : List RouteConfig) (r : ℕ) {c : RouteConfig}
    → get_elem? rs r ≡ some c
    → get_elem? (make_health rs) r
      ≡ some (record { config = c.health_check; slots = replicate (length c.upstreams) fresh_slot })
unfolding make_health
make_health_route [] r e = cc
make_health_route (x ∷ rs) zero e =
    ap
      (λ c.
        some
          (record { config = c.health_check; slots = replicate (length c.upstreams) fresh_slot }))
      (some_inj e)
make_health_route (x ∷ rs) (suc r) e = make_health_route rs r e

-- At the start every upstream of every route is available.
pub make_health_available :
    (rs : List RouteConfig) (r k : ℕ) {c : RouteConfig}
    → get_elem? rs r ≡ some c
    → k < length c.upstreams
    → available (make_health rs) r k ≡ some true
make_health_available rs r k {c} e h = available_found (make_health rs) r k (
    slot_at_found (make_health rs) r k (make_health_route rs r e)
    ∙ get_elem?-replicate (length c.upstreams) k fresh_slot h)
