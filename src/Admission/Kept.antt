-- ===== src/Admission/Kept.antt =====
-- Admissions keep the rotation positions those of upstreams.
use c_item.Base.{
  ℕ, ◌≤◌, ◌<◌, ◌≡◌, ◌≢◌, sym, ap, subst, ◌∙◌, inl, inr, true, some, some_inj, List, arith, ◌==◌,
  ==_iff, Bool-cases, Option-cases, length, get_elem?, set, get_elem?_bound, length-set,
  get_elem?-set_self, length-replicate, get_elem?-replicate, ◌^◌, get_elem?-set_ne,
}
use c_item.Config.{RouteConfig}
use c_item.Handler.{selected_route}
use c_item.RateLimit.{RouteRateLimits, RateLimitDecision, make_limits, route_try_acquire}
use c_item.RateLimit.Routes.{length-route_try_acquire, make_limits-AllValid}
use c_item.Health.Slots.{make_health_available}
use c_item.Server.Permits.{States}
use c_item.Admission.{RouteProxyAdmission, Attempt, advance, try_acquire, make_admission}
use c_item.Admission.Rotation.{advance_bound}
use c_item.Admission.Outcome.{
  Fits, Outcome, rate_limited, overloaded, unhealthy, admitted, try_acquire-Outcome,
}

-- The outcomes leave an object that fits the routes.
module _ (routes : List RouteConfig) (h : States) (a : RouteProxyAdmission) (c : RouteConfig)
    (r now : ℕ) where
  limits-Fits :
      (l : RouteRateLimits) (d : RateLimitDecision)
      → Fits routes a
      → r < length routes
      → route_try_acquire a.rate_limits r now ≡ some (l, d)
      → Fits routes (record a { rate_limits = l })
  limits-Fits l d f b e = record {
    limits = length-route_try_acquire a.rate_limits r now (omega (arith, f.limits)) e ∙ f.limits;
    positions = f.positions;
    in_range = f.in_range;
    slots = f.slots;
  }

  moved_in_range :
      (p : ℕ)
      → Fits routes a
      → get_elem? routes r ≡ some c
      → p < length c.upstreams
      → (q n : ℕ) (c' : RouteConfig) → get_elem? routes q ≡ some c'
      → get_elem? (set a.next_upstream r p) q ≡ some n
      → n < length c'.upstreams
  moved_in_range p f e b q n c' g k = elim (Bool-cases (r == q)) [
    | inl m ↦
        let same : r ≡ q = (==_iff r q).0 m in
        let in_positions : r < length a.next_upstream =
          omega (arith, f.positions, get_elem?_bound routes r e) in
        let n_eq : p ≡ n = some_inj (
          sym (get_elem?-set_self a.next_upstream r p in_positions)
          ∙ ap (get_elem? (set a.next_upstream r p)) same
          ∙ k) in
        let c_eq : c ≡ c' = some_inj (sym e ∙ ap (get_elem? routes) same ∙ g) in
        subst (λ x. x < length c'.upstreams) n_eq (subst (λ x. p < length x.upstreams) c_eq b)
    | inr m ↦
        let other : r ≢ q = λ o. cc (m, (==_iff r q).1 o) in
        f.in_range q n c' g (sym (get_elem?-set_ne a.next_upstream r q p other) ∙ k)
  ]

  outcome-Fits :
      (t : Attempt)
      → Fits routes a
      → get_elem? routes r ≡ some c
      → Outcome h a c r now t
      → Fits routes t.admission
  outcome-Fits t f e (rate_limited l d g k) = limits-Fits l d f (get_elem?_bound routes r e) g
  outcome-Fits t f e (overloaded l d g k m) = limits-Fits l d f (get_elem?_bound routes r e) g
  outcome-Fits t f e (unhealthy l d h' g k m n o) = limits-Fits l d f (get_elem?_bound routes r e) g
  outcome-Fits t f e (admitted l d h' n steps k u g m o p q v w x y z) = record {
    limits = (limits-Fits l d f (get_elem?_bound routes r e) g).limits;
    positions = length-set a.next_upstream r _ ∙ f.positions;
    in_range =
        moved_in_range (advance (length c.upstreams) k) f e
          (advance_bound (length c.upstreams) k (get_elem?_bound c.upstreams k x));
    slots = f.slots;
  }

  -- An admission on a configured route keeps the object fit for the routes: every rotation position
  -- stays the position of an upstream.
  pub try_acquire-Fits :
      Fits routes a
      → get_elem? routes r ≡ some c
      → length c.upstreams ≤ 16
      → Fits routes (try_acquire h a (selected_route c r) now).admission
  try_acquire-Fits f e b = outcome-Fits _ f e (try_acquire-Outcome h a c r now routes f e b)

-- The object that the constructor makes for routes with upstreams fits them.
pub make_admission-Fits :
    (routes : List RouteConfig) (p now : ℕ) {a : RouteProxyAdmission}
    → now < 2 ^ 64
    → ((r : ℕ) (c : RouteConfig) → get_elem? routes r ≡ some c → 0 < length c.upstreams)
    → make_admission routes (some p) now ≡ some a
    → Fits routes a
unfolding make_admission
make_admission-Fits routes p now {a} h k e = elim (Option-cases (make_limits routes now)) [
  | inl f ↦ absurd (cc (rw (f, make_admission) at e))
  | inr (l, f) ↦ subst (Fits routes) (some_inj (rw (f, make_admission) at e)) (record {
    limits = (make_limits-AllValid routes now h f).1;
    positions = length-replicate (length routes) 0;
    in_range = λ r n c g m.
        subst (λ x. x < length c.upstreams)
          (some_inj
            (sym (get_elem?-replicate (length routes) r 0 (get_elem?_bound routes r g)) ∙ m))
          (k r c g);
    slots = λ r j c g m. (true, make_health_available routes r j g m);
  })
]
