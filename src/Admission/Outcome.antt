-- ===== src/Admission/Outcome.antt =====
-- What an admission on a configured route does: every outcome, and that there is no exception.
use c_item.Base.{
  ℕ, ◌+◌, ◌-◌, ◌≤◌, ◌<◌, ◌≡◌, ◌≢◌, refl, sym, subst, inl, inr, Bool, true, false, Option, none,
  some, List, arith, leb, ltb, is_some, ◌==◌, if◌then◌else◌, Bool-cases, length, get_elem?, set,
  get_elem?_total, get_elem?_bound,
}
use c_item.Config.{RouteConfig, UpstreamConfig}
use c_item.Handler.{selected_route, SelectedUpstream}
use c_item.Health.{available}
use c_item.RateLimit.{RouteRateLimits, RateLimitDecision, route_try_acquire, acquire_slot}
use c_item.RateLimit.Routes.{route_try_acquire_known}
use c_item.Server.Permits.{States}
use c_item.Admission.{
  RouteProxyAdmission, Attempt, advance, search, place, choose_from, choose, refused, select_slot,
  with_permit, with_capacity, with_rate, rate, try_acquire,
}
use c_item.Admission.Rotation.{
  rotate, rotate_bound, rotate_reaches, Searched, exhausted, found, search-Searched,
}
use c_item.Admission.Capacity.{
  acquired, try_acquire_full, try_acquire_free, acquired_self, acquired_others, release-acquired,
}

-- The object has a bucket slot, a position and health slots for every route, and every position is
-- one of a slot.
pub record Fits (routes : List RouteConfig) (a : RouteProxyAdmission) : Type 0 where
  pub limits : length a.rate_limits ≡ length routes
  pub positions : length a.next_upstream ≡ length routes
  pub in_range :
      (r n : ℕ) (c : RouteConfig)
      → get_elem? routes r ≡ some c
      → get_elem? a.next_upstream r ≡ some n
      → n < length c.upstreams
  pub slots :
      (r k : ℕ) (c : RouteConfig)
      → get_elem? routes r ≡ some c
      → k < length c.upstreams
      → (b : Bool) × (available a.health r k ≡ some b)

module _ (h : States) (a : RouteProxyAdmission) (c : RouteConfig) (r now : ℕ) where
  abbrev with_limits : RouteRateLimits → RouteProxyAdmission
  with_limits l = record a { rate_limits = l }

  -- The upstream handed on by a route.
  abbrev pub on_slot : UpstreamConfig → SelectedUpstream
  on_slot u = record {
    upstream = u;
    prefix = c.prefix;
    strip_prefix = c.strip_prefix;
    route_index = some r;
    strip_authorization = is_some c.auth;
    stream_response = c.stream_response;
  }

  abbrev pub NotAvailable : ℕ → Type 0
  NotAvailable k = available a.health r k ≡ some false

  -- The outcomes of `try_acquire` on the route `c` at position `r`.
  pub data Outcome : Attempt → Type 0 where
    rate_limited :
        (l : RouteRateLimits) (d : RateLimitDecision)
        → route_try_acquire a.rate_limits r now ≡ some (l, d)
        → d.allowed ≡ false
        → Outcome
            (record { states = h; admission = with_limits l; result = some (refused d false) })
    overloaded :
        (l : RouteRateLimits) (d : RateLimitDecision)
        → route_try_acquire a.rate_limits r now ≡ some (l, d)
        → d.allowed ≡ true
        → (h a.proxies).max_proxies ≤ (h a.proxies).active_proxies
        → Outcome
            (record { states = h; admission = with_limits l; result = some (refused d false) })
    unhealthy :
        (l : RouteRateLimits) (d : RateLimitDecision) (h' : States)
        → route_try_acquire a.rate_limits r now ≡ some (l, d)
        → d.allowed ≡ true
        → (h a.proxies).active_proxies < (h a.proxies).max_proxies
        → ((k : ℕ) → k < length c.upstreams → NotAvailable k)
        → ((q : ℕ) → h' q ≡ h q)
        → Outcome
            (record { states = h'; admission = with_limits l; result = some (refused d true) })
    admitted :
        (l : RouteRateLimits) (d : RateLimitDecision) (h' : States) (n steps k : ℕ)
        (u : UpstreamConfig)
        → route_try_acquire a.rate_limits r now ≡ some (l, d)
        → d.allowed ≡ true
        → (h a.proxies).active_proxies < (h a.proxies).max_proxies
        → get_elem? a.next_upstream r ≡ some n
        → k ≡ rotate (length c.upstreams) steps n
        → available a.health r k ≡ some true
        → ((e : ℕ) → e < steps → NotAvailable (rotate (length c.upstreams) e n))
        → get_elem? c.upstreams k ≡ some u
        → (h' a.proxies).active_proxies ≡ (h a.proxies).active_proxies + 1
        → ((q : ℕ) → q ≢ a.proxies → h' q ≡ h q)
        → Outcome (record {
          states = h';
          admission = record {
            rate_limits = l;
            proxies = a.proxies;
            next_upstream = set a.next_upstream r (advance (length c.upstreams) k);
            health = a.health;
          };
          result = some (record {
            rate_limit = d;
            permit = some (some a.proxies);
            upstream = some (on_slot u);
            no_healthy_upstream = false;
          });
        })

  module _ (routes : List RouteConfig) (fits : Fits routes a) (known : get_elem? routes r ≡ some c)
      (small : length c.upstreams ≤ 16) where
    abbrev size : ℕ
    size = length c.upstreams

    position : (n : ℕ) × (get_elem? a.next_upstream r ≡ some n) × (n < size)
    position =
        let (n, e) =
          get_elem?_total a.next_upstream r
            (omega (arith, fits.positions, get_elem?_bound routes r known)) in
        (n, e, fits.in_range r n c known e)

    not_available :
        (n k : ℕ)
        → n < size
        → ((e : ℕ) → e < size → NotAvailable (rotate size e n))
        → k < size
        → NotAvailable k
    not_available n k b f l =
        let (d, m, e) = rotate_reaches size n k b l in subst NotAvailable e (f d m)

    on_none :
        (l : RouteRateLimits) (d : RateLimitDecision) (n : ℕ)
        → route_try_acquire a.rate_limits r now ≡ some (l, d)
        → d.allowed ≡ true
        → (h a.proxies).active_proxies < (h a.proxies).max_proxies
        → n < size
        → ((e : ℕ) → e < size → NotAvailable (rotate size e n))
        → Outcome (
            with_permit
              (acquired h a.proxies)
              (with_limits l)
              (selected_route c r)
              d
              (some a.proxies)
              (some none))
    unfolding with_permit
    on_none l d n e f g b u =
        unhealthy l d _ e f g (λ k m. not_available n k b u m) (release-acquired h a.proxies)

    next_place : (k : ℕ) → k < size → (if k == size - 1 then 0 else k + 1) ≡ advance size k
    next_place k e = ground arith

    on_found :
        (l : RouteRateLimits) (d : RateLimitDecision) (n steps k : ℕ)
        → route_try_acquire a.rate_limits r now ≡ some (l, d)
        → d.allowed ≡ true
        → (h a.proxies).active_proxies < (h a.proxies).max_proxies
        → get_elem? a.next_upstream r ≡ some n
        → n < size
        → k ≡ rotate size steps n
        → available a.health r k ≡ some true
        → ((e : ℕ) → e < steps → NotAvailable (rotate size e n))
        → Outcome (
            with_permit
              (acquired h a.proxies)
              (with_limits l)
              (selected_route c r)
              d
              (some a.proxies)
              (place a.next_upstream r size (some (some k))))
    unfolding with_permit place select_slot selected_route
    on_found l d n steps k e f g o b m v w =
        let k_bound : k < size = subst (λ x. x < size) (sym m) (rotate_bound size steps n b) in
        let (u, q) = get_elem?_total c.upstreams k k_bound in
        rw (next_place k k_bound, q, select_slot)
          (admitted l d (acquired h a.proxies) n steps k u e f g o m v w q
            (acquired_self h a.proxies) (acquired_others h a.proxies))

    on_searched :
        (l : RouteRateLimits) (d : RateLimitDecision) (n : ℕ) (s : Option (Option ℕ))
        → route_try_acquire a.rate_limits r now ≡ some (l, d)
        → d.allowed ≡ true
        → (h a.proxies).active_proxies < (h a.proxies).max_proxies
        → get_elem? a.next_upstream r ≡ some n
        → n < size
        → Searched a.health r size size n s
        → Outcome (
            with_permit
              (acquired h a.proxies)
              (with_limits l)
              (selected_route c r)
              d
              (some a.proxies)
              (place a.next_upstream r size s))
    unfolding place
    on_searched l d n s e f g o b (exhausted u) = on_none l d n e f g b u
    on_searched l d n s e f g o b (found steps k m v w) = on_found l d n steps k e f g o b m v w

    choose_searched :
        (l : RouteRateLimits) (n : ℕ)
        → get_elem? a.next_upstream r ≡ some n
        → n < size
        → choose (with_limits l) (selected_route c r) (some r)
          ≡ place a.next_upstream r size (search a.health r size size n)
    unfolding choose choose_from selected_route
    choose_searched l n e b = let f : leb size n ≡ false = ground arith in rw (e, f) refl

    on_capacity :
        (l : RouteRateLimits) (d : RateLimitDecision)
        → route_try_acquire a.rate_limits r now ≡ some (l, d)
        → d.allowed ≡ true
        → (h a.proxies).active_proxies < (h a.proxies).max_proxies
        → Outcome (
            with_capacity
              (acquired h a.proxies)
              (with_limits l)
              (selected_route c r)
              d
              (some (some a.proxies)))
    unfolding with_capacity selected_route
    on_capacity l d e f g =
        let (n, o, b) = position in
        let nonempty : (size == 0) ≡ false = ground arith in
        let fitting : ltb 16 size ≡ false = ground arith in
        rw (nonempty, fitting, choose_searched l n o b)
          (on_searched l d n _ e f g o b
            (search-Searched a.health r size size n b (λ k m. fits.slots r k c known m)))

    on_rate :
        (l : RouteRateLimits) (d : RateLimitDecision)
        → route_try_acquire a.rate_limits r now ≡ some (l, d)
        → Outcome (with_rate h (with_limits l) (selected_route c r) d)
    unfolding with_rate with_capacity
    on_rate l d e = elim (Bool-cases d.allowed) [
      | inr f ↦ simp (f, with_rate) (rate_limited l d e f)
      | inl f ↦ elim (Bool-cases (leb (h a.proxies).max_proxies (h a.proxies).active_proxies)) [
        | inl m ↦
            let full : (h a.proxies).max_proxies ≤ (h a.proxies).active_proxies = ground arith in
            simp (f, try_acquire_full h a.proxies full) (overloaded l d e f full)
        | inr m ↦
            let free : (h a.proxies).active_proxies < (h a.proxies).max_proxies = ground arith in
            simp (f, try_acquire_free h a.proxies free) (on_capacity l d e f free)
      ]
    ]

    -- On a route of the configuration an admission never throws. It is refused by the rate limit, or by
    -- the limit on proxies, in both cases with nothing but the bucket changed; or every upstream of the
    -- route is unavailable, and the capacity that it took is given back; or it takes capacity for one
    -- proxy and hands on the first upstream in rotation from the route's position that is available,
    -- with the position moved behind it.
    pub try_acquire-Outcome : Outcome (try_acquire h a (selected_route c r) now)
    unfolding try_acquire rate selected_route
    try_acquire-Outcome =
        let (s, e, f) =
          route_try_acquire_known a.rate_limits r now
            (omega (arith, fits.limits, get_elem?_bound routes r known)) in
        rw (f, try_acquire)
          (on_rate (acquire_slot a.rate_limits r now s).0 (acquire_slot a.rate_limits r now s).1 f)
