-- ===== src/RateLimit/Routes.antt =====
-- The buckets of all routes: one route's calls do not touch another route's bucket.
use c_item.Base.{
  ℕ, zero, suc, ◌^◌, ◌<◌, ◌≡◌, ◌≢◌, refl, subst, some_inj, ap, sym, ◌∙◌, Option-cases, inl, inr,
  Option, none, some, List, [], ◌∷◌, arith, length, get_elem?, set, get_elem?-set_ne, length-set,
  get_elem?_total,
}
use c_item.Config.{RateLimitConfig, RouteConfig}
use c_item.RateLimit.{
  TokenBucket, RateLimitDecision, RouteRateLimits, make_bucket, route_bucket, make_limits,
  try_acquire, acquire_slot, route_try_acquire,
}
use c_item.RateLimit.Refill.{IsValid, make_bucket-IsValid, try_acquire-IsValid}

abbrev pub SlotIsValid : Option TokenBucket → Type 0
SlotIsValid none = Unit {0}
SlotIsValid (some b) = IsValid b

abbrev pub AllValid : RouteRateLimits → Type 0
AllValid [] = Unit {0}
AllValid (s ∷ ss) = SlotIsValid s × AllValid ss

AllValid-set :
    (ss : RouteRateLimits) (i : ℕ) (s : Option TokenBucket)
    → AllValid ss
    → SlotIsValid s
    → AllValid (set ss i s)
AllValid-set [] i s h k = tt
AllValid-set (x ∷ ss) zero s h k = (k, h.1)
AllValid-set (x ∷ ss) (suc i) s h k = (h.0, AllValid-set ss i s h.1 k)

AllValid-get :
    (ss : RouteRateLimits) (i : ℕ) {s : Option TokenBucket}
    → AllValid ss
    → get_elem? ss i ≡ some s
    → SlotIsValid s
AllValid-get [] i h e = cc
AllValid-get (x ∷ ss) zero h e = subst SlotIsValid (some_inj e) h.0
AllValid-get (x ∷ ss) (suc i) h e = AllValid-get ss i h.1 e

route_bucket-SlotIsValid :
    (c : Option RateLimitConfig) (now : ℕ) {s : Option TokenBucket}
    → now < 2 ^ 64
    → route_bucket c now ≡ some s
    → SlotIsValid s
unfolding route_bucket
route_bucket-SlotIsValid none now h e = subst SlotIsValid (some_inj e) tt
route_bucket-SlotIsValid (some c) now {s} h e = elim (Option-cases (make_bucket c now)) [
  | inl f ↦ absurd (ground arith)
  | inr (b, f) ↦
      subst SlotIsValid (some_inj (rw (f, route_bucket) at e)) (make_bucket-IsValid c now h f)
]

make_limits-cons :
    (r : RouteConfig) (rs : List RouteConfig) (now : ℕ) {ss : RouteRateLimits}
    → make_limits (r ∷ rs) now ≡ some ss
    → (s : Option TokenBucket) × (ss' : RouteRateLimits) × (route_bucket r.rate_limit now ≡ some s)
      × (make_limits rs now ≡ some ss')
      × (s ∷ ss' ≡ ss)
unfolding make_limits
make_limits-cons r rs now e = elim (Option-cases (route_bucket r.rate_limit now)) [
  | inl f ↦ absurd (ground arith)
  | inr (s, f) ↦ elim (Option-cases (make_limits rs now)) [
    | inl g ↦ absurd (ground arith)
    | inr (ss', g) ↦ (s, ss', f, g, ground arith)
  ]
]

-- The constructor gives one bucket, full where there is one, to every route.
pub make_limits-AllValid :
    (rs : List RouteConfig) (now : ℕ) {ss : RouteRateLimits}
    → now < 2 ^ 64
    → make_limits rs now ≡ some ss
    → AllValid ss × (length ss ≡ length rs)
unfolding make_limits
make_limits-AllValid [] now h e = let q = some_inj e in (subst AllValid q tt, ap length (sym q))
make_limits-AllValid (r ∷ rs) now {ss} h e =
    let (s, ss', f, g, q) = make_limits-cons r rs now e in
    let (v, l) = make_limits-AllValid rs now h g in
    (
      subst AllValid q (route_bucket-SlotIsValid r.rate_limit now h f, v),
      ap length (sym q) ∙ ap suc l,
    )

acquire_slot-AllValid :
    (ss : RouteRateLimits) (i now : ℕ) (s : Option TokenBucket)
    → now < 2 ^ 64
    → AllValid ss
    → SlotIsValid s
    → AllValid (acquire_slot ss i now s).0
unfolding acquire_slot
acquire_slot-AllValid ss i now none h v k = v
acquire_slot-AllValid ss i now (some b) h v k =
    AllValid-set ss i (some (try_acquire b now).0) v (try_acquire-IsValid b now k h)

-- Only the route's own slot changes.
acquire_slot_others :
    (ss : RouteRateLimits) (i j now : ℕ) (s : Option TokenBucket)
    → i ≢ j
    → get_elem? (acquire_slot ss i now s).0 j ≡ get_elem? ss j
unfolding acquire_slot
acquire_slot_others ss i j now none h = refl
acquire_slot_others ss i j now (some b) h = get_elem?-set_ne ss i j (some (try_acquire b now).0) h

length-acquire_slot :
    (ss : RouteRateLimits) (i now : ℕ) (s : Option TokenBucket)
    → length (acquire_slot ss i now s).0 ≡ length ss
unfolding acquire_slot
length-acquire_slot ss i now none = refl
length-acquire_slot ss i now (some b) = length-set ss i (some (try_acquire b now).0)

-- The state and the decision of a call on a route that exists; the exception of `at` on another.
pub route_try_acquire_known :
    (ss : RouteRateLimits) (i now : ℕ)
    → i < length ss
    → (s : Option TokenBucket) × (get_elem? ss i ≡ some s)
      × (route_try_acquire ss i now ≡ some (acquire_slot ss i now s))
unfolding route_try_acquire
route_try_acquire_known ss i now h =
    let (s, e) = get_elem?_total ss i h in (s, e, rw (e, route_try_acquire))

-- A call on a configured route answers, keeps every bucket well formed, and leaves the bucket of
-- every other route as it was.
pub route_try_acquire-isolated :
    (ss : RouteRateLimits) (i now : ℕ)
    → i < length ss
    → now < 2 ^ 64
    → AllValid ss
    → (ss' : RouteRateLimits) × (d : RateLimitDecision) × (route_try_acquire ss i now
        ≡ some (ss', d))
      × AllValid ss'
      × (length ss' ≡ length ss)
      × ((j : ℕ) → i ≢ j → get_elem? ss' j ≡ get_elem? ss j)
route_try_acquire-isolated ss i now h k v =
    let (s, e, r) = route_try_acquire_known ss i now h in
    (
      (acquire_slot ss i now s).0,
      (acquire_slot ss i now s).1,
      r,
      acquire_slot-AllValid ss i now s k v (AllValid-get ss i v e),
      length-acquire_slot ss i now s,
      λ j n. acquire_slot_others ss i j now s n,
    )

pub length-route_try_acquire :
    (ss : RouteRateLimits) (i now : ℕ) {l : RouteRateLimits} {d : RateLimitDecision}
    → i < length ss
    → route_try_acquire ss i now ≡ some (l, d)
    → length l ≡ length ss
length-route_try_acquire ss i now h e =
    let (s, f, g) = route_try_acquire_known ss i now h in
    ap (λ x. length x.0) (some_inj (sym e ∙ g)) ∙ length-acquire_slot ss i now s
