-- ===== src/Load/Upstreams.antt =====
-- The upstreams of a route that is accepted are valid, and there are 1 to 16 of them.
use c_item.Base.{
  ℕ, suc, ◌≡◌, refl, inl, inr, false, Option, List, [], ◌∷◌, length, Each, ltb, ◌==◌, ◌||◌, arith,
  if◌then◌else◌, Option-cases, subst, ap,
}
use c_item.Config.{UpstreamConfig}
use c_item.Base.Text.{codes}
use c_item.Load.Result.{
  Result, ok, throws, Post, Post-if, Post-elim, Post-free, Post-ok, bind-eq-ok, throw_if-passed,
  ok_inj, integer_out_of_range, ◌>>=◌, bad_route_host,
}
use c_item.Load.Bounds.{OneTo}
use c_item.Load.Scalar.{is_empty}
use c_item.Load.Host.{parse_upstream_host, validate_dns_hostname}
use c_item.Load.Host.Labels.{validate_dns_hostname_iff}
use c_item.Load.Json.{
  Json, pos, negsuc, Members, lookup, number_unsigned, number_integer, null_value, number_float,
  boolean, string, array, object,
}
use c_item.Load.Route.{
  in_bounds, route_integer, integer_or, catch_host, parse_route_upstream, parse_backend,
  parse_backends, parse_upstreams,
}
use c_item.Load.Valid.{UpstreamIsValid, IsHost}

in_bounds-Post : (n maximum : ℕ) → Post (OneTo maximum) (in_bounds n maximum)
unfolding in_bounds
in_bounds-Post n maximum =
    Post-if (OneTo maximum) (n == 0 || ltb maximum n) (throws integer_out_of_range) (ok n) (λ h. tt)
      (λ h. (ground arith, ground arith))

pub route_integer-Post : (v : Json) (maximum : ℕ) → Post (OneTo maximum) (route_integer v maximum)
unfolding route_integer
route_integer-Post (number_unsigned n) maximum = in_bounds-Post n maximum
route_integer-Post (number_integer (pos n)) maximum = in_bounds-Post n maximum
route_integer-Post (number_integer (negsuc n)) maximum = tt
route_integer-Post null_value maximum = tt
route_integer-Post number_float maximum = tt
route_integer-Post (boolean b) maximum = tt
route_integer-Post (string s) maximum = tt
route_integer-Post (array v) maximum = tt
route_integer-Post (object v) maximum = tt

pub integer_or-Post :
    (field : List ℕ) (entry : Members) (maximum default : ℕ)
    → OneTo maximum default
    → Post (OneTo maximum) (integer_or field entry maximum default)
unfolding integer_or
integer_or-Post field entry maximum default h =
    Post-elim (OneTo maximum) (lookup field entry) (ok default) (λ v. route_integer v maximum)
      (λ e. h) (λ v e. route_integer-Post v maximum)

pub parse_upstream_host-Post :
    (make_address : List ℕ → Option (List ℕ)) (s : List ℕ)
    → Post (IsHost make_address) (parse_upstream_host make_address s)
unfolding parse_upstream_host
parse_upstream_host-Post make_address s =
    Post-elim (IsHost make_address) (make_address s) (validate_dns_hostname s >>= λ _. ok s) ok
      (λ e.
        Post-free (IsHost make_address) (validate_dns_hostname s) (λ _. ok s)
          (λ u f. inr ((validate_dns_hostname_iff s).0 f)))
      (λ a e. inl (s, e))

catch_host-eq-ok : (m : Result (List ℕ)) {h : List ℕ} → catch_host m ≡ ok h → m ≡ ok h
unfolding catch_host
catch_host-eq-ok (ok a) e = e
catch_host-eq-ok (throws why) e = cc

checked-IsHost :
    (make_address : List ℕ → Option (List ℕ)) (s : List ℕ)
    → Post
        (IsHost make_address)
        (if is_empty s then throws bad_route_host else parse_upstream_host make_address s)
checked-IsHost make_address s =
    Post-if (IsHost make_address) (is_empty s) (throws bad_route_host)
      (parse_upstream_host make_address s) (λ e. tt) (λ e. parse_upstream_host-Post make_address s)

pub parse_route_upstream-valid :
    (make_address : List ℕ → Option (List ℕ)) (v : Json) (u : UpstreamConfig)
    → parse_route_upstream make_address v ≡ ok u
    → UpstreamIsValid make_address u
unfolding parse_route_upstream
parse_route_upstream-valid make_address v u e =
    let (entry, got, e) = bind-eq-ok _ _ e in
    let (host_value, got, e) = bind-eq-ok _ _ e in
    let (port_value, got, e) = bind-eq-ok _ _ e in
    let (host, got, e) = bind-eq-ok _ _ e in
    let (h, catch, e) = bind-eq-ok _ _ e in
    let (p, port, e) = bind-eq-ok _ _ e in
    let (t, time, e) = bind-eq-ok _ _ e in
    let (s, scheme, e) = bind-eq-ok _ _ e in
    subst (UpstreamIsValid make_address) (ok_inj e) (record {
      host_valid =
          Post-ok (IsHost make_address) _ (checked-IsHost make_address host)
            (catch_host-eq-ok _ catch);
      port_valid = Post-ok (OneTo 65535) _ (route_integer-Post port_value 65535) port;
      timeout_valid =
          Post-ok (OneTo 60000) _
            (integer_or-Post (codes "timeout_ms") entry 60000 3000 (omega arith, omega arith)) time;
    })

parse_backend-valid :
    (make_address : List ℕ → Option (List ℕ)) (v : Json) (u : UpstreamConfig)
    → parse_backend make_address v ≡ ok u
    → UpstreamIsValid make_address u
unfolding parse_backend
parse_backend-valid make_address v u e =
    let (entry, got, e) = bind-eq-ok _ _ e in
    let (known, got, e) = bind-eq-ok _ _ e in parse_route_upstream-valid make_address v u e

parse_backends-valid :
    (make_address : List ℕ → Option (List ℕ)) (vs : List Json) (us : List UpstreamConfig)
    → parse_backends make_address vs ≡ ok us
    → Each (UpstreamIsValid make_address) us × (length us ≡ length vs)
unfolding parse_backends
parse_backends-valid make_address [] us e =
    subst (λ us. Each (UpstreamIsValid make_address) us × (length us ≡ 0)) (ok_inj e) (tt, refl)
parse_backends-valid make_address (v ∷ vs) us e =
    let (u, here, e) = bind-eq-ok _ _ e in
    let (rest, later, e) = bind-eq-ok _ _ e in
    let (valid, count) = parse_backends-valid make_address vs rest later in
    subst (λ us. Each (UpstreamIsValid make_address) us × (length us ≡ suc (length vs))) (ok_inj e)
      ((parse_backend-valid make_address v u here, valid), ap suc count)

size_of :
    (pool : List Json) (us : List UpstreamConfig)
    → length us ≡ length pool
    → (is_empty pool || ltb 16 (length pool)) ≡ false
    → OneTo 16 (length us)
size_of [] us h e = cc
size_of (v ∷ pool) us h e = (ground (arith, h), ground (arith, h))

pub parse_upstreams-valid :
    (make_address : List ℕ → Option (List ℕ)) (v : Json) (entry : Members)
    (us : List UpstreamConfig)
    → parse_upstreams make_address v entry ≡ ok us
    → Each (UpstreamIsValid make_address) us × OneTo 16 (length us)
unfolding parse_upstreams
parse_upstreams-valid make_address v entry us e =
    elim (Option-cases (lookup (codes "upstreams") entry)) [
      | inl f ↦
          let (u, here, e) = bind-eq-ok _ _ (rw (f, parse_upstreams) at e) in
          subst (λ us. Each (UpstreamIsValid make_address) us × OneTo 16 (length us)) (ok_inj e)
            ((parse_route_upstream-valid make_address v u here, tt), (omega arith, omega arith))
      | inr (pool_value, f) ↦
          let (free, got, e) = bind-eq-ok _ _ (rw (f, parse_upstreams) at e) in
          let (pool, got, e) = bind-eq-ok _ _ e in
          let (small, size, e) = bind-eq-ok _ _ e in
          let (valid, count) = parse_backends-valid make_address pool us e in
          (valid, size_of pool us count (throw_if-passed _ _ size))
    ]
