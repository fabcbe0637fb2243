-- ===== src/Load/Sound.antt =====
-- Every configuration that loads is valid, whatever the environment holds.
use c_item.Base.{
  ℕ, ◌≡◌, ◌≢◌, sym, subst, ◌⊎◌, inl, inr, false, not, Option, none, some, List, [], ◌∷◌, Each, ◌&&◌,
  arith, Option-cases, is_some,
}
use c_item.Config.{RouteConfig, AppConfig, UpstreamConfig}
use c_item.Load.Result.{ok, Post-ok, bind-eq-ok, throw_if-passed, ok_inj}
use c_item.Load.Bounds.{OneTo}
use c_item.Load.Scalar.{Environment}
use c_item.Load.Upstreams.{parse_upstream_host-Post}
use c_item.Load.Routes.{Libraries}
use c_item.Load.Loaded.{parse_routes-Parsed}
use c_item.Load.Complete.{
  load_settings-valid, parse_upstream_port-valid, parse_bounded_milliseconds-valid,
}
use c_item.Load.App.{
  any_protected, load_routes, single_upstream, load_upstream, load_config_from_environment,
}
use c_item.Load.Valid.{Optional, UpstreamIsValid, IsHost, ConfigIsValid, SettingsAreValid}

none_protected :
    (rs : List RouteConfig)
    → any_protected rs ≡ false
    → Each (λ (r : RouteConfig). r.auth ≡ none) rs
unfolding any_protected
none_protected [] h = tt
none_protected (r ∷ rs) h = elim (Option-cases r.auth) [
  | inl e ↦ (e, none_protected rs (simp e at h))
  | inr (a, e) ↦ cc (simp e at h)
]

protected_by :
    (o : Option ℕ) (rs : List RouteConfig)
    → (not (is_some o) && any_protected rs) ≡ false
    → (o ≢ none) ⊎ Each (λ (r : RouteConfig). r.auth ≡ none) rs
protected_by none rs h = inr (none_protected rs h)
protected_by (some n) rs h = inl (λ e. cc)

module _ (libraries : Libraries) (env : Environment) where
  load_routes-valid :
      (c r : AppConfig) (text : List ℕ)
      → SettingsAreValid c
      → load_routes libraries env c text ≡ ok r
      → ConfigIsValid libraries.make_address r
  unfolding load_routes
  load_routes-valid c r text v e =
      let (routes, parsed, e) = bind-eq-ok _ _ e in
      let (safe, guard, e) = bind-eq-ok _ _ e in
      let (ca_file, got, e) = bind-eq-ok _ _ e in
      let (trust, got, e) = bind-eq-ok _ _ e in
      let (few, (each, differ, apart, count)) =
        parse_routes-Parsed libraries env text routes parsed in
      subst (ConfigIsValid libraries.make_address) (ok_inj e) (record {
        name_valid = v.name_valid;
        environment_valid = v.environment_valid;
        port_valid = v.port_valid;
        connections_valid = v.connections_valid;
        proxies_valid = v.proxies_valid;
        bytes_valid = v.bytes_valid;
        grace_valid = v.grace_valid;
        upstream_valid =
            subst (Optional (UpstreamIsValid libraries.make_address)) (sym v.no_upstream) tt;
        routes_valid = each;
        few_routes = few.1;
        prefixes_differ = differ;
        one_way = inl v.no_upstream;
        guarded = protected_by c.downstream_tls_context routes (throw_if-passed _ _ guard);
      })

  abbrev UpstreamsAreValid : Option UpstreamConfig → Type 0
  UpstreamsAreValid o = Optional (UpstreamIsValid libraries.make_address) o

  single_upstream-valid :
      (host port timeout : Option (List ℕ)) (o : Option UpstreamConfig)
      → single_upstream libraries host port timeout ≡ ok o
      → UpstreamsAreValid o
  unfolding single_upstream
  single_upstream-valid (some host) (some port) none o e =
      let (h, named, e) = bind-eq-ok _ _ e in
      let (p, numbered, e) = bind-eq-ok _ _ e in
      let (t, timed, e) = bind-eq-ok _ _ e in
      subst UpstreamsAreValid (ok_inj e) (record {
        host_valid =
            Post-ok (IsHost libraries.make_address) _
              (parse_upstream_host-Post libraries.make_address host) named;
        port_valid = parse_upstream_port-valid port p numbered;
        timeout_valid = subst (OneTo 60000) (ok_inj timed) (omega arith, omega arith);
      })
  single_upstream-valid (some host) (some port) (some timeout) o e =
      let (h, named, e) = bind-eq-ok _ _ e in
      let (p, numbered, e) = bind-eq-ok _ _ e in
      let (t, timed, e) = bind-eq-ok _ _ e in
      subst UpstreamsAreValid (ok_inj e) (record {
        host_valid =
            Post-ok (IsHost libraries.make_address) _
              (parse_upstream_host-Post libraries.make_address host) named;
        port_valid = parse_upstream_port-valid port p numbered;
        timeout_valid = parse_bounded_milliseconds-valid _ timeout t timed;
      })
  single_upstream-valid (some host) none timeout o e = cc
  single_upstream-valid none (some port) timeout o e = cc
  single_upstream-valid none none (some timeout) o e = cc
  single_upstream-valid none none none o e = subst UpstreamsAreValid (ok_inj e) tt

  load_upstream-valid :
      (c r : AppConfig)
      → SettingsAreValid c
      → load_upstream libraries env c ≡ ok r
      → ConfigIsValid libraries.make_address r
  unfolding load_upstream
  load_upstream-valid c r v e =
      let (host, got, e) = bind-eq-ok _ _ e in
      let (port, got, e) = bind-eq-ok _ _ e in
      let (timeout, got, e) = bind-eq-ok _ _ e in
      let (upstream, found, e) = bind-eq-ok _ _ e in
      let (ca_file, got, e) = bind-eq-ok _ _ e in
      let (trust, got, e) = bind-eq-ok _ _ e in
      subst (ConfigIsValid libraries.make_address) (ok_inj e) (record {
        name_valid = v.name_valid;
        environment_valid = v.environment_valid;
        port_valid = v.port_valid;
        connections_valid = v.connections_valid;
        proxies_valid = v.proxies_valid;
        bytes_valid = v.bytes_valid;
        grace_valid = v.grace_valid;
        upstream_valid = single_upstream-valid host port timeout upstream found;
        routes_valid = rw v.no_routes tt;
        few_routes = rw v.no_routes (omega arith);
        prefixes_differ = rw v.no_routes tt;
        one_way = inr v.no_routes;
        guarded = inr (rw v.no_routes tt);
      })

  -- A configuration that loads is valid, whatever the environment holds and whatever the libraries
  -- answer: every number is in its range, the labels and the hosts are well formed, there are at
  -- most 32 routes with different prefixes and 1 to 16 upstreams each, requests go to routes or to
  -- one upstream but not to both, and routes with keys are only served over TLS.
  pub load_config_from_environment-ConfigIsValid :
      (c : AppConfig)
      → load_config_from_environment libraries env ≡ ok c
      → ConfigIsValid libraries.make_address c
  unfolding load_config_from_environment
  load_config_from_environment-ConfigIsValid c e =
      let (settings, got, e) = bind-eq-ok _ _ e in
      let (alone, free, e) = bind-eq-ok _ _ e in
      let (routes, read, e) = bind-eq-ok _ _ e in
      let v = load_settings-valid libraries env settings got in
      elim (Option-cases routes) [
        | inl f ↦ load_upstream-valid settings c v (simp f at e)
        | inr (text, f) ↦ load_routes-valid settings c text v (simp f at e)
      ]
