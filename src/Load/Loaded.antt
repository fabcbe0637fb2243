-- ===== src/Load/Loaded.antt =====
-- Every configuration that loads is valid.
use c_item.Base.{
  ℕ, suc, ◌≡◌, refl, sym, subst, ap, false, List, [], ◌∷◌, length, Each, ltb, ◌||◌, arith,
}
use c_item.Base.Text.{eq_bytes_iff}
use c_item.Config.{RouteConfig}
use c_item.Load.Result.{ok, bind-eq-ok, throw_if-passed, ok_inj}
use c_item.Load.Bounds.{OneTo}
use c_item.Load.Scalar.{is_empty, Environment}
use c_item.Load.Host.Segments.{IsPrefix, validate_route_prefix_iff}
use c_item.Load.Json.{Json, Members, contains_text}
use c_item.Load.Upstreams.{parse_upstreams-valid}
use c_item.Load.Checks.{parse_rate_limit-valid, parse_health_check-valid}
use c_item.Load.Keys.{parse_auth-valid}
use c_item.Load.Routes.{
  Libraries, parse_entry, entry_prefix, entry_settings, parse_entries, parse_routes,
}
use c_item.Load.Valid.{Apart, Distinct, RouteIsValid, prefixes}

pub contains_text-Apart :
    (s : List ℕ) (ts : List (List ℕ)) → contains_text s ts ≡ false → Apart s ts
unfolding contains_text
contains_text-Apart s [] h = tt
contains_text-Apart s (t ∷ ts) h =
    ((λ e. ground (arith, (eq_bytes_iff s t).1 e)), contains_text-Apart s ts (ground arith))

Apart-front :
    (p : List ℕ) (earlier ps : List (List ℕ)) → Each (λ q. Apart q (p ∷ earlier)) ps → Apart p ps
Apart-front p earlier [] h = tt
Apart-front p earlier (q ∷ ps) ((ne, apart), later) =
    ((λ e. ne (sym e)), Apart-front p earlier ps later)

Apart-rest :
    (p : List ℕ) (earlier ps : List (List ℕ))
    → Each (λ q. Apart q (p ∷ earlier)) ps
    → Each (λ q. Apart q earlier) ps
Apart-rest p earlier [] h = tt
Apart-rest p earlier (q ∷ ps) ((ne, apart), later) = (apart, Apart-rest p earlier ps later)

module _ (libraries : Libraries) (env : Environment) where
  entry_prefix-valid :
      (earlier : List (List ℕ)) (v : Json) (entry : Members) (prefix : List ℕ)
      → entry_prefix earlier v ≡ ok (entry, prefix)
      → IsPrefix prefix × Apart prefix earlier
  unfolding entry_prefix
  entry_prefix-valid earlier v entry prefix e =
      let (members, got, e) = bind-eq-ok _ _ e in
      let (value, got, e) = bind-eq-ok _ _ e in
      let (known, got, e) = bind-eq-ok _ _ e in
      let (text, got, e) = bind-eq-ok _ _ e in
      let (fit, shape, e) = bind-eq-ok _ _ e in
      let (fresh, new, e) = bind-eq-ok _ _ e in
      subst (λ p. IsPrefix p × Apart p earlier) (ap (λ q. q.1) (ok_inj e))
        (
          (validate_route_prefix_iff text).0 shape,
          contains_text-Apart text earlier (throw_if-passed _ _ new),
        )

  entry_settings-valid :
      (v : Json) (entry : Members) (prefix : List ℕ) (r : RouteConfig)
      → IsPrefix prefix
      → entry_settings libraries env v entry prefix ≡ ok r
      → RouteIsValid libraries.make_address r × (r.prefix ≡ prefix)
  unfolding entry_settings
  entry_settings-valid v entry prefix r p e =
      let (us, upstreams, e) = bind-eq-ok _ _ e in
      let (strip, got, e) = bind-eq-ok _ _ e in
      let (limit, rate, e) = bind-eq-ok _ _ e in
      let (check, health, e) = bind-eq-ok _ _ e in
      let (auth, keys, e) = bind-eq-ok _ _ e in
      let (stream, got, e) = bind-eq-ok _ _ e in
      let (each, some_upstream) =
        parse_upstreams-valid libraries.make_address v entry us upstreams in
      subst (λ r. RouteIsValid libraries.make_address r × (r.prefix ≡ prefix)) (ok_inj e)
        (
          record {
            prefix_valid = p;
            some_upstream = some_upstream;
            upstreams_valid = each;
            limit_valid = parse_rate_limit-valid entry limit rate;
            health_valid = parse_health_check-valid entry check health;
            auth_valid = parse_auth-valid env libraries.hash_api_key entry auth keys;
          },
          refl,
        )

  abbrev pub Parsed : List (List ℕ) → ℕ → List RouteConfig → Type 0
  Parsed earlier n rs =
      Each (RouteIsValid libraries.make_address) rs
      × Distinct (prefixes rs)
      × Each (λ p. Apart p earlier) (prefixes rs)
      × (length rs ≡ n)

  parse_entries-Parsed :
      (earlier : List (List ℕ)) (vs : List Json) (rs : List RouteConfig)
      → parse_entries libraries env earlier vs ≡ ok rs
      → Parsed earlier (length vs) rs
  unfolding parse_entries parse_entry
  parse_entries-Parsed earlier [] rs e = subst (Parsed earlier 0) (ok_inj e) (tt, tt, tt, refl)
  parse_entries-Parsed earlier (v ∷ vs) rs e =
      let (r, here, e) = bind-eq-ok _ _ e in
      let (rest, later, e) = bind-eq-ok _ _ e in
      let (found, start, finish) = bind-eq-ok _ _ here in
      let (well_formed, fresh) = entry_prefix-valid earlier v found.0 found.1 start in
      let (valid, named) = entry_settings-valid v found.0 found.1 r well_formed finish in
      let (each, differ, apart, count) = parse_entries-Parsed (r.prefix ∷ earlier) vs rest later in
      subst (Parsed earlier (suc (length vs))) (ok_inj e) (
        (valid, each),
        (Apart-front r.prefix earlier (prefixes rest) apart, differ),
        (
          subst (λ p. Apart p earlier) (sym named) fresh,
          Apart-rest r.prefix earlier (prefixes rest) apart,
        ),
        ap suc count,
      )

  few_entries :
      (vs : List Json) → (is_empty vs || ltb 32 (length vs)) ≡ false → OneTo 32 (length vs)
  few_entries [] e = cc
  few_entries (v ∷ vs) e = (ground arith, ground arith)

  pub parse_routes-Parsed :
      (text : List ℕ) (rs : List RouteConfig)
      → parse_routes libraries env text ≡ ok rs
      → OneTo 32 (length rs) × Parsed [] (length rs) rs
  unfolding parse_routes
  parse_routes-Parsed text rs e =
      let (short, got, e) = bind-eq-ok _ _ e in
      let (document, got, e) = bind-eq-ok _ _ e in
      let (entries, got, e) = bind-eq-ok _ _ e in
      let (few, size, e) = bind-eq-ok _ _ e in
      let (each, differ, apart, count) = parse_entries-Parsed [] entries rs e in
      (
        subst (OneTo 32) (sym count) (few_entries entries (throw_if-passed _ _ size)),
        (each, differ, apart, refl),
      )
