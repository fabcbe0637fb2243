-- ===== src/Proxy/Target.antt =====
-- The target that the upstream sees begins with a path, whatever prefix is stripped.
use c_item.Base.{
  ℕ, suc, ◌≡◌, refl, sym, ap, subst, ◌∙◌, inl, inr, ◌⊎◌, Bool, true, false, not, ◌&&◌, ◌||◌, Option,
  some, some_inj, List, [], ◌∷◌, ◌++◌, arith, ◌==◌, if_cases, Bool-cases, Option-cases, and_true,
  length, get_elem?, drop, drop-append, append_assoc, append-nil,
}
use c_item.Base.Text.{codes, eq_bytes, starts_with, starts_with_rest, find_byte, find_byte_found}
use c_item.Config.{AppConfig, RouteConfig}
use c_item.Handler.{
  HttpRequest, SelectedRoute, SelectedUpstream, request_path, front_is, char_is, matches,
  select_http_route, is_proxyable, select_configured, is_supported_proxy_target, selected_route,
}
use c_item.Handler.Select.{Selection, unrouted, routed, select_http_route-Selection}
use c_item.Handler.Boundary.{boundary, AtBoundary-matches}
use c_item.Proxy.{is_nil, rooted, rewrite_target, make_upstream_request}

-- A path, and the query behind it, which is empty or begins with its mark.
split_query :
    (target : List ℕ)
    → (q : List ℕ) × (target ≡ request_path target ++ q)
      × ((q ≡ []) ⊎ ((s : List ℕ) × (q ≡ b'?' ∷ s)))
unfolding request_path
split_query target = elim (Option-cases (find_byte b'?' target)) [
  | inl f ↦ rw (f, request_path) ([], sym (append-nil target), inl refl)
  | inr (i, f) ↦
      let (e, g) = find_byte_found b'?' target i f in
      rw (f, request_path) (b'?' ∷ drop (suc i) target, e, inr (drop (suc i) target, refl))
]

rest_of_path :
    (prefix path : List ℕ)
    → matches prefix path ≡ true
    → eq_bytes prefix (codes "/") ≡ false
    → (rest : List ℕ) × (path ≡ prefix ++ rest) × ((rest ≡ []) ⊎ ((s : List ℕ) × (rest ≡ b'/' ∷ s)))
unfolding matches
rest_of_path prefix path m n =
    let (a, b) : (starts_with prefix path ≡ true)
        × ((eq_bytes prefix (codes "/")
              || length path == length prefix
              || char_is (get_elem? path (length prefix)) b'/')
            ≡ true) =
      and_true _ _ m in
    let e : path ≡ prefix ++ drop (length prefix) path = sym (starts_with_rest prefix path a) in
    (drop (length prefix) path, e, boundary (length prefix) path (rw n at b))

rooted_front :
    (rest q : List ℕ)
    → (rest ≡ []) ⊎ ((s : List ℕ) × (rest ≡ b'/' ∷ s))
    → (q ≡ []) ⊎ ((s : List ℕ) × (q ≡ b'?' ∷ s))
    → front_is b'/' (rooted (rest ++ q)) ≡ true
unfolding rooted
rooted_front rest q (inl e) (inl f) = rw (e, f) refl
rooted_front rest q (inl e) (inr (s, f)) = rw (e, f) refl
rooted_front rest q (inr (s, e)) f = rw e refl

stripped_front :
    (prefix target : List ℕ)
    → matches prefix (request_path target) ≡ true
    → eq_bytes prefix (codes "/") ≡ false
    → front_is b'/' (rooted (drop (length prefix) target)) ≡ true
stripped_front prefix target m n =
    let (q, e, k) = split_query target in
    let (rest, f, l) = rest_of_path prefix (request_path target) m n in
    let same : drop (length prefix) target ≡ rest ++ q =
      ap (drop (length prefix)) (e ∙ ap (λ p. p ++ q) f ∙ append_assoc prefix rest q)
      ∙ drop-append prefix (rest ++ q) in
    subst (λ t. front_is b'/' (rooted t) ≡ true) (sym same) (rooted_front rest q l k)

routed_matches :
    (path : List ℕ) (routes : List RouteConfig) (res : Option SelectedRoute) (route : SelectedRoute)
    → Selection path routes res
    → res ≡ some route
    → matches route.prefix path ≡ true
unfolding selected_route
routed_matches path routes res route (unrouted n) e = cc
routed_matches path routes res route (routed i r g m n b) e =
    subst (λ (s : SelectedRoute). matches s.prefix path ≡ true) (some_inj e)
      (AtBoundary-matches r.prefix path m)

module _ (config : AppConfig) (request : HttpRequest) where
  proxyable_front : is_proxyable config request ≡ true → front_is b'/' request.target ≡ true
  unfolding is_proxyable is_supported_proxy_target
  proxyable_front h = ground arith

  -- What is selected for a request that may be proxied: no prefix, or one that the path has.
  selected_prefix :
      (route : SelectedRoute)
      → select_http_route config request ≡ some route
      → (is_proxyable config request ≡ true)
        × ((route.strip_prefix ≡ false)
            ⊎ (matches route.prefix (request_path request.target) ≡ true))
  unfolding select_http_route select_configured
  selected_prefix route e = elim (Bool-cases (is_proxyable config request)) [
    | inr f ↦ cc (rw (f, select_http_route) at e)
    | inl f ↦ elim (Option-cases config.upstream) [
      | inl g ↦
          (f, inr (routed_matches _ _ _ route (select_http_route-Selection config request f g) e))
      | inr (u, g) ↦ (
        f,
        inl (
            sym (
              ap (λ (s : SelectedRoute). s.strip_prefix)
                (some_inj (rw (f, g, select_http_route) at e)))),
      )
    ]
  ]

  -- Whatever route is selected for a request, and whichever of its upstreams, the target that the
  -- upstream sees begins with a slash, with the prefix stripped or not.
  pub upstream_target_rooted :
      (route : SelectedRoute) (selected : SelectedUpstream) (keep_alive : Bool)
      → select_http_route config request ≡ some route
      → selected.prefix ≡ route.prefix
      → selected.strip_prefix ≡ route.strip_prefix
      → front_is b'/' (make_upstream_request selected request keep_alive).target ≡ true
  unfolding make_upstream_request rewrite_target
  upstream_target_rooted route selected keep_alive e p s =
      let (f, k) = selected_prefix route e in
      if_cases (λ t. front_is b'/' t ≡ true)
        (selected.strip_prefix
          && not (is_nil selected.prefix)
          && not (eq_bytes selected.prefix (codes "/")))
        (λ g.
          let stripped : selected.strip_prefix ≡ true = ground arith in
          let long : eq_bytes selected.prefix (codes "/") ≡ false = ground arith in
          elim k [
            | inl h ↦ cc (stripped, s, h)
            | inr h ↦
                stripped_front selected.prefix request.target
                  (subst (λ x. matches x (request_path request.target) ≡ true) (sym p) h) long
          ])
        (λ g. proxyable_front f)
