-- ===== src/Handler/Select.antt =====
-- The route that is selected is the longest that matches.
use c_item.Base.{
  ℕ, zero, suc, ◌+◌, ◌≤◌, ◌<◌, ◌≡◌, refl, ap, ◌∙◌, subst, inl, inr, true, ◌&&◌, Option, none, some,
  some_inj, List, [], ◌∷◌, arith, ltb, get_elem?, length, Bool-cases, and_true, ltb→lt,
}
use c_item.Config.{RouteConfig, AppConfig}
use c_item.Handler.Boundary.{AtBoundary, matches-AtBoundary, AtBoundary-matches}
use c_item.Handler.{
  SelectedRoute, HttpRequest, request_path, matches, selected_route, select_loop, select_configured,
  is_proxyable, select_http_route,
}

-- No route that matches the path is longer than `m`.
abbrev pub NoneLonger : List ℕ → List RouteConfig → ℕ → Type 0
NoneLonger path routes m =
    (j : ℕ) (r : RouteConfig)
    → get_elem? routes j ≡ some r
    → matches r.prefix path ≡ true
    → length r.prefix ≤ m

-- Every route before the position `k` that matches the path is shorter than `m`.
abbrev pub ShorterBefore : List ℕ → List RouteConfig → ℕ → ℕ → Type 0
ShorterBefore path routes k m =
    (j : ℕ) (r : RouteConfig)
    → j < k
    → get_elem? routes j ≡ some r
    → matches r.prefix path ≡ true
    → length r.prefix < m

-- What the loop returns from the route of index `n` on: what it had, or a longer route.
pub data Chosen (path : List ℕ) (routes : List RouteConfig) (n : ℕ)
    (selected : Option SelectedRoute) (longest : ℕ) : Option SelectedRoute → Type 0 where
  kept : NoneLonger path routes longest → Chosen path routes n selected longest selected
  chosen :
      (j k : ℕ) (r : RouteConfig)
      → k ≡ n + j
      → get_elem? routes j ≡ some r
      → matches r.prefix path ≡ true
      → longest < length r.prefix
      → NoneLonger path routes (length r.prefix)
      → ShorterBefore path routes j (length r.prefix)
      → Chosen path routes n selected longest (some (selected_route r k))

module _ (path : List ℕ) (x : RouteConfig) (routes : List RouteConfig) where
  NoneLonger-cons :
      (m : ℕ)
      → (matches x.prefix path ≡ true → length x.prefix ≤ m)
      → NoneLonger path routes m
      → NoneLonger path (x ∷ routes) m
  NoneLonger-cons m h k zero r e f =
      subst (λ s. matches s.prefix path ≡ true → length s.prefix ≤ m) (some_inj e) h f
  NoneLonger-cons m h k (suc j) r e f = k j r e f

  ShorterBefore-cons :
      (k m : ℕ)
      → (matches x.prefix path ≡ true → length x.prefix < m)
      → ShorterBefore path routes k m
      → ShorterBefore path (x ∷ routes) (suc k) m
  ShorterBefore-cons k m h l zero r b e f =
      subst (λ s. matches s.prefix path ≡ true → length s.prefix < m) (some_inj e) h f
  ShorterBefore-cons k m h l (suc j) r b e f = l j r (omega arith) e f

  -- The head is taken: what follows may only replace it by a longer route.
  Chosen-taken :
      (n : ℕ) (selected : Option SelectedRoute) (longest : ℕ) {res : Option SelectedRoute}
      → longest < length x.prefix
      → matches x.prefix path ≡ true
      → Chosen path routes (n + 1) (some (selected_route x n)) (length x.prefix) res
      → Chosen path (x ∷ routes) n selected longest res
  Chosen-taken n selected longest l f (kept none_longer) =
      chosen 0 n x (omega arith) refl f l
        (NoneLonger-cons (length x.prefix) (λ g. omega arith) none_longer) (λ j r b. elim b [ ])
  Chosen-taken n selected longest l f (chosen j k r e g m l' none_longer before) =
      chosen (suc j) k r (omega (arith, e)) g m (omega arith)
        (NoneLonger-cons (length r.prefix) (λ h. omega arith) none_longer)
        (ShorterBefore-cons j (length r.prefix) (λ h. l') before)

  -- The head is passed over.
  Chosen-passed :
      (n : ℕ) (selected : Option SelectedRoute) (longest : ℕ) {res : Option SelectedRoute}
      → (matches x.prefix path ≡ true → length x.prefix ≤ longest)
      → Chosen path routes (n + 1) selected longest res
      → Chosen path (x ∷ routes) n selected longest res
  Chosen-passed n selected longest h (kept none_longer) =
      kept (NoneLonger-cons longest h none_longer)
  Chosen-passed n selected longest h (chosen j k r e g m l none_longer before) =
      chosen (suc j) k r (omega (arith, e)) g m l
        (NoneLonger-cons (length r.prefix) (λ f. omega (arith, h f)) none_longer)
        (ShorterBefore-cons j (length r.prefix) (λ f. omega (arith, h f)) before)

select_loop-Chosen :
    (path : List ℕ) (routes : List RouteConfig) (n : ℕ) (selected : Option SelectedRoute)
    (longest : ℕ)
    → Chosen path routes n selected longest (select_loop path routes n selected longest)
unfolding select_loop
select_loop-Chosen path [] n selected longest = kept (λ j r e. absurd (cc))
select_loop-Chosen path (x ∷ routes) n selected longest =
    elim (Bool-cases (ltb longest (length x.prefix) && matches x.prefix path)) [
      | inl e ↦
          let (a, b) = and_true (ltb longest (length x.prefix)) (matches x.prefix path) e in
          rw e (
            Chosen-taken path x routes n selected longest (ltb→lt longest (length x.prefix) a) b (
              select_loop-Chosen path routes (n + 1) (some (selected_route x n)) (length x.prefix)))
      | inr e ↦ rw e (
          Chosen-passed path x routes n selected longest (λ f. ground arith)
            (select_loop-Chosen path routes (n + 1) selected longest))
    ]

-- The outcome of the selection for a request that may be proxied, with routes configured.
pub data Selection (path : List ℕ) (routes : List RouteConfig) : Option SelectedRoute → Type 0 where
  -- No route with a prefix stands at a boundary of the path.
  unrouted :
      ((j : ℕ) (r : RouteConfig)
        → get_elem? routes j ≡ some r
        → AtBoundary r.prefix path
        → length r.prefix ≤ 0)
      → Selection path routes none
  -- The first of the longest routes that do.
  routed :
      (i : ℕ) (r : RouteConfig)
      → get_elem? routes i ≡ some r
      → AtBoundary r.prefix path
      → ((j : ℕ) (q : RouteConfig)
          → get_elem? routes j ≡ some q
          → AtBoundary q.prefix path
          → length q.prefix ≤ length r.prefix)
      → ((j : ℕ) (q : RouteConfig)
          → j < i
          → get_elem? routes j ≡ some q
          → AtBoundary q.prefix path
          → length q.prefix < length r.prefix)
      → Selection path routes (some (selected_route r i))

Chosen-Selection :
    (path : List ℕ) (routes : List RouteConfig) {res : Option SelectedRoute}
    → Chosen path routes 0 none 0 res
    → Selection path routes res
Chosen-Selection path routes (kept none_longer) =
    unrouted (λ j r e m. none_longer j r e (AtBoundary-matches r.prefix path m))
Chosen-Selection path routes (chosen j k r e g m l none_longer before) =
    routed k r (ap (get_elem? routes) (omega (arith, e)) ∙ g) (matches-AtBoundary r.prefix path m)
      (λ i q f n. none_longer i q f (AtBoundary-matches q.prefix path n))
      (λ i q b f n. before i q (omega (arith, e)) f (AtBoundary-matches q.prefix path n))

-- A request that may be proxied, where no single upstream is configured, gets the longest route
-- whose prefix ends where a segment of its path ends, the first of them if several are as long, and
-- none exactly when there is no such route with a prefix.
pub select_http_route-Selection :
    (config : AppConfig) (r : HttpRequest)
    → is_proxyable config r ≡ true
    → config.upstream ≡ none
    → Selection (request_path r.target) config.routes (select_http_route config r)
unfolding select_http_route select_configured
select_http_route-Selection config r h e =
    rw (h, e)
      (Chosen-Selection (request_path r.target) config.routes
        (select_loop-Chosen (request_path r.target) config.routes 0 none 0))
