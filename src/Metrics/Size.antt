-- ===== src/Metrics/Size.antt =====
-- The output of the metrics always fits its limit.
use c_item.Base.{
  ℕ, zero, suc, ◌+◌, ◌-◌, ◌*◌, ◌≤◌, ◌<◌, ◌≡◌, refl, sym, ap, ◌∙◌, inl, inr, Bool, false, not, ◌||◌,
  some, List, [], ◌∷◌, ◌++◌, arith, ltb, ◌==◌, if◌then◌else◌, Bool-cases, length, length-append,
  append_assoc, append-nil,
}
use c_item.Base.Text.{codes}
use c_item.Base.Decimal.{to_decimal, length-to_decimal}
use c_item.Config.{AppConfig, RouteConfig}
use c_item.Budget.{Control}
use c_item.Health.{HealthState, available}
use c_item.Server.Accept.{AcceptCapacityState}
use c_item.Server.Permits.{ProxyAdmissionState}
use c_item.Metrics.{DoubleOps, Metrics}
use c_item.Metrics.Render.{
  max_output_bytes, append, append_all, fits_buffer, family, gauge, response_line, response_lines,
  rejection_names, stage_names, named_lines, slot_line, slot_lines, route_lines, counter_lines,
  processing_lines, gauge_lines, all_lines, render,
}

unfoldable pub bytes : List (List ℕ) → ℕ
bytes [] = 0
bytes (t ∷ ts) = length t + bytes ts

unfoldable pub joined : List (List ℕ) → List ℕ
joined [] = []
joined (t ∷ ts) = t ++ joined ts

bytes-append : (xs ys : List (List ℕ)) → bytes (xs ++ ys) ≡ bytes xs + bytes ys
unfolding bytes
bytes-append [] ys = omega arith
bytes-append (x ∷ xs) ys = omega (arith, bytes-append xs ys)

length-joined : (ts : List (List ℕ)) → length (joined ts) ≡ bytes ts
unfolding joined bytes
length-joined [] = refl
length-joined (t ∷ ts) = omega (arith, length-append t (joined ts), length-joined ts)

-- Texts that fit are all appended.
append_all-joined :
    (ts : List (List ℕ)) (out : List ℕ)
    → length out + bytes ts ≤ max_output_bytes
    → append_all out ts ≡ some (out ++ joined ts)
unfolding append_all append bytes joined
append_all-joined [] out h = ap some (sym (append-nil out))
append_all-joined (t ∷ ts) out h =
    let fits : ltb (max_output_bytes - length out) (length t) ≡ false = ground arith in
    rw (fits, append_all)
      (append_all-joined ts (out ++ t) (omega (arith, length-append out t))
        ∙ ap some (append_assoc out t (joined ts)))

response_line_bytes : (i v : ℕ) → bytes (response_line i v) ≤ 81
unfolding bytes
response_line_bytes i v = elim (Bool-cases (i == 500)) [
  | inl e ↦ rw e (omega (arith, length-to_decimal v))
  | inr e ↦ rw e (omega (arith, length-to_decimal v, length-to_decimal (i + 100)))
]

response_lines_bytes : (i : ℕ) (vs : List ℕ) → bytes (response_lines i vs) ≤ 81 * length vs
unfolding response_lines bytes
response_lines_bytes i [] = omega arith
response_lines_bytes i (v ∷ vs) = omega (
  arith,
  bytes-append (response_line i v) (response_lines (i + 1) vs),
  response_line_bytes i v,
  response_lines_bytes (i + 1) vs,
)

-- No name is longer than 20 bytes.
abbrev Short : List (List ℕ) → Type 0
Short [] = Unit {0}
Short (n ∷ ns) = (length n ≤ 20) × Short ns

named_lines_bytes :
    (opening : List ℕ) (ns : List (List ℕ)) (vs : List ℕ)
    → Short ns
    → bytes (named_lines opening ns vs) ≤ (length opening + 44) * length vs
unfolding named_lines bytes
named_lines_bytes opening ns [] h = omega arith
named_lines_bytes opening [] (v ∷ vs) h = omega arith
named_lines_bytes opening (n ∷ ns) (v ∷ vs) h =
    grind (arith, named_lines_bytes opening ns vs h.1, h.0, length-to_decimal v)

-- The slots of a route are known to the health state.
abbrev pub Known : HealthState → ℕ → RouteConfig → Type 0
Known health route c =
    (k : ℕ) → k < length c.upstreams → (b : Bool) × (available health route k ≡ some b)

slot_line_bytes : (route slot : ℕ) (b : Bool) → bytes (slot_line route slot b) ≤ 122
unfolding bytes
slot_line_bytes route slot b =
    omega (
      arith,
      length-to_decimal route,
      length-to_decimal slot,
      length-to_decimal (if b then 1 else 0),
    )

slot_lines_total :
    (health : HealthState) (route left slot : ℕ)
    → ((k : ℕ) → k < slot + left → (b : Bool) × (available health route k ≡ some b))
    → (ls : List (List ℕ)) × (slot_lines health route left slot ≡ some ls) × (bytes ls ≤ 122 * left)
unfolding slot_lines bytes
slot_lines_total health route zero slot h = ([], refl, omega arith)
slot_lines_total health route (suc left) slot h =
    let (b, e) = h slot (omega arith) in
    let (ls, f, g) = slot_lines_total health route left (slot + 1) (λ k l. h k (omega arith)) in
    (
      slot_line route slot b ++ ls,
      rw (e, f, slot_lines) refl,
      omega (arith, g, bytes-append (slot_line route slot b) ls, slot_line_bytes route slot b),
    )

-- Every route, from the position `n` on, has at most 16 upstreams, which the health state knows.
abbrev pub AllKnown : HealthState → ℕ → List RouteConfig → Type 0
AllKnown health n [] = Unit {0}
AllKnown health n (c ∷ cs) =
    (length c.upstreams ≤ 16) × Known health n c × AllKnown health (n + 1) cs

route_lines_total :
    (health : HealthState) (n : ℕ) (cs : List RouteConfig)
    → AllKnown health n cs
    → (ls : List (List ℕ)) × (route_lines health n cs ≡ some ls) × (bytes ls ≤ 1952 * length cs)
unfolding route_lines bytes
route_lines_total health n [] h = ([], refl, omega arith)
route_lines_total health n (c ∷ cs) (small, known, rest) =
    let (ls, f, g) =
      slot_lines_total health n (length c.upstreams) 0 (λ k l. known k (omega arith)) in
    let (ls', f', g') = route_lines_total health (n + 1) cs rest in
    let few : ltb 16 (length c.upstreams) ≡ false = ground arith in
    (ls ++ ls', rw (few, f, f', route_lines) refl, omega (arith, g, g', bytes-append ls ls'))

family_bytes :
    (name type help : List ℕ)
    → bytes (family name type help) ≡ 34 + length name + length name + length type + length help
unfolding bytes
family_bytes name type help = omega arith

gauge_bytes :
    (name help : List ℕ) (v : ℕ)
    → bytes (gauge name help v) ≤ 69 + length name + length name + length name + length help
unfolding bytes
gauge_bytes name help v = omega (
  arith,
  bytes-append (family name (codes "gauge") help)
      (codes "apigate_" ∷ name ∷ codes " " ∷ to_decimal v ∷ codes "\n" ∷ []),
  family_bytes name (codes "gauge") help,
  length-to_decimal v,
)

-- What the object of the metrics guarantees of its arrays.
pub record Sized {D : Type 0} (m : Metrics D) : Type 0 where
  pub responses : length m.responses ≡ 501
  pub rejections : length m.rejections ≡ 4
  pub failures : length m.failures ≡ 8

module _ {D : Type 0} (ops : DoubleOps D) (m : Metrics D) where
  Short-rejection_names : Short rejection_names
  Short-rejection_names = (omega arith, (omega arith, (omega arith, (omega arith, tt))))

  Short-stage_names : Short stage_names
  Short-stage_names = (
    omega arith,
    (
      omega arith,
      (omega arith, (omega arith, (omega arith, (omega arith, (omega arith, (omega arith, tt)))))),
    ),
  )

  counter_lines_bytes : Sized m → bytes (counter_lines ops m) ≤ 43000
  unfolding counter_lines
  counter_lines_bytes h =
      let reasons : List ℕ = codes "apigate_rejections_total{reason=\"" in
      let stages : List ℕ = codes "apigate_upstream_failures_total{stage=\"" in
      let r : bytes (named_lines reasons rejection_names m.rejections) ≤ 400 = omega (
        arith,
        named_lines_bytes reasons rejection_names m.rejections Short-rejection_names,
        h.rejections,
      ) in
      let f : bytes (named_lines stages stage_names m.failures) ≤ 800 =
        omega
          (arith, named_lines_bytes stages stage_names m.failures Short-stage_names, h.failures) in
      omega
        (arith, bytes-append, family_bytes, response_lines_bytes 0 m.responses, h.responses, r, f)

  processing_lines_bytes :
      length (ops.to_chars m.processing_sum) ≤ 64 → bytes (processing_lines ops m) ≤ 800
  unfolding processing_lines bytes
  processing_lines_bytes h = omega (arith, h, length-to_decimal m.processing_count)

  gauge_lines_bytes :
      (a : AcceptCapacityState) (p : ProxyAdmissionState) (b : Control)
      → bytes (gauge_lines ops m a p b) ≤ 2000
  unfolding gauge_lines
  gauge_lines_bytes a p b = omega (arith, bytes-append, gauge_bytes, family_bytes)

  -- For 32 routes at most, of 16 upstreams at most, which the health state knows, and a sum that prints
  -- within the buffer of 64 bytes, the rendering succeeds, whatever the counters and the gauges are:
  -- it is every text in order, and no longer than the limit of 128 KiB.
  pub render_fits :
      (config : AppConfig) (a : AcceptCapacityState) (p : ProxyAdmissionState) (b : Control)
      (health : HealthState)
      → Sized m
      → length config.routes ≤ 32
      → AllKnown health 0 config.routes
      → length (ops.to_chars m.processing_sum) ≤ 64
      → (routes : List (List ℕ)) × (route_lines health 0 config.routes ≡ some routes)
        × (render ops m config a p b health ≡ some (joined (all_lines ops m a p b routes)))
        × (length (joined (all_lines ops m a p b routes)) ≤ max_output_bytes)
  unfolding render all_lines fits_buffer
  render_fits config a p b health s few known h =
      let (routes, e, l) = route_lines_total health 0 config.routes known in
      let size : bytes (all_lines ops m a p b routes) ≤ max_output_bytes = omega (
        arith,
        bytes-append,
        counter_lines_bytes s,
        processing_lines_bytes h,
        gauge_lines_bytes a p b,
        l,
        few,
      ) in
      let bounded : (ltb 32 (length config.routes)
            || not (fits_buffer (ops.to_chars m.processing_sum)))
          ≡ false =
        ground arith in
      (
        routes,
        e,
        rw (bounded, e, render)
            (append_all-joined (all_lines ops m a p b routes) [] (omega (arith, size))),
        omega (arith, length-joined (all_lines ops m a p b routes), size),
      )
