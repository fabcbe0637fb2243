-- ===== src/Metrics/Render.antt =====
-- Exposition and Metrics::render of src/metrics.cpp. The output is text of bounded length; `none` is
-- the exception that a text too long, or an index out of range, throws.
use c_item.Base.{
  ℕ, zero, suc, ◌+◌, ◌-◌, ◌*◌, Bool, not, ◌||◌, Option, none, some, List, [], ◌∷◌, ◌++◌, ltb, ◌==◌,
  if◌then◌else◌, length,
}
use c_item.Base.Text.{codes}
use c_item.Base.Decimal.{to_decimal}
use c_item.Config.{AppConfig, RouteConfig}
use c_item.Budget.{Control}
use c_item.Health.{HealthState, available}
use c_item.Server.Accept.{AcceptCapacityState}
use c_item.Server.Permits.{ProxyAdmissionState}
use c_item.Metrics.{DoubleOps, Metrics}

abbrev pub max_output_bytes : ℕ
max_output_bytes = 128 * 1024

-- The output so far.
abbrev pub Exposition : Type 0
Exposition = List ℕ

unfoldable pub append : Exposition → List ℕ → Option Exposition
append output text =
    if ltb (max_output_bytes - length output) (length text) then none else some (output ++ text)

-- Calls of `append`, one after the other.
unfoldable pub append_all : Exposition → List (List ℕ) → Option Exposition
unfolding append
append_all output [] = some output
append_all output (text ∷ texts) = elim (append output text) [
  | none ↦ none
  | some output' ↦ append_all output' texts
]

-- The buffer of `number` has 64 bytes.
unfoldable pub fits_buffer : List ℕ → Bool
fits_buffer text = not (ltb 64 (length text))

abbrev pub family : List ℕ → List ℕ → List ℕ → List (List ℕ)
family name type help =
    codes "# HELP apigate_"
    ∷ name
    ∷ codes " "
    ∷ help
    ∷ codes "\n# TYPE apigate_"
    ∷ name
    ∷ codes " "
    ∷ type
    ∷ codes "\n"
    ∷ []

abbrev pub gauge : List ℕ → List ℕ → ℕ → List (List ℕ)
gauge name help value =
    family name (codes "gauge") help
    ++ codes "apigate_" ∷ name ∷ codes " " ∷ to_decimal value ∷ codes "\n" ∷ []

-- One sample of the responses, whose index counts from 0.
abbrev pub response_line : ℕ → ℕ → List (List ℕ)
response_line index value =
    codes "apigate_http_responses_total{status=\""
    ∷ (if index == 500 then codes "other" else to_decimal (index + 100))
    ∷ codes "\"} "
    ∷ to_decimal value
    ∷ codes "\n"
    ∷ []

unfoldable pub response_lines : ℕ → List ℕ → List (List ℕ)
response_lines index [] = []
response_lines index (v ∷ vs) = response_line index v ++ response_lines (index + 1) vs

abbrev pub rejection_names : List (List ℕ)
rejection_names =
    codes "rate_limit"
    ∷ codes "proxy_capacity"
    ∷ codes "buffer_capacity"
    ∷ codes "no_healthy_upstream"
    ∷ []

-- The names of failure_stages.
abbrev pub stage_names : List (List ℕ)
stage_names =
    codes "resolve"
    ∷ codes "connect"
    ∷ codes "handshake"
    ∷ codes "write"
    ∷ codes "read"
    ∷ codes "timeout"
    ∷ codes "response_too_large"
    ∷ codes "invalid_response"
    ∷ []

-- The samples of an array with a name for each counter.
unfoldable pub named_lines : List ℕ → List (List ℕ) → List ℕ → List (List ℕ)
named_lines opening names [] = []
named_lines opening [] (v ∷ vs) = []
named_lines opening (n ∷ names) (v ∷ vs) =
    opening ∷ n ∷ codes "\"} " ∷ to_decimal v ∷ codes "\n" ∷ named_lines opening names vs

abbrev pub slot_line : ℕ → ℕ → Bool → List (List ℕ)
slot_line route slot b =
    codes "apigate_upstream_available{route_index=\""
    ∷ to_decimal route
    ∷ codes "\",upstream_index=\""
    ∷ to_decimal slot
    ∷ codes "\"} "
    ∷ to_decimal (if b then 1 else 0)
    ∷ codes "\n"
    ∷ []

-- The samples of the last `left` slots of a route, from `slot` on.
unfoldable pub slot_lines : HealthState → ℕ → ℕ → ℕ → Option (List (List ℕ))
slot_lines health route zero slot = some []
slot_lines health route (suc left) slot =
    let rest = slot_lines health route left (slot + 1) in
    elim (available health route slot) [
      | none ↦ none
      | some b ↦ elim rest [ none ↦ none | some ls ↦ some (slot_line route slot b ++ ls) ]
    ]

unfoldable pub route_lines : HealthState → ℕ → List RouteConfig → Option (List (List ℕ))
unfolding slot_lines
route_lines health route [] = some []
route_lines health route (c ∷ cs) =
    let rest = route_lines health (route + 1) cs in
    let lines =
      if ltb 16 (length c.upstreams)
      then none
      else slot_lines health route (length c.upstreams) 0 in
    elim lines [ none ↦ none | some ls ↦ elim rest [ none ↦ none | some ls' ↦ some (ls ++ ls') ] ]

module _ {D : Type 0} (ops : DoubleOps D) (m : Metrics D) where
  unfoldable pub counter_lines : List (List ℕ)
  unfolding response_lines named_lines
  counter_lines =
      family (codes "http_responses_total") (codes "counter") (
        codes
          "Final responses generated, not delivery acknowledgements; excludes metrics requests.")
      ++ (response_lines 0 m.responses
          ++ (family (codes "rejections_total") (codes "counter")
                (codes "Local admission rejections; excludes metrics requests.")
              ++ (named_lines (codes "apigate_rejections_total{reason=\"") rejection_names
                    m.rejections
                  ++ (family (codes "upstream_failures_total") (codes "counter") (
                        codes
                          "Business proxy failures; excludes health probes and normal cancellation.")
                      ++ named_lines (codes "apigate_upstream_failures_total{stage=\"") stage_names
                          m.failures))))

  unfoldable pub processing_lines : List (List ℕ)
  processing_lines =
      family (codes "request_processing_seconds") (codes "summary") (
        codes
          "Complete request dispatch to response ready (streaming: header ready); excludes upload, downstream write, early parse rejections, cancellation without response and metrics requests. Population differs from http_responses_total.")
      ++ codes "apigate_request_processing_seconds_sum "
        ∷ ops.to_chars m.processing_sum
        ∷ codes "\napigate_request_processing_seconds_count "
        ∷ to_decimal m.processing_count
        ∷ codes "\n"
        ∷ []

  unfoldable pub gauge_lines : AcceptCapacityState → ProxyAdmissionState → Control → List (List ℕ)
  gauge_lines connections proxies budget =
      gauge (codes "active_connections")
        (codes "Current downstream connections, including the scraper.")
        connections.active_connections
      ++ (gauge (codes "max_connections") (codes "Downstream connection limit.")
            connections.max_connections
          ++ (gauge (codes "active_proxies") (codes "Current business proxy permits.")
                proxies.active_proxies
              ++ (gauge (codes "max_concurrent_proxies") (codes "Business proxy permit limit.")
                    proxies.max_proxies
                  ++ (gauge (codes "in_flight_body_bytes")
                        (codes "Current business body reservation bytes.") budget.current_bytes
                      ++ (gauge (codes "max_in_flight_body_bytes")
                            (codes "Business body reservation limit, not an RSS limit.")
                            budget.max_bytes
                          ++ family (codes "upstream_available") (codes "gauge") (
                              codes
                                "Slot eligible for selection; not proof of health or reachability."))))))

  -- Everything that `render` appends, in order.
  unfoldable pub all_lines :
      AcceptCapacityState → ProxyAdmissionState → Control → List (List ℕ) → List (List ℕ)
  unfolding counter_lines processing_lines gauge_lines
  all_lines connections proxies budget routes =
      counter_lines ++ (processing_lines ++ (gauge_lines connections proxies budget ++ routes))

  unfoldable pub render :
      AppConfig
      → AcceptCapacityState
      → ProxyAdmissionState
      → Control
      → HealthState
      → Option (List ℕ)
  render config connections proxies budget health =
      if ltb 32 (length config.routes) || not (fits_buffer (ops.to_chars m.processing_sum))
      then none
      else elim (route_lines health 0 config.routes) [
        | none ↦ none
        | some routes ↦ append_all [] (all_lines connections proxies budget routes)
      ]
