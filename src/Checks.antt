-- ===== src/Checks.antt =====
-- src/health_check.cpp, HealthChecks::Impl: the schedule, the probes in flight and the timer. Every
-- turn of the loop of `pump` reads the clock; what else happens in it comes with the reading. `none`
-- as the result of a pump says that the readings have run out.
pub mod Slots
pub mod Launch
pub mod Moves
pub mod Turns
pub mod Loop
pub mod Pump
pub mod Begin
pub mod Runs
mod Examples
use c_item.Base.{
  ℕ, ◌+◌, ◌++◌, Bool, true, false, not, ◌&&◌, ◌||◌, Option, none, some, List, [], ◌∷◌,
  if◌then◌else◌, get_elem?, set, length, map, is_some, ◌==◌,
}
use c_item.Config.{UpstreamScheme, http, https, UpstreamConfig, HealthCheckConfig, RouteConfig}
use c_item.Health.{HealthState, HealthTransition, unchanged, unhealthy, healthy, record_result}
use c_item.Health.Schedule.{ProbeSchedule, make_schedule, take_due, complete, next_due, stop}
use c_item.Probe.{
  Probe, Effect, Reason, reports, closes, make_probe, cancel, start, Event, step, WaitError,
  elapsed, aborted, broken, cancels,
}

pub record Target : Type 0 where
  pub route : ℕ
  pub upstream : ℕ
  pub secure : Bool
  pub interval : ℕ

-- What is logged, and the call of `on_failure_`.
pub data Notice : Type 0 where
  marks : (route upstream : ℕ) → HealthTransition → Reason → Notice
  fails : Notice

-- `wait` is the wait on the timer, until it ends or is replaced; `posted` the first pump.
pub record HealthChecks : Type 0 where
  pub targets : List Target
  pub context : Bool
  pub probes : List (Option Probe)
  pub schedule : ProbeSchedule
  pub health : HealthState
  pub wait : Option ℕ
  pub posted : Bool
  pub started : Bool
  pub stopped : Bool
  pub pumping : Bool
  pub notices : List Notice

-- A reading of the clock in the loop, whether the probe cannot be made (or the timer not be set),
-- and whether an exception leaves its start.
pub record Turn : Type 0 where
  pub now : ℕ
  pub throws : Bool
  pub escapes : Bool

abbrev is_https : UpstreamScheme → Bool
is_https http = false
is_https https = true

-- The constructor, behind the collection of the targets.
unfoldable pub make_checks : List Target → (context : Bool) → HealthState → ℕ → Option HealthChecks
make_checks targets context health now =
    elim (make_schedule (map (λ (t : Target). t.interval) targets) now) [
      | none ↦ none
      | some schedule ↦ some (record {
        targets = targets;
        context = context;
        probes = map (λ (t : Target). none) targets;
        schedule = schedule;
        health = health;
        wait = none;
        posted = false;
        started = false;
        stopped = false;
        pumping = false;
        notices = [];
      })
    ]

-- The targets of one route, from the upstream `u` on.
unfoldable pub upstream_targets :
    (route u : ℕ) → HealthCheckConfig → List UpstreamConfig → List Target
upstream_targets route u settings [] = []
upstream_targets route u settings (upstream ∷ upstreams) =
    record {
      route = route;
      upstream = u;
      secure = is_https upstream.scheme;
      interval = settings.interval_ms;
    }
    ∷ upstream_targets route (u + 1) settings upstreams

unfoldable pub entry_targets : ℕ → List UpstreamConfig → Option HealthCheckConfig → List Target
entry_targets route upstreams none = []
entry_targets route upstreams (some settings) = upstream_targets route 0 settings upstreams

unfoldable pub route_targets : ℕ → List RouteConfig → List Target
route_targets route [] = []
route_targets route (entry ∷ entries) =
    entry_targets route entry.upstreams entry.health_check ++ route_targets (route + 1) entries

-- The constructor, given its callback and the state of the upstreams' health.
unfoldable pub make_health_checks :
    List RouteConfig → (context : Bool) → HealthState → ℕ → Option HealthChecks
make_health_checks routes context health now =
    make_checks (route_targets 0 routes) context health now

unfoldable pub start_checks : HealthChecks → HealthChecks
start_checks c =
    if c.started || c.stopped || length c.targets == 0
    then c
    else record c { started = true; posted = true }

-- The probes are cancelled as they are let go: `Probe.cancel` reports nothing.
unfoldable pub stop_checks : HealthChecks → HealthChecks
stop_checks c = if c.stopped then c else record c {
  stopped = true;
  schedule = stop c.schedule;
  wait = none;
  probes = map (λ p. none) c.probes;
}

unfoldable pub failed : HealthChecks → HealthChecks
failed c =
    let s = stop_checks c in if c.stopped then c else record s { notices = fails ∷ s.notices }

abbrev pub is_changed : HealthTransition → Bool
is_changed unchanged = false
is_changed unhealthy = true
is_changed healthy = true

unfoldable pub note :
    HealthChecks → Target → Reason → Option (HealthState × HealthTransition) → HealthChecks
note c t reason none = failed c
note c t reason (some (health, transition)) = record c {
  health = health;
  notices =
      if is_changed transition
      then marks t.route t.upstream transition reason ∷ c.notices
      else c.notices;
}

-- `completed` up to its call of `pump`, which does nothing while the loop of a pump runs.
unfoldable pub settle : HealthChecks → ℕ → (success : Bool) → Reason → HealthChecks
settle c i success reason = if c.stopped then c else elim (complete c.schedule i) [
  | none ↦ failed c
  | some schedule ↦
      let c' = record c { schedule = schedule; probes = set c.probes i none } in
      elim (get_elem? c.targets i) [
        | none ↦ failed c'
        | some t ↦ note c' t reason (record_result c.health t.route t.upstream success)
      ]
]

-- The probe's callback, if it has been called as the probe became `p`.
unfoldable pub settle_if : HealthChecks → ℕ → List Effect → HealthChecks
settle_if c i (reports success reason ∷ log) = settle c i success reason
settle_if c i log = c

unfoldable pub arm : HealthChecks → (throws : Bool) → Option ℕ → HealthChecks
arm c throws none = c
arm c throws (some due) = if throws then failed c else record c { wait = some due }

unfoldable pub made : HealthChecks → ℕ → (throws : Bool) → Option Probe
made c i throws = elim (get_elem? c.targets i) [
  | none ↦ none
  | some t ↦ if throws then none else make_probe true t.secure c.context
]

-- One turn of the loop, and whether another follows.
unfoldable pub launch_probe :
    HealthChecks → ℕ → (escapes : Bool) → Option Probe → HealthChecks × Bool
launch_probe c i escapes none = (failed c, false)
launch_probe c i escapes (some p) =
    let p' = start p escapes in
    (settle_if (record c { probes = set c.probes i (some p') }) i p'.log, true)

unfoldable pub pump_turn :
    HealthChecks → Turn → Option (ProbeSchedule × Option ℕ) → Option (HealthChecks × Bool)
pump_turn c turn none = none
pump_turn c turn (some (schedule, none)) =
    some (arm (record c { schedule = schedule }) turn.throws (next_due schedule), false)
pump_turn c turn (some (schedule, some i)) =
    some (launch_probe (record c { schedule = schedule }) i turn.escapes (made c i turn.throws))

unfoldable pub pump_loop : HealthChecks → List Turn → Option HealthChecks
pump_loop c [] = none
pump_loop c (turn ∷ turns) = elim (pump_turn c turn (take_due c.schedule turn.now)) [
  | none ↦ none
  | some (c', again) ↦ elim again [ true ↦ pump_loop c' turns | false ↦ some c' ]
]

unfoldable pub run_pump : HealthChecks → List Turn → Option HealthChecks
run_pump c turns = elim (pump_loop (record c { pumping = true }) turns) [
  | none ↦ none
  | some c' ↦ some (record c' { pumping = false })
]

unfoldable pub pump : HealthChecks → List Turn → Option HealthChecks
pump c turns = if c.stopped || c.pumping then some c else run_pump c turns

pub data Happening : Type 0 where
  -- The first pump, that `start` has posted.
  begins : List Turn → Happening
  -- The wait on the timer ends, or one that was replaced.
  expires : List Turn → Happening
  wakes : WaitError → List Turn → Happening
  -- Something happens to the probe of a slot.
  probes : ℕ → Event → List Turn → Happening
  stops : Happening

unfoldable pub on_wait : HealthChecks → WaitError → List Turn → Option HealthChecks
on_wait c elapsed turns = pump c turns
on_wait c aborted turns = some c
on_wait c broken turns = some (failed c)

-- A probe leaves its slot as it reports, and a pump follows.
unfoldable pub after_report : HealthChecks → ℕ → List Effect → List Turn → Option HealthChecks
after_report c i (reports success reason ∷ log) turns = pump (settle c i success reason) turns
after_report c i log turns = some c

-- Nothing but `stop_checks` cancels a probe.
unfoldable pub on_probe :
    HealthChecks → ℕ → Option (Option Probe) → Event → List Turn → Option HealthChecks
on_probe c i slot cancels turns = some c
on_probe c i (some (some p)) event turns =
    let p' = step p event in
    after_report (record c { probes = set c.probes i (some p') }) i p'.log turns
on_probe c i slot event turns = some c

unfoldable pub happen : HealthChecks → Happening → Option HealthChecks
happen c (begins turns) = if c.posted then pump (record c { posted = false }) turns else some c
happen c (expires turns) =
    if is_some c.wait then on_wait (record c { wait = none }) elapsed turns else some c
happen c (wakes error turns) = on_wait c error turns
happen c (probes i event turns) = on_probe c i (get_elem? c.probes i) event turns
happen c stops = some (stop_checks c)

unfoldable pub happen_all : HealthChecks → List Happening → Option HealthChecks
happen_all c [] = some c
happen_all c (h ∷ hs) = elim (happen c h) [ none ↦ none | some c' ↦ happen_all c' hs ]
