-- ===== src/Checks/Examples.antt =====
-- A check that starts, launches its probe and hears of it, and the theorems at concrete inputs.
use c_item.Base.{
  ℕ, ◌≤◌, ◌<◌, ◌+◌, ◌*◌, ◌≡◌, refl, true, false, none, some, List, [], ◌∷◌, Each, arith,
}
use c_item.Config.{http, RouteConfig}
use c_item.Health.{HealthState}
use c_item.Health.Schedule.{ticks_per_ms, make_slots, make_schedule}
use c_item.Probe.{completes, resolved}
use c_item.Checks.{
  HealthChecks, Target, Turn, make_checks, make_health_checks, route_targets, entry_targets,
  upstream_targets, start_checks, pump_loop, Happening, begins, expires, probes, stops, happen_all,
}
use c_item.Checks.Begin.{make_checks-Sound}
use c_item.Checks.Loop.{loop-LoopEnds, Ended}
use c_item.Checks.Slots.{dues}
use c_item.Checks.Runs.{checks-Ready}
use c_item.Checks.Turns.{InWindow}
use c_item.Checks.Pump.{Ready, Suits}

abbrev target : Target
target = record { route = 0; upstream = 0; secure = false; interval = 200 }

abbrev route : RouteConfig
route = record {
  prefix = 47 ∷ [];
  upstreams = record { host = 97 ∷ []; port = 80; timeout_ms = 100; scheme = http } ∷ [];
  strip_prefix = false;
  rate_limit = none;
  health_check = some (record {
    path = 47 ∷ [];
    interval_ms = 200;
    timeout_ms = 100;
    unhealthy_threshold = 1;
    healthy_threshold = 1;
  });
  auth = none;
  stream_response = false;
}

abbrev health : HealthState
health =
    record { config = none; slots = record { is_healthy = true; failures = 0; successes = 0 } ∷ [] }
    ∷ []

abbrev checks : HealthChecks
checks = record {
  targets = target ∷ [];
  context = false;
  probes = none ∷ [];
  schedule = record {
    slots = record { interval = 200; due = 1000; in_flight = false } ∷ [];
    cursor = 0;
    active = 0;
    stopped = false;
  };
  health = health;
  wait = none;
  posted = false;
  started = false;
  stopped = false;
  pumping = false;
  notices = [];
}

targets_made : make_checks (target ∷ []) false health 1000 ≡ some checks
unfolding make_checks make_schedule make_slots
targets_made = refl

checks_made : make_health_checks (route ∷ []) false health 1000 ≡ some checks
unfolding make_health_checks make_checks make_schedule make_slots route_targets entry_targets
    upstream_targets
checks_made = refl

abbrev turn : ℕ → Turn
turn now = record { now = now; throws = false; escapes = false }

abbrev turns : List Turn
turns = turn 1000 ∷ turn 1010 ∷ turn 1020 ∷ []

abbrev happenings : List Happening
happenings =
    begins turns ∷ probes 0 (completes (resolved true) false) turns ∷ expires turns ∷ stops ∷ []

in_window : (now : ℕ) → now ≤ 1020 → 1020 < now + 100 * ticks_per_ms → InWindow 1020 (turn now)
in_window now a b = record { before = a; near = b; finite = omega arith }

timely : Each (InWindow 1020) turns
timely = (
  in_window 1000 (omega arith) (omega arith),
  (in_window 1010 (omega arith) (omega arith), (in_window 1020 (omega arith) (omega arith), tt)),
)

suits : Suits 1 turns
suits = record { until = 1020; timely = timely; enough = omega arith }

loop-LoopEnds_example : (c : HealthChecks) × (pump_loop checks turns ≡ some c) × Ended checks c
unfolding dues
loop-LoopEnds_example =
    loop-LoopEnds 1020 checks turns
      (make_checks-Sound (target ∷ []) false health 1000 targets_made).0 timely
      (omega arith, λ e. omega arith)

checks-Ready_example :
    (c : HealthChecks) × (happen_all (start_checks checks) happenings ≡ some c) × Ready c
checks-Ready_example =
    checks-Ready (route ∷ []) false health 1000 checks happenings checks_made
      (suits, (suits, (suits, (tt, tt))))
