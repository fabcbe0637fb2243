-- ===== src/Health.antt =====
-- src/health_check.hpp and src/health_state.cpp: the health of every upstream slot, and the
-- schedule of the probes. An exception of `at` is `none`.
pub mod Slots
pub mod Schedule
mod Examples
use c_item.Base.{
  ℕ, ◌+◌, Bool, true, false, not, ◌&&◌, Option, none, some, List, [], ◌∷◌, map, min, ◌==◌,
  if◌then◌else◌, u32, get_elem?, set, replicate, length,
}
use c_item.Config.{HealthCheckConfig, RouteConfig}

pub data HealthTransition : Type 0 where
  unchanged unhealthy healthy : HealthTransition

pub record Slot : Type 0 where
  pub is_healthy : Bool
  pub failures : ℕ
  pub successes : ℕ

abbrev pub fresh_slot : Slot
fresh_slot = record { is_healthy = true; failures = 0; successes = 0 }

pub record HealthRoute : Type 0 where
  pub config : Option HealthCheckConfig
  pub slots : List Slot

-- UpstreamHealthState.
abbrev pub HealthState : Type 0
HealthState = List HealthRoute

unfoldable pub make_health : List RouteConfig → HealthState
make_health [] = []
make_health (r ∷ rs) =
    record { config = r.health_check; slots = replicate (length r.upstreams) fresh_slot }
    ∷ make_health rs

unfoldable pub slot_at : HealthState → ℕ → ℕ → Option Slot
slot_at routes r u = elim (get_elem? routes r) [
  | none ↦ none
  | some route ↦ get_elem? route.slots u
]

unfoldable pub available : HealthState → ℕ → ℕ → Option Bool
unfolding slot_at
available routes r u = elim (slot_at routes r u) [ none ↦ none | some s ↦ some s.is_healthy ]

-- The part of `record` behind its first test.
pub update_slot : HealthCheckConfig → Slot → Bool → Slot × HealthTransition
update_slot c s true =
    let successes = min (u32 (s.successes + 1)) c.healthy_threshold in
    if not s.is_healthy && successes == c.healthy_threshold
    then (record { is_healthy = true; failures = 0; successes = successes }, healthy)
    else (record { is_healthy = s.is_healthy; failures = 0; successes = successes }, unchanged)
update_slot c s false =
    let failures = min (u32 (s.failures + 1)) c.unhealthy_threshold in
    if s.is_healthy && failures == c.unhealthy_threshold
    then (record { is_healthy = false; failures = failures; successes = 0 }, unhealthy)
    else (record { is_healthy = s.is_healthy; failures = failures; successes = 0 }, unchanged)

pub record_slot :
    HealthRoute → ℕ → Slot → Bool → Option HealthCheckConfig → HealthRoute × HealthTransition
record_slot route u s success none = (route, unchanged)
record_slot route u s success (some c) =
    let (s', transition) = update_slot c s success in
    (record route { slots = set route.slots u s' }, transition)

-- UpstreamHealthState::record.
pub record_result : HealthState → ℕ → ℕ → Bool → Option (HealthState × HealthTransition)
record_result routes r u success = elim (get_elem? routes r) [
  | none ↦ none
  | some route ↦ elim (get_elem? route.slots u) [
    | none ↦ none
    | some s ↦
        let (route', transition) = record_slot route u s success route.config in
        some (set routes r route', transition)
  ]
]
