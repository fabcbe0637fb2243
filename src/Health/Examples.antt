-- ===== src/Health/Examples.antt =====
-- Runs of the health state, and the theorems at concrete inputs.
use c_item.Base.{◌≡◌, refl, true, false, some, [], ◌∷◌, arith}
use c_item.Base.Text.{codes}
use c_item.Config.{HealthCheckConfig}
use c_item.Health.{Slot, fresh_slot, HealthRoute, update_slot}
use c_item.Health.Slots.{ValidThresholds, streak, spec_healthy, replay, replay-spec_healthy}

abbrev checked : HealthCheckConfig
checked = record {
  path = codes "/live";
  interval_ms = 5000;
  timeout_ms = 1000;
  unhealthy_threshold = 3;
  healthy_threshold = 2;
}

checked-ValidThresholds : ValidThresholds checked
checked-ValidThresholds = omega arith

three_failures : (replay checked (false ∷ false ∷ false ∷ [])).is_healthy ≡ false
unfolding replay update_slot
three_failures = refl

one_success_is_not_enough : (replay checked (true ∷ false ∷ false ∷ false ∷ [])).is_healthy ≡ false
unfolding replay update_slot
one_success_is_not_enough = refl

replay-spec_healthy_example :
    (replay checked (true ∷ true ∷ false ∷ false ∷ false ∷ [])).is_healthy ≡ true
unfolding spec_healthy streak
replay-spec_healthy_example =
    replay-spec_healthy checked (true ∷ true ∷ false ∷ false ∷ false ∷ []) checked-ValidThresholds

abbrev failing : Slot
failing = record { is_healthy = true; failures = 2; successes = 0 }

abbrev one_route : HealthRoute
one_route = record { config = some checked; slots = fresh_slot ∷ failing ∷ [] }
