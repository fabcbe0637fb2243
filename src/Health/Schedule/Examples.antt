-- ===== src/Health/Schedule/Examples.antt =====
-- Runs of the probe schedule, and the theorems at concrete inputs.
use c_item.Base.{ℕ, ◌≡◌, refl, true, false, Option, some, [], ◌∷◌, arith}
use c_item.Health.Schedule.{
  ProbeSlot, ProbeSchedule, make_schedule, scan, launch_at, take_found, take_due, complete,
}
use c_item.Health.Schedule.Count.{IsValid, flying, make_schedule-IsValid, complete-IsValid}
use c_item.Health.Schedule.Scan.{Outcome, take_due-Outcome}

abbrev idle_slot : ProbeSlot
idle_slot = record { interval = 100; due = 50; in_flight = false }

abbrev two_slots : ProbeSchedule
two_slots = record {
  slots = record idle_slot { in_flight = true } ∷ idle_slot ∷ [];
  cursor = 0;
  active = 1;
  stopped = false;
}

two_slots-IsValid : IsValid two_slots
unfolding flying
two_slots-IsValid = omega arith

second_is_launched :
    take_due two_slots 60
    ≡ some (
      record two_slots {
        slots =
            record idle_slot { in_flight = true }
            ∷ record { interval = 100; due = 100000060; in_flight = true }
            ∷ [];
        active = 2;
      },
      some 1,
    )
unfolding take_due take_found scan launch_at
second_is_launched = refl

make_schedule-IsValid_example : IsValid (record {
  slots = record { interval = 100; due = 7; in_flight = false } ∷ [];
  cursor = 0;
  active = 0;
  stopped = false;
})
unfolding make_schedule
make_schedule-IsValid_example = make_schedule-IsValid (100 ∷ []) 7 refl

complete-IsValid_example : (s' : ProbeSchedule) × (complete two_slots 0 ≡ some s') × IsValid s'
complete-IsValid_example = complete-IsValid two_slots 0 (omega arith) two_slots-IsValid

take_due-Outcome_example :
    (t : ProbeSchedule × Option ℕ) × (take_due two_slots 60 ≡ some t) × Outcome two_slots 60 t
take_due-Outcome_example = take_due-Outcome two_slots 60 two_slots-IsValid
