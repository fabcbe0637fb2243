-- ===== src/Health/Schedule.antt =====
-- src/health_check.hpp and src/health_state.cpp: ProbeSchedule, the rotating choice of the next
-- probe that is due. An index out of range of `slots_` would be undefined behaviour: `none`.
pub mod Count
pub mod Scan
pub mod Due
mod Examples
use c_item.Base.{
  ℕ, zero, suc, ◌+◌, ◌-◌, ◌*◌, Bool, true, false, not, ◌&&◌, ◌||◌, Option, none, some, List, [],
  ◌∷◌, map, ltb, leb, ◌==◌, if◌then◌else◌, get_elem?, set, length, time_max,
}

pub record ProbeSlot : Type 0 where
  pub interval : ℕ  -- milliseconds
  pub due : ℕ
  pub in_flight : Bool

pub record ProbeSchedule : Type 0 where
  pub slots : List ProbeSlot
  pub cursor : ℕ
  pub active : ℕ
  pub stopped : Bool

abbrev pub max_in_flight : ℕ
max_in_flight = 4

-- A millisecond in clock ticks.
abbrev pub ticks_per_ms : ℕ
ticks_per_ms = 1000000

unfoldable pub make_slots : List ℕ → ℕ → Option (List ProbeSlot)
make_slots [] now = some []
make_slots (i ∷ is) now =
    let rest = make_slots is now in
    if ltb i 100 || ltb 60000 i then none else elim rest [
      | none ↦ none
      | some ss ↦ some (record { interval = i; due = now; in_flight = false } ∷ ss)
    ]

-- The constructor; `none` is std::invalid_argument.
unfoldable pub make_schedule : List ℕ → ℕ → Option ProbeSchedule
unfolding make_slots
make_schedule intervals now = elim (make_slots intervals now) [
  | none ↦ none
  | some ss ↦ some (record { slots = ss; cursor = 0; active = 0; stopped = false })
]

abbrev pub is_due : ProbeSlot → ℕ → Bool
is_due slot now = not slot.in_flight && leb slot.due now

abbrev pub next_cursor : ℕ → ℕ → ℕ
next_cursor n cursor = if cursor + 1 == n then 0 else cursor + 1

-- The loop of `take_due`, on the rounds left: the cursor afterwards, and the index it returns.
pub scan : List ProbeSlot → ℕ → ℕ → ℕ → Option (ℕ × Option ℕ)
scan slots now zero cursor = some (cursor, none)
scan slots now (suc k) cursor =
    let next = next_cursor (length slots) cursor in
    let rest = scan slots now k next in
    elim (get_elem? slots cursor) [
      | none ↦ none
      | some slot ↦ if is_due slot now then some (next, some cursor) else rest
    ]

unfoldable pub launch : ProbeSlot → ℕ → ProbeSlot
launch slot now =
    let interval = slot.interval * ticks_per_ms in
    record slot {
      in_flight = true;
      due = if ltb (time_max - interval) now then time_max else now + interval;
    }

pub launch_at : ProbeSchedule → ℕ → ℕ → ℕ → Option ProbeSlot → Option (ProbeSchedule × Option ℕ)
unfolding launch
launch_at s now cursor i none = none
launch_at s now cursor i (some slot) = some (
  record s { slots = set s.slots i (launch slot now); cursor = cursor; active = s.active + 1 },
  some i,
)

pub take_found : ProbeSchedule → ℕ → Option (ℕ × Option ℕ) → Option (ProbeSchedule × Option ℕ)
take_found s now none = none
take_found s now (some (cursor, none)) = some (record s { cursor = cursor }, none)
take_found s now (some (cursor, some i)) = launch_at s now cursor i (get_elem? s.slots i)

pub take_due : ProbeSchedule → ℕ → Option (ProbeSchedule × Option ℕ)
take_due s now =
    if s.stopped || s.active == max_in_flight
    then some (s, none)
    else take_found s now (scan s.slots now (length s.slots) s.cursor)

abbrev pub land : ProbeSlot → ProbeSlot
land slot = record slot { in_flight = false }

unfoldable pub complete_slot : ProbeSchedule → ℕ → ProbeSlot → ProbeSchedule
complete_slot s i slot =
    if slot.in_flight
    then record s { slots = set s.slots i (land slot); active = s.active - 1 }
    else s

-- `none` is the exception of `at`.
unfoldable pub complete : ProbeSchedule → ℕ → Option ProbeSchedule
unfolding complete_slot
complete s i = elim (get_elem? s.slots i) [
  | none ↦ none
  | some slot ↦ some (complete_slot s i slot)
]

abbrev pub earlier : ℕ → Option ℕ → Bool
earlier due none = true
earlier due (some t) = ltb due t

-- The loop of `next_due`.
pub earliest : List ProbeSlot → Option ℕ → Option ℕ
earliest [] next = next
earliest (slot ∷ slots) next =
    earliest slots (if not slot.in_flight && earlier slot.due next then some slot.due else next)

pub next_due : ProbeSchedule → Option ℕ
unfolding earliest
next_due s = if s.stopped || s.active == max_in_flight then none else earliest s.slots none

unfoldable pub stop : ProbeSchedule → ProbeSchedule
stop s = record s { slots = map land s.slots; active = 0; stopped = true }
