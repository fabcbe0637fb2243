-- ===== src/Health/Schedule/Count.antt =====
-- The count of probes in flight, and the schedule's invariant.
use c_item.Base.{
  ℕ, zero, suc, ◌+◌, ◌≤◌, ◌<◌, ◌≡◌, refl, ap, some, some_inj, inl, inr, true, List, [], ◌∷◌, map,
  arith, max, if◌then◌else◌, get_elem?, set, length, length-set, length-map, Option-cases,
  get_elem?_total,
}
use c_item.Health.Schedule.{
  ProbeSlot, ProbeSchedule, make_slots, make_schedule, complete_slot, complete, stop, land,
  max_in_flight,
}

abbrev pub busy : ProbeSlot → ℕ
busy slot = if slot.in_flight then 1 else 0

unfoldable pub flying : List ProbeSlot → ℕ
flying [] = 0
flying (slot ∷ slots) = busy slot + flying slots

pub flying-set :
    (ss : List ProbeSlot) (i : ℕ) (s t : ProbeSlot)
    → get_elem? ss i ≡ some s
    → flying (set ss i t) + busy s ≡ flying ss + busy t
unfolding flying
flying-set [] i s t e = cc
flying-set (x ∷ ss) zero s t e =
    let same : busy x ≡ busy s = ap busy (some_inj e) in omega (arith, same)
flying-set (x ∷ ss) (suc i) s t e = omega (arith, flying-set ss i s t e)

pub flying_busy :
    (ss : List ProbeSlot) (i : ℕ) {s : ProbeSlot}
    → get_elem? ss i ≡ some s
    → s.in_flight ≡ true
    → 1 ≤ flying ss
unfolding flying
flying_busy [] i e f = absurd (cc)
flying_busy (x ∷ ss) zero {s} e f =
    let same : busy x ≡ busy s = ap busy (some_inj e) in ground (arith, same)
flying_busy (x ∷ ss) (suc i) e f = omega (arith, flying_busy ss i e f)

flying-idle : (ss : List ProbeSlot) → flying (map land ss) ≡ 0
unfolding flying
flying-idle [] = refl
flying-idle (x ∷ ss) = omega (arith, flying-idle ss)

-- The count is that of the flags, never above the limit, and the cursor names a slot.
pub record IsValid (s : ProbeSchedule) : Type 0 where
  pub counted : s.active ≡ flying s.slots
  pub limited : s.active ≤ max_in_flight
  pub pointed : s.cursor < max 1 (length s.slots)

pub make_slots-idle :
    (is : List ℕ) (now : ℕ) {ss : List ProbeSlot}
    → make_slots is now ≡ some ss
    → (flying ss ≡ 0) × (length ss ≡ length is)
unfolding make_slots flying
make_slots-idle [] now e = ground arith
make_slots-idle (i ∷ is) now e = elim (Option-cases (make_slots is now)) [
  | inl f ↦ absurd (ground arith)
  | inr (ss', f) ↦ ground (arith, make_slots-idle is now f)
]

pub make_schedule-IsValid :
    (is : List ℕ) (now : ℕ) {s : ProbeSchedule} → make_schedule is now ≡ some s → IsValid s
unfolding make_schedule
make_schedule-IsValid is now e = elim (Option-cases (make_slots is now)) [
  | inl f ↦ absurd (ground arith)
  | inr (ss, f) ↦ ground (arith, make_slots-idle is now f)
]

pub complete_slot-IsValid :
    (s : ProbeSchedule) (i : ℕ) (slot : ProbeSlot)
    → get_elem? s.slots i ≡ some slot
    → IsValid s
    → IsValid (complete_slot s i slot)
unfolding complete_slot
complete_slot-IsValid s i slot e v =
    ground (arith, flying-set s.slots i slot (land slot) e, length-set s.slots i (land slot))

pub complete_found :
    (s : ProbeSchedule) (i : ℕ) {slot : ProbeSlot}
    → get_elem? s.slots i ≡ some slot
    → complete s i ≡ some (complete_slot s i slot)
unfolding complete
complete_found s i e = rw (e, complete)

-- Completing a probe keeps the invariant; only an index that no slot has is refused.
pub complete-IsValid :
    (s : ProbeSchedule) (i : ℕ)
    → i < length s.slots
    → IsValid s
    → (s' : ProbeSchedule) × (complete s i ≡ some s') × IsValid s'
unfolding complete
complete-IsValid s i h v =
    let (slot, e) = get_elem?_total s.slots i h in
    (complete_slot s i slot, rw (e, complete), complete_slot-IsValid s i slot e v)

pub stop-IsValid : (s : ProbeSchedule) → IsValid s → IsValid (stop s)
unfolding stop
stop-IsValid s v = ground (arith, flying-idle s.slots, length-map s.slots land)
