-- ===== src/Checks/Begin.antt =====
-- The health checks as they are made: no slot is in flight.
use c_item.Base.{
  ℕ, ◌≡◌, inl, inr, refl, sym, ap, ◌∙◌, Bool, false, ◌||◌, Option, none, some, some_inj, List, [],
  ◌∷◌, map, length, length-map, arith, ltb, Option-cases, Bool-cases, subst,
}
use c_item.Health.{HealthState}
use c_item.Health.Schedule.{ProbeSlot, ProbeSchedule, make_slots, make_schedule}
use c_item.Health.Schedule.Count.{IsValid, make_schedule-IsValid, make_slots-idle}
use c_item.Probe.{Probe}
use c_item.Checks.{HealthChecks, Target, make_checks}
use c_item.Checks.Slots.{Matched, nil, cons, idle}
use c_item.Checks.Launch.{Sound, failures}

abbrev intervals : List Target → List ℕ
intervals targets = map (λ (t : Target). t.interval) targets

abbrev empties : List Target → List (Option Probe)
empties targets = map (λ (t : Target). none) targets

make_slots-Matched :
    (ts : List Target) (now : ℕ) {slots : List ProbeSlot}
    → make_slots (intervals ts) now ≡ some slots
    → Matched slots (empties ts)
unfolding make_slots
make_slots-Matched [] now e = subst (λ s. Matched s []) (some_inj e) nil
make_slots-Matched (t ∷ ts) now {slots} e = elim (Option-cases (make_slots (intervals ts) now)) [
  | inl f ↦ absurd (ground arith)
  | inr (rest, f) ↦ elim (Bool-cases (ltb t.interval 100 || ltb 60000 t.interval)) [
    | inl g ↦ absurd (ground arith)
    | inr g ↦
        let first : ProbeSlot = record { interval = t.interval; due = now; in_flight = false } in
        let same : (first ∷ rest) ≡ slots = ground arith in
        subst (λ s. Matched s (empties (t ∷ ts))) same
          (cons (record { long = ground arith; holds = idle }) (make_slots-Matched ts now f))
  ]
]

record Begun (ts : List Target) (s : ProbeSchedule) : Type 0 where
  matched : Matched s.slots (empties ts)
  running : s.stopped ≡ false
  fitted : length ts ≡ length s.slots
  valid : IsValid s

make_schedule-Begun :
    (ts : List Target) (now : ℕ) {s : ProbeSchedule}
    → make_schedule (intervals ts) now ≡ some s
    → Begun ts s
unfolding make_schedule
make_schedule-Begun ts now {s} e = elim (Option-cases (make_slots (intervals ts) now)) [
  | inl f ↦ absurd (ground arith)
  | inr (slots, f) ↦
      let g : slots ≡ s.slots = ground arith in
      record {
        matched = subst (λ x. Matched x (empties ts)) g (make_slots-Matched ts now f);
        running = ground arith;
        fitted =
            sym (ap length (sym g) ∙ (make_slots-idle (intervals ts) now f).1 ∙ length-map ts _);
        valid = make_schedule-IsValid (intervals ts) now e;
      }
]

pub make_checks-Sound :
    (ts : List Target) (context : Bool) (health : HealthState) (now : ℕ) {c : HealthChecks}
    → make_checks ts context health now ≡ some c
    → Sound c × (c.pumping ≡ false) × (c.started ≡ false)
unfolding make_checks failures
make_checks-Sound ts context health now e = elim (Option-cases (make_schedule (intervals ts) now)) [
  | inl f ↦ absurd (ground arith)
  | inr (s, f) ↦
      let b = make_schedule-Begun ts now f in
      let g = rw (f, make_checks) at e in
      subst (λ (x : HealthChecks). Sound x × (x.pumping ≡ false) × (x.started ≡ false)) (some_inj g)
        (
          record {
            kept = record {
              valid = b.valid;
              agree = sym b.running;
              fitted = b.fitted;
              once = omega arith;
              resting = inl refl;
            };
            matched = b.matched;
          },
          refl,
          refl,
        )
]
