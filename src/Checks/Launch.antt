-- ===== src/Checks/Launch.antt =====
-- What the health checks keep: a slot is in flight exactly while a probe runs for it.
use c_item.Base.{
  ℕ, ◌+◌, ◌≤◌, ◌≡◌, refl, sym, Bool, true, false, Option, none, some, List, [], ◌∷◌, ◌∙◌, ◌-◌,
  get_elem?, set, subst, arith, length, length-set, length-map, if◌then◌else◌, inl, inr, ◌⊎◌,
  Bool-cases, get_elem?_bound, get_elem?_total, if_cases,
}
use c_item.Health.{HealthState, HealthTransition}
use c_item.Health.Schedule.{ProbeSlot, ProbeSchedule, land, complete_slot, stop}
use c_item.Health.Schedule.Count.{
  IsValid, stop-IsValid, complete_slot-IsValid, complete_found, flying_busy,
}
use c_item.Probe.{Reason}
use c_item.Checks.{HealthChecks, Target, Notice, marks, fails, stop_checks, failed, note, settle}
use c_item.Checks.Slots.{Matched, MatchedBut, idle, MatchedBut-fill, Matched-idle, MatchedBut-idle}

unfoldable pub failures : List Notice → ℕ
failures [] = 0
failures (marks r u t reason ∷ ns) = failures ns
failures (fails ∷ ns) = 1 + failures ns

-- What does not depend on the probes.
pub record Kept (c : HealthChecks) : Type 0 where
  pub valid : IsValid c.schedule
  pub agree : c.stopped ≡ c.schedule.stopped
  pub fitted : length c.targets ≡ length c.schedule.slots
  pub once : failures c.notices ≤ (if c.stopped then 1 else 0)
  pub resting : (c.stopped ≡ false) ⊎ ((c.schedule.active ≡ 0) × (c.wait ≡ none))

pub record Sound (c : HealthChecks) : Type 0 where
  pub kept : Kept c
  pub matched : Matched c.schedule.slots c.probes

-- A slot in flight whose probe has just ended, or not started yet.
pub record Open (c : HealthChecks) (i : ℕ) : Type 0 where
  pub kept : Kept c
  pub running : c.stopped ≡ false
  pub matched : MatchedBut i c.schedule.slots c.probes
  pub slot : ProbeSlot
  pub found : get_elem? c.schedule.slots i ≡ some slot
  pub long : 100 ≤ slot.interval
  pub flies : slot.in_flight ≡ true

stop_checks-Kept : (c : HealthChecks) → Kept c → Kept (stop_checks c)
unfolding stop_checks stop
stop_checks-Kept c k = elim (Bool-cases c.stopped) [
  | inl e ↦ simp e k
  | inr e ↦ simp e (record {
    valid = stop-IsValid c.schedule k.valid;
    agree = refl;
    fitted = k.fitted ∙ sym (length-map c.schedule.slots land);
    once = ground (arith, k.once);
    resting = inr (refl, refl);
  })
]

stopped_by : (c : HealthChecks) → c.stopped ≡ false → (stop_checks c).stopped ≡ true
unfolding stop_checks
stopped_by c e = simp e refl

fails_more : (c : HealthChecks) → c.stopped ≡ false → Kept c → failures (stop_checks c).notices ≡ 0
unfolding stop_checks failures
fails_more c e k = simp e (ground (arith, k.once))

failed-Kept : (c : HealthChecks) → Kept c → Kept (failed c)
unfolding failed failures
failed-Kept c k =
    let s = stop_checks-Kept c k in
    elim (Bool-cases c.stopped) [
      | inl e ↦ simp e k
      | inr e ↦ simp e (record {
        valid = s.valid;
        agree = s.agree;
        fitted = s.fitted;
        once = ground (arith, fails_more c e k, stopped_by c e);
        resting = s.resting;
      })
    ]

pub stop_checks-Sound : (c : HealthChecks) → Sound c → Sound (stop_checks c)
unfolding stop_checks stop
stop_checks-Sound c v = record {
  kept = stop_checks-Kept c v.kept;
  matched = elim (Bool-cases c.stopped) [
    | inl e ↦ simp e v.matched
    | inr e ↦ simp e (Matched-idle v.matched)
  ];
}

pub failed-Sound : (c : HealthChecks) → Sound c → Sound (failed c)
unfolding failed stop_checks stop
failed-Sound c v = record {
  kept = failed-Kept c v.kept;
  matched = elim (Bool-cases c.stopped) [
    | inl e ↦ simp e v.matched
    | inr e ↦ simp e (Matched-idle v.matched)
  ];
}

pub failed_open : (c : HealthChecks) (i : ℕ) → Open c i → Sound (failed c)
unfolding failed stop_checks stop
failed_open c i o = record {
  kept = failed-Kept c o.kept;
  matched = simp o.running (MatchedBut-idle o.matched);
}

-- The slot's probe has ended: the slot is idle again.
landed-Sound :
    (c : HealthChecks) (i : ℕ) (o : Open c i)
    → Sound
        (record c { schedule = complete_slot c.schedule i o.slot; probes = set c.probes i none })
unfolding complete_slot
landed-Sound c i o = simp o.flies (record {
  kept = record {
    valid = landed_valid;
    agree = o.kept.agree;
    fitted = o.kept.fitted ∙ sym (length-set c.schedule.slots i (land o.slot));
    once = o.kept.once;
    resting = inl o.running;
  };
  matched = MatchedBut-fill (record { long = o.long; holds = idle }) o.matched;
})
  where
    landed_valid : IsValid (record c.schedule {
      slots = set c.schedule.slots i (land o.slot);
      active = c.schedule.active - 1;
    })
    landed_valid = simp o.flies at (complete_slot-IsValid c.schedule i o.slot o.found o.kept.valid)

note-Sound :
    (c : HealthChecks) (t : Target) (reason : Reason) (r : Option (HealthState × HealthTransition))
    → Sound c
    → Sound (note c t reason r)
unfolding note failures
note-Sound c t reason none v = failed-Sound c v
note-Sound c t reason (some (health, transition)) v = record {
  kept = record {
    valid = v.kept.valid;
    agree = v.kept.agree;
    fitted = v.kept.fitted;
    once = ground (arith, v.kept.once);
    resting = v.kept.resting;
  };
  matched = v.matched;
}

target_at : (c : HealthChecks) (i : ℕ) → Open c i → (t : Target) × (get_elem? c.targets i ≡ some t)
target_at c i o =
    get_elem?_total c.targets i (rw o.kept.fitted (get_elem?_bound c.schedule.slots i o.found))

pub settle-Sound :
    (c : HealthChecks) (i : ℕ) (success : Bool) (reason : Reason)
    → Open c i
    → Sound (settle c i success reason)
unfolding settle
settle-Sound c i success reason o =
    let (t, e) = target_at c i o in
    if_cases Sound c.stopped (λ s. cc o.running)
      (λ s.
        simp (complete_found c.schedule i o.found, e)
          (note-Sound _ t reason _ (landed-Sound c i o)))

pub failed-targets : (c : HealthChecks) → (failed c).targets ≡ c.targets
unfolding failed stop_checks
failed-targets c = ground arith

pub failed-pumping : (c : HealthChecks) → (failed c).pumping ≡ c.pumping
unfolding failed stop_checks
failed-pumping c = ground arith

pub failed_stops : (c : HealthChecks) → (failed c).stopped ≡ true
unfolding failed stop_checks
failed_stops c = ground arith

-- What becomes of the schedule and the targets.
pub record Settles (targets : List Target) (pumping : Bool) (slots : List ProbeSlot)
    (c : HealthChecks) : Type 0 where
  pub same : c.targets ≡ targets
  pub kept_pumping : c.pumping ≡ pumping
  pub turned : (c.stopped ≡ true) ⊎ (c.schedule.slots ≡ slots)

pub failed-Settles :
    (c : HealthChecks) (slots : List ProbeSlot) → Settles c.targets c.pumping slots (failed c)
failed-Settles c slots = record {
  same = failed-targets c;
  kept_pumping = failed-pumping c;
  turned = inl (failed_stops c);
}

note-Settles :
    (c : HealthChecks) (t : Target) (reason : Reason) (r : Option (HealthState × HealthTransition))
    → Settles c.targets c.pumping c.schedule.slots (note c t reason r)
unfolding note
note-Settles c t reason none = failed-Settles c c.schedule.slots
note-Settles c t reason (some (health, transition)) = record {
  same = refl;
  kept_pumping = refl;
  turned = inr refl;
}

complete_slot-slots :
    (s : ProbeSchedule) (i : ℕ) (slot : ProbeSlot)
    → slot.in_flight ≡ true
    → (complete_slot s i slot).slots ≡ set s.slots i (land slot)
unfolding complete_slot
complete_slot-slots s i slot e = simp e refl

pub settle-Settles :
    (c : HealthChecks) (i : ℕ) (success : Bool) (reason : Reason) (o : Open c i)
    → Settles c.targets c.pumping (set c.schedule.slots i (land o.slot)) (settle c i success reason)
unfolding settle
settle-Settles c i success reason o =
    let (t, e) = target_at c i o in
    subst (λ x. Settles c.targets c.pumping x (settle c i success reason))
      (complete_slot-slots c.schedule i o.slot o.flies)
      (if_cases (Settles c.targets c.pumping (complete_slot c.schedule i o.slot).slots) c.stopped
        (λ s. cc o.running)
        (λ s. simp (complete_found c.schedule i o.found, e) (note-Settles _ t reason _)))

pub stop_checks-same :
    (c : HealthChecks)
    → ((stop_checks c).targets ≡ c.targets)
      × ((stop_checks c).pumping ≡ c.pumping)
      × ((stop_checks c).stopped ≡ true)
unfolding stop_checks
stop_checks-same c = ground arith

-- A slot is in flight only while the checks are not stopped.
pub in_flight_running :
    (c : HealthChecks) (i : ℕ) (slot : ProbeSlot)
    → get_elem? c.schedule.slots i ≡ some slot
    → slot.in_flight ≡ true
    → Kept c
    → c.stopped ≡ false
in_flight_running c i slot e f k = elim k.resting [
  | inl s ↦ s
  | inr (a, w) ↦ absurd (ground (arith, a, k.valid.counted, flying_busy c.schedule.slots i e f))
]
