-- ===== src/Checks/Turns.antt =====
-- A turn of the loop of `pump` launches a probe that will not be due again within 100 ms, or ends it.
use c_item.Base.{
  ℕ, ◌+◌, ◌*◌, ◌≤◌, ◌<◌, ◌≡◌, refl, sym, ap, ◌∙◌, Bool, true, false, Option, none, some, [],
  get_elem?, set, subst, arith, length, length-set, if◌then◌else◌, inl, inr, ◌⊎◌, Option-cases,
  Bool-cases, get_elem?_bound, get_elem?-set_self, is_some, if_lem, ◌==◌, time_max,
}
use c_item.Health.Schedule.{ProbeSlot, ProbeSchedule, land, is_due, launch, next_due, ticks_per_ms}
use c_item.Health.Schedule.Count.{IsValid}
use c_item.Health.Schedule.Scan.{Outcome, refused, idle, launched, Outcome-IsValid}
use c_item.Health.Schedule.Due.{no_due_active, due_running}
use c_item.Probe.{Probe, make_probe, start}
use c_item.Probe.Moves.{Moved, start-Moved}
use c_item.Checks.{HealthChecks, Turn, failed, arm, made, launch_probe, pump_turn}
use c_item.Checks.Slots.{
  Matched, MatchedBut, MatchedBut-slot, Matched-open, Matched-long, dues, dues-set,
}
use c_item.Checks.Launch.{Sound, Open, failed-Sound, failed_open, failed-Settles, failed_stops}
use c_item.Checks.Moves.{launch_later, moved-Sound, moved-Settled, Settled, stays, lands}

-- A reading less than 100 ms before `t`, which is not the end of time.
pub record InWindow (t : ℕ) (turn : Turn) : Type 0 where
  pub before : turn.now ≤ t
  pub near : t < turn.now + 100 * ticks_per_ms
  pub finite : t < time_max

abbrev pub Lively : HealthChecks → Type 0
Lively c =
    (c.stopped ≡ true) ⊎ (length c.targets ≡ 0) ⊎ (0 < c.schedule.active) ⊎ (is_some c.wait ≡ true)

pub data Turned (t : ℕ) (c : HealthChecks) : HealthChecks × Bool → Type 0 where
  ends :
      (c' : HealthChecks) → Sound c' → c'.targets ≡ c.targets → Lively c' → Turned t c (c', false)
  goes :
      (c' : HealthChecks)
      → Sound c'
      → c'.targets ≡ c.targets
      → c.stopped ≡ false
      → (c'.stopped ≡ true) ⊎ (dues t c'.schedule.slots < dues t c.schedule.slots)
      → Turned t c (c', true)

failed-Turned :
    (t : ℕ) (c c' : HealthChecks)
    → c'.targets ≡ c.targets
    → Sound (failed c')
    → Turned t c (failed c', false)
failed-Turned t c c' e v =
    let s = failed-Settles c' [] in ends (failed c') v (s.same ∙ e) (inl (failed_stops c'))

-- The schedule behind a launch.
module _ (c : HealthChecks) (v : Sound c) (i : ℕ) (slot : ProbeSlot) (now : ℕ)
    (e : get_elem? c.schedule.slots i ≡ some slot) (d : is_due slot now ≡ true)
    (p : c.schedule.stopped ≡ false) (s : ProbeSchedule)
    (q : s.slots ≡ set c.schedule.slots i (launch slot now)) (w : IsValid s)
    (r : s.stopped ≡ false) where
  running : c.stopped ≡ false
  running = v.kept.agree ∙ p

  long : 100 ≤ slot.interval
  long = Matched-long i e v.matched

  found : get_elem? s.slots i ≡ some (launch slot now)
  found =
      ap (λ ss. get_elem? ss i) q
      ∙ get_elem?-set_self c.schedule.slots i (launch slot now)
          (get_elem?_bound c.schedule.slots i e)

  launched-Open : Open (record c { schedule = s }) i
  unfolding launch
  launched-Open = record {
    kept = record {
      valid = w;
      agree = running ∙ sym r;
      fitted = v.kept.fitted ∙ sym (ap length q ∙ length-set c.schedule.slots i (launch slot now));
      once = v.kept.once;
      resting = inl running;
    };
    running = running;
    matched =
        subst (λ ss. MatchedBut i ss c.probes) (sym q)
          (MatchedBut-slot (launch slot now) long (Matched-open e v.matched));
    slot = launch slot now;
    found = found;
    long = long;
    flies = refl;
  }

  module _ (t : ℕ) (turn : Turn) (same_now : turn.now ≡ now) (h : InWindow t turn) where
    later : t < (launch slot now).due
    later =
        launch_later t now slot long (subst (λ n. t < n + 100 * ticks_per_ms) same_now h.near)
          h.finite

    due_before : is_due slot t ≡ true
    due_before = ground (arith, h.before)

    fewer :
        (x : ProbeSlot)
        → is_due x t ≡ false
        → dues t (set c.schedule.slots i x) < dues t c.schedule.slots
    fewer x f = ground (arith, dues-set t c.schedule.slots i slot x e, due_before)

    fewer_due :
        (c' : HealthChecks)
        → Settled (record c { schedule = s }) i (launch slot now) c'
        → (c'.targets ≡ c.targets)
          × ((c'.stopped ≡ true) ⊎ (dues t c'.schedule.slots < dues t c.schedule.slots))
    unfolding launch
    fewer_due c' (stays f g) = (f, inr (rw (g ∙ q) (fewer (launch slot now) refl)))
    fewer_due c' (lands z) = (
      z.same,
      elim z.turned [
        | inl st ↦ inl st
        | inr g ↦
            let landing = dues-set t s.slots i (launch slot now) (land (launch slot now)) found in
            inr (rw g (ground (arith, landing, ap (dues t) q, fewer (launch slot now) refl, later)))
      ],
    )

    launch_probe-Turned :
        (escapes : Bool) (m : Option Probe)
        → ((p : Probe) → m ≡ some p → Moved (start p escapes))
        → (r : HealthChecks × Bool) × (launch_probe (record c { schedule = s }) i escapes m ≡ r)
          × Turned t c r
    unfolding launch_probe launched-Open launch
    launch_probe-Turned escapes none k =
        (_, refl, failed-Turned t c _ refl (failed_open _ i launched-Open))
    launch_probe-Turned escapes (some p) k =
        let moved = k p refl in
        let (same, less) = fewer_due _ (moved-Settled _ i (start p escapes) moved launched-Open) in
        (_, refl, goes _ (moved-Sound _ i (start p escapes) moved launched-Open) same running less)

made-Moved :
    (c : HealthChecks) (i : ℕ) (throws escapes : Bool) (p : Probe)
    → made c i throws ≡ some p
    → Moved (start p escapes)
unfolding made
made-Moved c i throws escapes p e = elim (Option-cases (get_elem? c.targets i)) [
  | inl f ↦ absurd (ground arith)
  | inr (t, f) ↦
      let g : (if throws then none else make_probe true t.secure c.context) ≡ some p =
        rw (f, made) at e in
      elim (Bool-cases throws) [
        | inl h ↦ absurd (ground arith)
        | inr h ↦ start-Moved true t.secure c.context escapes (rw h at g)
      ]
]

reschedule-Sound :
    (c : HealthChecks) (s : ProbeSchedule)
    → s.slots ≡ c.schedule.slots
    → s.active ≡ c.schedule.active
    → s.stopped ≡ c.schedule.stopped
    → IsValid s
    → Sound c
    → Sound (record c { schedule = s })
reschedule-Sound c s e f g w v = record {
  kept = record {
    valid = w;
    agree = v.kept.agree ∙ sym g;
    fitted = v.kept.fitted ∙ sym (ap length e);
    once = v.kept.once;
    resting = elim v.kept.resting [ inl h ↦ inl h | inr (a, w) ↦ inr (f ∙ a, w) ];
  };
  matched = subst (λ ss. Matched ss c.probes) (sym e) v.matched;
}

armed-Sound :
    (c : HealthChecks) (due : ℕ)
    → c.stopped ≡ false
    → Sound c
    → Sound (record c { wait = some due })
armed-Sound c due r v = record {
  kept = record {
    valid = v.kept.valid;
    agree = v.kept.agree;
    fitted = v.kept.fitted;
    once = v.kept.once;
    resting = inl r;
  };
  matched = v.matched;
}

-- Without a timer, a probe is in flight.
unarmed-Lively : (c : HealthChecks) → Sound c → next_due c.schedule ≡ none → Lively c
unarmed-Lively c v e = elim (Bool-cases c.stopped) [
  | inl s ↦ inl s
  | inr s ↦ elim (Bool-cases (length c.targets == 0)) [
    | inl z ↦ inr (inl (ground arith))
    | inr z ↦ inr (
        inr (
          inl (
            no_due_active c.schedule v.kept.valid (sym v.kept.agree ∙ s)
              (ground (arith, v.kept.fitted)) e)))
  ]
]

arm-Turned :
    (t : ℕ) (c c' : HealthChecks) (throws : Bool)
    → c'.targets ≡ c.targets
    → Sound c'
    → Turned t c (arm c' throws (next_due c'.schedule), false)
unfolding arm
arm-Turned t c c' throws e v = elim (Option-cases (next_due c'.schedule)) [
  | inl n ↦ rw (n, arm) (ends c' v e (unarmed-Lively c' v n))
  | inr (due, n) ↦
      rw (n, arm)
        (if_lem (λ x. Turned t c (x, false)) throws (failed-Turned t c c' e (failed-Sound c' v))
          (ends _ (armed-Sound c' due (v.kept.agree ∙ due_running c'.schedule n) v) e
            (inr (inr (inr refl)))))
]

-- A turn of the loop ends it, or leaves fewer slots that are due.
pub turn-Turned :
    (t : ℕ) (c : HealthChecks) (turn : Turn) {r : ProbeSchedule × Option ℕ}
    → Sound c
    → InWindow t turn
    → Outcome c.schedule turn.now r
    → (x : HealthChecks × Bool) × (pump_turn c turn (some r) ≡ some x) × Turned t c x
unfolding pump_turn
turn-Turned t c turn v h (refused f) = (
  _,
  refl,
  arm-Turned t c _ turn.throws refl (reschedule-Sound c c.schedule refl refl refl v.kept.valid v),
)
turn-Turned t c turn v h (idle k b all) = (
  _,
  refl,
  arm-Turned t c _ turn.throws refl (
      reschedule-Sound c _ refl refl refl
        (Outcome-IsValid c.schedule turn.now v.kept.valid (idle k b all)) v),
)
turn-Turned t c turn v h (launched i slot e d p a) =
    let (x, q, y) =
      launch_probe-Turned c v i slot turn.now e d p _ refl
        (Outcome-IsValid c.schedule turn.now v.kept.valid (launched i slot e d p a)) p t turn refl h
        turn.escapes (made c i turn.throws) (made-Moved c i turn.throws turn.escapes) in
    (x, ap some q, y)
