-- ===== src/Health/Schedule/Due.antt =====
-- The time at which the timer is armed.
use c_item.Base.{
  ℕ, zero, suc, ◌≤◌, ◌<◌, ◌≡◌, refl, sym, ap, subst, ◌∙◌, true, false, not, ◌&&◌, ◌||◌, Option,
  none, some, some_inj, inl, inr, ◌⊎◌, List, [], ◌∷◌, arith, ◌==◌, if◌then◌else◌, get_elem?,
  Bool-cases, length,
}
use c_item.Health.Schedule.{
  ProbeSlot, ProbeSchedule, earlier, earliest, next_due, take_due, max_in_flight,
}
use c_item.Health.Schedule.Count.{IsValid, flying}
use c_item.Health.Schedule.Scan.{Outcome, refused, idle, launched, take_due-Outcome}

-- Every idle slot of the list is due at `t` or later.
abbrev pub NoneBefore : ℕ → List ProbeSlot → Type 0
NoneBefore t slots =
    (i : ℕ) (slot : ProbeSlot)
    → get_elem? slots i ≡ some slot
    → slot.in_flight ≡ false
    → t ≤ slot.due

abbrev AtMost : ℕ → Option ℕ → Type 0
AtMost t none = Unit {0}
AtMost t (some u) = t ≤ u

NoneBefore-cons :
    (t : ℕ) (x : ProbeSlot) (slots : List ProbeSlot)
    → (x.in_flight ≡ false → t ≤ x.due)
    → NoneBefore t slots
    → NoneBefore t (x ∷ slots)
NoneBefore-cons t x slots h k zero slot e f =
    subst (λ s. s.in_flight ≡ false → t ≤ s.due) (some_inj e) h f
NoneBefore-cons t x slots h k (suc i) slot e f = k i slot e f

abbrev step_next : ProbeSlot → Option ℕ → Option ℕ
step_next slot next = if not slot.in_flight && earlier slot.due next then some slot.due else next

step_next_bound :
    (t : ℕ) (x : ProbeSlot) (next : Option ℕ)
    → AtMost t (step_next x next)
    → (x.in_flight ≡ false → t ≤ x.due) × AtMost t next
step_next_bound t x none h = (λ f. ground arith, tt)
step_next_bound t x (some u) h = ground arith

earliest-bound :
    (slots : List ProbeSlot) (next : Option ℕ) {t : ℕ}
    → earliest slots next ≡ some t
    → NoneBefore t slots × AtMost t next
unfolding earliest
earliest-bound [] next {t} e = ((λ i slot f g. absurd (cc)), subst (AtMost t) (sym e) (omega arith))
earliest-bound (x ∷ slots) next {t} e =
    let (all, top) = earliest-bound slots (step_next x next) e in
    let (here, rest) = step_next_bound t x next top in (NoneBefore-cons t x slots here all, rest)

-- An idle slot that is due at `t`.
abbrev pub IdleDue : ℕ → List ProbeSlot → Type 0
IdleDue t slots =
    (i : ℕ) × (slot : ProbeSlot) × (get_elem? slots i ≡ some slot)
    × (slot.in_flight ≡ false)
    × (slot.due ≡ t)

step_next_source :
    (t : ℕ) (x : ProbeSlot) (next : Option ℕ)
    → step_next x next ≡ some t
    → (next ≡ some t) ⊎ ((x.in_flight ≡ false) × (x.due ≡ t))
step_next_source t x none e = ground arith
step_next_source t x (some u) e = ground arith

earliest-source :
    (slots : List ProbeSlot) (next : Option ℕ) {t : ℕ}
    → earliest slots next ≡ some t
    → (next ≡ some t) ⊎ IdleDue t slots
unfolding earliest
earliest-source [] next e = inl e
earliest-source (x ∷ slots) next {t} e = elim (earliest-source slots (step_next x next) e) [
  | inl q ↦ elim (step_next_source t x next q) [
    | inl r ↦ inl r
    | inr (f, d) ↦ inr (0, x, refl, f, d)
  ]
  | inr (i, slot, g, f, d) ↦ inr (suc i, slot, g, f, d)
]

-- The timer is armed for the least time at which an idle slot is due.
pub next_due-least :
    (s : ProbeSchedule) {t : ℕ} → next_due s ≡ some t → IdleDue t s.slots × NoneBefore t s.slots
unfolding next_due
next_due-least s {t} e = elim (Bool-cases (s.stopped || s.active == max_in_flight)) [
  | inl f ↦ absurd (ground arith)
  | inr f ↦
      let q : earliest s.slots none ≡ some t = rw f at e in
      elim (earliest-source s.slots none q) [
        | inl n ↦ absurd (cc)
        | inr found ↦ (found, (earliest-bound s.slots none q).0)
      ]
]

refused_no_due :
    (s : ProbeSchedule) → (s.stopped ≡ true) ⊎ (s.active ≡ max_in_flight) → next_due s ≡ none
unfolding next_due
refused_no_due s h = ground arith

Outcome-future :
    (s : ProbeSchedule) (now t : ℕ) {r : ProbeSchedule × Option ℕ}
    → Outcome s now r
    → r.1 ≡ none
    → next_due r.0 ≡ some t
    → now < t
Outcome-future s now t (refused h) n e = absurd (ground (arith, refused_no_due s h))
Outcome-future s now t (idle c b all) n e =
    let (i, slot, g, f, d) = (next_due-least (record s { cursor = c }) e).0 in
    ground (arith, all i slot g)
Outcome-future s now t (launched i slot e' d p a) n e = absurd (cc)

-- When no probe is taken, the timer that is then armed lies in the future: the pump never spins.
pub next_due-future :
    (s s' : ProbeSchedule) (now t : ℕ)
    → IsValid s
    → take_due s now ≡ some (s', none)
    → next_due s' ≡ some t
    → now < t
next_due-future s s' now t v e d =
    let (r, q, o) = take_due-Outcome s now v in
    let same : r ≡ (s', none) = some_inj (sym q ∙ e) in
    Outcome-future s now t o (ap (λ (x : ProbeSchedule × Option ℕ). x.1) same)
      (ap (λ (x : ProbeSchedule × Option ℕ). next_due x.0) same ∙ d)

earliest_some :
    (slots : List ProbeSlot) (next : Option ℕ) → earliest slots next ≡ none → next ≡ none
unfolding earliest
earliest_some [] next e = e
earliest_some (x ∷ slots) none e = refl
earliest_some (x ∷ slots) (some t) e =
    let rest = earliest_some slots (step_next x (some t)) e in absurd (ground arith)

earliest-all :
    (slots : List ProbeSlot) (next : Option ℕ)
    → earliest slots next ≡ none
    → flying slots ≡ length slots
unfolding earliest flying
earliest-all [] next e = refl
earliest-all (x ∷ slots) next e =
    let rest = earliest-all slots (step_next x next) e in
    elim (Bool-cases x.in_flight) [
      | inl f ↦ ground (arith, rest)
      | inr f ↦ ground (arith, rest, earliest_some slots (step_next x next) e)
    ]

-- When no timer is to be armed, a probe is in flight, unless the schedule is stopped or empty.
pub no_due_active :
    (s : ProbeSchedule)
    → IsValid s
    → s.stopped ≡ false
    → 0 < length s.slots
    → next_due s ≡ none
    → 0 < s.active
unfolding next_due
no_due_active s v p h e = elim (Bool-cases (s.active == max_in_flight)) [
  | inl f ↦ ground arith
  | inr f ↦
      let q : earliest s.slots none ≡ none = ground arith in
      omega (arith, earliest-all s.slots none q, v.counted)
]

-- A timer is armed only while the schedule runs.
pub due_running : (s : ProbeSchedule) {t : ℕ} → next_due s ≡ some t → s.stopped ≡ false
due_running s e = elim (Bool-cases s.stopped) [
  | inl f ↦ absurd (cc (refused_no_due s (inl f)))
  | inr f ↦ f
]
