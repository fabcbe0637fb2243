-- ===== src/Checks/Slots.antt =====
-- A slot of the schedule and the probe beside it: in flight with a probe that runs, or idle and empty.
use c_item.Base.{
  ℕ, zero, suc, ◌+◌, ◌≤◌, ◌≡◌, refl, ap, Bool, true, false, Option, none, some, some_inj, List, [],
  ◌∷◌, map, get_elem?, set, subst, sym, if◌then◌else◌, arith, length,
}
use c_item.Health.Schedule.{ProbeSlot, land, is_due}
use c_item.Probe.{Probe}
use c_item.Probe.Moves.{Alive}

pub data Holds : Bool → Option Probe → Type 0 where
  idle : Holds false none
  flies : {p : Probe} → Alive p → Holds true (some p)

pub record Fits (slot : ProbeSlot) (p : Option Probe) : Type 0 where
  pub long : 100 ≤ slot.interval
  pub holds : Holds slot.in_flight p

pub data Matched : List ProbeSlot → List (Option Probe) → Type 0 where
  nil : Matched [] []
  cons :
      {slot : ProbeSlot} {p : Option Probe} {slots : List ProbeSlot} {ps : List (Option Probe)}
      → Fits slot p
      → Matched slots ps
      → Matched (slot ∷ slots) (p ∷ ps)

-- Matched everywhere but at one index.
pub data MatchedBut : ℕ → List ProbeSlot → List (Option Probe) → Type 0 where
  here :
      {slot : ProbeSlot} {p : Option Probe} {slots : List ProbeSlot} {ps : List (Option Probe)}
      → 100 ≤ slot.interval
      → Matched slots ps
      → MatchedBut 0 (slot ∷ slots) (p ∷ ps)
  there :
      {i : ℕ} {slot : ProbeSlot} {p : Option Probe} {slots : List ProbeSlot}
      {ps : List (Option Probe)}
      → Fits slot p
      → MatchedBut i slots ps
      → MatchedBut (suc i) (slot ∷ slots) (p ∷ ps)

pub Matched-open :
    {i : ℕ} {slot : ProbeSlot} {slots : List ProbeSlot} {ps : List (Option Probe)}
    → get_elem? slots i ≡ some slot
    → Matched slots ps
    → MatchedBut i slots ps
Matched-open {i = i} e nil = absurd (cc)
Matched-open {i = zero} e (cons f m) = here f.long m
Matched-open {i = suc i} e (cons f m) = there f (Matched-open e m)

pub MatchedBut-slot :
    {i : ℕ} {slots : List ProbeSlot} {ps : List (Option Probe)} (slot : ProbeSlot)
    → 100 ≤ slot.interval
    → MatchedBut i slots ps
    → MatchedBut i (set slots i slot) ps
MatchedBut-slot slot l (here h m) = here l m
MatchedBut-slot slot l (there f m) = there f (MatchedBut-slot slot l m)

pub MatchedBut-probe :
    {i : ℕ} {slots : List ProbeSlot} {ps : List (Option Probe)} (p : Option Probe)
    → MatchedBut i slots ps
    → MatchedBut i slots (set ps i p)
MatchedBut-probe p (here h m) = here h m
MatchedBut-probe p (there f m) = there f (MatchedBut-probe p m)

pub MatchedBut-fill :
    {i : ℕ} {slots : List ProbeSlot} {ps : List (Option Probe)} {slot : ProbeSlot}
    {p : Option Probe}
    → Fits slot p
    → MatchedBut i slots ps
    → Matched (set slots i slot) (set ps i p)
MatchedBut-fill f (here h m) = cons f m
MatchedBut-fill f (there g m) = cons g (MatchedBut-fill f m)

pub MatchedBut-close :
    {i : ℕ} {slots : List ProbeSlot} {ps : List (Option Probe)} {slot : ProbeSlot}
    {p : Option Probe}
    → get_elem? slots i ≡ some slot
    → Fits slot p
    → MatchedBut i slots ps
    → Matched slots (set ps i p)
MatchedBut-close {p = p} e f (here h m) = cons (subst (λ s. Fits s p) (sym (some_inj e)) f) m
MatchedBut-close e f (there g m) = cons g (MatchedBut-close e f m)

pub Matched-idle :
    {slots : List ProbeSlot} {ps : List (Option Probe)}
    → Matched slots ps
    → Matched (map land slots) (map (λ p. none) ps)
Matched-idle nil = nil
Matched-idle (cons f m) = cons (record { long = f.long; holds = idle }) (Matched-idle m)

pub MatchedBut-idle :
    {i : ℕ} {slots : List ProbeSlot} {ps : List (Option Probe)}
    → MatchedBut i slots ps
    → Matched (map land slots) (map (λ p. none) ps)
MatchedBut-idle (here h m) = cons (record { long = h; holds = idle }) (Matched-idle m)
MatchedBut-idle (there f m) = cons (record { long = f.long; holds = idle }) (MatchedBut-idle m)

-- The slot of a probe, which is in flight.
pub Matched-probe :
    (i : ℕ) {p : Probe} {slots : List ProbeSlot} {ps : List (Option Probe)}
    → get_elem? ps i ≡ some (some p)
    → Matched slots ps
    → (slot : ProbeSlot) × (get_elem? slots i ≡ some slot) × Fits slot (some p)
Matched-probe i e nil = absurd (cc)
Matched-probe zero e (cons {slot = slot} f m) = (slot, refl, subst (Fits slot) (some_inj e) f)
Matched-probe (suc i) e (cons f m) = Matched-probe i e m

Holds-Alive :
    {b : Bool} {p : Option Probe} {q : Probe} → p ≡ some q → Holds b p → (b ≡ true) × Alive q
Holds-Alive e idle = absurd (cc)
Holds-Alive e (flies a) = (refl, subst Alive (some_inj e) a)

pub Fits-Alive :
    {slot : ProbeSlot} {p : Probe} → Fits slot (some p) → (slot.in_flight ≡ true) × Alive p
Fits-Alive f = Holds-Alive refl f.holds

-- How many slots are due at a time.
abbrev pub due_one : ℕ → ProbeSlot → ℕ
due_one t slot = if is_due slot t then 1 else 0

unfoldable pub dues : ℕ → List ProbeSlot → ℕ
dues t [] = 0
dues t (slot ∷ slots) = due_one t slot + dues t slots

pub dues-set :
    (t : ℕ) (slots : List ProbeSlot) (i : ℕ) (s s' : ProbeSlot)
    → get_elem? slots i ≡ some s
    → dues t (set slots i s') + due_one t s ≡ dues t slots + due_one t s'
unfolding dues
dues-set t [] i s s' e = cc
dues-set t (x ∷ slots) zero s s' e =
    let same : due_one t x ≡ due_one t s = ap (due_one t) (some_inj e) in omega (arith, same)
dues-set t (x ∷ slots) (suc i) s s' e = omega (arith, dues-set t slots i s s' e)

pub dues_bound : (t : ℕ) (slots : List ProbeSlot) → dues t slots ≤ length slots
unfolding dues
dues_bound t [] = omega arith
dues_bound t (x ∷ slots) = ground (arith, dues_bound t slots)

pub Matched-long :
    (i : ℕ) {slot : ProbeSlot} {slots : List ProbeSlot} {ps : List (Option Probe)}
    → get_elem? slots i ≡ some slot
    → Matched slots ps
    → 100 ≤ slot.interval
Matched-long i e nil = absurd (cc)
Matched-long zero e (cons f m) = subst (λ s. 100 ≤ s.interval) (some_inj e) f.long
Matched-long (suc i) e (cons f m) = Matched-long i e m
