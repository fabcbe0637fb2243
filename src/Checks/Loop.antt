-- ===== src/Checks/Loop.antt =====
-- The loop of `pump`: enough readings of the clock end it.
use c_item.Base.{
  ℕ, ◌+◌, ◌≤◌, ◌<◌, ◌≡◌, refl, ◌∙◌, Bool, false, some, List, [], ◌∷◌, arith, length, inl, inr, Each,
}
use c_item.Health.Schedule.{take_due}
use c_item.Health.Schedule.Scan.{take_due-Outcome}
use c_item.Checks.{HealthChecks, Turn, pump_turn, pump_loop}
use c_item.Checks.Slots.{dues}
use c_item.Checks.Launch.{Sound}
use c_item.Checks.Turns.{InWindow, Lively, Turned, turn-Turned, ends, goes}

pub record Ended (c c' : HealthChecks) : Type 0 where
  pub sound : Sound c'
  pub same : c'.targets ≡ c.targets
  pub lively : Lively c'

-- There is a reading for every slot that is due, one more, and one if the checks are stopped.
abbrev Enough : ℕ → HealthChecks → List Turn → Type 0
Enough t c turns =
    (0 < length turns) × (c.stopped ≡ false → dues t c.schedule.slots + 2 ≤ length turns)

abbrev LoopEnds : HealthChecks → List Turn → Type 0
LoopEnds c turns = (c' : HealthChecks) × (pump_loop c turns ≡ some c') × Ended c c'

continue_loop :
    (t : ℕ) (c : HealthChecks) (turn : Turn) (turns : List Turn) {x : HealthChecks × Bool}
    → (c.stopped ≡ false → dues t c.schedule.slots + 2 ≤ length (turn ∷ turns))
    → Turned t c x
    → pump_turn c turn (take_due c.schedule turn.now) ≡ some x
    → ((c' : HealthChecks) → Sound c' → Enough t c' turns → LoopEnds c' turns)
    → LoopEnds c (turn ∷ turns)
unfolding pump_loop
continue_loop t c turn turns k (ends c' w s l) e next =
    (c', rw (e, pump_loop) refl, record { sound = w; same = s; lively = l })
continue_loop t c turn turns k (goes c' w s r less) e next =
    let room = k r in
    let (c'', q, z) = next c' w (
      omega arith,
      λ g. elim less [ inl f ↦ absurd (ground (arith, f, g)) | inr f ↦ omega arith ],
    ) in
    (c'', rw (e, pump_loop) q, record { sound = z.sound; same = z.same ∙ s; lively = z.lively })

-- The loop of a pump ends, with more readings than a slot that is due and one, all of them within
-- 100 ms, and it leaves a timer that is armed or a probe in flight, unless the checks are stopped or
-- have no target.
pub loop-LoopEnds :
    (t : ℕ) (c : HealthChecks) (turns : List Turn)
    → Sound c
    → Each (InWindow t) turns
    → Enough t c turns
    → LoopEnds c turns
loop-LoopEnds t c [] v h n = absurd (omega (arith, n.0))
loop-LoopEnds t c (turn ∷ turns) v h n =
    let (r, e, o) = take_due-Outcome c.schedule turn.now v.kept.valid in
    let (x, f, y) = turn-Turned t c turn v h.0 o in
    continue_loop t c turn turns n.1 y (rw e f) (λ c' w m. loop-LoopEnds t c' turns w h.1 m)
