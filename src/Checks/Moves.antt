-- ===== src/Checks/Moves.antt =====
-- A probe that has started, or moved: it stays in its slot, or the slot is idle again.
use c_item.Base.{
  ℕ, ◌+◌, ◌*◌, ◌≤◌, ◌<◌, ◌≡◌, refl, sym, true, some, List, [], ◌∷◌, set, subst, arith, inl, inr,
  time_max,
}
use c_item.Health.Schedule.{ProbeSlot, land, launch, ticks_per_ms}
use c_item.Probe.{Probe, Effect, reports, closes}
use c_item.Probe.Moves.{Alive, Moved, reported, reports_first}
use c_item.Checks.{HealthChecks, settle_if}
use c_item.Checks.Slots.{MatchedBut-probe, MatchedBut-close, Holds, flies}
use c_item.Checks.Launch.{Sound, Open, Settles, settle-Sound, settle-Settles}

-- A launch puts the slot beyond every time within 100 ms.
pub launch_later :
    (t now : ℕ) (slot : ProbeSlot)
    → 100 ≤ slot.interval
    → t < now + 100 * ticks_per_ms
    → t < time_max
    → t < (launch slot now).due
unfolding launch
launch_later t now slot l h k = ground arith

settle_if-Sound :
    (c : HealthChecks) (i : ℕ) (log : List Effect)
    → reports_first log ≡ true
    → Open c i
    → Sound (settle_if c i log)
unfolding settle_if
settle_if-Sound c i [] e o = cc
settle_if-Sound c i (reports success reason ∷ log) e o = settle-Sound c i success reason o
settle_if-Sound c i (closes ∷ log) e o = cc

settle_if-Settles :
    (c : HealthChecks) (i : ℕ) (log : List Effect)
    → reports_first log ≡ true
    → (o : Open c i)
    → Settles c.targets c.pumping (set c.schedule.slots i (land o.slot)) (settle_if c i log)
unfolding settle_if
settle_if-Settles c i [] e o = cc
settle_if-Settles c i (reports success reason ∷ log) e o = settle-Settles c i success reason o
settle_if-Settles c i (closes ∷ log) e o = cc

pub settle_if_alive :
    (c : HealthChecks) (i : ℕ) (log : List Effect) → reported log ≡ 0 → settle_if c i log ≡ c
unfolding settle_if reported
settle_if_alive c i [] e = refl
settle_if_alive c i (reports success reason ∷ log) e = absurd (omega arith)
settle_if_alive c i (closes ∷ log) e = refl

-- The state with the probe that has moved, whose slot is in flight.
abbrev pub put_probe : HealthChecks → ℕ → Probe → HealthChecks
put_probe c i p = record c { probes = set c.probes i (some p) }

pub put_probe-Open : (c : HealthChecks) (i : ℕ) (p : Probe) → Open c i → Open (put_probe c i p) i
put_probe-Open c i p o = record {
  kept = record {
    valid = o.kept.valid;
    agree = o.kept.agree;
    fitted = o.kept.fitted;
    once = o.kept.once;
    resting = o.kept.resting;
  };
  running = o.running;
  matched = MatchedBut-probe (some p) o.matched;
  slot = o.slot;
  found = o.found;
  long = o.long;
  flies = o.flies;
}

pub put_probe-Sound :
    (c : HealthChecks) (i : ℕ) (p : Probe) → Alive p → Open c i → Sound (put_probe c i p)
put_probe-Sound c i p a o = record {
  kept = (put_probe-Open c i p o).kept;
  matched =
      MatchedBut-close o.found
        (record { long = o.long; holds = subst (λ b. Holds b (some p)) (sym o.flies) (flies a) })
        o.matched;
}

-- A probe that has moved: it stays, or its slot is idle again.
pub moved-Sound :
    (c : HealthChecks) (i : ℕ) (p : Probe)
    → Moved p
    → Open c i
    → Sound (settle_if (put_probe c i p) i p.log)
moved-Sound c i p (inl a) o =
    rw (settle_if_alive (put_probe c i p) i p.log a.running.unreported) (put_probe-Sound c i p a o)
moved-Sound c i p (inr r) o = settle_if-Sound _ i p.log r.latest (put_probe-Open c i p o)

pub data Settled (c : HealthChecks) (i : ℕ) (slot : ProbeSlot) (c' : HealthChecks) : Type 0 where
  stays : c'.targets ≡ c.targets → c'.schedule.slots ≡ c.schedule.slots → Settled c i slot c'
  lands : Settles c.targets c.pumping (set c.schedule.slots i (land slot)) c' → Settled c i slot c'

pub moved-Settled :
    (c : HealthChecks) (i : ℕ) (p : Probe)
    → Moved p
    → (o : Open c i) → Settled c i o.slot (settle_if (put_probe c i p) i p.log)
unfolding put_probe-Open
moved-Settled c i p (inl a) o =
    rw (settle_if_alive (put_probe c i p) i p.log a.running.unreported) (stays refl refl)
moved-Settled c i p (inr r) o =
    lands (settle_if-Settles _ i p.log r.latest (put_probe-Open c i p o))
