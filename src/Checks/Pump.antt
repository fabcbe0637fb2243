-- ===== src/Checks/Pump.antt =====
-- A pump between two handlers.
use c_item.Base.{
  ℕ, ◌+◌, ◌≤◌, ◌≡◌, refl, ◌∙◌, Bool, true, false, ◌||◌, Option, some, List, arith, length, inl, inr,
  ◌⊎◌, Each, if_cases,
}
use c_item.Probe.{WaitError, elapsed, aborted, broken}
use c_item.Checks.{
  HealthChecks, Turn, failed, stop_checks, run_pump, pump, on_wait, Happening, begins, expires,
  wakes, probes, stops,
}
use c_item.Checks.Slots.{dues_bound}
use c_item.Checks.Launch.{
  Sound, failed-Sound, failed-targets, failed-pumping, failed_stops, stop_checks-Sound,
  stop_checks-same,
}
use c_item.Checks.Loop.{loop-LoopEnds}
use c_item.Checks.Turns.{InWindow, Lively}

-- Between two handlers. Once started, something is to come: the first pump, the end of a wait or of
-- a probe, unless the checks are stopped or there is nothing to check.
pub record Ready (c : HealthChecks) : Type 0 where
  pub sound : Sound c
  pub rests : c.pumping ≡ false
  pub lively : (c.started ≡ false) ⊎ (c.posted ≡ true) ⊎ Lively c

-- The readings of a pump over `n` targets: two more than targets, all of them within 100 ms.
pub record Suits (n : ℕ) (turns : List Turn) : Type 0 where
  pub until : ℕ
  pub timely : Each (InWindow until) turns
  pub enough : n + 2 ≤ length turns

abbrev pub SuitsAll : ℕ → Happening → Type 0
SuitsAll n (begins turns) = Suits n turns
SuitsAll n (expires turns) = Suits n turns
SuitsAll n (wakes error turns) = Suits n turns
SuitsAll n (probes i event turns) = Suits n turns
SuitsAll n stops = Unit {0}

abbrev pub Goes : HealthChecks → Option HealthChecks → Type 0
Goes c r = (c' : HealthChecks) × (r ≡ some c') × Ready c' × (c'.targets ≡ c.targets)

pumping-Sound : (c : HealthChecks) (b : Bool) → Sound c → Sound (record c { pumping = b })
pumping-Sound c b v = record {
  kept = record {
    valid = v.kept.valid;
    agree = v.kept.agree;
    fitted = v.kept.fitted;
    once = v.kept.once;
    resting = v.kept.resting;
  };
  matched = v.matched;
}

run_pump-Goes :
    (c : HealthChecks) (turns : List Turn)
    → Sound c
    → Suits (length c.targets) turns
    → Goes c (run_pump c turns)
unfolding run_pump
run_pump-Goes c turns v f =
    let (c', e, w) =
      loop-LoopEnds f.until (record c { pumping = true }) turns (pumping-Sound c true v) f.timely
        (
          omega (arith, f.enough),
          λ h. omega (arith, f.enough, dues_bound f.until c.schedule.slots, v.kept.fitted),
        ) in
    (
      record c' { pumping = false },
      rw (e, run_pump),
      record { sound = pumping-Sound c' false w.sound; rests = refl; lively = inr (inr w.lively) },
      w.same,
    )

pub pump-Goes :
    (c : HealthChecks) (turns : List Turn)
    → Sound c
    → c.pumping ≡ false
    → Suits (length c.targets) turns
    → Goes c (pump c turns)
unfolding pump
pump-Goes c turns v r f =
    if_cases (Goes c) (c.stopped || c.pumping)
      (λ e.
        (c, refl, record { sound = v; rests = r; lively = inr (inr (inl (ground arith))) }, refl))
      (λ e. run_pump-Goes c turns v f)

failed-Goes : (c : HealthChecks) → Sound c → c.pumping ≡ false → Goes c (some (failed c))
failed-Goes c v r = (
  failed c,
  refl,
  record {
    sound = failed-Sound c v;
    rests = failed-pumping c ∙ r;
    lively = inr (inr (inl (failed_stops c)));
  },
  failed-targets c,
)

pub stop_checks-Goes : (c : HealthChecks) → Ready c → Goes c (some (stop_checks c))
stop_checks-Goes c v =
    let (t, p, s) = stop_checks-same c in
    (
      stop_checks c,
      refl,
      record {
        sound = stop_checks-Sound c v.sound;
        rests = p ∙ v.rests;
        lively = inr (inr (inl s));
      },
      t,
    )

pub on_wait-Goes :
    (c : HealthChecks) (error : WaitError) (turns : List Turn)
    → Ready c
    → Suits (length c.targets) turns
    → Goes c (on_wait c error turns)
unfolding on_wait
on_wait-Goes c elapsed turns v f = pump-Goes c turns v.sound v.rests f
on_wait-Goes c aborted turns v f = (c, refl, v, refl)
on_wait-Goes c broken turns v f = failed-Goes c v.sound v.rests
