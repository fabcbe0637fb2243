-- ===== src/Checks/Runs.antt =====
-- Whatever happens to the health checks, in whatever order.
use c_item.Base.{
  ℕ, ◌≡◌, ◌≢◌, refl, sym, ◌∙◌, Bool, true, false, ◌||◌, Option, none, some, List, [], ◌∷◌,
  get_elem?, subst, arith, length, inl, inr, is_some, Each, if_lem, ◌==◌,
}
use c_item.Probe.{Probe, Effect, reports, closes, step, Event, completes, cancels}
use c_item.Probe.Moves.{Moved, reported, reports_first, Alive}
use c_item.Probe.Ends.{step-Moved}
use c_item.Checks.{
  HealthChecks, Turn, settle, route_targets, make_health_checks, start_checks, on_wait,
  after_report, on_probe, Happening, begins, expires, wakes, probes, stops, happen, happen_all,
}
use c_item.Config.{RouteConfig}
use c_item.Health.{HealthState}
use c_item.Checks.Begin.{make_checks-Sound}
use c_item.Checks.Slots.{Matched-probe, Matched-open, Fits-Alive}
use c_item.Checks.Launch.{Sound, Open, in_flight_running, settle-Sound, settle-Settles}
use c_item.Checks.Moves.{put_probe, put_probe-Open, put_probe-Sound}
use c_item.Checks.Pump.{Ready, Suits, SuitsAll, Goes, pump-Goes, stop_checks-Goes, on_wait-Goes}

-- The slot of a probe.
probe-Open :
    (c : HealthChecks) (i : ℕ) (p : Probe)
    → get_elem? c.probes i ≡ some (some p)
    → Sound c
    → Open c i × Alive p
probe-Open c i p e v =
    let (slot, g, f) = Matched-probe i e v.matched in
    let (b, a) = Fits-Alive f in
    (
      record {
        kept = v.kept;
        running = in_flight_running c i slot g b v.kept;
        matched = Matched-open g v.matched;
        slot = slot;
        found = g;
        long = f.long;
        flies = b;
      },
      a,
    )

after_report-Goes :
    (c : HealthChecks) (i : ℕ) (log : List Effect) (turns : List Turn)
    → reports_first log ≡ true
    → Open c i
    → c.pumping ≡ false
    → Suits (length c.targets) turns
    → Goes c (after_report c i log turns)
unfolding after_report
after_report-Goes c i [] turns e o r f = absurd (ground arith)
after_report-Goes c i (reports success reason ∷ log) turns e o r f =
    let s = settle-Settles c i success reason o in
    let (c', q, w, t) =
      pump-Goes (settle c i success reason) turns (settle-Sound c i success reason o)
        (s.kept_pumping ∙ r) (subst (λ ts. Suits (length ts) turns) (sym s.same) f) in
    (c', q, w, t ∙ s.same)
after_report-Goes c i (closes ∷ log) turns e o r f = absurd (ground arith)

after_report_alive :
    (c : HealthChecks) (i : ℕ) (log : List Effect) (turns : List Turn)
    → reported log ≡ 0
    → after_report c i log turns ≡ some c
unfolding after_report reported
after_report_alive c i [] turns e = refl
after_report_alive c i (reports success reason ∷ log) turns e = absurd (omega arith)
after_report_alive c i (closes ∷ log) turns e = refl

moved-Goes :
    (c : HealthChecks) (i : ℕ) (p : Probe) (turns : List Turn)
    → Moved p
    → Open c i
    → Ready c
    → Suits (length c.targets) turns
    → Goes c (after_report (put_probe c i p) i p.log turns)
moved-Goes c i p turns (inl a) o v f = (
  put_probe c i p,
  after_report_alive _ i p.log turns a.running.unreported,
  record { sound = put_probe-Sound c i p a o; rests = v.rests; lively = v.lively },
  refl,
)
moved-Goes c i p turns (inr r) o v f =
    after_report-Goes _ i p.log turns r.latest (put_probe-Open c i p o) v.rests f

on_probe-Goes :
    (c : HealthChecks) (i : ℕ) (slot : Option (Option Probe)) (event : Event) (turns : List Turn)
    → get_elem? c.probes i ≡ slot
    → Ready c
    → Suits (length c.targets) turns
    → Goes c (on_probe c i slot event turns)
unfolding on_probe
on_probe-Goes c i none event turns e v f = stays event
  where
    stays : (event : Event) → Goes c (on_probe c i none event turns)
    stays cancels = (c, refl, v, refl)
    stays _ = (c, refl, v, refl)
on_probe-Goes c i (some none) event turns e v f = stays event
  where
    stays : (event : Event) → Goes c (on_probe c i (some none) event turns)
    stays cancels = (c, refl, v, refl)
    stays _ = (c, refl, v, refl)
on_probe-Goes c i (some (some p)) event turns e v f = moves event
  where
    moved :
        (event : Event)
        → event ≢ cancels
        → Goes c (after_report (put_probe c i (step p event)) i (step p event).log turns)
    moved event n =
        let (o, a) = probe-Open c i p e v.sound in
        moved-Goes c i (step p event) turns (step-Moved p event a n) o v f

    moves : (event : Event) → Goes c (on_probe c i (some (some p)) event turns)
    moves cancels = (c, refl, v, refl)
    moves (completes outcome escapes) = moved (completes outcome escapes) (λ q. ground arith)
    moves event = moved event (λ q. ground arith)

unposted-Sound : (c : HealthChecks) → Sound c → Sound (record c { posted = false })
unposted-Sound c v = record {
  kept = record {
    valid = v.kept.valid;
    agree = v.kept.agree;
    fitted = v.kept.fitted;
    once = v.kept.once;
    resting = v.kept.resting;
  };
  matched = v.matched;
}

begun-Sound : (c : HealthChecks) → Sound c → Sound (record c { started = true; posted = true })
begun-Sound c v = record {
  kept = record {
    valid = v.kept.valid;
    agree = v.kept.agree;
    fitted = v.kept.fitted;
    once = v.kept.once;
    resting = v.kept.resting;
  };
  matched = v.matched;
}

unarmed-Sound : (c : HealthChecks) → Sound c → Sound (record c { wait = none })
unarmed-Sound c v = record {
  kept = record {
    valid = v.kept.valid;
    agree = v.kept.agree;
    fitted = v.kept.fitted;
    once = v.kept.once;
    resting = elim v.kept.resting [ inl h ↦ inl h | inr (a, w) ↦ inr (a, refl) ];
  };
  matched = v.matched;
}

happen-Goes :
    (c : HealthChecks) (h : Happening)
    → Ready c
    → SuitsAll (length c.targets) h
    → Goes c (happen c h)
unfolding happen on_wait
happen-Goes c (begins turns) v f =
    if_lem (Goes c) c.posted
      (pump-Goes (record c { posted = false }) turns (unposted-Sound c v.sound) v.rests f)
      (c, refl, v, refl)
happen-Goes c (expires turns) v f =
    if_lem (Goes c) (is_some c.wait)
      (pump-Goes (record c { wait = none }) turns (unarmed-Sound c v.sound) v.rests f)
      (c, refl, v, refl)
happen-Goes c (wakes error turns) v f = on_wait-Goes c error turns v f
happen-Goes c (probes i event turns) v f =
    on_probe-Goes c i (get_elem? c.probes i) event turns refl v f
happen-Goes c stops v f = stop_checks-Goes c v

happen_all-Goes :
    (c : HealthChecks) (hs : List Happening)
    → Ready c
    → Each (SuitsAll (length c.targets)) hs
    → Goes c (happen_all c hs)
unfolding happen_all
happen_all-Goes c [] v f = (c, refl, v, refl)
happen_all-Goes c (h ∷ hs) v f =
    let (c', e, w, s) = happen-Goes c h v f.0 in
    let (c'', e', w', s') =
      happen_all-Goes c' hs w (subst (λ ts. Each (SuitsAll (length ts)) hs) (sym s) f.1) in
    (c'', rw (e, happen_all) e', w', s' ∙ s)

start_checks-Ready :
    (c : HealthChecks)
    → Sound c
    → c.pumping ≡ false
    → c.started ≡ false
    → Ready (start_checks c) × ((start_checks c).targets ≡ c.targets)
unfolding start_checks
start_checks-Ready c v r s =
    if_lem (λ x. Ready x × (x.targets ≡ c.targets))
      (c.started || c.stopped || length c.targets == 0)
      (record { sound = v; rests = r; lively = inl s }, refl)
      (record { sound = begun-Sound c v; rests = r; lively = inr (inl refl) }, refl)

-- Whatever happens once the checks have started, in whatever order, every pump ends, provided that
-- its readings of the clock lie within 100 ms: two readings more than targets are enough. Between
-- two handlers a slot is in flight exactly if a probe runs for it under its deadline, at most four
-- are, the failure is reported at most once, and something is to come, the end of a probe or of the
-- wait on the timer, unless the checks are stopped or have no target.
pub checks-Ready :
    (routes : List RouteConfig) (context : Bool) (health : HealthState) (now : ℕ) (c : HealthChecks)
    (hs : List Happening)
    → make_health_checks routes context health now ≡ some c
    → Each (SuitsAll (length c.targets)) hs
    → (c' : HealthChecks) × (happen_all (start_checks c) hs ≡ some c') × Ready c'
unfolding make_health_checks
checks-Ready routes context health now c hs e f =
    let (v, r, s) = make_checks-Sound (route_targets 0 routes) context health now e in
    let (w, u) = start_checks-Ready c v r s in
    let (c', q, x, y) =
      happen_all-Goes (start_checks c) hs w
        (subst (λ ts. Each (SuitsAll (length ts)) hs) (sym u) f) in
    (c', q, x)
