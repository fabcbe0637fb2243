-- ===== src/Probe/Ends.antt =====
-- A probe runs under its deadline, or it has ended and reported once, unless it was cancelled.
use c_item.Base.{◌≢◌, ◌≡◌, inl, inr, Bool, false, Option, none, some, List, [], ◌∷◌, arith, refl}
use c_item.Probe.{
  Probe, Stage, resolving, connecting, handshaking, writing, reading_header, make_probe, cancel,
  start, Outcome, resolved, handshaken, written, connected, header_read, on_resolve, on_connect,
  on_handshake, on_write, on_read_header, on_timer, Event, completes, expires, wakes, cancels,
  handle, step_stage, step, run,
}
use c_item.Probe.Moves.{
  Alive, Ended, IsSound, Moved, cancel-Ended, dropped-Running, dropped-Ended, guarded-Ended,
  start-Moved, handle-Moved, expired-Reported,
}

-- A probe that has ended reports nothing more.
abbrev Silent : Probe → Probe → Type 0
Silent p q = Ended q × (q.log ≡ p.log)

handle-Silent :
    (p : Probe) (s : Stage) (o : Outcome) (escapes : Bool)
    → Ended p
    → Silent p (handle p s o escapes)
unfolding handle
handle-Silent p resolving (resolved error) escapes v =
    simp (guarded-Ended p (on_resolve error) escapes v) (v, refl)
handle-Silent p connecting (connected error identity) escapes v =
    simp (guarded-Ended p (on_connect error identity) escapes v) (v, refl)
handle-Silent p handshaking (handshaken error) escapes v =
    simp (guarded-Ended p (on_handshake error) escapes v) (v, refl)
handle-Silent p writing (written error) escapes v =
    simp (guarded-Ended p (on_write error) escapes v) (v, refl)
handle-Silent p reading_header (header_read error code) escapes v =
    simp (guarded-Ended p (on_read_header error code) escapes v) (v, refl)
handle-Silent p s _ escapes v = (ground arith, refl)

step_stage-Silent :
    (p : Probe) (s : Option Stage) (o : Outcome) (escapes : Bool)
    → Ended p
    → Silent p (step_stage p s o escapes)
unfolding step_stage
step_stage-Silent p none o escapes v = (v, refl)
step_stage-Silent p (some s) o escapes v = handle-Silent _ s o escapes (dropped-Ended p v)

step-Silent : (p : Probe) (e : Event) → Ended p → Silent p (step p e)
unfolding step cancel
step-Silent p (completes o escapes) v = step_stage-Silent p p.pending o escapes v
step-Silent p expires v = simp v.disarmed (v, refl)
step-Silent p (wakes e) v = simp v.disarmed (simp (guarded-Ended p (on_timer e) false v) (v, refl))
step-Silent p cancels v = simp v.is_done (v, refl)

step_stage-Moved :
    (p : Probe) (s : Option Stage) (o : Outcome) (escapes : Bool)
    → Alive p
    → Moved (step_stage p s o escapes)
unfolding step_stage
step_stage-Moved p none o escapes v = inl v
step_stage-Moved p (some s) o escapes v =
    handle-Moved _ (dropped-Running p v.running) v.deadline s o escapes

-- A probe that is not cancelled goes on or has just reported.
pub step-Moved : (p : Probe) (e : Event) → Alive p → e ≢ cancels → Moved (step p e)
unfolding step
step-Moved p (completes o escapes) v n = step_stage-Moved p p.pending o escapes v
step-Moved p expires v n = simp v.deadline (inr (expired-Reported p v.running))
step-Moved p (wakes e) v n = simp v.deadline (inl v)
step-Moved p cancels v n = absurd (n refl)

Moved-IsSound : {p : Probe} → Moved p → IsSound p
Moved-IsSound (inl a) = inl a
Moved-IsSound (inr r) = inr r.ended

step-IsSound : (p : Probe) (e : Event) → IsSound p → IsSound (step p e)
unfolding step
step-IsSound p e (inr v) = inr (step-Silent p e v).0
step-IsSound p (completes o escapes) (inl v) =
    Moved-IsSound (step_stage-Moved p p.pending o escapes v)
step-IsSound p expires (inl v) = simp v.deadline (inr (expired-Reported p v.running).ended)
step-IsSound p (wakes e) (inl v) = simp v.deadline (inl v)
step-IsSound p cancels (inl v) = inr (cancel-Ended p v.running)

run-IsSound : (p : Probe) (es : List Event) → IsSound p → IsSound (run p es)
unfolding run
run-IsSound p [] v = v
run-IsSound p (e ∷ es) v = run-IsSound (step p e) es (step-IsSound p e v)

-- Whatever the network and the timer do, in whatever order, a probe that has started runs with an
-- operation and its deadline outstanding, or it has ended: then its connection is closed, nothing
-- will be called again, and it has reported at most once. The end of its deadline ends it.
pub probe-IsSound :
    (completion secure context escapes : Bool) (p : Probe) (es : List Event)
    → make_probe completion secure context ≡ some p
    → IsSound (run (start p escapes) es) × Ended (step (run (start p escapes) es) expires)
unfolding step
probe-IsSound completion secure context escapes p es e =
    let v = run-IsSound _ es (Moved-IsSound (start-Moved completion secure context escapes e)) in
    (
      v,
      elim v [
        | inl a ↦ simp a.deadline (expired-Reported _ a.running).ended
        | inr b ↦ (step-Silent _ expires b).0
      ],
    )
