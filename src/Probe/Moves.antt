-- ===== src/Probe/Moves.antt =====
-- What the state of a probe is, and that every handler keeps it alive or ends it by a report.
use c_item.Base.{
  ℕ, ◌+◌, ◌≤◌, ◌≡◌, ◌⊎◌, inl, inr, Bool, true, false, not, none, some, List, [], ◌∷◌, is_some,
  arith, refl, if_lem, if_cases, subst, sym,
}
use c_item.Probe.{
  Probe, Stage, resolving, connecting, handshaking, writing, reading_header, Effect, reports,
  closes, Reason, threw, connect, handshake, resolve, write, read, status, timed_out, make_probe,
  close, finish, cancel, waiting, guarded, start, Outcome, resolved, handshaken, written, connected,
  header_read, on_resolve, on_connect, on_handshake, on_write, on_read_header, elapsed, on_timer,
  handle,
}

abbrev pub reports_one : Effect → ℕ
reports_one (reports success reason) = 1
reports_one closes = 0

unfoldable pub reported : List Effect → ℕ
reported [] = 0
reported (e ∷ es) = reports_one e + reported es

pub record Running (p : Probe) : Type 0 where
  pub undone : p.done ≡ false
  pub can_report : p.completion ≡ true
  pub opened : p.is_open ≡ true
  pub unreported : reported p.log ≡ 0

pub record Alive (p : Probe) : Type 0 where
  pub running : Running p
  pub deadline : p.armed ≡ true
  pub waits : is_some p.pending ≡ true

pub record Ended (p : Probe) : Type 0 where
  pub is_done : p.done ≡ true
  pub shut : p.is_open ≡ false
  pub disarmed : p.armed ≡ false
  pub no_completion : p.completion ≡ false
  pub reported_once : reported p.log ≤ 1

abbrev pub IsSound : Probe → Type 0
IsSound p = Alive p ⊎ Ended p

abbrev pub reports_first : List Effect → Bool
reports_first (reports success reason ∷ log) = true
reports_first log = false

-- It has ended by a report, and nothing has been seen since.
pub record Reported (p : Probe) : Type 0 where
  pub ended : Ended p
  pub latest : reports_first p.log ≡ true

abbrev pub Moved : Probe → Type 0
Moved p = Alive p ⊎ Reported p

finish-Ended :
    (p : Probe) (success : Bool) (reason : Reason) → Running p → Ended (finish p success reason)
unfolding finish close reported
finish-Ended p success reason r = ground arith

finish-Reported :
    (p : Probe) (success : Bool) (reason : Reason) → Running p → Reported (finish p success reason)
unfolding finish
finish-Reported p success reason r = record {
  ended = finish-Ended p success reason r;
  latest = simp (r.undone, r.can_report) refl;
}

pub cancel-Ended : (p : Probe) → Running p → Ended (cancel p)
unfolding cancel close reported
cancel-Ended p r = ground arith

waiting-Moved : (p : Probe) (s : Stage) → Running p → p.armed ≡ true → Moved (waiting p s)
waiting-Moved p s r d = inl (record { running = ground arith; deadline = d; waits = refl })

finish_again :
    (p : Probe) (success : Bool) (reason : Reason) → Ended p → finish p success reason ≡ p
unfolding finish
finish_again p success reason v = ground arith

pub dropped-Running : (p : Probe) → Running p → Running (record p { pending = none })
dropped-Running p r = ground arith

pub dropped-Ended : (p : Probe) → Ended p → Ended (record p { pending = none })
dropped-Ended p v = ground arith

escaped-Reported :
    (p : Probe) → Moved p → Reported (finish (record p { pending = none }) false threw)
escaped-Reported p (inl v) = finish-Reported _ false threw (dropped-Running p v.running)
escaped-Reported p (inr v) =
    let v' = dropped-Ended p v.ended in
    subst Reported (sym (finish_again _ false threw v')) (record { ended = v'; latest = v.latest })

guarded-Moved :
    (p : Probe) (action : Probe → Probe) (escapes : Bool)
    → Running p
    → Moved (action p)
    → Moved (guarded p action escapes)
unfolding guarded
guarded-Moved p action escapes r h =
    if_cases Moved p.done (λ e. cc r.undone)
      (λ e. if_lem Moved escapes (inr (escaped-Reported (action p) h)) h)

pub guarded-Ended :
    (p : Probe) (action : Probe → Probe) (escapes : Bool) → Ended p → guarded p action escapes ≡ p
unfolding guarded
guarded-Ended p action escapes v = simp v.is_done refl

make_probe-Running :
    (completion secure context : Bool) {p : Probe}
    → make_probe completion secure context ≡ some p
    → Running p
unfolding make_probe reported
make_probe-Running completion secure context e = ground arith

pub start-Moved :
    (completion secure context escapes : Bool) {p : Probe}
    → make_probe completion secure context ≡ some p
    → Moved (start p escapes)
unfolding start
start-Moved completion secure context escapes {p} e =
    let r = make_probe-Running completion secure context e in
    guarded-Moved p _ escapes r
      (waiting-Moved (record p { armed = true }) resolving (ground arith) refl)

module _ (p : Probe) (r : Running p) (d : p.armed ≡ true) where
  failed : (reason : Reason) → Moved (finish p false reason)
  failed reason = inr (finish-Reported p false reason r)

  connected-Moved : (error identity : Bool) → Moved (on_connect error identity p)
  unfolding on_connect
  connected-Moved error identity = if_lem Moved error (failed connect) (
      if_lem Moved (not p.secure) (waiting-Moved p writing r d)
        (if_lem Moved identity (waiting-Moved p handshaking r d) (failed handshake)))

  pub handle-Moved : (s : Stage) (o : Outcome) (escapes : Bool) → Moved (handle p s o escapes)
  unfolding handle on_resolve on_handshake on_write on_read_header
  handle-Moved resolving (resolved error) escapes =
      guarded-Moved p _ escapes r
        (if_lem Moved error (failed resolve) (waiting-Moved p connecting r d))
  handle-Moved connecting (connected error identity) escapes =
      guarded-Moved p _ escapes r (connected-Moved error identity)
  handle-Moved handshaking (handshaken error) escapes =
      guarded-Moved p _ escapes r
        (if_lem Moved error (failed handshake) (waiting-Moved p writing r d))
  handle-Moved writing (written error) escapes =
      guarded-Moved p _ escapes r
        (if_lem Moved error (failed write) (waiting-Moved p reading_header r d))
  handle-Moved reading_header (header_read error code) escapes =
      guarded-Moved p _ escapes r
        (if_lem Moved error (failed read) (inr (finish-Reported p _ status r)))
  handle-Moved s _ escapes = waiting-Moved p s r d

pub expired-Reported :
    (p : Probe)
    → Running p
    → Reported (guarded (record p { armed = false }) (on_timer elapsed) false)
unfolding guarded on_timer
expired-Reported p r = simp r.undone (finish-Reported _ false timed_out (ground arith))
