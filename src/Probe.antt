-- ===== src/Probe.antt =====
-- src/health_check.cpp, Probe: one GET whose header decides, under one deadline. What a handler
-- learns comes with its event; the log lists what the outside has seen, the latest first.
pub mod Moves
pub mod Ends
mod Examples
use c_item.Base.{
  ℕ, Bool, true, false, not, ◌&&◌, ◌||◌, Option, none, some, List, [], ◌∷◌, leb, if◌then◌else◌,
}

pub data Reason : Type 0 where
  timed_out timer_failed resolve connect handshake write read status threw probe_succeeded : Reason

pub data Stage : Type 0 where
  resolving connecting handshaking writing reading_header : Stage

pub data Effect : Type 0 where
  -- The completion callback.
  reports : (success : Bool) → Reason → Effect
  closes : Effect

-- `armed` is the wait on the deadline, until it ends or is cancelled.
pub record Probe : Type 0 where
  pub secure : Bool
  pub done : Bool
  pub completion : Bool
  pub is_open : Bool
  pub armed : Bool
  pub pending : Option Stage
  pub log : List Effect

-- The constructor, told whether it is given a callback and a context; `none` is
-- std::invalid_argument.
unfoldable pub make_probe : (completion secure context : Bool) → Option Probe
make_probe completion secure context =
    if not completion || secure && not context
    then none
    else some (record {
      secure = secure;
      done = false;
      completion = true;
      is_open = true;
      armed = false;
      pending = none;
      log = [];
    })

unfoldable pub close : Probe → Probe
close p =
    if p.is_open
    then record p { armed = false; is_open = false; log = closes ∷ p.log }
    else record p { armed = false }

unfoldable pub finish : Probe → Bool → Reason → Probe
finish p success reason =
    let shut = close (record p { done = true }) in
    if p.done
    then p
    else if p.completion
    then record shut {
      completion = false;
      log = reports success (if success then probe_succeeded else reason) ∷ shut.log;
    }
    else shut

unfoldable pub cancel : Probe → Probe
cancel p = if p.done then p else close (record p { done = true; completion = false })

abbrev pub waiting : Probe → Stage → Probe
waiting p stage = record p { pending = some stage }

-- `escapes` is whether an exception leaves the action where it starts its operation.
unfoldable pub guarded : Probe → (action : Probe → Probe) → (escapes : Bool) → Probe
guarded p action escapes =
    if p.done
    then p
    else if escapes
    then finish (record (action p) { pending = none }) false threw
    else action p

unfoldable pub start : Probe → (escapes : Bool) → Probe
start p escapes = guarded p (λ q. waiting (record q { armed = true }) resolving) escapes

-- What the handler of a stage learns.
pub data Outcome : Type 0 where
  resolved handshaken written : (error : Bool) → Outcome
  connected : (error identity : Bool) → Outcome
  header_read : (error : Bool) → (status : ℕ) → Outcome

unfoldable pub on_resolve : Bool → Probe → Probe
on_resolve error p = if error then finish p false resolve else waiting p connecting

unfoldable pub on_connect : (error identity : Bool) → Probe → Probe
on_connect error identity p =
    if error
    then finish p false connect
    else if not p.secure
    then waiting p writing
    else if identity
    then waiting p handshaking
    else finish p false handshake

unfoldable pub on_handshake : Bool → Probe → Probe
on_handshake error p = if error then finish p false handshake else waiting p writing

unfoldable pub on_write : Bool → Probe → Probe
on_write error p = if error then finish p false write else waiting p reading_header

unfoldable pub on_read_header : Bool → (code : ℕ) → Probe → Probe
on_read_header error code p =
    if error then finish p false read else finish p (leb 200 code && leb code 299) status

-- The error of a wait.
pub data WaitError : Type 0 where
  elapsed aborted broken : WaitError

unfoldable pub on_timer : WaitError → Probe → Probe
on_timer elapsed p = finish p false timed_out
on_timer aborted p = p
on_timer broken p = finish p false timer_failed

pub data Event : Type 0 where
  completes : Outcome → (escapes : Bool) → Event
  -- The wait ends on its own.
  expires : Event
  -- A cancelled wait ends, which may have ended before.
  wakes : WaitError → Event
  cancels : Event

unfoldable pub handle : Probe → Stage → Outcome → (escapes : Bool) → Probe
handle p resolving (resolved error) escapes = guarded p (on_resolve error) escapes
handle p connecting (connected error identity) escapes =
    guarded p (on_connect error identity) escapes
handle p handshaking (handshaken error) escapes = guarded p (on_handshake error) escapes
handle p writing (written error) escapes = guarded p (on_write error) escapes
handle p reading_header (header_read error code) escapes =
    guarded p (on_read_header error code) escapes
handle p stage outcome escapes = waiting p stage

unfoldable pub step_stage : Probe → Option Stage → Outcome → (escapes : Bool) → Probe
step_stage p none outcome escapes = p
step_stage p (some stage) outcome escapes =
    handle (record p { pending = none }) stage outcome escapes

unfoldable pub step : Probe → Event → Probe
step p (completes outcome escapes) = step_stage p p.pending outcome escapes
step p expires =
    if p.armed then guarded (record p { armed = false }) (on_timer elapsed) false else p
step p (wakes error) = if p.armed then p else guarded p (on_timer error) false
step p cancels = cancel p

unfoldable pub run : Probe → List Event → Probe
run p [] = p
run p (e ∷ es) = run (step p e) es
