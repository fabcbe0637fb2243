-- ===== src/Server/Signals.antt =====
-- ShutdownSignalState of src/http_server_internal.hpp.
use c_item.Base.{
  ℕ, ◌+◌, ◌≤◌, ◌≡◌, Bool, true, false, List, [], ◌∷◌, arith, ◌&&◌, ◌||◌, not, if◌then◌else◌,
}
use c_item.Server.{ErrorCode, success, failed, is_aborted}

pub data ShutdownSignalDisposition : Type 0 where
  begin_drain force_stop ignored fatal : ShutdownSignalDisposition

pub record ShutdownSignalState : Type 0 where
  pub draining : Bool
  pub force_requested : Bool
  pub completed : Bool

abbrev pub initial : ShutdownSignalState
initial = record { draining = false; force_requested = false; completed = false }

unfoldable pub on_wait_completion :
    ShutdownSignalState → ErrorCode → ShutdownSignalState × ShutdownSignalDisposition
on_wait_completion s error =
    if failed error
    then (s, if s.completed && is_aborted error then ignored else fatal)
    else if s.completed || s.force_requested
    then (s, ignored)
    else if not s.draining
    then (record s { draining = true }, begin_drain)
    else (record s { force_requested = true }, force_stop)

unfoldable pub mark_completed : ShutdownSignalState → ShutdownSignalState
mark_completed s = record s { completed = true }

pub data Event : Type 0 where
  waits : ErrorCode → Event
  completes : Event

abbrev pub is_drain : ShutdownSignalDisposition → ℕ
is_drain begin_drain = 1
is_drain _ = 0

abbrev pub is_force : ShutdownSignalDisposition → ℕ
is_force force_stop = 1
is_force _ = 0

-- How many times a history begins a drain, and how many times it forces the stop.
unfoldable pub run : ShutdownSignalState → List Event → ShutdownSignalState × ℕ × ℕ
run s [] = (s, 0, 0)
run s (completes ∷ es) = run (mark_completed s) es
run s (waits error ∷ es) =
    let (s', d) = on_wait_completion s error in
    let (s'', drains, forces) = run s' es in (s'', is_drain d + drains, is_force d + forces)

abbrev flag : Bool → ℕ
flag true = 1
flag false = 0

on_wait_completion_counts :
    (s : ShutdownSignalState) (error : ErrorCode)
    → let (s', d) = on_wait_completion s error in
      (flag s'.draining ≡ flag s.draining + is_drain d)
      × (flag s'.force_requested ≡ flag s.force_requested + is_force d)
      × ((s.force_requested ≡ true → s.draining ≡ true)
          → s'.force_requested ≡ true
          → s'.draining ≡ true)
unfolding on_wait_completion
on_wait_completion_counts s error = ground arith

run_counts :
    (s : ShutdownSignalState) (es : List Event)
    → (s.force_requested ≡ true → s.draining ≡ true)
    → let (s', drains, forces) = run s es in
      (flag s'.draining ≡ flag s.draining + drains)
      × (flag s'.force_requested ≡ flag s.force_requested + forces)
      × (s'.force_requested ≡ true → s'.draining ≡ true)
unfolding run mark_completed
run_counts s [] h = (omega arith, omega arith, h)
run_counts s (completes ∷ es) h = run_counts (mark_completed s) es h
run_counts s (waits error ∷ es) h =
    let (a, b, c) = on_wait_completion_counts s error in
    let (a', b', c') = run_counts (on_wait_completion s error).0 es (c h) in
    (omega (arith, a, a'), omega (arith, b, b'), c')

-- Whatever signals and errors arrive, a drain begins at most once and a forced stop is asked for at
-- most once, and never without a drain before it.
pub signals_once :
    (es : List Event) → let (_, drains, forces) = run initial es in (drains ≤ 1) × (forces ≤ drains)
signals_once es = ground (arith, run_counts initial es (λ e. cc))

-- Two signals in a row begin a drain and then force the stop; after completion a signal, or the
-- cancellation of the wait, is ignored, and any other error is fatal.
pub on_wait_completion_cases :
    (error : ErrorCode)
    → ((on_wait_completion initial success).1 ≡ begin_drain)
      × ((on_wait_completion (on_wait_completion initial success).0 success).1 ≡ force_stop)
      × ((on_wait_completion (mark_completed initial) error).1
          ≡ (if not (failed error) || is_aborted error then ignored else fatal))
unfolding on_wait_completion mark_completed
on_wait_completion_cases error = ground arith
