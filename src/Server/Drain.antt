-- ===== src/Server/Drain.antt =====
-- DrainState of src/http_server_internal.hpp and src/http_server.cpp. The session count is a
-- std::size_t, unbounded here.
use c_item.Base.{
  ℕ, zero, suc, ◌+◌, ◌-◌, ◌≤◌, ◌<◌, ◌≡◌, ◌↔◌, refl, ap, ◌∙◌, ◌⊎◌, Bool, true, false, List, [], ◌∷◌,
  arith, ◌&&◌, ◌||◌, not, ◌==◌, if◌then◌else◌,
}
use c_item.Server.{ServerDrainPhase, running, draining, force_stopping, is_draining}

pub data DrainStartResult : Type 0 where
  unchanged started completed : DrainStartResult

pub record DrainState : Type 0 where
  pub phase : ServerDrainPhase
  pub active_sessions : ℕ

abbrev pub initial : DrainState
initial = record { phase = running; active_sessions = 0 }

abbrev pub is_running : ServerDrainPhase → Bool
is_running running = true
is_running _ = false

abbrev is_force_stopping : ServerDrainPhase → Bool
is_force_stopping force_stopping = true
is_force_stopping _ = false

abbrev pub is_completed : ServerDrainPhase → Bool
is_completed ServerDrainPhase.completed = true
is_completed _ = false

unfoldable pub session_started : DrainState → DrainState
session_started s =
    if is_running s.phase then record s { active_sessions = s.active_sessions + 1 } else s

unfoldable pub session_finished : DrainState → DrainState × Bool
session_finished s =
    let left = s.active_sessions - 1 in
    if s.active_sessions == 0
    then (s, false)
    else if left == 0 && (is_draining s.phase || is_force_stopping s.phase)
    then (record { phase = ServerDrainPhase.completed; active_sessions = left }, true)
    else (record s { active_sessions = left }, false)

unfoldable pub transition_to : DrainState → ServerDrainPhase → DrainState × DrainStartResult
transition_to s phase =
    if s.active_sessions == 0
    then (record s { phase = ServerDrainPhase.completed }, DrainStartResult.completed)
    else (record s { phase = phase }, started)

unfoldable pub begin_drain : DrainState → DrainState × DrainStartResult
unfolding transition_to
begin_drain s = if not (is_running s.phase) then (s, unchanged) else transition_to s draining

unfoldable pub begin_force_stop : DrainState → DrainState × DrainStartResult
unfolding transition_to
begin_force_stop s =
    if is_force_stopping s.phase || is_completed s.phase
    then (s, unchanged)
    else transition_to s force_stopping

pub data Event : Type 0 where
  starts finishes drains forces : Event

-- A completion that an event announces: at most one in the life of a server.
abbrev announces : Bool → ℕ
announces true = 1
announces false = 0

abbrev announced : DrainStartResult → ℕ
announced DrainStartResult.completed = 1
announced _ = 0

unfoldable pub step : DrainState → Event → DrainState × ℕ
unfolding session_started session_finished begin_drain begin_force_stop
step s starts = (session_started s, 0)
step s finishes = let (s', done) = session_finished s in (s', announces done)
step s drains = let (s', r) = begin_drain s in (s', announced r)
step s forces = let (s', r) = begin_force_stop s in (s', announced r)

-- The state after a history, and how many completions it announced.
unfoldable pub run : DrainState → List Event → DrainState × ℕ
run s [] = (s, 0)
run s (e ∷ es) = let (s', n) = step s e in let (s'', m) = run s' es in (s'', n + m)

-- While it drains there is a session to wait for; when it has completed there is none.
pub record IsValid (s : DrainState) : Type 0 where
  pub waiting : (s.phase ≡ draining) ⊎ (s.phase ≡ force_stopping) → 0 < s.active_sessions
  pub done : s.phase ≡ ServerDrainPhase.completed → s.active_sessions ≡ 0

-- Every call keeps the invariant.
pub step-IsValid : (s : DrainState) (e : Event) → IsValid s → IsValid (step s e).0
unfolding step
step-IsValid s starts v = ground arith
step-IsValid s finishes v = ground arith
step-IsValid s drains v = ground arith
step-IsValid s forces v = ground arith

abbrev finished_count : DrainState → ℕ
finished_count s = if is_completed s.phase then 1 else 0

step_announces :
    (s : DrainState) (e : Event) → finished_count (step s e).0 ≡ finished_count s + (step s e).1
unfolding step
step_announces s starts = ground arith
step_announces s finishes = ground arith
step_announces s drains = ground arith
step_announces s forces = ground arith

run_announces :
    (s : DrainState) (es : List Event)
    → finished_count (run s es).0 ≡ finished_count s + (run s es).1
unfolding run
run_announces s [] = omega arith
run_announces s (e ∷ es) = omega (arith, step_announces s e, run_announces (step s e).0 es)

-- Over any history the completion of the drain is announced at most once, and it is announced
-- exactly in the histories that end completed.
pub completion_once :
    (es : List Event)
    → ((run initial es).1 ≤ 1)
      × (((run initial es).1 ≡ 1) ↔ ((run initial es).0.phase ≡ ServerDrainPhase.completed))
completion_once es = ground (arith, run_announces initial es)

run-IsValid : (s : DrainState) (es : List Event) → IsValid s → IsValid (run s es).0
unfolding run
run-IsValid s [] v = v
run-IsValid s (e ∷ es) v = run-IsValid (step s e).0 es (step-IsValid s e v)

abbrev pub finish_all : ℕ → List Event
finish_all zero = []
finish_all (suc n) = finishes ∷ finish_all n

step_finishes :
    (s : DrainState) (n : ℕ)
    → s.active_sessions ≡ suc (suc n)
    → step s finishes ≡ (record s { active_sessions = suc n }, 0)
unfolding step
step_finishes s n e = ground arith

-- A silent step is skipped.
run_silent :
    (s t : DrainState) (e : Event) (es : List Event)
    → step s e ≡ (t, 0)
    → ((run s (e ∷ es)).0 ≡ (run t es).0) × ((run s (e ∷ es)).1 ≡ (run t es).1)
unfolding run
run_silent s t e es q =
    let state : (step s e).0 ≡ t = ap (λ (p : DrainState × ℕ). p.0) q in
    let none_said : (step s e).1 ≡ 0 = ap (λ (p : DrainState × ℕ). p.1) q in
    (
      ap (λ (x : DrainState). (run x es).0) state,
      omega (arith, none_said, ap (λ (x : DrainState). (run x es).1) state),
    )

-- A server that drains, gently or by force, completes as soon as its last session has finished,
-- and not before.
pub drain_completes :
    (n : ℕ) (s : DrainState)
    → (s.phase ≡ draining) ⊎ (s.phase ≡ force_stopping)
    → s.active_sessions ≡ suc n
    → ((run s (finish_all n)).0.phase ≡ s.phase)
      × ((run s (finish_all (suc n))).0.phase ≡ ServerDrainPhase.completed)
      × ((run s (finish_all (suc n))).1 ≡ 1)
unfolding run
drain_completes zero s h e = unfold step in (refl, ground arith, ground arith)
drain_completes (suc n) s h e =
    let t : DrainState = record s { active_sessions = suc n } in
    let (phase, complete, once) = drain_completes n t h refl in
    let (a, b) = run_silent s t finishes (finish_all n) (step_finishes s n e) in
    let (c, d) = run_silent s t finishes (finish_all (suc n)) (step_finishes s n e) in
    (
      ap (λ (x : DrainState). x.phase) a ∙ phase,
      ap (λ (x : DrainState). x.phase) c ∙ complete,
      d ∙ once,
    )
