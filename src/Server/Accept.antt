-- ===== src/Server/Accept.antt =====
-- AcceptCapacityState of src/http_server_internal.hpp and src/http_server.cpp, and the calls that
-- the server makes of it.
use c_item.Base.{
  ℕ, ◌+◌, ◌-◌, ◌≤◌, ◌<◌, ◌≡◌, ◌↔◌, refl, ◌∙◌, Bool, true, false, arith, ◌&&◌, ◌||◌, not, ltb, leb,
  if◌then◌else◌,
}

pub data AcceptCapacityAction : Type 0 where
  nothing start_accept pause resume_and_start : AcceptCapacityAction

pub record AcceptCapacityState : Type 0 where
  pub max_connections : ℕ
  pub active_connections : ℕ
  pub accept_pending : Bool
  pub retry_pending : Bool
  pub paused : Bool
  pub stopped : Bool

abbrev pub make_capacity : ℕ → AcceptCapacityState
make_capacity n = record {
  max_connections = n;
  active_connections = 0;
  accept_pending = false;
  retry_pending = false;
  paused = false;
  stopped = false;
}

unfoldable pub next_action : AcceptCapacityState → AcceptCapacityState × AcceptCapacityAction
next_action s =
    if s.stopped || s.accept_pending || s.retry_pending
    then (s, nothing)
    else if leb s.max_connections s.active_connections
    then (if s.paused then (s, nothing) else (record s { paused = true }, pause))
    else if s.paused
    then (record s { accept_pending = true; paused = false }, resume_and_start)
    else (record s { accept_pending = true }, start_accept)

unfoldable pub accept_completed : AcceptCapacityState → AcceptCapacityState
accept_completed s = record s { accept_pending = false }

unfoldable pub retry_scheduled : AcceptCapacityState → AcceptCapacityState
retry_scheduled s = record s { retry_pending = true }

unfoldable pub retry_completed : AcceptCapacityState → AcceptCapacityState
retry_completed s = record s { retry_pending = false }

unfoldable pub session_started : AcceptCapacityState → AcceptCapacityState
session_started s = record s { active_connections = s.active_connections + 1 }

unfoldable pub session_finished : AcceptCapacityState → AcceptCapacityState
session_finished s =
    if ltb 0 s.active_connections
    then record s { active_connections = s.active_connections - 1 }
    else s

unfoldable pub stop : AcceptCapacityState → AcceptCapacityState
stop s = record s { stopped = true }

abbrev pub starts : AcceptCapacityAction → Bool
starts start_accept = true
starts resume_and_start = true
starts _ = false

-- What can happen to the server's accepting. An accept or a retry completes only while one is
-- outstanding, and a session starts only from an accept that has just succeeded.
pub data Step : AcceptCapacityState → AcceptCapacityState → Type 0 where
  drives : (s : AcceptCapacityState) → Step s (next_action s).0
  accepts :
      (s : AcceptCapacityState)
      → s.accept_pending ≡ true
      → Step s (session_started (accept_completed s))
  accept_fails :
      (s : AcceptCapacityState)
      → s.accept_pending ≡ true
      → Step s (retry_scheduled (accept_completed s))
  accept_ends : (s : AcceptCapacityState) → s.accept_pending ≡ true → Step s (accept_completed s)
  retries : (s : AcceptCapacityState) → s.retry_pending ≡ true → Step s (retry_completed s)
  closes : (s : AcceptCapacityState) → Step s (session_finished s)
  stops : (s : AcceptCapacityState) → Step s (stop s)

pub data Reach (s : AcceptCapacityState) : AcceptCapacityState → Type 0 where
  here : Reach s s
  next : {t u : AcceptCapacityState} → Reach s t → Step t u → Reach s u

abbrev pending_one : Bool → ℕ
pending_one true = 1
pending_one false = 0

-- The connections, with the one that an outstanding accept may still add, fit the limit; and an
-- accept and a retry are never outstanding together.
pub record Safe (s : AcceptCapacityState) : Type 0 where
  pub room : s.active_connections + pending_one s.accept_pending ≤ s.max_connections
  pub alone : s.accept_pending ≡ true → s.retry_pending ≡ false
  pub resting : s.paused ≡ true → (s.accept_pending ≡ false) × (s.retry_pending ≡ false)

Step-Safe : {s t : AcceptCapacityState} → Step s t → Safe s → Safe t
Step-Safe (drives s) v = unfold next_action in ground arith
Step-Safe (accepts s e) v = unfold session_started accept_completed in ground arith
Step-Safe (accept_fails s e) v = unfold retry_scheduled accept_completed in ground arith
Step-Safe (accept_ends s e) v = unfold accept_completed in ground arith
Step-Safe (retries s e) v = unfold retry_completed in ground arith
Step-Safe (closes s) v = unfold session_finished in ground arith
Step-Safe (stops s) v = unfold stop in ground arith

make_capacity-Safe : (n : ℕ) → Safe (make_capacity n)
make_capacity-Safe n = ground arith

Step-max : {s t : AcceptCapacityState} → Step s t → t.max_connections ≡ s.max_connections
Step-max (drives s) = unfold next_action in ground arith
Step-max (accepts s e) = unfold session_started accept_completed in refl
Step-max (accept_fails s e) = unfold retry_scheduled accept_completed in refl
Step-max (accept_ends s e) = unfold accept_completed in refl
Step-max (retries s e) = unfold retry_completed in refl
Step-max (closes s) = unfold session_finished in ground arith
Step-max (stops s) = unfold stop in refl

Reach-Safe :
    {s t : AcceptCapacityState}
    → Safe s
    → Reach s t
    → Safe t × (t.max_connections ≡ s.max_connections)
Reach-Safe v here = (v, refl)
Reach-Safe v (next r st) = let (v', e) = Reach-Safe v r in (Step-Safe st v', Step-max st ∙ e)

-- Whatever the order of accepts, failures, retries, closings and a stop, a server that starts with
-- a limit never has more connections than that limit, counting the one that an outstanding accept
-- may bring, and never has an accept and a retry outstanding together.
pub capacity_respected :
    (n : ℕ) {t : AcceptCapacityState}
    → Reach (make_capacity n) t
    → (t.active_connections + pending_one t.accept_pending ≤ n)
      × ((t.accept_pending && t.retry_pending) ≡ false)
capacity_respected n {t} r =
    let (v, e) = Reach-Safe (make_capacity-Safe n) r in (omega (arith, v, e), ground arith)

-- When nothing is outstanding and the server is not stopped, the next call starts an accept exactly
-- when there is room; without room it pauses, and says so once.
pub next_action_cases :
    (s : AcceptCapacityState)
    → s.stopped ≡ false
    → s.accept_pending ≡ false
    → s.retry_pending ≡ false
    → let (t, action) = next_action s in
      ((starts action ≡ true) ↔ (s.active_connections < s.max_connections))
      × (t.accept_pending ≡ starts action)
      × ((action ≡ pause) ↔ ((s.max_connections ≤ s.active_connections) × (s.paused ≡ false)))
      × (t.paused ≡ not (starts action))
unfolding next_action
next_action_cases s p q r = ground arith
