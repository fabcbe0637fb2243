-- ===== src/Exchange/Invariant.antt =====
-- An exchange is either alive, with an operation and a deadline running, or ended for good.
use c_item.Base.{
  ℕ, ◌+◌, ◌≤◌, ◌≡◌, Bool, true, false, Option, none, some, List, [], ◌∷◌, is_some, arith, refl,
  if_lem,
}
use c_item.Metrics.{ProxyFailureStage}
use c_item.Server.{claim}
use c_item.Exchange.{
  Exchange, Effect, responds, fails_with, rejects, finishes, aborts, puts_back, closes, held, emit,
  begin_deadline, finish_deadline, close_lease, close_upstream, cancel_operations, notify_abort,
  call_completion, complete, complete_stream, fail, reject_buffer_budget, give_back,
  finish_response, finish_stream, after_escape, cancel,
}

-- The reports of an end, and the ends of a connection.
abbrev pub completes_one : Effect → ℕ
completes_one (responds b) = 1
completes_one (fails_with f) = 1
completes_one (rejects n) = 1
completes_one (finishes f d) = 1
completes_one _ = 0

abbrev pub aborts_one : Effect → ℕ
aborts_one aborts = 1
aborts_one _ = 0

abbrev pub releases_one : Effect → ℕ
releases_one puts_back = 1
releases_one closes = 1
releases_one _ = 0

unfoldable pub total : (Effect → ℕ) → List Effect → ℕ
total f [] = 0
total f (e ∷ es) = f e + total f es

-- While a handler runs.
pub record Running (s : Exchange) : Type 0 where
  pub unobserved : s.completion_observed ≡ false
  pub unclaimed : s.claimed ≡ false
  pub can_complete : s.on_complete ≡ true
  pub can_abort : s.on_abort ≡ true
  pub holds : s.lease ≡ held
  pub not_completed : total completes_one s.log ≡ 0
  pub not_aborted : total aborts_one s.log ≡ 0
  pub not_released : total releases_one s.log ≡ 0

pub record Alive (s : Exchange) : Type 0 where
  pub running : Running s
  pub deadline : s.armed ≡ true
  pub waits : is_some s.pending ≡ true

pub record Ended (s : Exchange) : Type 0 where
  pub observed : s.completion_observed ≡ true
  pub taken : s.claimed ≡ true
  pub disarmed : s.armed ≡ false
  pub no_complete : s.on_complete ≡ false
  pub no_abort : s.on_abort ≡ false
  pub completed_once : total completes_one s.log ≤ 1
  pub aborted_once : total aborts_one s.log ≤ 1
  pub released_once : total releases_one s.log ≡ 1

pub begin_deadline-Running : (s : Exchange) → Running s → Running (begin_deadline s)
unfolding begin_deadline
begin_deadline-Running s r = ground arith

pub finish_deadline-Running : (s : Exchange) → Running s → Running (finish_deadline s)
unfolding finish_deadline
finish_deadline-Running s r = ground arith

-- Between the cancellation and the claim.
record Stopped (s : Exchange) : Type 0 where
  unclaimed : s.claimed ≡ false
  disarmed : s.armed ≡ false
  can_complete : s.on_complete ≡ true
  can_abort : s.on_abort ≡ true
  not_completed : total completes_one s.log ≡ 0
  not_aborted : total aborts_one s.log ≡ 0
  released : total releases_one s.log ≡ 1

cancel_operations-Stopped : (s : Exchange) → Running s → Stopped (cancel_operations s)
unfolding cancel_operations close_upstream close_lease emit total
cancel_operations-Stopped s r = ground arith

complete-Ended :
    (s : Exchange) (e : Effect) (throws : Bool)
    → completes_one e ≡ 1
    → aborts_one e ≡ 0
    → releases_one e ≡ 0
    → Stopped s
    → Ended (complete s e throws)
unfolding complete claim call_completion notify_abort emit total
complete-Ended s e throws c a l r = ground arith

complete_stream-Ended :
    (s : Exchange) (f : Option ProxyFailureStage) (d throws : Bool)
    → Stopped s
    → Ended (complete_stream s f d throws)
unfolding complete_stream claim call_completion notify_abort emit total
complete_stream-Ended s f d throws r = ground arith

pub fail-Ended :
    (s : Exchange) (stage : ProxyFailureStage) (throws : Bool)
    → Running s
    → Ended (fail s stage throws)
unfolding fail
fail-Ended s stage throws r =
    let stopped = cancel_operations-Stopped (finish_deadline s) (finish_deadline-Running s r) in
    simp r.unobserved (
      if_lem Ended s.stream_started (complete_stream-Ended _ (some stage) false throws stopped)
        (complete-Ended _ (fails_with stage) throws refl refl refl stopped))

pub reject_buffer_budget-Ended :
    (s : Exchange) (n : ℕ) (throws : Bool) → Running s → Ended (reject_buffer_budget s n throws)
unfolding reject_buffer_budget
reject_buffer_budget-Ended s n throws r =
    complete-Ended _ (rejects n) throws refl refl refl (cancel_operations-Stopped s r)

give_back-Stopped : (s : Exchange) (reusable : Bool) → Running s → Stopped (give_back s reusable)
unfolding give_back finish_deadline close_upstream close_lease emit total
give_back-Stopped s reusable r = ground arith

pub finish_response-Ended :
    (s : Exchange) (reusable throws : Bool) → Running s → Ended (finish_response s reusable throws)
unfolding finish_response
finish_response-Ended s reusable throws r =
    let stopped = give_back-Stopped s reusable r in
    complete-Ended _ (responds s.body_permit) throws refl refl refl (record {
      unclaimed = stopped.unclaimed;
      disarmed = stopped.disarmed;
      can_complete = stopped.can_complete;
      can_abort = stopped.can_abort;
      not_completed = stopped.not_completed;
      not_aborted = stopped.not_aborted;
      released = stopped.released;
    })

pub finish_stream-Ended :
    (s : Exchange) (reusable throws : Bool) → Running s → Ended (finish_stream s reusable throws)
unfolding finish_stream
finish_stream-Ended s reusable throws r =
    complete_stream-Ended _ none false throws (give_back-Stopped s reusable r)

pub downstream_failed-Ended :
    (s : Exchange) (throws : Bool)
    → Running s
    → Ended (complete_stream (cancel_operations s) none true throws)
downstream_failed-Ended s throws r =
    complete_stream-Ended _ none true throws (cancel_operations-Stopped s r)

-- An exception that leaves a handler ends an exchange that is alive.
pub after_escape-Ended : (s : Exchange) → Running s → Ended (after_escape s)
unfolding after_escape claim notify_abort cancel_operations close_upstream close_lease emit total
after_escape-Ended s r = ground arith

pub after_escape-Ended_same : (s : Exchange) → Ended s → after_escape s ≡ s
unfolding after_escape claim
after_escape-Ended_same s v = ground arith

pub cancel-Ended : (s : Exchange) → Running s → Ended (cancel s)
unfolding cancel claim cancel_operations close_upstream close_lease emit total
cancel-Ended s r = ground arith

pub cancel-Ended_same : (s : Exchange) → Ended s → cancel s ≡ s
unfolding cancel claim
cancel-Ended_same s v = ground arith

pub fail-Ended_same :
    (s : Exchange) (stage : ProxyFailureStage) (throws : Bool) → Ended s → fail s stage throws ≡ s
unfolding fail
fail-Ended_same s stage throws v = ground arith
