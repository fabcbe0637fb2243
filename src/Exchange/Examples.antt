-- ===== src/Exchange/Examples.antt =====
-- An exchange that returns its connection to the pool, and the theorems at concrete inputs.
use c_item.Base.{true, false, none, some, List, [], ◌∷◌, ◌≡◌, refl}
use c_item.Budget.{plan_body_reservation}
use c_item.Server.{claim}
use c_item.Exchange.{
  Exchange, Arguments, fresh_exchange, make_exchange, emit, cancelled_waits, begin_deadline,
  finish_deadline, complete, call_completion, give_back, finish_response, responds, puts_back,
}
use c_item.Exchange.Invariant.{Ended}
use c_item.Exchange.Kept.{IsSound}
use c_item.Exchange.Handlers.{
  Header, write_request, start, on_resolve, on_connect, on_write, follow_plan, on_read_header,
  resolved, connected, written, header_read, Event, completes, expires, wakes, cancels, handle,
  answers, run_operation, step_operation, step, run,
}
use c_item.Exchange.Runs.{exchange-IsSound, ended_exchange_rests, deadline_ends}

abbrev no_content : Header
no_content = record {
  status = 204;
  content_length = none;
  is_done = true;
  has_upgrade = false;
  http11 = true;
  available = 1000;
  granted = true;
  reusable = true;
}

-- Until the request is written.
abbrev first_events : List Event
first_events =
    completes (resolved false) false false ∷ completes (connected false true) false false ∷ []

abbrev all_events : List Event
all_events =
    completes (resolved false) false false
    ∷ completes (connected false true) false false
    ∷ completes (written false) false false
    ∷ completes (header_read none no_content) false false
    ∷ []

abbrev arguments : Arguments
arguments = record {
  pooled = true;
  secure = false;
  streaming = false;
  reused = false;
  makes_connection = true;
  has_budget = true;
  has_on_complete = true;
  has_on_abort = true;
  has_header = false;
  has_body = false;
  has_finish = false;
}

abbrev fresh : Exchange
fresh = fresh_exchange true false false false

fresh_made : make_exchange arguments ≡ some fresh
unfolding make_exchange
fresh_made = refl

abbrev started : Exchange
started = start fresh

puts_connection_back : (run started all_events).log ≡ responds none ∷ puts_back ∷ []
unfolding run step step_operation run_operation answers handle on_resolve on_connect on_write
    on_read_header plan_body_reservation follow_plan write_request start finish_response give_back
    complete call_completion claim emit begin_deadline finish_deadline cancelled_waits
puts_connection_back = refl

ends : (run started all_events).claimed ≡ true
unfolding run step step_operation run_operation answers handle on_resolve on_connect on_write
    on_read_header plan_body_reservation follow_plan write_request start finish_response give_back
    complete call_completion claim emit begin_deadline finish_deadline cancelled_waits
ends = refl

runs_on : (run started first_events).claimed ≡ false
unfolding run step step_operation run_operation answers handle on_resolve on_connect write_request
    start begin_deadline finish_deadline cancelled_waits
runs_on = refl

exchange-IsSound_example : IsSound (run started all_events)
exchange-IsSound_example = exchange-IsSound arguments fresh all_events fresh_made

ended_exchange_rests_example :
    (run (run started all_events) (cancels ∷ wakes 0 false false ∷ [])).log
    ≡ (run started all_events).log
ended_exchange_rests_example =
    ended_exchange_rests arguments fresh all_events (cancels ∷ wakes 0 false false ∷ []) fresh_made
      ends

deadline_ends_example : Ended (step (run started first_events) (expires false))
deadline_ends_example = deadline_ends arguments fresh first_events false fresh_made runs_on
