-- ===== src/Exchange.antt =====
-- src/http_proxy.cpp, HttpProxyExchange::Impl: the state of one exchange with an upstream, its deadline
-- and its ends. The log lists what the outside has seen, the latest first.
pub mod Handlers
pub mod Invariant
pub mod Kept
pub mod Runs
mod Examples
use c_item.Base.{
  ℕ, ◌+◌, Bool, true, false, not, ◌&&◌, ◌||◌, Option, none, some, List, [], ◌∷◌, if◌then◌else◌, u64,
}
use c_item.Metrics.{ProxyFailureStage}
use c_item.Server.{claim}

-- The operation whose handler is still to come; the session's answer to a part of a streamed response
-- is one of them.
pub data Operation : Type 0 where
  resolving connecting handshaking writing reading_header reading_body reading_block : Operation
  resuming : (final : Bool) → Operation

-- How the header of a streamed response tells its end.
pub data Framing : Type 0 where
  sized : ℕ → Framing
  chunked until_close unframed : Framing

pub data Effect : Type 0 where
  -- The completion callback: a response, with the bytes that its body holds; a failure; a rejection.
  responds : Option ℕ → Effect
  fails_with : ProxyFailureStage → Effect
  rejects : ℕ → Effect
  -- The callbacks of a streamed response.
  sends_header : Framing → Bool → Effect
  sends_body : ℕ → Bool → Effect
  finishes : Option ProxyFailureStage → (downstream_failed : Bool) → Effect
  aborts : Effect
  puts_back closes : Effect

-- The connection: open, closed, or moved to the pool.
pub data Lease : Type 0 where
  held closed returned : Lease

-- `armed` is the wait on the deadline that has not been cancelled, with the current generation;
-- `stale` holds the generations of the cancelled waits, whose handlers are still to come.
pub record Exchange : Type 0 where
  pub pooled : Bool
  pub secure : Bool
  pub streaming : Bool
  pub reused : Bool
  pub lease : Lease
  pub pending : Option Operation
  pub deadline_generation : ℕ
  pub armed : Bool
  pub stale : List ℕ
  pub completion_observed : Bool
  pub claimed : Bool
  pub on_complete : Bool
  pub on_abort : Bool
  pub stream_started : Bool
  pub body_permit : Option ℕ
  pub log : List Effect

-- What the constructor is given: which of its arguments are there, whether the pool has a
-- connection, and whether a new one can be made.
pub record Arguments : Type 0 where
  pub pooled : Bool
  pub secure : Bool
  pub streaming : Bool
  pub reused : Bool
  pub makes_connection : Bool
  pub has_budget : Bool
  pub has_on_complete : Bool
  pub has_on_abort : Bool
  pub has_header : Bool
  pub has_body : Bool
  pub has_finish : Bool

-- std::invalid_argument, or the exception of a new connection.
abbrev refuses_arguments : Arguments → Bool
refuses_arguments a =
    not a.has_budget
    || not a.has_on_complete
    || not a.has_on_abort
    || a.streaming && (not a.has_header || not a.has_body || not a.has_finish)
    || not (a.pooled && a.reused) && not a.makes_connection

abbrev pub fresh_exchange : (pooled secure streaming reused : Bool) → Exchange
fresh_exchange pooled secure streaming reused = record {
  pooled = pooled;
  secure = secure;
  streaming = streaming;
  reused = pooled && reused;
  lease = held;
  pending = none;
  deadline_generation = 0;
  armed = false;
  stale = [];
  completion_observed = false;
  claimed = false;
  on_complete = true;
  on_abort = true;
  stream_started = false;
  body_permit = none;
  log = [];
}

unfoldable pub make_exchange : Arguments → Option Exchange
make_exchange a =
    if refuses_arguments a
    then none
    else some (fresh_exchange a.pooled a.secure a.streaming a.reused)

unfoldable pub emit : Exchange → Effect → Exchange
emit s e = record s { log = e ∷ s.log }

-- The waits behind a cancellation of the timer.
unfoldable pub cancelled_waits : Exchange → List ℕ
cancelled_waits s = if s.armed then s.deadline_generation ∷ s.stale else s.stale

unfoldable pub begin_deadline : Exchange → Exchange
begin_deadline s = record s {
  deadline_generation = u64 (s.deadline_generation + 1);
  armed = true;
  stale = cancelled_waits s;
}

unfoldable pub finish_deadline : Exchange → Exchange
finish_deadline s = record s {
  deadline_generation = u64 (s.deadline_generation + 1);
  armed = false;
  stale = cancelled_waits s;
}

unfoldable pub close_lease : Lease → Exchange → Exchange
close_lease returned s = s
close_lease _ s = emit (record s { lease = closed }) closes

unfoldable pub close_upstream : Exchange → Exchange
close_upstream s = close_lease s.lease s

unfoldable pub cancel_operations : Exchange → Exchange
cancel_operations s =
    close_upstream
      (record s { completion_observed = true; armed = false; stale = cancelled_waits s })

unfoldable pub notify_abort : Exchange → Exchange
notify_abort s =
    if s.on_abort
    then emit (record s { on_complete = false; on_abort = false }) aborts
    else record s { on_complete = false }

-- `throws` is whether the callback throws.
unfoldable pub call_completion : Exchange → Effect → (throws : Bool) → Exchange
call_completion s result throws =
    let called = emit (record s { on_complete = false }) result in
    if throws then notify_abort called else record called { on_abort = false }

unfoldable pub complete : Exchange → Effect → Bool → Exchange
unfolding claim
complete s result throws =
    let (state, first) = claim s.claimed in
    let observed = record s { claimed = state; completion_observed = true } in
    if first
    then if s.on_complete then call_completion observed result throws else notify_abort observed
    else s

unfoldable pub complete_stream : Exchange → Option ProxyFailureStage → Bool → Bool → Exchange
unfolding claim
complete_stream s failure downstream_failed throws =
    let (state, first) = claim s.claimed in
    let observed = record s { claimed = state; completion_observed = true } in
    if first then call_completion observed (finishes failure downstream_failed) throws else s

unfoldable pub fail : Exchange → ProxyFailureStage → Bool → Exchange
fail s stage throws =
    let stopped = cancel_operations (finish_deadline s) in
    if s.completion_observed
    then s
    else if s.stream_started
    then complete_stream stopped (some stage) false throws
    else complete stopped (fails_with stage) throws

unfoldable pub reject_buffer_budget : Exchange → ℕ → Bool → Exchange
reject_buffer_budget s requested_bytes throws =
    complete (cancel_operations s) (rejects requested_bytes) throws

-- The connection goes back to the pool or is closed; `reusable` is what the parser, the buffer and
-- the connection say of it.
unfoldable pub give_back : Exchange → (reusable : Bool) → Exchange
give_back s reusable =
    let stopped = finish_deadline s in
    if s.pooled && reusable
    then emit (record stopped { lease = returned }) puts_back
    else close_upstream stopped

unfoldable pub finish_response : Exchange → (reusable throws : Bool) → Exchange
finish_response s reusable throws =
    let given = give_back s reusable in
    complete (record given { body_permit = none }) (responds s.body_permit) throws

unfoldable pub finish_stream : Exchange → (reusable throws : Bool) → Exchange
finish_stream s reusable throws = complete_stream (give_back s reusable) none false throws

-- The end of a handler that has thrown.
unfoldable pub after_escape : Exchange → Exchange
unfolding claim
after_escape s =
    let (state, first) = claim s.claimed in
    if first then notify_abort (cancel_operations (record s { claimed = state })) else s

unfoldable pub cancel : Exchange → Exchange
unfolding claim
cancel s =
    let (state, first) = claim s.claimed in
    if first
    then cancel_operations (record s { claimed = state; on_complete = false; on_abort = false })
    else s
