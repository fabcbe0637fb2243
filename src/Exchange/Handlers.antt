-- ===== src/Exchange/Handlers.antt =====
-- src/http_proxy.cpp, HttpProxyExchange::Impl: the handlers. What a handler learns from Asio, from the
-- parser and from the budget comes with its event.
use c_item.Base.{
  ℕ, Bool, true, false, not, ◌&&◌, ◌||◌, Option, none, some, List, [], ◌∷◌, if◌then◌else◌, ltb,
  ◌==◌, min, take, drop, ◌++◌, suc, get_elem?,
}
use c_item.Metrics.{ProxyFailureStage}
use c_item.Budget.{BodyReservationKind, plan_body_reservation, nothing, too_large, reserve}
use c_item.Exchange.{
  Exchange, Operation, resolving, connecting, handshaking, writing, reading_header, reading_body,
  reading_block, resuming, Framing, sized, chunked, until_close, unframed, sends_header, sends_body,
  emit, begin_deadline, finish_deadline, cancel_operations, complete_stream, fail,
  reject_buffer_budget, finish_response, finish_stream, after_escape, cancel,
}

abbrev pub max_upstream_body_bytes : ℕ
max_upstream_body_bytes = 1048576

-- What the parser knows behind a header, what the budget has left, whether it grants the bytes, and
-- whether the connection could be used again.
pub record Header : Type 0 where
  pub status : ℕ
  pub content_length : Option ℕ
  pub is_done : Bool
  pub has_upgrade : Bool
  pub http11 : Bool
  pub available : ℕ
  pub granted : Bool
  pub reusable : Bool

-- An error of a read; one of them is the parser's limit.
pub data ReadError : Type 0 where
  body_limit other_error : ReadError

abbrev pub read_stage : ReadError → ProxyFailureStage
read_stage body_limit = ProxyFailureStage.response_too_large
read_stage other_error = ProxyFailureStage.read

abbrev pub waiting : Exchange → Operation → Exchange
waiting s operation = record s { pending = some operation }

unfoldable pub write_request : Exchange → Exchange
write_request s = waiting (begin_deadline s) writing

unfoldable pub start : Exchange → Exchange
start s = if s.reused then write_request s else waiting (begin_deadline s) resolving

unfoldable pub on_resolve : Exchange → (error throws : Bool) → Exchange
on_resolve s error throws =
    if s.completion_observed
    then s
    else if error
    then fail (finish_deadline s) ProxyFailureStage.resolve throws
    else waiting (begin_deadline (finish_deadline s)) connecting

-- `identity` is what configure_upstream_tls_identity returns.
unfoldable pub on_connect : Exchange → (error identity throws : Bool) → Exchange
on_connect s error identity throws =
    if s.completion_observed
    then s
    else if error
    then fail (finish_deadline s) ProxyFailureStage.connect throws
    else if not s.secure
    then write_request (finish_deadline s)
    else if identity
    then waiting (begin_deadline (finish_deadline s)) handshaking
    else fail (finish_deadline s) ProxyFailureStage.handshake throws

unfoldable pub on_handshake : Exchange → (error throws : Bool) → Exchange
on_handshake s error throws =
    if s.completion_observed
    then s
    else if error
    then fail (finish_deadline s) ProxyFailureStage.handshake throws
    else write_request (finish_deadline s)

unfoldable pub on_write : Exchange → (error throws : Bool) → Exchange
on_write s error throws =
    if s.completion_observed
    then s
    else if error
    then fail (finish_deadline s) ProxyFailureStage.write throws
    else waiting (begin_deadline (finish_deadline s)) reading_header

-- The reservation of a streamed response's block.
unfoldable pub block_bytes : Header → ℕ
block_bytes h = min 16384 h.available

abbrev pub has_body : ℕ → Bool
has_body status = not (status == 204 || status == 304)

-- The framing of the header to the client.
unfoldable pub stream_framing : Header → Framing
stream_framing h =
    if h.is_done then (if has_body h.status then sized 0 else unframed) else elim h.content_length [
      | none ↦ if h.http11 then chunked else until_close
      | some length ↦ sized length
    ]

unfoldable pub send_header : Exchange → Header → Exchange
send_header s h =
    waiting
      (emit
        (record s {
          stream_started = true;
          body_permit = if h.is_done then none else some (block_bytes h);
        })
        (sends_header (stream_framing h) h.is_done))
      (resuming h.is_done)

abbrev pub above : Option ℕ → ℕ → Bool
above none limit = false
above (some n) limit = ltb limit n

unfoldable pub start_stream : Exchange → Header → (throws : Bool) → Exchange
start_stream s h throws =
    if ltb h.status 200 || h.has_upgrade
    then fail s ProxyFailureStage.invalid_response throws
    else if above h.content_length max_upstream_body_bytes
    then fail s ProxyFailureStage.response_too_large throws
    else if not h.is_done && (block_bytes h == 0 || not h.granted)
    then reject_buffer_budget s 1 throws
    else send_header s h

-- The plan for the body of a response that is not streamed: its kind and its bytes.
unfoldable pub follow_plan :
    Exchange → Header → BodyReservationKind → ℕ → (throws : Bool) → Exchange
follow_plan s h too_large bytes throws =
    fail (finish_deadline s) ProxyFailureStage.response_too_large throws
follow_plan s h nothing bytes throws = finish_response (finish_deadline s) h.reusable throws
follow_plan s h reserve bytes throws =
    if h.granted
    then waiting (record s { body_permit = some bytes }) reading_body
    else reject_buffer_budget (finish_deadline s) bytes throws

unfoldable pub on_read_header : Exchange → Option ReadError → Header → (throws : Bool) → Exchange
on_read_header s (some error) h throws =
    if s.completion_observed then s else fail (finish_deadline s) (read_stage error) throws
on_read_header s none h throws =
    let plan = plan_body_reservation h.content_length h.is_done max_upstream_body_bytes in
    if s.completion_observed
    then s
    else if s.streaming
    then start_stream s h throws
    else if ltb h.status 200
    then fail (finish_deadline s) ProxyFailureStage.invalid_response throws
    else follow_plan s h plan.kind plan.bytes throws

-- `fits` is whether shrink_to succeeds, for a body of `bytes`.
unfoldable pub on_read_body :
    Exchange → Option ReadError → (bytes : ℕ) → (fits reusable throws : Bool) → Exchange
on_read_body s (some error) bytes fits reusable throws =
    if s.completion_observed then s else fail (finish_deadline s) (read_stage error) throws
on_read_body s none bytes fits reusable throws =
    if s.completion_observed
    then s
    else if fits
    then finish_response (record (finish_deadline s) { body_permit = some bytes }) reusable throws
    else fail (finish_deadline s) ProxyFailureStage.read throws

unfoldable pub read_stream_block : Exchange → Exchange
read_stream_block s = waiting s reading_block

-- An error but need_buffer; `bytes` of the block have been filled.
unfoldable pub on_read_block :
    Exchange → Option ReadError → (bytes : ℕ) → (is_done throws : Bool) → Exchange
on_read_block s (some error) bytes is_done throws =
    if s.completion_observed then s else fail s (read_stage error) throws
on_read_block s none bytes is_done throws =
    if s.completion_observed
    then s
    else if bytes == 0 && not is_done
    then read_stream_block s
    else waiting (emit s (sends_body bytes is_done)) (resuming is_done)

-- The function that resume_stream makes.
unfoldable pub on_resume : Exchange → (final error reusable throws : Bool) → Exchange
on_resume s final error reusable throws =
    if s.completion_observed
    then s
    else if error
    then complete_stream (cancel_operations s) none true throws
    else if final
    then finish_stream s reusable throws
    else read_stream_block s

-- The handler of a wait on the deadline with its generation.
unfoldable pub on_deadline : Exchange → (generation : ℕ) → (error throws : Bool) → Exchange
on_deadline s generation error throws =
    if not error && generation == s.deadline_generation
    then fail s ProxyFailureStage.timeout throws
    else s

-- What the handler of the operation learns.
pub data Outcome : Type 0 where
  resolved handshaken written : (error : Bool) → Outcome
  connected : (error identity : Bool) → Outcome
  header_read : Option ReadError → Header → Outcome
  body_read : Option ReadError → ℕ → (fits reusable : Bool) → Outcome
  block_read : Option ReadError → ℕ → (is_done : Bool) → Outcome
  resumed : (error reusable : Bool) → Outcome

pub data Event : Type 0 where
  -- The handler of the pending operation; `escapes` is whether it throws where it would have started
  -- the next one.
  completes : Outcome → (throws escapes : Bool) → Event
  -- The wait that has not been cancelled ends: the deadline has passed.
  expires : (throws : Bool) → Event
  -- A cancelled wait ends, the one at an index; it may have ended before the cancellation.
  wakes : ℕ → (error throws : Bool) → Event
  cancels : Event

unfoldable pub handle : Exchange → Operation → Outcome → Bool → Exchange
handle s resolving (resolved error) throws = on_resolve s error throws
handle s connecting (connected error identity) throws = on_connect s error identity throws
handle s handshaking (handshaken error) throws = on_handshake s error throws
handle s writing (written error) throws = on_write s error throws
handle s reading_header (header_read error h) throws = on_read_header s error h throws
handle s reading_body (body_read error bytes fits reusable) throws =
    on_read_body s error bytes fits reusable throws
handle s reading_block (block_read error bytes is_done) throws =
    on_read_block s error bytes is_done throws
handle s (resuming final) (resumed error reusable) throws = on_resume s final error reusable throws
handle s operation outcome throws = s

-- An outcome is that of the operation; no other can come.
unfoldable pub answers : Operation → Outcome → Bool
answers resolving (resolved error) = true
answers connecting (connected error identity) = true
answers handshaking (handshaken error) = true
answers writing (written error) = true
answers reading_header (header_read error h) = true
answers reading_body (body_read error bytes fits reusable) = true
answers reading_block (block_read error bytes is_done) = true
answers (resuming final) (resumed error reusable) = true
answers operation outcome = false

-- run_handler around the handler of an operation.
unfoldable pub run_operation : Exchange → Operation → Outcome → (throws escapes : Bool) → Exchange
run_operation s operation outcome throws escapes =
    let after = handle (record s { pending = none }) operation outcome throws in
    if escapes then after_escape (record after { pending = none }) else after

-- The handler of the operation that is pending, if there is one.
unfoldable pub step_operation :
    Exchange → Option Operation → Outcome → (throws escapes : Bool) → Exchange
step_operation s none outcome throws escapes = s
step_operation s (some operation) outcome throws escapes =
    if answers operation outcome then run_operation s operation outcome throws escapes else s

-- The handler of the cancelled wait at an index, if there is one.
unfoldable pub step_wait : Exchange → ℕ → Option ℕ → (error throws : Bool) → Exchange
step_wait s i none error throws = s
step_wait s i (some generation) error throws =
    on_deadline (record s { stale = take i s.stale ++ drop (suc i) s.stale }) generation error
      throws

unfoldable pub step : Exchange → Event → Exchange
step s (completes outcome throws escapes) = step_operation s s.pending outcome throws escapes
step s (expires throws) =
    if s.armed
    then on_deadline (record s { armed = false }) s.deadline_generation false throws
    else s
step s (wakes i error throws) = step_wait s i (get_elem? s.stale i) error throws
step s cancels = cancel s

unfoldable pub run : Exchange → List Event → Exchange
run s [] = s
run s (e ∷ es) = run (step s e) es
