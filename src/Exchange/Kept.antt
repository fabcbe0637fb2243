-- ===== src/Exchange/Kept.antt =====
-- Every handler of an exchange leaves it alive, with an operation and a deadline running, or ended.
use c_item.Base.{
  ℕ, ◌≡◌, ◌⊎◌, inl, inr, Bool, true, not, ◌&&◌, Option, none, some, if◌then◌else◌, arith, refl,
  if_lem, if_cases, ltb, ◌==◌,
}
use c_item.Metrics.{ProxyFailureStage}
use c_item.Budget.{BodyReservationKind, nothing, too_large, reserve}
use c_item.Exchange.{
  Exchange, Operation, resolving, connecting, handshaking, writing, reading_header, reading_body,
  reading_block, resuming, emit, sends_body, begin_deadline, finish_deadline, fail,
}
use c_item.Exchange.Invariant.{
  total, Running, Alive, Ended, begin_deadline-Running, finish_deadline-Running, fail-Ended,
  reject_buffer_budget-Ended, finish_response-Ended, finish_stream-Ended, downstream_failed-Ended,
}
use c_item.Exchange.Handlers.{
  Header, ReadError, read_stage, waiting, write_request, on_resolve, on_connect, on_handshake,
  on_write, send_header, start_stream, follow_plan, on_read_header, on_read_body, read_stream_block,
  on_read_block, on_resume, Outcome, resolved, handshaken, written, connected, header_read,
  body_read, block_read, resumed, handle, answers,
}

abbrev pub IsSound : Exchange → Type 0
IsSound s = Alive s ⊎ Ended s

-- A deadline that is running, and an operation that is started.
waiting-IsSound :
    (s : Exchange) (o : Operation) → Running s → s.armed ≡ true → IsSound (waiting s o)
waiting-IsSound s o r d = inl (record { running = ground arith; deadline = d; waits = refl })

pub next-IsSound :
    (s : Exchange) (o : Operation) → Running s → IsSound (waiting (begin_deadline s) o)
unfolding begin_deadline
next-IsSound s o r = waiting-IsSound (begin_deadline s) o (begin_deadline-Running s r) refl

pub write_request-IsSound : (s : Exchange) → Running s → IsSound (write_request s)
unfolding write_request
write_request-IsSound s r = next-IsSound s writing r

failed-IsSound :
    (s : Exchange) (stage : ProxyFailureStage) (throws : Bool)
    → Running s
    → IsSound (fail (finish_deadline s) stage throws)
failed-IsSound s stage throws r = inr (fail-Ended _ stage throws (finish_deadline-Running s r))

-- The first test of a handler.
still :
    (s : Exchange) {t : Exchange}
    → Running s
    → IsSound t
    → IsSound (if s.completion_observed then s else t)
still s r h = if_cases IsSound s.completion_observed (λ e. cc r.unobserved) (λ e. h)

with_permit-Running :
    (s : Exchange) (n : ℕ) → Running s → Running (record s { body_permit = some n })
with_permit-Running s n r = ground arith

module _ (s : Exchange) (r : Running s) where
  on_resolve-IsSound : (error throws : Bool) → IsSound (on_resolve s error throws)
  unfolding on_resolve
  on_resolve-IsSound error throws = still s r (
      if_lem IsSound error (failed-IsSound s ProxyFailureStage.resolve throws r)
        (next-IsSound (finish_deadline s) connecting (finish_deadline-Running s r)))

  on_connect-IsSound : (error identity throws : Bool) → IsSound (on_connect s error identity throws)
  unfolding on_connect
  on_connect-IsSound error identity throws = still s r (
      if_lem IsSound error (failed-IsSound s ProxyFailureStage.connect throws r) (
        if_lem IsSound (not s.secure)
          (write_request-IsSound (finish_deadline s) (finish_deadline-Running s r))
          (if_lem IsSound identity
            (next-IsSound (finish_deadline s) handshaking (finish_deadline-Running s r))
            (failed-IsSound s ProxyFailureStage.handshake throws r))))

  on_handshake-IsSound : (error throws : Bool) → IsSound (on_handshake s error throws)
  unfolding on_handshake
  on_handshake-IsSound error throws = still s r (
      if_lem IsSound error (failed-IsSound s ProxyFailureStage.handshake throws r)
        (write_request-IsSound (finish_deadline s) (finish_deadline-Running s r)))

  on_write-IsSound : (error throws : Bool) → IsSound (on_write s error throws)
  unfolding on_write
  on_write-IsSound error throws = still s r (
      if_lem IsSound error (failed-IsSound s ProxyFailureStage.write throws r)
        (next-IsSound (finish_deadline s) reading_header (finish_deadline-Running s r)))

  module _ (d : s.armed ≡ true) where
    send_header-IsSound : (h : Header) → IsSound (send_header s h)
    unfolding send_header emit total
    send_header-IsSound h = inl (record { running = ground arith; deadline = d; waits = refl })

    start_stream-IsSound : (h : Header) (throws : Bool) → IsSound (start_stream s h throws)
    unfolding start_stream
    start_stream-IsSound h throws =
        if_lem IsSound _ (inr (fail-Ended s ProxyFailureStage.invalid_response throws r)) (
          if_lem IsSound _ (inr (fail-Ended s ProxyFailureStage.response_too_large throws r)) (
            if_lem IsSound _ (inr (reject_buffer_budget-Ended s 1 throws r))
              (send_header-IsSound h)))

    reserved-IsSound : (n : ℕ) → IsSound (waiting (record s { body_permit = some n }) reading_body)
    reserved-IsSound n = inl (record { running = ground arith; deadline = d; waits = refl })

    follow_plan-IsSound :
        (h : Header) (kind : BodyReservationKind) (n : ℕ) (throws : Bool)
        → IsSound (follow_plan s h kind n throws)
    unfolding follow_plan
    follow_plan-IsSound h too_large n throws =
        failed-IsSound s ProxyFailureStage.response_too_large throws r
    follow_plan-IsSound h nothing n throws =
        inr (finish_response-Ended _ h.reusable throws (finish_deadline-Running s r))
    follow_plan-IsSound h reserve n throws =
        if_lem IsSound h.granted (reserved-IsSound n)
          (inr (reject_buffer_budget-Ended _ n throws (finish_deadline-Running s r)))

    on_read_header-IsSound :
        (error : Option ReadError) (h : Header) (throws : Bool)
        → IsSound (on_read_header s error h throws)
    unfolding on_read_header
    on_read_header-IsSound (some error) h throws =
        still s r (failed-IsSound s (read_stage error) throws r)
    on_read_header-IsSound none h throws = still s r (
        if_lem IsSound s.streaming (start_stream-IsSound h throws) (
          if_lem IsSound (ltb h.status 200)
            (failed-IsSound s ProxyFailureStage.invalid_response throws r)
            (follow_plan-IsSound h _ _ throws)))

    on_read_body-IsSound :
        (error : Option ReadError) (bytes : ℕ) (fits reusable throws : Bool)
        → IsSound (on_read_body s error bytes fits reusable throws)
    unfolding on_read_body
    on_read_body-IsSound (some error) bytes fits reusable throws =
        still s r (failed-IsSound s (read_stage error) throws r)
    on_read_body-IsSound none bytes fits reusable throws = still s r (
        if_lem IsSound fits
          (inr (
            finish_response-Ended _ reusable throws
              (with_permit-Running _ bytes (finish_deadline-Running s r))))
          (failed-IsSound s ProxyFailureStage.read throws r))

    sent-IsSound :
        (bytes : ℕ) (done : Bool)
        → IsSound (waiting (emit s (sends_body bytes done)) (resuming done))
    unfolding emit total
    sent-IsSound bytes done = inl (record { running = ground arith; deadline = d; waits = refl })

    on_read_block-IsSound :
        (error : Option ReadError) (bytes : ℕ) (done throws : Bool)
        → IsSound (on_read_block s error bytes done throws)
    unfolding on_read_block read_stream_block
    on_read_block-IsSound (some error) bytes done throws =
        still s r (inr (fail-Ended s (read_stage error) throws r))
    on_read_block-IsSound none bytes done throws = still s r (
        if_lem IsSound (bytes == 0 && not done) (waiting-IsSound s reading_block r d)
          (sent-IsSound bytes done))

    on_resume-IsSound :
        (final error reusable throws : Bool) → IsSound (on_resume s final error reusable throws)
    unfolding on_resume read_stream_block
    on_resume-IsSound final error reusable throws = still s r (
        if_lem IsSound error (inr (downstream_failed-Ended s throws r)) (
          if_lem IsSound final (inr (finish_stream-Ended s reusable throws r))
            (waiting-IsSound s reading_block r d)))

    pub handle-IsSound :
        (o : Operation) (outcome : Outcome) (throws : Bool)
        → answers o outcome ≡ true
        → IsSound (handle s o outcome throws)
    unfolding handle answers
    handle-IsSound resolving (resolved error) throws a = on_resolve-IsSound error throws
    handle-IsSound connecting (connected error identity) throws a =
        on_connect-IsSound error identity throws
    handle-IsSound handshaking (handshaken error) throws a = on_handshake-IsSound error throws
    handle-IsSound writing (written error) throws a = on_write-IsSound error throws
    handle-IsSound reading_header (header_read error h) throws a =
        on_read_header-IsSound error h throws
    handle-IsSound reading_body (body_read error bytes fits reusable) throws a =
        on_read_body-IsSound error bytes fits reusable throws
    handle-IsSound reading_block (block_read error bytes done) throws a =
        on_read_block-IsSound error bytes done throws
    handle-IsSound (resuming final) (resumed error reusable) throws a =
        on_resume-IsSound final error reusable throws
    handle-IsSound _ _ throws a = cc
