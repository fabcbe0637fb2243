-- ===== src/Exchange/Runs.antt =====
-- The runs of an exchange, from its start over any order of handlers, ends of waits and a cancellation.
use c_item.Base.{
  ℕ, ◌≡◌, inl, inr, Bool, true, false, not, ◌&&◌, Option, none, some, List, [], ◌∷◌, arith, refl,
  if_lem, if_cases, sym, subst, ◌∙◌, ◌==◌, get_elem?, ==_iff,
}
use c_item.Metrics.{ProxyFailureStage}
use c_item.Exchange.{
  Exchange, Operation, resolving, connecting, handshaking, writing, reading_header, reading_body,
  reading_block, resuming, Arguments, make_exchange, fresh_exchange, after_escape,
}
use c_item.Exchange.Invariant.{
  total, Running, Alive, Ended, fail-Ended, after_escape-Ended, after_escape-Ended_same,
  cancel-Ended, cancel-Ended_same, fail-Ended_same,
}
use c_item.Exchange.Kept.{IsSound, handle-IsSound, write_request-IsSound, next-IsSound}
use c_item.Exchange.Handlers.{
  on_resolve, on_connect, on_handshake, on_write, on_read_header, on_read_body, on_read_block,
  on_resume, resolved, connected, handshaken, written, header_read, body_read, block_read, resumed,
  start, on_deadline, Outcome, Event, completes, expires, wakes, cancels, handle, answers,
  run_operation, step_operation, step_wait, step, run,
}

fresh_exchange-Running :
    (pooled secure streaming reused : Bool)
    → Running (fresh_exchange pooled secure streaming reused)
unfolding total
fresh_exchange-Running pooled secure streaming reused = record {
  unobserved = refl;
  unclaimed = refl;
  can_complete = refl;
  can_abort = refl;
  holds = refl;
  not_completed = refl;
  not_aborted = refl;
  not_released = refl;
}

start-IsSound :
    (pooled secure streaming reused : Bool)
    → IsSound (start (fresh_exchange pooled secure streaming reused))
unfolding start
start-IsSound pooled secure streaming reused =
    let r = fresh_exchange-Running pooled secure streaming reused in
    if_lem IsSound (pooled && reused) (write_request-IsSound _ r) (next-IsSound _ resolving r)

-- Leaving a field that the invariant does not speak of.
Running-pending : (s : Exchange) → Running s → Running (record s { pending = none })
Running-pending s r = ground arith

Ended-pending : (s : Exchange) → Ended s → Ended (record s { pending = none })
Ended-pending s v = ground arith

escaped-IsSound : (s : Exchange) → IsSound s → IsSound (after_escape (record s { pending = none }))
escaped-IsSound s (inl v) = inr (after_escape-Ended _ (Running-pending s v.running))
escaped-IsSound s (inr v) =
    let v' = Ended-pending s v in subst IsSound (sym (after_escape-Ended_same _ v')) (inr v')

run_operation-IsSound :
    (s : Exchange) (o : Operation) (outcome : Outcome) (throws escapes : Bool)
    → Alive s
    → answers o outcome ≡ true
    → IsSound (run_operation s o outcome throws escapes)
unfolding run_operation
run_operation-IsSound s o outcome throws escapes v a =
    let kept = handle-IsSound _ (Running-pending s v.running) v.deadline o outcome throws a in
    if_lem IsSound escapes (escaped-IsSound _ kept) kept

-- A handler that comes after the end does nothing.
handle-Ended_same :
    (s : Exchange) (o : Operation) (outcome : Outcome) (throws : Bool)
    → Ended s
    → answers o outcome ≡ true
    → handle s o outcome throws ≡ s
unfolding handle answers on_resolve on_connect on_handshake on_write on_read_header on_read_body
    on_read_block on_resume
handle-Ended_same s resolving (resolved error) throws v a = simp v.observed refl
handle-Ended_same s connecting (connected error identity) throws v a = simp v.observed refl
handle-Ended_same s handshaking (handshaken error) throws v a = simp v.observed refl
handle-Ended_same s writing (written error) throws v a = simp v.observed refl
handle-Ended_same s reading_header (header_read (some error) h) throws v a = simp v.observed refl
handle-Ended_same s reading_header (header_read none h) throws v a = simp v.observed refl
handle-Ended_same s reading_body (body_read (some error) bytes fits reusable) throws v a =
    simp v.observed refl
handle-Ended_same s reading_body (body_read none bytes fits reusable) throws v a =
    simp v.observed refl
handle-Ended_same s reading_block (block_read (some error) bytes done) throws v a =
    simp v.observed refl
handle-Ended_same s reading_block (block_read none bytes done) throws v a = simp v.observed refl
handle-Ended_same s (resuming final) (resumed error reusable) throws v a = simp v.observed refl
handle-Ended_same s _ _ throws v a = cc

-- Nothing of an ended exchange changes that the outside sees.
abbrev Unmoved : Exchange → Exchange → Type 0
Unmoved s t = Ended t × (t.log ≡ s.log)

run_operation-Unmoved :
    (s : Exchange) (o : Operation) (outcome : Outcome) (throws escapes : Bool)
    → Ended s
    → answers o outcome ≡ true
    → Unmoved s (run_operation s o outcome throws escapes)
unfolding run_operation
run_operation-Unmoved s o outcome throws escapes v a =
    let v' = Ended-pending s v in
    let same = handle-Ended_same _ o outcome throws v' a in
    simp same
      (if_lem (Unmoved s) escapes (simp (after_escape-Ended_same _ v') (v', refl)) (v', refl))

on_deadline-Unmoved :
    (s : Exchange) (g : ℕ) (error throws : Bool)
    → Ended s
    → Unmoved s (on_deadline s g error throws)
unfolding on_deadline
on_deadline-Unmoved s g error throws v =
    if_lem (Unmoved s) (not error && g == s.deadline_generation)
      (simp (fail-Ended_same s ProxyFailureStage.timeout throws v) (v, refl)) (v, refl)

step_operation-Unmoved :
    (s : Exchange) (o : Option Operation) (outcome : Outcome) (throws escapes : Bool)
    → Ended s
    → Unmoved s (step_operation s o outcome throws escapes)
unfolding step_operation
step_operation-Unmoved s none outcome throws escapes v = (v, refl)
step_operation-Unmoved s (some o) outcome throws escapes v =
    if_cases (Unmoved s) (answers o outcome) (run_operation-Unmoved s o outcome throws escapes v)
      (λ a. (v, refl))

step_wait-Unmoved :
    (s : Exchange) (i : ℕ) (g : Option ℕ) (error throws : Bool)
    → Ended s
    → Unmoved s (step_wait s i g error throws)
unfolding step_wait
step_wait-Unmoved s i none error throws v = (v, refl)
step_wait-Unmoved s i (some g) error throws v = on_deadline-Unmoved _ g error throws (ground arith)

step-Unmoved : (s : Exchange) (e : Event) → Ended s → Unmoved s (step s e)
unfolding step
step-Unmoved s (completes outcome throws escapes) v =
    step_operation-Unmoved s s.pending outcome throws escapes v
step-Unmoved s (expires throws) v = simp v.disarmed (v, refl)
step-Unmoved s (wakes i error throws) v = step_wait-Unmoved s i (get_elem? s.stale i) error throws v
step-Unmoved s cancels v = simp (cancel-Ended_same s v) (v, refl)

on_deadline-IsSound :
    (s : Exchange) (g : ℕ) (error throws : Bool) → Alive s → IsSound (on_deadline s g error throws)
unfolding on_deadline
on_deadline-IsSound s g error throws v =
    if_lem IsSound (not error && g == s.deadline_generation)
      (inr (fail-Ended s ProxyFailureStage.timeout throws v.running)) (inl v)

expired-Ended :
    (s : Exchange) (throws : Bool)
    → Running s
    → Ended (on_deadline (record s { armed = false }) s.deadline_generation false throws)
unfolding on_deadline
expired-Ended s throws r =
    simp ((==_iff s.deadline_generation s.deadline_generation).1 refl)
      (fail-Ended _ ProxyFailureStage.timeout throws (ground arith))

other_waits-Running : (s : Exchange) (w : List ℕ) → Running s → Running (record s { stale = w })
other_waits-Running s w r = ground arith

step_operation-IsSound :
    (s : Exchange) (o : Option Operation) (outcome : Outcome) (throws escapes : Bool)
    → Alive s
    → IsSound (step_operation s o outcome throws escapes)
unfolding step_operation
step_operation-IsSound s none outcome throws escapes v = inl v
step_operation-IsSound s (some o) outcome throws escapes v =
    if_cases IsSound (answers o outcome) (run_operation-IsSound s o outcome throws escapes v)
      (λ a. inl v)

step_wait-IsSound :
    (s : Exchange) (i : ℕ) (g : Option ℕ) (error throws : Bool)
    → Alive s
    → IsSound (step_wait s i g error throws)
unfolding step_wait
step_wait-IsSound s i none error throws v = inl v
step_wait-IsSound s i (some g) error throws v =
    on_deadline-IsSound _ g error throws (record {
      running = other_waits-Running s _ v.running;
      deadline = v.deadline;
      waits = v.waits;
    })

step-Alive : (s : Exchange) (e : Event) → Alive s → IsSound (step s e)
unfolding step
step-Alive s (completes outcome throws escapes) v =
    step_operation-IsSound s s.pending outcome throws escapes v
step-Alive s (expires throws) v = simp v.deadline (inr (expired-Ended s throws v.running))
step-Alive s (wakes i error throws) v = step_wait-IsSound s i (get_elem? s.stale i) error throws v
step-Alive s cancels v = inr (cancel-Ended s v.running)

step-IsSound : (s : Exchange) (e : Event) → IsSound s → IsSound (step s e)
step-IsSound s e (inl v) = step-Alive s e v
step-IsSound s e (inr v) = inr (step-Unmoved s e v).0

run-IsSound : (s : Exchange) (es : List Event) → IsSound s → IsSound (run s es)
unfolding run
run-IsSound s [] v = v
run-IsSound s (e ∷ es) v = run-IsSound (step s e) es (step-IsSound s e v)

run-Unmoved : (s : Exchange) (es : List Event) → Ended s → Unmoved s (run s es)
unfolding run
run-Unmoved s [] v = (v, refl)
run-Unmoved s (e ∷ es) v =
    let (v', same) = step-Unmoved s e v in
    let (v'', later) = run-Unmoved (step s e) es v' in (v'', later ∙ same)

make_exchange-fresh :
    (a : Arguments) (s : Exchange)
    → make_exchange a ≡ some s
    → fresh_exchange a.pooled a.secure a.streaming a.reused ≡ s
unfolding make_exchange
make_exchange-fresh a s e = ground arith

-- Whatever the network, the session, the callbacks and the timer do, in whatever order: an exchange
-- that has started is alive, with its connection open, an operation outstanding and a deadline
-- running, or it has ended: then its completion and its abort have each been called at most once, and
-- its connection has been closed or put into the pool exactly once.
pub exchange-IsSound :
    (a : Arguments) (s : Exchange) (es : List Event)
    → make_exchange a ≡ some s
    → IsSound (run (start s) es)
exchange-IsSound a s es made = run-IsSound _ es (
    subst (λ x. IsSound (start x)) (make_exchange-fresh a s made)
      (start-IsSound a.pooled a.secure a.streaming a.reused))

-- An exchange that has ended stays so: nothing that comes later is reported, sent, closed or put back.
pub ended_exchange_rests :
    (a : Arguments) (s : Exchange) (es fs : List Event)
    → make_exchange a ≡ some s
    → (run (start s) es).claimed ≡ true
    → (run (run (start s) es) fs).log ≡ (run (start s) es).log
ended_exchange_rests a s es fs made h = elim (exchange-IsSound a s es made) [
  | inl v ↦ cc v.running.unclaimed
  | inr v ↦ (run-Unmoved _ fs v).1
]

-- The deadline ends every exchange: from a state that has not ended, the end of the running wait
-- leads to one that has.
pub deadline_ends :
    (a : Arguments) (s : Exchange) (es : List Event) (throws : Bool)
    → make_exchange a ≡ some s
    → (run (start s) es).claimed ≡ false
    → Ended (step (run (start s) es) (expires throws))
unfolding step
deadline_ends a s es throws made h = elim (exchange-IsSound a s es made) [
  | inl v ↦ simp v.deadline (expired-Ended _ throws v.running)
  | inr v ↦ cc v.taken
]
