-- ===== src/Server/Examples.antt =====
-- Runs of the server's state machines, and the theorems at concrete inputs.
use c_item.Base.{◌+◌, ◌≤◌, ◌≡◌, ◌↔◌, refl, inl, true, false, ◌&&◌, none, some, List, [], ◌∷◌, arith}
use c_item.Server.{
  ServerDrainPhase, draining, success, other, eof, classify_http_write_result,
  expected_cancellation, client_disconnected,
}
use c_item.Server.Drain
use c_item.Server.Drain.{DrainState, Event, starts, finishes, drains, forces, initial, finish_all}
use c_item.Server.Accept
use c_item.Server.Accept.{AcceptCapacityState, make_capacity, Reach, here, next, Step}
use c_item.Server.Signals
use c_item.Server.Permits
use c_item.Server.Permits.{World}

abbrev busy_day : List Event
busy_day = starts ∷ starts ∷ finishes ∷ drains ∷ starts ∷ finishes ∷ forces ∷ []

busy_day_completes :
    Drain.run initial busy_day
    ≡ (record { phase = ServerDrainPhase.completed; active_sessions = 0 }, 1)
unfolding Drain.run Drain.step
busy_day_completes = refl

completion_once_example :
    ((Drain.run initial busy_day).1 ≤ 1)
    × (((Drain.run initial busy_day).1 ≡ 1)
        ↔ ((Drain.run initial busy_day).0.phase ≡ ServerDrainPhase.completed))
completion_once_example = Drain.completion_once busy_day

abbrev two_left : DrainState
two_left = record { phase = draining; active_sessions = 2 }

drain_completes_example :
    ((Drain.run two_left (finish_all 1)).0.phase ≡ draining)
    × ((Drain.run two_left (finish_all 2)).0.phase ≡ ServerDrainPhase.completed)
    × ((Drain.run two_left (finish_all 2)).1 ≡ 1)
drain_completes_example = Drain.drain_completes 1 two_left (inl refl) refl

-- One connection allowed: an accept is started, and brings a session.
abbrev accepting : AcceptCapacityState
accepting = record (make_capacity 1) { accept_pending = true }

abbrev full : AcceptCapacityState
full = record (make_capacity 1) { active_connections = 1 }

full-Reach : Reach (make_capacity 1) full
unfolding Accept.next_action Accept.accept_completed Accept.session_started
full-Reach = next (next here (Step.drives (make_capacity 1))) (Step.accepts accepting refl)

capacity_respected_example : (1 + 0 ≤ 1) × ((false && false) ≡ false)
capacity_respected_example = Accept.capacity_respected 1 {t = full} full-Reach

abbrev three_signals : List Signals.Event
three_signals = Signals.waits success ∷ Signals.waits success ∷ Signals.waits success ∷ []

three_signals-run : (Signals.run Signals.initial three_signals).1 ≡ 1
unfolding Signals.run Signals.on_wait_completion
three_signals-run = refl

signals_once_example :
    let (_, begun, forced) = Signals.run Signals.initial three_signals in
    (begun ≤ 1) × (forced ≤ begun)
signals_once_example = Signals.signals_once three_signals

write_after_stop : classify_http_write_result (other 5) true ≡ expected_cancellation
unfolding classify_http_write_result
write_after_stop = refl

write_to_closed : classify_http_write_result eof false ≡ client_disconnected
unfolding classify_http_write_result
write_to_closed = refl

-- A limit of two, with nothing in use.
abbrev unused : World
unused = record { states = λ c. record { max_proxies = 2; active_proxies = 0 }; permits = [] }

unused-WellFormed : Permits.WellFormed unused
unfolding Permits.owners
unused-WellFormed = record { counted = λ c. refl; within = λ c. omega arith }

abbrev permit_history : List Permits.Op
permit_history =
    Permits.acquires (some 0)
    ∷ Permits.acquires (some 0)
    ∷ Permits.acquires (some 0)
    ∷ Permits.moves 0
    ∷ Permits.assigns 1 2
    ∷ Permits.acquires none
    ∷ []

permit_history_count : ((Permits.run unused permit_history).states 0).active_proxies ≡ 1
unfolding Permits.run Permits.step Permits.try_acquire Permits.release
permit_history_count = refl

permits-WellFormed_example : Permits.WellFormed (Permits.run unused permit_history)
permits-WellFormed_example = Permits.permits-WellFormed unused permit_history unused-WellFormed
