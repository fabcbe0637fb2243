-- ===== src/Pool/Examples.antt =====
-- A pool at work, and the theorems at concrete inputs.
use c_item.Base.{◌+◌, ◌≡◌, refl, true, false, none, some, List, [], ◌∷◌, arith, get_elem?}
use c_item.Base.Text.{codes, eq_bytes}
use c_item.Config.{UpstreamConfig, http, https}
use c_item.Pool.{
  UpstreamConnection, make_connection, matches, Views, clean, Idle, UpstreamPool, make_pool, take,
  take_idle, take_slots, expire, put, put_idle, put_placed, place, stop_if, arm_cleanup,
  deadline_at, stop, clear_slots, succeed, async_wait_throws,
}
use c_item.Pool.Taken.{take_complete}
use c_item.Pool.Owned.{accounted, held, times, run, step, all_got, all_in, run-accounted}
use c_item.Pool.Owned
use c_item.Pool.Cleanup.{Kept, Reach, here, pool-Kept}
use c_item.Pool.Cleanup

abbrev backend : UpstreamConfig
backend = record { host = codes "10.0.0.1"; port = 81; timeout_ms = 1000; scheme = http }

abbrev connection : UpstreamConnection
connection = record { identity = 7; backend = backend; context = none }

abbrev quiet : Views
quiet i = record { is_open = true; tls_pending = false; available = some 0 }

abbrev talking : Views
talking i = record { is_open = true; tls_pending = false; available = some 12 }

abbrev pooled : UpstreamPool
pooled = put make_pool quiet (some connection) succeed 100

abbrev idle : Idle
idle = record { connection = connection; deadline = 30000000100 }

untrusted : make_connection 7 (record backend { scheme = https }) none ≡ none
unfolding make_connection
untrusted = refl

pooled_slot : get_elem? pooled.idle 0 ≡ some (some idle)
unfolding put make_pool put_idle put_placed place expire deadline_at stop_if arm_cleanup clean
pooled_slot = refl

pooled_timer :
    (pooled.timer_pending ≡ true) × (pooled.expiry ≡ 30000000100) × (pooled.stopped ≡ false)
unfolding put make_pool put_idle put_placed place expire deadline_at stop_if arm_cleanup clean
pooled_timer = (refl, refl, refl)

taken : (take pooled quiet backend none 200).1 ≡ some connection
unfolding take take_idle take_slots matches clean put make_pool put_idle put_placed place expire
    deadline_at stop_if arm_cleanup eq_bytes
taken = refl

not_taken : (take pooled talking backend none 200).1 ≡ none
unfolding take take_idle take_slots matches clean put make_pool put_idle put_placed place expire
    deadline_at stop_if arm_cleanup eq_bytes
not_taken = refl

timer_failure : (put make_pool quiet (some connection) async_wait_throws 100).closed ≡ 7 ∷ []
unfolding put make_pool put_idle put_placed place expire deadline_at stop_if arm_cleanup clean stop
    clear_slots
timer_failure = refl

connection_matches : matches connection backend none ≡ true
unfolding matches eq_bytes
connection_matches = refl

take_complete_example : clean (talking 7) ≡ false
take_complete_example =
    take_complete talking backend none pooled 200 0 idle pooled_timer.2 not_taken pooled_slot
      (omega arith) connection_matches

abbrev history : List Owned.Op
history =
    Owned.puts quiet (some connection) succeed 100
    ∷ Owned.takes quiet backend none 200
    ∷ Owned.stops
    ∷ []

run-accounted_example :
    accounted 7 (run make_pool history).0 + all_got 7 (run make_pool history).1
    ≡ accounted 7 make_pool + all_in 7 history
run-accounted_example = run-accounted 7 make_pool history

pooled-Reach : Reach 100 make_pool 100 pooled
pooled-Reach =
    Cleanup.after 100 100 make_pool pooled here
      (Cleanup.puts 100 100 make_pool quiet (some connection) succeed (omega arith))

pool-Kept_example : Kept 100 pooled
pool-Kept_example = pool-Kept 100 100 pooled pooled-Reach
