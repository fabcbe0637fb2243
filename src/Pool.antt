-- ===== src/Pool.antt =====
-- src/upstream_pool.hpp and src/upstream_pool.cpp: the cache of idle upstream connections. A
-- connection is an object with an identity; what its socket answers is read through a view, one for
-- each call. `closed` lists the identities of the connections that the pool has destroyed, whose
-- destructor closes the socket. Times are ticks of a nanosecond.
pub mod Taken
pub mod Owned
pub mod Loops
pub mod Cleanup
mod Examples
use c_item.Base.{
  ℕ, zero, suc, ◌+◌, ◌-◌, Bool, true, false, not, ◌&&◌, ◌||◌, Option, none, some, List, [], ◌∷◌,
  ◌++◌, ltb, leb, ◌==◌, if◌then◌else◌, replicate, time_max,
}
use c_item.Base.Text.{eq_bytes}
use c_item.Config.{UpstreamConfig, UpstreamScheme, http, https}
use c_item.Server.{ErrorCode, failed, is_aborted}

pub record UpstreamConnection : Type 0 where
  pub identity : ℕ
  pub backend : UpstreamConfig
  pub context : Option ℕ

abbrev pub is_https : UpstreamScheme → Bool
is_https http = false
is_https https = true

abbrev pub is_null : Option ℕ → Bool
is_null none = true
is_null (some p) = false

-- The constructor; `none` is std::invalid_argument.
unfoldable pub make_connection : ℕ → UpstreamConfig → Option ℕ → Option UpstreamConnection
make_connection identity backend context =
    if is_https backend.scheme && is_null context
    then none
    else some (record { identity = identity; backend = backend; context = context })

abbrev pub same_scheme : UpstreamScheme → UpstreamScheme → Bool
same_scheme http s = not (is_https s)
same_scheme https s = is_https s

abbrev pub same_pointer : Option ℕ → Option ℕ → Bool
same_pointer none none = true
same_pointer (some p) (some q) = p == q
same_pointer _ _ = false

unfoldable pub matches : UpstreamConnection → UpstreamConfig → Option ℕ → Bool
matches c backend context =
    eq_bytes c.backend.host backend.host
    && c.backend.port == backend.port
    && same_scheme c.backend.scheme backend.scheme
    && same_pointer c.context context

-- What a socket answers: whether it is open, whether TLS holds decrypted bytes, and how many bytes
-- are available, `none` for an error.
pub record SocketView : Type 0 where
  pub is_open : Bool
  pub tls_pending : Bool
  pub available : Option ℕ

abbrev is_zero : Option ℕ → Bool
is_zero none = false
is_zero (some n) = n == 0

unfoldable pub clean : SocketView → Bool
clean v = if not v.is_open || v.tls_pending then false else is_zero v.available

abbrev pub Views : Type 0
Views = ℕ → SocketView

abbrev pub max_idle : ℕ
max_idle = 32

-- 30 seconds.
abbrev pub idle_timeout : ℕ
idle_timeout = 30000000000

pub record Idle : Type 0 where
  pub connection : UpstreamConnection
  pub deadline : ℕ

abbrev pub Slots : Type 0
Slots = List (Option Idle)

-- `expiry` is the time that `cleanup_` was set to.
pub record UpstreamPool : Type 0 where
  pub idle : Slots
  pub expiry : ℕ
  pub timer_pending : Bool
  pub stopped : Bool
  pub closed : List ℕ

unfoldable pub make_pool : UpstreamPool
make_pool = record {
  idle = replicate max_idle none;
  expiry = 0;
  timer_pending = false;
  stopped = false;
  closed = [];
}

-- The loops over the slots give the slots and the connections that they destroyed.
unfoldable pub expire_slots : ℕ → Slots → Slots × List ℕ
expire_slots now [] = ([], [])
expire_slots now (none ∷ es) = let (es', gone) = expire_slots now es in (none ∷ es', gone)
expire_slots now (some s ∷ es) =
    let (es', gone) = expire_slots now es in
    if leb s.deadline now then (none ∷ es', s.connection.identity ∷ gone) else (some s ∷ es', gone)

unfoldable pub expire : UpstreamPool → ℕ → UpstreamPool
unfolding expire_slots
expire p now =
    let (idle, gone) = expire_slots now p.idle in
    record p { idle = idle; closed = p.closed ++ gone }

-- The loop of `take`, and what it returns.
unfoldable pub take_slots :
    Views → UpstreamConfig → Option ℕ → Slots → Slots × List ℕ × Option UpstreamConnection
unfolding matches clean
take_slots view backend context [] = ([], [], none)
take_slots view backend context (none ∷ es) =
    let (es', gone, found) = take_slots view backend context es in (none ∷ es', gone, found)
take_slots view backend context (some s ∷ es) =
    let (es', gone, found) = take_slots view backend context es in
    if matches s.connection backend context
    then if clean (view s.connection.identity)
      then (none ∷ es, [], some s.connection)
      else (none ∷ es', s.connection.identity ∷ gone, found)
    else (some s ∷ es', gone, found)

unfoldable pub take_idle :
    UpstreamPool → Views → UpstreamConfig → Option ℕ → UpstreamPool × Option UpstreamConnection
unfolding take_slots
take_idle p view backend context =
    let (idle, gone, found) = take_slots view backend context p.idle in
    (record p { idle = idle; closed = p.closed ++ gone }, found)

unfoldable pub take :
    UpstreamPool → Views → UpstreamConfig → Option ℕ → ℕ → UpstreamPool × Option UpstreamConnection
unfolding take_idle expire
take p view backend context now =
    if p.stopped then (p, none) else take_idle (expire p now) view backend context

unfoldable pub clear_slots : Slots → Slots × List ℕ
clear_slots [] = ([], [])
clear_slots (none ∷ es) = let (es', gone) = clear_slots es in (none ∷ es', gone)
clear_slots (some s ∷ es) =
    let (es', gone) = clear_slots es in (none ∷ es', s.connection.identity ∷ gone)

-- The exception of `cancel` is caught and changes nothing else.
unfoldable pub stop : UpstreamPool → UpstreamPool
unfolding clear_slots
stop p =
    let (idle, gone) = clear_slots p.idle in
    if p.stopped then p else record p { stopped = true; idle = idle; closed = p.closed ++ gone }

abbrev pub sooner : Option ℕ → ℕ → ℕ
sooner none d = d
sooner (some e) d = if ltb d e then d else e

-- The loop of `arm_cleanup`: the least deadline.
unfoldable pub next_deadline : Option ℕ → Slots → Option ℕ
next_deadline next [] = next
next_deadline next (none ∷ es) = next_deadline next es
next_deadline next (some s ∷ es) = next_deadline (some (sooner next s.deadline)) es

-- What the calls of Asio and of Beast do: all succeed, or the one named throws.
pub data Calls : Type 0 where
  succeed expires_never_throws expires_at_throws async_wait_throws : Calls

-- Whether `arm_cleanup` threw.
unfoldable pub arm_at : UpstreamPool → Calls → Option ℕ → UpstreamPool × Bool
arm_at p calls none = (p, false)
arm_at p expires_at_throws (some d) = (p, true)
arm_at p async_wait_throws (some d) = (record p { expiry = d; timer_pending = true }, true)
arm_at p succeed (some d) = (record p { expiry = d; timer_pending = true }, false)
arm_at p expires_never_throws (some d) = (record p { expiry = d; timer_pending = true }, false)

unfoldable pub arm_cleanup : UpstreamPool → Calls → UpstreamPool × Bool
unfolding arm_at next_deadline
arm_cleanup p calls =
    if p.stopped || p.timer_pending then (p, false) else arm_at p calls (next_deadline none p.idle)

-- The handler of the exceptions: a failed timer stops the pool.
unfoldable pub stop_if : UpstreamPool × Bool → UpstreamPool
unfolding stop
stop_if (p, threw) = if threw then stop p else p

-- `none` when every slot is taken.
unfoldable pub place : Slots → Idle → Option Slots
place [] s = none
place (none ∷ es) s = some (some s ∷ es)
place (some t ∷ es) s = elim (place es s) [ none ↦ none | some es' ↦ some (some t ∷ es') ]

unfoldable pub deadline_at : ℕ → ℕ
deadline_at now = if ltb (time_max - idle_timeout) now then time_max else now + idle_timeout

abbrev pub throws_early : Calls → Bool
throws_early expires_never_throws = true
throws_early _ = false

abbrev pub discard : UpstreamPool → UpstreamConnection → UpstreamPool
discard p c = record p { closed = p.closed ++ c.identity ∷ [] }

-- The end of `put` behind `expire`: a connection that is not moved into a slot is destroyed.
unfoldable pub put_placed : UpstreamPool → UpstreamConnection → Calls → Option Slots → UpstreamPool
unfolding stop_if arm_cleanup
put_placed p c calls none = discard p c
put_placed p c calls (some idle) =
    if throws_early calls
    then discard (stop p) c
    else stop_if (arm_cleanup (record p { idle = idle }) calls)

unfoldable pub put_idle : UpstreamPool → UpstreamConnection → Calls → ℕ → UpstreamPool
unfolding put_placed place deadline_at
put_idle p c calls now =
    put_placed p c calls (place p.idle (record { connection = c; deadline = deadline_at now }))

-- A null lease changes nothing.
unfoldable pub put : UpstreamPool → Views → Option UpstreamConnection → Calls → ℕ → UpstreamPool
unfolding put_idle expire
put p view none calls now = p
put p view (some c) calls now =
    if p.stopped || not (clean (view c.identity))
    then discard p c
    else put_idle (expire p now) c calls now

-- The timer's handler, behind the reset of `timer_pending`.
unfoldable pub after_wait : UpstreamPool → ErrorCode → Calls → ℕ → UpstreamPool
after_wait p error calls now =
    if failed error
    then if is_aborted error then p else stop p
    else stop_if (arm_cleanup (expire p now) calls)

-- The timer's handler.
unfoldable pub on_timer : UpstreamPool → ErrorCode → Calls → ℕ → UpstreamPool
on_timer p error calls now =
    if p.stopped then p else after_wait (record p { timer_pending = false }) error calls now

unfoldable pub idle_count : Slots → ℕ
idle_count [] = 0
idle_count (none ∷ es) = idle_count es
idle_count (some s ∷ es) = 1 + idle_count es
