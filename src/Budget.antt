-- ===== src/Budget.antt =====
-- src/buffer_budget.hpp and src/buffer_budget.cpp. A BufferBudgetControl is a cell of a heap, which
-- permits share by their pointer; a null pointer is `none`. A method on a permit returns the heap
-- and the permit after it. What is built by many calls is a World: the heap and all the permits.
pub mod Held
pub mod Invariant
pub mod Exact
mod Examples
use c_item.Base.{
  ℕ, zero, suc, ◌+◌, ◌-◌, Bool, true, false, Option, none, some, List, [], ◌∷◌, ◌++◌, ltb, leb,
  ◌==◌, if◌then◌else◌, u64, sub_u64, get_elem?, set, is_some,
}

pub data BodyReservationKind : Type 0 where
  nothing reserve too_large : BodyReservationKind

pub record BodyReservationPlan : Type 0 where
  pub kind : BodyReservationKind
  pub bytes : ℕ

abbrev value_or : Option ℕ → ℕ → ℕ
value_or none d = d
value_or (some n) d = n

abbrev above : Option ℕ → ℕ → Bool
above none limit = false
above (some n) limit = ltb limit n

unfoldable pub plan_body_reservation : Option ℕ → Bool → ℕ → BodyReservationPlan
plan_body_reservation content_length message_complete body_limit =
    if message_complete
    then record { kind = nothing; bytes = 0 }
    else if above content_length body_limit
    then record { kind = too_large; bytes = 0 }
    else record { kind = reserve; bytes = value_or content_length body_limit }

pub record Control : Type 0 where
  pub max_bytes : ℕ
  pub current_bytes : ℕ

abbrev pub Heap : Type 0
Heap = ℕ → Control

abbrev pub update : Heap → ℕ → Control → Heap
update h p c q = if q == p then c else h q

pub record Permit : Type 0 where
  pub control : Option ℕ
  pub bytes : ℕ

abbrev pub empty_permit : Permit
empty_permit = record { control = none; bytes = 0 }

pub owns_reservation : Permit → Bool
owns_reservation p = is_some p.control

pub give_back : Control → ℕ → Control
give_back c bytes =
    if leb bytes c.current_bytes then record c { current_bytes = c.current_bytes - bytes } else c

pub release_control : Heap → Option ℕ → Permit → Heap × Permit
release_control h none p = (h, p)
release_control h (some c) p = (update h c (give_back (h c) p.bytes), empty_permit)

-- Also the destructor.
pub release : Heap → Permit → Heap × Permit
unfolding release_control
release h p = release_control h p.control p

-- The move constructor: the new permit, and what is left of the other.
pub move_from : Permit → Permit × Permit
move_from other = (other, empty_permit)

-- The move assignment between different objects: this object and the other afterwards.
pub move_assign : Heap → Permit → Permit → Heap × Permit × Permit
move_assign h this other =
    let (h', released) = release h this in let (taken, left) = move_from other in (h', taken, left)

pub shrink_control : Heap → Option ℕ → Permit → ℕ → Heap × Permit × Bool
shrink_control h none p bytes = (h, p, false)
shrink_control h (some c) p bytes =
    let released = p.bytes - bytes in
    if ltb p.bytes bytes
    then (h, p, false)
    else if ltb (h c).current_bytes released
    then (h, p, false)
    else (
      update h c
          (record { max_bytes = (h c).max_bytes; current_bytes = (h c).current_bytes - released }),
      record p { bytes = bytes },
      true,
    )

pub shrink_to : Heap → Permit → ℕ → Heap × Permit × Bool
unfolding shrink_control
shrink_to h p bytes = shrink_control h p.control p bytes

-- BufferBudgetState holds the pointer `c`.
pub try_acquire : Heap → ℕ → ℕ → Heap × Option Permit
try_acquire h c bytes =
    if ltb (sub_u64 (h c).max_bytes (h c).current_bytes) bytes then (h, none) else (
      update h c (record {
        max_bytes = (h c).max_bytes;
        current_bytes = u64 ((h c).current_bytes + bytes);
      }),
      some (record { control = some c; bytes = bytes }),
    )

pub record World : Type 0 where
  pub heap : Heap
  pub permits : List Permit

pub data Op : Type 0 where
  acquires : ℕ → ℕ → Op
  releases : ℕ → Op
  moves : ℕ → Op
  assigns : ℕ → ℕ → Op
  shrinks : ℕ → ℕ → Op

pub add_permit : Heap → List Permit → Option Permit → World
add_permit h ps none = record { heap = h; permits = ps }
add_permit h ps (some p) = record { heap = h; permits = ps ++ p ∷ [] }

pub at_release : World → ℕ → Option Permit → World
at_release w i none = w
at_release w i (some p) =
    let (h, p') = release w.heap p in record { heap = h; permits = set w.permits i p' }

pub at_move : World → ℕ → Option Permit → World
unfolding move_from
at_move w i none = w
at_move w i (some p) =
    let (taken, left) = move_from p in
    record { heap = w.heap; permits = set w.permits i left ++ taken ∷ [] }

pub at_assign : World → ℕ → ℕ → Option Permit → Option Permit → World
at_assign w i j (some this) (some other) =
    let (h, taken, left) = move_assign w.heap this other in
    record { heap = h; permits = set (set w.permits i taken) j left }
at_assign w i j _ _ = w

pub at_shrink : World → ℕ → ℕ → Option Permit → World
at_shrink w i bytes none = w
at_shrink w i bytes (some p) =
    let (h, p', done) = shrink_to w.heap p bytes in
    record { heap = h; permits = set w.permits i p' }

-- The permits are objects that the program holds; an operation names them by their positions.
pub step : World → Op → World
step w (acquires c bytes) = let (h, p) = try_acquire w.heap c bytes in add_permit h w.permits p
step w (releases i) = at_release w i (get_elem? w.permits i)
step w (moves i) = at_move w i (get_elem? w.permits i)
step w (assigns i j) =
    if i == j then w else at_assign w i j (get_elem? w.permits i) (get_elem? w.permits j)
step w (shrinks i bytes) = at_shrink w i bytes (get_elem? w.permits i)

pub run : World → List Op → World
run w [] = w
run w (o ∷ os) = run (step w o) os
