-- ===== src/Budget/Examples.antt =====
-- Runs of the budget, and the theorems at concrete inputs.
use c_item.Base.{ℕ, ◌+◌, ◌≤◌, ◌≡◌, refl, false, some, List, [], ◌∷◌, arith}
use c_item.Budget.{
  World, Op, acquires, releases, moves, assigns, shrinks, give_back, release_control, release,
  move_from, move_assign, shrink_control, shrink_to, try_acquire, add_permit, at_release, at_move,
  at_assign, at_shrink, step, run, owns_reservation,
}
use c_item.Budget.Held.{held}
use c_item.Budget.Invariant.{WellFormed, run-WellFormed}
use c_item.Budget.Exact.{release_exact}

-- Every control has a limit of 100 bytes, and nothing is reserved.
abbrev fresh : World
fresh = record { heap = λ c. record { max_bytes = 100; current_bytes = 0 }; permits = [] }

fresh-WellFormed : WellFormed fresh
unfolding held
fresh-WellFormed = record {
  accounted = λ c. refl;
  within = λ c. omega arith;
  word = λ c. omega arith;
}

abbrev history : List Op
history =
    acquires 0 60
    ∷ acquires 0 50
    ∷ acquires 0 40
    ∷ shrinks 1 10
    ∷ moves 0
    ∷ assigns 2 1
    ∷ releases 0
    ∷ []

history_count : ((run fresh history).heap 0).current_bytes ≡ 10
unfolding run step try_acquire add_permit at_shrink shrink_to shrink_control at_move move_from
    at_assign move_assign release release_control give_back at_release
history_count = refl

run-WellFormed_example : WellFormed (run fresh history)
run-WellFormed_example = run-WellFormed fresh history fresh-WellFormed

-- Control 3 counts the 30 bytes of the one permit.
abbrev one_held : World
one_held = record {
  heap = λ c. record {
    max_bytes = 100;
    current_bytes = held c (record { control = some 3; bytes = 30 } ∷ []);
  };
  permits = record { control = some 3; bytes = 30 } ∷ [];
}

held_bound : (c : ℕ) → held c (record { control = some 3; bytes = 30 } ∷ []) ≤ 100
unfolding held
held_bound c = ground arith

one_held-WellFormed : WellFormed one_held
one_held-WellFormed = record { accounted = λ c. refl; within = held_bound; word = λ c. omega arith }

release_exact_example :
    (((release one_held.heap (record { control = some 3; bytes = 30 })).0 3).current_bytes + 30
      ≡ (one_held.heap 3).current_bytes)
    × (owns_reservation (release one_held.heap (record { control = some 3; bytes = 30 })).1 ≡ false)
release_exact_example =
    release_exact one_held 0 3 (record { control = some 3; bytes = 30 }) one_held-WellFormed refl
      refl
