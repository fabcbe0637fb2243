-- ===== src/Budget/Exact.antt =====
-- What the operations promise in a well-formed world, where the defensive tests of the code never
-- refuse.
use native.Mathlib.Decide.{ℕ_discrete}
use c_item.Base.{
  ℕ, zero, suc, ◌+◌, ◌≤◌, ◌<◌, ◌≡◌, ◌↔◌, refl, ◌∙◌, sym, ap, subst, Bool, true, false, ◌&&◌, Option,
  none, some, some_inj, inl, inr, List, [], ◌∷◌, arith, leb, get_elem?, set, is_some, Option-cases,
  get_elem?-set_ne, get_elem?-set_self, get_elem?_bound, length,
}
use c_item.Budget.{
  nothing, too_large, plan_body_reservation, Permit, World, Op, releases, give_back,
  release_control, release, shrink_control, shrink_to, try_acquire, at_release, step, run,
  owns_reservation,
}
use c_item.Budget.Held.{held, owned, owned_own}
use c_item.Budget.Invariant.{WellFormed, release_effect, owned-le-current, step-WellFormed}

-- A reservation is granted exactly when it fits beside what the permits of the control hold.
pub try_acquire_iff :
    (w : World) (c bytes : ℕ)
    → WellFormed w
    → (is_some (try_acquire w.heap c bytes).1 ≡ true)
      ↔ (held c w.permits + bytes ≤ (w.heap c).max_bytes)
unfolding try_acquire
try_acquire_iff w c bytes v = ground (arith, v.accounted c, v.within c, v.word c)

-- Shrinking succeeds exactly for a permit that owns a reservation at least as large.
pub shrink_to_iff :
    (w : World) (i bytes : ℕ) (p : Permit)
    → WellFormed w
    → get_elem? w.permits i ≡ some p
    → (shrink_to w.heap p bytes).2 ≡ (owns_reservation p && leb bytes p.bytes)
unfolding shrink_to shrink_control owns_reservation
shrink_to_iff w i bytes p v e = elim (Option-cases p.control) [
  | inl n ↦ rw n
  | inr (c, q) ↦ ground (arith, owned-le-current w i p c v e, owned_own c p q)
]

-- A release returns all of the permit's bytes to its control.
pub release_exact :
    (w : World) (i c : ℕ) (p : Permit)
    → WellFormed w
    → get_elem? w.permits i ≡ some p
    → p.control ≡ some c
    → (((release w.heap p).0 c).current_bytes + p.bytes ≡ (w.heap c).current_bytes)
      × (owns_reservation (release w.heap p).1 ≡ false)
unfolding owns_reservation release release_control give_back
release_exact w i c p v e q = ground (arith, owned-le-current w i p c v e, owned_own c p q)

-- Release every permit, from the last position down.
pub release_all : ℕ → List Op
release_all zero = []
release_all (suc n) = releases n ∷ release_all n

abbrev EmptyFrom : ℕ → ℕ → List Permit → Type 0
EmptyFrom c n ps = (j : ℕ) (p : Permit) → n ≤ j → get_elem? ps j ≡ some p → owned c p ≡ 0

EmptyFrom-zero : (c : ℕ) (ps : List Permit) → EmptyFrom c 0 ps → held c ps ≡ 0
unfolding held
EmptyFrom-zero c [] h = refl
EmptyFrom-zero c (p ∷ ps) h =
    omega (
      arith,
      h 0 p (omega arith) refl,
      EmptyFrom-zero c ps (λ j q l e. h (suc j) q (omega arith) e),
    )

at_release-EmptyFrom :
    (w : World) (c n : ℕ) (o : Option Permit)
    → get_elem? w.permits n ≡ o
    → WellFormed w
    → EmptyFrom c (suc n) w.permits
    → EmptyFrom c n (at_release w n o).permits
unfolding at_release
at_release-EmptyFrom w c n none e v h j p l q = elim (ℕ_discrete n j) [
  | yes s ↦ cc
  | no d ↦ h j p (omega arith) q
]
at_release-EmptyFrom w c n (some x) e v h j p l q = elim (ℕ_discrete n j) [
  | yes s ↦ emptied s
  | no d ↦ h j p (omega arith) (sym (get_elem?-set_ne w.permits n j (release w.heap x).1 d) ∙ q)
]
  where
    emptied : n ≡ j → owned c p ≡ 0
    emptied s =
        let here : (release w.heap x).1 ≡ p = some_inj (
          sym (get_elem?-set_self w.permits n (release w.heap x).1 (get_elem?_bound w.permits n e))
          ∙ (ap (get_elem? (set w.permits n (release w.heap x).1)) s ∙ q)) in
        subst (λ r. owned c r ≡ 0) here (release_effect w.heap x c (owned-le-current w n x c v e)).2

release_all-EmptyFrom :
    (w : World) (c n : ℕ)
    → WellFormed w
    → EmptyFrom c n w.permits
    → EmptyFrom c 0 (run w (release_all n)).permits × WellFormed (run w (release_all n))
unfolding release_all run
release_all-EmptyFrom w c zero v h = (h, v)
release_all-EmptyFrom w c (suc n) v h =
    release_all-EmptyFrom (step w (releases n)) c n (step-WellFormed w (releases n) v)
      (unfold step in at_release-EmptyFrom w c n (get_elem? w.permits n) refl v h)

-- When every permit is released, nothing stays reserved.
pub release_all_drains :
    (w : World) (c : ℕ)
    → WellFormed w
    → ((run w (release_all (length w.permits))).heap c).current_bytes ≡ 0
release_all_drains w c v =
    let (h, v') =
      release_all-EmptyFrom w c (length w.permits) v
        (λ j p l e. absurd (omega (arith, get_elem?_bound w.permits j e))) in
    sym (v'.accounted c) ∙ EmptyFrom-zero c (run w (release_all (length w.permits))).permits h

abbrev pub DeclaresMore : Option ℕ → ℕ → Type 0
DeclaresMore none limit = ⊥
DeclaresMore (some n) limit = limit < n

-- The plan for a body: nothing for a message that is complete; a refusal exactly when a declared
-- length passes the limit; otherwise a reservation of the declared length, or of the limit, which
-- never passes the limit.
pub plan_body_reservation_cases :
    (content_length : Option ℕ) (complete : Bool) (limit : ℕ)
    → let plan = plan_body_reservation content_length complete limit in
      ((plan.kind ≡ nothing) ↔ (complete ≡ true))
      × ((plan.kind ≡ too_large) ↔ ((complete ≡ false) × DeclaresMore content_length limit))
      × (plan.bytes ≤ limit)
unfolding plan_body_reservation
plan_body_reservation_cases none complete limit = ground arith
plan_body_reservation_cases (some n) complete limit = ground arith
