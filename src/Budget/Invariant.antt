-- ===== src/Budget/Invariant.antt =====
-- The accounting invariant of the budget: what a control counts is what the permits hold.
use c_item.Base.{
  ℕ, ◌+◌, ◌^◌, ◌≤◌, ◌<◌, ◌≡◌, ◌≢◌, refl, ◌∙◌, Option, none, some, inl, inr, List, [], ◌∷◌, arith,
  ◌==◌, get_elem?, set, Bool-cases, get_elem?-set_ne, ==_iff,
}
use c_item.Budget.{
  Heap, Permit, World, Op, acquires, releases, moves, assigns, shrinks, give_back, release_control,
  release, move_from, move_assign, shrink_control, shrink_to, try_acquire, add_permit, at_release,
  at_move, at_assign, at_shrink, step, run, empty_permit,
}
use c_item.Budget.Held.{held, owned, held-append, held-set, owned-le-held}

pub record WellFormed (w : World) : Type 0 where
  pub accounted : (c : ℕ) → held c w.permits ≡ (w.heap c).current_bytes
  pub within : (c : ℕ) → (w.heap c).current_bytes ≤ (w.heap c).max_bytes
  pub word : (c : ℕ) → (w.heap c).max_bytes < 2 ^ 64

-- What the release of a permit does to any control that counts its bytes.
pub release_effect :
    (h : Heap) (p : Permit) (c : ℕ)
    → owned c p ≤ (h c).current_bytes
    → (((release h p).0 c).current_bytes + owned c p ≡ (h c).current_bytes)
      × (((release h p).0 c).max_bytes ≡ (h c).max_bytes)
      × (owned c (release h p).1 ≡ 0)
unfolding release release_control give_back
release_effect h p c k = ground arith

shrink_effect :
    (h : Heap) (p : Permit) (bytes c : ℕ)
    → owned c p ≤ (h c).current_bytes
    → let (h', p', done) = shrink_to h p bytes in
      ((h' c).current_bytes + owned c p ≡ (h c).current_bytes + owned c p')
      × ((h' c).max_bytes ≡ (h c).max_bytes)
      × (owned c p' ≤ owned c p)
unfolding shrink_to shrink_control
shrink_effect h p bytes c k = ground arith

acquire_effect :
    (h : Heap) (ps : List Permit) (d bytes c : ℕ)
    → ((e : ℕ) → (h e).current_bytes ≤ (h e).max_bytes)
    → ((e : ℕ) → (h e).max_bytes < 2 ^ 64)
    → let (h', p) = try_acquire h d bytes in
      let w = add_permit h' ps p in
      (held c w.permits + (h c).current_bytes ≡ held c ps + (w.heap c).current_bytes)
      × ((w.heap c).max_bytes ≡ (h c).max_bytes)
      × ((w.heap c).current_bytes ≤ (w.heap c).max_bytes)
unfolding try_acquire add_permit
acquire_effect h ps d bytes c within word = ground (
  arith,
  held-append c ps (record { control = some d; bytes = bytes }),
  within c,
  within d,
  word c,
  word d,
)

-- A permit of a well-formed world holds no more than its control counts.
pub owned-le-current :
    (w : World) (i : ℕ) (p : Permit) (c : ℕ)
    → WellFormed w
    → get_elem? w.permits i ≡ some p
    → owned c p ≤ (w.heap c).current_bytes
owned-le-current w i p c v e = omega (arith, v.accounted c, owned-le-held c w.permits i p e)

at_release-WellFormed :
    (w : World) (i : ℕ) (o : Option Permit)
    → get_elem? w.permits i ≡ o
    → WellFormed w
    → WellFormed (at_release w i o)
unfolding at_release
at_release-WellFormed w i none e v = v
at_release-WellFormed w i (some p) e v = record {
  accounted = λ c. omega (
    arith,
    release_effect w.heap p c (owned-le-current w i p c v e),
    held-set c w.permits i p (release w.heap p).1 e,
    v.accounted c,
  );
  within = λ c. omega (arith, release_effect w.heap p c (owned-le-current w i p c v e), v.within c);
  word = λ c. omega (arith, release_effect w.heap p c (owned-le-current w i p c v e), v.word c);
}

at_shrink-WellFormed :
    (w : World) (i bytes : ℕ) (o : Option Permit)
    → get_elem? w.permits i ≡ o
    → WellFormed w
    → WellFormed (at_shrink w i bytes o)
unfolding at_shrink
at_shrink-WellFormed w i bytes none e v = v
at_shrink-WellFormed w i bytes (some p) e v = record {
  accounted = λ c. omega (
    arith,
    shrink_effect w.heap p bytes c (owned-le-current w i p c v e),
    held-set c w.permits i p (shrink_to w.heap p bytes).1 e,
    v.accounted c,
  );
  within =
      λ c. omega (arith, shrink_effect w.heap p bytes c (owned-le-current w i p c v e), v.within c);
  word =
      λ c. omega (arith, shrink_effect w.heap p bytes c (owned-le-current w i p c v e), v.word c);
}

at_move-WellFormed :
    (w : World) (i : ℕ) (o : Option Permit)
    → get_elem? w.permits i ≡ o
    → WellFormed w
    → WellFormed (at_move w i o)
unfolding at_move move_from
at_move-WellFormed w i none e v = v
at_move-WellFormed w i (some p) e v = record {
  accounted = λ c. omega (
    arith,
    held-set c w.permits i p empty_permit e,
    held-append c (set w.permits i empty_permit) p,
    v.accounted c,
  );
  within = v.within;
  word = v.word;
}

at_assign-WellFormed :
    (w : World) (i j : ℕ) (o q : Option Permit)
    → i ≢ j
    → get_elem? w.permits i ≡ o
    → get_elem? w.permits j ≡ q
    → WellFormed w
    → WellFormed (at_assign w i j o q)
unfolding at_assign move_assign move_from
at_assign-WellFormed w i j (some this) (some other) n e f v = record {
  accounted = λ c. omega (
    arith,
    release_effect w.heap this c (owned-le-current w i this c v e),
    held-set c w.permits i this other e,
    held-set c (set w.permits i other) j other empty_permit
        (get_elem?-set_ne w.permits i j other n ∙ f),
    v.accounted c,
  );
  within = λ c.
      omega (arith, release_effect w.heap this c (owned-le-current w i this c v e), v.within c);
  word =
      λ c. omega (arith, release_effect w.heap this c (owned-le-current w i this c v e), v.word c);
}
at_assign-WellFormed w i j none q n e f v = v
at_assign-WellFormed w i j (some this) none n e f v = v

acquires-WellFormed :
    (w : World) (d bytes : ℕ) → WellFormed w → WellFormed (step w (acquires d bytes))
unfolding step
acquires-WellFormed w d bytes v = record {
  accounted =
      λ c. omega (arith, acquire_effect w.heap w.permits d bytes c v.within v.word, v.accounted c);
  within = λ c. omega (arith, acquire_effect w.heap w.permits d bytes c v.within v.word);
  word = λ c. omega (arith, acquire_effect w.heap w.permits d bytes c v.within v.word, v.word c);
}

-- Every operation on every permit keeps the accounting: each control counts exactly the bytes that
-- its permits hold, and never more than its limit.
pub step-WellFormed : (w : World) (o : Op) → WellFormed w → WellFormed (step w o)
unfolding step
step-WellFormed w (acquires d bytes) v = acquires-WellFormed w d bytes v
step-WellFormed w (releases i) v = at_release-WellFormed w i (get_elem? w.permits i) refl v
step-WellFormed w (moves i) v = at_move-WellFormed w i (get_elem? w.permits i) refl v
step-WellFormed w (assigns i j) v = elim (Bool-cases (i == j)) [
  | inl e ↦ rw e v
  | inr e ↦ rw e (
      at_assign-WellFormed w i j (get_elem? w.permits i) (get_elem? w.permits j)
        (λ q. cc (e, (==_iff i j).1 q)) refl refl v)
]
step-WellFormed w (shrinks i bytes) v =
    at_shrink-WellFormed w i bytes (get_elem? w.permits i) refl v

-- Any history of acquisitions, releases, moves, assignments and shrinks, on any number of permits
-- and controls, leaves each control counting exactly the bytes that its permits hold, and never more
-- than its limit, if it was so before.
pub run-WellFormed : (w : World) (os : List Op) → WellFormed w → WellFormed (run w os)
unfolding run
run-WellFormed w [] v = v
run-WellFormed w (o ∷ os) v = run-WellFormed (step w o) os (step-WellFormed w o v)
