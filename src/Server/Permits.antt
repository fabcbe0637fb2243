-- ===== src/Server/Permits.antt =====
-- ProxyPermit and ProxyAdmissionState of src/http_server_internal.hpp and src/http_server.cpp. The
-- states are cells of a heap; a permit is its pointer, null when it owns nothing.
use c_item.Base.{
  ℕ, zero, suc, ◌+◌, ◌-◌, ◌≤◌, ◌≡◌, ◌≢◌, refl, ap, ◌∙◌, inl, inr, Option, none, some, some_inj,
  List, [], ◌∷◌, ◌++◌, arith, ltb, leb, ◌==◌, ==_iff, if◌then◌else◌, get_elem?, set,
  get_elem?-set_ne, Bool-cases,
}

pub record ProxyAdmissionState : Type 0 where
  pub max_proxies : ℕ
  pub active_proxies : ℕ

abbrev pub States : Type 0
States = ℕ → ProxyAdmissionState

abbrev pub Permit : Type 0
Permit = Option ℕ

abbrev pub update : States → ℕ → ProxyAdmissionState → States
update h p c q = if q == p then c else h q

-- ProxyAdmissionState::release.
unfoldable pub release_state : ProxyAdmissionState → ProxyAdmissionState
release_state s =
    if ltb 0 s.active_proxies then record s { active_proxies = s.active_proxies - 1 } else s

-- ProxyPermit::release, also the destructor.
unfoldable pub release : States → Permit → States × Permit
unfolding release_state
release h none = (h, none)
release h (some c) = (update h c (release_state (h c)), none)

-- ProxyPermit::try_acquire.
unfoldable pub try_acquire : States → Option ℕ → States × Option Permit
try_acquire h none = (h, none)
try_acquire h (some c) = if leb (h c).max_proxies (h c).active_proxies then (h, none) else (
  update h c
      (record { max_proxies = (h c).max_proxies; active_proxies = (h c).active_proxies + 1 }),
  some (some c),
)

pub record World : Type 0 where
  pub states : States
  pub permits : List Permit

pub data Op : Type 0 where
  acquires : Option ℕ → Op
  releases : ℕ → Op
  moves : ℕ → Op
  assigns : ℕ → ℕ → Op

add_permit : States → List Permit → Option Permit → World
add_permit h ps none = record { states = h; permits = ps }
add_permit h ps (some p) = record { states = h; permits = ps ++ p ∷ [] }

at_release : World → ℕ → Option Permit → World
at_release w i none = w
at_release w i (some p) =
    let (h, p') = release w.states p in record { states = h; permits = set w.permits i p' }

-- The move constructor.
at_move : World → ℕ → Option Permit → World
at_move w i none = w
at_move w i (some p) = record { states = w.states; permits = set w.permits i none ++ p ∷ [] }

-- The move assignment between different objects.
at_assign : World → ℕ → ℕ → Option Permit → Option Permit → World
at_assign w i j (some this) (some other) =
    let (h, released) = release w.states this in
    record { states = h; permits = set (set w.permits i other) j none }
at_assign w i j none q = w
at_assign w i j (some this) none = w

unfoldable pub step : World → Op → World
unfolding add_permit at_release at_move at_assign
step w (acquires c) = let (h, p) = try_acquire w.states c in add_permit h w.permits p
step w (releases i) = at_release w i (get_elem? w.permits i)
step w (moves i) = at_move w i (get_elem? w.permits i)
step w (assigns i j) =
    if i == j then w else at_assign w i j (get_elem? w.permits i) (get_elem? w.permits j)

unfoldable pub run : World → List Op → World
run w [] = w
run w (o ∷ os) = run (step w o) os

abbrev owner : ℕ → Permit → ℕ
owner c none = 0
owner c (some d) = if c == d then 1 else 0

-- How many permits of the list own capacity of a state.
unfoldable pub owners : ℕ → List Permit → ℕ
owners c [] = 0
owners c (p ∷ ps) = owner c p + owners c ps

owners-append :
    (c : ℕ) (ps : List Permit) (p : Permit) → owners c (ps ++ p ∷ []) ≡ owners c ps + owner c p
unfolding owners
owners-append c [] p = omega arith
owners-append c (q ∷ ps) p = omega (arith, owners-append c ps p)

owners-set :
    (c : ℕ) (ps : List Permit) (i : ℕ) (p q : Permit)
    → get_elem? ps i ≡ some p
    → owners c (set ps i q) + owner c p ≡ owners c ps + owner c q
unfolding owners
owners-set c [] i p q e = cc
owners-set c (x ∷ ps) zero p q e =
    let same : owner c x ≡ owner c p = ap (owner c) (some_inj e) in omega (arith, same)
owners-set c (x ∷ ps) (suc i) p q e = omega (arith, owners-set c ps i p q e)

owner-le-owners :
    (c : ℕ) (ps : List Permit) (i : ℕ) (p : Permit)
    → get_elem? ps i ≡ some p
    → owner c p ≤ owners c ps
unfolding owners
owner-le-owners c [] i p e = cc
owner-le-owners c (x ∷ ps) zero p e =
    let same : owner c x ≡ owner c p = ap (owner c) (some_inj e) in omega (arith, same)
owner-le-owners c (x ∷ ps) (suc i) p e = omega (arith, owner-le-owners c ps i p e)

pub record WellFormed (w : World) : Type 0 where
  pub counted : (c : ℕ) → owners c w.permits ≡ (w.states c).active_proxies
  pub within : (c : ℕ) → (w.states c).active_proxies ≤ (w.states c).max_proxies

release_effect :
    (h : States) (p : Permit) (c : ℕ)
    → owner c p ≤ (h c).active_proxies
    → ((((release h p).0 c).active_proxies + owner c p) ≡ (h c).active_proxies)
      × (((release h p).0 c).max_proxies ≡ (h c).max_proxies)
      × ((release h p).1 ≡ none)
unfolding release
release_effect h none c k = (omega arith, refl, refl)
release_effect h (some d) c k = ground arith

acquire_effect :
    (h : States) (ps : List Permit) (d : Option ℕ) (c : ℕ)
    → ((e : ℕ) → (h e).active_proxies ≤ (h e).max_proxies)
    → let (h', p) = try_acquire h d in
      let w = add_permit h' ps p in
      (owners c w.permits + (h c).active_proxies ≡ owners c ps + (w.states c).active_proxies)
      × ((w.states c).active_proxies ≤ (w.states c).max_proxies)
unfolding try_acquire add_permit
acquire_effect h ps none c within = (refl, within c)
acquire_effect h ps (some d) c within =
    ground (arith, owners-append c ps (some d), within c, within d)

module _ (w : World) (v : WellFormed w) where
  owner-le-active :
      (i : ℕ) (p : Permit) (c : ℕ)
      → get_elem? w.permits i ≡ some p
      → owner c p ≤ (w.states c).active_proxies
  owner-le-active i p c e = omega (arith, v.counted c, owner-le-owners c w.permits i p e)

  at_release-WellFormed :
      (i : ℕ) (o : Option Permit) → get_elem? w.permits i ≡ o → WellFormed (at_release w i o)
  unfolding at_release
  at_release-WellFormed i none e = v
  at_release-WellFormed i (some p) e = record {
    counted = λ c. omega (
      arith,
      release_effect w.states p c (owner-le-active i p c e),
      owners-set c w.permits i p (release w.states p).1 e,
      ap (owner c) (release_effect w.states p c (owner-le-active i p c e)).2,
      v.counted c,
    );
    within = λ c. omega (arith, release_effect w.states p c (owner-le-active i p c e), v.within c);
  }

  at_move-WellFormed :
      (i : ℕ) (o : Option Permit) → get_elem? w.permits i ≡ o → WellFormed (at_move w i o)
  unfolding at_move
  at_move-WellFormed i none e = v
  at_move-WellFormed i (some p) e = record {
    counted = λ c. omega (
      arith,
      owners-set c w.permits i p none e,
      owners-append c (set w.permits i none) p,
      v.counted c,
    );
    within = v.within;
  }

  at_assign-WellFormed :
      (i j : ℕ) (o q : Option Permit)
      → i ≢ j
      → get_elem? w.permits i ≡ o
      → get_elem? w.permits j ≡ q
      → WellFormed (at_assign w i j o q)
  unfolding at_assign
  at_assign-WellFormed i j (some this) (some other) n e f = record {
    counted = λ c. omega (
      arith,
      release_effect w.states this c (owner-le-active i this c e),
      owners-set c w.permits i this other e,
      owners-set c (set w.permits i other) j other none
          (get_elem?-set_ne w.permits i j other n ∙ f),
      v.counted c,
    );
    within =
        λ c. omega (arith, release_effect w.states this c (owner-le-active i this c e), v.within c);
  }
  at_assign-WellFormed i j none q n e f = v
  at_assign-WellFormed i j (some this) none n e f = v

  step-WellFormed : (o : Op) → WellFormed (step w o)
  unfolding step
  step-WellFormed (acquires d) = record {
    counted = λ c. omega (arith, acquire_effect w.states w.permits d c v.within, v.counted c);
    within = λ c. omega (arith, acquire_effect w.states w.permits d c v.within);
  }
  step-WellFormed (releases i) = at_release-WellFormed i (get_elem? w.permits i) refl
  step-WellFormed (moves i) = at_move-WellFormed i (get_elem? w.permits i) refl
  step-WellFormed (assigns i j) = elim (Bool-cases (i == j)) [
    | inl e ↦ rw e v
    | inr e ↦ rw e (
        at_assign-WellFormed i j (get_elem? w.permits i) (get_elem? w.permits j)
          (λ q. cc (e, (==_iff i j).1 q)) refl refl)
  ]

-- Any history of acquisitions, releases, moves and assignments of permits keeps the count of every
-- admission state equal to the number of permits that own its capacity, and within its limit.
pub permits-WellFormed : (w : World) (os : List Op) → WellFormed w → WellFormed (run w os)
unfolding run
permits-WellFormed w [] v = v
permits-WellFormed w (o ∷ os) v = permits-WellFormed (step w o) os (step-WellFormed w v o)
