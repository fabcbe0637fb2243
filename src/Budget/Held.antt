-- ===== src/Budget/Held.antt =====
-- The bytes that the permits of a list hold of one control.
use c_item.Base.{
  ℕ, zero, suc, ◌+◌, ◌≤◌, ◌≡◌, Option, none, some, some_inj, ap, List, [], ◌∷◌, ◌++◌, arith, ◌==◌,
  if◌then◌else◌, get_elem?, set,
}
use c_item.Budget.{Permit}

abbrev of_control : ℕ → Option ℕ → ℕ → ℕ
of_control c none bytes = 0
of_control c (some d) bytes = if c == d then bytes else 0

abbrev pub owned : ℕ → Permit → ℕ
owned c p = of_control c p.control p.bytes

unfoldable pub held : ℕ → List Permit → ℕ
held c [] = 0
held c (p ∷ ps) = owned c p + held c ps

pub owned_own : (c : ℕ) (p : Permit) → p.control ≡ some c → owned c p ≡ p.bytes
owned_own c p q = ground arith

pub held-append :
    (c : ℕ) (ps : List Permit) (p : Permit) → held c (ps ++ p ∷ []) ≡ held c ps + owned c p
unfolding held
held-append c [] p = omega arith
held-append c (q ∷ ps) p = omega (arith, held-append c ps p)

pub held-set :
    (c : ℕ) (ps : List Permit) (i : ℕ) (p q : Permit)
    → get_elem? ps i ≡ some p
    → held c (set ps i q) + owned c p ≡ held c ps + owned c q
unfolding held
held-set c [] i p q e = cc
held-set c (x ∷ ps) zero p q e =
    let same : owned c x ≡ owned c p = ap (owned c) (some_inj e) in omega (arith, same)
held-set c (x ∷ ps) (suc i) p q e = omega (arith, held-set c ps i p q e)

pub owned-le-held :
    (c : ℕ) (ps : List Permit) (i : ℕ) (p : Permit)
    → get_elem? ps i ≡ some p
    → owned c p ≤ held c ps
unfolding held
owned-le-held c [] i p e = cc
owned-le-held c (x ∷ ps) zero p e =
    let same : owned c x ≡ owned c p = ap (owned c) (some_inj e) in omega (arith, same)
owned-le-held c (x ∷ ps) (suc i) p e = omega (arith, owned-le-held c ps i p e)
