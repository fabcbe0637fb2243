-- ===== src/Base/Pieces.antt =====
-- The pieces of a text between the places of a separator, and the first of them.
use c_item.Base.Lists.{length, take, drop}
use c_item.Base.Tests.{◌==◌, if◌then◌else◌, Bool-cases, Option-cases, some_inj}
use c_item.Base.Text.{find_byte}
use Prim.Native.Nat.{ℕ, suc, ◌<◌}
use mathlib.Core.Path.{◌≡◌, refl, ap, subst}
use mathlib.Core.Logic.{inl, inr}
use mathlib.Core.Option.{none, some}
use mathlib.Core.List.{List, [], ◌∷◌}
use native.Mathlib.Omega.{arith}

abbrev pub prepend : ℕ → List (List ℕ) → List (List ℕ)
prepend c [] = (c ∷ []) ∷ []
prepend c (p ∷ ps) = (c ∷ p) ∷ ps

-- Read byte by byte; there is at least one piece.
unfoldable pub pieces : ℕ → List ℕ → List (List ℕ)
pieces b [] = [] ∷ []
pieces b (c ∷ s) = let rest = pieces b s in if c == b then [] ∷ rest else prepend c rest

pub pieces_alone : (b : ℕ) (s : List ℕ) → find_byte b s ≡ none → pieces b s ≡ s ∷ []
unfolding find_byte pieces
pieces_alone b [] e = refl
pieces_alone b (c ∷ s) e = elim (Bool-cases (c == b)) [
  | inl f ↦ cc (rw f at e)
  | inr f ↦ elim (Option-cases (find_byte b s)) [
    | inl g ↦ rw (f, pieces_alone b s g) refl
    | inr (n, g) ↦ cc (rw (f, g) at e)
  ]
]

pub pieces_found :
    (b : ℕ) (s : List ℕ) (n : ℕ)
    → find_byte b s ≡ some n
    → pieces b s ≡ take n s ∷ pieces b (drop (suc n) s)
unfolding find_byte pieces
pieces_found b [] n e = cc
pieces_found b (c ∷ s) n e = elim (Bool-cases (c == b)) [
  | inl f ↦
      let at_front : 0 ≡ n = some_inj (rw f at e) in
      rw f (ap (λ m. take m (c ∷ s) ∷ pieces b (drop (suc m) (c ∷ s))) at_front)
  | inr f ↦ elim (Option-cases (find_byte b s)) [
    | inl g ↦ cc (rw (f, g) at e)
    | inr (m, g) ↦
        let further : suc m ≡ n = omega (arith, some_inj (rw (f, g) at e)) in
        rw (f, pieces_found b s m g)
          (ap (λ k. take k (c ∷ s) ∷ pieces b (drop (suc k) (c ∷ s))) further)
  ]
]

pub length-drop_found :
    (b : ℕ) (s : List ℕ) (n : ℕ) → find_byte b s ≡ some n → length (drop (suc n) s) < length s
unfolding find_byte
length-drop_found b [] n e = cc
length-drop_found b (c ∷ s) n e = elim (Bool-cases (c == b)) [
  | inl f ↦
      let at_front : 0 ≡ n = some_inj (rw f at e) in
      subst (λ m. length (drop m s) < suc (length s)) at_front (omega arith)
  | inr f ↦ elim (Option-cases (find_byte b s)) [
    | inl g ↦ cc (rw (f, g) at e)
    | inr (m, g) ↦
        let further : suc m ≡ n = omega (arith, some_inj (rw (f, g) at e)) in
        subst (λ k. length (drop k s) < suc (length s)) further
          (omega (arith, length-drop_found b s m g))
  ]
]
